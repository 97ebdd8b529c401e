-- ===== src/Mqtt/Router/Adding.antt =====
-- The tree of mqtt-broker/router.go as a map from patterns to handlers: what insertChild and the
-- loop of addRoute write, and what they leave alone.
use candi_plugin.Base.{
  ◌≡◌, refl, subst, ◌≢◌, ◌⊎◌, inl, inr, true, List, [], ◌∷◌, none, some, ◌==◌, ==_iff, bytes_eq,
  Bool-cases, Option-cases, arith, if◌then◌else◌,
}
use candi_plugin.Go.Outcome.{ok, ok-cases}
use candi_plugin.Go.Text.{Bytes}
use candi_plugin.Mqtt.Router.{
  Node, node, Nodes, nil, cons, absent, present, no_handler, find_child, replace_child,
  append_child, node_path, node_param_name, node_handler, node_children, node_param_child,
  static_of, param_of, insert_child, insert_new, Continue,
}
use candi_plugin.Mqtt.Router.Segments.{Segment, lit, param, handler_at, IsClean, AreClean}

find-replace :
    (cs : Nodes) (t u : Bytes) (c m : Node)
    → find_child cs t ≡ some c
    → node_path m ≡ t
    → find_child (replace_child cs t m) u ≡ (if t == u then some m else find_child cs u)
unfolding find_child replace_child
find-replace nil t u c m e p = cc
find-replace (cons d cs) t u c m e p = ground (
  arith,
  ==_iff (node_path d) t,
  ==_iff (node_path d) u,
  ==_iff (node_path m) u,
  ==_iff t u,
  find-replace cs t u c m,
)

find-append :
    (cs : Nodes) (t u : Bytes) (m : Node)
    → find_child cs t ≡ none
    → node_path m ≡ t
    → find_child (append_child cs m) u ≡ (if t == u then some m else find_child cs u)
unfolding find_child
find-append nil t u m e p = ground (arith, ==_iff (node_path m) u, ==_iff t u)
find-append (cons d cs) t u m e p =
    ground (arith, ==_iff (node_path d) t, ==_iff (node_path d) u, ==_iff t u, find-append cs t u m)

pub AreClean-find :
    (cs : Nodes) (t : Bytes) (c : Node) → AreClean cs → find_child cs t ≡ some c → IsClean c
unfolding find_child
AreClean-find nil t c k e = cc
AreClean-find (cons d cs) t c k e = elim (Bool-cases (node_path d == t)) [
  | inl hit ↦ let same : d ≡ c = ground arith in subst IsClean same k.1
  | inr miss ↦ AreClean-find cs t c k.2 (ground arith)
]

pub find-path : (cs : Nodes) (t : Bytes) (c : Node) → find_child cs t ≡ some c → node_path c ≡ t
unfolding find_child
find-path nil t c e = cc
find-path (cons d cs) t c e = ground (arith, ==_iff (node_path d) t, find-path cs t c)

AreClean-replace :
    (cs : Nodes) (t : Bytes) (m : Node)
    → AreClean cs
    → node_path m ≢ []
    → IsClean m
    → AreClean (replace_child cs t m)
unfolding replace_child
AreClean-replace nil t m k p q = tt
AreClean-replace (cons d cs) t m k p q = elim (Bool-cases (node_path d == t)) [
  | inl hit ↦ rw hit (p, q, k.2)
  | inr miss ↦ rw miss (k.0, k.1, AreClean-replace cs t m k.2 p q)
]

AreClean-append :
    (cs : Nodes) (m : Node)
    → AreClean cs
    → node_path m ≢ []
    → IsClean m
    → AreClean (append_child cs m)
AreClean-append nil m k p q = (p, q, tt)
AreClean-append (cons d cs) m k p q = (k.0, k.1, AreClean-append cs m k.2 p q)

-- So a parameter's segment, whose node has an empty path, meets no static child.
pub find-nil_of_AreClean : (cs : Nodes) → AreClean cs → find_child cs [] ≡ none
unfolding find_child
find-nil_of_AreClean nil k = refl
find-nil_of_AreClean (cons d cs) k =
    ground (arith, k.0, ==_iff (node_path d) [], find-nil_of_AreClean cs k.2)

-- An empty node holds no handler.
pub handler_at-static : (q : List Segment) (t : Bytes) → handler_at q (static_of t) ≡ no_handler
unfolding handler_at find_child
handler_at-static [] t = refl
handler_at-static (lit u ∷ q) t = refl
handler_at-static (param x ∷ q) t = refl

pub handler_at-param : (q : List Segment) (x : Bytes) → handler_at q (param_of x) ≡ no_handler
unfolding handler_at find_child
handler_at-param [] t = refl
handler_at-param (lit u ∷ q) t = refl
handler_at-param (param x ∷ q) t = refl

-- What an operation on a node leaves alone: all but the handler and the nodes below it.
pub record Same (n n' : Node) : Type 0 where
  pub path : node_path n' ≡ node_path n
  pub name : node_param_name n' ≡ node_param_name n

-- The child that insertChild goes on with at a static segment, before and after.
pub record Static (k : Continue) (n n' : Node) (norm t : Bytes) : Type 0 where
  pub child : Node
  pub child' : Node
  pub goes_on : k child ≡ ok (child', norm)
  pub source :
      (find_child (node_children n) t ≡ some child)
      ⊎ ((find_child (node_children n) t ≡ none) × (child ≡ static_of t))
  pub found :
      node_path child' ≡ t
      → (u : Bytes)
      → find_child (node_children n') u
        ≡ (if t == u then some child' else find_child (node_children n) u)
  pub others : node_param_child n' ≡ node_param_child n
  pub clean :
      AreClean (node_children n)
      → node_path child' ≢ []
      → IsClean child'
      → AreClean (node_children n')
  pub handler : node_handler n' ≡ node_handler n
  pub same : Same n n'

pub insert_child-Static :
    (k : Continue) (n n' : Node) (t norm : Bytes)
    → insert_child k n (static_of t) ≡ ok (n', norm)
    → Static k n n' norm t
unfolding insert_child insert_new
insert_child-Static k (node b x p cs ch h) n' t norm e = elim (Option-cases (find_child cs t)) [
  | inl free ↦
      let (r, ran, built) =
        ok-cases (k (static_of t)) _ (rw (free, insert_child, insert_new) at e) in
      let built' : n' ≡ node b x p (append_child cs r.0) ch h = ground arith in
      record {
        child = static_of t;
        child' = r.0;
        goes_on = ground arith;
        source = inr (free, refl);
        found = λ q u. ground (arith, find-append cs t u r.0);
        others = ground arith;
        clean = λ a p q. rw built' (AreClean-append cs r.0 a p q);
        handler = ground arith;
        same = ground arith;
      }
  | inr (c, here) ↦
      let (r, ran, built) = ok-cases (k c) _ (rw (here, insert_child) at e) in
      let built' : n' ≡ node b x p (replace_child cs t r.0) ch h = ground arith in
      record {
        child = c;
        child' = r.0;
        goes_on = ground arith;
        source = inl here;
        found = λ q u. ground (arith, find-replace cs t u c r.0);
        others = ground arith;
        clean = λ a p q. rw built' (AreClean-replace cs t r.0 a p q);
        handler = ground arith;
        same = ground arith;
      }
]

-- The child that insertChild goes on with at a parameter's segment, before and after.
pub record Parameter (k : Continue) (n n' : Node) (norm x : Bytes) : Type 0 where
  pub child : Node
  pub child' : Node
  pub goes_on : k child ≡ ok (child', norm)
  pub source :
      ((node_param_child n ≡ present child) × (node_param_name child ≡ x))
      ⊎ ((node_param_child n ≡ absent) × (child ≡ param_of x))
  pub found : node_param_child n' ≡ present child'
  pub others : node_children n' ≡ node_children n
  pub handler : node_handler n' ≡ node_handler n
  pub same : Same n n'

pub insert_child-Parameter :
    (k : Continue) (n n' : Node) (x norm : Bytes)
    → find_child (node_children n) [] ≡ none
    → insert_child k n (param_of x) ≡ ok (n', norm)
    → Parameter k n n' norm x
unfolding insert_child insert_new
insert_child-Parameter k (node b y p cs absent h) n' x norm free e =
    let (r, ran, built) = ok-cases (k (param_of x)) _ (rw (free, insert_child, insert_new) at e) in
    record {
      child = param_of x;
      child' = r.0;
      goes_on = ground arith;
      source = inr (refl, refl);
      found = ground arith;
      others = ground arith;
      handler = ground arith;
      same = ground arith;
    }
insert_child-Parameter k (node b y p cs (present c) h) n' x norm free e =
    let e' : insert_new k true (present c) (node b y p cs (present c) h) (param_of x)
        ≡ ok (n', norm) =
      rw (free, insert_child) at e in
    elim (Bool-cases (node_param_name c == x)) [
      | inr other ↦ absurd (ground arith)
      | inl agrees ↦
          let (r, ran, built) = ok-cases (k c) _ (rw agrees at e') in
          record {
            child = c;
            child' = r.0;
            goes_on = ground arith;
            source = inl (refl, (==_iff _ _).0 agrees);
            found = ground arith;
            others = ground arith;
            handler = ground arith;
            same = ground arith;
          }
    ]
