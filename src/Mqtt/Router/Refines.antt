-- ===== src/Mqtt/Router/Refines.antt =====
-- addRoute of mqtt-broker/router.go against its abstract view: the tree is a map from patterns to
-- handlers, and adding a route writes that map at one pattern.
use candi_plugin.Base.{
  ◌≡◌, refl, sym, ap, ap₂, subst, ◌∙◌, ◌≢◌, ◌⊎◌, inl, inr, false, List, [], ◌∷◌, none, some, ◌==◌,
  ==_iff, ==_refl, bytes_eq, Bool-cases, arith, All,
}
use candi_plugin.Go.Outcome.{ok}
use candi_plugin.Go.Text.{Bytes}
use candi_plugin.Candi.{WorkerHandler}
use candi_plugin.Mqtt.Router.{
  Continue, Node, node, absent, present, no_handler, find_child, node_path, node_param_name,
  node_handler, node_children, node_param_child, static_of, param_of, has_funcs, set_handler,
}
use candi_plugin.Mqtt.Router.Segments.{
  Segment, lit, param, add_segments, handler_at, IsPlain, IsClean, AreClean, IsCleanChild,
}
use candi_plugin.Mqtt.Router.Adding.{
  Same, Static, Parameter, insert_child-Static, insert_child-Parameter, AreClean-find, find-path,
  find-nil_of_AreClean, handler_at-static, handler_at-param,
}

IsClean-intro :
    (n : Node) → AreClean (node_children n) → IsCleanChild (node_param_child n) → IsClean n
IsClean-intro (node _ _ _ cs ch _) a b = (a, b)

IsClean-children : (n : Node) → IsClean n → AreClean (node_children n)
IsClean-children (node _ _ _ cs ch _) k = k.0

IsClean-child : (n : Node) → IsClean n → IsCleanChild (node_param_child n)
IsClean-child (node _ _ _ cs ch _) k = k.1

-- What adding a pattern to a node comes to.
pub record Added (segs : List Segment) (h : WorkerHandler) (n n' : Node) : Type 0 where
  pub same : Same n n'
  pub clean : IsClean n'
  pub free : has_funcs (handler_at segs n) ≡ false
  pub self : handler_at segs n' ≡ h
  pub others : (q : List Segment) → q ≢ segs → handler_at q n' ≡ handler_at q n

set_handler-Added :
    (h : WorkerHandler) (norm norm' : Bytes) (n n' : Node)
    → IsClean n
    → set_handler h norm n ≡ ok (n', norm')
    → Added [] h n n'
unfolding set_handler handler_at
set_handler-Added h norm norm' (node b x p cs ch old) n' k e = elim (Bool-cases (has_funcs old)) [
  | inl taken ↦ absurd (ground arith)
  | inr free ↦
      let built : n' ≡ node b x p cs ch h = ground arith in
      rw built (record {
        same = record { path = refl; name = refl };
        clean = k;
        free = free;
        self = refl;
        others = λ q ne.
            elim q
                as (λ q.
                  q ≢ []
                  → handler_at q (node b x p cs ch h) ≡ handler_at q (node b x p cs ch old)) [
                    | [] ↦ (λ w. absurd (w refl))
                    | lit t ∷ r ↦ (λ w. refl)
                    | param y ∷ r ↦ (λ w. refl)
                  ]
              ne;
      })
]

-- The map at a pattern that begins with the segment of a child.
pub at_lit :
    (q : List Segment) (t : Bytes) (n c : Node)
    → ((find_child (node_children n) t ≡ some c)
        ⊎ ((find_child (node_children n) t ≡ none) × (c ≡ static_of t)))
    → handler_at (lit t ∷ q) n ≡ handler_at q c
unfolding handler_at
at_lit q t n c (inl e) = rw (e, handler_at)
at_lit q t n c (inr (e, f)) = rw (e, f, handler_at) (sym (handler_at-static q t))

pub at_param :
    (q : List Segment) (x : Bytes) (n c : Node)
    → (((node_param_child n ≡ present c) × (node_param_name c ≡ x))
        ⊎ ((node_param_child n ≡ absent) × (c ≡ param_of x)))
    → handler_at (param x ∷ q) n ≡ handler_at q c
unfolding handler_at
at_param q x n c (inl (e, f)) = rw (e, handler_at) (rw ((==_iff _ _).1 f))
at_param q x n c (inr (e, f)) = rw (e, f, handler_at) (sym (handler_at-param q x))

pub at_other_param :
    (q : List Segment) (x y : Bytes) (n c : Node)
    → node_param_child n ≡ present c
    → node_param_name c ≡ x
    → x ≢ y
    → handler_at (param y ∷ q) n ≡ no_handler
unfolding handler_at
at_other_param q x y n c e f ne = rw (e, handler_at) (ground (arith, ==_iff (node_param_name c) y))

pub at_free_lit :
    (q : List Segment) (t : Bytes) (n : Node)
    → find_child (node_children n) t ≡ none
    → handler_at (lit t ∷ q) n ≡ no_handler
unfolding handler_at
at_free_lit q t n e = rw (e, handler_at)

pub at_no_param :
    (q : List Segment) (y : Bytes) (n : Node)
    → node_param_child n ≡ absent
    → handler_at (param y ∷ q) n ≡ no_handler
unfolding handler_at
at_no_param q y n e = rw (e, handler_at)

-- The parts of the map that read only the children, or only the parameter's child.
at_lit_cong :
    (q : List Segment) (t : Bytes) (n n' : Node)
    → find_child (node_children n') t ≡ find_child (node_children n) t
    → handler_at (lit t ∷ q) n' ≡ handler_at (lit t ∷ q) n
unfolding handler_at
at_lit_cong q t n n' e = rw (e, handler_at)

at_param_cong :
    (q : List Segment) (x : Bytes) (n n' : Node)
    → node_param_child n' ≡ node_param_child n
    → handler_at (param x ∷ q) n' ≡ handler_at (param x ∷ q) n
unfolding handler_at
at_param_cong q x n n' e = rw (e, handler_at)

at_nil_cong : (n n' : Node) → node_handler n' ≡ node_handler n → handler_at [] n' ≡ handler_at [] n
unfolding handler_at
at_nil_cong n n' e = e

child-IsClean :
    (t : Bytes) (n c : Node)
    → IsClean n
    → ((find_child (node_children n) t ≡ some c)
        ⊎ ((find_child (node_children n) t ≡ none) × (c ≡ static_of t)))
    → IsClean c
child-IsClean t n c k (inl e) = AreClean-find _ t c (IsClean-children n k) e
child-IsClean t n c k (inr (e, f)) = subst IsClean (sym f) (tt, tt)

param-IsClean :
    (x : Bytes) (n c : Node)
    → IsClean n
    → (((node_param_child n ≡ present c) × (node_param_name c ≡ x))
        ⊎ ((node_param_child n ≡ absent) × (c ≡ param_of x)))
    → IsClean c
param-IsClean x n c k (inl (e, f)) = subst IsCleanChild e (IsClean-child n k)
param-IsClean x n c k (inr (e, f)) = subst IsClean (sym f) (tt, tt)

-- A static segment in front of a pattern that has been added below.
module _ (h : WorkerHandler) (n n' : Node) (segs : List Segment) (clean : IsClean n) where
  Static-Added :
      (t norm : Bytes) (k : Continue)
      → t ≢ []
      → (s : Static k n n' norm t) → Added segs h s.child s.child'
      → node_path s.child' ≡ t
      → Added (lit t ∷ segs) h n n'
  Static-Added t norm k ne s a p = record {
    same = s.same;
    clean =
        IsClean-intro n' (s.clean (IsClean-children n clean) (rw p ne) a.clean)
          (rw s.others (IsClean-child n clean));
    free = rw (at_lit segs t n s.child s.source) a.free;
    self = at_lit segs t n' s.child' (inl here) ∙ a.self;
    others = others;
  }
    where
      here : find_child (node_children n') t ≡ some s.child'
      here = s.found p t ∙ rw (==_refl t)

      others : (q : List Segment) → q ≢ lit t ∷ segs → handler_at q n' ≡ handler_at q n
      others [] w = at_nil_cong n n' s.handler
      others (param y ∷ q) w = at_param_cong q y n n' s.others
      others (lit u ∷ q) w = elim (Bool-cases (t == u)) [
        | inr apart ↦ at_lit_cong q u n n' (s.found p u ∙ rw apart)
        | inl equal ↦
            let e : t ≡ u = (==_iff t u).0 equal in
            rw (← e) (
              at_lit q t n' s.child' (inl here)
              ∙ a.others q (λ z. w (ap₂ (λ v r. lit v ∷ r) (sym e) z))
              ∙ sym (at_lit q t n s.child s.source))
      ]

  Parameter-Added :
      (x norm : Bytes) (k : Continue) (s : Parameter k n n' norm x)
      → Added segs h s.child s.child'
      → node_param_name s.child' ≡ x
      → Added (param x ∷ segs) h n n'
  Parameter-Added x norm k s a p = record {
    same = s.same;
    clean = IsClean-intro n' (rw s.others (IsClean-children n clean)) (rw s.found a.clean);
    free = rw (at_param segs x n s.child s.source) a.free;
    self = at_param segs x n' s.child' (inl (s.found, p)) ∙ a.self;
    others = others;
  }
    where
      away : (q : List Segment) (y : Bytes) → x ≢ y → handler_at (param y ∷ q) n ≡ no_handler
      away q y ne = elim s.source [
        | inl (e, f) ↦ at_other_param q x y n s.child e f ne
        | inr (e, f) ↦ at_no_param q y n e
      ]

      others : (q : List Segment) → q ≢ param x ∷ segs → handler_at q n' ≡ handler_at q n
      others [] w = at_nil_cong n n' s.handler
      others (lit u ∷ q) w = at_lit_cong q u n n' (ap (λ cs. find_child cs u) s.others)
      others (param y ∷ q) w = elim (Bool-cases (x == y)) [
        | inr apart ↦
            let ne : x ≢ y = ground (arith, ==_iff x y) in
            at_other_param q x y n' s.child' s.found p ne ∙ sym (away q y ne)
        | inl equal ↦
            let e : x ≡ y = (==_iff x y).0 equal in
            rw (← e) (
              at_param q x n' s.child' (inl (s.found, p))
              ∙ a.others q (λ z. w (ap₂ (λ v r. param v ∷ r) (sym e) z))
              ∙ sym (at_param q x n s.child s.source))
      ]

source-path :
    (t : Bytes) (n c : Node)
    → ((find_child (node_children n) t ≡ some c)
        ⊎ ((find_child (node_children n) t ≡ none) × (c ≡ static_of t)))
    → node_path c ≡ t
source-path t n c (inl e) = find-path (node_children n) t c e
source-path t n c (inr (e, f)) = ap node_path f

source-name :
    (x : Bytes) (n c : Node)
    → (((node_param_child n ≡ present c) × (node_param_name c ≡ x))
        ⊎ ((node_param_child n ≡ absent) × (c ≡ param_of x)))
    → node_param_name c ≡ x
source-name x n c (inl (e, f)) = f
source-name x n c (inr (e, f)) = ap node_param_name f

-- Adding a pattern whose segments are not empty writes the map at that pattern, where it held no
-- handler functions, and nowhere else.
pub add_segments-Added :
    (segs : List Segment) (h : WorkerHandler) (norm norm' : Bytes) (n n' : Node)
    → All IsPlain segs
    → IsClean n
    → add_segments segs h norm n ≡ ok (n', norm')
    → Added segs h n n'
unfolding add_segments
add_segments-Added [] h norm norm' n n' plain k e = set_handler-Added h norm norm' n n' k e
add_segments-Added (lit t ∷ segs) h norm norm' n n' plain k e =
    let s = insert_child-Static _ n n' t norm' e in
    let a =
      add_segments-Added segs h _ norm' s.child s.child' plain.1
        (child-IsClean t n s.child k s.source) s.goes_on in
    Static-Added h n n' segs k t norm' _ plain.0 s a
      (a.same.path ∙ source-path t n s.child s.source)
add_segments-Added (param x ∷ segs) h norm norm' n n' plain k e =
    let s =
      insert_child-Parameter _ n n' x norm' (find-nil_of_AreClean _ (IsClean-children n k)) e in
    let a =
      add_segments-Added segs h _ norm' s.child s.child' plain.1
        (param-IsClean x n s.child k s.source) s.goes_on in
    Parameter-Added h n n' segs k x norm' _ s a (a.same.name ∙ source-name x n s.child s.source)
