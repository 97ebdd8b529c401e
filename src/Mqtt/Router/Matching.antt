-- ===== src/Mqtt/Router/Matching.antt =====
-- match of mqtt-broker/router.go against the abstract view: which pattern answers a topic, and with
-- which parameters.
use candi_plugin.Base.{
  ◌≡◌, refl, sym, ap, ap₂, subst, ◌==◌, ==_iff, bytes_eq, Bool-cases, ◌∙◌, true, false, List, [],
  ◌∷◌, none, some, inl, inr, Option-cases, arith, ◌⊎◌,
}
use candi_plugin.Go.Text.{Bytes}
use candi_plugin.Go.Map.{insert}
use candi_plugin.Candi.{WorkerHandler, Attributes}
use candi_plugin.Mqtt.Router.{
  Node, Child, absent, present, no_handler, has_funcs, find_child, node_children, node_param_child,
  node_param_name, next_route,
}
use candi_plugin.Mqtt.Router.Segments.{Segment, lit, param, walk, handler_at, Matches, bind}
use candi_plugin.Mqtt.Router.Refines.{at_lit, at_param, at_other_param, at_no_param, at_free_lit}

Child-cases : (c : Child) → (c ≡ absent) ⊎ ((n : Node) × (c ≡ present n))
Child-cases absent = inl refl
Child-cases (present n) = inr (n, refl)

-- The pattern by which the loop of match came to its handler.
pub record Answers (ts : List Bytes) (n : Node) (params : Attributes) : Type 0 where
  pub pattern : List Segment
  pub fits : Matches pattern ts
  pub result : walk ts n params ≡ (handler_at pattern n, bind pattern ts params)

walk-child :
    (t : Bytes) (ts : List Bytes) (n c : Node) (params : Attributes)
    → find_child (node_children n) t ≡ some c
    → walk (t ∷ ts) n params ≡ walk ts c params
unfolding walk next_route
walk-child t ts n c params e = rw (e, walk, next_route)

walk-param :
    (t : Bytes) (ts : List Bytes) (n c : Node) (params : Attributes)
    → find_child (node_children n) t ≡ none
    → node_param_child n ≡ present c
    → walk (t ∷ ts) n params ≡ walk ts c (insert (node_param_name c) t params)
unfolding walk next_route
walk-param t ts n c params e f = ground (arith, e, f)

walk-none :
    (t : Bytes) (ts : List Bytes) (n : Node) (params : Attributes)
    → find_child (node_children n) t ≡ none
    → node_param_child n ≡ absent
    → walk (t ∷ ts) n params ≡ (no_handler, params)
unfolding walk next_route
walk-none t ts n params e f = ground (arith, e, f)

no_funcs : (h : WorkerHandler) → has_funcs h ≡ true → h ≡ no_handler → ⊥
no_funcs h e q = not_true (subst (λ h. has_funcs h ≡ true) q e)
  where
    not_true : false ≡ true → ⊥
    not_true h = cc

pub walk_sound :
    (ts : List Bytes) (n : Node) (params : Attributes)
    → has_funcs (walk ts n params).0 ≡ true
    → Answers ts n params
unfolding walk handler_at
walk_sound [] n params e = record { pattern = []; fits = tt; result = refl }
walk_sound (t ∷ ts) n params e = elim (Option-cases (find_child (node_children n) t)) [
  | inr (c, here) ↦
      let step = walk-child t ts n c params here in
      let a = walk_sound ts c params (subst (λ r. has_funcs r.0 ≡ true) step e) in
      record {
        pattern = lit t ∷ a.pattern;
        fits = (refl, a.fits);
        result =
            step
            ∙ a.result
            ∙ ap (λ w. (w, bind a.pattern ts params)) (sym (at_lit a.pattern t n c (inl here)));
      }
  | inl free ↦ elim (Child-cases (node_param_child n)) [
    | inr (c, here) ↦
        let step = walk-param t ts n c params free here in
        let a = walk_sound ts c _ (subst (λ r. has_funcs r.0 ≡ true) step e) in
        let x = node_param_name c in
        record {
          pattern = param x ∷ a.pattern;
          fits = a.fits;
          result =
              step
              ∙ a.result
              ∙ ap (λ w. (w, bind a.pattern ts (insert x t params)))
                  (sym (at_param a.pattern x n c (inl (here, refl))));
        }
    | inl none_here ↦ absurd (no_funcs _ e (ap (λ r. r.0) (walk-none t ts n params free none_here)))
  ]
]

-- Where the pattern has a parameter, no static child of the tree takes the topic's level.
abbrev pub Unshadowed : List Segment → List Bytes → Node → Type 0
Unshadowed [] ts n = Unit
Unshadowed (s ∷ segs) [] n = Unit
Unshadowed (lit u ∷ segs) (t ∷ ts) n =
    (c : Node) → find_child (node_children n) t ≡ some c → Unshadowed segs ts c
Unshadowed (param x ∷ segs) (t ∷ ts) n =
    (find_child (node_children n) t ≡ none)
    × ((c : Node) → node_param_child n ≡ present c → Unshadowed segs ts c)

-- So a pattern with no parameter is never shadowed.
abbrev pub IsStatic : List Segment → Type 0
IsStatic [] = Unit
IsStatic (lit u ∷ segs) = IsStatic segs
IsStatic (param x ∷ segs) = ⊥

pub IsStatic-Unshadowed :
    (segs : List Segment) (ts : List Bytes) (n : Node) → IsStatic segs → Unshadowed segs ts n
IsStatic-Unshadowed [] ts n h = tt
IsStatic-Unshadowed (s ∷ segs) [] n h = tt
IsStatic-Unshadowed (lit u ∷ segs) (t ∷ ts) n h = λ c e. IsStatic-Unshadowed segs ts c h
IsStatic-Unshadowed (param x ∷ segs) (t ∷ ts) n h = elim h [ ]

-- A pattern that the tree holds a handler for answers every topic that it fits, unless a static
-- child shadows one of its parameters.
pub walk_complete :
    (segs : List Segment) (ts : List Bytes) (n : Node) (params : Attributes)
    → Matches segs ts
    → Unshadowed segs ts n
    → has_funcs (handler_at segs n) ≡ true
    → walk ts n params ≡ (handler_at segs n, bind segs ts params)
unfolding walk handler_at
walk_complete [] [] n params m open_ e = refl
walk_complete [] (t ∷ ts) n params m open_ e = elim m [ ]
walk_complete (s ∷ segs) [] n params m open_ e = elim m [ ]
walk_complete (lit u ∷ segs) (t ∷ ts) n params m open_ e =
    elim (Option-cases (find_child (node_children n) t)) [
      | inl free ↦
          absurd (no_funcs (handler_at (lit u ∷ segs) n) e (rw m.0 (at_free_lit segs t n free)))
      | inr (c, here) ↦
          let q : handler_at (lit u ∷ segs) n ≡ handler_at segs c =
            rw m.0 (at_lit segs t n c (inl here)) in
          walk-child t ts n c params here
          ∙ walk_complete segs ts c params m.1 (open_ c here) (subst (λ h. has_funcs h ≡ true) q e)
          ∙ ap (λ h. (h, bind segs ts params)) (sym q)
    ]
walk_complete (param x ∷ segs) (t ∷ ts) n params m open_ e =
    elim (Child-cases (node_param_child n)) [
      | inl free ↦ absurd (no_funcs _ e (at_no_param segs x n free))
      | inr (c, here) ↦ elim (Bool-cases (node_param_name c == x)) [
        | inr other ↦ absurd (
            no_funcs _ e (
              at_other_param segs _ x n c here refl (ground (arith, ==_iff (node_param_name c) x))))
        | inl same ↦
            let name : node_param_name c ≡ x = (==_iff _ _).0 same in
            let q : handler_at (param x ∷ segs) n ≡ handler_at segs c =
              at_param segs x n c (inl (here, name)) in
            walk-param t ts n c params open_.0 here
            ∙ walk_complete segs ts c _ m (open_.1 c here) (subst (λ h. has_funcs h ≡ true) q e)
            ∙ ap₂ (λ h y. (h, bind segs ts (insert y t params))) (sym q) name
      ]
    ]
