-- ===== src/Mqtt/Subscriber/Routing.antt =====
-- From the handlers that NewMQTTSubscriber mounts (mqtt-broker/subscriber.go) to the handler that a
-- topic comes to (mqtt-broker/router.go).
use candi_plugin.Base.{
  ◌≡◌, refl, sym, ap, ap₂, subst, ◌∙◌, ◌⊎◌, inl, inr, Bool, true, false, List, [], ◌∷◌, some, arith,
  All, bytes_eq,
}
use candi_plugin.Go.Text.{Bytes, trim_slash}
use candi_plugin.Go.Outcome.{ok, ok-cases}
use candi_plugin.Candi.{WorkerHandler, ServiceModule, module_handlers}
use candi_plugin.Mqtt.Router.{Node, new_route_node, has_funcs, match, add_route}
use candi_plugin.Mqtt.Router.Segments.{
  Segment, segments, levels, handler_at, IsPlain, IsClean, Matches, bind, add_segments,
}
use candi_plugin.Mqtt.Router.Adding.{handler_at-static}
use candi_plugin.Mqtt.Router.Paths.{add_route_lem, match_lem}
use candi_plugin.Mqtt.Router.Refines.{Added, add_segments-Added}
use candi_plugin.Mqtt.Router.Matching.{walk_sound, walk_complete, Unshadowed}
use candi_plugin.Mqtt.Subscriber.{
  WorkerEngine, Options, mount_handler, mount_handlers, new_mqtt_subscriber,
}
use candi_plugin.Mqtt.Broker.{Broker}
use native.Mathlib.Decide.{ℕ_discrete}

-- The segments of a handler's pattern, and the levels of a topic.
abbrev pub pattern_of : WorkerHandler → List Segment
pattern_of h = segments (levels (trim_slash h.pattern))

abbrev pub levels_of : Bytes → List Bytes
levels_of topic = levels (trim_slash topic)

abbrev pub In : WorkerHandler → List WorkerHandler → Type 0
In a [] = ⊥
In a (x ∷ xs) = (a ≡ x) ⊎ In a xs

-- What the router holds of the handlers that have been mounted.
pub record Mounted (hs : List WorkerHandler) (root : Node) : Type 0 where
  pub clean : IsClean root
  pub only :
      (q : List Segment)
      → has_funcs (handler_at q root) ≡ true
      → (h : WorkerHandler) × In h hs × (pattern_of h ≡ q) × (handler_at q root ≡ h)
  pub all : (h : WorkerHandler) → In h hs → has_funcs h ≡ true → handler_at (pattern_of h) root ≡ h

pub Segments-discrete : Discrete (List Segment)
Segments-discrete = hlevel ℕ_discrete

true≢false : {b : Bool} → b ≡ true → b ≡ false → ⊥
true≢false p q = not_both (sym p ∙ q)
  where
    not_both : true ≡ false → ⊥
    not_both e = cc

Mounted-nil : Mounted [] new_route_node
Mounted-nil = record {
  clean = (tt, tt);
  only = λ q e. absurd (true≢false e (ap has_funcs (handler_at-static q [])));
  all = λ h m e. absurd m;
}

-- One handler more.
module _ (hs : List WorkerHandler) (h : WorkerHandler) (root root' : Node) (old : Mounted hs root)
    (a : Added (pattern_of h) h root root') where
  Mounted-cons : Mounted (h ∷ hs) root'
  Mounted-cons = record { clean = a.clean; only = only; all = all }
    where
      only :
          (q : List Segment)
          → has_funcs (handler_at q root') ≡ true
          → (g : WorkerHandler) × In g (h ∷ hs) × (pattern_of g ≡ q) × (handler_at q root' ≡ g)
      only q e = elim (Segments-discrete q (pattern_of h)) [
        | yes p ↦ (h, inl refl, sym p, ap (λ r. handler_at r root') p ∙ a.self)
        | no ne ↦
            let kept = a.others q ne in
            let (g, listed, same, held) = old.only q (subst (λ w. has_funcs w ≡ true) kept e) in
            (g, inr listed, same, kept ∙ held)
      ]

      all :
          (g : WorkerHandler)
          → In g (h ∷ hs)
          → has_funcs g ≡ true
          → handler_at (pattern_of g) root' ≡ g
      all g (inl p) e = subst (λ w. handler_at (pattern_of w) root' ≡ w) (sym p) a.self
      all g (inr listed) e = elim (Segments-discrete (pattern_of g) (pattern_of h)) [
        | no ne ↦ a.others (pattern_of g) ne ∙ old.all g listed e
        | yes p ↦
            let held = ap (λ r. handler_at r root) (sym p) ∙ old.all g listed e in
            absurd (true≢false (ap has_funcs held ∙ e) a.free)
      ]

pub add_route-Added :
    (h : WorkerHandler) (root root' : Node) (topic : Bytes)
    → All IsPlain (pattern_of h)
    → IsClean root
    → add_route h.pattern h root ≡ ok (root', topic)
    → Added (pattern_of h) h root root'
add_route-Added h root root' topic plain clean e =
    let (r, ran, built) =
      ok-cases (add_segments (pattern_of h) h [] root) _
        (sym (add_route_lem h.pattern h root) ∙ e) in
    let same : r.0 ≡ root' = ground arith in
    subst (Added (pattern_of h) h root) same
      (add_segments-Added (pattern_of h) h [] r.1 root r.0 plain clean ran)

abbrev rev_onto : List WorkerHandler → List WorkerHandler → List WorkerHandler
rev_onto [] old = old
rev_onto (h ∷ hs) old = rev_onto hs (h ∷ old)

mount_handlers-Mounted :
    (hs old : List WorkerHandler) (w w' : WorkerEngine)
    → All (λ h. All IsPlain (pattern_of h)) hs
    → Mounted old w.router
    → mount_handlers hs w ≡ ok w'
    → Mounted (rev_onto hs old) w'.router
unfolding mount_handlers mount_handler
mount_handlers-Mounted [] old w w' plain m e =
    let same : w.router ≡ w'.router = ground arith in subst (Mounted old) same m
mount_handlers-Mounted (h ∷ hs) old w w' plain m e =
    let (v, one, rest) = ok-cases (mount_handler h w) _ e in
    let (r, added, built) = ok-cases (add_route h.pattern h w.router) _ one in
    let a = add_route-Added h w.router r.0 r.1 plain.0 m.clean added in
    let same : r.0 ≡ v.router = ground arith in
    mount_handlers-Mounted hs (h ∷ old) v w' plain.1
      (subst (Mounted (h ∷ old)) same (Mounted-cons old h w.router r.0 m a)) rest

In-rev_onto :
    (h : WorkerHandler) (hs old : List WorkerHandler) → In h (rev_onto hs old) → In h hs ⊎ In h old
In-rev_onto h [] old m = inr m
In-rev_onto h (g ∷ hs) old m = elim (In-rev_onto h hs (g ∷ old) m) [
  | inl a ↦ inl (inr a)
  | inr (inl e) ↦ inl (inl e)
  | inr (inr a) ↦ inr a
]

rev_onto-In :
    (h : WorkerHandler) (hs old : List WorkerHandler) → In h hs ⊎ In h old → In h (rev_onto hs old)
rev_onto-In h [] old (inl a) = absurd a
rev_onto-In h [] old (inr a) = a
rev_onto-In h (g ∷ hs) old (inl (inl e)) = rev_onto-In h hs (g ∷ old) (inr (inl e))
rev_onto-In h (g ∷ hs) old (inl (inr a)) = rev_onto-In h hs (g ∷ old) (inl a)
rev_onto-In h (g ∷ hs) old (inr a) = rev_onto-In h hs (g ∷ old) (inr (inr a))

module _ (modules : List ServiceModule) (broker : Broker) (opts : List (Options → Options))
    (w : WorkerEngine) (plain : All (λ h. All IsPlain (pattern_of h)) (module_handlers modules))
    (made : new_mqtt_subscriber modules (some broker) opts ≡ ok w) where
  subscriber-Mounted : Mounted (rev_onto (module_handlers modules) []) w.router
  unfolding new_mqtt_subscriber
  subscriber-Mounted =
      mount_handlers-Mounted (module_handlers modules) [] _ w plain Mounted-nil made

  -- Where NewMQTTSubscriber succeeds on patterns with no empty segment, a topic for which the router
  -- finds a handler with functions gets a handler of the service whose pattern fits the topic, and
  -- the parameters are the levels at the pattern's parameters.
  pub match-IsRegistered :
      (topic : Bytes)
      → has_funcs (match topic w.router).0 ≡ true
      → (h : WorkerHandler) × In h (module_handlers modules)
        × Matches (pattern_of h) (levels_of topic)
        × (match topic w.router ≡ (h, bind (pattern_of h) (levels_of topic) []))
  match-IsRegistered topic e =
      let found = match_lem topic w.router in
      let a =
        walk_sound (levels_of topic) w.router [] (subst (λ r. has_funcs r.0 ≡ true) found e) in
      let held : has_funcs (handler_at a.pattern w.router) ≡ true =
        ap (λ r. has_funcs r.0) (sym a.result ∙ sym found) ∙ e in
      let (h, listed, same, at) = subscriber-Mounted.only a.pattern held in
      (
        h,
        only_listed h (In-rev_onto h (module_handlers modules) [] listed),
        subst (λ q. Matches q (levels_of topic)) (sym same) a.fits,
        found ∙ a.result ∙ ap₂ (λ g q. (g, bind q (levels_of topic) [])) at (sym same),
      )
    where
      only_listed :
          (h : WorkerHandler) → In h (module_handlers modules) ⊎ ⊥ → In h (module_handlers modules)
      only_listed h (inl a) = a
      only_listed h (inr b) = absurd b

  pub match_complete :
      (h : WorkerHandler) (topic : Bytes)
      → In h (module_handlers modules)
      → has_funcs h ≡ true
      → Matches (pattern_of h) (levels_of topic)
      → Unshadowed (pattern_of h) (levels_of topic) w.router
      → match topic w.router ≡ (h, bind (pattern_of h) (levels_of topic) [])
  match_complete h topic listed e fits open_ =
      let held =
        subscriber-Mounted.all h (rev_onto-In h (module_handlers modules) [] (inl listed)) e in
      match_lem topic w.router
      ∙ walk_complete (pattern_of h) (levels_of topic) w.router [] fits open_
          (ap has_funcs held ∙ e)
      ∙ ap (λ g. (g, bind (pattern_of h) (levels_of topic) [])) held
