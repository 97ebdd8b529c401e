-- ===== src/Rest/Routes/Mounting.antt =====
-- The routes that a module asks for, against those that the engines are told.
use candi_plugin.Base.{◌≡◌, refl, sym, ap, ap₂, ◌∙◌, List, [], ◌∷◌, ◌++◌, map}
use mathlib.Core.List.{map-append}
use candi_plugin.Go.Text.{Bytes}
use candi_plugin.Rest.Routes.{
  Method, Call, handle, use_all, group, Calls, stop, call, Group, middleware, handler, Told,
  group_use, add_route, use_each, trim_suffix_slash, transform_middlewares, echo_call, echo_calls,
  with_chaining_middlewares, fiber_call, fiber_calls,
}

-- A route as a module asks for it.
pub record Route : Type 0 where
  pub place : Group
  pub method : Method
  pub pattern : Bytes
  pub middlewares : List Bytes
  pub handler_name : Bytes

-- The routes that are asked for, in order.
unfoldable mutual
  pub routes_of_call : Group → Call → List Route
  routes_of_call g (handle method pattern h mws) =
      record { place = g; method = method; pattern = pattern; middlewares = mws; handler_name = h }
      ∷ []
  routes_of_call g (use_all mws) = []
  routes_of_call g (group pattern mws cs) = routes_of (g ++ pattern ∷ []) cs

  pub routes_of : Group → Calls → List Route
  routes_of g stop = []
  routes_of g (call c cs) = routes_of_call g c ++ routes_of g cs

-- The routes among what an engine is told.
abbrev pub added : List Told → List Told
added [] = []
added (group_use g mw ∷ told) = added told
added (add_route g method path links ∷ told) = add_route g method path links ∷ added told

-- The middlewares of groups among it.
abbrev pub used : List Told → List Told
used [] = []
used (group_use g mw ∷ told) = group_use g mw ∷ used told
used (add_route g method path links ∷ told) = used told

abbrev pub echo_route : Route → Told
echo_route r =
    add_route r.place r.method (trim_suffix_slash r.pattern) (handler r.handler_name ∷ [])

abbrev pub fiber_route : Route → Told
fiber_route r =
    add_route r.place r.method r.pattern
      (map middleware r.middlewares ++ handler r.handler_name ∷ [])

added-append : (xs ys : List Told) → added (xs ++ ys) ≡ added xs ++ added ys
added-append [] ys = refl
added-append (group_use g mw ∷ xs) ys = added-append xs ys
added-append (add_route g m p l ∷ xs) ys = ap (◌∷◌ (add_route g m p l)) (added-append xs ys)

used-append : (xs ys : List Told) → used (xs ++ ys) ≡ used xs ++ used ys
used-append [] ys = refl
used-append (group_use g mw ∷ xs) ys = ap (◌∷◌ (group_use g mw)) (used-append xs ys)
used-append (add_route g m p l ∷ xs) ys = used-append xs ys

added-use_each : (g : Group) (mws : List Bytes) → added (use_each g mws) ≡ []
unfolding use_each
added-use_each g [] = refl
added-use_each g (mw ∷ mws) = added-use_each g mws

chain-lem :
    (h : Bytes) (mws : List Bytes)
    → with_chaining_middlewares h mws ≡ map middleware mws ++ handler h ∷ []
unfolding with_chaining_middlewares
chain-lem h [] = refl
chain-lem h (mw ∷ mws) = ap (◌∷◌ (middleware mw)) (chain-lem h mws)

-- What two parts of a program come to, for the routes of an engine.
added_two :
    (route : Route → Told) (xs ys : List Told) (rs qs : List Route)
    → added xs ≡ map route rs
    → added ys ≡ map route qs
    → added (xs ++ ys) ≡ map route (rs ++ qs)
added_two route xs ys rs qs e f = added-append xs ys ∙ ap₂ ◌++◌ e f ∙ sym (map-append route rs qs)

mutual
  unfolding echo_call routes_of_call transform_middlewares

  echo_call-routes :
      (g : Group) (c : Call) → added (echo_call g c) ≡ map echo_route (routes_of_call g c)
  echo_call-routes g (handle method pattern h mws) = refl
  echo_call-routes g (use_all mws) = added-use_each g mws
  echo_call-routes g (group pattern mws cs) =
      added-append (use_each (g ++ pattern ∷ []) mws) (echo_calls (g ++ pattern ∷ []) cs)
      ∙ ap₂ ◌++◌ (added-use_each (g ++ pattern ∷ []) mws) (echo_calls-routes (g ++ pattern ∷ []) cs)

  echo_calls-routes :
      (g : Group) (cs : Calls) → added (echo_calls g cs) ≡ map echo_route (routes_of g cs)
  echo_calls-routes g stop = refl
  echo_calls-routes g (call c cs) =
      added_two echo_route (echo_call g c) (echo_calls g cs) (routes_of_call g c) (routes_of g cs)
        (echo_call-routes g c) (echo_calls-routes g cs)

mutual
  unfolding fiber_call routes_of_call

  fiber_call-routes :
      (g : Group) (c : Call) → added (fiber_call g c) ≡ map fiber_route (routes_of_call g c)
  fiber_call-routes g (handle method pattern h mws) =
      ap (λ l. add_route g method pattern l ∷ []) (chain-lem h mws)
  fiber_call-routes g (use_all mws) = added-use_each g mws
  fiber_call-routes g (group pattern mws cs) =
      added-append (use_each (g ++ pattern ∷ []) mws) (fiber_calls (g ++ pattern ∷ []) cs)
      ∙ ap₂ ◌++◌ (added-use_each (g ++ pattern ∷ []) mws)
          (fiber_calls-routes (g ++ pattern ∷ []) cs)

  fiber_calls-routes :
      (g : Group) (cs : Calls) → added (fiber_calls g cs) ≡ map fiber_route (routes_of g cs)
  fiber_calls-routes g stop = refl
  fiber_calls-routes g (call c cs) =
      added_two fiber_route (fiber_call g c) (fiber_calls g cs) (routes_of_call g c)
        (routes_of g cs) (fiber_call-routes g c) (fiber_calls-routes g cs)

mutual
  unfolding echo_call fiber_call

  call-uses : (g : Group) (c : Call) → used (echo_call g c) ≡ used (fiber_call g c)
  call-uses g (handle method pattern h mws) = refl
  call-uses g (use_all mws) = refl
  call-uses g (group pattern mws cs) =
      let g' = g ++ pattern ∷ [] in
      used-append (use_each g' mws) (echo_calls g' cs)
      ∙ ap (◌++◌ (used (use_each g' mws))) (calls-uses g' cs)
      ∙ sym (used-append (use_each g' mws) (fiber_calls g' cs))

  calls-uses : (g : Group) (cs : Calls) → used (echo_calls g cs) ≡ used (fiber_calls g cs)
  calls-uses g stop = refl
  calls-uses g (call c cs) =
      used-append (echo_call g c) (echo_calls g cs)
      ∙ ap₂ ◌++◌ (call-uses g c) (calls-uses g cs)
      ∙ sym (used-append (fiber_call g c) (fiber_calls g cs))

-- The two routers are told of the same routes, in the order in which a module asks for them, and of the
-- same middlewares of groups. Fiber gets each route with its middlewares in order and its handler behind
-- them; Echo gets it with its handler alone, so the middlewares of a route are lost there, and without
-- the slash at the end of its pattern.
pub mount-routes :
    (g : Group) (cs : Calls)
    → (added (echo_calls g cs) ≡ map echo_route (routes_of g cs))
      × (added (fiber_calls g cs) ≡ map fiber_route (routes_of g cs))
      × (used (echo_calls g cs) ≡ used (fiber_calls g cs))
mount-routes g cs = (echo_calls-routes g cs, fiber_calls-routes g cs, calls-uses g cs)
