-- ===== src/Stomp/Worker/Mounting.antt =====
-- What NewSTOMPWorker of stomp-broker/consumer.go makes of the handlers of the service.
use candi_plugin.Base.{
  ◌≡◌, refl, sym, ap, subst, ◌∙◌, ◌≢◌, List, [], ◌∷◌, ◌++◌, none, some, arith, bytes_eq, map, All,
  ==_iff, ==_refl,
}
use mathlib.Core.List.{append_assoc, append-nil}
use candi_plugin.Go.Text.{Bytes}
use candi_plugin.Go.Map.{lookup, insert, lookup-insert}
use candi_plugin.Go.Outcome.{ok, ok-inj}
use candi_plugin.Go.Act.{after, after-ok}
use candi_plugin.Candi.{
  Event, WorkerHandler, ServiceModule, module_handlers, or_default, subscribe_queue,
}
use candi_plugin.Stomp.Broker.{Broker, Options}
use candi_plugin.Stomp.Worker.{
  WorkerEngine, Client, Locker, refuse_duplicate, refuse_failed, mount_handler, mount_handlers,
  apply_options, empty_worker, new_stomp_worker,
}

abbrev pub added : WorkerHandler → WorkerEngine → WorkerEngine
added h w = record w {
  handlers = insert h.pattern h w.handlers;
  channels = w.channels ++ h.pattern ∷ [];
  semaphore = insert h.pattern 0 w.semaphore;
}

-- A handler that is mounted had no other before it under its pattern.
pub mount_handler-ok :
    (client : Client) (h : WorkerHandler) (w w' : WorkerEngine) (log : List Event)
    → (mount_handler client h w log).0 ≡ ok w'
    → (lookup h.pattern w.handlers ≡ none) × (added h w ≡ w')
unfolding mount_handler refuse_duplicate refuse_failed
mount_handler-ok client h w w' log e = ground (arith, e)

-- What the handlers `hs` add to the worker w, all with free places in the semaphore.
pub record Mounts (hs : List WorkerHandler) (w w' : WorkerEngine) : Type 0 where
  pub kept :
      (q : Bytes) (x : WorkerHandler) → lookup q w.handlers ≡ some x → lookup q w'.handlers ≡ some x
  pub free : (q : Bytes) → lookup q w.semaphore ≡ some 0 → lookup q w'.semaphore ≡ some 0
  pub found : All (λ h. lookup h.pattern w'.handlers ≡ some h) hs
  pub places : All (λ h. lookup h.pattern w'.semaphore ≡ some 0) hs
  pub subscribed : w'.channels ≡ w.channels ++ map (λ h. h.pattern) hs

module _ (h : WorkerHandler) (w : WorkerEngine) where
  added-kept :
      (q : Bytes) (x : WorkerHandler)
      → lookup h.pattern w.handlers ≡ none
      → lookup q w.handlers ≡ some x
      → lookup q (added h w).handlers ≡ some x
  added-kept q x fresh e =
      ground (arith, lookup-insert h.pattern q h w.handlers, ==_iff q h.pattern, fresh, e)

  added-free : (q : Bytes) → lookup q w.semaphore ≡ some 0 → lookup q (added h w).semaphore ≡ some 0
  added-free q e = ground (arith, lookup-insert h.pattern q 0 w.semaphore, e)

  added-found : lookup h.pattern (added h w).handlers ≡ some h
  added-found = ground (arith, lookup-insert h.pattern h.pattern h w.handlers, ==_refl h.pattern)

  added-place : lookup h.pattern (added h w).semaphore ≡ some 0
  added-place = ground (arith, lookup-insert h.pattern h.pattern 0 w.semaphore, ==_refl h.pattern)

Mounts-cons :
    (h : WorkerHandler) (hs : List WorkerHandler) (w w' : WorkerEngine)
    → lookup h.pattern w.handlers ≡ none
    → Mounts hs (added h w) w'
    → Mounts (h ∷ hs) w w'
Mounts-cons h hs w w' fresh rest = record {
  kept = λ q x e. rest.kept q x (added-kept h w q x fresh e);
  free = λ q e. rest.free q (added-free h w q e);
  found = (rest.kept h.pattern h (added-found h w), rest.found);
  places = (rest.free h.pattern (added-place h w), rest.places);
  subscribed = rest.subscribed ∙ append_assoc w.channels (h.pattern ∷ []) (map (λ x. x.pattern) hs);
}

mount_handlers-Mounts :
    (client : Client) (hs : List WorkerHandler) (w w' : WorkerEngine) (log : List Event)
    → (mount_handlers client hs w log).0 ≡ ok w'
    → Mounts hs w w'
unfolding mount_handlers
mount_handlers-Mounts client [] w w' log e = subst (Mounts [] w) (ok-inj e) (record {
  kept = λ q x e. e;
  free = λ q e. e;
  found = tt;
  places = tt;
  subscribed = sym (append-nil w.channels);
})
mount_handlers-Mounts client (h ∷ hs) w w' log e =
    let (w1, first, rest) = after-ok (mount_handler client h w log) (mount_handlers client hs) e in
    let (fresh, made) = mount_handler-ok client h w w1 log first in
    let there = mount_handlers-Mounts client hs w1 w' (mount_handler client h w log).1 rest in
    Mounts-cons h hs w w' fresh (subst (λ x. Mounts hs x w') (sym made) there)

-- Where NewSTOMPWorker returns, each handler of the service is found under its own pattern, so none
-- has taken the place of another; it has a free place in its semaphore, and the worker is subscribed
-- to the patterns in order.
pub new_stomp_worker-Mounts :
    (name : Bytes) (modules : List ServiceModule) (bk : Broker) (client : Client)
    (opts : List (Options Locker → Options Locker)) (default : Options Locker) (log : List Event)
    (w : WorkerEngine)
    → (new_stomp_worker name modules (some bk) client opts default log).0 ≡ ok w
    → Mounts (module_handlers modules) (empty_worker name bk (apply_options opts default)) w
unfolding new_stomp_worker
new_stomp_worker-Mounts name modules bk client opts default log w e =
    mount_handlers-Mounts client (module_handlers modules)
      (empty_worker name bk (apply_options opts default)) w log e

abbrev pub HasDistinctPatterns : List WorkerHandler → Type 0
HasDistinctPatterns [] = Unit
HasDistinctPatterns (h ∷ hs) = All (λ x. x.pattern ≢ h.pattern) hs × HasDistinctPatterns hs

mount_handler_runs :
    (client : Client) (h : WorkerHandler) (w : WorkerEngine) (log : List Event)
    → ((topic : Bytes) (l : List Event) → client topic l ≡ none)
    → lookup h.pattern w.handlers ≡ none
    → mount_handler client h w log ≡ (ok (added h w), subscribe_queue h.pattern ∷ log)
unfolding mount_handler refuse_duplicate refuse_failed
mount_handler_runs client h w log up fresh =
    ground (arith, fresh, up h.pattern (subscribe_queue h.pattern ∷ log))

still_fresh :
    (h : WorkerHandler) (hs : List WorkerHandler) (w : WorkerEngine)
    → All (λ x. x.pattern ≢ h.pattern) hs
    → All (λ x. lookup x.pattern w.handlers ≡ none) hs
    → All (λ x. lookup x.pattern (added h w).handlers ≡ none) hs
still_fresh h [] w apart fresh = tt
still_fresh h (x ∷ hs) w apart fresh = (
  ground (
    arith,
    lookup-insert h.pattern x.pattern h w.handlers,
    ==_iff x.pattern h.pattern,
    apart.0,
    fresh.0,
  ),
  still_fresh h hs w apart.1 fresh.1,
)

mount_handlers_runs :
    (client : Client) (hs : List WorkerHandler) (w : WorkerEngine) (log : List Event)
    → ((topic : Bytes) (l : List Event) → client topic l ≡ none)
    → HasDistinctPatterns hs
    → All (λ x. lookup x.pattern w.handlers ≡ none) hs
    → (w' : WorkerEngine) × ((mount_handlers client hs w log).0 ≡ ok w')
unfolding mount_handlers
mount_handlers_runs client [] w log up apart fresh = (w, refl)
mount_handlers_runs client (h ∷ hs) w log up apart fresh =
    let first = mount_handler_runs client h w log up fresh.0 in
    let (w', rest) =
      mount_handlers_runs client hs (added h w) (subscribe_queue h.pattern ∷ log) up apart.1
        (still_fresh h hs w apart.0 fresh.1) in
    (w', ap (λ r. (after r (mount_handlers client hs)).0) first ∙ rest)

abbrev unmounted : List (Bytes × WorkerHandler)
unmounted = []

none_mounted : (hs : List WorkerHandler) → All (λ x. lookup x.pattern unmounted ≡ none) hs
unfolding lookup
none_mounted [] = tt
none_mounted (h ∷ hs) = (refl, none_mounted hs)

-- NewSTOMPWorker returns where the broker is a STOMP broker that takes every subscription, and no two
-- handlers of the service have one pattern.
pub new_stomp_worker_returns :
    (name : Bytes) (modules : List ServiceModule) (bk : Broker) (client : Client)
    (opts : List (Options Locker → Options Locker)) (default : Options Locker) (log : List Event)
    → ((topic : Bytes) (l : List Event) → client topic l ≡ none)
    → HasDistinctPatterns (module_handlers modules)
    → (w : WorkerEngine) × ((new_stomp_worker name modules (some bk) client opts default log).0
        ≡ ok w)
unfolding new_stomp_worker empty_worker
new_stomp_worker_returns name modules bk client opts default log up apart =
    mount_handlers_runs client (module_handlers modules) _ log up apart
      (none_mounted (module_handlers modules))

added-no_place :
    (h : WorkerHandler) (w : WorkerEngine) (d : Bytes)
    → or_default (lookup d w.semaphore) 0 ≡ 0
    → or_default (lookup d (added h w).semaphore) 0 ≡ 0
added-no_place h w d e = ground (arith, lookup-insert h.pattern d 0 w.semaphore, e)

mount_handlers-no_place :
    (client : Client) (hs : List WorkerHandler) (w w' : WorkerEngine) (log : List Event) (d : Bytes)
    → or_default (lookup d w.semaphore) 0 ≡ 0
    → (mount_handlers client hs w log).0 ≡ ok w'
    → or_default (lookup d w'.semaphore) 0 ≡ 0
unfolding mount_handlers
mount_handlers-no_place client [] w w' log d free e =
    subst (λ (x : WorkerEngine). or_default (lookup d x.semaphore) 0 ≡ 0) (ok-inj e) free
mount_handlers-no_place client (h ∷ hs) w w' log d free e =
    let (w1, first, rest) = after-ok (mount_handler client h w log) (mount_handlers client hs) e in
    let (fresh, made) = mount_handler-ok client h w w1 log first in
    mount_handlers-no_place client hs w1 w' (mount_handler client h w log).1 d
      (subst (λ (x : WorkerEngine). or_default (lookup d x.semaphore) 0 ≡ 0) made
        (added-no_place h w d free))
      rest

-- A worker that has been built holds no place of a semaphore.
pub new_stomp_worker-no_place :
    (name : Bytes) (modules : List ServiceModule) (bk : Broker) (client : Client)
    (opts : List (Options Locker → Options Locker)) (default : Options Locker) (log : List Event)
    (w : WorkerEngine) (d : Bytes)
    → (new_stomp_worker name modules (some bk) client opts default log).0 ≡ ok w
    → or_default (lookup d w.semaphore) 0 ≡ 0
unfolding new_stomp_worker empty_worker lookup
new_stomp_worker-no_place name modules bk client opts default log w d e =
    mount_handlers-no_place client (module_handlers modules)
      (empty_worker name bk (apply_options opts default)) w log d refl e
