-- ===== src/PubSub/Serving/Channels.antt =====
-- Each topic that a worker of NewPubSubWorker (gcppubsub/consumer.go) receives from has its channel in
-- the semaphore.
use candi_plugin.Base.{
  ◌≡◌, sym, ap, subst, ◌∙◌, Bool, List, [], ◌∷◌, some, bytes_eq, if◌then◌else◌, ◌==◌, Bool-cases,
  inl, inr,
}
use candi_plugin.Go.Text.{Bytes}
use candi_plugin.Go.Map.{lookup, insert, lookup-insert}
use candi_plugin.Go.Outcome.{ok, ok-inj}
use candi_plugin.Go.Act.{after-ok}
use candi_plugin.Candi.{Event, WorkerHandler}
use candi_plugin.PubSub.Worker.{WorkerEngine, Client, mount_handler, mount_handlers}
use candi_plugin.PubSub.Worker.Mounting.{mount_handler-ok}
use candi_plugin.PubSub.Serving.{empty_places}

-- A topic that has a channel.
abbrev pub HasPlace : {V : Type 0} → Bytes → List (Bytes × V) → Type 0
HasPlace {V} d m = (v : V) × (lookup d m ≡ some v)

pub HasPlace-insert :
    (V : Type 0) (d topic : Bytes) (v : V) (m : List (Bytes × V))
    → HasPlace d m
    → HasPlace d (insert topic v m)
HasPlace-insert V d topic v m (u, e) = elim (Bool-cases (d == topic)) [
  | inl here_ ↦
      (v, lookup-insert topic d v m ∙ ap (λ (b : Bool). if b then some v else lookup d m) here_)
  | inr other ↦
      (u, lookup-insert topic d v m ∙ ap (λ (b : Bool). if b then some v else lookup d m) other ∙ e)
]

-- Each topic of a subscription has a channel.
abbrev pub Channelled : {V : Type 0} → List (Bytes × Bytes) → List (Bytes × V) → Type 0
Channelled subscribers semaphore =
    (d id : Bytes) → lookup d subscribers ≡ some id → HasPlace d semaphore

Channelled-insert :
    (V : Type 0) (topic sub : Bytes) (v : V) (subscribers : List (Bytes × Bytes))
    (semaphore : List (Bytes × V))
    → Channelled subscribers semaphore
    → Channelled (insert topic sub subscribers) (insert topic v semaphore)
Channelled-insert V topic sub v subscribers semaphore c d id e = elim (Bool-cases (d == topic)) [
  | inl here_ ↦ (
    v,
    lookup-insert topic d v semaphore
        ∙ ap (λ (b : Bool). if b then some v else lookup d semaphore) here_,
  )
  | inr other ↦
      let old =
        sym (ap (λ (b : Bool). if b then some sub else lookup d subscribers) other)
        ∙ sym (lookup-insert topic d sub subscribers)
        ∙ e in
      HasPlace-insert V d topic v semaphore (c d id old)
]

pub mount_handlers-Channelled :
    (client : Client) (subscriber_id : Bytes) (hs : List WorkerHandler) (w w' : WorkerEngine)
    (log : List Event)
    → (mount_handlers client subscriber_id hs w log).0 ≡ ok w'
    → Channelled w.subscribers w.semaphore
    → Channelled w'.subscribers w'.semaphore
unfolding mount_handlers
mount_handlers-Channelled client subscriber_id [] w w' log e c =
    subst (λ x. Channelled x.subscribers x.semaphore) (ok-inj e) c
mount_handlers-Channelled client subscriber_id (h ∷ hs) w w' log e c =
    let m = mount_handler client subscriber_id h w log in
    let (w1, first, rest) = after-ok m (mount_handlers client subscriber_id hs) e in
    let added = mount_handler-ok subscriber_id client h w w1 log first in
    mount_handlers-Channelled client subscriber_id hs w1 w' m.1 rest (
      subst (λ (x : WorkerEngine). Channelled x.subscribers x.semaphore) (sym added)
        (Channelled-insert Unit h.pattern _ tt w.subscribers w.semaphore c))

pub empty_places-HasPlace :
    (d : Bytes) (m : List (Bytes × Unit {0})) → HasPlace d m → HasPlace d (empty_places m)
unfolding lookup
empty_places-HasPlace d [] h = cc
empty_places-HasPlace d (entry ∷ entries) (u, e) = elim (Bool-cases (d == entry.0)) [
  | inl here_ ↦ (0, ap (λ (b : Bool). if b then some 0 else lookup d (empty_places entries)) here_)
  | inr other ↦
      let (n, found) =
        empty_places-HasPlace d entries
          (u, sym (ap (λ (b : Bool). if b then some entry.1 else lookup d entries) other) ∙ e) in
      (n, ap (λ (b : Bool). if b then some 0 else lookup d (empty_places entries)) other ∙ found)
]
