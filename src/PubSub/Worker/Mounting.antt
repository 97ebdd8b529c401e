-- ===== src/PubSub/Worker/Mounting.antt =====
-- What NewPubSubWorker of gcppubsub/consumer.go makes of the handlers of the service.
use candi_plugin.Base.{
  ◌≡◌, sym, ap, ◌∙◌, ◌⊎◌, inr, true, List, [], ◌∷◌, ◌++◌, Option, none, some, arith, bytes_eq, ◌==◌,
  if◌then◌else◌,
}
use candi_plugin.Go.Text.{Bytes, codes}
use candi_plugin.Go.Map.{lookup, insert, lookup-insert}
use candi_plugin.Go.Outcome.{ok, ok-inj}
use candi_plugin.Go.Act.{after-ok}
use candi_plugin.Candi.{
  Event, WorkerHandler, ServiceModule, module_handlers, check_topic, create_topic_call,
}
use candi_plugin.PubSub.Broker.{Broker}
use candi_plugin.PubSub.Worker.{
  WorkerEngine, Client, must, ensure_topic, ensure_subscription, create_topic, create_subscription,
  mount_handler, mount_handlers, empty_worker, new_pubsub_worker,
}

-- createTopic answers the topic's name only where the client says that there is one, or where it has
-- asked for its creation and that did not fail.
pub create_topic-ok :
    (client : Client) (name topic : Bytes) (log : List Event)
    → (create_topic client name log).0 ≡ ok topic
    → (topic ≡ name)
      × ((client.topic_exists (check_topic name ∷ log) ≡ inr true)
          ⊎ (client.create_topic_error (create_topic_call name ∷ check_topic name ∷ log) ≡ none))
unfolding create_topic ensure_topic must
create_topic-ok client name topic log e = ground (arith, e)

create_subscription-ok :
    (client : Client) (id topic sub : Bytes) (log : List Event)
    → (create_subscription client id topic log).0 ≡ ok sub
    → sub ≡ id
unfolding create_subscription ensure_subscription must
create_subscription-ok client id topic sub log e = ground (arith, e)

-- The last handler of a pattern, or `x` where there is none.
abbrev pub last_of : Bytes → List WorkerHandler → Option WorkerHandler → Option WorkerHandler
last_of q [] x = x
last_of q (h ∷ hs) x = last_of q hs (if q == h.pattern then some h else x)

module _ (subscriber_id : Bytes) where
  abbrev pub sub_id : Bytes → Bytes
  sub_id pattern = subscriber_id ++ (codes "_" ++ pattern)

  abbrev pub added : WorkerHandler → WorkerEngine → WorkerEngine
  added h w = record w {
    subscribers = insert h.pattern (sub_id h.pattern) w.subscribers;
    handlers = insert h.pattern h w.handlers;
    semaphore = insert h.pattern tt w.semaphore;
  }

  pub mount_handler-ok :
      (client : Client) (h : WorkerHandler) (w w' : WorkerEngine) (log : List Event)
      → (mount_handler client subscriber_id h w log).0 ≡ ok w'
      → w' ≡ added h w
  unfolding mount_handler
  mount_handler-ok client h w w' log e =
      let (topic, made, rest) = after-ok (create_topic client h.pattern log) _ e in
      let t = create_topic client h.pattern log in
      let (sub, made', rest') =
        after-ok (create_subscription client (sub_id h.pattern) topic t.1) _ rest in
      let named = create_subscription-ok client (sub_id h.pattern) topic sub t.1 made' in
      sym (ok-inj rest')
      ∙ ap
          (λ s. record w {
            subscribers = insert h.pattern s w.subscribers;
            handlers = insert h.pattern h w.handlers;
            semaphore = insert h.pattern tt w.semaphore;
          })
          named

  -- The subscription for a pattern, or `x` where there is none.
  abbrev pub sub_of : Bytes → List WorkerHandler → Option Bytes → Option Bytes
  sub_of q [] x = x
  sub_of q (h ∷ hs) x = sub_of q hs (if q == h.pattern then some (sub_id h.pattern) else x)

  mount_handlers-last :
      (client : Client) (hs : List WorkerHandler) (w w' : WorkerEngine) (log : List Event)
      (q : Bytes)
      → (mount_handlers client subscriber_id hs w log).0 ≡ ok w'
      → (lookup q w'.handlers ≡ last_of q hs (lookup q w.handlers))
        × (lookup q w'.subscribers ≡ sub_of q hs (lookup q w.subscribers))
  unfolding mount_handlers
  mount_handlers-last client [] w w' log q e = (
    ap (λ x. lookup q x.handlers) (sym (ok-inj e)),
    ap (λ x. lookup q x.subscribers) (sym (ok-inj e)),
  )
  mount_handlers-last client (h ∷ hs) w w' log q e =
      let m = mount_handler client subscriber_id h w log in
      let (w1, first, rest) = after-ok m (mount_handlers client subscriber_id hs) e in
      let made = mount_handler-ok client h w w1 log first in
      let (found, sub) = mount_handlers-last client hs w1 w' m.1 q rest in
      (
        found
            ∙ ap (last_of q hs)
                (ap (λ x. lookup q x.handlers) made ∙ lookup-insert h.pattern q h w.handlers),
        sub
            ∙ ap (sub_of q hs) (
                ap (λ x. lookup q x.subscribers) made
                ∙ lookup-insert h.pattern q (sub_id h.pattern) w.subscribers),
      )

-- Where NewPubSubWorker returns, the worker holds for each topic the last handler of the service that
-- has it as its pattern: an earlier one is overwritten without a word. It receives from one
-- subscription for each pattern, whose identifier is the subscriber's, an underscore and the pattern.
pub new_pubsub_worker-last :
    (modules : List ServiceModule) (bk : Broker) (client : Client) (subscriber_id : Bytes)
    (log : List Event) (w : WorkerEngine) (q : Bytes)
    → (new_pubsub_worker modules (some bk) client subscriber_id log).0 ≡ ok w
    → (lookup q w.handlers ≡ last_of q (module_handlers modules) none)
      × (lookup q w.subscribers ≡ sub_of subscriber_id q (module_handlers modules) none)
unfolding new_pubsub_worker empty_worker lookup
new_pubsub_worker-last modules bk client subscriber_id log w q e =
    mount_handlers-last subscriber_id client (module_handlers modules) (empty_worker bk) w log q e
