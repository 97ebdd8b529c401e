-- ===== src/PubSub/Serving/Draining.antt =====
-- How the Pub/Sub worker of gcppubsub/consumer.go comes to rest: no message waits for a place for ever.
use candi_plugin.Base.{
  ℕ, ◌-◌, ◌≡◌, refl, ap, subst, List, [], ◌∷◌, ◌++◌, some, arith, bytes_eq, All,
}
use candi_plugin.Go.Text.{Bytes}
use candi_plugin.Go.Map.{lookup, insert}
use candi_plugin.Go.Outcome.{ok}
use candi_plugin.Candi.{Event, ServiceModule, module_handlers}
use candi_plugin.Candi.Places.{held, occurs}
use candi_plugin.PubSub.Broker.{Broker}
use candi_plugin.PubSub.Worker.{WorkerEngine, Client, empty_worker, new_pubsub_worker}
use candi_plugin.PubSub.Serving.{
  State, begin, Step, arrive, turn_away, take_place, finish, cancel, hand_over, close, Reach, here,
  next, Run, rest, move,
}
use candi_plugin.PubSub.Serving.Channels.{
  HasPlace, HasPlace-insert, Channelled, mount_handlers-Channelled, empty_places-HasPlace,
}
use candi_plugin.PubSub.Serving.Single.{Single, Step-Single, begin-Single}

-- What keeps a worker going: the channels of its subscriptions, and of the messages that wait.
record Going (s : State) : Type 0 where
  single : Single s
  channels : Channelled s.subscribers s.semaphore
  waits : All (λ d. HasPlace d s.semaphore) s.waiting

All-map : (P Q : Bytes → Type 0) (xs : List Bytes) → ((d : Bytes) → P d → Q d) → All P xs → All Q xs
All-map P Q [] f a = tt
All-map P Q (x ∷ xs) f a = (f x a.0, All-map P Q xs f a.1)

All-without :
    (P : Bytes → Type 0) (before : List Bytes) (d : Bytes) (behind : List Bytes)
    → All P (before ++ d ∷ behind)
    → All P (before ++ behind)
All-without P [] d behind a = a.1
All-without P (x ∷ before) d behind a = (a.0, All-without P before d behind a.1)

Step-Going : {s t : State} → Step s t → Going s → Going t
Step-Going {s} (arrive topic id found open_) g = record {
  single = Step-Single (arrive topic id found open_) g.single;
  channels = g.channels;
  waits = (g.channels topic id found, g.waits);
}
Step-Going (turn_away c) g = g
Step-Going {s} (take_place topic before behind e free) g = record {
  single = Step-Single (take_place topic before behind e free) g.single;
  channels = λ d id q. HasPlace-insert ℕ d topic 1 s.semaphore (g.channels d id q);
  waits =
      All-map (λ d. HasPlace d s.semaphore) _ (before ++ behind)
        (λ d. HasPlace-insert ℕ d topic 1 s.semaphore)
        (All-without (λ d. HasPlace d s.semaphore) before topic behind
          (subst (All (λ d. HasPlace d s.semaphore)) e g.waits));
}
Step-Going {s} (finish topic before behind e) g =
    let n = held topic s.semaphore - 1 in
    record {
      single = Step-Single (finish topic before behind e) g.single;
      channels = λ d id q. HasPlace-insert ℕ d topic n s.semaphore (g.channels d id q);
      waits =
          All-map (λ d. HasPlace d s.semaphore) _ s.waiting
            (λ d. HasPlace-insert ℕ d topic n s.semaphore) g.waits;
    }
Step-Going cancel g = record {
  single = Step-Single cancel g.single;
  channels = g.channels;
  waits = g.waits;
}
Step-Going (hand_over c on) g = record {
  single = Step-Single (hand_over c on) g.single;
  channels = g.channels;
  waits = g.waits;
}
Step-Going (close off) g = record {
  single = Step-Single (close off) g.single;
  channels = g.channels;
  waits = g.waits;
}

Reach-Going : {s t : State} → Going s → Reach s t → Going t
Reach-Going g here = g
Reach-Going g (next r step) = Step-Going step (Reach-Going g r)

Run-trans : {s t u : State} → Run s t → Run t u → Run s u
Run-trans r rest = r
Run-trans r (move q step own) = move (Run-trans r q) step own

Run-Going : {s t : State} → Going s → Run s t → Going t
Run-Going g rest = g
Run-Going g (move r step own) = Step-Going step (Run-Going g r)

-- The goroutines of a state can end one after the other, with the same messages waiting.
end_jobs :
    (jobs : List Bytes) (t : State)
    → t.jobs ≡ jobs
    → (u : State) × Run t u × (u.jobs ≡ []) × (u.waiting ≡ t.waiting)
end_jobs [] t e = (t, rest, e, refl)
end_jobs (topic ∷ jobs) t e =
    let t' : State = record t {
      semaphore = insert topic (held topic t.semaphore - 1) t.semaphore;
      jobs = jobs;
    } in
    let (u, goes_on, idle, same) = end_jobs jobs t' refl in
    (u, Run-trans (move rest (finish topic [] jobs e) refl) goes_on, idle, same)

-- Where no goroutine is left, each message that waits can be handled in turn.
end_waiting :
    (waiting : List Bytes) (t : State)
    → Going t
    → t.jobs ≡ []
    → t.waiting ≡ waiting
    → (u : State) × Run t u × (u.jobs ≡ []) × (u.waiting ≡ [])
end_waiting [] t g idle e = (t, rest, idle, e)
end_waiting (topic ∷ waiting) t g idle e =
    let (n, found) = (subst (All (λ d. HasPlace d t.semaphore)) e g.waits).0 in
    let free : lookup topic t.semaphore ≡ some 0 =
      ground (arith, found, g.single.taken topic, ap (occurs topic) idle) in
    let t' : State = record t {
      semaphore = insert topic 1 t.semaphore;
      waiting = waiting;
      jobs = topic ∷ t.jobs;
    } in
    let step : Step t t' = take_place topic [] waiting e free in
    let (v, ended, idle', same) = end_jobs t'.jobs t' refl in
    let g' = Run-Going (Step-Going step g) ended in
    let (u, goes_on, idle'', none_left) = end_waiting waiting v g' idle' same in
    (u, Run-trans (move rest step refl) (Run-trans ended goes_on), idle'', none_left)

-- In whatever order Serve of a worker that NewPubSubWorker has returned, the callbacks, the goroutines
-- and Shutdown have taken their steps: no message is stuck, for steps of the goroutines and of the
-- messages that wait alone, none of Receive's and of Shutdown's, lead from there to a state where no
-- message is in hand and every place is free, before Shutdown and after it.
pub serve-drains :
    (modules : List ServiceModule) (bk : Broker) (client : Client) (subscriber_id : Bytes)
    (log : List Event) (w : WorkerEngine) (t : State)
    → (new_pubsub_worker modules (some bk) client subscriber_id log).0 ≡ ok w
    → Reach (begin w) t
    → (u : State) × Run t u
      × (u.jobs ≡ [])
      × (u.waiting ≡ [])
      × ((d : Bytes) → held d u.semaphore ≡ 0)
unfolding new_pubsub_worker empty_worker lookup
serve-drains modules bk client subscriber_id log w t made reached =
    let channels =
      mount_handlers-Channelled client subscriber_id (module_handlers modules) (empty_worker bk) w
        log made (λ d id e. cc) in
    let begun : Going (begin w) = record {
      single = begin-Single w;
      channels = λ d id e. empty_places-HasPlace d w.semaphore (channels d id e);
      waits = tt;
    } in
    let g = Reach-Going begun reached in
    let (s, ended, idle, same) = end_jobs t.jobs t refl in
    let g' = Run-Going g ended in
    let (u, goes_on, idle', none_left) = end_waiting s.waiting s g' idle refl in
    let g'' = Run-Going g' goes_on in
    (
      u,
      Run-trans ended goes_on,
      idle',
      none_left,
      λ d. ground (arith, g''.single.taken d, ap (occurs d) idle'),
    )
