-- ===== src/PubSub/Serving/Single.antt =====
-- The messages of a Pub/Sub topic are handled one at a time, and none is taken on after Shutdown.
use candi_plugin.Base.{
  ℕ, ◌+◌, ◌-◌, ◌≤◌, ◌≡◌, refl, sym, ap, true, false, List, [], ◌∷◌, arith, bytes_eq, length, ==_iff,
  length-append,
}
use candi_plugin.Go.Text.{Bytes}
use candi_plugin.Go.Map.{lookup}
use candi_plugin.Candi.Places.{held, occurs, occurs-append, held-insert}
use candi_plugin.PubSub.Worker.{WorkerEngine}
use candi_plugin.PubSub.Serving.{
  State, empty_places, begin, Step, arrive, turn_away, take_place, finish, cancel, hand_over, close,
  Reach, here, next,
}

pub record Single (s : State) : Type 0 where
  pub taken : (d : Bytes) → occurs d s.jobs ≡ held d s.semaphore
  pub one : (d : Bytes) → held d s.semaphore ≤ 1
  pub stopped : s.is_serving ≡ false → s.is_cancelled ≡ true
  pub closed : s.is_closed ≡ true → s.is_serving ≡ false

pub Step-Single : {s t : State} → Step s t → Single s → Single t
Step-Single (arrive topic id found open_) o = record {
  taken = o.taken;
  one = o.one;
  stopped = o.stopped;
  closed = o.closed;
}
Step-Single (turn_away c) o = o
Step-Single {s} (take_place topic before behind e free) o = record {
  taken = λ d. ground (arith, held-insert topic d 1 s.semaphore, o.taken d, ==_iff d topic, free);
  one = λ d. ground (arith, held-insert topic d 1 s.semaphore, o.one d);
  stopped = o.stopped;
  closed = o.closed;
}
Step-Single {s} (finish topic before behind e) o = record {
  taken = λ d. ground (
    arith,
    o.taken d,
    o.taken topic,
    ap (occurs d) e,
    occurs-append d before (topic ∷ behind),
    occurs-append d before behind,
    held-insert topic d (held topic s.semaphore - 1) s.semaphore,
    ==_iff d topic,
  );
  one = λ d.
      ground
        (arith, o.one d, o.one topic, held-insert topic d (held topic s.semaphore - 1) s.semaphore);
  stopped = o.stopped;
  closed = o.closed;
}
Step-Single cancel o = record {
  taken = o.taken;
  one = o.one;
  stopped = λ e. refl;
  closed = o.closed;
}
Step-Single (hand_over c on) o = record {
  taken = o.taken;
  one = o.one;
  stopped = λ e. c;
  closed = λ e. refl;
}
Step-Single (close off) o = record {
  taken = o.taken;
  one = o.one;
  stopped = o.stopped;
  closed = λ e. off;
}

Reach-Single : {s t : State} → Single s → Reach s t → Single t
Reach-Single o here = o
Reach-Single o (next r step) = Step-Single step (Reach-Single o r)

empty_places-held : (d : Bytes) (m : List (Bytes × Unit {0})) → held d (empty_places m) ≡ 0
unfolding lookup
empty_places-held d [] = refl
empty_places-held d (entry ∷ entries) = ground (arith, empty_places-held d entries)

pub begin-Single : (w : WorkerEngine) → Single (begin w)
begin-Single w = record {
  taken = λ d. sym (empty_places-held d w.semaphore);
  one = λ d. ground (arith, empty_places-held d w.semaphore);
  stopped = λ e. cc;
  closed = λ e. cc;
}

-- How many messages the worker has in hand.
abbrev pub in_hand : State → ℕ
in_hand s = length s.waiting + length s.jobs

Step-fewer :
    {s t : State}
    → Step s t
    → s.is_cancelled ≡ true
    → (t.is_cancelled ≡ true) × (in_hand t ≤ in_hand s)
Step-fewer (arrive topic id found open_) c = cc
Step-fewer (turn_away _) c = (c, omega arith)
Step-fewer (take_place topic before behind e free) c = (
  c,
  omega (arith, ap length e, length-append before (topic ∷ behind), length-append before behind),
)
Step-fewer (finish topic before behind e) c = (
  c,
  omega (arith, ap length e, length-append before (topic ∷ behind), length-append before behind),
)
Step-fewer cancel c = (refl, omega arith)
Step-fewer (hand_over _ on) c = (c, omega arith)
Step-fewer (close off) c = (c, omega arith)

Reach-fewer :
    {s t : State}
    → Reach s t
    → s.is_cancelled ≡ true
    → (t.is_cancelled ≡ true) × (in_hand t ≤ in_hand s)
Reach-fewer here c = (c, omega arith)
Reach-fewer (next r step) c =
    let before = Reach-fewer r c in
    let after = Step-fewer step before.0 in (after.0, omega (arith, before.1, after.1))

-- In whatever order Serve of a worker whose semaphores are empty, the callbacks, the goroutines and Shutdown
-- take their steps: a topic's place is taken by the goroutine of one of its messages, so no two messages
-- of a topic are handled at a time; where the client is closed, Serve has returned, and the context is
-- cancelled; and once it is, the worker takes on no message more, on whatever way it goes on.
pub serve-single :
    (w : WorkerEngine) (t u : State)
    → Reach (begin w) t
    → Reach t u
    → ((d : Bytes) → (occurs d t.jobs ≡ held d t.semaphore) × (occurs d t.jobs ≤ 1))
      × (t.is_closed ≡ true → (t.is_serving ≡ false) × (t.is_cancelled ≡ true))
      × (t.is_cancelled ≡ true → (u.is_cancelled ≡ true) × (in_hand u ≤ in_hand t))
serve-single w t u reached goes_on =
    let o = Reach-Single (begin-Single w) reached in
    (
      λ d. (o.taken d, ground (arith, o.taken d, o.one d)),
      λ e. (o.closed e, o.stopped (o.closed e)),
      Reach-fewer goes_on,
    )
