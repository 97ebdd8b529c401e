-- ===== src/PubSub/Serving.antt =====
-- Serve of gcppubsub/consumer.go with the callbacks of its subscriptions, the goroutines of
-- processMessage and Shutdown, as steps that may come in any order.
pub mod Single
pub mod Channels
pub mod Draining
mod Tests
use candi_plugin.Base.{ℕ, ◌+◌, ◌-◌, ◌≡◌, Bool, true, false, List, [], ◌∷◌, ◌++◌, some, bytes_eq}
use candi_plugin.Go.Text.{Bytes}
use candi_plugin.Go.Map.{lookup, insert}
use candi_plugin.Candi.Places.{held}
use candi_plugin.PubSub.Worker.{WorkerEngine}

-- `waiting` are the topics of the messages whose processMessage has found the worker's context not
-- cancelled and is at its send into the semaphore, `jobs` of those whose goroutine runs.
pub record State : Type 0 where
  pub subscribers : List (Bytes × Bytes)
  pub semaphore : List (Bytes × ℕ)
  pub waiting : List Bytes
  pub jobs : List Bytes
  pub is_serving : Bool
  pub is_cancelled : Bool
  pub is_closed : Bool

-- The channels, which are empty at first.
abbrev pub empty_places : List (Bytes × Unit {0}) → List (Bytes × ℕ)
empty_places [] = []
empty_places (entry ∷ entries) = (entry.0, 0) ∷ empty_places entries

abbrev pub begin : WorkerEngine → State
begin w = record {
  subscribers = w.subscribers;
  semaphore = empty_places w.semaphore;
  waiting = [];
  jobs = [];
  is_serving = true;
  is_cancelled = false;
  is_closed = false;
}

pub data Step (s : State) : State → Type 0 where
  -- Receive calls processMessage for a message of one of the subscriptions.
  arrive :
      (topic id : Bytes)
      → lookup topic s.subscribers ≡ some id
      → s.is_cancelled ≡ false
      → Step s (record s { waiting = topic ∷ s.waiting })
  -- Once the context is cancelled, processMessage returns at once.
  turn_away : s.is_cancelled ≡ true → Step s s
  -- w.semaphore[topic] <- struct{}{}: it goes on where the topic's one place is free, and the goroutine
  -- is started.
  take_place :
      (topic : Bytes) (before behind : List Bytes)
      → s.waiting ≡ before ++ topic ∷ behind
      → lookup topic s.semaphore ≡ some 0
      → Step s (record s {
        semaphore = insert topic 1 s.semaphore;
        waiting = before ++ behind;
        jobs = topic ∷ s.jobs;
      })
  -- A goroutine ends: its deferred function receives from the semaphore.
  finish :
      (topic : Bytes) (before behind : List Bytes)
      → s.jobs ≡ before ++ topic ∷ behind
      → Step s (record s {
        semaphore = insert topic (held topic s.semaphore - 1) s.semaphore;
        jobs = before ++ behind;
      })
  -- Shutdown, call by call: ctxCancelFunc, the send that Serve receives, and Client.Close.
  cancel : Step s (record s { is_cancelled = true })
  hand_over : s.is_cancelled ≡ true → s.is_serving ≡ true → Step s (record s { is_serving = false })
  close : s.is_serving ≡ false → Step s (record s { is_closed = true })

pub data Reach (s : State) : State → Type 0 where
  here : Reach s s
  next : {t u : State} → Reach s t → Step t u → Reach s u

-- Whether a step is of a goroutine or of a message that waits: none of Receive's and of Shutdown's is.
abbrev pub is_own : {s t : State} → Step s t → Bool
is_own (arrive topic id found open_) = false
is_own (turn_away c) = false
is_own (take_place topic before behind e free) = true
is_own (finish topic before behind e) = true
is_own cancel = false
is_own (hand_over c on) = false
is_own (close off) = false

-- What steps of the goroutines and of the messages that wait lead to.
pub data Run (s : State) : State → Type 0 where
  rest : Run s s
  move : {t u : State} → Run s t → (step : Step t u) → is_own step ≡ true → Run s u
