-- ===== src/Stomp/Serving.antt =====
-- Serve of stomp-broker/consumer.go with its goroutines and Shutdown, as steps that may come in any
-- order: the loop of Serve, one goroutine for each message that it passes on, and Shutdown.
pub mod Invariant
pub mod Draining
pub mod Late
mod Tests
use candi_plugin.Base.{
  ℕ, ◌+◌, ◌-◌, ◌≡◌, Bool, true, false, List, [], ◌∷◌, ◌++◌, some, bytes_eq, length, if◌then◌else◌,
  ◌==◌, zero,
}
use candi_plugin.Go.Text.{Bytes}
use candi_plugin.Go.Map.{lookup, insert}
use candi_plugin.Candi.Places.{held}
use candi_plugin.Stomp.Worker.{WorkerEngine}

-- Where the loop of Serve is: at its select, in reflect.Select, at the send into a topic's channel, at
-- the test of isShutdown that follows it, at wg.Add; or returned.
pub data Phase : Type 0 where
  looking : Phase
  receiving : Phase
  sending : Bytes → Phase
  testing : Bytes → Phase
  adding : Bytes → Phase
  left : Phase

-- `jobs` are the destinations of the messages whose goroutine is in processMessage, `closing` of those
-- that have called wg.Done and still hold their place, and `kept` of the places that Serve has taken
-- and returned with. `signals` is how many values the channel `shutdown` holds. Shutdown is called once:
-- `is_signalled` after its send, `is_shutdown` after its assignment, `is_returned` after wg.Wait.
pub record State : Type 0 where
  pub semaphore : List (Bytes × ℕ)
  pub wg : ℕ
  pub signals : ℕ
  pub is_signalled : Bool
  pub is_shutdown : Bool
  pub is_returned : Bool
  pub phase : Phase
  pub jobs : List Bytes
  pub closing : List Bytes
  pub kept : List Bytes

abbrev pub begin : WorkerEngine → State
begin w = record {
  semaphore = w.semaphore;
  wg = 0;
  signals = 0;
  is_signalled = false;
  is_shutdown = w.is_shutdown;
  is_returned = false;
  phase = looking;
  jobs = [];
  closing = [];
  kept = [];
}

pub data Step (s : State) : State → Type 0 where
  -- case <-w.shutdown
  stop : s.phase ≡ looking → s.signals ≡ 1 → Step s (record s { signals = 0; phase = left })
  -- default
  look : s.phase ≡ looking → s.signals ≡ 0 → Step s (record s { phase = receiving })
  -- reflect.Select answers with a message, of any destination.
  receive : (topic : Bytes) → s.phase ≡ receiving → Step s (record s { phase = sending topic })
  -- It answers that a channel is closed, or with no message.
  receive_again : s.phase ≡ receiving → Step s (record s { phase = looking })
  -- A send into a topic's channel, which has one place, goes on where the place is free; a topic
  -- without a channel blocks for ever.
  send :
      (topic : Bytes)
      → s.phase ≡ sending topic
      → lookup topic s.semaphore ≡ some 0
      → Step s (record s { semaphore = insert topic 1 s.semaphore; phase = testing topic })
  -- if w.isShutdown { return }
  leave :
      (topic : Bytes)
      → s.phase ≡ testing topic
      → s.is_shutdown ≡ true
      → Step s (record s { phase = left; kept = topic ∷ s.kept })
  go_on :
      (topic : Bytes)
      → s.phase ≡ testing topic
      → s.is_shutdown ≡ false
      → Step s (record s { phase = adding topic })
  -- wg.Add(1), and the goroutine.
  add :
      (topic : Bytes)
      → s.phase ≡ adding topic
      → Step s (record s { wg = s.wg + 1; phase = looking; jobs = topic ∷ s.jobs })
  -- A goroutine's processMessage has returned: wg.Done().
  finish :
      (topic : Bytes) (before behind : List Bytes)
      → s.jobs ≡ before ++ topic ∷ behind
      → Step s (record s { wg = s.wg - 1; jobs = before ++ behind; closing = topic ∷ s.closing })
  -- <-w.semaphore[message.Destination]
  release :
      (topic : Bytes) (before behind : List Bytes)
      → s.closing ≡ before ++ topic ∷ behind
      → Step s (record s {
        semaphore = insert topic (held topic s.semaphore - 1) s.semaphore;
        closing = before ++ behind;
      })
  -- Shutdown: its send into the channel of one place, its assignment, and wg.Wait.
  signal :
      s.is_signalled ≡ false
      → s.signals ≡ 0
      → Step s (record s { signals = 1; is_signalled = true })
  mark : s.is_signalled ≡ true → Step s (record s { is_shutdown = true })
  wait : s.is_shutdown ≡ true → s.wg ≡ 0 → Step s (record s { is_returned = true })

pub data Reach (s : State) : State → Type 0 where
  here : Reach s s
  next : {t u : State} → Reach s t → Step t u → Reach s u

-- Whether a step is of a goroutine: none of Serve's and of Shutdown's is.
abbrev pub is_goroutine : {s t : State} → Step s t → Bool
is_goroutine (stop e one) = false
is_goroutine (look e none_) = false
is_goroutine (receive topic e) = false
is_goroutine (receive_again e) = false
is_goroutine (send topic e free) = false
is_goroutine (leave topic e down) = false
is_goroutine (go_on topic e up) = false
is_goroutine (add topic e) = false
is_goroutine (finish topic before behind e) = true
is_goroutine (release topic before behind e) = true
is_goroutine (signal e none_) = false
is_goroutine (mark e) = false
is_goroutine (wait e done) = false

-- What steps of the goroutines lead to.
pub data Run (s : State) : State → Type 0 where
  rest : Run s s
  move : {t u : State} → Run s t → (step : Step t u) → is_goroutine step ≡ true → Run s u
