-- ===== src/Mqtt/Serving.antt =====
-- mqtt-broker/subscriber.go: Serve, Shutdown and the callbacks of the client, which calls processMessage
-- for as many messages at once as it likes, as steps that interleave. What a callback does to its
-- message is in Mqtt.Subscriber; here it is a count.
pub mod Shutdown
mod Tests
use candi_plugin.Base.{ℕ, ◌+◌, ◌-◌, ◌<◌, ◌≡◌, Bool, true, false}

-- Where Shutdown is: not called; at wg.Wait(); at ctxCancelFunc(); at the send into w.shutdown; at
-- Disconnect; returned.
pub data Phase : Type 0 where
  not_called : Phase
  waiting : Phase
  cancelling : Phase
  sending : Phase
  disconnecting : Phase
  returned : Phase

-- `checked` callbacks have read w.ctx.Err() as nil and are in front of wg.Add(1), `running` behind it;
-- Serve is at `<-w.shutdown` while is_serving.
pub record State : Type 0 where
  pub wg : ℕ
  pub checked : ℕ
  pub running : ℕ
  pub is_cancelled : Bool
  pub is_serving : Bool
  pub phase : Phase

-- Serve has subscribed to its topics.
abbrev pub begin : State
begin = record {
  wg = 0;
  checked = 0;
  running = 0;
  is_cancelled = false;
  is_serving = true;
  phase = not_called;
}

pub data Step (s : State) : State → Type 0 where
  -- A callback for a message begins, and w.ctx.Err() is nil; if it is not, it returns at once.
  check : s.is_cancelled ≡ false → Step s (record s { checked = s.checked + 1 })
  -- w.wg.Add(1)
  add :
      0 < s.checked
      → Step s (record s { checked = s.checked - 1; running = s.running + 1; wg = s.wg + 1 })
  -- The deferred function: w.wg.Done()
  finish : 0 < s.running → Step s (record s { running = s.running - 1; wg = s.wg - 1 })
  call : s.phase ≡ not_called → Step s (record s { phase = waiting })
  wait_over : s.phase ≡ waiting → s.wg ≡ 0 → Step s (record s { phase = cancelling })
  cancel : s.phase ≡ cancelling → Step s (record s { phase = sending; is_cancelled = true })
  -- The channel has no buffer: Serve receives as Shutdown sends, and returns.
  stop :
      s.phase ≡ sending
      → s.is_serving ≡ true
      → Step s (record s { phase = disconnecting; is_serving = false })
  disconnect : s.phase ≡ disconnecting → Step s (record s { phase = returned })

pub data Reach (s : State) : State → Type 0 where
  here : Reach s s
  next : {t u : State} → Reach s t → Step t u → Reach s u
