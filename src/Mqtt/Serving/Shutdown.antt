-- ===== src/Mqtt/Serving/Shutdown.antt =====
-- How Shutdown of mqtt-broker/subscriber.go ends, and what is in hand then.
use candi_plugin.Base.{ℕ, zero, suc, ◌+◌, ◌≤◌, ◌<◌, ◌≡◌, refl, Bool, true, false, arith}
use candi_plugin.Mqtt.Serving.{
  Phase, not_called, waiting, cancelling, sending, disconnecting, returned, State, begin, Step,
  check, add, finish, call, wait_over, cancel, stop, disconnect, Reach, here, next,
}

Reach-trans : {s t u : State} → Reach s t → Reach t u → Reach s u
Reach-trans r here = r
Reach-trans r (next q step) = next (Reach-trans r q) step

-- Whether Shutdown has cancelled the context, and whether Serve still waits for it.
abbrev pub has_cancelled : Phase → Bool
has_cancelled not_called = false
has_cancelled waiting = false
has_cancelled cancelling = false
has_cancelled _ = true

abbrev pub is_awaited : Phase → Bool
is_awaited disconnecting = false
is_awaited returned = false
is_awaited _ = true

pub record Settled (s : State) : Type 0 where
  pub counted : s.wg ≡ s.running
  pub cancelled : s.is_cancelled ≡ has_cancelled s.phase
  pub awaited : s.is_serving ≡ is_awaited s.phase

Step-Settled : {s t : State} → Step s t → Settled s → Settled t
Step-Settled (check p) c = ground (arith, c.counted, c.cancelled, c.awaited)
Step-Settled (add p) c = ground (arith, p, c.counted, c.cancelled, c.awaited)
Step-Settled (finish p) c = ground (arith, p, c.counted, c.cancelled, c.awaited)
Step-Settled (call p) c = ground (arith, p, c.counted, c.cancelled, c.awaited)
Step-Settled (wait_over p q) c = ground (arith, p, c.counted, c.cancelled, c.awaited)
Step-Settled (cancel p) c = ground (arith, p, c.counted, c.cancelled, c.awaited)
Step-Settled (stop p q) c = ground (arith, p, c.counted, c.cancelled, c.awaited)
Step-Settled (disconnect p) c = ground (arith, p, c.counted, c.cancelled, c.awaited)

Reach-Settled : {s t : State} → Settled s → Reach s t → Settled t
Reach-Settled c here = c
Reach-Settled c (next r step) = Step-Settled step (Reach-Settled c r)

-- A state that steps of the program lead to from s: Shutdown and Serve have
-- returned, and no callback is left.
pub record Ends (s : State) : Type 0 where
  pub final : State
  pub reached : Reach s final
  pub done : final.phase ≡ returned
  pub left : final.is_serving ≡ false
  pub idle : final.checked + final.running ≡ 0

Ends-back : {s t : State} → Reach s t → Ends t → Ends s
Ends-back r e = record {
  final = e.final;
  reached = Reach-trans r e.reached;
  done = e.done;
  left = e.left;
  idle = e.idle;
}

-- With no callback left, Shutdown goes on to its end from where it is.
from_returned : (s : State) → s.phase ≡ returned → Settled s → s.checked + s.running ≡ 0 → Ends s
from_returned s e c idle = record {
  final = s;
  reached = here;
  done = e;
  left = ground (arith, e, c.awaited);
  idle = idle;
}

from_disconnecting :
    (s : State) → s.phase ≡ disconnecting → Settled s → s.checked + s.running ≡ 0 → Ends s
from_disconnecting s e c idle =
    let step = disconnect e in
    Ends-back (next here step) (from_returned _ refl (Step-Settled step c) idle)

from_sending : (s : State) → s.phase ≡ sending → Settled s → s.checked + s.running ≡ 0 → Ends s
from_sending s e c idle =
    let step = stop e (ground (arith, e, c.awaited)) in
    Ends-back (next here step) (from_disconnecting _ refl (Step-Settled step c) idle)

from_cancelling :
    (s : State) → s.phase ≡ cancelling → Settled s → s.checked + s.running ≡ 0 → Ends s
from_cancelling s e c idle =
    let step = cancel e in
    Ends-back (next here step) (from_sending _ refl (Step-Settled step c) idle)

from_waiting : (s : State) → s.phase ≡ waiting → Settled s → s.checked + s.running ≡ 0 → Ends s
from_waiting s e c idle =
    let step = wait_over e (ground (arith, idle, c.counted)) in
    Ends-back (next here step) (from_cancelling _ refl (Step-Settled step c) idle)

from_not_called :
    (s : State) → s.phase ≡ not_called → Settled s → s.checked + s.running ≡ 0 → Ends s
from_not_called s e c idle =
    let step = call e in Ends-back (next here step) (from_waiting _ refl (Step-Settled step c) idle)

return_from : (p : Phase) (s : State) → s.phase ≡ p → Settled s → s.checked + s.running ≡ 0 → Ends s
return_from not_called = from_not_called
return_from waiting = from_waiting
return_from cancelling = from_cancelling
return_from sending = from_sending
return_from disconnecting = from_disconnecting
return_from returned = from_returned

-- Each callback behind wg.Add(1) ends.
finish_all : (n : ℕ) (s : State) → s.running ≡ n → Settled s → s.checked ≡ 0 → Ends s
finish_all zero s e c none_checked = return_from s.phase s refl c (omega (arith, e, none_checked))
finish_all (suc n) s e c none_checked =
    let some_running : 0 < s.running = omega (arith, e) in
    let step = finish some_running in
    Ends-back (next here step)
      (finish_all n _ (omega (arith, e)) (Step-Settled step c) none_checked)

-- Each callback in front of it goes on.
add_all : (n : ℕ) (s : State) → s.checked ≡ n → Settled s → Ends s
add_all zero s e c = finish_all s.running s refl c e
add_all (suc n) s e c =
    let some_checked : 0 < s.checked = omega (arith, e) in
    let step = add some_checked in
    Ends-back (next here step) (add_all n _ (omega (arith, e)) (Step-Settled step c))

record Fewer (s t : State) : Type 0 where
  is_cancelled : t.is_cancelled ≡ true
  fewer : t.checked + t.running ≤ s.checked + s.running

Step-Fewer : {s t : State} → Step s t → s.is_cancelled ≡ true → Fewer s t
Step-Fewer (check p) e = absurd (ground (arith, p, e))
Step-Fewer (add p) e = record { is_cancelled = e; fewer = omega (arith, p) }
Step-Fewer (finish p) e = record { is_cancelled = e; fewer = omega arith }
Step-Fewer (call p) e = record { is_cancelled = e; fewer = omega arith }
Step-Fewer (wait_over p q) e = record { is_cancelled = e; fewer = omega arith }
Step-Fewer (cancel p) e = record { is_cancelled = refl; fewer = omega arith }
Step-Fewer (stop p q) e = record { is_cancelled = e; fewer = omega arith }
Step-Fewer (disconnect p) e = record { is_cancelled = e; fewer = omega arith }

Reach-Fewer : {s t : State} → s.is_cancelled ≡ true → Reach s t → Fewer s t
Reach-Fewer e here = record { is_cancelled = e; fewer = omega arith }
Reach-Fewer e (next r step) =
    let m = Reach-Fewer e r in
    let n = Step-Fewer step m.is_cancelled in
    record { is_cancelled = n.is_cancelled; fewer = omega (arith, m.fewer, n.fewer) }

begin-Settled : Settled begin
begin-Settled = record { counted = refl; cancelled = refl; awaited = refl }

-- Once the context is cancelled, the messages in hand only become fewer.
pub cancelled-fewer :
    (s t : State)
    → s.is_cancelled ≡ true
    → Reach s t
    → t.checked + t.running ≤ s.checked + s.running
cancelled-fewer s t cancelled later = (Reach-Fewer cancelled later).fewer

-- In whatever order Serve, Shutdown and the callbacks take their steps: the wait group counts the
-- callbacks that are behind wg.Add(1), the context is cancelled just where Shutdown has come past
-- ctxCancelFunc, and Serve waits just until Shutdown's send; and Shutdown is never stuck, for from each
-- state there are steps to one where it and Serve have returned and no message is in hand.
pub shutdown-Ends :
    (s : State)
    → Reach begin s
    → (s.wg ≡ s.running)
      × (s.is_cancelled ≡ has_cancelled s.phase)
      × (s.is_serving ≡ is_awaited s.phase)
      × Ends s
shutdown-Ends s reached =
    let c = Reach-Settled begin-Settled reached in
    (c.counted, c.cancelled, c.awaited, add_all s.checked s refl c)
