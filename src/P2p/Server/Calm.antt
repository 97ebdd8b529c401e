-- ===== src/P2p/Server/Calm.antt =====
-- What the goroutines of p2p/tcp.go and p2p/udp.go count: places, closings and calls of handlers; and
-- the acts that leave these alone.
use candi_plugin.Base.{
  ℕ, ◌+◌, ◌≡◌, refl, Bool, true, false, List, [], ◌∷◌, Option, none, some, arith, bytes_eq,
  if◌then◌else◌,
}
use candi_plugin.Go.Text.{Bytes}
use candi_plugin.Go.Outcome.{Outcome, ok, panics}
use candi_plugin.Go.Act.{Act, deferred}
use candi_plugin.Candi.{Error}
use candi_plugin.P2p.Types.{
  Event, acquire, release, conn_close, conn_write, close_write, handle, set_tag, trace_log,
  Behaviour, HandlerFunc,
}
use candi_plugin.P2p.Chunks.{Conn, tcp_write, udp_write}
use candi_plugin.P2p.Server.{run_behaviour, reply_error, emit_tags}
use candi_plugin.P2p.Server.Writing.{tcp_write-keeps, udp_write-keeps, run_behaviour-keeps}
use candi_plugin.P2p.Server.Replies.{is_shut, received}

abbrev pub count : (Event → Bool) → List Event → ℕ
count p [] = 0
count p (e ∷ log) = (if p e then 1 else 0) + count p log

abbrev pub is_acquire : Event → Bool
is_acquire acquire = true
is_acquire _ = false

abbrev pub is_release : Event → Bool
is_release release = true
is_release _ = false

abbrev pub is_close : Event → Bool
is_close conn_close = true
is_close _ = false

-- The calls of handler functions, the last first: the prefix and the message of each.
abbrev pub handled : List Event → List (Bytes × Bytes)
handled [] = []
handled (handle prefix message ∷ log) = (prefix, message) ∷ handled log
handled (e ∷ log) = handled log

-- Acts that take and give back no place, close no connection and call no handler.
pub record Calm (log l : List Event) : Type 0 where
  pub acquires : count is_acquire l ≡ count is_acquire log
  pub releases : count is_release l ≡ count is_release log
  pub closes : count is_close l ≡ count is_close log
  pub handles : handled l ≡ handled log

Calm-refl : (log : List Event) → Calm log log
Calm-refl log = record { acquires = refl; releases = refl; closes = refl; handles = refl }

-- A method Write that does no more.
abbrev pub IsCalm : (Bytes → Act Event (ℕ × Option Error)) → Type 0
IsCalm write = (log : List Event) (m : Bytes) (l : List Event) → Calm log l → Calm log (write m l).1

by_write :
    (log : List Event) (s : Bytes) (l : List Event) → Calm log l → Calm log (conn_write s ∷ l)
by_write log s l c = ground (arith, c)

by_close : (log l : List Event) → Calm log l → Calm log (close_write ∷ l)
by_close log l c = ground (arith, c)

by_log :
    (log : List Event) (k v : Bytes) (l : List Event) → Calm log l → Calm log (trace_log k v ∷ l)
by_log log k v l c = ground (arith, c)

pub tcp_write-IsCalm : (size : ℕ) (conn : Conn) → IsCalm (tcp_write size conn)
tcp_write-IsCalm size conn log =
    tcp_write-keeps (Calm log) (by_write log) (by_close log) (by_log log) size conn

pub udp_write-IsCalm : (conn : Conn) → IsCalm (udp_write conn)
udp_write-IsCalm conn log =
    udp_write-keeps (Calm log) (by_write log) (by_close log) (by_log log) conn

run_behaviour-Calm :
    (write : Bytes → Act Event (ℕ × Option Error))
    → IsCalm write
    → (b : Behaviour) (log : List Event) → Calm log (run_behaviour write b log).1
run_behaviour-Calm write calm b log =
    run_behaviour-keeps (Calm log) (by_write log) (by_close log) (by_log log) write (calm log) b log
      (Calm-refl log)

pub record Replied (log : List Event) (r : Outcome (Option Error) × List Event) : Type 0 where
  pub err : Option Error
  pub returns : r.0 ≡ ok err
  pub calm : Calm log r.1

reply_error-Replied :
    (o : Outcome (Option Error)) (log l : List Event) → Calm log l → Replied log (reply_error o l)
unfolding reply_error
reply_error-Replied (ok none) log l c = record { err = none; returns = refl; calm = c }
reply_error-Replied (ok (some e)) log l c = record {
  err = some e;
  returns = refl;
  calm = by_write log e l c;
}
reply_error-Replied (panics v) log l c = record {
  err = some v;
  returns = refl;
  calm = by_write log v l c;
}

-- The emits of the tracer.
pub record Quiet (log : List Event) (r : Outcome (Unit {0}) × List Event) : Type 0 where
  pub returns : r.0 ≡ ok tt
  pub calm : Calm log r.1
  pub shut : is_shut r.1 ≡ is_shut log
  pub same : received r.1 ≡ received log

pub emit_tags-Quiet : (keys : List Bytes) (log : List Event) → Quiet log (emit_tags keys log)
unfolding emit_tags
emit_tags-Quiet [] log = record { returns = refl; calm = Calm-refl log; shut = refl; same = refl }
emit_tags-Quiet (key ∷ keys) log =
    let ih = emit_tags-Quiet keys (set_tag key ∷ log) in ground (arith, ih, ih.calm)

pub called_Replied :
    (write : Bytes → Act Event (ℕ × Option Error)) (target message : Bytes) (f : HandlerFunc)
    (log : List Event)
    → IsCalm write
    → Replied (handle target message ∷ log) (
        deferred
          (run_behaviour write (f (handle target message ∷ log) message))
          reply_error
          (handle target message ∷ log))
called_Replied write target message f log calm =
    let log' = handle target message ∷ log in
    reply_error-Replied _ log' _ (run_behaviour-Calm write calm (f log' message) log')
