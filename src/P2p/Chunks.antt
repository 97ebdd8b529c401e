-- ===== src/P2p/Chunks.antt =====
-- The loops of p2p/context.go and p2p/sender/sender_tcp.go that write a message in chunks of the
-- buffer's size, and the methods that run them.
pub mod Laws
pub mod Delivery
use candi_plugin.Base.{
  ℕ, zero, suc, ◌+◌, ◌-◌, ◌≤◌, ◌<◌, ◌≡◌, refl, sym, ap, ◌∙◌, Bool, true, false, List, [], ◌∷◌, ◌++◌,
  Option, none, some, arith, length, take, drop, ltb, if◌then◌else◌, inl, inr, Bool-cases,
  length-drop, take_all, length-append, take-append-drop,
}
use mathlib.Core.List.{append-nil, append_assoc}
use candi_plugin.Go.Text.{Bytes, codes, itoa}
use candi_plugin.Go.Outcome.{Outcome, ok, panics}
use candi_plugin.Go.Act.{Act, ◌>>=◌, ◌>>◌, return, emit, ask, panic}
use candi_plugin.Candi.{Error}
use candi_plugin.P2p.Types.{Event, conn_write, close_write, conn_close, trace_log, separator}

-- What a connection answers to Write, the number of bytes and the error, and to CloseWrite.
pub record Conn : Type 0 where
  pub write : List Event → ℕ × Option Error
  pub close_write : List Event → Option Error

abbrev pub out_of_fuel : Bytes
out_of_fuel = codes "out of fuel"

-- message[i:lastOffset], with lastOffset the smaller of i + bufferSize and messageSize.
unfoldable pub chunk : ℕ → ℕ → Bytes → Bytes
chunk i size message =
    let last = i + size in
    let last_offset = if ltb (length message) last then length message else last in
    take (last_offset - i) (drop i message)

-- The test of err after a write: the early return, or the next round.
abbrev pub unless_failed :
    ℕ × Option Error → Act Event (Option (ℕ × Error)) → Act Event (Option (ℕ × Error))
unless_failed (n, some e) rest = return (some (n, e))
unless_failed (n, none) rest = rest

-- for i := 0; i < messageSize; i += bufferSize, from i on; what it answers is the n and the error of
-- the early return.
unfoldable pub write_loop : ℕ → ℕ → ℕ → Conn → Bytes → Act Event (Option (ℕ × Error))
write_loop zero i size conn message = panic out_of_fuel
write_loop (suc fuel) i size conn message =
    let rest = write_loop fuel (i + size) size conn message in
    if ltb i (length message)
    then (do emit (conn_write (chunk i size message)); r ← ask conn.write; unless_failed r rest)
    else return none

-- What Write returns by the error of CloseWrite; the n that it names is still 0 there.
abbrev pub closed_result : Option Error → ℕ → ℕ × Option Error
closed_result (some e) message_size = (0, some e)
closed_result none message_size = (message_size, none)

-- What Write does after its loop, or at its early return.
abbrev pub finish_write : Conn → Bytes → Option (ℕ × Error) → Act Event (ℕ × Option Error)
finish_write conn message (some (n, e)) = return (n, some e)
finish_write conn message none = do
  emit close_write
  closed ← ask conn.close_write
  return (closed_result closed (length message))

-- (*tcpContextImpl).Write: the number of bytes and the error that it returns. Of a message of n bytes
-- the loop ends in n + 1 rounds if the buffer's size is positive; a size of 0, which no constructor
-- of options makes, runs out of fuel where the code runs on without end.
unfoldable pub tcp_write : ℕ → Conn → Bytes → Act Event (ℕ × Option Error)
tcp_write buffer_size conn message = do
  emit (trace_log (codes "response_size") (itoa (length message) ++ codes " bytes"))
  emit (trace_log (codes "response_message") message)
  stopped ← write_loop (length message + 1) 0 buffer_size conn message
  finish_write conn message stopped

-- (*udpContextImpl).Write
unfoldable pub udp_write : Conn → Bytes → Act Event (ℕ × Option Error)
udp_write conn message = do
  emit (trace_log (codes "response_size") (itoa (length message) ++ codes " bytes"))
  emit (trace_log (codes "response_message") message)
  emit (conn_write message)
  ask conn.write

-- NewTCPSender, by what net.Dial answers: the sender is its connection and bufferSize, which is not
-- looked at here.
unfoldable pub new_tcp_sender :
    Option Error → Conn → (buffer_size : ℕ) → Option (Conn × ℕ) × Option Error
new_tcp_sender (some err) conn buffer_size = (none, some err)
new_tcp_sender none conn buffer_size = (some (conn, buffer_size), none)

-- Close, which answers the error of closing the connection.
unfoldable pub close : (List Event → Option Error) → Act Event (Option Error)
close close_error = do emit conn_close; ask close_error

-- (*tcpSenderImpl).Send: the response and the error. `fuel` bounds the rounds of its loop, and
-- `response` is what io.Copy reads from the connection.
unfoldable pub send : ℕ → ℕ → Conn → Bytes → Bytes → Bytes → Act Event (Option Bytes × Option Error)
send fuel buffer_size conn response handler message = do
  emit (conn_write (handler ++ separator ∷ []))
  r ← ask conn.write
  elim r.1 [
    | some e ↦ return (none, some e)
    | none ↦ do
      stopped ← write_loop fuel 0 buffer_size conn message
      elim stopped [
        | some (n, e) ↦ return (none, some e)
        | none ↦ do
          emit close_write
          closed ← ask conn.close_write
          elim closed [ some e ↦ return (none, some e) | none ↦ return (some response, none) ]
      ]
  ]

-- The bytes written to the connection, in order.
abbrev pub sent : List Event → Bytes
sent [] = []
sent (conn_write s ∷ log) = sent log ++ s
sent (e ∷ log) = sent log
