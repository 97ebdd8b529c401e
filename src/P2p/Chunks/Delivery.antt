-- ===== src/P2p/Chunks/Delivery.antt =====
-- What the methods of p2p/context.go and p2p/sender/sender_tcp.go write, and what they answer.
use candi_plugin.Base.{ℕ, ◌+◌, ◌<◌, ◌≡◌, ap, ◌∙◌, List, [], ◌∷◌, ◌++◌, none, some, arith, length}
use mathlib.Core.List.{append_assoc}
use candi_plugin.Go.Text.{Bytes, codes, itoa, trim_right, is_space}
use candi_plugin.Go.Outcome.{ok}
use candi_plugin.P2p.Types.{Event, conn_write, close_write, trace_log, separator}
use candi_plugin.P2p.Requests.{
  format_request, parse_request, parse-format, HasNoSeparator, StartsNoSpace,
}
use candi_plugin.P2p.Chunks.{Conn, write_loop, tcp_write, send, sent}
use candi_plugin.P2p.Chunks.Laws.{Front, write_loop-Front, write_loop_total, NeverFails}

-- CloseWrite answers no error either.
abbrev pub Closes : Conn → Type 0
Closes conn = (log : List Event) → conn.close_write log ≡ none

-- Over a connection that never fails, and with a buffer that is not empty, Write returns the length
-- of the message and no error, and what it has written, chunk by chunk, is the message.
pub tcp_write-delivers :
    (size : ℕ) (conn : Conn) (message : Bytes) (log : List Event)
    → 0 < size
    → NeverFails conn
    → Closes conn
    → let r = tcp_write size conn message log in
      (r.0 ≡ ok (length message, none)) × (sent r.1 ≡ sent log ++ message)
unfolding tcp_write
tcp_write-delivers size conn message log p safe closes =
    let log' =
      trace_log (codes "response_message") message
      ∷ trace_log (codes "response_size") (itoa (length message) ++ codes " bytes")
      ∷ log in
    let looped =
      write_loop_total (length message + 1) 0 size conn message log' safe p (omega arith) in
    let closed =
      closes (close_write ∷ (write_loop (length message + 1) 0 size conn message log').1) in
    ground (arith, looped, closed)

-- Send over such a connection writes the request of the handler and the message, and answers the
-- response that it reads.
pub send-delivers :
    (fuel size : ℕ) (conn : Conn) (response handler message : Bytes) (log : List Event)
    → 0 < size
    → length message < fuel
    → NeverFails conn
    → Closes conn
    → let r = send fuel size conn response handler message log in
      (r.0 ≡ ok (some response, none)) × (sent r.1 ≡ sent log ++ format_request handler message)
unfolding send
send-delivers fuel size conn response handler message log p enough safe closes =
    let log' = conn_write (handler ++ separator ∷ []) ∷ log in
    let looped = write_loop_total fuel 0 size conn message log' safe p (omega arith) in
    let closed = closes (close_write ∷ (write_loop fuel 0 size conn message log').1) in
    ground (
      arith,
      safe log',
      looped,
      closed,
      append_assoc (sent log) (handler ++ separator ∷ []) message,
    )

-- End to end: a request that Send writes on a fresh connection, for a handler's prefix that holds no
-- colon and starts with no space, reaches that handler with the message less the spaces at its end.
pub send-parse :
    (fuel size : ℕ) (conn : Conn) (response handler message : Bytes)
    → 0 < size
    → length message < fuel
    → NeverFails conn
    → Closes conn
    → HasNoSeparator handler
    → StartsNoSpace handler
    → parse_request (sent (send fuel size conn response handler message []).1)
      ≡ some (handler, trim_right is_space message)
send-parse fuel size conn response handler message p enough safe closes plain start =
    let written =
      (send-delivers fuel size conn response handler message [] p enough safe closes).1 in
    ap parse_request written ∙ parse-format handler message plain start

tcp_write-sent :
    (size : ℕ) (conn : Conn) (message : Bytes) (log : List Event)
    → sent (tcp_write size conn message log).1
      ≡ sent
          (write_loop (length message + 1) 0 size conn message (
            trace_log (codes "response_message") message
            ∷ trace_log (codes "response_size") (itoa (length message) ++ codes " bytes")
            ∷ log)).1
unfolding tcp_write
tcp_write-sent size conn message log = ground arith

-- Whatever the connection answers, what Write has written is a front part of the message.
pub tcp_write-Front :
    (size : ℕ) (conn : Conn) (message : Bytes) (log : List Event)
    → Front log (tcp_write size conn message log).1 message
tcp_write-Front size conn message log =
    let f = write_loop-Front (length message + 1) 0 size conn message (
      trace_log (codes "response_message") message
      ∷ trace_log (codes "response_size") (itoa (length message) ++ codes " bytes")
      ∷ log) in
    record {
      written = f.written;
      unwritten = f.unwritten;
      adds = tcp_write-sent size conn message log ∙ f.adds;
      parts = f.parts;
    }
