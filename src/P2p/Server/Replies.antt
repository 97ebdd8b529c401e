-- ===== src/P2p/Server/Replies.antt =====
-- What the client of a handler function of p2p/tcp.go receives.
use candi_plugin.Base.{
  ℕ, zero, suc, ◌+◌, ◌-◌, ◌<◌, ◌≡◌, refl, sym, ap, ◌∙◌, Bool, true, false, List, [], ◌∷◌, ◌++◌,
  Option, none, some, arith, length, drop, ltb, Bool-cases, inl, inr, if◌then◌else◌,
}
use mathlib.Core.List.{append-nil, append_assoc}
use candi_plugin.Go.Text.{Bytes, codes, itoa}
use candi_plugin.Go.Outcome.{Outcome, ok, panics}
use candi_plugin.Go.Act.{deferred}
use candi_plugin.Candi.{Error}
use candi_plugin.P2p.Types.{
  Event, conn_write, close_write, conn_close, trace_log, Behaviour, answers, writes,
}
use candi_plugin.P2p.Chunks.{Conn, chunk, write_loop, tcp_write}
use candi_plugin.P2p.Chunks.Laws.{drop_all, chunk-drop, unless_failed-never}
use candi_plugin.P2p.Server.{run_behaviour, reply_error}
use candi_plugin.P2p.Server.Writing.{tcp_write-keeps, after-keeps, run_behaviour-keeps}

-- A connection whose writing side is closed.
abbrev pub is_shut : List Event → Bool
is_shut [] = false
is_shut (close_write ∷ log) = true
is_shut (conn_close ∷ log) = true
is_shut (e ∷ log) = is_shut log

-- What the other end receives: the bytes that are written before the writing side is closed. Of a
-- write after that, nothing comes to it.
abbrev pub received : List Event → Bytes
received [] = []
received (conn_write s ∷ log) = if is_shut log then received log else received log ++ s
received (e ∷ log) = received log

-- A connection that takes every write until its writing side is closed.
abbrev pub Takes : Conn → Type 0
Takes conn = (log : List Event) → is_shut log ≡ false → (conn.write log).1 ≡ none

-- What the client is sent for the answer of a handler function: nothing, the error, or the value of
-- the panic.
abbrev pub reply_of : Outcome (Option Error) → Bytes
reply_of (ok none) = []
reply_of (ok (some e)) = e
reply_of (panics v) = v

-- What the client receives for a handler function: the message that it writes first, since Write
-- closes the writing side; or the reply of its answer, where it writes nothing.
abbrev pub replies : Behaviour → Bytes
replies (answers o) = reply_of o
replies (writes message k) = message

write_loop-open :
    (fuel i size : ℕ) (conn : Conn) (message : Bytes) (log : List Event)
    → Takes conn
    → is_shut log ≡ false
    → 0 < size
    → length message - i < fuel
    → let r = write_loop fuel i size conn message log in
      (r.0 ≡ ok none) × (received r.1 ≡ received log ++ drop i message) × (is_shut r.1 ≡ false)
unfolding write_loop
write_loop-open zero i size conn message log takes is_open p h = absurd (omega arith)
write_loop-open (suc fuel) i size conn message log takes is_open p h =
    let log' = conn_write (chunk i size message) ∷ log in
    elim (Bool-cases (ltb i (length message))) [
      | inr done ↦
          let nothing : drop i message ≡ [] = drop_all i message (ground arith) in
          rw (done, nothing) (refl, sym (append-nil (received log)), is_open)
      | inl more ↦
          let smaller : length message - (i + size) < fuel = ground arith in
          let ih = write_loop-open fuel (i + size) size conn message log' takes is_open p smaller in
          let next =
            unless_failed-never (conn.write log') (write_loop fuel (i + size) size conn message)
              log' (takes log' is_open) in
          let gets : received log' ≡ received log ++ chunk i size message =
            ground (arith, is_open) in
          rw more (
            rw next (
              ih.0,
              ih.1
                  ∙ ap (λ s. s ++ drop (i + size) message) gets
                  ∙ append_assoc (received log) (chunk i size message) (drop (i + size) message)
                  ∙ ap (◌++◌ (received log)) (chunk-drop i size message),
              ih.2,
            ))
    ]

tcp_write-open :
    (size : ℕ) (conn : Conn) (message : Bytes) (log : List Event)
    → Takes conn
    → is_shut log ≡ false
    → 0 < size
    → let r = tcp_write size conn message log in
      (received r.1 ≡ received log ++ message) × (is_shut r.1 ≡ true)
unfolding tcp_write
tcp_write-open size conn message log takes is_open p =
    let log' =
      trace_log (codes "response_message") message
      ∷ trace_log (codes "response_size") (itoa (length message) ++ codes " bytes")
      ∷ log in
    let looped =
      write_loop-open (length message + 1) 0 size conn message log' takes is_open p (omega arith) in
    ground (arith, looped)

-- Once the writing side is closed, what was received stays.
abbrev Closed : Bytes → List Event → Type 0
Closed text log = (is_shut log ≡ true) × (received log ≡ text)

Closed-write :
    (text s : Bytes) (log : List Event) → Closed text log → Closed text (conn_write s ∷ log)
Closed-write text s log c = ground (arith, c)

behaviour-Closed :
    (size : ℕ) (conn : Conn) (text : Bytes) (b : Behaviour) (log : List Event)
    → Closed text log
    → Closed text (run_behaviour (tcp_write size conn) b log).1
behaviour-Closed size conn text =
    run_behaviour-keeps (Closed text) (Closed-write text) (λ log c. (refl, c.1)) (λ k v log c. c)
      (tcp_write size conn)
      (tcp_write-keeps (Closed text) (Closed-write text) (λ log c. (refl, c.1)) (λ k v log c. c)
        size conn)

reply_error-Closed :
    (text : Bytes) (o : Outcome (Option Error)) (log : List Event)
    → Closed text log
    → Closed text (reply_error o log).1
unfolding reply_error
reply_error-Closed text (ok none) log c = c
reply_error-Closed text (ok (some e)) log c = Closed-write text e log c
reply_error-Closed text (panics v) log c = Closed-write text v log c

reply_error-open :
    (o : Outcome (Option Error)) (log : List Event)
    → is_shut log ≡ false
    → received (reply_error o log).1 ≡ received log ++ reply_of o
unfolding reply_error
reply_error-open (ok none) log h = sym (append-nil (received log))
reply_error-open (ok (some e)) log h = ground (arith, h)
reply_error-open (panics v) log h = ground (arith, h)

-- The client receives the replies of the handler function, whatever that does after its first Write.
pub behaviour-replies :
    (size : ℕ) (conn : Conn) (b : Behaviour) (log : List Event)
    → Takes conn
    → is_shut log ≡ false
    → 0 < size
    → received (deferred (run_behaviour (tcp_write size conn) b) reply_error log).1
      ≡ received log ++ replies b
unfolding run_behaviour
behaviour-replies size conn (answers o) log takes is_open p = reply_error-open o log is_open
behaviour-replies size conn (writes m k) log takes is_open p =
    let written = tcp_write-open size conn m log takes is_open p in
    let text = received log ++ m in
    let ended =
      after-keeps (Closed text) (Closed-write text) (λ l c. (refl, c.1)) (λ i v l c. c)
        (tcp_write size conn m log) (λ r. run_behaviour (tcp_write size conn) (k r))
        (written.1, written.0) (λ r l c. behaviour-Closed size conn text (k r) l c) in
    (reply_error-Closed text _ _ ended).1
