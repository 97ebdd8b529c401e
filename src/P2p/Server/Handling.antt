-- ===== src/P2p/Server/Handling.antt =====
-- What becomes of a request in the goroutines of p2p/tcp.go and p2p/udp.go.
use candi_plugin.Base.{
  ℕ, ◌+◌, ◌<◌, ◌≡◌, ap, ◌∙◌, false, List, [], ◌∷◌, ◌++◌, Option, some, arith, bytes_eq,
}
use candi_plugin.Go.Text.{Bytes, codes}
use candi_plugin.Go.Map.{lookup}
use candi_plugin.Go.Outcome.{Outcome, ok}
use candi_plugin.Go.Act.{Act}
use candi_plugin.Candi.{Error}
use candi_plugin.P2p.Types.{
  p2p_tcp, Event, acquire, handle, start_trace, trace_log, Behaviour, HandlerFunc,
}
use candi_plugin.P2p.Requests.{parse_request}
use candi_plugin.P2p.Chunks.{Conn, tcp_write}
use candi_plugin.P2p.Server.{
  Server, run_handler, call_handler, emit_tags, hand_on, tcp_found, tcp_parsed, tcp_request,
  serve_tcp,
}
use candi_plugin.P2p.Server.Calm.{
  count, is_acquire, is_release, is_close, handled, IsCalm, tcp_write-IsCalm, called_Replied,
  emit_tags-Quiet,
}
use candi_plugin.P2p.Server.Replies.{is_shut, received, Takes, replies, behaviour-replies}

-- What the goroutine does for a handler function that it has found.
pub record Called (target message : Bytes) (log : List Event) (r : Outcome (Unit {0}) × List Event)
    : Type 0 where
  pub returns : r.0 ≡ ok tt
  pub acquires : count is_acquire r.1 ≡ count is_acquire log
  pub releases : count is_release r.1 ≡ count is_release log
  pub closes : count is_close r.1 ≡ count is_close log
  pub handles : handled r.1 ≡ (target, message) ∷ handled log

pub run_handler-Called :
    (name server_name key : Bytes) (tags : List Bytes)
    (write : Bytes → Act Event (ℕ × Option Error)) (s : Server) (buff target message : Bytes)
    (f : HandlerFunc) (log : List Event)
    → IsCalm write
    → Called target message log
        (run_handler name server_name key tags write s buff target message f log)
unfolding run_handler call_handler
run_handler-Called name server_name key tags write s buff target message f log calm =
    let log' = (emit_tags tags (start_trace name ∷ log)).1 in
    let tagged = emit_tags-Quiet tags (start_trace name ∷ log) in
    let traced = called_Replied write target message f (trace_log key buff ∷ log') calm in
    let plain = called_Replied write target message f log calm in
    ground (arith, tagged, tagged.calm, traced, traced.calm, plain, plain.calm)

run_handler-replies :
    (name server_name key : Bytes) (tags : List Bytes) (size : ℕ) (conn : Conn) (s : Server)
    (buff target message : Bytes) (g : Bytes → Behaviour) (log : List Event)
    → Takes conn
    → is_shut log ≡ false
    → 0 < size
    → received
        (run_handler name server_name key tags
          (tcp_write size conn)
          s
          buff
          target
          message
          (λ l. g)
          log).1
      ≡ received log ++ replies (g message)
unfolding run_handler call_handler
run_handler-replies name server_name key tags size conn s buff target message g log takes is_open
      p =
    let calm = tcp_write-IsCalm size conn in
    let log' = (emit_tags tags (start_trace name ∷ log)).1 in
    let tagged = emit_tags-Quiet tags (start_trace name ∷ log) in
    let traced_log = trace_log key buff ∷ log' in
    let is_open' = tagged.shut ∙ is_open in
    let traced_open : is_shut (handle target message ∷ traced_log) ≡ false = is_open' in
    let traced =
      behaviour-replies size conn (g message) (handle target message ∷ traced_log) takes traced_open
        p in
    let plain =
      behaviour-replies size conn (g message) (handle target message ∷ log) takes is_open p in
    let c = called_Replied (tcp_write size conn) target message (λ l. g) traced_log calm in
    let c' = called_Replied (tcp_write size conn) target message (λ l. g) log calm in
    ground (arith, tagged, traced, plain, c, c')

-- A request for a registered prefix comes to its handler function, once and with the message of the
-- request. Over a connection that takes what is written until its writing side is closed, and with a
-- buffer that is not empty, the client of p2p/tcp.go receives the message that the function writes
-- first, or, where it writes none, the error of its answer or the value of its panic. Whichever it is,
-- the goroutine returns, closes the connection once, and gives back the place in the semaphore that it
-- took.
pub serve_tcp-handles :
    (s : Server) (conn : Conn) (buff target message : Bytes) (g : Bytes → Behaviour)
    (log : List Event)
    → parse_request buff ≡ some (target, message)
    → lookup target s.handlers ≡ some (λ l. g)
    → 0 < s.option.buffer_size
    → Takes conn
    → is_shut log ≡ false
    → let r = serve_tcp s conn buff log in
      (r.0 ≡ ok tt)
      × (handled r.1 ≡ (target, message) ∷ handled log)
      × (received r.1 ≡ received log ++ replies (g message))
      × (count is_close r.1 ≡ 1 + count is_close log)
      × (count is_acquire r.1 ≡ 1 + count is_acquire log)
      × (count is_release r.1 ≡ 1 + count is_release log)
unfolding serve_tcp tcp_request tcp_parsed tcp_found hand_on
serve_tcp-handles s conn buff target message g log parsed found p takes is_open =
    let opened =
      ap (tcp_parsed s conn buff) parsed ∙ ap (tcp_found s conn buff target message) found in
    let write = tcp_write s.option.buffer_size conn in
    let called =
      run_handler-Called (codes "P2PTCP") p2p_tcp (codes "request.message")
        (codes "remote.addr" ∷ []) write s buff target message (λ l. g) (acquire ∷ log)
        (tcp_write-IsCalm s.option.buffer_size conn) in
    let replied =
      run_handler-replies (codes "P2PTCP") p2p_tcp (codes "request.message")
        (codes "remote.addr" ∷ []) s.option.buffer_size conn s buff target message g (acquire ∷ log)
        takes is_open p in
    rw (ap (λ m. m (acquire ∷ log)) opened) (ground (arith, called, replied))
