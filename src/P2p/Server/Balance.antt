-- ===== src/P2p/Server/Balance.antt =====
-- What the goroutines of p2p/tcp.go and p2p/udp.go give back, on every branch.
use candi_plugin.Base.{◌+◌, ◌≡◌, List, [], ◌∷◌, ◌++◌, Option, none, some, arith, bytes_eq}
use candi_plugin.Go.Text.{Bytes, codes}
use candi_plugin.Go.Map.{lookup}
use candi_plugin.Go.Outcome.{Outcome, ok}
use candi_plugin.P2p.Types.{p2p_tcp, p2p_udp, Event, HandlerFunc, acquire, eof}
use candi_plugin.P2p.Requests.{parse_request}
use candi_plugin.P2p.Chunks.{Conn, tcp_write, udp_write, sent}
use candi_plugin.P2p.Server.{
  Server, hand_on, tcp_found, tcp_parsed, tcp_request, serve_tcp, udp_found, udp_parsed,
  udp_request, serve_udp, udp_goroutine,
}
use candi_plugin.P2p.Server.Calm.{
  count, is_acquire, is_release, is_close, handled, tcp_write-IsCalm, udp_write-IsCalm,
}
use candi_plugin.P2p.Server.Handling.{Called, run_handler-Called}

pub record Even (log : List Event) (r : Outcome (Unit {0}) × List Event) : Type 0 where
  pub returns : r.0 ≡ ok tt
  pub acquires : count is_acquire r.1 ≡ count is_acquire log
  pub releases : count is_release r.1 ≡ count is_release log
  pub closes : count is_close r.1 ≡ count is_close log

Called-Even :
    {target message : Bytes} (log : List Event) (r : Outcome (Unit {0}) × List Event)
    → Called target message log r
    → Even log r
Called-Even log r c = record {
  returns = c.returns;
  acquires = c.acquires;
  releases = c.releases;
  closes = c.closes;
}

tcp_found-Even :
    (s : Server) (conn : Conn) (buff target message : Bytes) (found : Option HandlerFunc)
    (log : List Event)
    → Even log (tcp_found s conn buff target message found log)
unfolding tcp_found
tcp_found-Even s conn buff target message none log = ground arith
tcp_found-Even s conn buff target message (some f) log =
    let called =
      run_handler-Called (codes "P2PTCP") p2p_tcp (codes "request.message")
        (codes "remote.addr" ∷ []) (tcp_write s.option.buffer_size conn) s buff target message f log
        (tcp_write-IsCalm s.option.buffer_size conn) in
    Called-Even log _ called

tcp_parsed-Even :
    (s : Server) (conn : Conn) (buff : Bytes) (parts : Option (Bytes × Bytes)) (log : List Event)
    → Even log (tcp_parsed s conn buff parts log)
unfolding tcp_parsed
tcp_parsed-Even s conn buff none log = ground arith
tcp_parsed-Even s conn buff (some (target, message)) log =
    tcp_found-Even s conn buff target message (lookup target s.handlers) log

udp_found-Even :
    (s : Server) (conn : Conn) (buff target message : Bytes) (found : Option HandlerFunc)
    (log : List Event)
    → Even log (udp_found s conn buff target message found log)
unfolding udp_found
udp_found-Even s conn buff target message none log = ground arith
udp_found-Even s conn buff target message (some f) log =
    let called =
      run_handler-Called (codes "P2PUDP") p2p_udp (codes "request_message")
        (codes "client.network" ∷ codes "client.addr" ∷ []) (udp_write conn) s buff target message f
        log (udp_write-IsCalm conn) in
    Called-Even log _ called

pub udp_parsed-Even :
    (s : Server) (conn : Conn) (buff : Bytes) (parts : Option (Bytes × Bytes)) (log : List Event)
    → Even log (udp_parsed s conn buff parts log)
unfolding udp_parsed
udp_parsed-Even s conn buff none log = ground arith
udp_parsed-Even s conn buff (some (target, message)) log =
    udp_found-Even s conn buff target message (lookup target s.handlers) log

-- Whatever bytes come, whatever the handler functions do with their Contexts and answer, and whatever
-- the connection answers, a round of Serve of p2p/tcp.go takes
-- a place of the semaphore and gives it back, and closes its connection once; a round of p2p/udp.go
-- takes a place and gives it back, and closes nothing. Both goroutines return.
pub serve-balanced :
    (s : Server) (conn : Conn) (buff : Bytes) (log : List Event)
    → let r = serve_tcp s conn buff log in
      let r' = serve_udp s conn buff log in
      (r.0 ≡ ok tt)
      × (count is_acquire r.1 ≡ 1 + count is_acquire log)
      × (count is_release r.1 ≡ 1 + count is_release log)
      × (count is_close r.1 ≡ 1 + count is_close log)
      × (r'.0 ≡ ok tt)
      × (count is_acquire r'.1 ≡ 1 + count is_acquire log)
      × (count is_release r'.1 ≡ 1 + count is_release log)
      × (count is_close r'.1 ≡ count is_close log)
unfolding serve_tcp serve_udp udp_goroutine tcp_request udp_request hand_on
serve-balanced s conn buff log = ground (
  arith,
  tcp_parsed-Even s conn buff (parse_request buff) (acquire ∷ log),
  udp_parsed-Even s conn buff (parse_request buff) (acquire ∷ log),
)

-- The request that is refused by p2p/udp.go: what its client is sent.
abbrev pub refusal : Server → Option (Bytes × Bytes) → Bytes
refusal s none = eof
refusal s (some (target, message)) = elim (lookup target s.handlers) [
  | none ↦ codes "handler '" ++ (target ++ codes "' not found")
  | some f ↦ []
]

abbrev pub IsRefused : Server → Option (Bytes × Bytes) → Type 0
IsRefused s none = Unit
IsRefused s (some (target, message)) = lookup target s.handlers ≡ none

udp_parsed-refused :
    (s : Server) (conn : Conn) (buff : Bytes) (parts : Option (Bytes × Bytes)) (log : List Event)
    → IsRefused s parts
    → let r = udp_parsed s conn buff parts log in
      (sent r.1 ≡ sent log ++ refusal s parts) × (handled r.1 ≡ handled log)
unfolding udp_parsed udp_found
udp_parsed-refused s conn buff none log h = ground arith
udp_parsed-refused s conn buff (some (target, message)) log h = ground (arith, h)

tcp_parsed-refused :
    (s : Server) (conn : Conn) (buff : Bytes) (parts : Option (Bytes × Bytes)) (log : List Event)
    → IsRefused s parts
    → let r = tcp_parsed s conn buff parts log in
      (sent r.1 ≡ sent log) × (handled r.1 ≡ handled log)
unfolding tcp_parsed tcp_found
tcp_parsed-refused s conn buff none log h = ground arith
tcp_parsed-refused s conn buff (some (target, message)) log h = ground (arith, h)

-- A request without a colon, or for a prefix without a handler, comes to no handler function, and both
-- goroutines return. The server of p2p/udp.go sends its client EOF or the name of the handler that is
-- missing, and closes nothing; the server of p2p/tcp.go sends nothing, and closes the connection once.
pub serve-refused :
    (s : Server) (conn : Conn) (buff : Bytes) (log : List Event)
    → IsRefused s (parse_request buff)
    → let r = serve_tcp s conn buff log in
      let r' = serve_udp s conn buff log in
      (r.0 ≡ ok tt)
      × (sent r.1 ≡ sent log)
      × (handled r.1 ≡ handled log)
      × (count is_close r.1 ≡ 1 + count is_close log)
      × (r'.0 ≡ ok tt)
      × (sent r'.1 ≡ sent log ++ refusal s (parse_request buff))
      × (handled r'.1 ≡ handled log)
      × (count is_close r'.1 ≡ count is_close log)
unfolding serve_tcp serve_udp udp_goroutine tcp_request udp_request hand_on
serve-refused s conn buff log h = ground (
  arith,
  tcp_parsed-Even s conn buff (parse_request buff) (acquire ∷ log),
  udp_parsed-Even s conn buff (parse_request buff) (acquire ∷ log),
  tcp_parsed-refused s conn buff (parse_request buff) (acquire ∷ log) h,
  udp_parsed-refused s conn buff (parse_request buff) (acquire ∷ log) h,
)
