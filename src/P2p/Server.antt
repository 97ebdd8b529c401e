-- ===== src/P2p/Server.antt =====
-- p2p/tcp.go and p2p/udp.go: the servers' construction, the reading of a request, and what the
-- goroutine of a request does with it.
pub mod Writing
pub mod Replies
pub mod Calm
pub mod Handling
pub mod Balance
pub mod Reading
use candi_plugin.Base.{
  ℕ, Bool, List, [], ◌∷◌, ◌++◌, Option, none, some, bytes_eq, if◌then◌else◌, length, take, drop,
}
use candi_plugin.Go.Text.{Bytes, codes}
use candi_plugin.Go.Map.{lookup, insert}
use candi_plugin.Go.Outcome
use candi_plugin.Go.Outcome.{Outcome, ok, panics}
use candi_plugin.Go.Act.{Act, ◌>>=◌, ◌>>◌, return, emit, ask, call, deferred, panic}
use candi_plugin.Candi.{Error}
use candi_plugin.P2p.Types.{
  Event, conn_write, conn_close, start_trace, set_tag, trace_log, trace_error, finish, handle,
  acquire, release, listener_close, console, Behaviour, answers, writes, HandlerFunc, Handler,
  Options, ServerOption, default_option, apply_options, eof, p2p_tcp, p2p_udp,
}
use candi_plugin.P2p.Chunks.{Conn, tcp_write, udp_write}
use candi_plugin.P2p.Requests.{parse_request, request_parts}

-- p2pTCP and p2pUDP: what both keep. The listener and the connection are Go's.
pub record Server : Type 0 where
  pub option : Options
  pub handlers : List (Bytes × HandlerFunc)
  pub semaphore : ℕ

-- The handlers of a module for the server's type, if it has some.
abbrev pub Modules : Type 0
Modules = List (Option (List Handler))

unfoldable pub mount_group : List Handler → List (Bytes × HandlerFunc) → List (Bytes × HandlerFunc)
mount_group [] m = m
mount_group (h ∷ hs) m = mount_group hs (insert h.prefix h.handler_func m)

unfoldable pub mount_modules : Modules → List (Bytes × HandlerFunc) → List (Bytes × HandlerFunc)
mount_modules [] m = m
mount_modules (none ∷ ms) m = mount_modules ms m
mount_modules (some hs ∷ ms) m = mount_modules ms (mount_group hs m)

-- NewP2PTCP; the first argument is the error of net.Listen.
unfoldable pub new_p2p_tcp : Option Error → Modules → List ServerOption → Outcome Server
new_p2p_tcp (some err) modules opts = panics err
new_p2p_tcp none modules opts =
    let o = apply_options opts default_option in
    ok (record {
      option = o;
      handlers = mount_modules modules [];
      semaphore = o.max_concurrent_client;
    })

-- NewP2PUDP; the errors of net.ResolveUDPAddr and net.ListenUDP.
unfoldable pub new_p2p_udp :
    Option Error → Option Error → Modules → List ServerOption → Outcome Server
new_p2p_udp (some err) listen modules opts = panics err
new_p2p_udp none (some err) modules opts = panics err
new_p2p_udp none none modules opts =
    let o = apply_options opts default_option in
    ok (record {
      option = o;
      handlers = mount_modules modules [];
      semaphore = o.max_concurrent_client;
    })

-- A round of conn.Read: the bytes read, and whether it failed with an error other than io.EOF.
pub record Read : Type 0 where
  pub bytes : Bytes
  pub failed : Bool

-- (*p2pTCP).readAllRequest over the answers of conn.Read; `none` while more answers are awaited. A
-- failed read gives nil, the empty slice.
unfoldable pub read_all_request : Bytes → List Read → Option Bytes
read_all_request got [] = none
read_all_request got (r ∷ rs) =
    let rest = read_all_request (got ++ r.bytes) rs in
    if r.failed then some [] else elim r.bytes [ [] ↦ some got | c ∷ s ↦ rest ]

-- udpConn.ReadFromUDP(buffer): a datagram overwrites the front of the one buffer that all rounds of
-- Serve share; what does not fit is dropped. With it, the number of bytes read.
unfoldable pub read_from_udp : Bytes → Bytes → Bytes × ℕ
read_from_udp buffer datagram =
    let taken = take (length buffer) datagram in (taken ++ drop (length taken) buffer, length taken)

-- buffer[0:n], as its holder sees the buffer now.
abbrev pub slice : ℕ → Bytes → Bytes
slice n buffer = take n buffer

-- The recover of the deferred function, and the reply of an error.
unfoldable pub reply_error : Outcome (Option Error) → Act Event (Option Error)
reply_error (ok none) = return none
reply_error (ok (some e)) = do emit (conn_write e); return (some e)
reply_error (panics v) = do emit (conn_write v); return (some v)

abbrev pub when : Bool → Act Event (Unit {0}) → Act Event (Unit {0})
when b m = if b then m else return tt

unfoldable pub emit_tags : List Bytes → Act Event (Unit {0})
emit_tags [] = return tt
emit_tags (key ∷ keys) = do emit (set_tag key); emit_tags keys

-- The handler function from its call on; `write` is Write of its Context.
unfoldable pub run_behaviour :
    (Bytes → Act Event (ℕ × Option Error)) → Behaviour → Act Event (Option Error)
run_behaviour write (answers outcome) = call (λ log. outcome)
run_behaviour write (writes message k) = do r ← write message; run_behaviour write (k r)

unfoldable pub call_handler :
    (Bytes → Act Event (ℕ × Option Error))
    → (target message : Bytes) → HandlerFunc
    → Act Event (Option Error)
call_handler write target message f = do
  emit (handle target message)
  h ← ask (λ log. f log message)
  run_behaviour write h

-- The call of a handler under the two deferred functions, from the test of enableTracing on.
unfoldable pub run_handler :
    (name server_name log_key : Bytes) (tags : List Bytes)
    → (Bytes → Act Event (ℕ × Option Error))
    → Server
    → (buff target message : Bytes) → HandlerFunc
    → Act Event (Unit {0})
run_handler name server_name log_key tags write s buff target message f = do
  when s.option.enable_tracing
      (do emit (start_trace name); emit_tags tags; emit (trace_log log_key buff))
  err ← deferred (call_handler write target message f) reply_error
  when s.option.enable_tracing (do
    emit (trace_error err)
    emit (console (server_name ++ codes " > trace_url: "))
    emit finish)

-- The body of the goroutine of p2p/tcp.go, without its outer deferred function: a request that is
-- not well formed, or for no handler, gets no answer. The conn is that of the client.
unfoldable pub tcp_found :
    Server → Conn → (buff target message : Bytes) → Option HandlerFunc → Act Event (Unit {0})
tcp_found s conn buff target message none = emit (console (codes "handler not found"))
tcp_found s conn buff target message (some f) =
    run_handler (codes "P2PTCP") p2p_tcp (codes "request.message") (codes "remote.addr" ∷ [])
      (tcp_write s.option.buffer_size conn) s buff target message f

unfoldable pub tcp_parsed : Server → Conn → Bytes → Option (Bytes × Bytes) → Act Event (Unit {0})
tcp_parsed s conn buff none = emit (console (codes "not processing incoming request"))
tcp_parsed s conn buff (some (target, message)) =
    tcp_found s conn buff target message (lookup target s.handlers)

unfoldable pub tcp_request : Server → Conn → Bytes → Act Event (Unit {0})
tcp_request s conn buff = tcp_parsed s conn buff (parse_request buff)

-- What is left of a call whose deferred functions do not recover.
unfoldable pub hand_on : Outcome (Unit {0}) → Act Event (Unit {0})
hand_on (ok u) = return u
hand_on (panics v) = panic v

-- A round of Serve of p2p/tcp.go after Accept and the reading of the request: the send into the
-- semaphore, and the goroutine.
unfoldable pub serve_tcp : Server → Conn → Bytes → Act Event (Unit {0})
serve_tcp s conn buff = do
  emit acquire
  deferred (tcp_request s conn buff) (λ outcome. do emit conn_close; emit release; hand_on outcome)

-- The body of the goroutine of p2p/udp.go: the sender of a bad request gets an answer.
unfoldable pub udp_found :
    Server → Conn → (buff target message : Bytes) → Option HandlerFunc → Act Event (Unit {0})
udp_found s conn buff target message none = do
  emit (console (codes "handler not found"))
  emit (conn_write (codes "handler '" ++ (target ++ codes "' not found")))
udp_found s conn buff target message (some f) =
    run_handler (codes "P2PUDP") p2p_udp (codes "request_message")
      (codes "client.network" ∷ codes "client.addr" ∷ []) (udp_write conn) s buff target message f

unfoldable pub udp_parsed : Server → Conn → Bytes → Option (Bytes × Bytes) → Act Event (Unit {0})
udp_parsed s conn buff none = do
  emit (console (codes "not processing incoming request"))
  emit (conn_write eof)
udp_parsed s conn buff (some (target, message)) =
    udp_found s conn buff target message (lookup target s.handlers)

unfoldable pub udp_request : Server → Conn → Bytes → Act Event (Unit {0})
udp_request s conn buff = udp_parsed s conn buff (parse_request buff)

-- The goroutine that Serve of p2p/udp.go starts for a datagram; `buff` is the slice as the goroutine
-- sees it, and the conn is the server's, which answers to WriteToUDP for the client.
unfoldable pub udp_goroutine : Server → Conn → Bytes → Act Event (Unit {0})
udp_goroutine s conn buff =
    deferred (udp_request s conn buff) (λ outcome. do emit release; hand_on outcome)

-- A round of Serve of p2p/udp.go after ReadFromUDP.
unfoldable pub serve_udp : Server → Conn → Bytes → Act Event (Unit {0})
serve_udp s conn buff = do emit acquire; udp_goroutine s conn buff

-- Shutdown of both; the lines on the console are without their colours.
unfoldable pub shutdown_tcp : Act Event (Unit {0})
shutdown_tcp = do
  emit (console (codes "Stopping TCP Server..."))
  emit listener_close
  emit (console (codes "Stopping TCP Server: SUCCESS"))

unfoldable pub shutdown_udp : Act Event (Unit {0})
shutdown_udp = do
  emit (console (codes "Stopping UDP Server..."))
  emit listener_close
  emit (console (codes "Stopping UDP Server: SUCCESS"))

-- Name of both.
abbrev pub name_tcp : Server → Bytes
name_tcp s = p2p_tcp

abbrev pub name_udp : Server → Bytes
name_udp s = p2p_udp
