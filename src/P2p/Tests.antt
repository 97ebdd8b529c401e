-- ===== src/P2p/Tests.antt =====
-- Tests of p2p/ at concrete inputs.
use candi_plugin.Base.{◌+◌, ◌≤◌, ◌<◌, ◌≡◌, refl, false, [], ◌∷◌, none, some, arith, bytes_eq}
use candi_plugin.Go.Text.{Bytes, codes, split, join, trim_space}
use candi_plugin.Go.Map.{lookup}
use candi_plugin.Go.Outcome.{ok, panics}
use candi_plugin.P2p.Types.{
  Behaviour, answers, writes, Handler, default_option, ServerOption,
  server_set_max_concurrent_client, apply_options,
}
use candi_plugin.P2p.Serving.{
  State, reading, begin, accept, take_place, spawn, Reach, here, next, clients, Run,
}
use candi_plugin.P2p.Serving.{listening}
use candi_plugin.P2p.Serving.Draining.{serve_tcp-drains}
use candi_plugin.P2p.Serving.Bounds.{serve_tcp-bounded}
use candi_plugin.Go.Int.{pos}
use candi_plugin.P2p.Requests.{parse_request, request_parts}
use candi_plugin.P2p.Chunks.{Conn, sent, tcp_write}
use candi_plugin.P2p.Chunks.Laws.{Front}
use candi_plugin.P2p.Chunks.Delivery.{tcp_write-Front}
use candi_plugin.P2p.Server.{Server, serve_tcp, serve_udp, new_p2p_tcp, mount_modules, Modules}
use candi_plugin.P2p.Server.Balance.{serve-balanced, serve-refused}
use candi_plugin.P2p.Server.Calm.{count, handled, is_close, is_release, is_acquire}

-- A connection that takes everything.
abbrev line : Conn
line = record { write = λ log. (3, none); close_write = λ log. none }

-- One whose writes fail.
abbrev cut : Conn
cut = record { write = λ log. (1, some (codes "broken pipe")); close_write = λ log. none }

abbrev hello : Bytes
hello = codes "hello  "

trimmed : parse_request (codes "  echo:a:b \n") ≡ some (codes "echo", codes "a:b")
unfolding parse_request request_parts split trim_space join
trimmed = refl

tcp_write-Front_example : Front [] (tcp_write 3 cut hello []).1 hello
tcp_write-Front_example = tcp_write-Front 3 cut hello []

-- It answers its message and panics.
abbrev echo : Bytes → Behaviour
echo message = writes message (λ r. answers (panics (codes "boom")))

abbrev echo_server : Server
echo_server = record {
  option = default_option;
  handlers = (codes "echo", λ log. echo) ∷ [];
  semaphore = 100;
}

serve-balanced_example :
    let r = serve_tcp echo_server line (codes "echo:x") [] in
    let r' = serve_udp echo_server line (codes "echo:x") [] in
    (r.0 ≡ ok tt)
    × (count is_acquire r.1 ≡ 1)
    × (count is_release r.1 ≡ 1)
    × (count is_close r.1 ≡ 1)
    × (r'.0 ≡ ok tt)
    × (count is_acquire r'.1 ≡ 1)
    × (count is_release r'.1 ≡ 1)
    × (count is_close r'.1 ≡ 0)
serve-balanced_example = serve-balanced echo_server line (codes "echo:x") []

serve-refused_example :
    let r = serve_tcp echo_server line (codes "ping:x") [] in
    let r' = serve_udp echo_server line (codes "ping:x") [] in
    (r.0 ≡ ok tt)
    × (sent r.1 ≡ [])
    × (handled r.1 ≡ [])
    × (count is_close r.1 ≡ 1)
    × (r'.0 ≡ ok tt)
    × (sent r'.1 ≡ codes "handler 'ping' not found")
    × (handled r'.1 ≡ [])
    × (count is_close r'.1 ≡ 0)
unfolding parse_request request_parts split trim_space join lookup
serve-refused_example = serve-refused echo_server line (codes "ping:x") [] refl

abbrev two_clients : ServerOption
two_clients o = record o { max_concurrent_client = 2 }

abbrev small_server : Server
unfolding default_option
small_server = record { option = two_clients default_option; handlers = []; semaphore = 2 }

built : new_p2p_tcp none [] (two_clients ∷ []) ≡ ok small_server
unfolding new_p2p_tcp apply_options default_option mount_modules small_server
built = refl

abbrev busy : State
busy = record {
  capacity = 2;
  taken = 2;
  running = 1;
  phase = reading;
  is_closed = false;
  accepted = 2;
  requests = 1;
}

busy_reached : Reach (begin small_server) busy
unfolding small_server
busy_reached =
    next
      (next
        (next (next (next here (accept refl refl)) (take_place refl (omega arith))) (spawn refl))
        (accept refl refl))
      (take_place refl (omega arith))

serve_tcp-bounded_example :
    (busy.running ≤ small_server.option.max_concurrent_client)
    × (0 < small_server.option.max_concurrent_client)
    × (0 < small_server.option.buffer_size)
    × (busy.accepted ≤ busy.requests + 1)
unfolding server_set_max_concurrent_client
serve_tcp-bounded_example =
    serve_tcp-bounded [] (two_clients ∷ []) small_server busy (clients (pos 2) refl, tt) built
      busy_reached

abbrev echo_handler : Handler
echo_handler = record { prefix = codes "echo"; handler_func = λ l. echo }

abbrev echo_modules : Modules
echo_modules = none ∷ some (echo_handler ∷ []) ∷ []

abbrev two_client_echo : Server
unfolding default_option
two_client_echo = record {
  option = two_clients default_option;
  handlers = (codes "echo", λ l. echo) ∷ [];
  semaphore = 2;
}

abbrev echo_request : Bytes
echo_request = codes "echo:hello  "

serve_tcp-drains_example :
    (u : State) × Run busy u
    × (u.phase ≡ listening)
    × (u.running ≡ 0)
    × (u.taken ≡ 0)
    × (u.requests ≡ u.accepted)
unfolding server_set_max_concurrent_client
serve_tcp-drains_example =
    serve_tcp-drains [] (two_clients ∷ []) small_server busy (clients (pos 2) refl, tt) built
      busy_reached
