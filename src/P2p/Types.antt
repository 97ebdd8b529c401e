-- ===== src/P2p/Types.antt =====
-- p2p/types.go and p2p/option.go; and what the servers and the sender do to a connection. The
-- connections, net.Conn and net.UDPConn, are Go's: what they answer is a function of the log.
use candi_plugin.Base.{ℕ, zero, suc, Bool, true, false, List, [], ◌∷◌, ◌++◌, Option}
use candi_plugin.Go.Int.{ℤ, pos, negsuc}
use candi_plugin.Go.Text.{Bytes, codes}
use candi_plugin.Go.Outcome.{Outcome, ok, panics}
use candi_plugin.Candi.{Error}

abbrev pub p2p_udp : Bytes
p2p_udp = codes "p2p_udp"

abbrev pub p2p_tcp : Bytes
p2p_tcp = codes "p2p_tcp"

abbrev pub eof : Bytes
eof = codes "EOF"

-- The one byte of the slice `separator`.
abbrev pub separator : ℕ
separator = 58

pub data Event : Type 0 where
  -- conn.Write and conn.WriteToUDP
  conn_write : Bytes → Event
  close_write : Event
  conn_close : Event
  -- the tracer; a tag's value is an address of the connection
  start_trace : Bytes → Event
  set_tag : (key : Bytes) → Event
  trace_log : Bytes → Bytes → Event
  trace_error : Option Error → Event
  finish : Event
  -- the call of the handler registered at a prefix, with the message of its context
  handle : (prefix message : Bytes) → Event
  -- the semaphore
  acquire : Event
  release : Event
  -- the closing of the listener, or of the connection that a UDP server listens on
  listener_close : Event
  console : Bytes → Event

-- What a handler function does with its Context: it answers by an error, or nil, or a panic, or it
-- calls Write with a message and goes on with what that returns.
pub data Behaviour : Type 0 where
  answers : Outcome (Option Error) → Behaviour
  writes : Bytes → (ℕ × Option Error → Behaviour) → Behaviour

-- HandlerFunc, by what was done before its call and what GetMessage returns.
abbrev pub HandlerFunc : Type 0
HandlerFunc = List Event → Bytes → Behaviour

pub record Handler : Type 0 where
  pub prefix : Bytes
  pub handler_func : HandlerFunc

-- (*HandlerGroup).Register
unfoldable pub register : Bytes → HandlerFunc → List Handler → List Handler
register prefix f handlers = handlers ++ record { prefix = prefix; handler_func = f } ∷ []

pub record Options : Type 0 where
  pub buffer_size : ℕ
  pub max_concurrent_client : ℕ
  pub enable_tracing : Bool

abbrev pub ServerOption : Type 0
ServerOption = Options → Options

-- The constructors of options that panic at a size that is not positive.
unfoldable pub server_set_buffer_size : ℤ → Outcome ServerOption
server_set_buffer_size (pos (suc n)) = ok (λ o. record o { buffer_size = suc n })
server_set_buffer_size (pos zero) = panics (codes "size must greater than zero")
server_set_buffer_size (negsuc n) = panics (codes "size must greater than zero")

unfoldable pub server_set_max_concurrent_client : ℤ → Outcome ServerOption
server_set_max_concurrent_client (pos (suc n)) =
    ok (λ o. record o { max_concurrent_client = suc n })
server_set_max_concurrent_client (pos zero) = panics (codes "max must greater than zero")
server_set_max_concurrent_client (negsuc n) = panics (codes "max must greater than zero")

unfoldable pub server_disable_tracing : ServerOption
server_disable_tracing o = record o { enable_tracing = false }

unfoldable pub default_option : Options
default_option = record { buffer_size = 1024; max_concurrent_client = 100; enable_tracing = true }

unfoldable pub apply_options : List ServerOption → Options → Options
apply_options [] o = o
apply_options (f ∷ fs) o = apply_options fs (f o)
