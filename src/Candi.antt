-- ===== src/Candi.antt =====
-- The data of github.com/golangid/candi that the packages read or hand over, and the calls that the
-- packages make of its tracer, its event context and the message clients. A call is an event; what
-- candi does on a call is not modelled.
pub mod Events
pub mod Handlers
pub mod Tracing
pub mod Places
use candi_plugin.Base.{List, [], ◌∷◌, Option, none, some, Bool, false, ℕ, ◌++◌}
use candi_plugin.Go.Text.{Bytes}
use candi_plugin.Go.Outcome.{Outcome}

-- An `error`, by the text that its method Error returns.
abbrev pub Error : Type 0
Error = Bytes

-- map[string]string
abbrev pub Attributes : Type 0
Attributes = List (Bytes × Bytes)

-- A context.Context, by how it was derived: the worker's own, that of a message client, one marked
-- by tracer.SkipTraceContext, and one that tracer.StartTraceFromHeader returned.
pub data Context : Type 0 where
  root : Context
  received : Context
  skip_trace : Context → Context
  traced : Context → Context

-- What trace.SetTag and trace.Log are given.
pub data Value : Type 0 where
  text : Bytes → Value
  flag : Bool → Value
  attrs : Attributes → Value
  opaque : Value

pub data Event : Type 0 where
  -- the tracer
  start_trace : Context → Bytes → Attributes → Event
  set_tag : Bytes → Value → Event
  trace_log : Bytes → Value → Event
  trace_error : Option Error → Event
  finish : Option Error → Event
  -- candishared.EventContext
  set_context : Context → Event
  set_worker_type : Bytes → Event
  set_handler_route : Bytes → Event
  set_key : Bytes → Event
  set_header : Attributes → Event
  write : Bytes → Event
  set_error : Error → Event
  -- the call of the handler function at a position of HandlerFuncs
  handle : ℕ → Event
  -- the acknowledgement of a message, and in SQS its removal from the queue
  ack : Event
  delete_sqs : (url receipt_handle : Bytes) → Event
  -- sync.WaitGroup
  wg_add : Event
  wg_done : Event
  -- the semaphore of a topic: a send into its channel and a receive from it
  acquire : Bytes → Event
  release : Bytes → Event
  -- interfaces.Locker
  is_locked : Bytes → Event
  unlock : Bytes → Event
  -- the message clients: subscribing, and sending a message
  subscribe : Bytes → ℕ → Event
  subscribe_queue : Bytes → Event
  check_topic : Bytes → Event
  create_topic_call : Bytes → Event
  check_subscription : Bytes → Event
  create_subscription_call : (id topic : Bytes) → Event
  receive : (subscription topic : Bytes) → Event
  get_queue_url : (queue : Bytes) → Event
  receive_message : (queue_url : Bytes) → Event
  start_span : Bytes → Event
  inject_header : Attributes → Event
  send_mqtt : (topic : Bytes) (qos : ℕ) (retain : Bool) (payload : Bytes) → Event
  send_stomp : (destination content_type body : Bytes) (header : Attributes) → Event
  send_sqs : (queue_url body : Bytes) → Event
  publish_pubsub : (topic body : Bytes) (attributes : Attributes) → Event
  end_span : Event
  -- stopping: wg.Wait(), the worker's cancel function, its shutdown channel, the client
  wg_wait : Event
  cancel : Event
  shutdown_send : Event
  shutdown_receive : Event
  disconnect : ℕ → Event
  -- a line on the console, by the arguments of its format
  console : List Bytes → Event

-- A handler function of the service: what it answers depends on all that was done before, the
-- message that the event context holds included.
abbrev pub HandlerFunc : Type 0
HandlerFunc = List Event → Outcome (Option Error)

-- types.WorkerHandler; `qos` is the byte under the key "qos" of its Configs, if there is one.
pub record WorkerHandler : Type 0 where
  pub pattern : Bytes
  pub handler_funcs : List HandlerFunc
  pub auto_ack : Bool
  pub disable_trace : Bool
  pub qos : Option ℕ

-- A module of the service: its name and, if it has a handler for the worker's type, the handlers
-- that MountHandlers registers.
pub record ServiceModule : Type 0 where
  pub name : Bytes
  pub worker_handlers : Option (List WorkerHandler)

-- candishared.PublisherArgument: the fields that the publishers read. `data_bytes` is what
-- candihelper.ToBytes makes of its Data; the two header fields are the byte under "qos" and the
-- Boolean under "retain", `header` all of the header with each value by candihelper.ToBytes.
pub record PublisherArgument : Type 0 where
  pub topic : Bytes
  pub key : Bytes
  pub message : Bytes
  pub data_bytes : Bytes
  pub header_qos : Option ℕ
  pub header_retain : Option Bool
  pub header : Attributes

abbrev pub or_default {ℓ} : {A : Type ℓ} → Option A → A → A
or_default none d = d
or_default (some a) d = a

-- The last value that options set, before `d` where none does.
abbrev pub last_of {ℓ κ} : {O : Type κ} {A : Type ℓ} → (O → Option A) → List O → A → A
last_of sets [] d = d
last_of sets (opt ∷ opts) d = last_of sets opts (or_default (sets opt) d)

-- args.Message if it is not empty, else the data: as every publisher begins.
abbrev pub message_or_data : PublisherArgument → Bytes
message_or_data args = elim args.message [ [] ↦ args.data_bytes | c ∷ s ↦ c ∷ s ]

-- The zero value of WorkerHandler, what a Go map of handlers answers for a key that it lacks.
abbrev pub no_worker_handler : WorkerHandler
no_worker_handler = record {
  pattern = [];
  handler_funcs = [];
  auto_ack = false;
  disable_trace = false;
  qos = none;
}

-- The handlers of the modules, in the order of the two outer loops of a worker's constructor.
unfoldable pub module_handlers : List ServiceModule → List WorkerHandler
module_handlers [] = []
module_handlers (m ∷ ms) = elim m.worker_handlers [
  | none ↦ module_handlers ms
  | some hs ↦ hs ++ module_handlers ms
]
