-- ===== src/Stomp/Broker.antt =====
-- stomp-broker/broker.go, option.go and publisher.go. The client is github.com/go-stomp/stomp, whose
-- answers are arguments; a connection is known by its Server().
use candi_plugin.Base.{List, [], ◌∷◌, ◌++◌, Option, none, some, bytes_eq, Bool, true, ◌⊎◌, inl, inr}
use candi_plugin.Go.Text.{Bytes, codes}
use candi_plugin.Go.Outcome.{Outcome, ok, panics}
use candi_plugin.Go.Map.{insert}
use candi_plugin.Go.Act.{Act, ◌>>=◌, ◌>>◌, return, emit, ask}
use candi_plugin.Candi.{
  Event, Attributes, PublisherArgument, Error, start_span, set_tag, trace_log, text, inject_header,
  send_stomp, end_span, message_or_data, or_default,
}

abbrev pub stomp_broker : Bytes
stomp_broker = codes "stomp_broker"

-- interfaces.Publisher: one that the service brings, or NewPublisher's.
pub data Publisher : Type 0 where
  custom : Bytes → Publisher
  standard : (conn : Bytes) → Publisher

pub record Broker : Type 0 where
  pub worker_type : Bytes
  pub conn : Bytes
  pub publisher : Option Publisher

abbrev pub BrokerOptionFunc : Type 0
BrokerOptionFunc = Broker → Broker

unfoldable pub broker_set_conn : Bytes → BrokerOptionFunc
broker_set_conn conn bk = record bk { conn = conn }

unfoldable pub broker_set_publisher : Publisher → BrokerOptionFunc
broker_set_publisher publisher bk = record bk { publisher = some publisher }

-- InitDefaultConnection, by the answer of stomp.Dial.
unfoldable pub init_default_connection : Error ⊎ Bytes → Outcome Bytes
init_default_connection (inl err) = panics (codes "STOMP: cannot connect to server broker: " ++ err)
init_default_connection (inr conn) = ok conn

unfoldable pub apply_options : List BrokerOptionFunc → Broker → Broker
apply_options [] bk = bk
apply_options (opt ∷ opts) bk = apply_options opts (opt bk)

unfoldable pub with_publisher : Broker → Option Publisher → Broker
with_publisher bk none = record bk { publisher = some (standard bk.conn) }
with_publisher bk (some p) = bk

-- NewSTOMPBroker
unfoldable pub new_stomp_broker : Bytes → List BrokerOptionFunc → Broker
new_stomp_broker conn opts =
    let bk =
      apply_options opts (record { worker_type = stomp_broker; conn = conn; publisher = none }) in
    with_publisher bk bk.publisher

unfoldable pub get_publisher : Broker → Option Publisher
get_publisher s = s.publisher

unfoldable pub get_name : Broker → Bytes
get_name s = stomp_broker

unfoldable pub health : Broker → List (Bytes × Option Error)
health s = (stomp_broker, none) ∷ []

-- Disconnect does nothing.
unfoldable pub disconnect_broker : Act Event (Option Error)
disconnect_broker = return none

abbrev pub stomp_event_id : Bytes
stomp_event_id = codes "stompEventID"

-- (*publisher).PublishMessage. The content type is the string in the context under
-- StompContentTypeKey, if it is one; the identifier is uuid.NewString's; `inject` is what
-- trace.InjectRequestHeader adds; the client answers the error of conn.Send.
unfoldable pub publish_message :
    (content_type : Option Bytes) (uuid : Bytes) (inject : Attributes → Attributes)
    → (List Event → Option Error)
    → PublisherArgument
    → Act Event (Option Error)
publish_message content_type uuid inject client args = do
  emit (start_span (codes "StompPublisher:PublishMessage"))
  emit (set_tag (codes "content-type") (text (or_default content_type (codes "text/plain"))))
  emit (set_tag (codes "topic") (text args.topic))
  emit (set_tag (codes "key") (text args.key))
  emit (trace_log (codes "message") (text (message_or_data args)))
  let header = inject (insert stomp_event_id uuid [])
  emit (inject_header header)
  emit (
      send_stomp args.topic (or_default content_type (codes "text/plain")) (message_or_data args)
        header)
  err ← ask client
  emit end_span
  return err

-- The option of the worker; its locker is a parameter of the worker's operations.
pub record Options {ℓ} (Locker : Type ℓ) : Type ℓ where
  pub locker : Locker
  pub debug_mode : Bool

module _ {ℓ} {Locker : Type ℓ} where
  -- getDefaultOption, with candiutils.NoopLocker.
  unfoldable pub get_default_option : Locker → Options Locker
  get_default_option noop = record { locker = noop; debug_mode = true }

  unfoldable pub set_debug_mode : Bool → Options Locker → Options Locker
  set_debug_mode debug_mode o = record o { debug_mode = debug_mode }

  unfoldable pub set_locker : Locker → Options Locker → Options Locker
  set_locker locker o = record o { locker = locker }
