-- ===== src/Sqs/Broker.antt =====
-- amazonsqs/broker.go, option.go and publisher.go. The client is the AWS SDK's, whose answers are
-- arguments; a client is known by its configuration.
use candi_plugin.Base.{List, [], ◌∷◌, Option, none, some, ◌⊎◌, inl, inr, Bool, true, bytes_eq}
use candi_plugin.Go.Text.{Bytes, codes}
use candi_plugin.Go.Outcome.{Outcome, ok, panics}
use candi_plugin.Go.Map.{insert}
use candi_plugin.Go.Act.{Act, ◌>>=◌, ◌>>◌, return, emit, ask}
use candi_plugin.Candi.{
  Event, Attributes, PublisherArgument, Error, start_span, set_tag, trace_log, text, opaque,
  inject_header, send_sqs, end_span, message_or_data, or_default,
}

abbrev pub amazon_sqs_broker : Bytes
amazon_sqs_broker = codes "amazonsqs_broker"

-- interfaces.Publisher: one that the service brings, or NewPublisher's.
pub data Publisher : Type 0 where
  custom : Bytes → Publisher
  standard : (client : Bytes) → Publisher

pub record Broker : Type 0 where
  pub worker_type : Bytes
  pub client : Bytes
  pub publisher : Option Publisher

abbrev pub BrokerOptionFunc : Type 0
BrokerOptionFunc = Broker → Broker

unfoldable pub broker_set_client : Bytes → BrokerOptionFunc
broker_set_client client bk = record bk { client = client }

unfoldable pub broker_set_publisher : Publisher → BrokerOptionFunc
broker_set_publisher publisher bk = record bk { publisher = some publisher }

-- InitDefaultConnection, by the answer of config.LoadDefaultConfig.
unfoldable pub init_default_connection : Error ⊎ Bytes → Outcome Bytes
init_default_connection (inl err) = panics err
init_default_connection (inr client) = ok client

unfoldable pub apply_options : List BrokerOptionFunc → Broker → Broker
apply_options [] bk = bk
apply_options (opt ∷ opts) bk = apply_options opts (opt bk)

unfoldable pub with_publisher : Broker → Option Publisher → Broker
with_publisher bk none = record bk { publisher = some (standard bk.client) }
with_publisher bk (some p) = bk

-- NewAmazonSQSBroker
unfoldable pub new_amazon_sqs_broker : Bytes → List BrokerOptionFunc → Broker
new_amazon_sqs_broker client opts =
    let bk =
      apply_options opts
        (record { worker_type = amazon_sqs_broker; client = client; publisher = none }) in
    with_publisher bk bk.publisher

unfoldable pub get_publisher : Broker → Option Publisher
get_publisher s = s.publisher

unfoldable pub get_name : Broker → Bytes
get_name s = amazon_sqs_broker

unfoldable pub health : Broker → List (Bytes × Option Error)
health s = (amazon_sqs_broker, none) ∷ []

-- Disconnect does nothing.
unfoldable pub disconnect_broker : Act Event (Option Error)
disconnect_broker = return none

abbrev pub amazon_sqs_event_id : Bytes
amazon_sqs_event_id = codes "amazonSQSEventID"

-- The tags of a message that was sent.
unfoldable pub tag_sent : Option Error → Act Event (Unit {0})
tag_sent (some err) = return tt
tag_sent none = do
  emit (set_tag (codes "message_id") opaque)
  emit (set_tag (codes "sequence_number") opaque)

-- (*publisher).PublishMessage. The content type is the string in the context under
-- AmazonSQSContentTypeKey, if it is one; the identifier is uuid.NewString's; `inject` is what
-- trace.InjectRequestHeader adds; the client answers the error of SendMessage. The header with the
-- identifier and the trace is made, and is no part of what is sent.
unfoldable pub publish_message :
    (content_type : Option Bytes) (uuid : Bytes) (inject : Attributes → Attributes)
    → (List Event → Option Error)
    → PublisherArgument
    → Act Event (Option Error)
publish_message content_type uuid inject client args = do
  emit (start_span (codes "AmazonSQSPublisher:PublishMessage"))
  emit (set_tag (codes "content-type") (text (or_default content_type (codes "text/plain"))))
  emit (set_tag (codes "topic") (text args.topic))
  emit (set_tag (codes "key") (text args.key))
  emit (trace_log (codes "message") (text (message_or_data args)))
  emit (inject_header (inject (insert amazon_sqs_event_id uuid [])))
  emit (send_sqs args.topic (message_or_data args))
  err ← ask client
  tag_sent err
  emit end_span
  return err

-- The option of option.go, which no constructor of the package takes.
pub record Options {ℓ} (Locker : Type ℓ) : Type ℓ where
  pub locker : Locker
  pub debug_mode : Bool

module _ {ℓ} {Locker : Type ℓ} where
  -- getDefaultOption, with candiutils.NoopLocker.
  unfoldable pub get_default_option : Locker → Options Locker
  get_default_option noop = record { locker = noop; debug_mode = true }

  unfoldable pub set_debug_mode : Bool → Options Locker → Options Locker
  set_debug_mode debug_mode o = record o { debug_mode = debug_mode }

  unfoldable pub set_locker : Locker → Options Locker → Options Locker
  set_locker locker o = record o { locker = locker }
