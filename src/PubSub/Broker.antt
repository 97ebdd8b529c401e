-- ===== src/PubSub/Broker.antt =====
-- gcppubsub/broker.go, publisher.go and const.go. The client is cloud.google.com/go/pubsub, whose
-- answers are arguments; a client is known by its project.
use candi_plugin.Base.{List, [], ◌∷◌, Option, none, some, ◌⊎◌, inl, inr, bytes_eq}
use candi_plugin.Go.Text.{Bytes, codes}
use candi_plugin.Go.Outcome.{Outcome, ok, panics}
use candi_plugin.Go.Map.{insert}
use candi_plugin.Go.Act.{Act, ◌>>=◌, ◌>>◌, return, emit, ask}
use candi_plugin.Candi.{
  Event, Attributes, PublisherArgument, Error, start_span, trace_log, opaque, inject_header,
  publish_pubsub, end_span, message_or_data, disconnect,
}

abbrev pub google_cloud_pubsub : Bytes
google_cloud_pubsub = codes "gcppubsub"

-- interfaces.Publisher: one that the service brings, or NewPublisher's; a client may be nil.
pub data Publisher : Type 0 where
  custom : Bytes → Publisher
  standard : (client : Option Bytes) → Publisher

pub record Broker : Type 0 where
  pub worker_type : Bytes
  pub client : Option Bytes
  pub publisher : Option Publisher

abbrev pub BrokerOptionFunc : Type 0
BrokerOptionFunc = Broker → Broker

unfoldable pub broker_set_worker_type : Bytes → BrokerOptionFunc
broker_set_worker_type worker_type bk = record bk { worker_type = worker_type }

unfoldable pub broker_set_client : Bytes → BrokerOptionFunc
broker_set_client client bk = record bk { client = some client }

unfoldable pub broker_set_publisher : Publisher → BrokerOptionFunc
broker_set_publisher publisher bk = record bk { publisher = some publisher }

-- InitDefaultClient, by the answer of pubsub.NewClient.
unfoldable pub init_default_client : Error ⊎ Bytes → Outcome Bytes
init_default_client (inl err) = panics err
init_default_client (inr client) = ok client

unfoldable pub apply_options : List BrokerOptionFunc → Broker → Broker
apply_options [] bk = bk
apply_options (opt ∷ opts) bk = apply_options opts (opt bk)

unfoldable pub with_publisher : Broker → Option Publisher → Broker
with_publisher bk none = record bk { publisher = some (standard bk.client) }
with_publisher bk (some p) = bk

-- NewGCPPubSubBroker
unfoldable pub new_gcp_pubsub_broker : List BrokerOptionFunc → Broker
new_gcp_pubsub_broker opts =
    let bk =
      apply_options opts
        (record { worker_type = google_cloud_pubsub; client = none; publisher = none }) in
    with_publisher bk bk.publisher

unfoldable pub get_publisher : Broker → Option Publisher
get_publisher g = g.publisher

unfoldable pub get_name : Broker → Bytes
get_name g = google_cloud_pubsub

unfoldable pub health : Broker → List (Bytes × Option Error)
health g = (google_cloud_pubsub, none) ∷ []

-- Disconnect, by the answer of Client.Close.
unfoldable pub disconnect_broker : (List Event → Option Error) → Act Event (Option Error)
disconnect_broker close = do emit (disconnect 0); ask close

-- GetMessageAttributes, by the value that the context has under MessageAttribute: if there is none, or
-- none of the type, the assertion panics.
unfoldable pub get_message_attributes : Option Attributes → Outcome Attributes
get_message_attributes none = panics (codes "interface conversion")
get_message_attributes (some m) = ok m

-- The loop that copies args.Header over the attributes of the trace.
unfoldable pub copy_header : Attributes → Attributes → Attributes
copy_header [] m = m
copy_header (entry ∷ entries) m = copy_header entries (insert entry.0 entry.1 m)

-- (*publisher).PublishMessage. `inject` is what trace.InjectRequestHeader adds; the client answers the
-- error of the result's Get.
unfoldable pub publish_message :
    (inject : Attributes → Attributes)
    → (List Event → Option Error)
    → PublisherArgument
    → Act Event (Option Error)
publish_message inject client args = do
  emit (start_span (codes "GCPPubSub:PublishMessage"))
  let injected = inject []
  emit (inject_header injected)
  emit (publish_pubsub args.topic (message_or_data args) (copy_header args.header injected))
  err ← ask client
  emit (trace_log (codes "server_id") opaque)
  emit end_span
  return err
