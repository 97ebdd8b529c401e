-- ===== src/Sqs/Worker/Tests.antt =====
-- Tests of the SQS worker, and its theorems at concrete inputs.
use candi_plugin.Base.{true, false, List, [], ◌∷◌, none, some, inr, bytes_eq}
use candi_plugin.Go.Text.{Bytes, codes}
use candi_plugin.Go.Outcome.{panics}
use candi_plugin.Candi.{WorkerHandler, HandlerFunc, ServiceModule}
use candi_plugin.Sqs.Broker.{Broker, amazon_sqs_broker}
use candi_plugin.Sqs.Worker.{Client, Message}

abbrev crash : HandlerFunc
crash log = panics (codes "nil pointer")

abbrev mounted : Bytes → List HandlerFunc → WorkerHandler
mounted pattern fs = record {
  pattern = pattern;
  handler_funcs = fs;
  auto_ack = true;
  disable_trace = false;
  qos = none;
}

abbrev service : List ServiceModule
service =
    record {
      name = codes "order";
      worker_handlers = some (mounted (codes "paid") (crash ∷ []) ∷ []);
    }
    ∷ []

abbrev broker : Broker
broker = record { worker_type = amazon_sqs_broker; client = codes "aws"; publisher = none }

abbrev message : Message
message = record {
  message_id = some (codes "1");
  body = none;
  receipt_handle = codes "r";
  attributes = [];
}

abbrev up : Client
up = record { queue_url_of = λ q log. inr q; received = λ url log. inr (message ∷ []) }
