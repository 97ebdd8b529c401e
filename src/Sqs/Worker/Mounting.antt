-- ===== src/Sqs/Worker/Mounting.antt =====
-- What NewAmazonSQSWorker of amazonsqs/consumer.go makes of the handlers of the service.
use candi_plugin.Base.{Bool, true, false, List, [], ◌∷◌, bytes_eq}
use candi_plugin.Go.Act.{Act}
use candi_plugin.Go.Outcome.{Outcome, ok, panics}
use candi_plugin.Candi.{WorkerHandler}
use candi_plugin.Sqs.Broker.{Broker}

abbrev pub panicked {ℓ} : {A : Type ℓ} → Outcome A → Bool
panicked (ok a) = false
panicked (panics v) = true

abbrev pub has_some : List WorkerHandler → Bool
has_some [] = false
has_some (h ∷ hs) = true
