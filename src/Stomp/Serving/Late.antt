-- ===== src/Stomp/Serving/Late.antt =====
-- The message that Shutdown of stomp-broker/consumer.go does not wait for.
use candi_plugin.Base.{◌≡◌, refl, ap, ◌∙◌, true, false, List, [], ◌∷◌, some, arith}
use candi_plugin.Go.Text.{Bytes}
use candi_plugin.Go.Outcome.{ok}
use candi_plugin.Candi.{Event, ServiceModule}
use candi_plugin.Stomp.Broker.{Broker, Options}
use candi_plugin.Stomp.Worker.{WorkerEngine, Client, Locker, new_stomp_worker}
use candi_plugin.Stomp.Serving.{
  adding, State, Step, Reach, begin, stop, look, receive, receive_again, send, leave, go_on, add,
  finish, release, signal, mark, wait, here, next, is_goroutine, Run, rest, move,
}
use candi_plugin.Stomp.Serving.Invariant.{serve-Orderly}
use candi_plugin.Stomp.Serving.Draining.{finish_all}

-- What steps of the goroutines leave alone.
record Left (s t : State) : Type 0 where
  phase_same : t.phase ≡ s.phase
  sent_same : t.is_signalled ≡ s.is_signalled

false_not_true : {A : Type 0} → false ≡ true → A
false_not_true e = absurd (ground (arith, e))

Step-Left : {s t : State} (step : Step s t) → is_goroutine step ≡ true → Left s t
Step-Left (stop e one) own = false_not_true own
Step-Left (look e none_) own = false_not_true own
Step-Left (receive topic e) own = false_not_true own
Step-Left (receive_again e) own = false_not_true own
Step-Left (send topic e free) own = false_not_true own
Step-Left (leave topic e down) own = false_not_true own
Step-Left (go_on topic e up) own = false_not_true own
Step-Left (add topic e) own = false_not_true own
Step-Left (finish topic before behind e) own = record { phase_same = refl; sent_same = refl }
Step-Left (release topic before behind e) own = record { phase_same = refl; sent_same = refl }
Step-Left (signal e none_) own = false_not_true own
Step-Left (mark e) own = false_not_true own
Step-Left (wait e done) own = false_not_true own

Run-Left : {s t : State} → Run s t → Left s t
Run-Left rest = record { phase_same = refl; sent_same = refl }
Run-Left (move r step own) =
    let first = Run-Left r in
    let last = Step-Left step own in
    record {
      phase_same = last.phase_same ∙ first.phase_same;
      sent_same = last.sent_same ∙ first.sent_same;
    }

Run→Reach : {s t : State} → Run s t → Reach s t
Run→Reach rest = here
Run→Reach (move r step own) = next (Run→Reach r) step

-- In a worker that NewSTOMPWorker has built, wherever Serve is between its test of isShutdown and wg.Add
-- with a message, and Shutdown is past its send: steps of the goroutines, of Shutdown and then of Serve
-- lead to a state where Shutdown has returned and that message is being handled, and it alone.
pub serve-late :
    (name : Bytes) (modules : List ServiceModule) (bk : Broker) (client : Client)
    (opts : List (Options Locker → Options Locker)) (default : Options Locker) (log : List Event)
    (w : WorkerEngine) (t : State) (topic : Bytes)
    → (new_stomp_worker name modules (some bk) client opts default log).0 ≡ ok w
    → Reach (begin w) t
    → t.phase ≡ adding topic
    → t.is_signalled ≡ true
    → (u : State) × Reach t u × (u.is_returned ≡ true) × (u.jobs ≡ topic ∷ []) × (u.wg ≡ 1)
serve-late name modules bk client opts default log w t topic made reached at sent =
    let (o, single) = serve-Orderly name modules bk client opts default log w t made reached in
    let d = finish_all t.jobs t refl o.waits in
    let left = Run-Left d.reached in
    let marked = next (Run→Reach d.reached) (mark (left.sent_same ∙ sent)) in
    let returned = next marked (wait refl d.done) in
    (
      _,
      next returned (add topic (left.phase_same ∙ at)),
      refl,
      ap (◌∷◌ topic) d.idle,
      omega (arith, d.done),
    )
