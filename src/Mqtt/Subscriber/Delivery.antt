-- ===== src/Mqtt/Subscriber/Delivery.antt =====
-- What processMessage of mqtt-broker/subscriber.go does with a message.
use candi_plugin.Base.{
  ℕ, suc, ◌+◌, ◌≡◌, refl, Bool, false, List, [], ◌∷◌, Option, none, some, arith, bytes_eq,
  if◌then◌else◌,
}
use candi_plugin.Go.Text.{codes}
use candi_plugin.Go.Act.{after, ◌>>◌}
use candi_plugin.Go.Outcome.{Outcome, ok, panics}
use candi_plugin.Candi.{
  Event, Error, HandlerFunc, WorkerHandler, handle, set_error, root, skip_trace, start_trace,
  wg_add, Context, Attributes,
}
use candi_plugin.Candi.Events.{count, is_ack, is_wg_add, is_wg_done, is_finish, if_due}
use candi_plugin.Mqtt.Router
use candi_plugin.Mqtt.Subscriber.{
  WorkerEngine, Message, run_handlers, report, process_setup, process_body, process_end,
  process_message, process_matched,
}

module _ (p : Event → Bool) (no_handle : (i : ℕ) → p (handle i) ≡ false)
    (no_error : (e : Error) → p (set_error e) ≡ false) where
  run_handlers-step :
      (i : ℕ) (fs : List HandlerFunc) (log : List Event)
      → ((r : Option Error) (l : List Event) → count p (run_handlers (suc i) fs r l).1 ≡ count p l)
      → (o : Outcome (Option Error))
      → count p (after (o, handle i ∷ log) (λ r. report r >> run_handlers (suc i) fs r)).1
        ≡ count p log
  unfolding report
  run_handlers-step i fs log ih (panics v) = ground (arith, no_handle i)
  run_handlers-step i fs log ih (ok none) = ground (arith, no_handle i, ih none (handle i ∷ log))
  run_handlers-step i fs log ih (ok (some e)) =
      ground (arith, no_handle i, no_error e, ih (some e) (set_error e ∷ handle i ∷ log))

  -- Running the handlers adds no event but their calls and the errors that they return.
  run_handlers-count :
      (i : ℕ) (fs : List HandlerFunc) (err : Option Error) (log : List Event)
      → count p (run_handlers i fs err log).1 ≡ count p log
  unfolding run_handlers
  run_handlers-count i [] err log = refl
  run_handlers-count i (f ∷ fs) err log =
      run_handlers-step i fs log (λ r l. run_handlers-count (suc i) fs r l) (f (handle i ∷ log))

-- What a message's events come to: whether it is acknowledged, and the counts of the wait group's
-- and the trace's.
pub record Handled (due : Bool) (log : List Event) (r : Outcome (Unit {0}) × List Event)
    : Type 0 where
  pub returns : r.0 ≡ ok tt
  pub acks : count is_ack r.1 ≡ if_due due + count is_ack log
  pub adds : count is_wg_add r.1 ≡ 1 + count is_wg_add log
  pub dones : count is_wg_done r.1 ≡ 1 + count is_wg_done log
  pub finishes : count is_finish r.1 ≡ 1 + count is_finish log

record Quiet {ℓ} {A : Type ℓ} (log : List Event) (r : Outcome A × List Event) : Type 0 where
  acks : count is_ack r.1 ≡ count is_ack log
  adds : count is_wg_add r.1 ≡ count is_wg_add log
  dones : count is_wg_done r.1 ≡ count is_wg_done log
  finishes : count is_finish r.1 ≡ count is_finish log

setup-Quiet :
    (w : WorkerEngine) (m : Message) (ctx : Context) (params : Attributes) (log : List Event)
    → ((process_setup w m ctx params log).0 ≡ ok tt) × Quiet log (process_setup w m ctx params log)
unfolding process_setup
setup-Quiet w m ctx params log = ground arith

run_handlers-Quiet :
    (fs : List HandlerFunc) (log : List Event) → Quiet log (run_handlers 0 fs none log)
run_handlers-Quiet fs log = record {
  acks = run_handlers-count is_ack (λ i. refl) (λ e. refl) 0 fs none log;
  adds = run_handlers-count is_wg_add (λ i. refl) (λ e. refl) 0 fs none log;
  dones = run_handlers-count is_wg_done (λ i. refl) (λ e. refl) 0 fs none log;
  finishes = run_handlers-count is_finish (λ i. refl) (λ e. refl) 0 fs none log;
}

body-Quiet :
    (w : WorkerEngine) (m : Message) (ctx : Context) (h : WorkerHandler) (params : Attributes)
    (log : List Event)
    → Quiet log (process_body w m ctx h params log)
unfolding process_body
body-Quiet w m ctx h params log = ground (
  arith,
  setup-Quiet w m ctx params log,
  run_handlers-Quiet h.handler_funcs (process_setup w m ctx params log).1,
)

end-Handled :
    (h : WorkerHandler) (outcome : Outcome (Option Error)) (log : List Event)
    → (let r = process_end h outcome log in
        (r.0 ≡ ok tt)
        × (count is_ack r.1 ≡ if_due h.auto_ack + count is_ack log)
        × (count is_wg_add r.1 ≡ count is_wg_add log)
        × (count is_wg_done r.1 ≡ 1 + count is_wg_done log)
        × (count is_finish r.1 ≡ 1 + count is_finish log))
unfolding process_end
end-Handled h outcome log = ground arith

matched-Handled :
    (w : WorkerEngine) (m : Message) (h : WorkerHandler) (params : Attributes) (log : List Event)
    → Handled h.auto_ack log (process_matched w m (h, params) log)
unfolding process_matched
matched-Handled w m h params log =
    let ctx = if h.disable_trace then skip_trace root else root in
    let begun = start_trace ctx (codes "MQTTSubscriber") [] ∷ wg_add ∷ log in
    let body = process_body w m ctx h params begun in
    ground (arith, body-Quiet w m ctx h params begun, end-Handled h body.0 body.1)

-- While the worker's context is not cancelled, processMessage returns whatever the handlers do, a
-- panic included; the log has one acknowledgement more if the matched handler has AutoACK and none
-- more if not, and one wg.Add, one wg.Done and one trace.Finish more.
pub process_message-Handled :
    (w : WorkerEngine) (m : Message) (log : List Event)
    → w.err ≡ none
    → Handled (Router.match m.topic w.router).0.auto_ack log (process_message w m log)
unfolding process_message
process_message-Handled w m log e =
    rw (e, process_message)
      (matched-Handled w m (Router.match m.topic w.router).0 (Router.match m.topic w.router).1 log)
