-- ===== src/PubSub/Worker/Delivery.antt =====
-- What processMessage of gcppubsub/consumer.go does with a message.
use candi_plugin.Base.{
  ℕ, ◌+◌, ◌≡◌, refl, ap, Bool, true, false, List, ◌∷◌, ◌∙◌, Option, none, arith, bytes_eq,
  if◌then◌else◌,
}
use candi_plugin.Go.Text.{Bytes, codes}
use candi_plugin.Go.Map.{lookup}
use candi_plugin.Go.Outcome.{Outcome, ok}
use candi_plugin.Candi.{
  Event, Error, HandlerFunc, WorkerHandler, handle, set_error, received, traced, skip_trace,
  start_trace, acquire, Context, Value, set_tag, trace_log, finish, ack,
}
use candi_plugin.Candi.Events.{
  count, is_ack, is_finish, is_marked, is_acquire, is_release, positions, inputs, if_due,
}
use candi_plugin.Candi.Tracing.{
  FinishOptions, FinishRun, Traces-count, Traces-finish, Traces-positions, Traces-inputs,
}
use candi_plugin.Go.Act.{emit}
use candi_plugin.Candi.Handlers.{when, run_funcs, run_funcs-count}
use candi_plugin.PubSub.Worker.{
  WorkerEngine, Message, Finish, ack_func, report, process_setup, process_selected, process_running,
  process_message, or_no_handler, release_after,
}

-- What the worker relies on of candi's trace.Finish with the option that recovers: it stops a panic,
-- runs the function of its options once and ends the trace once, and does nothing else that is logged.
pub record Finishes (trace_finish : Finish) : Type 0 where
  pub finishes :
      (o : FinishOptions) (outcome : Outcome (Unit {0})) (log : List Event)
      → o.recovers ≡ true
      → FinishRun o log (trace_finish o outcome log)

pub record Quiet (log log' : List Event) : Type 0 where
  pub acks : count is_ack log' ≡ count is_ack log
  pub finishes : count is_finish log' ≡ count is_finish log
  pub marks : count is_marked log' ≡ count is_marked log
  pub acquires : count is_acquire log' ≡ count is_acquire log
  pub releases : count is_release log' ≡ count is_release log

module _ (p : Event → Bool) (no_handle : (i : ℕ) → p (handle i) ≡ false)
    (no_error : (e : Error) → p (set_error e) ≡ false) where
  report-count : (e : Error) (log : List Event) → count p (report e log).1 ≡ count p log
  unfolding report
  report-count e log = ground (arith, no_error e)

  report-returns : (e : Error) (log : List Event) → (report e log).0 ≡ ok tt
  unfolding report
  report-returns e log = refl

  funcs-count :
      (fs : List HandlerFunc) (log : List Event)
      → count p (run_funcs report 0 fs log).1 ≡ count p log
  funcs-count fs log = run_funcs-count p report no_handle report-returns report-count 0 fs log

pub run_funcs-Quiet :
    (fs : List HandlerFunc) (log : List Event) → Quiet log (run_funcs report 0 fs log).1
run_funcs-Quiet fs log = record {
  acks = funcs-count is_ack (λ i. refl) (λ e. refl) fs log;
  finishes = funcs-count is_finish (λ i. refl) (λ e. refl) fs log;
  marks = funcs-count is_marked (λ i. refl) (λ e. refl) fs log;
  acquires = funcs-count is_acquire (λ i. refl) (λ e. refl) fs log;
  releases = funcs-count is_release (λ i. refl) (λ e. refl) fs log;
}

pub setup-Quiet :
    (w : WorkerEngine) (topic : Bytes) (msg : Message) (ctx : Context) (log : List Event)
    → ((process_setup w topic msg ctx log).0 ≡ ok tt)
      × Quiet log (process_setup w topic msg ctx log).1
unfolding process_setup
setup-Quiet w topic msg ctx log = ground arith

-- What the deferred Finish of a handler's message leaves behind.
pub record Closed (h : WorkerHandler) (log : List Event) (r : Outcome (Unit {0}) × List Event)
    : Type 0 where
  pub returns : r.0 ≡ ok tt
  pub acks : count is_ack r.1 ≡ if_due h.auto_ack + count is_ack log
  pub finishes : count is_finish r.1 ≡ 1 + count is_finish log
  pub marks : count is_marked r.1 ≡ count is_marked log
  pub acquires : count is_acquire r.1 ≡ count is_acquire log
  pub releases : count is_release r.1 ≡ count is_release log
  pub handles : positions r.1 ≡ positions log
  pub told : inputs r.1 ≡ inputs log

-- The options that process_selected hands to Finish.
abbrev pub options_of : WorkerHandler → FinishOptions
options_of h = record { recovers = true; with_func = ack_func h }

record Acked (due : Bool) (log : List Event) (r : Outcome (Unit {0}) × List Event) : Type 0 where
  returns : r.0 ≡ ok tt
  acks : count is_ack r.1 ≡ if_due due + count is_ack log
  finishes : count is_finish r.1 ≡ count is_finish log
  marks : count is_marked r.1 ≡ count is_marked log
  acquires : count is_acquire r.1 ≡ count is_acquire log
  releases : count is_release r.1 ≡ count is_release log
  handles : positions r.1 ≡ positions log
  told : inputs r.1 ≡ inputs log

ack_func-Acked : (due : Bool) (log : List Event) → Acked due log (when due (emit ack) log)
ack_func-Acked true log = ground arith
ack_func-Acked false log = ground arith

module _ (p : Event → Bool)
    (quiet : (key : Bytes) (v : Value)
      → (p (set_tag key v) ≡ false) × (p (trace_log key v) ≡ false))
    (ended : (err : Option Error) → p (finish err) ≡ false) where
  run-count :
      (h : WorkerHandler) (log : List Event) (r : Outcome (Unit {0}) × List Event)
      → (f : FinishRun (options_of h) log r)
      → (count p f.called ≡ count p log) × (count p r.1 ≡ count p (ack_func h f.called).1)
  run-count h log r f = (
    Traces-count p quiet ended f.leads,
    Traces-count p quiet ended (f.follows (ack_func-Acked h.auto_ack f.called).returns),
  )

pub finish-Closed :
    (h : WorkerHandler) (log : List Event) (r : Outcome (Unit {0}) × List Event)
    → FinishRun (options_of h) log r
    → Closed h log r
finish-Closed h log r f =
    let a = ack_func-Acked h.auto_ack f.called in
    let behind = f.follows a.returns in
    record {
      returns = f.returns a.returns;
      acks = omega (arith, a.acks, run-count is_ack (λ k v. (refl, refl)) (λ e. refl) h log r f);
      finishes = omega (arith, a.finishes, Traces-finish f.leads, Traces-finish behind, f.once);
      marks =
          omega (arith, a.marks, run-count is_marked (λ k v. (refl, refl)) (λ e. refl) h log r f);
      acquires =
          omega
            (arith, a.acquires, run-count is_acquire (λ k v. (refl, refl)) (λ e. refl) h log r f);
      releases =
          omega
            (arith, a.releases, run-count is_release (λ k v. (refl, refl)) (λ e. refl) h log r f);
      handles = Traces-positions behind ∙ a.handles ∙ Traces-positions f.leads;
      told = Traces-inputs behind ∙ a.told ∙ Traces-inputs f.leads;
    }

-- What a message's events come to, for its handler.
pub record Finished (taken : ℕ) (h : WorkerHandler) (log : List Event)
    (r : Outcome (Unit {0}) × List Event) : Type 0 where
  pub returns : r.0 ≡ ok tt
  pub acks : count is_ack r.1 ≡ if_due h.auto_ack + count is_ack log
  pub finishes : count is_finish r.1 ≡ 1 + count is_finish log
  pub marks : count is_marked r.1 ≡ if_due h.disable_trace + count is_marked log
  pub acquires : count is_acquire r.1 ≡ taken + count is_acquire log
  pub releases : count is_release r.1 ≡ taken + count is_release log

module _ (trace_finish : Finish) (law : Finishes trace_finish) where
  selected-Finished :
      (w : WorkerEngine) (topic : Bytes) (msg : Message) (h : WorkerHandler) (log : List Event)
      → Finished 0 h log (process_selected trace_finish w topic msg h log)
  unfolding process_selected
  selected-Finished w topic msg h log =
      let ctx = if h.disable_trace then skip_trace received else received in
      let begun = start_trace ctx (codes "GCPPubSubConsumer") msg.attributes ∷ log in
      let ready = (process_setup w topic msg (traced ctx) begun).1 in
      let ran = run_funcs report 0 h.handler_funcs ready in
      let o = options_of h in
      ground (
        arith,
        setup-Quiet w topic msg (traced ctx) begun,
        run_funcs-Quiet h.handler_funcs ready,
        finish-Closed h ran.1 (trace_finish o ran.0 ran.1) (law.finishes o ran.0 ran.1 refl),
      )

  -- Under a tracer whose Finish, with the option that recovers, stops a panic, runs the function
  -- that it is given once and ends the trace once, and does no more than that but for tags and log
  -- lines, which that of the Sentry tracer does not meet: while the worker's context is not
  -- cancelled, processMessage and its goroutine return whatever the handler functions do, a panic
  -- included. The topic's place in the semaphore is taken once and given back once, the message is
  -- acknowledged once if the topic's handler has AutoACK and never if not, and one trace ends,
  -- started in a context marked as not to be traced just where the handler has DisableTrace.
  pub process_message-Finished :
      (w : WorkerEngine) (topic : Bytes) (msg : Message) (log : List Event)
      → w.err ≡ none
      → Finished 1
          (or_no_handler (lookup topic w.handlers))
          log
          (process_message trace_finish w topic msg log)
  unfolding process_message process_running release_after
  process_message-Finished w topic msg log e =
      let h = or_no_handler (lookup topic w.handlers) in
      rw (ap (λ x. process_running trace_finish w topic msg x log) e)
        (ground (arith, selected-Finished w topic msg h (acquire topic ∷ log)))
