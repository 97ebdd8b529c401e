-- ===== src/Stomp/Worker/Delivery.antt =====
-- What processMessage of stomp-broker/consumer.go does with a message.
use candi_plugin.Base.{
  ℕ, ◌+◌, ◌≡◌, refl, ap, Bool, true, false, List, [], ◌∷◌, Option, none, some, arith, bytes_eq,
  if◌then◌else◌,
}
use candi_plugin.Go.Text.{Bytes, codes}
use candi_plugin.Go.Map.{lookup}
use candi_plugin.Go.Outcome.{Outcome, ok}
use candi_plugin.Candi.{
  Event, Error, HandlerFunc, WorkerHandler, handle, set_error, trace_error, root, traced,
  start_trace, is_locked, Attributes, acquire, wg_add,
}
use candi_plugin.Candi.Events.{
  count, is_ack, is_finish, is_unlock, is_marked, is_wg_add, is_wg_done, is_acquire, is_release,
  if_due,
}
use candi_plugin.Candi.Handlers.{run_funcs, run_funcs-count}
use candi_plugin.Stomp.Worker.{
  WorkerEngine, Message, report, process_setup, process_end, process_selected, process_known,
  process_locked, process_running, process_message, or_no_handler, copy_header, get_lock_key,
  recover_error, unlock_after, serve_message,
}

-- The events of a message that no handler function adds to.
record Quiet (log log' : List Event) : Type 0 where
  acks : count is_ack log' ≡ count is_ack log
  finishes : count is_finish log' ≡ count is_finish log
  unlocks : count is_unlock log' ≡ count is_unlock log
  marks : count is_marked log' ≡ count is_marked log
  adds : count is_wg_add log' ≡ count is_wg_add log
  dones : count is_wg_done log' ≡ count is_wg_done log
  acquires : count is_acquire log' ≡ count is_acquire log
  releases : count is_release log' ≡ count is_release log

module _ (p : Event → Bool) (no_handle : (i : ℕ) → p (handle i) ≡ false)
    (no_error : (e : Error) → p (set_error e) ≡ false)
    (no_trace : (e : Option Error) → p (trace_error e) ≡ false) where
  report-count : (e : Error) (log : List Event) → count p (report e log).1 ≡ count p log
  unfolding report
  report-count e log = ground (arith, no_error e, no_trace (some e))

  report-returns : (e : Error) (log : List Event) → (report e log).0 ≡ ok tt
  unfolding report
  report-returns e log = refl

  funcs-count :
      (fs : List HandlerFunc) (log : List Event)
      → count p (run_funcs report 0 fs log).1 ≡ count p log
  funcs-count fs log = run_funcs-count p report no_handle report-returns report-count 0 fs log

run_funcs-Quiet :
    (fs : List HandlerFunc) (log : List Event) → Quiet log (run_funcs report 0 fs log).1
run_funcs-Quiet fs log = record {
  acks = funcs-count is_ack (λ i. refl) (λ e. refl) (λ e. refl) fs log;
  finishes = funcs-count is_finish (λ i. refl) (λ e. refl) (λ e. refl) fs log;
  unlocks = funcs-count is_unlock (λ i. refl) (λ e. refl) (λ e. refl) fs log;
  marks = funcs-count is_marked (λ i. refl) (λ e. refl) (λ e. refl) fs log;
  adds = funcs-count is_wg_add (λ i. refl) (λ e. refl) (λ e. refl) fs log;
  dones = funcs-count is_wg_done (λ i. refl) (λ e. refl) (λ e. refl) fs log;
  acquires = funcs-count is_acquire (λ i. refl) (λ e. refl) (λ e. refl) fs log;
  releases = funcs-count is_release (λ i. refl) (λ e. refl) (λ e. refl) fs log;
}

setup-Quiet :
    (w : WorkerEngine) (msg : Message) (header : Attributes) (log : List Event)
    → ((process_setup w msg (traced root) header log).0 ≡ ok tt)
      × Quiet log (process_setup w msg (traced root) header log).1
unfolding process_setup
setup-Quiet w msg header log = ground arith

-- What a message's events come to: how many acknowledgements and unlocks and traces it adds. None of
-- the traces is started in a context that is marked as not to be traced.
pub record Settled (acked : ℕ) (traces : ℕ) (unlocked : ℕ) (log : List Event)
    (r : Outcome (Unit {0}) × List Event) : Type 0 where
  pub returns : r.0 ≡ ok tt
  pub acks : count is_ack r.1 ≡ acked + count is_ack log
  pub finishes : count is_finish r.1 ≡ traces + count is_finish log
  pub unlocks : count is_unlock r.1 ≡ unlocked + count is_unlock log
  pub marks : count is_marked r.1 ≡ count is_marked log
  pub adds : count is_wg_add r.1 ≡ count is_wg_add log
  pub dones : count is_wg_done r.1 ≡ count is_wg_done log
  pub acquires : count is_acquire r.1 ≡ count is_acquire log
  pub releases : count is_release r.1 ≡ count is_release log

end-Settled :
    (w : WorkerEngine) (h : WorkerHandler) (outcome : Outcome (Unit {0})) (log : List Event)
    → Settled (if_due h.auto_ack) 1 0 log (process_end w h outcome log)
unfolding process_end recover_error
end-Settled w h outcome log = ground arith

selected-Settled :
    (w : WorkerEngine) (msg : Message) (h : WorkerHandler) (log : List Event)
    → Settled (if_due h.auto_ack) 1 0 log (process_selected w msg h log)
unfolding process_selected
selected-Settled w msg h log =
    let header = copy_header msg.header [] in
    let begun = start_trace root (codes "STOMPWorker") header ∷ log in
    let ready = (process_setup w msg (traced root) header begun).1 in
    let ran = run_funcs report 0 h.handler_funcs ready in
    ground (
      arith,
      setup-Quiet w msg header begun,
      run_funcs-Quiet h.handler_funcs ready,
      end-Settled w h ran.0 ran.1,
    )

-- The handler that a message comes to.
abbrev pub handler_of : WorkerEngine → Message → WorkerHandler
handler_of w msg = or_no_handler (lookup msg.destination w.handlers)

-- Whether a message is held back: it has an event identifier, and the locker says that another
-- worker has it. The locker is asked after the event that asks it.
abbrev pub is_held : WorkerEngine → Bytes → Bytes → List Event → Bool
is_held w key [] log = false
is_held w key (c ∷ id) log = w.opt.locker (is_locked key ∷ log)

abbrev pub has_id : Bytes → Bool
has_id [] = false
has_id (c ∷ id) = true

locked-Settled :
    (w : WorkerEngine) (msg : Message) (h : WorkerHandler) (held : Bool) (log : List Event)
    → Settled
        (if held then 0 else if_due h.auto_ack)
        (if held then 0 else 1)
        (if held then 0 else 1)
        log
        (process_locked w msg h held log)
unfolding process_locked unlock_after
locked-Settled w msg h true log = ground arith
locked-Settled w msg h false log = ground (arith, selected-Settled w msg h log)

known-Settled :
    (w : WorkerEngine) (msg : Message) (h : WorkerHandler) (id : Bytes) (log : List Event)
    → let held = is_held w (get_lock_key w msg.event_id) id log in
      Settled
        (if held then 0 else if_due h.auto_ack)
        (if held then 0 else 1)
        (if held then 0 else if_due (has_id id))
        log
        (process_known w msg h id log)
unfolding process_known
known-Settled w msg h [] log = selected-Settled w msg h log
known-Settled w msg h (c ∷ id) log =
    let asked = is_locked (get_lock_key w msg.event_id) ∷ log in
    ground (arith, locked-Settled w msg h (w.opt.locker asked) asked)

-- While the worker's context is not cancelled, processMessage returns whatever the handler functions
-- do, a panic included. A message without an event identifier, or whose lock is free, is acknowledged
-- once if its handler has AutoACK, never if not, and its trace ends once; the lock is given back once
-- if it was asked for. A message whose lock is held is left alone. DisableTrace makes no difference:
-- no trace is started in a context that is marked for it.
pub process_message-Settled :
    (w : WorkerEngine) (msg : Message) (log : List Event)
    → w.err ≡ none
    → let held = is_held w (get_lock_key w msg.event_id) msg.event_id log in
      Settled
        (if held then 0 else if_due (handler_of w msg).auto_ack)
        (if held then 0 else 1)
        (if held then 0 else if_due (has_id msg.event_id))
        log
        (process_message w msg log)
unfolding process_message process_running
process_message-Settled w msg log e =
    rw (ap (λ x. process_running w msg x log) e)
      (known-Settled w msg (handler_of w msg) msg.event_id log)

-- A message that Serve passes on is answered by the round's `true`; the round takes the topic's place
-- in the semaphore and gives it back once, and adds to the wait group and takes from it once,
-- whatever the handler functions do.
pub serve_message-balanced :
    (w : WorkerEngine) (msg : Message) (log : List Event)
    → w.err ≡ none
    → w.is_shutdown ≡ false
    → let r = serve_message w msg log in
      (r.0 ≡ ok true)
      × (count is_acquire r.1 ≡ 1 + count is_acquire log)
      × (count is_release r.1 ≡ 1 + count is_release log)
      × (count is_wg_add r.1 ≡ 1 + count is_wg_add log)
      × (count is_wg_done r.1 ≡ 1 + count is_wg_done log)
unfolding serve_message
serve_message-balanced w msg log e running =
    ground
      (arith, running, process_message-Settled w msg (wg_add ∷ acquire msg.destination ∷ log) e)
