-- ===== src/Stomp/Worker/Inputs.antt =====
-- What the trace and the event context of a message are told, and how its functions are called, by processMessage of
-- stomp-broker/consumer.go.
use candi_plugin.Base.{
  ℕ, ◌≡◌, refl, List, [], ◌∷◌, ◌++◌, Option, none, some, arith, bytes_eq, if◌then◌else◌,
}
use candi_plugin.Go.Text.{Bytes, codes}
use candi_plugin.Go.Map.{lookup}
use candi_plugin.Go.Outcome.{Outcome, ok}
use candi_plugin.Candi.{
  Event, Error, Attributes, Context, HandlerFunc, WorkerHandler, root, traced, start_trace,
  set_header, set_key, write, is_locked,
}
use candi_plugin.Candi.Events.{positions, inputs}
use candi_plugin.Candi.Handlers.{constant, calls, run_funcs-calls, run_funcs, run_funcs-keeps}
use candi_plugin.Stomp.Worker.{
  WorkerEngine, Message, report, copy_header, process_setup, process_end, recover_error,
  process_selected, process_locked, process_known, process_running, process_message, unlock_after,
  or_no_handler, get_lock_key,
}

setup-inputs :
    (w : WorkerEngine) (msg : Message) (ctx : Context) (header : Attributes) (log : List Event)
    → let r = process_setup w msg ctx header log in
      (r.0 ≡ ok tt)
      × (inputs r.1 ≡ write msg.body ∷ set_key msg.event_id ∷ set_header header ∷ inputs log)
unfolding process_setup
setup-inputs w msg ctx header log = ground arith

run_funcs-inputs :
    (fs : List HandlerFunc) (log : List Event) → inputs (run_funcs report 0 fs log).1 ≡ inputs log
unfolding report
run_funcs-inputs fs log =
    run_funcs-keeps (λ l. inputs l ≡ inputs log) report (λ i l p. p) (λ e l p. p) 0 fs log refl

end-inputs :
    (w : WorkerEngine) (h : WorkerHandler) (o : Outcome (Unit {0})) (log : List Event)
    → inputs (process_end w h o log).1 ≡ inputs log
unfolding process_end recover_error
end-inputs w h o log = ground arith

-- What the trace and the event context are told of a message.
abbrev pub told : Message → List Event
told msg =
    write msg.body
    ∷ set_key msg.event_id
    ∷ set_header (copy_header msg.header [])
    ∷ start_trace root (codes "STOMPWorker") (copy_header msg.header [])
    ∷ []

selected-inputs :
    (w : WorkerEngine) (msg : Message) (h : WorkerHandler) (log : List Event)
    → inputs (process_selected w msg h log).1 ≡ told msg ++ inputs log
unfolding process_selected
selected-inputs w msg h log =
    let header = copy_header msg.header [] in
    let begun = start_trace root (codes "STOMPWorker") header ∷ log in
    let ready = process_setup w msg (traced root) header begun in
    let ran = run_funcs report 0 h.handler_funcs ready.1 in
    ground (
      arith,
      setup-inputs w msg (traced root) header begun,
      run_funcs-inputs h.handler_funcs ready.1,
      end-inputs w h ran.0 ran.1,
    )

pub process_message-inputs :
    (w : WorkerEngine) (msg : Message) (c : ℕ) (id : Bytes)
    → w.err ≡ none
    → msg.event_id ≡ c ∷ id
    → let held = w.opt.locker (is_locked (get_lock_key w (c ∷ id)) ∷ []) in
      inputs (process_message w msg []).1 ≡ (if held then [] else told msg)
unfolding process_message process_running process_known process_locked unlock_after
process_message-inputs w msg c id runs e =
    let h = or_no_handler (lookup msg.destination w.handlers) in
    let asked = is_locked (get_lock_key w (c ∷ id)) ∷ [] in
    rw (runs, e) (ground (arith, selected-inputs w msg h asked))

-- The functions of a handler that end in the same way whatever was done before, among the calls that
-- processMessage makes.
setup-handles :
    (w : WorkerEngine) (msg : Message) (ctx : Context) (header : Attributes) (log : List Event)
    → let r = process_setup w msg ctx header log in (r.0 ≡ ok tt) × (positions r.1 ≡ positions log)
unfolding process_setup
setup-handles w msg ctx header log = ground arith

run_all-calls :
    (h : WorkerHandler) (os : List (Outcome (Option Error))) (log : List Event)
    → h.handler_funcs ≡ constant os
    → positions (run_funcs report 0 h.handler_funcs log).1 ≡ calls 0 os (positions log)
unfolding report
run_all-calls h os log e = rw e (run_funcs-calls report 0 os log (λ err l. (refl, refl)))

end-handles :
    (w : WorkerEngine) (h : WorkerHandler) (o : Outcome (Unit {0})) (log : List Event)
    → positions (process_end w h o log).1 ≡ positions log
unfolding process_end recover_error
end-handles w h o log = ground arith

selected-handles :
    (w : WorkerEngine) (msg : Message) (h : WorkerHandler) (os : List (Outcome (Option Error)))
    (log : List Event)
    → h.handler_funcs ≡ constant os
    → positions (process_selected w msg h log).1 ≡ calls 0 os (positions log)
unfolding process_selected
selected-handles w msg h os log e =
    let header = copy_header msg.header [] in
    let begun = start_trace root (codes "STOMPWorker") header ∷ log in
    let ready = process_setup w msg (traced root) header begun in
    let ran = run_funcs report 0 h.handler_funcs ready.1 in
    ground (
      arith,
      setup-handles w msg (traced root) header begun,
      run_all-calls h os ready.1 e,
      end-handles w h ran.0 ran.1,
    )

pub process_message-handles :
    (w : WorkerEngine) (msg : Message) (c : ℕ) (id : Bytes) (h : WorkerHandler)
    (os : List (Outcome (Option Error)))
    → w.err ≡ none
    → msg.event_id ≡ c ∷ id
    → lookup msg.destination w.handlers ≡ some h
    → h.handler_funcs ≡ constant os
    → let held = w.opt.locker (is_locked (get_lock_key w (c ∷ id)) ∷ []) in
      positions (process_message w msg []).1 ≡ (if held then [] else calls 0 os [])
unfolding process_message process_running process_known process_locked unlock_after or_no_handler
process_message-handles w msg c id h os runs e found ends =
    let asked = is_locked (get_lock_key w (c ∷ id)) ∷ [] in
    rw (runs, e, found) (ground (arith, selected-handles w msg h os asked ends))
