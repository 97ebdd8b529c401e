-- ===== src/Stomp/Serving/Tests.antt =====
-- Messages that Serve passes on, of two topics, and a Shutdown between their steps.
use candi_plugin.Base.{◌≡◌, ◌≤◌, refl, true, false, List, [], ◌∷◌, some, none, bytes_eq}
use candi_plugin.Go.Text.{Bytes, codes}
use candi_plugin.Go.Map.{lookup, insert}
use candi_plugin.Go.Outcome.{ok}
use candi_plugin.Candi.{WorkerHandler, ServiceModule, module_handlers}
use candi_plugin.Stomp.Broker.{Broker, Options, stomp_broker}
use candi_plugin.Stomp.Worker.{
  WorkerEngine, Client, Locker, new_stomp_worker, mount_handlers, mount_handler, refuse_duplicate,
  refuse_failed, apply_options, empty_worker,
}
use candi_plugin.Stomp.Worker.Mounting.{added}
use candi_plugin.Stomp.Serving.{
  looking, adding, State, Reach, begin, look, receive, send, go_on, add, finish, release, signal,
  mark, wait, here, next,
}
use candi_plugin.Candi.Places.{occurs}
use candi_plugin.Stomp.Serving.Invariant.{Orderly, serve-Orderly}
use candi_plugin.Stomp.Serving.Late.{serve-late}
use candi_plugin.Stomp.Serving.Draining.{Drained, serve-Drained}

abbrev mounted : Bytes → WorkerHandler
mounted pattern = record {
  pattern = pattern;
  handler_funcs = [];
  auto_ack = true;
  disable_trace = false;
  qos = none;
}

abbrev service : List ServiceModule
service =
    record {
      name = codes "order";
      worker_handlers = some (mounted (codes "paid") ∷ mounted (codes "shipped") ∷ []);
    }
    ∷ []

abbrev broker : Broker
broker = record { worker_type = stomp_broker; conn = codes "localhost"; publisher = none }

abbrev free : Options Locker
free = record { locker = λ log. false; debug_mode = true }

abbrev up : Client
up topic log = none

abbrev engine : WorkerEngine
engine =
    added (mounted (codes "shipped"))
      (added (mounted (codes "paid")) (empty_worker (codes "shop") broker free))

made : (new_stomp_worker (codes "shop") service (some broker) up [] free []).0 ≡ ok engine
unfolding new_stomp_worker mount_handlers mount_handler refuse_duplicate refuse_failed
    module_handlers lookup insert apply_options empty_worker
made = refl

-- Two rounds of Serve, the first of whose goroutines has ended, and the send of Shutdown; Serve is
-- past the test of isShutdown with a third message.
abbrev signalled : State
signalled = record {
  semaphore = (codes "paid", 1) ∷ (codes "shipped", 1) ∷ [];
  wg = 1;
  signals = 1;
  is_signalled = true;
  is_shutdown = false;
  is_returned = false;
  phase = adding (codes "paid");
  jobs = codes "shipped" ∷ [];
  closing = [];
  kept = [];
}

-- What Serve does with a message up to wg.Add.
taken_on :
    {s : State} (t : State) (topic : Bytes)
    → Reach s t
    → t.phase ≡ looking
    → t.signals ≡ 0
    → t.is_shutdown ≡ false
    → lookup topic t.semaphore ≡ some 0
    → Reach s (record t { semaphore = insert topic 1 t.semaphore; phase = adding topic })
taken_on t topic r at none_ up free =
    next (next (next (next r (look at none_)) (receive topic refl)) (send topic refl free))
      (go_on topic refl up)

signalled_reached : Reach (begin engine) signalled
unfolding empty_worker lookup insert
signalled_reached =
    let first =
      next (taken_on (begin engine) (codes "paid") here refl refl refl refl) (add _ refl) in
    let second = next (taken_on _ (codes "shipped") first refl refl refl refl) (add _ refl) in
    let ended =
      next (next second (finish (codes "paid") (codes "shipped" ∷ []) [] refl))
        (release (codes "paid") [] [] refl) in
    next (taken_on _ (codes "paid") ended refl refl refl refl) (signal refl refl)

-- Shutdown has set isShutdown.
abbrev closed : State
closed = record signalled { is_shutdown = true }

closed_reached : Reach (begin engine) closed
closed_reached = next signalled_reached (mark refl)

-- The second goroutine has ended, Shutdown has returned, and then Serve has started the third.
abbrev late : State
late = record closed {
  phase = looking;
  jobs = codes "paid" ∷ [];
  closing = codes "shipped" ∷ [];
  is_returned = true;
}

late_reached : Reach closed late
late_reached =
    next (next (next here (finish (codes "shipped") [] [] refl)) (wait refl refl)) (add _ refl)

serve-Orderly_example : Orderly closed × ((d : Bytes) → occurs d closed.jobs ≤ 1)
serve-Orderly_example =
    serve-Orderly (codes "shop") service broker up [] free [] engine closed made closed_reached

serve-Drained_example : (late.wg ≤ 2) × (late.is_returned ≡ true → late.wg ≤ 1) × Drained late
serve-Drained_example =
    serve-Drained (codes "shop") service broker up [] free [] engine closed late made closed_reached
      refl late_reached

serve-late_example :
    (u : State) × Reach signalled u
    × (u.is_returned ≡ true)
    × (u.jobs ≡ codes "paid" ∷ [])
    × (u.wg ≡ 1)
serve-late_example =
    serve-late (codes "shop") service broker up [] free [] engine signalled (codes "paid") made
      signalled_reached refl refl
