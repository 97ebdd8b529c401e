-- ===== src/Stomp/Serving/Invariant.antt =====
-- The messages of a topic are handled one at a time, and the wait group counts those that are.
use candi_plugin.Base.{
  ℕ, [], ◌+◌, ◌-◌, ◌≤◌, ◌≡◌, refl, ap, List, ◌∷◌, some, arith, bytes_eq, length, ==_iff,
  length-append,
}
use candi_plugin.Go.Text.{Bytes}
use candi_plugin.Candi.Places.{held, occurs, occurs-append, held-insert}
use candi_plugin.Candi.{Event, ServiceModule}
use candi_plugin.Go.Outcome.{ok}
use candi_plugin.Stomp.Broker.{Broker, Options}
use candi_plugin.Stomp.Worker.{WorkerEngine, Client, Locker, new_stomp_worker}
use candi_plugin.Stomp.Worker.Mounting.{new_stomp_worker-no_place}
use candi_plugin.Stomp.Serving.{
  Phase, looking, receiving, sending, testing, adding, left, State, Step, Reach, begin, stop, look,
  receive, receive_again, send, leave, go_on, add, finish, release, signal, mark, wait, here, next,
}

-- The place that Serve holds for the message in its hands, and whether the message is past the test of
-- isShutdown and before wg.Add.
abbrev pub in_hand : Phase → List Bytes
in_hand looking = []
in_hand receiving = []
in_hand (sending topic) = []
in_hand (testing topic) = topic ∷ []
in_hand (adding topic) = topic ∷ []
in_hand left = []

abbrev pub between : Phase → ℕ
between looking = 0
between receiving = 0
between (sending topic) = 0
between (testing topic) = 0
between (adding topic) = 1
between left = 0

pub record Orderly (s : State) : Type 0 where
  pub waits : s.wg ≡ length s.jobs
  pub taken :
      (d : Bytes)
      → occurs d s.jobs + occurs d s.closing + occurs d s.kept + occurs d (in_hand s.phase)
        ≡ held d s.semaphore
  pub single : (d : Bytes) → held d s.semaphore ≤ 1

pub Step-Orderly : {s t : State} → Step s t → Orderly s → Orderly t
Step-Orderly (stop e one) o = record {
  waits = o.waits;
  taken = λ d. ground (arith, o.taken d, ap in_hand e);
  single = o.single;
}
Step-Orderly (look e none_) o = record {
  waits = o.waits;
  taken = λ d. ground (arith, o.taken d, ap in_hand e);
  single = o.single;
}
Step-Orderly (receive topic e) o = record {
  waits = o.waits;
  taken = λ d. ground (arith, o.taken d, ap in_hand e);
  single = o.single;
}
Step-Orderly (receive_again e) o = record {
  waits = o.waits;
  taken = λ d. ground (arith, o.taken d, ap in_hand e);
  single = o.single;
}
Step-Orderly {s} (send topic e free) o = record {
  waits = o.waits;
  taken = λ d. ground (
    arith,
    held-insert topic d 1 s.semaphore,
    o.taken d,
    ap (λ p. occurs d (in_hand p)) e,
    ==_iff d topic,
    free,
  );
  single = λ d. ground (arith, held-insert topic d 1 s.semaphore, o.single d);
}
Step-Orderly (leave topic e down) o = record {
  waits = o.waits;
  taken = λ d. ground (arith, o.taken d, ap (λ p. occurs d (in_hand p)) e);
  single = o.single;
}
Step-Orderly (go_on topic e up) o = record {
  waits = o.waits;
  taken = λ d. ground (arith, o.taken d, ap (λ p. occurs d (in_hand p)) e);
  single = o.single;
}
Step-Orderly (add topic e) o = record {
  waits = ground (arith, o.waits);
  taken = λ d. ground (arith, o.taken d, ap (λ p. occurs d (in_hand p)) e);
  single = o.single;
}
Step-Orderly {s} (finish topic before behind e) o = record {
  waits = ground (
    arith,
    o.waits,
    ap length e,
    length-append before (topic ∷ behind),
    length-append before behind,
  );
  taken = λ d. ground (
    arith,
    o.taken d,
    ap (occurs d) e,
    occurs-append d before (topic ∷ behind),
    occurs-append d before behind,
  );
  single = o.single;
}
Step-Orderly {s} (release topic before behind e) o = record {
  waits = o.waits;
  taken = λ d. ground (
    arith,
    o.taken d,
    o.taken topic,
    o.single d,
    ap (occurs d) e,
    occurs-append d before (topic ∷ behind),
    occurs-append d before behind,
    held-insert topic d (held topic s.semaphore - 1) s.semaphore,
    ==_iff d topic,
  );
  single = λ d. ground (
    arith,
    o.single d,
    o.single topic,
    held-insert topic d (held topic s.semaphore - 1) s.semaphore,
  );
}
Step-Orderly (signal e none_) o = record { waits = o.waits; taken = o.taken; single = o.single }
Step-Orderly (mark e) o = record { waits = o.waits; taken = o.taken; single = o.single }
Step-Orderly (wait e done) o = record { waits = o.waits; taken = o.taken; single = o.single }

Reach-Orderly : {s t : State} → Orderly s → Reach s t → Orderly t
Reach-Orderly o here = o
Reach-Orderly o (next r step) = Step-Orderly step (Reach-Orderly o r)

begin-Orderly : (w : WorkerEngine) → ((d : Bytes) → held d w.semaphore ≡ 0) → Orderly (begin w)
begin-Orderly w free = record {
  waits = refl;
  taken = λ d. ground (arith, free d);
  single = λ d. ground (arith, free d);
}

-- In whatever order Serve of a worker that NewSTOMPWorker has built, its goroutines and Shutdown take
-- their steps: the wait group, which Shutdown waits for, counts the messages that are being handled,
-- each from wg.Add on; the places taken of a topic's semaphore are those of its messages that are being
-- handled, that have been handled and still hold their place, that Serve holds between its send and
-- wg.Add, and that Serve has returned with; and no two messages of a topic are handled at a time.
pub serve-Orderly :
    (name : Bytes) (modules : List ServiceModule) (bk : Broker) (client : Client)
    (opts : List (Options Locker → Options Locker)) (default : Options Locker) (log : List Event)
    (w : WorkerEngine) (t : State)
    → (new_stomp_worker name modules (some bk) client opts default log).0 ≡ ok w
    → Reach (begin w) t
    → Orderly t × ((d : Bytes) → occurs d t.jobs ≤ 1)
serve-Orderly name modules bk client opts default log w t made reached =
    let o =
      Reach-Orderly
        (begin-Orderly w
          (λ d. new_stomp_worker-no_place name modules bk client opts default log w d made))
        reached in
    (o, λ d. ground (arith, o.taken d, o.single d))
