-- ===== src/Stomp/Serving/Draining.antt =====
-- How Serve of stomp-broker/consumer.go comes to rest: Shutdown waits for the wait group.
use candi_plugin.Base.{
  ◌+◌, ◌≤◌, ◌≡◌, refl, ap, ◌⊎◌, inl, inr, true, List, [], ◌∷◌, some, arith, length,
}
use candi_plugin.Go.Text.{Bytes}
use candi_plugin.Stomp.Serving.{
  Phase, looking, receiving, sending, testing, adding, left, State, Step, Reach, begin, stop, look,
  receive, receive_again, send, leave, go_on, add, finish, release, signal, mark, wait, here, next,
  Run, rest, move,
}
use candi_plugin.Go.Outcome.{ok}
use candi_plugin.Candi.{Event, ServiceModule}
use candi_plugin.Stomp.Broker.{Broker, Options}
use candi_plugin.Stomp.Worker.{WorkerEngine, Client, Locker, new_stomp_worker}
use candi_plugin.Stomp.Serving.Invariant.{between, serve-Orderly}

pub Reach-trans : {s t u : State} → Reach s t → Reach t u → Reach s u
Reach-trans r here = r
Reach-trans r (next q step) = next (Reach-trans r q) step

Run-trans : {s t u : State} → Run s t → Run t u → Run s u
Run-trans r rest = r
Run-trans r (move q step own) = move (Run-trans r q) step own

-- A state that the goroutines of s come to by their own steps.
pub record Drained (s : State) : Type 0 where
  pub final : State
  pub reached : Run s final
  pub idle : final.jobs ≡ []
  pub closed : final.closing ≡ []
  pub done : final.wg ≡ 0

Drained-back : {s t : State} → Run s t → Drained t → Drained s
Drained-back r d = record {
  final = d.final;
  reached = Run-trans r d.reached;
  idle = d.idle;
  closed = d.closed;
  done = d.done;
}

-- Each goroutine that has called wg.Done gives its place back.
close_all :
    (closing : List Bytes) (s : State) → s.closing ≡ closing → s.jobs ≡ [] → s.wg ≡ 0 → Drained s
close_all [] s e idle done = record {
  final = s;
  reached = rest;
  idle = idle;
  closed = e;
  done = done;
}
close_all (topic ∷ more) s e idle done =
    Drained-back (move rest (release topic [] more e) refl) (close_all more _ refl idle done)

-- Each goroutine in processMessage ends.
pub finish_all : (jobs : List Bytes) (s : State) → s.jobs ≡ jobs → s.wg ≡ length jobs → Drained s
finish_all [] s e waits = close_all s.closing s refl e waits
finish_all (topic ∷ more) s e waits =
    Drained-back (move rest (finish topic [] more e) refl)
      (finish_all more _ refl (omega (arith, waits)))

-- Once isShutdown is set, no message passes the test of it any more.
record Marked (s t : State) : Type 0 where
  is_marked : t.is_shutdown ≡ true
  fewer : t.wg + between t.phase ≤ s.wg + between s.phase

Step-Marked : {s t : State} → Step s t → s.is_shutdown ≡ true → Marked s t
Step-Marked (stop p one) e = record { is_marked = e; fewer = omega arith }
Step-Marked (look p none_) e = record { is_marked = e; fewer = omega arith }
Step-Marked (receive topic p) e = record { is_marked = e; fewer = omega arith }
Step-Marked (receive_again p) e = record { is_marked = e; fewer = omega arith }
Step-Marked (send topic p free) e = record { is_marked = e; fewer = omega arith }
Step-Marked (leave topic p down) e = record { is_marked = e; fewer = omega arith }
Step-Marked (go_on topic p up) e = absurd (ground (arith, up, e))
Step-Marked (add topic p) e = record { is_marked = e; fewer = omega (arith, ap between p) }
Step-Marked (finish topic before behind f) e = record { is_marked = e; fewer = omega arith }
Step-Marked (release topic before behind f) e = record { is_marked = e; fewer = omega arith }
Step-Marked (signal f none_) e = record { is_marked = e; fewer = omega arith }
Step-Marked (mark f) e = record { is_marked = refl; fewer = omega arith }
Step-Marked (wait f done) e = record { is_marked = e; fewer = omega arith }

Reach-Marked : {s t : State} → s.is_shutdown ≡ true → Reach s t → Marked s t
Reach-Marked e here = record { is_marked = e; fewer = omega arith }
Reach-Marked e (next r step) =
    let m = Reach-Marked e r in
    let n = Step-Marked step m.is_marked in
    record { is_marked = n.is_marked; fewer = omega (arith, m.fewer, n.fewer) }

-- What is left to be handled once Shutdown has returned.
abbrev Returned : State → Type 0
Returned s = s.is_returned ≡ true → (s.is_shutdown ≡ true) × (s.wg + between s.phase ≤ 1)

between_le : (p : Phase) → between p ≤ 1
between_le looking = omega arith
between_le receiving = omega arith
between_le (sending topic) = omega arith
between_le (testing topic) = omega arith
between_le (adding topic) = omega arith
between_le left = omega arith

was_returned :
    {s t : State}
    → Step s t
    → t.is_returned ≡ true
    → (s.is_returned ≡ true) ⊎ ((s.is_shutdown ≡ true) × (s.wg ≡ 0))
was_returned (stop p one) e = inl e
was_returned (look p none_) e = inl e
was_returned (receive topic p) e = inl e
was_returned (receive_again p) e = inl e
was_returned (send topic p free) e = inl e
was_returned (leave topic p down) e = inl e
was_returned (go_on topic p up) e = inl e
was_returned (add topic p) e = inl e
was_returned (finish topic before behind f) e = inl e
was_returned (release topic before behind f) e = inl e
was_returned (signal f none_) e = inl e
was_returned (mark f) e = inl e
was_returned (wait down done) e = inr (down, done)

Returned-before :
    (s : State)
    → Returned s
    → (s.is_returned ≡ true) ⊎ ((s.is_shutdown ≡ true) × (s.wg ≡ 0))
    → (s.is_shutdown ≡ true) × (s.wg + between s.phase ≤ 1)
Returned-before s r (inl e) = r e
Returned-before s r (inr (down, done)) = (down, omega (arith, done, between_le s.phase))

Step-Returned : (s t : State) → Step s t → Returned s → Returned t
Step-Returned s t step r = λ e.
    let (down, one) = Returned-before s r (was_returned step e) in
    let m = Step-Marked step down in (m.is_marked, omega (arith, m.fewer, one))

Reach-Returned : (s t : State) → Returned s → Reach s t → Returned t
Reach-Returned s t r here = r
Reach-Returned s t r (next {t = v} q step) = Step-Returned v t step (Reach-Returned s v r q)

-- Once Shutdown has set isShutdown in a worker that NewSTOMPWorker has built, the wait group is at any
-- later state higher than it was then by at most one, and that only if a message was between Serve's test
-- of isShutdown and wg.Add. Where Shutdown has returned, at most one message is in the wait group. From
-- each such state the steps of the goroutines alone, none of Serve's and of Shutdown's, lead to one where
-- no goroutine is left and the wait group is at zero, so wg.Wait is never kept waiting by Serve.
pub serve-Drained :
    (name : Bytes) (modules : List ServiceModule) (bk : Broker) (client : Client)
    (opts : List (Options Locker → Options Locker)) (default : Options Locker) (log : List Event)
    (w : WorkerEngine) (t u : State)
    → (new_stomp_worker name modules (some bk) client opts default log).0 ≡ ok w
    → Reach (begin w) t
    → t.is_shutdown ≡ true
    → Reach t u
    → (u.wg ≤ t.wg + between t.phase) × (u.is_returned ≡ true → u.wg ≤ 1) × Drained u
serve-Drained name modules bk client opts default log w t u made reached down later =
    let all = Reach-trans reached later in
    let (o, single) = serve-Orderly name modules bk client opts default log w u made all in
    let returned = Reach-Returned (begin w) u (λ e. absurd (ground (arith, e))) all in
    (
      omega (arith, (Reach-Marked down later).fewer),
      λ e. omega (arith, (returned e).1),
      finish_all u.jobs u refl o.waits,
    )
