-- ===== src/P2p/Serving/Draining.antt =====
-- How the server of p2p/tcp.go comes to rest: Serve is not kept from accepting for ever.
use candi_plugin.Base.{ℕ, zero, suc, ◌+◌, ◌-◌, ◌<◌, ◌≡◌, refl, ap, List, none, arith, All}
use candi_plugin.Go.Outcome.{ok, ok-inj}
use candi_plugin.P2p.Types.{ServerOption, default_option}
use candi_plugin.P2p.Server.{Server, Modules, new_p2p_tcp}
use candi_plugin.P2p.Serving.{
  Phase, listening, waiting, reading, State, begin, take_place, spawn, finish, Reach, here, next,
  IsMade, Run, rest, move,
}
use candi_plugin.P2p.Serving.Bounds.{Counted, Reach-Counted, begin-Counted, apply_options-Positive}

Run-trans : {s t u : State} → Run s t → Run t u → Run s u
Run-trans r rest = r
Run-trans r (move q step own) = move (Run-trans r q) step own

Run→Reach : {s t : State} → Run s t → Reach s t
Run→Reach rest = here
Run→Reach (move r step own) = next (Run→Reach r) step

-- The goroutines end one after the other, with the loop of Serve where it is.
end_all :
    (n : ℕ) (t : State)
    → t.running ≡ n
    → (u : State) × Run t u × (u.running ≡ 0) × (u.phase ≡ t.phase)
end_all zero t e = (t, rest, e, refl)
end_all (suc n) t e =
    let t' : State = record t { running = t.running - 1; taken = t.taken - 1 } in
    let (u, goes_on, idle, same) = end_all n t' (omega (arith, e)) in
    (u, Run-trans (move rest (finish (omega (arith, e))) refl) goes_on, idle, same)

-- A state in which Serve is in Accept and nothing is in hand.
record AtRest (s : State) : Type 0 where
  final : State
  reached : Run s final
  idle : final.running ≡ 0
  accepting : final.phase ≡ listening

AtRest-back : {s t : State} → Run s t → AtRest t → AtRest s
AtRest-back r a = record {
  final = a.final;
  reached = Run-trans r a.reached;
  idle = a.idle;
  accepting = a.accepting;
}

reading-AtRest : (t : State) → t.phase ≡ reading → AtRest t
reading-AtRest t e =
    let t' : State = record t {
      phase = listening;
      running = t.running + 1;
      requests = t.requests + 1;
    } in
    let (u, goes_on, idle', same) = end_all (t.running + 1) t' refl in
    record {
      final = u;
      reached = Run-trans (move rest (spawn e) refl) goes_on;
      idle = idle';
      accepting = same;
    }

idle-AtRest :
    (n : ℕ) (p : Phase) (t : State) → Counted n t → 0 < n → t.phase ≡ p → t.running ≡ 0 → AtRest t
idle-AtRest n listening t c some_ e idle = record {
  final = t;
  reached = rest;
  idle = idle;
  accepting = e;
}
idle-AtRest n reading t c some_ e idle = reading-AtRest t e
idle-AtRest n waiting t c some_ e idle =
    let free : t.taken < t.capacity = ground (arith, e, idle, some_, c.fixed, c.places) in
    let t' : State = record t { phase = reading; taken = t.taken + 1 } in
    AtRest-back (move rest (take_place e free) refl) (reading-AtRest t' refl)

-- In whatever order Serve of a server that NewP2PTCP has built, from options of the package's own
-- constructors, and its goroutines have taken their steps: Serve is never stuck at its semaphore,
-- for steps of the goroutines, and of Serve as the request in its hands is read to its end, alone,
-- none of Accept's and of Shutdown's, lead from there to a state where Serve is in Accept, no
-- goroutine is left, every place is free, and the requests of all connections that were accepted
-- have been read.
pub serve_tcp-drains :
    (modules : Modules) (opts : List ServerOption) (s : Server) (t : State)
    → All IsMade opts
    → new_p2p_tcp none modules opts ≡ ok s
    → Reach (begin s) t
    → (u : State) × Run t u
      × (u.phase ≡ listening)
      × (u.running ≡ 0)
      × (u.taken ≡ 0)
      × (u.requests ≡ u.accepted)
unfolding new_p2p_tcp default_option
serve_tcp-drains modules opts s t made built reached =
    let p =
      apply_options-Positive opts default_option made
        (record { buffer_pos = omega arith; clients_pos = omega arith }) in
    let some_ : 0 < s.semaphore =
      ground (arith, p.clients_pos, ap (λ (x : Server). x.semaphore) (ok-inj built)) in
    let (v, ended, idle, same) = end_all t.running t refl in
    let c = Reach-Counted (Reach-Counted (begin-Counted s) reached) (Run→Reach ended) in
    let a = idle-AtRest s.semaphore v.phase v c some_ refl idle in
    let c' = Reach-Counted c (Run→Reach a.reached) in
    (
      a.final,
      Run-trans ended a.reached,
      a.accepting,
      a.idle,
      ground (arith, c'.places, a.idle, a.accepting),
      ground (arith, c'.one_by_one, a.accepting),
    )
