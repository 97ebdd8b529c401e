-- ===== src/P2p/Serving/Bounds.antt =====
-- How many requests the server of p2p/tcp.go has in hand.
use candi_plugin.Base.{
  ℕ, zero, suc, ◌+◌, ◌≤◌, ◌<◌, ◌≡◌, refl, ap, subst, List, [], ◌∷◌, none, arith, All,
}
use candi_plugin.Go.Int.{pos, negsuc}
use candi_plugin.Go.Outcome.{ok, ok-inj}
use candi_plugin.P2p.Types.{
  Options, ServerOption, server_set_buffer_size, server_set_max_concurrent_client,
  server_disable_tracing, default_option, apply_options,
}
use candi_plugin.P2p.Server.{Server, Modules, new_p2p_tcp}
use candi_plugin.P2p.Serving.{
  Phase, listening, reading, State, begin, Step, accept, accept_again, shutdown, take_place, spawn,
  finish, Reach, here, next, IsMade, buffer, clients, no_tracing, Positive,
}

made-Positive : (f : ServerOption) (o : Options) → IsMade f → Positive o → Positive (f o)
unfolding server_set_buffer_size server_set_max_concurrent_client server_disable_tracing
made-Positive f o (buffer (pos (suc n)) e) p =
    subst (λ (g : ServerOption). Positive (g o)) (ok-inj e)
      (record { buffer_pos = omega arith; clients_pos = p.clients_pos })
made-Positive f o (buffer (pos zero) e) p = cc
made-Positive f o (buffer (negsuc n) e) p = cc
made-Positive f o (clients (pos (suc n)) e) p =
    subst (λ (g : ServerOption). Positive (g o)) (ok-inj e)
      (record { buffer_pos = p.buffer_pos; clients_pos = omega arith })
made-Positive f o (clients (pos zero) e) p = cc
made-Positive f o (clients (negsuc n) e) p = cc
made-Positive f o (no_tracing e) p =
    subst (λ (g : ServerOption). Positive (g o)) e
      (record { buffer_pos = p.buffer_pos; clients_pos = p.clients_pos })

pub apply_options-Positive :
    (opts : List ServerOption) (o : Options)
    → All IsMade opts
    → Positive o
    → Positive (apply_options opts o)
unfolding apply_options
apply_options-Positive [] o made p = p
apply_options-Positive (f ∷ fs) o made p =
    apply_options-Positive fs (f o) made.1 (made-Positive f o made.0 p)

-- The place that the loop holds for the request that it is reading, and the connection in its hands.
abbrev pub loop_place : Phase → ℕ
loop_place reading = 1
loop_place _ = 0

abbrev pub in_hand : Phase → ℕ
in_hand listening = 0
in_hand _ = 1

pub record Counted (capacity : ℕ) (s : State) : Type 0 where
  pub fixed : s.capacity ≡ capacity
  pub places : s.taken ≡ s.running + loop_place s.phase
  pub bounded : s.taken ≤ capacity
  pub one_by_one : s.accepted ≡ s.requests + in_hand s.phase

Step-Counted : {n : ℕ} {s t : State} → Step s t → Counted n s → Counted n t
Step-Counted (accept p q) c = ground (arith, p, c.fixed, c.places, c.bounded, c.one_by_one)
Step-Counted (accept_again p) c = c
Step-Counted shutdown c = ground (arith, c.fixed, c.places, c.bounded, c.one_by_one)
Step-Counted (take_place p free) c =
    ground (arith, p, free, c.fixed, c.places, c.bounded, c.one_by_one)
Step-Counted (spawn p) c = ground (arith, p, c.fixed, c.places, c.bounded, c.one_by_one)
Step-Counted (finish some_) c = ground (arith, some_, c.fixed, c.places, c.bounded, c.one_by_one)

pub Reach-Counted : {n : ℕ} {s t : State} → Counted n s → Reach s t → Counted n t
Reach-Counted c here = c
Reach-Counted c (next r step) = Step-Counted step (Reach-Counted c r)

pub begin-Counted : (s : Server) → Counted s.semaphore (begin s)
begin-Counted s = record { fixed = refl; places = refl; bounded = omega arith; one_by_one = refl }

-- In whatever order Serve of a server that NewP2PTCP has built, from options of the package's own
-- constructors, and its goroutines take their steps: there are never more goroutines than the option's
-- maxConcurrentClient, which is positive as the size of the buffer is; and no connection is accepted
-- before the requests of all earlier ones have been read to their ends, so a client that is slow to
-- send holds up all others.
pub serve_tcp-bounded :
    (modules : Modules) (opts : List ServerOption) (s : Server) (t : State)
    → All IsMade opts
    → new_p2p_tcp none modules opts ≡ ok s
    → Reach (begin s) t
    → (t.running ≤ s.option.max_concurrent_client)
      × (0 < s.option.max_concurrent_client)
      × (0 < s.option.buffer_size)
      × (t.accepted ≤ t.requests + 1)
unfolding new_p2p_tcp default_option
serve_tcp-bounded modules opts s t made built reached =
    let p =
      apply_options-Positive opts default_option made
        (record { buffer_pos = omega arith; clients_pos = omega arith }) in
    let is = ok-inj built in
    let from = begin-Counted s in
    let c = Reach-Counted from reached in
    ground (
      arith,
      ap (λ (x : Server). x.option.max_concurrent_client) is,
      ap (λ (x : Server). x.option.buffer_size) is,
      ap (λ (x : Server). x.semaphore) is,
      p.buffer_pos,
      p.clients_pos,
      c.fixed,
      c.places,
      c.bounded,
      c.one_by_one,
    )
