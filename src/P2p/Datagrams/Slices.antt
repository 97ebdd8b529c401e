-- ===== src/P2p/Datagrams/Slices.antt =====
-- What the goroutines of p2p/udp.go see of the buffer that they share, and how many there are.
use candi_plugin.Base.{
  ℕ, ◌+◌, ◌-◌, ◌≤◌, ◌≡◌, refl, ap, subst, ◌∙◌, List, [], ◌∷◌, none, arith, All, length, take,
  length-append,
}
use candi_plugin.Go.Text.{Bytes}
use candi_plugin.Go.Outcome.{ok, ok-inj}
use candi_plugin.P2p.Types.{Event, ServerOption}
use candi_plugin.P2p.Requests.{parse_request}
use candi_plugin.P2p.Chunks.{Conn}
use candi_plugin.P2p.Server.{
  Server, Modules, new_p2p_udp, read_from_udp, slice, udp_goroutine, udp_request, shutdown_udp,
  hand_on,
}
use candi_plugin.P2p.Server.Calm.{count, is_acquire, is_release, is_close}
use candi_plugin.P2p.Server.Balance.{udp_parsed-Even}
use candi_plugin.P2p.Datagrams.Buffer.{
  length-make_bytes, read_from_udp-length, slice-read_from_udp, Fresh, All-later, All-without,
}
use candi_plugin.P2p.Datagrams.{
  Job, waiting, State, begin, Step, receive, receive_again, spawn, run, shutdown, Reach, here, next,
  Run, rest, move,
}

record Shared (capacity size : ℕ) (s : State) : Type 0 where
  fixed : s.capacity ≡ capacity
  places : s.taken ≡ length s.jobs
  bounded : s.taken ≤ capacity
  whole : length s.buffer ≡ size
  fresh : All (Fresh size s.buffer s.reads) s.jobs
  held : (job : Job) → s.phase ≡ waiting job → Fresh size s.buffer s.reads job
  even : count is_acquire s.log ≡ count is_release s.log + length s.jobs
  closes : count is_close s.log ≡ 0

-- What a goroutine adds to the log.
udp_goroutine-release :
    (server : Server) (conn : Conn) (buff : Bytes) (log : List Event)
    → let r = udp_goroutine server conn buff log in
      (count is_acquire r.1 ≡ count is_acquire log)
      × (count is_release r.1 ≡ 1 + count is_release log)
      × (count is_close r.1 ≡ count is_close log)
unfolding udp_goroutine udp_request hand_on
udp_goroutine-release server conn buff log =
    ground (arith, udp_parsed-Even server conn buff (parse_request buff) log)

waiting-inj : {a b : Job} → waiting a ≡ waiting b → a ≡ b
waiting-inj e = cc

just_read :
    (size : ℕ) (s : State) (datagram : Bytes)
    → length s.buffer ≡ size
    → Fresh size (read_from_udp s.buffer datagram).0 (s.reads + 1) (record {
      size = (read_from_udp s.buffer datagram).1;
      datagram = datagram;
      reads = s.reads + 1;
    })
just_read size s datagram whole =
    (omega arith, λ e. slice-read_from_udp s.buffer datagram ∙ ap (λ n. take n datagram) whole)

Step-Shared :
    {server : Server} {conn : Conn} {n size : ℕ} {s t : State}
    → Step server conn s t
    → Shared n size s
    → Shared n size t
unfolding shutdown_udp
Step-Shared {size = size} {s = s} (receive datagram p q) c = record {
  fixed = c.fixed;
  places = c.places;
  bounded = c.bounded;
  whole = read_from_udp-length s.buffer datagram ∙ c.whole;
  fresh = All-later size s.reads s.buffer _ s.jobs c.fresh;
  held = λ job e.
      subst (Fresh size (read_from_udp s.buffer datagram).0 (s.reads + 1)) (waiting-inj e)
        (just_read size s datagram c.whole);
  even = c.even;
  closes = c.closes;
}
Step-Shared (receive_again p) c = c
Step-Shared (spawn job p free) c = record {
  fixed = c.fixed;
  places = omega (arith, c.places);
  bounded = omega (arith, free, c.fixed);
  whole = c.whole;
  fresh = (c.held job p, c.fresh);
  held = λ job e. cc;
  even = omega (arith, c.even);
  closes = omega (arith, c.closes);
}
Step-Shared {server} {conn} {size = size} {s = s} (run job before behind e) c =
    let ran = udp_goroutine-release server conn (slice job.size s.buffer) s.log in
    let was = ap length e ∙ length-append before (job ∷ behind) in
    let is = length-append before behind in
    record {
      fixed = c.fixed;
      places = omega (arith, c.places, was, is);
      bounded = omega (arith, c.bounded);
      whole = c.whole;
      fresh =
          All-without (Fresh size s.buffer s.reads) before job behind
            (subst (All (Fresh size s.buffer s.reads)) e c.fresh);
      held = c.held;
      even = omega (arith, c.even, ran, was, is);
      closes = ran.2 ∙ c.closes;
    }
Step-Shared shutdown c = record {
  fixed = c.fixed;
  places = c.places;
  bounded = c.bounded;
  whole = c.whole;
  fresh = c.fresh;
  held = c.held;
  even = omega (arith, c.even);
  closes = omega (arith, c.closes);
}

Reach-Shared :
    {server : Server} {conn : Conn} {n size : ℕ} {s t : State}
    → Shared n size s
    → Reach server conn s t
    → Shared n size t
Reach-Shared c here = c
Reach-Shared c (next r step) = Step-Shared step (Reach-Shared c r)

begin-Shared : (server : Server) → Shared server.semaphore server.option.buffer_size (begin server)
begin-Shared server = record {
  fixed = refl;
  places = refl;
  bounded = omega arith;
  whole = length-make_bytes server.option.buffer_size;
  fresh = tt;
  held = λ job e. cc;
  even = refl;
  closes = refl;
}

All-now :
    (size reads : ℕ) (buffer : Bytes) (jobs : List Job)
    → All (Fresh size buffer reads) jobs
    → All (λ job. job.reads ≡ reads → slice job.size buffer ≡ take size job.datagram) jobs
All-now size reads buffer [] f = tt
All-now size reads buffer (job ∷ jobs) f = (f.0.1, All-now size reads buffer jobs f.1)

Run-trans :
    {server : Server} {conn : Conn} {s t u : State}
    → Run server conn s t
    → Run server conn t u
    → Run server conn s u
Run-trans r rest = r
Run-trans r (move q step own) = move (Run-trans r q) step own

Run-Shared :
    {server : Server} {conn : Conn} {n size : ℕ} {s t : State}
    → Shared n size s
    → Run server conn s t
    → Shared n size t
Run-Shared c rest = c
Run-Shared c (move r step own) = Step-Shared step (Run-Shared c r)

-- The goroutines of a state can run one after the other.
drain :
    (server : Server) (conn : Conn) (jobs : List Job) (t : State)
    → t.jobs ≡ jobs
    → (u : State) × Run server conn t u × (u.jobs ≡ [])
drain server conn [] t e = (t, rest, e)
drain server conn (job ∷ jobs) t e =
    let t' : State = record t {
      taken = t.taken - 1;
      jobs = jobs;
      log = (udp_goroutine server conn (slice job.size t.buffer) t.log).1;
    } in
    let (u, goes_on, idle) = drain server conn jobs t' refl in
    (u, Run-trans (move rest (run job [] jobs e) refl) goes_on, idle)

-- In whatever order Serve of a server that NewP2PUDP has built, its goroutines and Shutdown take their
-- steps: the goroutines that have not ended are as many as the places that were taken and not given
-- back, and never more than the option's maxConcurrentClient; no connection is closed by them; the
-- shared buffer keeps the option's size; and a goroutine that looks at its slice before the next
-- datagram is read sees the datagram that it was started for, cut off at that size. From there, steps of
-- the goroutines alone, none of Serve's and of Shutdown's, lead to a state where all have ended and every place has been given back.
pub serve_udp-shared :
    (modules : Modules) (opts : List ServerOption) (s : Server) (conn : Conn) (t : State)
    → new_p2p_udp none none modules opts ≡ ok s
    → Reach s conn (begin s) t
    → (length t.jobs ≤ s.option.max_concurrent_client)
      × (count is_acquire t.log ≡ count is_release t.log + length t.jobs)
      × (count is_close t.log ≡ 0)
      × (length t.buffer ≡ s.option.buffer_size)
      × All
          (λ job.
            job.reads ≡ t.reads → slice job.size t.buffer ≡ take s.option.buffer_size job.datagram)
          t.jobs
      × ((u : State) × Run s conn t u
          × (u.jobs ≡ [])
          × (u.taken ≡ 0)
          × (count is_acquire u.log ≡ count is_release u.log))
unfolding new_p2p_udp
serve_udp-shared modules opts s conn t built reached =
    let c = Reach-Shared (begin-Shared s) reached in
    let is = ok-inj built in
    let places : s.semaphore ≡ s.option.max_concurrent_client = ground (
      arith,
      ap (λ (x : Server). x.option.max_concurrent_client) is,
      ap (λ (x : Server). x.semaphore) is,
    ) in
    let (u, goes_on, idle) = drain s conn t.jobs t refl in
    let c' = Run-Shared c goes_on in
    let none_left : length u.jobs ≡ 0 = ap length idle in
    (
      omega (arith, c.places, c.bounded, places),
      c.even,
      c.closes,
      c.whole,
      All-now s.option.buffer_size t.reads t.buffer t.jobs c.fresh,
      (u, goes_on, idle, omega (arith, c'.places, none_left), omega (arith, c'.even, none_left)),
    )
