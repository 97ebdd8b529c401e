-- ===== src/P2p/Datagrams/Overwritten.antt =====
-- What a goroutine of p2p/udp.go sees that is run after the next datagram has been read.
use candi_plugin.Base.{
  ℕ, ◌≤◌, ◌≡◌, refl, ap, subst, ◌∙◌, false, List, [], ◌∷◌, ◌++◌, none, arith, All, length, take,
  length-take-le,
}
use candi_plugin.Go.Text.{Bytes}
use candi_plugin.Go.Outcome.{ok}
use candi_plugin.P2p.Types.{ServerOption}
use candi_plugin.P2p.Chunks.{Conn}
use candi_plugin.P2p.Server.{Server, Modules, new_p2p_udp, read_from_udp, udp_goroutine}
use candi_plugin.P2p.Server.Reading.{slice-overwritten}
use candi_plugin.P2p.Datagrams.Buffer.{length-make_bytes, read_from_udp-length, All-without}
use candi_plugin.P2p.Datagrams.{
  Job, listening, waiting, State, begin, read_datagram, Step, receive, receive_again, spawn, run,
  shutdown, Reach, here, next,
}

-- No slice is longer than the buffer.
record Sized (size : ℕ) (s : State) : Type 0 where
  whole : length s.buffer ≡ size
  fits : All (λ job. job.size ≤ size) s.jobs
  held : (job : Job) → s.phase ≡ waiting job → job.size ≤ size

waiting-inj : {a b : Job} → waiting a ≡ waiting b → a ≡ b
waiting-inj e = cc

read-size : (buffer datagram : Bytes) → (read_from_udp buffer datagram).1 ≤ length buffer
unfolding read_from_udp
read-size buffer datagram = length-take-le (length buffer) datagram

Step-Sized :
    {server : Server} {conn : Conn} {size : ℕ} {s t : State}
    → Step server conn s t
    → Sized size s
    → Sized size t
Step-Sized {size = size} {s = s} (receive datagram p q) c = record {
  whole = read_from_udp-length s.buffer datagram ∙ c.whole;
  fits = c.fits;
  held = λ job e.
      subst (λ j. j.size ≤ size) (waiting-inj e)
        (omega (arith, read-size s.buffer datagram, c.whole));
}
Step-Sized (receive_again p) c = c
Step-Sized (spawn job p free) c = record {
  whole = c.whole;
  fits = (c.held job p, c.fits);
  held = λ j e. cc;
}
Step-Sized {size = size} {s = s} (run job before behind e) c = record {
  whole = c.whole;
  fits =
      All-without (λ j. j.size ≤ size) before job behind
        (subst (All (λ j. j.size ≤ size)) e c.fits);
  held = c.held;
}
Step-Sized shutdown c = record { whole = c.whole; fits = c.fits; held = c.held }

Reach-Sized :
    {server : Server} {conn : Conn} {size : ℕ} {s t : State}
    → Sized size s
    → Reach server conn s t
    → Sized size t
Reach-Sized c here = c
Reach-Sized c (next r step) = Step-Sized step (Reach-Sized c r)

begin-Sized : (server : Server) → Sized server.option.buffer_size (begin server)
begin-Sized server = record {
  whole = length-make_bytes server.option.buffer_size;
  fits = tt;
  held = λ job e. cc;
}

All-at :
    (P : Job → Type 0) (before : List Job) (job : Job) (behind : List Job)
    → All P (before ++ job ∷ behind)
    → P job
All-at P [] job behind a = a.0
All-at P (x ∷ before) job behind a = All-at P before job behind a.1

-- Wherever a server that NewP2PUDP has built, and that is not shut down, is in ReadFromUDP, with a
-- goroutine that has not looked at its slice: if the next datagram is at least as long as that
-- slice, then the steps of reading it and of running the goroutine lead to a state where that
-- goroutine alone has ended, and the log is that of a goroutine for the front of the next datagram,
-- as long as the slice, in place of its own.
pub serve_udp-overwritten :
    (modules : Modules) (opts : List ServerOption) (s : Server) (conn : Conn) (t : State)
    (job : Job) (before behind : List Job) (datagram : Bytes)
    → new_p2p_udp none none modules opts ≡ ok s
    → Reach s conn (begin s) t
    → t.phase ≡ listening
    → t.is_closed ≡ false
    → t.jobs ≡ before ++ job ∷ behind
    → job.size ≤ length datagram
    → (u : State) × Reach s conn (read_datagram datagram t) u
      × Step s conn t (read_datagram datagram t)
      × (u.jobs ≡ before ++ behind)
      × (u.log ≡ (udp_goroutine s conn (take job.size datagram) t.log).1)
serve_udp-overwritten modules opts s conn t job before behind datagram built reached at open_ has
      longer =
    let c = Reach-Sized (begin-Sized s) reached in
    let size = s.option.buffer_size in
    let short : job.size ≤ size =
      All-at (λ j. j.size ≤ size) before job behind (subst (All (λ j. j.size ≤ size)) has c.fits) in
    (
      _,
      next here (run job before behind has),
      receive datagram at open_,
      refl,
      ap (λ b. (udp_goroutine s conn b t.log).1)
          (slice-overwritten job.size t.buffer datagram (omega (arith, short, c.whole)) longer),
    )
