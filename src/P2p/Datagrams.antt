-- ===== src/P2p/Datagrams.antt =====
-- Serve of p2p/udp.go with its goroutines and Shutdown, as steps that may come in any order. All of them
-- share the one buffer that Serve makes.
pub mod Buffer
pub mod Slices
pub mod Overwritten
mod Tests
use candi_plugin.Base.{Bool, true, false, ℕ, zero, suc, ◌+◌, ◌-◌, ◌<◌, ◌≡◌, List, [], ◌∷◌, ◌++◌}
use candi_plugin.Go.Text.{Bytes}
use candi_plugin.P2p.Types.{Event, acquire}
use candi_plugin.P2p.Chunks.{Conn}
use candi_plugin.P2p.Server.{Server, read_from_udp, slice, udp_goroutine, shutdown_udp}

-- A goroutine that has not looked at its slice yet: `size` is the n of its slice buffer[0:n]. The
-- datagram that it was started for, and how many had been read by then, are not known to the code.
pub record Job : Type 0 where
  pub size : ℕ
  pub datagram : Bytes
  pub reads : ℕ

-- Where the loop of Serve is: in ReadFromUDP, or at the send into the semaphore for a datagram that it
-- has read.
pub data Phase : Type 0 where
  listening : Phase
  waiting : Job → Phase

-- `taken` places of the semaphore, of `capacity`; `reads` datagrams have been read so far.
pub record State : Type 0 where
  pub capacity : ℕ
  pub taken : ℕ
  pub buffer : Bytes
  pub phase : Phase
  pub jobs : List Job
  pub is_closed : Bool
  pub reads : ℕ
  pub log : List Event

-- make([]byte, n)
abbrev pub make_bytes : ℕ → Bytes
make_bytes zero = []
make_bytes (suc n) = 0 ∷ make_bytes n

abbrev pub begin : Server → State
begin server = record {
  capacity = server.semaphore;
  taken = 0;
  buffer = make_bytes server.option.buffer_size;
  phase = listening;
  jobs = [];
  is_closed = false;
  reads = 0;
  log = [];
}

-- The state after ReadFromUDP has answered with a datagram.
abbrev pub read_datagram : Bytes → State → State
read_datagram datagram s =
    let (buffer, n) = read_from_udp s.buffer datagram in
    record s {
      buffer = buffer;
      phase = waiting (record { size = n; datagram = datagram; reads = s.reads + 1 });
      reads = s.reads + 1;
    }

pub data Step (server : Server) (conn : Conn) (s : State) : State → Type 0 where
  receive :
      (datagram : Bytes)
      → s.phase ≡ listening
      → s.is_closed ≡ false
      → Step server conn s (read_datagram datagram s)
  -- ReadFromUDP answers an error, which is all it does once the connection is closed: Serve calls it
  -- again.
  receive_again : s.phase ≡ listening → Step server conn s s
  -- s.semaphore <- struct{}{}: it goes on where a place is free, and the goroutine is started.
  spawn :
      (job : Job)
      → s.phase ≡ waiting job
      → s.taken < s.capacity
      → Step server conn s (record s {
        phase = listening;
        taken = s.taken + 1;
        jobs = job ∷ s.jobs;
        log = acquire ∷ s.log;
      })
  -- A goroutine looks at its slice, and is run to its end.
  run :
      (job : Job) (before behind : List Job)
      → s.jobs ≡ before ++ job ∷ behind
      → Step server conn s (record s {
        taken = s.taken - 1;
        jobs = before ++ behind;
        log = (udp_goroutine server conn (slice job.size s.buffer) s.log).1;
      })
  shutdown : Step server conn s (record s { is_closed = true; log = (shutdown_udp s.log).1 })

pub data Reach (server : Server) (conn : Conn) (s : State) : State → Type 0 where
  here : Reach server conn s s
  next : {t u : State} → Reach server conn s t → Step server conn t u → Reach server conn s u

-- Whether a step is of a goroutine: none of Serve's and of Shutdown's is.
abbrev pub is_goroutine :
    {server : Server} {conn : Conn} {s t : State} → Step server conn s t → Bool
is_goroutine (receive datagram e open_) = false
is_goroutine (receive_again e) = false
is_goroutine (spawn job e free) = false
is_goroutine (run job before behind e) = true
is_goroutine shutdown = false

-- What steps of the goroutines lead to.
pub data Run (server : Server) (conn : Conn) (s : State) : State → Type 0 where
  rest : Run server conn s s
  move :
      {t u : State}
      → Run server conn s t
      → (step : Step server conn t u) → is_goroutine step ≡ true
      → Run server conn s u
