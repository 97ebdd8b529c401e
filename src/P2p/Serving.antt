-- ===== src/P2p/Serving.antt =====
-- Serve of p2p/tcp.go with its goroutines, as steps that may come in any order; and the options that
-- its constructors make.
pub mod Bounds
pub mod Draining
use candi_plugin.Base.{Bool, true, false, ℕ, ◌+◌, ◌-◌, ◌<◌, ◌≡◌}
use candi_plugin.Go.Int.{ℤ}
use candi_plugin.Go.Outcome.{ok}
use candi_plugin.P2p.Types.{
  Options, ServerOption, server_set_buffer_size, server_set_max_concurrent_client,
  server_disable_tracing,
}
use candi_plugin.P2p.Server.{Server}

-- Where the loop of Serve is: in Accept, at the send into the semaphore, or in readAllRequest, which is
-- an argument of the goroutine's call and so runs before the goroutine does.
pub data Phase : Type 0 where
  listening : Phase
  waiting : Phase
  reading : Phase

-- `taken` places of the semaphore, of `capacity`; `running` goroutines; how many connections have been
-- accepted, and how many requests have been read to their end.
pub record State : Type 0 where
  pub capacity : ℕ
  pub taken : ℕ
  pub running : ℕ
  pub phase : Phase
  pub is_closed : Bool
  pub accepted : ℕ
  pub requests : ℕ

abbrev pub begin : Server → State
begin s = record {
  capacity = s.semaphore;
  taken = 0;
  running = 0;
  phase = listening;
  is_closed = false;
  accepted = 0;
  requests = 0;
}

pub data Step (s : State) : State → Type 0 where
  accept :
      s.phase ≡ listening
      → s.is_closed ≡ false
      → Step s (record s { phase = waiting; accepted = s.accepted + 1 })
  -- Accept answers an error, which is all it does once the listener is closed: Serve calls it again.
  accept_again : s.phase ≡ listening → Step s s
  -- s.semaphore <- struct{}{}: it goes on where a place is free.
  take_place :
      s.phase ≡ waiting
      → s.taken < s.capacity
      → Step s (record s { phase = reading; taken = s.taken + 1 })
  -- readAllRequest has returned, and the goroutine begins.
  spawn :
      s.phase ≡ reading
      → Step s (record s { phase = listening; running = s.running + 1; requests = s.requests + 1 })
  -- A goroutine ends: its deferred function receives from the semaphore.
  finish : 0 < s.running → Step s (record s { running = s.running - 1; taken = s.taken - 1 })
  -- Shutdown: s.listener.Close()
  shutdown : Step s (record s { is_closed = true })

pub data Reach (s : State) : State → Type 0 where
  here : Reach s s
  next : {t u : State} → Reach s t → Step t u → Reach s u

-- Whether a step is of a goroutine, or of Serve with a connection in its hands: none of Accept's and of
-- Shutdown's is.
abbrev pub is_own : {s t : State} → Step s t → Bool
is_own (accept e open_) = false
is_own (accept_again e) = false
is_own (take_place e free) = true
is_own (spawn e) = true
is_own (finish some_) = true
is_own shutdown = false

-- What steps of the goroutines, and of Serve with a connection in its hands, lead to.
pub data Run (s : State) : State → Type 0 where
  rest : Run s s
  move : {t u : State} → Run s t → (step : Step t u) → is_own step ≡ true → Run s u

-- A ServerOption that a constructor of p2p/option.go returned.
pub data IsMade (f : ServerOption) : Type 0 where
  buffer : (size : ℤ) → server_set_buffer_size size ≡ ok f → IsMade f
  clients : (max : ℤ) → server_set_max_concurrent_client max ≡ ok f → IsMade f
  no_tracing : server_disable_tracing ≡ f → IsMade f

pub record Positive (o : Options) : Type 0 where
  pub buffer_pos : 0 < o.buffer_size
  pub clients_pos : 0 < o.max_concurrent_client
