-- ===== src/P2p/Server/Writing.antt =====
-- What Write of the Contexts of p2p/context.go leaves alone: it only writes, shuts and logs.
use candi_plugin.Base.{
  ℕ, zero, suc, ◌+◌, List, ◌∷◌, Option, none, some, length, ltb, Bool-cases, inl, inr,
}
use candi_plugin.Go.Text.{Bytes}
use candi_plugin.Go.Outcome.{Outcome, ok, panics}
use candi_plugin.Go.Act.{Act, after}
use candi_plugin.Candi.{Error}
use candi_plugin.P2p.Types.{Event, conn_write, close_write, trace_log, Behaviour, answers, writes}
use candi_plugin.P2p.Chunks.{
  Conn, unless_failed, chunk, write_loop, finish_write, tcp_write, udp_write,
}
use candi_plugin.P2p.Server.{run_behaviour}

-- A statement about the log that none of the acts of Write makes false stays true.
module _ (P : List Event → Type 0)
    (by_write : (s : Bytes) (log : List Event) → P log → P (conn_write s ∷ log))
    (by_close : (log : List Event) → P log → P (close_write ∷ log))
    (by_log : (k v : Bytes) (log : List Event) → P log → P (trace_log k v ∷ log)) where
  unless_failed-keeps :
      (r : ℕ × Option Error) (rest : Act Event (Option (ℕ × Error))) (log : List Event)
      → P log
      → P (rest log).1
      → P (unless_failed r rest log).1
  unless_failed-keeps (n, some e) rest log p q = p
  unless_failed-keeps (n, none) rest log p q = q

  write_loop-keeps :
      (fuel i size : ℕ) (conn : Conn) (message : Bytes) (log : List Event)
      → P log
      → P (write_loop fuel i size conn message log).1
  unfolding write_loop
  write_loop-keeps zero i size conn message log p = p
  write_loop-keeps (suc fuel) i size conn message log p =
      let log' = conn_write (chunk i size message) ∷ log in
      let p' = by_write (chunk i size message) log p in
      let ih = write_loop-keeps fuel (i + size) size conn message log' p' in
      elim (Bool-cases (ltb i (length message))) [
        | inr done ↦ rw done p
        | inl more ↦ rw more (
            unless_failed-keeps (conn.write log') (write_loop fuel (i + size) size conn message)
              log' p' ih)
      ]

  pub after-keeps :
      {A B : Type 0} (r : Outcome A × List Event) (rest : A → Act Event B)
      → P r.1
      → ((a : A) (l : List Event) → P l → P (rest a l).1)
      → P (after r rest).1
  after-keeps (ok a, log) rest p q = q a log p
  after-keeps (panics v, log) rest p q = p

  finish_write-keeps :
      (conn : Conn) (message : Bytes) (stopped : Option (ℕ × Error)) (log : List Event)
      → P log
      → P (finish_write conn message stopped log).1
  finish_write-keeps conn message (some (n, e)) log p = p
  finish_write-keeps conn message none log p = by_close log p

  pub tcp_write-keeps :
      (size : ℕ) (conn : Conn) (message : Bytes) (log : List Event)
      → P log
      → P (tcp_write size conn message log).1
  unfolding tcp_write
  tcp_write-keeps size conn message log p =
      let log' = trace_log _ message ∷ trace_log _ _ ∷ log in
      let p' = by_log _ message _ (by_log _ _ log p) in
      after-keeps (write_loop (length message + 1) 0 size conn message log')
        (finish_write conn message)
        (write_loop-keeps (length message + 1) 0 size conn message log' p')
        (finish_write-keeps conn message)

  pub udp_write-keeps :
      (conn : Conn) (message : Bytes) (log : List Event) → P log → P (udp_write conn message log).1
  unfolding udp_write
  udp_write-keeps conn message log p = by_write message _ (by_log _ message _ (by_log _ _ log p))

  pub run_behaviour-keeps :
      (write : Bytes → Act Event (ℕ × Option Error))
      → ((m : Bytes) (l : List Event) → P l → P (write m l).1)
      → (b : Behaviour) (log : List Event) → P log
      → P (run_behaviour write b log).1
  unfolding run_behaviour
  run_behaviour-keeps write calm (answers o) log p = p
  run_behaviour-keeps write calm (writes m k) log p =
      after-keeps (write m log) (λ r. run_behaviour write (k r)) (calm m log p)
        (λ r l q. run_behaviour-keeps write calm (k r) l q)
