-- ===== src/P2p/Chunks/Laws.antt =====
-- The chunk loop of p2p/context.go and p2p/sender/sender_tcp.go, round by round.
use candi_plugin.Base.{
  ℕ, zero, suc, ◌+◌, ◌-◌, ◌≤◌, ◌<◌, ◌≡◌, refl, sym, ap, ◌∙◌, List, [], ◌∷◌, ◌++◌, Option, none,
  some, arith, length, take, drop, ltb, inl, inr, Bool-cases, length-drop, take_all,
  take-append-drop,
}
use mathlib.Core.List.{append-nil, append_assoc}
use candi_plugin.Go.Text.{Bytes}
use candi_plugin.Go.Outcome.{ok}
use candi_plugin.Go.Act.{Act}
use candi_plugin.Candi.{Error}
use candi_plugin.P2p.Types.{Event, conn_write}
use candi_plugin.P2p.Chunks.{Conn, unless_failed, chunk, write_loop, sent}

pub drop_all : (n : ℕ) (s : Bytes) → length s ≤ n → drop n s ≡ []
drop_all zero [] h = refl
drop_all zero (c ∷ s) h = absurd (omega arith)
drop_all (suc n) [] h = refl
drop_all (suc n) (c ∷ s) h = drop_all n s (omega arith)

drop-nil : (n : ℕ) → drop {A = ℕ} n [] ≡ []
drop-nil zero = refl
drop-nil (suc n) = refl

drop-add : (i j : ℕ) (s : Bytes) → drop (i + j) s ≡ drop j (drop i s)
drop-add zero j s = let e : 0 + j ≡ j = omega arith in rw e
drop-add (suc i) j [] = drop-nil (suc i + j) ∙ sym (drop-nil j)
drop-add (suc i) j (c ∷ s) = let e : suc i + j ≡ suc (i + j) = omega arith in rw e (drop-add i j s)

-- A chunk holds as many bytes as the buffer, or what is left.
pub chunk_lem : (i size : ℕ) (message : Bytes) → chunk i size message ≡ take size (drop i message)
unfolding chunk
chunk_lem i size message = elim (Bool-cases (ltb (length message) (i + size))) [
  | inl short ↦
      let few : length (drop i message) ≤ size = ground (arith, length-drop i message) in
      let all : length (drop i message) ≤ length message - i =
        ground (arith, length-drop i message) in
      rw short (
        take_all (length message - i) (drop i message) all
        ∙ sym (take_all size (drop i message) few))
  | inr long ↦ let e : i + size - i ≡ size = omega arith in rw (long, e)
]

pub chunk-drop :
    (i size : ℕ) (message : Bytes)
    → chunk i size message ++ drop (i + size) message ≡ drop i message
chunk-drop i size message =
    rw (chunk_lem i size message, drop-add i size message) (take-append-drop size (drop i message))

-- Whatever the connection answers, the loop has written a front part of what was left.
pub record Front (log log' : List Event) (left : Bytes) : Type 0 where
  pub written : Bytes
  pub unwritten : Bytes
  pub adds : sent log' ≡ sent log ++ written
  pub parts : written ++ unwritten ≡ left

pub Front-refl : (log : List Event) (left : Bytes) → Front log log left
Front-refl log left = record {
  written = [];
  unwritten = left;
  adds = sym (append-nil (sent log));
  parts = refl;
}

Front-chunk :
    (i size : ℕ) (message : Bytes) (log log' : List Event)
    → Front (conn_write (chunk i size message) ∷ log) log' (drop (i + size) message)
    → Front log log' (drop i message)
Front-chunk i size message log log' f = record {
  written = chunk i size message ++ f.written;
  unwritten = f.unwritten;
  adds = f.adds ∙ append_assoc (sent log) (chunk i size message) f.written;
  parts =
      append_assoc (chunk i size message) f.written f.unwritten
      ∙ ap (◌++◌ (chunk i size message)) f.parts
      ∙ chunk-drop i size message;
}

Front-unless_failed :
    (r : ℕ × Option Error) (rest : Act Event (Option (ℕ × Error))) (log : List Event) (left : Bytes)
    → Front log (rest log).1 left
    → Front log (unless_failed r rest log).1 left
Front-unless_failed (n, some e) rest log left f = Front-refl log left
Front-unless_failed (n, none) rest log left f = f

pub write_loop-Front :
    (fuel i size : ℕ) (conn : Conn) (message : Bytes) (log : List Event)
    → Front log (write_loop fuel i size conn message log).1 (drop i message)
unfolding write_loop
write_loop-Front zero i size conn message log = Front-refl log (drop i message)
write_loop-Front (suc fuel) i size conn message log =
    let log' = conn_write (chunk i size message) ∷ log in
    let ih = write_loop-Front fuel (i + size) size conn message log' in
    elim (Bool-cases (ltb i (length message))) [
      | inr done ↦ rw done (Front-refl log (drop i message))
      | inl more ↦ rw more (
          Front-chunk i size message log _ (
            Front-unless_failed (conn.write log') (write_loop fuel (i + size) size conn message)
              log' (drop (i + size) message) ih))
    ]

-- A connection that answers no error.
abbrev pub NeverFails : Conn → Type 0
NeverFails conn = (log : List Event) → (conn.write log).1 ≡ none

pub unless_failed-never :
    (r : ℕ × Option Error) (rest : Act Event (Option (ℕ × Error))) (log : List Event)
    → r.1 ≡ none
    → unless_failed r rest log ≡ rest log
unless_failed-never (n, some e) rest log h = cc
unless_failed-never (n, none) rest log h = refl

pub write_loop_total :
    (fuel i size : ℕ) (conn : Conn) (message : Bytes) (log : List Event)
    → NeverFails conn
    → 0 < size
    → length message - i < fuel
    → let r = write_loop fuel i size conn message log in
      (r.0 ≡ ok none) × (sent r.1 ≡ sent log ++ drop i message)
unfolding write_loop
write_loop_total zero i size conn message log safe p h = absurd (omega arith)
write_loop_total (suc fuel) i size conn message log safe p h =
    let log' = conn_write (chunk i size message) ∷ log in
    elim (Bool-cases (ltb i (length message))) [
      | inr done ↦
          let nothing : drop i message ≡ [] = drop_all i message (ground arith) in
          rw (done, nothing) (refl, sym (append-nil (sent log)))
      | inl more ↦
          let smaller : length message - (i + size) < fuel = ground arith in
          let ih = write_loop_total fuel (i + size) size conn message log' safe p smaller in
          let next =
            unless_failed-never (conn.write log') (write_loop fuel (i + size) size conn message)
              log' (safe log') in
          rw more (
            rw next (
              ih.0,
              ih.1
                  ∙ append_assoc (sent log) (chunk i size message) (drop (i + size) message)
                  ∙ ap (◌++◌ (sent log)) (chunk-drop i size message),
            ))
    ]
