-- ===== src/Candi/Places.antt =====
-- The places of the semaphores of stomp-broker/consumer.go and gcppubsub/consumer.go, a channel for each
-- topic: how many are taken, and how often a topic occurs among the messages that are handled.
use candi_plugin.Base.{ℕ, ◌+◌, ◌≡◌, List, [], ◌∷◌, ◌++◌, arith, bytes_eq, ◌==◌, if◌then◌else◌}
use candi_plugin.Go.Text.{Bytes}
use candi_plugin.Go.Map.{lookup, insert, lookup-insert}
use candi_plugin.Candi.{or_default}

-- How many places of a topic are taken: none of a topic without a channel.
abbrev pub held : Bytes → List (Bytes × ℕ) → ℕ
held topic semaphore = or_default (lookup topic semaphore) 0

abbrev pub occurs : Bytes → List Bytes → ℕ
occurs topic [] = 0
occurs topic (x ∷ xs) = (if topic == x then 1 else 0) + occurs topic xs

pub occurs-append :
    (d : Bytes) (xs ys : List Bytes) → occurs d (xs ++ ys) ≡ occurs d xs + occurs d ys
occurs-append d [] ys = omega arith
occurs-append d (x ∷ xs) ys = ground (arith, occurs-append d xs ys)

pub held-insert :
    (topic d : Bytes) (n : ℕ) (m : List (Bytes × ℕ))
    → held d (insert topic n m) ≡ (if d == topic then n else held d m)
held-insert topic d n m = ground (arith, lookup-insert topic d n m)
