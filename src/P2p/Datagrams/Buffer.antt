-- ===== src/P2p/Datagrams/Buffer.antt =====
-- The buffer of p2p/udp.go: what a read does to it, and which goroutines still see their datagram.
use candi_plugin.Base.{
  ℕ, zero, suc, ◌+◌, ◌≤◌, ◌≡◌, refl, ap, List, [], ◌∷◌, ◌++◌, arith, All, length, take, drop,
  length-append, length-drop, length-take-le,
}
use candi_plugin.Go.Text.{Bytes}
use candi_plugin.P2p.Server.{read_from_udp, slice}
use candi_plugin.P2p.Datagrams.{Job, make_bytes}

pub length-make_bytes : (n : ℕ) → length (make_bytes n) ≡ n
length-make_bytes zero = refl
length-make_bytes (suc n) = ap suc (length-make_bytes n)

take-length : (s t : Bytes) → take (length s) (s ++ t) ≡ s
take-length [] t = refl
take-length (c ∷ s) t = ap (◌∷◌ c) (take-length s t)

-- A read leaves the buffer as long as it was.
pub read_from_udp-length :
    (buffer datagram : Bytes) → length (read_from_udp buffer datagram).0 ≡ length buffer
unfolding read_from_udp
read_from_udp-length buffer datagram =
    let taken = take (length buffer) datagram in
    omega (
      arith,
      length-append taken (drop (length taken) buffer),
      length-drop (length taken) buffer,
      length-take-le (length buffer) datagram,
    )

-- The slice of the bytes that were read.
pub slice-read_from_udp :
    (buffer datagram : Bytes)
    → slice (read_from_udp buffer datagram).1 (read_from_udp buffer datagram).0
      ≡ take (length buffer) datagram
unfolding read_from_udp
slice-read_from_udp buffer datagram =
    take-length (take (length buffer) datagram)
      (drop (length (take (length buffer) datagram)) buffer)

-- A goroutine for the datagram that was read last sees that datagram.
abbrev pub Fresh : ℕ → Bytes → ℕ → Job → Type 0
Fresh size buffer reads job =
    (job.reads ≤ reads) × (job.reads ≡ reads → slice job.size buffer ≡ take size job.datagram)

Fresh-later :
    (size reads : ℕ) (buffer buffer' : Bytes) (job : Job)
    → Fresh size buffer reads job
    → Fresh size buffer' (reads + 1) job
Fresh-later size reads buffer buffer' job f = (omega (arith, f.0), λ e. absurd (omega (arith, f.0)))

pub All-later :
    (size reads : ℕ) (buffer buffer' : Bytes) (jobs : List Job)
    → All (Fresh size buffer reads) jobs
    → All (Fresh size buffer' (reads + 1)) jobs
All-later size reads buffer buffer' [] f = tt
All-later size reads buffer buffer' (job ∷ jobs) f =
    (Fresh-later size reads buffer buffer' job f.0, All-later size reads buffer buffer' jobs f.1)

pub All-without :
    (P : Job → Type 0) (before : List Job) (job : Job) (behind : List Job)
    → All P (before ++ job ∷ behind)
    → All P (before ++ behind)
All-without P [] job behind f = f.1
All-without P (x ∷ before) job behind f = (f.0, All-without P before job behind f.1)
