-- ===== src/P2p/Server/Reading.antt =====
-- How the servers of p2p/ read a request.
use candi_plugin.Base.{
  ℕ, ◌≤◌, zero, suc, ◌≡◌, refl, sym, ap, ◌∙◌, ◌≢◌, false, List, [], ◌∷◌, ◌++◌, some, arith, length,
  take, drop,
}
use mathlib.Core.List.{append_assoc, append-nil}
use candi_plugin.Go.Text.{Bytes}
use candi_plugin.P2p.Server.{Read, read_all_request, read_from_udp, slice}

-- Reads that succeed, of these bytes.
abbrev pub reads : List Bytes → List Read
reads [] = []
reads (s ∷ ss) = record { bytes = s; failed = false } ∷ reads ss

abbrev pub concat : List Bytes → Bytes
concat [] = []
concat (s ∷ ss) = s ++ concat ss

abbrev pub NoneEmpty : List Bytes → Type 0
NoneEmpty [] = Unit
NoneEmpty (s ∷ ss) = (s ≢ []) × NoneEmpty ss

read_all_request-from :
    (got : Bytes) (ss : List Bytes) (rest : List Read)
    → NoneEmpty ss
    → read_all_request got (reads ss ++ record { bytes = []; failed = false } ∷ rest)
      ≡ some (got ++ concat ss)
unfolding read_all_request
read_all_request-from got [] rest h = ap some (sym (append-nil got))
read_all_request-from got ([] ∷ ss) rest h = absurd (h.0 refl)
read_all_request-from got ((c ∷ s) ∷ ss) rest h =
    read_all_request-from (got ++ c ∷ s) ss rest h.1
    ∙ ap some (append_assoc got (c ∷ s) (concat ss))

-- readAllRequest gives the bytes of all reads up to the first that reads nothing, in order, however
-- the request was cut up.
pub read_all_request-concat :
    (ss : List Bytes) (rest : List Read)
    → NoneEmpty ss
    → read_all_request [] (reads ss ++ record { bytes = []; failed = false } ∷ rest)
      ≡ some (concat ss)
read_all_request-concat ss rest h = read_all_request-from [] ss rest h

take-front : (n : ℕ) (s t : Bytes) → n ≤ length s → take n (s ++ t) ≡ take n s
take-front zero s t h = refl
take-front (suc n) [] t h = absurd (omega arith)
take-front (suc n) (c ∷ s) t h = ap (◌∷◌ c) (take-front n s t (omega arith))

take-take : (m n : ℕ) (s : Bytes) → n ≤ m → take n (take m s) ≡ take n s
take-take m zero s h = refl
take-take zero (suc n) s h = absurd (omega arith)
take-take (suc m) (suc n) [] h = refl
take-take (suc m) (suc n) (c ∷ s) h = ap (◌∷◌ c) (take-take m n s (omega arith))

length-take : (m n : ℕ) (s : Bytes) → n ≤ m → n ≤ length s → n ≤ length (take m s)
length-take m zero s h k = omega arith
length-take zero (suc n) s h k = absurd (omega arith)
length-take (suc m) (suc n) [] h k = absurd (omega arith)
length-take (suc m) (suc n) (c ∷ s) h k =
    omega (arith, length-take m n s (omega arith) (omega arith))

-- What a slice of the buffer is after a datagram of at least its length has been read.
pub slice-overwritten :
    (n : ℕ) (buffer datagram : Bytes)
    → n ≤ length buffer
    → n ≤ length datagram
    → slice n (read_from_udp buffer datagram).0 ≡ take n datagram
unfolding read_from_udp
slice-overwritten n buffer datagram h k =
    let taken = take (length buffer) datagram in
    take-front n taken (drop (length taken) buffer) (length-take (length buffer) n datagram h k)
    ∙ take-take (length buffer) n datagram h
