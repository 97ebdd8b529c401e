-- ===== src/P2p/Requests.antt =====
-- The request format of p2p/tcp.go and p2p/udp.go: a handler's prefix, a colon and the message, as the
-- sender of p2p/sender/sender_tcp.go writes it and the servers take it apart.
use candi_plugin.Base.{
  ◌≡◌, refl, ap, sym, ◌∙◌, ◌≢◌, false, List, [], ◌∷◌, ◌++◌, Option, none, some, arith, All, nat_eq,
  Bool-cases, inl, inr,
}
use candi_plugin.Go.Text.{Bytes, split, join, trim_right, trim_space, is_space}
use candi_plugin.Go.Trim.{trim_right-cons_of_kept, trim_right-append}
use mathlib.Core.List.{append_assoc}
use candi_plugin.P2p.Types.{separator}

-- The target handler and the message that the servers use of the pieces of a request; `none` where
-- there are less than two.
unfoldable pub request_parts : List Bytes → Option (Bytes × Bytes)
request_parts [] = none
request_parts (p ∷ []) = none
request_parts (p ∷ q ∷ qs) = some (p, join separator (q ∷ qs))

-- A request taken apart: bytes.Split(bytes.TrimSpace(buff), separator), and its parts.
unfoldable pub parse_request : Bytes → Option (Bytes × Bytes)
parse_request buff = request_parts (split separator (trim_space buff))

-- What Send writes: append([]byte(handler), 58), then the message.
abbrev pub format_request : Bytes → Bytes → Bytes
format_request handler message = (handler ++ separator ∷ []) ++ message

abbrev pub HasNoSeparator : Bytes → Type 0
HasNoSeparator = All (λ c. nat_eq c separator ≡ false)

abbrev pub StartsNoSpace : Bytes → Type 0
StartsNoSpace [] = Unit
StartsNoSpace (c ∷ s) = is_space c ≡ false

-- A piece at least.
split-cons : (s : Bytes) → (p : Bytes) × (ps : List Bytes) × (split separator s ≡ p ∷ ps)
unfolding split
split-cons [] = ([], [], refl)
split-cons (c ∷ s) =
    let (p, ps, e) = split-cons s in
    elim (Bool-cases (nat_eq c separator)) [
      | inl here ↦ ([], p ∷ ps, rw e (rw here))
      | inr other ↦ (c ∷ p, ps, rw e (rw other))
    ]

-- Joining undoes splitting.
join-split : (s : Bytes) → join separator (split separator s) ≡ s
unfolding split join
join-split [] = refl
join-split (c ∷ s) = let (p, ps, e) = split-cons s in ground (arith, e, join-split s, join_two p ps)
  where
    join_two :
        (p : Bytes) (ps : List Bytes)
        → join separator ([] ∷ p ∷ ps) ≡ separator ∷ join separator (p ∷ ps)
    join_two p ps = refl

split-prefix :
    (p s : Bytes) → HasNoSeparator p → split separator (p ++ separator ∷ s) ≡ p ∷ split separator s
unfolding split
split-prefix [] s h = let (p, ps, e) = split-cons s in rw e
split-prefix (c ∷ p) s h = rw (split-prefix p s h.1) (rw h.0)

-- The servers trim a request on both sides: of one that starts with no space the end only.
trim_space-format :
    (handler message : Bytes)
    → StartsNoSpace handler
    → trim_space (format_request handler message)
      ≡ handler ++ separator ∷ trim_right is_space message
unfolding trim_space
trim_space-format [] message h = trim_right-cons_of_kept is_space separator message refl
trim_space-format (c ∷ handler) message h = rw h (
    ap (trim_right is_space) (append_assoc (c ∷ handler) (separator ∷ []) message)
    ∙ trim_right-append is_space (c ∷ handler) (separator ∷ message) (λ e. not_nil (sym kept ∙ e))
    ∙ ap (◌++◌ (c ∷ handler)) kept)
  where
    kept : trim_right is_space (separator ∷ message) ≡ separator ∷ trim_right is_space message
    kept = trim_right-cons_of_kept is_space separator message refl

    not_nil : {s : Bytes} → separator ∷ s ≢ []
    not_nil e = cc

-- A server takes apart the request that a sender writes: for a handler's prefix that holds no colon
-- and starts with no space, it gets that prefix, and the message without the spaces at its end.
pub parse-format :
    (handler message : Bytes)
    → HasNoSeparator handler
    → StartsNoSpace handler
    → parse_request (format_request handler message) ≡ some (handler, trim_right is_space message)
unfolding parse_request request_parts
parse-format handler message plain start =
    let rest = trim_right is_space message in
    let (p, ps, e) = split-cons rest in
    let pieces =
      ap (split separator) (trim_space-format handler message start)
      ∙ split-prefix handler rest plain in
    ap request_parts (pieces ∙ ap (◌∷◌ handler) e)
    ∙ ap (λ m. some (handler, m)) (ap (join separator) (sym e) ∙ join-split rest)
