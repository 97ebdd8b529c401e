-- ===== src/Go/Text.antt =====
-- Package strings and package bytes over byte lists: Trim, TrimSuffix, HasPrefix, Index, TrimSpace,
-- Split and Join with a separator of one byte.
use Prim.Native.Char.{code}
use Prim.Native.Nat.{◌/◌, ◌%◌}
use candi_plugin.Base.{
  ℕ, zero, suc, ◌+◌, Bool, ◌&&◌, ◌||◌, List, [], ◌∷◌, ◌++◌, Option, none, some, String, nat_eq, leb,
  if◌then◌else◌,
}

abbrev pub Bytes : Type 0
Bytes = List ℕ

abbrev pub codes : String → Bytes
codes String.[] = []
codes (String.◌∷◌ c s) = code c ∷ codes s

-- strings.Index(s, sep) for a separator of one byte; `none` stands for -1.
unfoldable pub index : ℕ → Bytes → Option ℕ
index sep [] = none
index sep (c ∷ s) =
    if nat_eq c sep then some 0 else elim (index sep s) [ none ↦ none | some i ↦ some (suc i) ]

-- The bytes of ASCII that unicode.IsSpace holds to be space.
unfoldable pub is_space : ℕ → Bool
is_space c = nat_eq c 32 || leb 9 c && leb c 13

unfoldable pub trim_left : (ℕ → Bool) → Bytes → Bytes
trim_left p [] = []
trim_left p (c ∷ s) = if p c then trim_left p s else c ∷ s

unfoldable pub trim_right : (ℕ → Bool) → Bytes → Bytes
trim_right p [] = []
trim_right p (c ∷ s) = elim (trim_right p s) [ [] ↦ if p c then [] else c ∷ [] | d ∷ r ↦ c ∷ d ∷ r ]

unfoldable pub trim : (ℕ → Bool) → Bytes → Bytes
trim p s = trim_right p (trim_left p s)

-- strings.TrimSpace, bytes.TrimSpace
unfoldable pub trim_space : Bytes → Bytes
unfolding trim trim_left trim_right is_space
trim_space s = trim is_space s

-- strings.Trim(s, "/")
unfoldable pub trim_slash : Bytes → Bytes
unfolding trim trim_left trim_right
trim_slash s = trim (λ c. nat_eq c b'/') s

-- bytes.Split(s, sep) for a separator of one byte: the pieces, at least one.
unfoldable pub split : ℕ → Bytes → List Bytes
split sep [] = [] ∷ []
split sep (c ∷ s) = elim (split sep s) [
  | [] ↦ (c ∷ []) ∷ []
  | p ∷ ps ↦ if nat_eq c sep then [] ∷ p ∷ ps else (c ∷ p) ∷ ps
]

-- bytes.Join(pieces, sep) for a separator of one byte.
unfoldable pub join : ℕ → List Bytes → Bytes
join sep [] = []
join sep (p ∷ ps) = elim ps [ [] ↦ p | _ ∷ _ ↦ p ++ sep ∷ join sep ps ]

-- strconv.Itoa of a number that is not negative.
itoa_loop : ℕ → ℕ → Bytes → Bytes
itoa_loop zero n acc = acc
itoa_loop (suc fuel) n acc =
    let more = itoa_loop fuel (n / 10) ((b'0' + n % 10) ∷ acc) in
    if nat_eq (n / 10) 0 then (b'0' + n % 10) ∷ acc else more

unfoldable pub itoa : ℕ → Bytes
unfolding itoa_loop
itoa n = itoa_loop (suc n) n []
