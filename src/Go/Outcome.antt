-- ===== src/Go/Outcome.antt =====
-- Code that returns or panics, and code that also acts on the world.
use candi_plugin.Base.{◌≡◌, refl}
use candi_plugin.Go.Text.{Bytes}

-- `panics v` is a panic with the value v, printed.
pub data Outcome {ℓ} (A : Type ℓ) : Type ℓ where
  ok : A → Outcome A
  panics : Bytes → Outcome A

-- The rest of a block: it does not run after a panic.
abbrev pub ◌>>=◌ {ℓ κ} : {V : Type ℓ} {W : Type κ} → Outcome V → (V → Outcome W) → Outcome W
panics value >>= rest = panics value
ok v >>= rest = rest v

infixl 5 ◌>>=◌
pub ok-cases {ℓ κ} :
    {V : Type ℓ} {W : Type κ} (first : Outcome V) (rest : V → Outcome W) {w : W}
    → (first >>= rest) ≡ ok w
    → (v : V) × (first ≡ ok v) × (rest v ≡ ok w)
ok-cases (panics value) rest e = cc
ok-cases (ok v) rest e = (v, refl, e)

pub ok-inj {ℓ} : {V : Type ℓ} {v w : V} → ok v ≡ ok w → v ≡ w
ok-inj e = cc
