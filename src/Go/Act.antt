-- ===== src/Go/Act.antt =====
-- Code that acts on the world: what it does is a log, the newest act first, and what the world
-- answers is a function of the log so far, so an answer may change from one call to the next.
use candi_plugin.Base.{List, ◌∷◌, ◌≡◌, refl}
use candi_plugin.Go.Text.{Bytes}
use candi_plugin.Go.Outcome.{Outcome, ok, panics}

abbrev pub Act {ℓ} : Type 0 → Type ℓ → Type ℓ
Act E A = List E → Outcome A × List E

module _ {E : Type 0} where
  abbrev pub after {ℓ κ} :
      {A : Type ℓ} {B : Type κ} → Outcome A × List E → (A → Act E B) → Outcome B × List E
  after (ok a, log) f = f a log
  after (panics v, log) f = (panics v, log)

  infixl 5 ◌>>=◌ ◌>>◌
  abbrev pub ◌>>=◌ {ℓ κ} : {A : Type ℓ} {B : Type κ} → Act E A → (A → Act E B) → Act E B
  ◌>>=◌ m f log = after (m log) f

  abbrev pub ◌>>◌ {ℓ} : {B : Type ℓ} → Act E (Unit {0}) → Act E B → Act E B
  ◌>>◌ m k log = after (m log) (λ _. k)

  abbrev pub return {ℓ} : {A : Type ℓ} → A → Act E A
  return a log = (ok a, log)

  abbrev pub panic {ℓ} : {A : Type ℓ} → Bytes → Act E A
  panic v log = (panics v, log)

  abbrev pub emit : E → Act E (Unit {0})
  emit e log = (ok tt, e ∷ log)

  -- The world's answer.
  abbrev pub ask {ℓ} : {A : Type ℓ} → (List E → A) → Act E A
  ask world log = (ok (world log), log)

  -- A call of code outside the repository that answers, or panics.
  abbrev pub call {ℓ} : {A : Type ℓ} → (List E → Outcome A) → Act E A
  call world log = (world log, log)

  abbrev pub cleanup {ℓ κ} :
      {A : Type ℓ} {B : Type κ} → Outcome A × List E → (Outcome A → Act E B) → Outcome B × List E
  cleanup (r, log) c = c r log

  -- `defer`: the deferred function runs whether the body returns or panics. It is given how the body
  -- ended, and says how the call ends: a function that does not recover hands a panic on.
  abbrev pub deferred {ℓ κ} : {A : Type ℓ} {B : Type κ} → Act E A → (Outcome A → Act E B) → Act E B
  deferred m c log = cleanup (m log) c

-- A sequence that returns has returned at its first part.
pub after-ok {ℓ κ} :
    {E : Type 0} {A : Type ℓ} {B : Type κ} (r : Outcome A × List E) (rest : A → Act E B) {b : B}
    → (after r rest).0 ≡ ok b
    → (a : A) × (r.0 ≡ ok a) × ((rest a r.1).0 ≡ ok b)
after-ok (ok a, log) rest e = (a, refl, e)
after-ok (panics v, log) rest e = cc
