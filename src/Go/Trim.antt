-- ===== src/Go/Trim.antt =====
-- Laws of the trimming functions of Go/Text, shared by the router and the request format.
use candi_plugin.Base.{ℕ, ◌≡◌, refl, sym, ap, ◌∙◌, ◌≢◌, Bool, false, [], ◌∷◌, ◌++◌, arith}
use candi_plugin.Go.Text.{Bytes, trim_right}

append-ne-nil : (t s : Bytes) → s ≢ [] → t ++ s ≢ []
append-ne-nil [] s h = h
append-ne-nil (c ∷ t) s h = λ e. cc

module _ (p : ℕ → Bool) where
  pub trim_right-cons :
      (c : ℕ) (s : Bytes) → trim_right p s ≢ [] → trim_right p (c ∷ s) ≡ c ∷ trim_right p s
  unfolding trim_right
  trim_right-cons c s h = ground arith

  pub trim_right-cons_of_kept :
      (c : ℕ) (s : Bytes) → p c ≡ false → trim_right p (c ∷ s) ≡ c ∷ trim_right p s
  unfolding trim_right
  trim_right-cons_of_kept c s h = ground (arith, h)

  pub trim_right-append :
      (t s : Bytes) → trim_right p s ≢ [] → trim_right p (t ++ s) ≡ t ++ trim_right p s
  trim_right-append [] s h = refl
  trim_right-append (c ∷ t) s h =
      let ih = trim_right-append t s h in
      trim_right-cons c (t ++ s) (λ e. append-ne-nil t _ h (sym ih ∙ e)) ∙ ap (◌∷◌ c) ih
