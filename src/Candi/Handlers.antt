-- ===== src/Candi/Handlers.antt =====
-- The loop over the handler functions of a message that the consumers of stomp-broker/, gcppubsub/ and
-- amazonsqs/ have in common; they differ in what they do with an error.
use candi_plugin.Base.{
  ℕ, suc, ◌≡◌, refl, Bool, false, List, [], ◌∷◌, Option, none, some, arith, if◌then◌else◌,
}
use candi_plugin.Go.Outcome.{Outcome, ok, panics}
use candi_plugin.Go.Act.{Act, after, ◌>>=◌, ◌>>◌, return, emit, call}
use candi_plugin.Candi.{Event, Error, HandlerFunc, handle}
use candi_plugin.Candi.Events.{count, positions}

abbrev pub when : Bool → Act Event (Unit {0}) → Act Event (Unit {0})
when b m = if b then m else return tt

abbrev pub on_error : (Error → Act Event (Unit {0})) → Option Error → Act Event (Unit {0})
on_error report none = return tt
on_error report (some e) = report e

-- for _, handlerFunc := range selectedHandler.HandlerFuncs, from a position of it on.
unfoldable pub run_funcs :
    (Error → Act Event (Unit {0})) → ℕ → List HandlerFunc → Act Event (Unit {0})
run_funcs report i [] = return tt
run_funcs report i (f ∷ fs) = do
  emit (handle i)
  err ← call f
  on_error report err
  run_funcs report (suc i) fs

module _ (p : Event → Bool) (report : Error → Act Event (Unit {0}))
    (no_handle : (i : ℕ) → p (handle i) ≡ false)
    (returns : (e : Error) (log : List Event) → (report e log).0 ≡ ok tt)
    (quiet : (e : Error) (log : List Event) → count p (report e log).1 ≡ count p log) where
  run_funcs-step :
      (i : ℕ) (rest : Act Event (Unit {0})) (log : List Event)
      → ((l : List Event) → count p (rest l).1 ≡ count p l)
      → (o : Outcome (Option Error))
      → count p (after (o, handle i ∷ log) (λ r. on_error report r >> rest)).1 ≡ count p log
  run_funcs-step i rest log ih (panics v) = ground (arith, no_handle i)
  run_funcs-step i rest log ih (ok none) = ground (arith, no_handle i, ih (handle i ∷ log))
  run_funcs-step i rest log ih (ok (some e)) = ground (
    arith,
    no_handle i,
    returns e (handle i ∷ log),
    quiet e (handle i ∷ log),
    ih (report e (handle i ∷ log)).1,
  )

  -- The loop adds no event but the calls of the functions and what is done with their errors.
  pub run_funcs-count :
      (i : ℕ) (fs : List HandlerFunc) (log : List Event)
      → count p (run_funcs report i fs log).1 ≡ count p log
  unfolding run_funcs
  run_funcs-count i [] log = refl
  run_funcs-count i (f ∷ fs) log =
      run_funcs-step i (run_funcs report (suc i) fs) log (λ l. run_funcs-count (suc i) fs l)
        (f (handle i ∷ log))

-- A statement about the log that neither a call of a handler function nor what is done with its error
-- makes false stays true.
module _ (P : List Event → Type 0) (report : Error → Act Event (Unit {0}))
    (by_handle : (i : ℕ) (log : List Event) → P log → P (handle i ∷ log))
    (by_report : (e : Error) (log : List Event) → P log → P (report e log).1) where
  after-keeps :
      (r : Outcome (Unit {0}) × List Event) (rest : Act Event (Unit {0}))
      → P r.1
      → ((l : List Event) → P l → P (rest l).1)
      → P (after r (λ u. rest)).1
  after-keeps (ok u, log) rest p ih = ih log p
  after-keeps (panics v, log) rest p ih = p

  run_funcs-next :
      (o : Outcome (Option Error)) (rest : Act Event (Unit {0})) (log : List Event)
      → P log
      → ((l : List Event) → P l → P (rest l).1)
      → P (after (o, log) (λ r. on_error report r >> rest)).1
  run_funcs-next (panics v) rest log p ih = p
  run_funcs-next (ok none) rest log p ih = ih log p
  run_funcs-next (ok (some e)) rest log p ih =
      after-keeps (report e log) rest (by_report e log p) ih

  pub run_funcs-keeps :
      (i : ℕ) (fs : List HandlerFunc) (log : List Event) → P log → P (run_funcs report i fs log).1
  unfolding run_funcs
  run_funcs-keeps i [] log p = p
  run_funcs-keeps i (f ∷ fs) log p =
      run_funcs-next (f (handle i ∷ log)) (run_funcs report (suc i) fs) (handle i ∷ log)
        (by_handle i log p) (λ l q. run_funcs-keeps (suc i) fs l q)

-- Handler functions that end like this, whatever was done before.
abbrev pub constant : List (Outcome (Option Error)) → List HandlerFunc
constant [] = []
constant (o ∷ os) = (λ log. o) ∷ constant os

-- The positions of those that are called, from the position `i` on and the last first, before the ones
-- that were called before: a function that panics is the last.
abbrev pub calls : ℕ → List (Outcome (Option Error)) → List ℕ → List ℕ
calls i [] before = before
calls i (ok r ∷ os) before = calls (suc i) os (i ∷ before)
calls i (panics v ∷ os) before = i ∷ before

-- The loop calls its functions in order, also after one that fails, up to the first that panics.
pub run_funcs-calls :
    (report : Error → Act Event (Unit {0})) (i : ℕ) (os : List (Outcome (Option Error)))
    (log : List Event)
    → ((e : Error) (l : List Event)
        → ((report e l).0 ≡ ok tt) × (positions (report e l).1 ≡ positions l))
    → positions (run_funcs report i (constant os) log).1 ≡ calls i os (positions log)
unfolding run_funcs
run_funcs-calls report i [] log law = refl
run_funcs-calls report i (panics v ∷ os) log law = refl
run_funcs-calls report i (ok none ∷ os) log law =
    ground (arith, run_funcs-calls report (suc i) os (handle i ∷ log) law)
run_funcs-calls report i (ok (some e) ∷ os) log law = ground (
  arith,
  law e (handle i ∷ log),
  run_funcs-calls report (suc i) os (report e (handle i ∷ log)).1 law,
)
