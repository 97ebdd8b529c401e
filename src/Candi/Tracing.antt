-- ===== src/Candi/Tracing.antt =====
-- What the consumers hand to candi's trace.Finish, and what a call of it leaves behind.
use candi_plugin.Base.{ℕ, suc, ◌+◌, ◌≡◌, refl, Bool, false, List, ◌∷◌, Option, arith}
use candi_plugin.Go.Text.{Bytes}
use candi_plugin.Go.Outcome.{Outcome, ok}
use candi_plugin.Go.Act.{Act}
use candi_plugin.Candi.{Event, Error, Value, set_tag, trace_log, finish}
use candi_plugin.Candi.Events.{count, is_finish, positions, inputs}

-- The options of the calls: whether FinishWithRecoverPanic is among them, and the function of
-- FinishWithFunc.
pub record FinishOptions : Type 0 where
  pub recovers : Bool
  pub with_func : Act Event (Unit {0})

-- From one log to a later one by tags, log lines and `n` ends of traces, and nothing else.
pub data Traces (log : List Event) : ℕ → List Event → Type 0 where
  same : Traces log 0 log
  tag :
      {n : ℕ} {log' : List Event} (key : Bytes) (v : Value)
      → Traces log n log'
      → Traces log n (set_tag key v ∷ log')
  line :
      {n : ℕ} {log' : List Event} (key : Bytes) (v : Value)
      → Traces log n log'
      → Traces log n (trace_log key v ∷ log')
  end :
      {n : ℕ} {log' : List Event} (err : Option Error)
      → Traces log n log'
      → Traces log (suc n) (finish err ∷ log')

-- A call of Finish: it runs the function of its options once, at the log `called`, and where that
-- returns it returns; besides, it ends the trace once.
pub record FinishRun (o : FinishOptions) (log : List Event) (r : Outcome (Unit {0}) × List Event)
    : Type 0 where
  pub called : List Event
  pub before : ℕ
  pub behind : ℕ
  pub leads : Traces log before called
  pub returns : (o.with_func called).0 ≡ ok tt → r.0 ≡ ok tt
  pub follows : (o.with_func called).0 ≡ ok tt → Traces (o.with_func called).1 behind r.1
  pub once : before + behind ≡ 1

pub Traces-inputs : {log log' : List Event} {n : ℕ} → Traces log n log' → inputs log' ≡ inputs log
Traces-inputs same = refl
Traces-inputs (tag key v t) = Traces-inputs t
Traces-inputs (line key v t) = Traces-inputs t
Traces-inputs (end err t) = Traces-inputs t

pub Traces-positions :
    {log log' : List Event} {n : ℕ} → Traces log n log' → positions log' ≡ positions log
Traces-positions same = refl
Traces-positions (tag key v t) = Traces-positions t
Traces-positions (line key v t) = Traces-positions t
Traces-positions (end err t) = Traces-positions t

pub Traces-finish :
    {log log' : List Event} {n : ℕ}
    → Traces log n log'
    → count is_finish log' ≡ n + count is_finish log
Traces-finish same = omega arith
Traces-finish (tag key v t) = omega (arith, Traces-finish t)
Traces-finish (line key v t) = omega (arith, Traces-finish t)
Traces-finish (end err t) = omega (arith, Traces-finish t)

pub Traces-count :
    (p : Event → Bool) {log log' : List Event} {n : ℕ}
    → ((key : Bytes) (v : Value) → (p (set_tag key v) ≡ false) × (p (trace_log key v) ≡ false))
    → ((err : Option Error) → p (finish err) ≡ false)
    → Traces log n log'
    → count p log' ≡ count p log
Traces-count p quiet ended same = refl
Traces-count p quiet ended (tag key v t) = ground (arith, quiet key v, Traces-count p quiet ended t)
Traces-count p quiet ended (line key v t) =
    ground (arith, quiet key v, Traces-count p quiet ended t)
Traces-count p quiet ended (end err t) = ground (arith, ended err, Traces-count p quiet ended t)
