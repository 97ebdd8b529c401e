-- ===== src/Oracle/Pools.antt =====
-- What oracledb-adaptor/oracledb.go makes of the pools that it opens, and how it closes them.
use candi_plugin.Base.{ℕ, ◌+◌, ◌≡◌, nat_eq, false, List, [], ◌∷◌, ◌++◌, Option, none, some, arith}
use candi_plugin.Go.Text.{Bytes, codes}
use candi_plugin.Go.Outcome.{Outcome, ok}
use candi_plugin.Go.Act.{Act}
use candi_plugin.Candi.{Error}
use candi_plugin.Oracle.{
  Setting, OracleDatabaseOption, Event, closes, prints, opened, dsns, closings, settings, printed,
  Driver, OracleDbInstance, log_end, log_with_defer, close_write, disconnect,
}

-- A driver that never fails.
pub record Works (driver : Driver) : Type 0 where
  pub opening : (log : List Event) → driver.open_error log ≡ none
  pub pinging : (log : List Event) → driver.ping_error log ≡ none

-- The calls of all options, in order.
abbrev pub all_settings : List OracleDatabaseOption → List Setting
all_settings [] = []
all_settings (o ∷ os) = o ++ all_settings os

-- What changing the pool `db` adds to the log.
record Configured (db : ℕ) (added : List Setting) (log : List Event)
    (r : Outcome (Unit {0}) × List Event) : Type 0 where
  returns : r.0 ≡ ok tt
  same : opened r.1 ≡ opened log
  kept : dsns r.1 ≡ dsns log
  silent : printed r.1 ≡ printed log
  changed : settings db r.1 ≡ settings db log ++ added
  others : (d : ℕ) → nat_eq db d ≡ false → settings d r.1 ≡ settings d log

-- A pool that ConnectOracleDatabase returns.
record Connected (dsn : Bytes) (opts : List OracleDatabaseOption) (log : List Event)
    (r : Outcome ℕ × List Event) : Type 0 where
  returns : r.0 ≡ ok (opened log)
  one : opened r.1 ≡ 1 + opened log
  there : dsns r.1 ≡ dsns log ++ dsn ∷ []
  silent : printed r.1 ≡ printed log
  changed : settings (opened log) r.1 ≡ settings (opened log) log ++ all_settings opts
  others : (d : ℕ) → nat_eq (opened log) d ≡ false → settings d r.1 ≡ settings d log

abbrev pub first_error : Option Error → Option Error → Option Error
first_error (some err) other = some err
first_error none other = other

-- Disconnect answers the first error of the two closings; it closes both pools, but where closing the
-- read pool fails it leaves the write pool open. It prints SUCCESS whether a closing fails or not.
pub disconnect-closes :
    (driver : Driver) (s : OracleDbInstance) (log : List Event)
    → let r = disconnect driver s log in
      let begun = prints (codes "oracledb: disconnect...") ∷ log in
      let first = driver.close_error (closes s.read ∷ begun) in
      let second = driver.close_error (closes s.write ∷ closes s.read ∷ begun) in
      (r.0 ≡ ok (first_error first second))
      × (closings r.1 ≡ elim first [ none ↦ 2 | some err ↦ 1 ] + closings log)
      × (printed r.1
          ≡ (printed log ++ codes "oracledb: disconnect..." ∷ []) ++ codes "SUCCESS" ∷ [])
unfolding disconnect close_write log_with_defer log_end
disconnect-closes driver s log = ground arith
