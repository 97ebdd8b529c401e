-- ===== src/Oracle/Tests.antt =====
-- Tests of the Oracle adapter.
use candi_plugin.Base.{◌≡◌, refl, [], ◌∷◌, none, some}
use candi_plugin.Go.Text.{codes}
use candi_plugin.Go.Outcome.{ok, panics}
use candi_plugin.Oracle.{
  Driver, closings, printed, init_oracle_database, disconnect, log_with_defer, log_end,
  connect_both, connect_oracle_database, must,
}
use candi_plugin.Oracle.Pools.{disconnect-closes}

-- A driver that opens and does not close.
abbrev stuck : Driver
stuck = record {
  open_error = λ log. none;
  ping_error = λ log. none;
  close_error = λ log. some (codes "busy");
}

-- One that does not answer to Ping.
abbrev down : Driver
down = record {
  open_error = λ log. none;
  ping_error = λ log. some (codes "refused");
  close_error = λ log. none;
}

down_says_error :
    let r = init_oracle_database down [] (codes "w") none [] in
    (r.0 ≡ panics (codes "Oracle Ping: refused"))
    × (printed r.1 ≡ codes "Load OracleDB connection..." ∷ codes "ERROR: Oracle Ping: refused" ∷ [])
    × (closings r.1 ≡ 0)
unfolding init_oracle_database log_with_defer log_end connect_both connect_oracle_database must
down_says_error = (refl, refl, refl)

disconnect-closes_example :
    let r = disconnect stuck (record { read = 0; write = 1 }) [] in
    (r.0 ≡ ok (some (codes "busy")))
    × (closings r.1 ≡ 1)
    × (printed r.1 ≡ codes "oracledb: disconnect..." ∷ codes "SUCCESS" ∷ [])
disconnect-closes_example = disconnect-closes stuck (record { read = 0; write = 1 }) []
