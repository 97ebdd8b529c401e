-- ===== src/Oracle.antt =====
-- oracledb-adaptor/oracledb.go: opening the read and the write connection, and closing them. The
-- driver is database/sql's, whose answers are arguments.
pub mod Pools
mod Tests
use candi_plugin.Base.{
  ℕ, ◌+◌, ◌*◌, ◌≡◌, refl, sym, ap, ◌∙◌, nat_eq, Bool, true, false, List, [], ◌∷◌, ◌++◌, Option,
  none, some, arith, if◌then◌else◌,
}
use candi_plugin.Go.Text.{Bytes, codes}
use candi_plugin.Go.Outcome.{Outcome, ok, panics}
use candi_plugin.Go.Act.{Act, ◌>>=◌, ◌>>◌, return, emit, ask, panic, deferred}
use mathlib.Core.List.{append-nil, append_assoc}
use candi_plugin.Candi.{Error}

-- The calls by which an option changes a pool of database/sql; a time is in seconds.
pub data Setting : Type 0 where
  set_max_idle_conns : ℕ → Setting
  set_max_open_conns : ℕ → Setting
  set_conn_max_lifetime : ℕ → Setting
  set_conn_max_idle_time : ℕ → Setting

-- OracleDatabaseOption, by the calls that it makes.
abbrev pub OracleDatabaseOption : Type 0
OracleDatabaseOption = List Setting

-- What the package does to a pool: sql.Open, Ping, a call of an option, Close; and what it prints,
-- without the time and the colours. A pool is known by how many had been opened before it.
pub data Event : Type 0 where
  opens : (dsn : Bytes) → Event
  pings : (db : ℕ) → Event
  sets : (db : ℕ) (setting : Setting) → Event
  closes : (db : ℕ) → Event
  prints : Bytes → Event

abbrev pub opened : List Event → ℕ
opened [] = 0
opened (opens dsn ∷ log) = 1 + opened log
opened (e ∷ log) = opened log

-- The DSNs that pools were opened with, in order.
abbrev pub dsns : List Event → List Bytes
dsns [] = []
dsns (opens dsn ∷ log) = dsns log ++ dsn ∷ []
dsns (e ∷ log) = dsns log

-- How often a pool is closed.
abbrev pub closings : List Event → ℕ
closings [] = 0
closings (closes db ∷ log) = 1 + closings log
closings (e ∷ log) = closings log

-- The calls by which a pool was changed, in order, and the lines that were printed.
abbrev pub settings : ℕ → List Event → List Setting
settings db [] = []
settings db (sets d setting ∷ log) =
    if nat_eq d db then settings db log ++ setting ∷ [] else settings db log
settings db (e ∷ log) = settings db log

abbrev pub printed : List Event → List Bytes
printed [] = []
printed (prints line ∷ log) = printed log ++ line ∷ []
printed (e ∷ log) = printed log

pub record Driver : Type 0 where
  pub open_error : List Event → Option Error
  pub ping_error : List Event → Option Error
  pub close_error : List Event → Option Error

pub record OracleDbInstance : Type 0 where
  pub read : ℕ
  pub write : ℕ

unfoldable pub must : Bytes → Option Error → Act Event (Unit {0})
must what none = return tt
must what (some err) = panic (what ++ err)

-- A call of an option.
unfoldable pub apply_option : OracleDatabaseOption → ℕ → Act Event (Unit {0})
apply_option [] db = return tt
apply_option (setting ∷ rest) db = do emit (sets db setting); apply_option rest db

unfoldable pub configure : List OracleDatabaseOption → ℕ → Act Event (Unit {0})
configure [] db = return tt
configure (o ∷ os) db = do apply_option o db; configure os db

-- logWithDefer, with the body of the function that defers what it returns.
unfoldable pub log_end {ℓ} : {A : Type ℓ} → Outcome A → Act Event A
log_end (ok a) = do emit (prints (codes "SUCCESS")); return a
log_end (panics r) = do emit (prints (codes "ERROR: " ++ r)); panic r

unfoldable pub log_with_defer {ℓ} : {A : Type ℓ} → Bytes → Act Event A → Act Event A
log_with_defer str body = do emit (prints str); deferred body log_end

-- ConnectOracleDatabase
unfoldable pub connect_oracle_database : Driver → Bytes → List OracleDatabaseOption → Act Event ℕ
connect_oracle_database driver dsn opts = do
  db ← ask opened
  emit (opens dsn)
  err ← ask driver.open_error
  must (codes "Oracle Connection: ") err
  emit (pings db)
  err' ← ask driver.ping_error
  must (codes "Oracle Ping: ") err'
  configure opts db
  return db

-- defaultOptions
unfoldable pub default_options : OracleDatabaseOption
default_options =
    set_max_idle_conns 5
    ∷ set_max_open_conns 100
    ∷ set_conn_max_lifetime (5 * 60)
    ∷ set_conn_max_idle_time 5
    ∷ []

-- `if opts == nil`: the one default option.
unfoldable pub or_default_options : Option (List OracleDatabaseOption) → List OracleDatabaseOption
or_default_options none = default_options ∷ []
or_default_options (some opts) = opts

-- ReadDB and WriteDB
unfoldable pub read_db : OracleDbInstance → ℕ
read_db s = s.read

unfoldable pub write_db : OracleDbInstance → ℕ
write_db s = s.write

unfoldable pub connect_both :
    Driver → Bytes → Bytes → List OracleDatabaseOption → Act Event OracleDbInstance
connect_both driver [] write_dsn opts = do
  db ← connect_oracle_database driver write_dsn opts
  return (record { read = db; write = db })
connect_both driver (c ∷ read_dsn) write_dsn opts = do
  read ← connect_oracle_database driver (c ∷ read_dsn) opts
  write ← connect_oracle_database driver write_dsn opts
  return (record { read = read; write = write })

-- InitOracleDatabase; `none` are options that are nil.
unfoldable pub init_oracle_database :
    Driver
    → (read_dsn write_dsn : Bytes) → Option (List OracleDatabaseOption)
    → Act Event OracleDbInstance
init_oracle_database driver read_dsn write_dsn opts =
    log_with_defer (codes "Load OracleDB connection...")
      (connect_both driver read_dsn write_dsn (or_default_options opts))

-- Health: the answers of Ping for the two pools.
unfoldable pub health : Driver → OracleDbInstance → Act Event (List (Bytes × Option Error))
health driver s = do
  emit (pings s.read)
  err ← ask driver.ping_error
  emit (pings s.write)
  err' ← ask driver.ping_error
  return ((codes "oracle_read", err) ∷ (codes "oracle_write", err') ∷ [])

unfoldable pub close_write : Driver → OracleDbInstance → Option Error → Act Event (Option Error)
close_write driver s (some err) = return (some err)
close_write driver s none = do emit (closes s.write); ask driver.close_error

-- Disconnect
unfoldable pub disconnect : Driver → OracleDbInstance → Act Event (Option Error)
disconnect driver s =
    log_with_defer (codes "oracledb: disconnect...")
      (do emit (closes s.read); err ← ask driver.close_error; close_write driver s err)
