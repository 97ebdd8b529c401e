-- ===== src/Arango.antt =====
-- arangodb-adapter/: taking the addresses apart, connecting to the read and the write database. The
-- driver is github.com/arangodb/go-driver's, and its answers are arguments; so are those of url.Parse.
mod Tests
use candi_plugin.Base.{
  ℕ, ◌+◌, ◌≡◌, refl, List, [], ◌∷◌, ◌++◌, ◌⊎◌, inl, inr, Option, none, some, arith,
}
use candi_plugin.Go.Text.{Bytes, codes, trim_slash}
use candi_plugin.Go.Outcome.{Outcome, ok, panics}
use candi_plugin.Go.Act.{Act, ◌>>=◌, ◌>>◌, return, emit, ask, panic, after}
use candi_plugin.Candi.{Error}

-- A url.URL: what its fields, Username and Password answer; both are empty without user information.
pub record Url : Type 0 where
  pub scheme : Bytes
  pub host : Bytes
  pub username : Bytes
  pub password : Bytes
  pub path : Bytes

-- url.Parse: an error, or the address.
pub data Parsed : Type 0 where
  refused : Error → Parsed
  parsed : Url → Parsed

-- ArangoDBEnv
pub record ArangoDbEnv : Type 0 where
  pub write_host : Bytes
  pub read_host : Bytes
  pub write_user : Bytes
  pub read_user : Bytes
  pub write_password : Bytes
  pub read_password : Bytes
  pub read_database : Bytes
  pub write_database : Bytes

unfoldable pub host_of : Url → Bytes
host_of u = u.scheme ++ (codes "://" ++ u.host)

unfoldable pub set_read : Url → ArangoDbEnv → ArangoDbEnv
set_read u env = record env {
  read_host = host_of u;
  read_user = u.username;
  read_password = u.password;
  read_database = trim_slash u.path;
}

unfoldable pub set_write : Url → ArangoDbEnv → ArangoDbEnv
set_write u env = record env {
  write_host = host_of u;
  write_user = u.username;
  write_password = u.password;
  write_database = trim_slash u.path;
}

-- A step of parseArangoEnv on the package's variable arangoDBEnv: a panic leaves it as it is.
unfoldable pub set_parsed :
    (Url → ArangoDbEnv → ArangoDbEnv) → Parsed → ArangoDbEnv → Outcome (Unit {0}) × ArangoDbEnv
set_parsed set (refused err) env = (panics err, env)
set_parsed set (parsed u) env = (ok tt, set u env)

-- return arangoDBEnv
unfoldable pub answer_env : Outcome (Unit {0}) × ArangoDbEnv → Outcome ArangoDbEnv × ArangoDbEnv
answer_env (ok u, env) = (ok env, env)
answer_env (panics v, env) = (panics v, env)

unfoldable pub parse_write :
    Parsed → Outcome (Unit {0}) × ArangoDbEnv → Outcome ArangoDbEnv × ArangoDbEnv
parse_write p (panics v, env) = (panics v, env)
parse_write p (ok u, env) = answer_env (set_parsed set_write p env)

-- parseArangoEnv: what it returns, and the variable behind it.
unfoldable pub parse_arango_env :
    (Bytes → Parsed)
    → (read_dsn write_dsn : Bytes) → ArangoDbEnv
    → Outcome ArangoDbEnv × ArangoDbEnv
parse_arango_env url_parse read_dsn write_dsn env =
    parse_write (url_parse write_dsn) (set_parsed set_read (url_parse read_dsn) env)

-- What is done to the driver: a connection, a client, a database. A database is known by how many were
-- asked for before it.
pub data Event : Type 0 where
  new_connection : (endpoint : Bytes) → Event
  new_client : (user password : Bytes) → Event
  database : (name : Bytes) → Event

abbrev pub databases : List Event → ℕ
databases [] = 0
databases (new_connection endpoint ∷ log) = databases log
databases (new_client user password ∷ log) = databases log
databases (database name ∷ log) = 1 + databases log

pub record Driver : Type 0 where
  pub connection_error : List Event → Option Error
  pub client_error : List Event → Option Error
  pub database_error : List Event → Option Error

unfoldable pub must : Bytes → Option Error → Act Event (Unit {0})
must what none = return tt
must what (some err) = panic (what ++ err)

-- ConnectArangoDB
unfoldable pub connect_arango_db : Driver → (host db_name user password : Bytes) → Act Event ℕ
connect_arango_db driver host db_name user password = do
  emit (new_connection host)
  err ← ask driver.connection_error
  must (codes "arangodb error connect: ") err
  emit (new_client user password)
  err' ← ask driver.client_error
  must [] err'
  db ← ask databases
  emit (database db_name)
  err'' ← ask driver.database_error
  must [] err''
  return db

-- arangoInstance
pub record ArangoInstance : Type 0 where
  pub read : ℕ
  pub write : ℕ

-- ReadDB and WriteDB
abbrev pub read_db : ArangoInstance → ℕ
read_db a = a.read

abbrev pub write_db : ArangoInstance → ℕ
write_db a = a.write

-- Health, by the connection and its error.
unfoldable pub health : ArangoInstance → List (Bytes × Option Error)
health a = (codes "arango_read", none) ∷ (codes "arango_write", none) ∷ []

-- Disconnect does nothing to the driver.
unfoldable pub disconnect : ArangoInstance → Act Event (Option Error)
disconnect m = return none

unfoldable pub connect_both : Driver → Outcome ArangoDbEnv → Act Event ArangoInstance
connect_both driver (panics v) = panic v
connect_both driver (ok env) = do
  read ← connect_arango_db driver env.read_host env.read_database env.read_user env.read_password
  write ←
      connect_arango_db driver env.write_host env.write_database env.write_user env.write_password
  return (record { read = read; write = write })

-- InitArangoDB, and the variable arangoDBEnv behind it. Its deferred function hands a panic on.
unfoldable pub init_arango_db :
    (Bytes → Parsed)
    → Driver
    → (read_dsn write_dsn : Bytes) → ArangoDbEnv
    → (List Event → Outcome ArangoInstance × List Event) × ArangoDbEnv
init_arango_db url_parse driver read_dsn write_dsn env =
    let r = parse_arango_env url_parse read_dsn write_dsn env in (connect_both driver r.0, r.1)

-- The acts of a connection for an address.
abbrev pub connects : Url → List Event → List Event
connects u log =
    database (trim_slash u.path)
    ∷ new_client u.username u.password
    ∷ new_connection (host_of u)
    ∷ log

connect_arango_db-ok :
    (driver : Driver) (host db_name user password : Bytes) (log : List Event)
    → ((l : List Event) → driver.connection_error l ≡ none)
    → ((l : List Event) → driver.client_error l ≡ none)
    → ((l : List Event) → driver.database_error l ≡ none)
    → connect_arango_db driver host db_name user password log ≡ (
      ok (databases log),
      database db_name ∷ new_client user password ∷ new_connection host ∷ log,
    )
unfolding connect_arango_db must
connect_arango_db-ok driver host db_name user password log a b c = rw (a, b, c) refl

-- InitArangoDB where both addresses parse and the driver fails nowhere: the read database is opened at
-- the read address and then the write database at the write address, each with the user, the password
-- and the name of its own address, whatever an earlier call left in the package's variable, and the
-- two databases are not the same.
pub init_arango_db-opens :
    (url_parse : Bytes → Parsed) (driver : Driver) (read_dsn write_dsn : Bytes) (env : ArangoDbEnv)
    (r w : Url) (log : List Event)
    → url_parse read_dsn ≡ parsed r
    → url_parse write_dsn ≡ parsed w
    → ((l : List Event) → driver.connection_error l ≡ none)
    → ((l : List Event) → driver.client_error l ≡ none)
    → ((l : List Event) → driver.database_error l ≡ none)
    → (init_arango_db url_parse driver read_dsn write_dsn env).0 log ≡ (
      ok (record { read = databases log; write = 1 + databases log }),
      connects w (connects r log),
    )
unfolding init_arango_db parse_arango_env parse_write answer_env set_parsed set_read set_write
    connect_both
init_arango_db-opens url_parse driver read_dsn write_dsn env r w log e f a b c =
    rw
      (
        e,
        f,
        connect_arango_db-ok driver (host_of r) (trim_slash r.path) r.username r.password log a b c,
        connect_arango_db-ok driver (host_of w) (trim_slash w.path) w.username w.password
            (connects r log) a b c,
      )
      refl

-- InitArangoDB where an address does not parse: it panics with the error of the read address, or else
-- of the write address, before anything is connected.
pub init_arango_db-refused :
    (url_parse : Bytes → Parsed) (driver : Driver) (read_dsn write_dsn : Bytes) (env : ArangoDbEnv)
    (err : Error) (log : List Event)
    → (url_parse read_dsn ≡ refused err)
      ⊎ ((r : Url) × (url_parse read_dsn ≡ parsed r) × (url_parse write_dsn ≡ refused err))
    → (init_arango_db url_parse driver read_dsn write_dsn env).0 log ≡ (panics err, log)
unfolding init_arango_db parse_arango_env parse_write answer_env set_parsed connect_both
init_arango_db-refused url_parse driver read_dsn write_dsn env err log (inl e) = rw (e) refl
init_arango_db-refused url_parse driver read_dsn write_dsn env err log (inr (r, e, f)) =
    rw (e, f) refl
