-- ===== src/Arango/Tests.antt =====
-- Tests of the ArangoDB adapter.
use candi_plugin.Base.{◌≡◌, refl, [], none, bytes_eq, ◌==◌, if◌then◌else◌}
use candi_plugin.Go.Text.{Bytes, codes}
use candi_plugin.Go.Outcome.{ok}
use candi_plugin.Arango.{
  Url, Parsed, parsed, refused, ArangoDbEnv, Driver, init_arango_db, connects, init_arango_db-opens,
}

-- http://u:p@one/app/ and http://w:q@two/log
abbrev read_url : Url
read_url = record {
  scheme = codes "http";
  host = codes "one";
  username = codes "u";
  password = codes "p";
  path = codes "/app/";
}

abbrev write_url : Url
write_url = record {
  scheme = codes "http";
  host = codes "two";
  username = codes "w";
  password = codes "q";
  path = codes "/log";
}

abbrev url_parse : Bytes → Parsed
url_parse dsn =
    if dsn == codes "read"
    then parsed read_url
    else if dsn == codes "write"
    then parsed write_url
    else refused (codes "bad")

abbrev driver : Driver
driver = record {
  connection_error = λ log. none;
  client_error = λ log. none;
  database_error = λ log. none;
}

abbrev unset : ArangoDbEnv
unset = record {
  write_host = [];
  read_host = [];
  write_user = [];
  read_user = codes "old";
  write_password = [];
  read_password = [];
  read_database = [];
  write_database = [];
}

init_arango_db-opens_example :
    (init_arango_db url_parse driver (codes "read") (codes "write") unset).0 []
    ≡ (ok (record { read = 0; write = 1 }), connects write_url (connects read_url []))
init_arango_db-opens_example =
    init_arango_db-opens url_parse driver (codes "read") (codes "write") unset read_url write_url []
      refl refl (λ l. refl) (λ l. refl) (λ l. refl)
