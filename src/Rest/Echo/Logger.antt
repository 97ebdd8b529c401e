-- ===== src/Rest/Echo/Logger.antt =====
-- EchoLoggerMiddleware of echo-rest/middleware.go: what it does with a request, and the line it writes.
pub mod Line
use candi_plugin.Base.{
  ℕ, ◌+◌, ◌≡◌, refl, ap, ◌∙◌, Bool, true, false, not, List, [], ◌∷◌, ◌++◌, Option, none, some,
  arith, All, nat_eq, leb, if◌then◌else◌,
}
use candi_plugin.Go.Text.{Bytes, codes, itoa}
use candi_plugin.Go.Outcome.{Outcome, ok, panics}
use candi_plugin.Go.Act.{Act, ◌>>=◌, ◌>>◌, return, emit, call}
use candi_plugin.Candi.{Error}

-- The functions of candi's logger that colour what is printed.
pub record Colors : Type 0 where
  pub green_color : Bytes → Bytes
  pub cyan_color : Bytes → Bytes
  pub yellow_color : Bytes → Bytes
  pub red_color : Bytes → Bytes

-- What the middleware reads of the clock, the request and the response.
pub record Seen : Type 0 where
  pub time : Bytes
  pub request_id : Bytes
  pub response_id : Bytes
  pub remote_ip : Bytes
  pub host : Bytes
  pub method : Bytes
  pub uri : Bytes
  pub user_agent : Bytes
  pub status : ℕ
  pub latency : Bytes
  pub latency_human : Bytes
  pub content_length : Bytes
  pub size : Bytes

pub data Event : Type 0 where
  next : Event
  error_call : Error → Event
  copy : Bytes → Event

unfoldable pub or_if_empty : Bytes → Bytes → Bytes
or_if_empty [] d = d
or_if_empty (c ∷ s) d = c ∷ s

-- The colour of a status.
unfoldable pub status_color : Colors → ℕ → Bytes
status_color colors n =
    if leb 500 n
    then colors.red_color (itoa n)
    else if leb 400 n
    then colors.yellow_color (itoa n)
    else if leb 300 n
    then colors.cyan_color (itoa n)
    else colors.green_color (itoa n)

unfoldable pub error_color : Colors → Option Error → Bytes
error_color colors none = []
error_color colors (some err) = colors.red_color err

-- A piece of the line: what is written for a key, and its value.
abbrev pub Piece : Type 0
Piece = Bytes × Bytes

unfoldable pub head_pieces : Colors → Seen → Option Error → List Piece
head_pieces colors seen err_next =
    (codes "{\"time\":\"", seen.time)
    ∷ (codes "\",\"id\":\"", or_if_empty seen.request_id seen.response_id)
    ∷ (codes "\",\"remote_ip\":\"", seen.remote_ip)
    ∷ (codes "\",\"host\":\"", seen.host)
    ∷ (codes "\",\"method\":\"", seen.method)
    ∷ (codes "\",\"uri\":\"", seen.uri)
    ∷ (codes "\",\"user_agent\":\"", seen.user_agent)
    ∷ (codes "\",\"status\":", status_color colors seen.status)
    ∷ (codes ",\"error\":\"", error_color colors err_next)
    ∷ []

unfoldable pub tail_pieces : Seen → List Piece
tail_pieces seen =
    (codes "\",\"latency\":", seen.latency)
    ∷ (codes ",\"latency_human\":\"", seen.latency_human)
    ∷ (codes "\",\"bytes_in\":", or_if_empty seen.content_length (codes "0"))
    ∷ (codes ",\"bytes_out\":", seen.size)
    ∷ (codes "}\n", [])
    ∷ []

-- The buffer after the writes of the pieces, in order.
unfoldable pub write_all : List Piece → Bytes
write_all [] = []
write_all (p ∷ ps) = p.0 ++ (p.1 ++ write_all ps)

unfoldable pub log_line : Colors → Seen → Option Error → Bytes
log_line colors seen err_next = write_all (head_pieces colors seen err_next ++ tail_pieces seen)

unfoldable pub report : Option Error → Act Event (Unit {0})
report none = return tt
report (some err) = emit (error_call err)

unfoldable pub write_line : Bool → Bytes → Act Event (Unit {0})
write_line false line = return tt
write_line true line = emit (copy line)

-- EchoLoggerMiddleware around a next handler: the error that it returns.
unfoldable pub echo_logger_middleware :
    Bool → Colors → Seen → (List Event → Outcome (Option Error)) → Act Event (Option Error)
echo_logger_middleware is_active colors seen handler = do
  emit next
  err_next ← call handler
  report err_next
  write_line is_active (log_line colors seen err_next)
  return none
