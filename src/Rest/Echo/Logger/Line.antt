-- ===== src/Rest/Echo/Logger/Line.antt =====
-- The line of EchoLoggerMiddleware, read as JSON.
use candi_plugin.Base.{
  ◌≡◌, refl, sym, ap, ◌∙◌, Bool, true, false, List, [], ◌∷◌, ◌++◌, Option, none, some, arith, All,
  nat_eq, if◌then◌else◌,
}
use mathlib.Core.List.{append_assoc, append-nil}
use candi_plugin.Go.Text.{Bytes, codes}
use candi_plugin.Go.Outcome.{Outcome, ok}
use candi_plugin.Candi.{Error}
use candi_plugin.Rest.Echo.Logger.{
  Colors, Seen, Event, next, error_call, copy, or_if_empty, status_color, error_color, head_pieces,
  tail_pieces, write_all, log_line, report, write_line, echo_logger_middleware,
}

-- The strings of a JSON text without a backslash, in order: `in_string` has read a part of one.
mutual
  pub strings : Bytes → List Bytes
  strings [] = []
  strings (c ∷ s) = if nat_eq c b'"' then in_string [] s else strings s

  pub in_string : Bytes → Bytes → List Bytes
  in_string part [] = []
  in_string part (c ∷ s) = if nat_eq c b'"' then part ∷ strings s else in_string (part ++ c ∷ []) s

-- A text without a quotation mark, and without the backslash, whose code is 92.
abbrev pub IsBare : Bytes → Type 0
IsBare = All (λ c. (nat_eq c b'"' ≡ false) × (nat_eq c 92 ≡ false))

-- What the middleware reads has no quotation mark and no backslash.
pub record BareSeen (seen : Seen) : Type 0 where
  pub time : IsBare seen.time
  pub request_id : IsBare seen.request_id
  pub response_id : IsBare seen.response_id
  pub remote_ip : IsBare seen.remote_ip
  pub host : IsBare seen.host
  pub method : IsBare seen.method
  pub uri : IsBare seen.uri
  pub user_agent : IsBare seen.user_agent
  pub latency : IsBare seen.latency
  pub latency_human : IsBare seen.latency_human
  pub content_length : IsBare seen.content_length
  pub size : IsBare seen.size

strings-bare : (s : Bytes) → IsBare s → (rest : Bytes) → strings (s ++ rest) ≡ strings rest
unfolding strings
strings-bare [] h rest = refl
strings-bare (c ∷ s) h rest = rw (h.0.0) (strings-bare s h.1 rest)

in_string-bare :
    (s : Bytes)
    → IsBare s
    → (part rest : Bytes) → in_string part (s ++ rest) ≡ in_string (part ++ s) rest
unfolding in_string
in_string-bare [] h part rest = ap (λ p. in_string p rest) (sym (append-nil part))
in_string-bare (c ∷ s) h part rest =
    rw (h.0.0) (in_string-bare s h.1 (part ++ c ∷ []) rest)
    ∙ ap (λ p. in_string p rest) (append_assoc part (c ∷ []) s)

or_if_empty-IsBare : (s d : Bytes) → IsBare s → IsBare d → IsBare (or_if_empty s d)
unfolding or_if_empty
or_if_empty-IsBare [] d h k = k
or_if_empty-IsBare (c ∷ s) d h k = h

-- The strings of the line, for values without a quotation mark or a backslash: the keys in order, and behind those of
-- them whose value stands between quotation marks, that value. The values of status, latency, bytes_in
-- and bytes_out stand outside of strings.
pub log_line-strings :
    (colors : Colors) (seen : Seen) (err : Option Error)
    → BareSeen seen
    → IsBare (status_color colors seen.status)
    → IsBare (error_color colors err)
    → strings (log_line colors seen err)
      ≡ codes "time"
        ∷ seen.time
        ∷ codes "id"
        ∷ or_if_empty seen.request_id seen.response_id
        ∷ codes "remote_ip"
        ∷ seen.remote_ip
        ∷ codes "host"
        ∷ seen.host
        ∷ codes "method"
        ∷ seen.method
        ∷ codes "uri"
        ∷ seen.uri
        ∷ codes "user_agent"
        ∷ seen.user_agent
        ∷ codes "status"
        ∷ codes "error"
        ∷ error_color colors err
        ∷ codes "latency"
        ∷ codes "latency_human"
        ∷ seen.latency_human
        ∷ codes "bytes_in"
        ∷ codes "bytes_out"
        ∷ []
unfolding strings log_line write_all head_pieces tail_pieces
log_line-strings colors seen err b s e = simp (
  in_string-bare seen.time b.time,
  in_string-bare (or_if_empty seen.request_id seen.response_id)
      (or_if_empty-IsBare seen.request_id seen.response_id b.request_id b.response_id),
  in_string-bare seen.remote_ip b.remote_ip,
  in_string-bare seen.host b.host,
  in_string-bare seen.method b.method,
  in_string-bare seen.uri b.uri,
  in_string-bare seen.user_agent b.user_agent,
  strings-bare (status_color colors seen.status) s,
  in_string-bare (error_color colors err) e,
  strings-bare seen.latency b.latency,
  in_string-bare seen.latency_human b.latency_human,
  strings-bare (or_if_empty seen.content_length (codes "0"))
      (or_if_empty-IsBare seen.content_length (codes "0") b.content_length ((refl, refl), tt)),
  strings-bare seen.size b.size,
)

abbrev pub reported : Option Error → List Event
reported none = []
reported (some err) = error_call err ∷ []

abbrev pub copied : Bool → Bytes → List Event
copied false line = []
copied true line = copy line ∷ []

-- A next handler that returns is called once; its error goes to the context's Error and no further, for
-- the middleware returns none; and one line is written if the middleware is active, none if not.
pub echo_logger_middleware-events :
    (is_active : Bool) (colors : Colors) (seen : Seen)
    (handler : List Event → Outcome (Option Error)) (err : Option Error) (log : List Event)
    → handler (next ∷ log) ≡ ok err
    → echo_logger_middleware is_active colors seen handler log
      ≡ (ok none, copied is_active (log_line colors seen err) ++ (reported err ++ next ∷ log))
unfolding echo_logger_middleware report write_line
echo_logger_middleware-events is_active colors seen handler err log e = ground (arith, e)
