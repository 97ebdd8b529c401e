-- ===== src/Sentry.antt =====
-- tracer/sentrytracer/sentry_tracer.go: the span of the Sentry tracer, as what its methods write. The
-- span itself is the Sentry SDK's.
mod Tests
use candi_plugin.Base.{
  ℕ, ◌+◌, ◌≡◌, ◌≢◌, refl, sym, ap, ◌∙◌, List, [], ◌∷◌, Option, none, some, All, arith, bytes_eq,
  ◌==◌, ==_iff, if◌then◌else◌,
}
use candi_plugin.Go.Text.{Bytes, codes}
use candi_plugin.Go.Outcome.{Outcome, ok, panics}
use candi_plugin.Go.Map.{GoMap, lookup, insert, store, lookup-insert}
use candi_plugin.Candi.{Error, Attributes}

pub data SpanStatus : Type 0 where
  undefined : SpanStatus
  span_status_ok : SpanStatus
  span_status_internal_error : SpanStatus

-- A value that is logged: a []byte, or another, by how it is printed.
pub data LogValue : Type 0 where
  bytes : Bytes → LogValue
  printed : Bytes → LogValue

-- sentryImpl with its span: the span's status, tags and data, and how often it was finished.
pub record SentryImpl : Type 0 where
  pub trace_id : Bytes
  pub status : SpanStatus
  pub span_tags : Attributes
  pub span_data : GoMap LogValue
  pub span_finishes : ℕ
  pub tags : GoMap Bytes

-- StartSpan and StartRootSpan, by the identifier of the span that sentry.StartSpan returns: neither
-- reads a header.
unfoldable pub start_span : (trace_id : Bytes) → (operation_name : Bytes) → SentryImpl
start_span trace_id operation_name = record {
  trace_id = trace_id;
  status = undefined;
  span_tags = [];
  span_data = none;
  span_finishes = 0;
  tags = none;
}

unfoldable pub start_root_span : (trace_id operation_name : Bytes) → Attributes → SentryImpl
start_root_span trace_id operation_name header = start_span trace_id operation_name

unfoldable pub get_trace_id : SentryImpl → Bytes
get_trace_id s = []

unfoldable pub get_trace_url : (tracer_host : Bytes) → SentryImpl → Bytes
get_trace_url tracer_host s = tracer_host

-- Tags: the map, made on the first call, which the caller shares with the span.
unfoldable pub or_made : {V : Type 0} → GoMap V → List (Bytes × V)
or_made none = []
or_made (some m) = m

unfoldable pub get_tags : SentryImpl → Attributes × SentryImpl
get_tags s = (or_made s.tags, record s { tags = some (or_made s.tags) })

-- A caller's write through the map that Tags returned.
unfoldable pub write_tag : Bytes → Bytes → SentryImpl → SentryImpl
write_tag key value s = record s { tags = some (insert key value (get_tags s).0) }

-- SetTag; a value is what candihelper.ToBytes makes of it.
unfoldable pub set_tag : Bytes → Bytes → SentryImpl → SentryImpl
set_tag key value s = record s { span_tags = insert key value s.span_tags }

unfoldable pub set_error : Option Error → SentryImpl → SentryImpl
set_error none s = record s { status = span_status_ok }
set_error (some err) s =
    set_tag (codes "error") err (record s { status = span_status_internal_error })

-- json.Unmarshal(v, &value): the value stays where v is no JSON.
unfoldable pub decoded : (Bytes → Option LogValue) → LogValue → LogValue
decoded unmarshal (printed v) = printed v
decoded unmarshal (bytes v) = elim (unmarshal v) [ none ↦ bytes v | some value ↦ value ]

-- Log
unfoldable pub log : (Bytes → Option LogValue) → Bytes → LogValue → SentryImpl → SentryImpl
log unmarshal key value s = record s {
  span_data = some (insert key (decoded unmarshal value) (or_made s.span_data));
}

-- InjectRequestHeader: it writes to the map that it is given.
unfoldable pub inject_request_header : SentryImpl → GoMap Bytes → Outcome (GoMap Bytes)
inject_request_header s header = store (codes "sentry-trace") s.trace_id header

unfoldable pub copy_tags : Attributes → SentryImpl → SentryImpl
copy_tags [] s = s
copy_tags (tag ∷ tags) s = copy_tags tags (set_tag tag.0 tag.1 s)

-- Finish, with any options: it reads none of them.
unfoldable pub finish : {Opt : Type 0} → List Opt → SentryImpl → SentryImpl
finish opts s =
    let s' = copy_tags (or_made s.tags) s in record s' { span_finishes = s'.span_finishes + 1 }

-- Each key of a map is there once.
abbrev pub HasOneOfEach : Attributes → Type 0
HasOneOfEach [] = Unit
HasOneOfEach (entry ∷ rest) = All (λ other. other.0 ≢ entry.0) rest × HasOneOfEach rest

abbrev pub or_else : Option Bytes → Option Bytes → Option Bytes
or_else none other = other
or_else (some v) other = some v

lookup-fresh : (key : Bytes) (m : Attributes) → All (λ other. other.0 ≢ key) m → lookup key m ≡ none
unfolding lookup
lookup-fresh key [] h = refl
lookup-fresh key (entry ∷ m) h = ground (arith, ==_iff key entry.0, h.0, lookup-fresh key m h.1)

copy_tags-lookup :
    (key : Bytes) (tags : Attributes) (s : SentryImpl)
    → HasOneOfEach tags
    → (lookup key (copy_tags tags s).span_tags ≡ or_else (lookup key tags) (lookup key s.span_tags))
      × ((copy_tags tags s).span_finishes ≡ s.span_finishes)
unfolding copy_tags set_tag lookup
copy_tags-lookup key [] s h = (refl, refl)
copy_tags-lookup key (tag ∷ tags) s h = ground (
  arith,
  copy_tags-lookup key tags (set_tag tag.0 tag.1 s) h.1,
  lookup-insert tag.0 key tag.1 s.span_tags,
  ==_iff key tag.0,
  lookup-fresh tag.0 tags h.0,
)

-- Finish, whatever its options are, finishes the span once, and leaves on it each tag that was written
-- through Tags, in the place of one that SetTag set, and each other tag as SetTag set it.
pub finish-tags :
    {Opt : Type 0} (opts : List Opt) (s : SentryImpl) (key : Bytes)
    → HasOneOfEach (or_made s.tags)
    → (lookup key (finish opts s).span_tags
        ≡ or_else (lookup key (or_made s.tags)) (lookup key s.span_tags))
      × ((finish opts s).span_finishes ≡ 1 + s.span_finishes)
unfolding finish
finish-tags opts s key h = ground (arith, copy_tags-lookup key (or_made s.tags) s h)
