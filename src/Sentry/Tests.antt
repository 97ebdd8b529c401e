-- ===== src/Sentry/Tests.antt =====
-- Tests of the Sentry tracer.
use candi_plugin.Base.{ℕ, ◌≡◌, List, [], ◌∷◌, some, bytes_eq}
use candi_plugin.Go.Text.{codes}
use candi_plugin.Go.Map.{lookup, insert}
use candi_plugin.Sentry.{
  SentryImpl, start_span, set_tag, write_tag, get_tags, or_made, finish, finish-tags,
}

abbrev span : SentryImpl
span =
    write_tag (codes "id") (codes "7")
      (set_tag (codes "id") (codes "6") (start_span (codes "t") (codes "op")))

abbrev options : List ℕ
options = 1 ∷ 2 ∷ []

finish-tags_example :
    (lookup (codes "id") (finish options span).span_tags ≡ some (codes "7"))
    × ((finish options span).span_finishes ≡ 1)
unfolding write_tag get_tags or_made set_tag start_span insert lookup
finish-tags_example = finish-tags options span (codes "id") (tt, tt)
