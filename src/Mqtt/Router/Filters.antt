-- ===== src/Mqtt/Router/Filters.antt =====
-- The topic filter that addRoute of mqtt-broker/router.go returns, to subscribe to.
use candi_plugin.Base.{
  ℕ, ◌≡◌, refl, sym, ap, ◌∙◌, ◌≢◌, Bool, true, false, List, [], ◌∷◌, ◌++◌, arith, All, nat_eq,
  Bool-cases, Option-cases, ◌==◌, bytes_eq, inl, inr,
}
use mathlib.Core.List.{append_assoc, append-nil}
use candi_plugin.Go.Outcome.{ok, ok-cases, ◌>>=◌}
use candi_plugin.Go.Text.{Bytes, join, trim_left, trim_right, trim_slash}
use candi_plugin.Go.Trim.{trim_right-cons, trim_right-append}
use candi_plugin.Candi.{WorkerHandler}
use candi_plugin.Mqtt.Router.{
  Node, node, Child, present, absent, node_param_name, node_is_param, node_path, is_param_token,
  find_child, replace_child, append_child, add_route, insert_child, insert_new, set_handler,
  Continue,
}
use candi_plugin.Mqtt.Router.Segments.{
  Segment, lit, param, node_of, filter_level, filter_levels, add_segments, levels, segment,
  segments, IsPlain, cons_head,
}
use candi_plugin.Mqtt.Router.Paths.{add_route_lem}

abbrev pub is_slash : ℕ → Bool
is_slash c = nat_eq c b'/'

abbrev pub NoSlash : Bytes → Type 0
NoSlash = All (λ c. is_slash c ≡ false)

-- A level of a filter as MQTT has it: some bytes, no slash among them.
abbrev pub IsLevel : Bytes → Type 0
IsLevel t = (t ≢ []) × NoSlash t

-- So of a static segment.
abbrev NoSlashSegment : Segment → Type 0
NoSlashSegment (lit t) = NoSlash t
NoSlashSegment (param x) = Unit

segment-NoSlash : (t : Bytes) → NoSlash t → NoSlashSegment (segment t)
unfolding segment
segment-NoSlash t h = elim (Bool-cases (is_param_token t)) [ inl e ↦ rw e tt | inr e ↦ rw e h ]

cons_head-NoSlash :
    (c : ℕ) → is_slash c ≡ false → (ts : List Bytes) → All NoSlash ts → All NoSlash (cons_head c ts)
cons_head-NoSlash c e [] h = ((e, tt), tt)
cons_head-NoSlash c e (t ∷ ts) h = ((e, h.0), h.1)

-- The levels, each with a slash behind it.
abbrev slashed : List Bytes → Bytes
slashed [] = []
slashed (t ∷ ts) = t ++ b'/' ∷ slashed ts

-- A trailing slash goes.
trim_right-last : (t : Bytes) → t ≢ [] → NoSlash t → trim_right is_slash (t ++ b'/' ∷ []) ≡ t
unfolding trim_right
trim_right-last [] ne h = absurd (ne refl)
trim_right-last (c ∷ []) ne h = ground arith
trim_right-last (c ∷ d ∷ t) ne h = ground (arith, trim_right-last (d ∷ t) (λ e. cc) h.1)

join-ne-nil : (t : Bytes) (ts : List Bytes) → t ≢ [] → join b'/' (t ∷ ts) ≢ []
unfolding join
join-ne-nil t [] h = h
join-ne-nil [] (u ∷ us) h = absurd (h refl)
join-ne-nil (c ∷ t) (u ∷ us) h = λ e. cc

trim_right-slashed :
    (t : Bytes) (ts : List Bytes)
    → All IsLevel (t ∷ ts)
    → trim_right is_slash (slashed (t ∷ ts)) ≡ join b'/' (t ∷ ts)
unfolding join
trim_right-slashed t [] h = trim_right-last t h.0.0 h.0.1
trim_right-slashed t (u ∷ us) h =
    let ih = trim_right-slashed u us h.1 in
    let rest = slashed (u ∷ us) in
    let more : trim_right is_slash rest ≢ [] = λ e. join-ne-nil u us h.1.0.0 (sym ih ∙ e) in
    let behind = trim_right-cons is_slash b'/' rest more in
    trim_right-append is_slash t (b'/' ∷ rest) (λ e. cons-ne-nil (sym behind ∙ e))
    ∙ ap (◌++◌ t) (behind ∙ ap (◌∷◌ b'/') ih)
  where
    cons-ne-nil : {c : ℕ} {s : Bytes} → c ∷ s ≢ []
    cons-ne-nil e = cc

trim_left-level : (t s : Bytes) → IsLevel t → trim_left is_slash (t ++ s) ≡ t ++ s
unfolding trim_left
trim_left-level [] s h = absurd (h.0 refl)
trim_left-level (c ∷ t) s h = rw h.1.0

trim_slash-slashed : (ts : List Bytes) → All IsLevel ts → trim_slash (slashed ts) ≡ join b'/' ts
unfolding trim_slash join
trim_slash-slashed [] h = refl
trim_slash-slashed (t ∷ ts) h =
    ap (trim_right is_slash) (trim_left-level t (b'/' ∷ slashed ts) h.0) ∙ trim_right-slashed t ts h

-- What the loop of addRoute has built up when it ends.
module _ (k : Continue) (norm : Bytes)
    (keep : (m : Node) (r : Node × Bytes) → k m ≡ ok r → r.1 ≡ norm) where
  then-norm :
      (build : Node → Node) (m : Node) (r : Node × Bytes)
      → (k m >>= λ r. ok (build r.0, r.1)) ≡ ok r
      → r.1 ≡ norm
  then-norm build m r e =
      let (r', ran, built) = ok-cases (k m) _ e in let kept = keep m r' ran in ground arith

  insert_new-norm :
      (is_param : Bool) (child : Child) (n nn : Node) (r : Node × Bytes)
      → insert_new k is_param child n nn ≡ ok r
      → r.1 ≡ norm
  unfolding insert_new
  insert_new-norm true (present c) (node b x p cs ch h) nn r e =
      elim (Bool-cases (node_param_name c == node_param_name nn)) [
        | inl same ↦ then-norm (λ m. node b x p cs (present m) h) c r (rw same at e)
        | inr other ↦ absurd (ground arith)
      ]
  insert_new-norm true absent (node b x p cs ch h) nn r e =
      then-norm (λ m. node b x p cs (present m) h) nn r e
  insert_new-norm false child (node b x p cs ch h) nn r e =
      then-norm (λ m. node b x p (append_child cs m) ch h) nn r e

  insert_child-norm : (n nn : Node) (r : Node × Bytes) → insert_child k n nn ≡ ok r → r.1 ≡ norm
  unfolding insert_child
  insert_child-norm (node b x p cs ch h) nn r e =
      elim (Option-cases (find_child cs (node_path nn))) [
        | inl free ↦ insert_new-norm (node_is_param nn) ch _ nn r (rw (free, insert_child) at e)
        | inr (c, here) ↦
            then-norm (λ m. node b x p (replace_child cs (node_path nn) m) ch h) c r
              (rw (here, insert_child) at e)
      ]

add_segments-norm :
    (segs : List Segment) (h : WorkerHandler) (norm : Bytes) (n : Node) (r : Node × Bytes)
    → add_segments segs h norm n ≡ ok r
    → r.1 ≡ norm ++ slashed (filter_levels segs)
unfolding add_segments set_handler
add_segments-norm [] h norm (node b x p cs ch old) r e = ground (arith, append-nil norm)
add_segments-norm (s ∷ segs) h norm n r e =
    insert_child-norm (add_segments segs h norm') _ (λ m r'. add_segments-norm segs h norm' m r') n
      (node_of s) r e
    ∙ simp append_assoc
  where
    norm' : Bytes
    norm' = norm ++ (filter_level s ++ b'/' ∷ [])

filter_level-IsLevel : (s : Segment) → IsPlain s → NoSlashSegment s → IsLevel (filter_level s)
filter_level-IsLevel (lit t) p q = (p, q)
filter_level-IsLevel (param x) p q = ((λ e. cc), (refl, tt))

-- The levels of a path hold no slash.
levels-NoSlash : (s : Bytes) → All NoSlash (levels s)
unfolding levels
levels-NoSlash [] = tt
levels-NoSlash (c ∷ s) = elim (Bool-cases (is_slash c)) [
  | inl slash ↦ rw slash (tt, levels-NoSlash s)
  | inr other ↦ rw other (cons_head-NoSlash c other (levels s) (levels-NoSlash s))
]

filter_levels-IsLevel :
    (ts : List Bytes)
    → All IsPlain (segments ts)
    → All NoSlash ts
    → All IsLevel (filter_levels (segments ts))
filter_levels-IsLevel [] p q = tt
filter_levels-IsLevel (t ∷ ts) p q =
    (filter_level-IsLevel (segment t) p.0 (segment-NoSlash t q.0), filter_levels-IsLevel ts p.1 q.1)

-- Where addRoute succeeds on a pattern with no empty segment, the topic filter that it returns is
-- the pattern's segments with "+" for each parameter, joined by slashes.
pub add_route-filter :
    (path : Bytes) (h : WorkerHandler) (n n' : Node) (topic : Bytes)
    → All IsPlain (segments (levels (trim_slash path)))
    → add_route path h n ≡ ok (n', topic)
    → topic ≡ join b'/' (filter_levels (segments (levels (trim_slash path))))
add_route-filter path h n n' topic plain e =
    let ts = levels (trim_slash path) in
    let (r, ran, trimmed) =
      ok-cases (add_segments (segments ts) h [] n) _ (sym (add_route_lem path h n) ∙ e) in
    let norm = add_segments-norm (segments ts) h [] n r ran in
    let fits = filter_levels-IsLevel ts plain (levels-NoSlash (trim_slash path)) in
    let same : trim_slash r.1 ≡ topic = ground arith in
    sym same ∙ ap trim_slash norm ∙ trim_slash-slashed _ fits
