-- ===== src/Mqtt/Router/Paths.antt =====
-- The loops of addRoute and match walk a path by nextPath: they see its levels, in order, and the
-- length of the path is enough fuel.
use candi_plugin.Base.{
  ℕ, zero, suc, ◌≤◌, ◌≡◌, refl, sym, ap, ◌∙◌, List, [], ◌∷◌, ◌++◌, Option-cases, inl, inr, arith,
  nat_eq, length, if◌then◌else◌,
}
use mathlib.Core.Path.{fun_ext}
use candi_plugin.Go.Outcome.{ok, ◌>>=◌}
use candi_plugin.Go.Text.{Bytes, index, trim_slash}
use candi_plugin.Candi.{WorkerHandler, Attributes}
use candi_plugin.Mqtt.Router.{
  Node, next_route, next_path, add_loop, match_loop, add_route, match, insert_child, new_child,
  normal_piece,
}
use candi_plugin.Mqtt.Router.Segments.{
  levels, segment, segments, add_segments, walk, node_of, filter_level,
}

next_path-cons :
    (c : ℕ) (s : Bytes)
    → next_path (c ∷ s)
      ≡ (if nat_eq c b'/' then ([], s) else (c ∷ (next_path s).0, (next_path s).1))
unfolding next_path index
next_path-cons c s = ground arith

next_path-nil : next_path [] ≡ ([], [])
unfolding next_path index
next_path-nil = refl

levels-next_path :
    (c : ℕ) (s : Bytes) → levels (c ∷ s) ≡ (next_path (c ∷ s)).0 ∷ levels (next_path (c ∷ s)).1
unfolding levels
levels-next_path c [] = ground (arith, next_path-cons c [], next_path-nil)
levels-next_path c (d ∷ s) = ground (arith, next_path-cons c (d ∷ s), levels-next_path d s)

length-next_path : (c : ℕ) (s : Bytes) → length (next_path (c ∷ s)).1 ≤ length s
length-next_path c [] = ground (arith, next_path-cons c [], next_path-nil)
length-next_path c (d ∷ s) = ground (arith, next_path-cons c (d ∷ s), length-next_path d s)

match_loop-walk :
    (fuel : ℕ) (path : Bytes) (n : Node) (params : Attributes)
    → length path ≤ fuel
    → match_loop fuel path n params ≡ walk (levels path) n params
unfolding match_loop levels walk
match_loop-walk zero [] n params h = refl
match_loop-walk (suc fuel) [] n params h = refl
match_loop-walk zero (c ∷ s) n params h = absurd (omega arith)
match_loop-walk (suc fuel) (c ∷ s) n params h =
    let short = length-next_path c s in
    rw (levels-next_path c s) (elim (Option-cases (next_route n (next_path (c ∷ s)).0 params)) [
      | inl e ↦ rw (e, match_loop, walk)
      | inr (r, e) ↦
          rw (e, match_loop, walk)
            (match_loop-walk fuel (next_path (c ∷ s)).1 r.0 r.1 (omega arith))
    ])

-- The node of a segment, and the piece of the filter, are those that addRoute computes.
new_child-segment : (t : Bytes) → new_child t ≡ node_of (segment t)
unfolding new_child segment
new_child-segment t = ground arith

normal_piece-segment : (t : Bytes) → normal_piece t ≡ filter_level (segment t) ++ b'/' ∷ []
unfolding normal_piece segment
normal_piece-segment t = ground arith

add_loop-cons :
    (fuel c : ℕ) (s : Bytes) (h : WorkerHandler) (norm : Bytes) (n : Node)
    → add_loop (suc fuel) (c ∷ s) h norm n
      ≡ insert_child
          (add_loop fuel (next_path (c ∷ s)).1 h (norm ++ normal_piece (next_path (c ∷ s)).0))
          n
          (new_child (next_path (c ∷ s)).0)
unfolding add_loop
add_loop-cons fuel c s h norm n = refl

add_segments-levels :
    (t : Bytes) (ts : List Bytes) (h : WorkerHandler) (norm : Bytes) (n : Node)
    → add_segments (segments (t ∷ ts)) h norm n
      ≡ insert_child (add_segments (segments ts) h (norm ++ normal_piece t)) n (new_child t)
unfolding add_segments
add_segments-levels t ts h norm n = rw (new_child-segment t, normal_piece-segment t)

add_loop-nil :
    (fuel : ℕ) (h : WorkerHandler) (norm : Bytes) (n : Node)
    → add_loop fuel [] h norm n ≡ add_segments [] h norm n
unfolding add_loop add_segments
add_loop-nil zero h norm n = refl
add_loop-nil (suc fuel) h norm n = refl

add_loop-add_segments :
    (fuel : ℕ) (path : Bytes) (h : WorkerHandler) (norm : Bytes) (n : Node)
    → length path ≤ fuel
    → add_loop fuel path h norm n ≡ add_segments (segments (levels path)) h norm n
unfolding levels
add_loop-add_segments zero [] h norm n le = add_loop-nil 0 h norm n
add_loop-add_segments (suc fuel) [] h norm n le = add_loop-nil (suc fuel) h norm n
add_loop-add_segments zero (c ∷ s) h norm n le = absurd (omega arith)
add_loop-add_segments (suc fuel) (c ∷ s) h norm n le =
    let step = next_path (c ∷ s) in
    let short = length-next_path c s in
    let norm' = norm ++ normal_piece step.0 in
    let ih : add_loop fuel step.1 h norm' ≡ add_segments (segments (levels step.1)) h norm' =
      fun_ext (λ m. add_loop-add_segments fuel step.1 h norm' m (omega arith)) in
    add_loop-cons fuel c s h norm n
    ∙ ap (λ k. insert_child k n (new_child step.0)) ih
    ∙ sym (rw (levels-next_path c s) (add_segments-levels step.0 (levels step.1) h norm n))

-- match walks the levels of the trimmed topic.
pub match_lem : (path : Bytes) (n : Node) → match path n ≡ walk (levels (trim_slash path)) n []
unfolding match
match_lem path n = match_loop-walk (length (trim_slash path)) (trim_slash path) n [] (omega arith)

-- addRoute adds the segments of the trimmed pattern, and trims the filter that it has built.
pub add_route_lem :
    (path : Bytes) (h : WorkerHandler) (n : Node)
    → add_route path h n ≡ (
        add_segments (segments (levels (trim_slash path))) h [] n >>= λ r. ok (r.0, trim_slash r.1))
unfolding add_route
add_route_lem path h n =
    rw (add_loop-add_segments (length (trim_slash path)) (trim_slash path) h [] n (omega arith))
