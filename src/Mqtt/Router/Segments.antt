-- ===== src/Mqtt/Router/Segments.antt =====
-- What the router of mqtt-broker/router.go is about: patterns as lists of segments, topics as lists
-- of levels, and the tree as the map from patterns to handlers that it stands for.
use candi_plugin.Base.{
  ℕ, ◌≡◌, ◌≢◌, List, drop, [], ◌∷◌, ◌++◌, none, some, ◌==◌, bytes_eq, nat_eq, if◌then◌else◌,
}
use candi_plugin.Go.Text.{Bytes, codes, trim_space}
use candi_plugin.Go.Map.{insert}
use candi_plugin.Candi.{WorkerHandler, Attributes}
use candi_plugin.Mqtt.Router.{
  Node, node, Nodes, nil, cons, Child, absent, present, no_handler, find_child, node_path,
  node_param_name, node_handler, node_children, node_param_child, is_param_token, param_of,
  static_of, Continue, insert_child, set_handler, next_route,
}

pub data Segment : Type 0 where
  lit : Bytes → Segment
  param : Bytes → Segment

abbrev pub cons_head : ℕ → List Bytes → List Bytes
cons_head c [] = (c ∷ []) ∷ []
cons_head c (t ∷ ts) = (c ∷ t) ∷ ts

-- The levels of a path: a slash at its end begins no level.
unfoldable pub levels : Bytes → List Bytes
levels [] = []
levels (c ∷ s) = if nat_eq c b'/' then [] ∷ levels s else cons_head c (levels s)

unfoldable pub segment : Bytes → Segment
unfolding trim_space
segment token = if is_param_token token then param (trim_space (drop 1 token)) else lit token

abbrev pub segments : List Bytes → List Segment
segments [] = []
segments (t ∷ ts) = segment t ∷ segments ts

abbrev pub node_of : Segment → Node
node_of (lit token) = static_of token
node_of (param name) = param_of name

-- The level that an MQTT topic filter has for a segment.
abbrev pub filter_level : Segment → Bytes
filter_level (lit token) = token
filter_level (param name) = codes "+"

abbrev pub filter_levels : List Segment → List Bytes
filter_levels [] = []
filter_levels (s ∷ segs) = filter_level s ∷ filter_levels segs

-- The loop of addRoute, by segments.
unfoldable pub add_segments : List Segment → WorkerHandler → Bytes → Continue
add_segments [] h norm n = set_handler h norm n
add_segments (s ∷ segs) h norm n =
    insert_child (add_segments segs h (norm ++ (filter_level s ++ b'/' ∷ []))) n (node_of s)

-- The loop of match, by levels.
unfoldable pub walk : List Bytes → Node → Attributes → WorkerHandler × Attributes
walk [] route params = (node_handler route, params)
walk (t ∷ ts) route params = elim (next_route route t params) [
  | none ↦ (no_handler, params)
  | some (child, params') ↦ walk ts child params'
]

-- The handler that the tree holds for a pattern, the zero value if it holds none.
unfoldable pub handler_at : List Segment → Node → WorkerHandler
handler_at [] n = node_handler n
handler_at (lit t ∷ segs) n = elim (find_child (node_children n) t) [
  | some child ↦ handler_at segs child
  | none ↦ no_handler
]
handler_at (param x ∷ segs) n = elim (node_param_child n) [
  | present child ↦ if node_param_name child == x then handler_at segs child else no_handler
  | absent ↦ no_handler
]

-- A pattern fits the levels of a topic.
abbrev pub Matches : List Segment → List Bytes → Type 0
Matches [] [] = Unit
Matches [] (t ∷ ts) = ⊥
Matches (s ∷ segs) [] = ⊥
Matches (lit u ∷ segs) (t ∷ ts) = (u ≡ t) × Matches segs ts
Matches (param x ∷ segs) (t ∷ ts) = Matches segs ts

-- The parameters that a pattern takes from the levels.
abbrev pub bind : List Segment → List Bytes → Attributes → Attributes
bind (lit u ∷ segs) (t ∷ ts) params = bind segs ts params
bind (param x ∷ segs) (t ∷ ts) params = bind segs ts (insert x t params)
bind _ _ params = params

-- No segment is the empty text, as between the slashes of "a//b".
abbrev pub IsPlain : Segment → Type 0
IsPlain (lit t) = t ≢ []
IsPlain (param x) = Unit

-- No node of the tree has an empty static path.
abbrev mutual
  pub IsClean : Node → Type 0
  IsClean (node _ _ _ children child _) = AreClean children × IsCleanChild child

  pub AreClean : Nodes → Type 0
  AreClean nil = Unit
  AreClean (cons c cs) = (node_path c ≢ []) × IsClean c × AreClean cs

  pub IsCleanChild : Child → Type 0
  IsCleanChild absent = Unit
  IsCleanChild (present c) = IsClean c
