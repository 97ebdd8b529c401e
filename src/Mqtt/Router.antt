-- ===== src/Mqtt/Router.antt =====
-- mqtt-broker/router.go: the topic router. A tree of nodes is a value; a pointer that the code
-- writes through is the place in the tree that it points to, since no node has two parents.
pub mod Segments
pub mod Paths
pub mod Adding
pub mod Refines
pub mod Matching
pub mod Filters
use candi_plugin.Base.{
  ℕ, zero, suc, Bool, true, false, [], ◌∷◌, ◌++◌, Option, none, some, ◌==◌, bytes_eq, nat_eq, ◌+◌,
  if◌then◌else◌, length, take, drop,
}
use candi_plugin.Go.Text.{Bytes, codes, index, trim_slash, trim_space}
use candi_plugin.Go.Outcome.{Outcome, ok, panics, ◌>>=◌}
use candi_plugin.Go.Map.{insert}
use candi_plugin.Candi.{WorkerHandler, Attributes}

mutual
  pub data Node : Type 0 where
    node :
        (param_node : Bool) (param_name path : Bytes) (children : Nodes) (param_child : Child)
        (handler : WorkerHandler)
        → Node

  -- []*node
  pub data Nodes : Type 0 where
    nil : Nodes
    cons : Node → Nodes → Nodes

  -- a *node that may be nil
  pub data Child : Type 0 where
    absent : Child
    present : Node → Child

-- The zero value of types.WorkerHandler.
abbrev pub no_handler : WorkerHandler
no_handler = record {
  pattern = [];
  handler_funcs = [];
  auto_ack = false;
  disable_trace = false;
  qos = none;
}

abbrev pub has_funcs : WorkerHandler → Bool
has_funcs h = elim h.handler_funcs [ [] ↦ false | _ ∷ _ ↦ true ]

abbrev pub new_route_node : Node
new_route_node = node false [] [] nil absent no_handler

-- newRouteNode with its paramName and paramNode, or its path, set.
abbrev pub param_of : Bytes → Node
param_of name = node true name [] nil absent no_handler

abbrev pub static_of : Bytes → Node
static_of token = node false [] token nil absent no_handler

abbrev pub node_path : Node → Bytes
node_path (node _ _ path _ _ _) = path

abbrev pub node_is_param : Node → Bool
node_is_param (node is_param _ _ _ _ _) = is_param

abbrev pub node_param_name : Node → Bytes
node_param_name (node _ name _ _ _ _) = name

abbrev pub node_handler : Node → WorkerHandler
node_handler (node _ _ _ _ _ handler) = handler

abbrev pub node_children : Node → Nodes
node_children (node _ _ _ children _ _) = children

abbrev pub node_param_child : Node → Child
node_param_child (node _ _ _ _ child _) = child

-- The child whose path is that of the new node: the loop of findChild, and of match.
unfoldable pub find_child : Nodes → Bytes → Option Node
find_child nil path = none
find_child (cons c cs) path = if node_path c == path then some c else find_child cs path

-- The children after a write through the pointer that findChild returned.
unfoldable pub replace_child : Nodes → Bytes → Node → Nodes
replace_child nil path m = nil
replace_child (cons c cs) path m =
    if node_path c == path then cons m cs else cons c (replace_child cs path m)

abbrev pub append_child : Nodes → Node → Nodes
append_child nil m = cons m nil
append_child (cons c cs) m = cons c (append_child cs m)

abbrev pub Continue : Type 0
Continue = Node → Outcome (Node × Bytes)

-- What insertChild does where findChild found nothing: the new node's paramNode, the node's
-- paramChild, and the two nodes. A second parameter at one place must have the name of the first.
unfoldable pub insert_new : Continue → Bool → Child → Node → Node → Outcome (Node × Bytes)
insert_new k true (present c) (node is_param name path children child handler) nn =
    if node_param_name c == node_param_name nn
    then (k c >>= λ r. ok (node is_param name path children (present r.0) handler, r.1))
    else panics (codes "Param name must be same for")
insert_new k true absent (node is_param name path children child handler) nn =
    k nn >>= λ r. ok (node is_param name path children (present r.0) handler, r.1)
insert_new k false c (node is_param name path children child handler) nn =
    k nn >>= λ r. ok (node is_param name path (append_child children r.0) child handler, r.1)

-- insertChild, and what addRoute goes on to do at the node that it returns: `k` takes that node as
-- it is to the node as it becomes, and the result is the parent afterwards.
unfoldable pub insert_child : Continue → Node → Node → Outcome (Node × Bytes)
insert_child k (node is_param name path children child handler) nn =
    elim (find_child children (node_path nn)) [
      | some found ↦ k found >>= λ r.
          ok
            (node is_param name path (replace_child children (node_path nn) r.0) child handler, r.1)
      | none ↦
          insert_new k (node_is_param nn) child (node is_param name path children child handler) nn
    ]

-- nextPath: the first segment, and what stands behind its slash.
unfoldable pub next_path : Bytes → Bytes × Bytes
next_path path = elim (index b'/' path) [
  | none ↦ (path, [])
  | some i ↦ (take i path, drop (i + 1) path)
]

-- strings.HasPrefix(token, ":")
abbrev pub is_param_token : Bytes → Bool
is_param_token [] = false
is_param_token (c ∷ s) = nat_eq c b':'

-- The node that addRoute makes of a segment, and what it adds to the normalised path.
unfoldable pub new_child : Bytes → Node
new_child token =
    if is_param_token token then param_of (trim_space (drop 1 token)) else static_of token

unfoldable pub normal_piece : Bytes → Bytes
normal_piece token = if is_param_token token then codes "+/" else token ++ b'/' ∷ []

-- What addRoute does at the end of the path.
unfoldable pub set_handler : WorkerHandler → Bytes → Continue
set_handler h norm (node is_param name path children child handler) =
    if has_funcs handler
    then panics (codes "'' has already a handler")
    else ok (node is_param name path children child h, norm)

-- The loop of addRoute. Each round drops a segment, so the length of the path is enough fuel.
unfoldable pub add_loop : ℕ → Bytes → WorkerHandler → Bytes → Continue
add_loop fuel [] h norm n = set_handler h norm n
add_loop zero (c ∷ s) h norm n = panics (codes "out of fuel")
add_loop (suc fuel) (c ∷ s) h norm n =
    let step = next_path (c ∷ s) in
    insert_child (add_loop fuel step.1 h (norm ++ normal_piece step.0)) n (new_child step.0)

-- addRoute: the root afterwards, and the topic filter to subscribe to.
unfoldable pub add_route : Bytes → WorkerHandler → Node → Outcome (Node × Bytes)
add_route path h root =
    let path' = trim_slash path in
    add_loop (length path') path' h [] root >>= λ r. ok (r.0, trim_slash r.1)

-- One round of the loop of match, at a segment: the child of that path, else the parameter's child,
-- which takes the segment; `none` is the early return.
unfoldable pub next_route : Node → Bytes → Attributes → Option (Node × Attributes)
next_route route token params = elim (find_child (node_children route) token) [
  | some child ↦ some (child, params)
  | none ↦ elim (node_param_child route) [
    | present child ↦ some (child, insert (node_param_name child) token params)
    | absent ↦ none
  ]
]

-- The loop of match: the handler and the parameters.
unfoldable pub match_loop : ℕ → Bytes → Node → Attributes → WorkerHandler × Attributes
match_loop fuel [] route params = (node_handler route, params)
match_loop zero (c ∷ s) route params = (no_handler, params)
match_loop (suc fuel) (c ∷ s) route params = elim (next_route route (next_path (c ∷ s)).0 params) [
  | none ↦ (no_handler, params)
  | some (child, params') ↦ match_loop fuel (next_path (c ∷ s)).1 child params'
]

unfoldable pub match : Bytes → Node → WorkerHandler × Attributes
match path root = let path' = trim_slash path in match_loop (length path') path' root []
