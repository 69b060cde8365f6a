-- ===== src/Library/Nodes.antt =====
-- collapsarr/library/models.py, collapsarr/library/service.py: the rows of `library_nodes` with the
-- columns that are read here, their queries, and the walk to the first explicit Tracked value.
use collapsarr.Common.{
  ℕ, zero, suc, Bool, true, false, not, ◌&&◌, ◌||◌, Option, none, some, List, [], ◌∷◌, ◌==◌,
  if◌then◌else◌,
}
use collapsarr.Common.Result.{Result, ok, raise, other_error, out_of_fuel}

pub data LibraryNodeKind : Type 0 where
  series season episode movie : LibraryNodeKind

-- The ids of the other services are numbers that are only compared.
pub record LibraryNode : Type 0 where
  pub id : ℕ
  pub instance_id : ℕ
  pub parent_id : Option ℕ
  pub kind : LibraryNodeKind
  pub sonarr_episode_id : Option ℕ
  pub radarr_movie_id : Option ℕ
  pub tracked_override : Option Bool
  pub hidden : Bool

unfoldable pub is_episode : LibraryNodeKind → Bool
is_episode episode = true
is_episode _ = false

unfoldable pub is_movie : LibraryNodeKind → Bool
is_movie movie = true
is_movie _ = false

-- `column == value`, where a NULL equals nothing.
unfoldable pub holds_id : Option ℕ → ℕ → Bool
holds_id none i = false
holds_id (some j) i = j == i

unfoldable pub filter_nodes : (LibraryNode → Bool) → List LibraryNode → List LibraryNode
filter_nodes test [] = []
filter_nodes test (node ∷ nodes) =
    let rest = filter_nodes test nodes in if test node then node ∷ rest else rest

-- The table is the list of its rows in the order of their ids.
unfoldable pub list_nodes : List LibraryNode → ℕ → Bool → List LibraryNode
unfolding filter_nodes
list_nodes table instance_id include_hidden =
    filter_nodes (λ node. node.instance_id == instance_id && (include_hidden || not node.hidden))
      table

-- `one_or_none`, which raises where there are two rows.
unfoldable pub one_or_none : List LibraryNode → Result (Option LibraryNode)
one_or_none [] = ok none
one_or_none (node ∷ []) = ok (some node)
one_or_none (node ∷ _ ∷ _) = raise other_error

unfoldable pub is_episode_of : ℕ → ℕ → LibraryNode → Bool
unfolding is_episode holds_id
is_episode_of instance_id i node =
    node.instance_id == instance_id && is_episode node.kind && holds_id node.sonarr_episode_id i

unfoldable pub is_movie_of : ℕ → ℕ → LibraryNode → Bool
unfolding is_movie holds_id
is_movie_of instance_id i node =
    node.instance_id == instance_id && is_movie node.kind && holds_id node.radarr_movie_id i

unfoldable pub get_node_by_source_id :
    List LibraryNode → ℕ → Option ℕ → Option ℕ → Result (Option LibraryNode)
unfolding filter_nodes one_or_none is_episode_of is_movie_of
get_node_by_source_id table instance_id (some i) _ =
    one_or_none (filter_nodes (is_episode_of instance_id i) table)
get_node_by_source_id table instance_id none (some i) =
    one_or_none (filter_nodes (is_movie_of instance_id i) table)
get_node_by_source_id table instance_id none none = ok none

-- `nodes_by_id.get(node_id)`; an id is a primary key, so that it stands for one row.
unfoldable pub get_node : List LibraryNode → ℕ → Option LibraryNode
get_node [] i = none
get_node (node ∷ nodes) i = let rest = get_node nodes i in if node.id == i then some node else rest

-- The loop of `resolve_tracked`; each turn costs one of the fuel.
unfoldable pub resolve_from : List LibraryNode → Bool → ℕ → Option LibraryNode → Result Bool
unfolding get_node
resolve_from nodes_by_id default_tracked fuel none = ok default_tracked
resolve_from nodes_by_id default_tracked zero (some current) = raise out_of_fuel
resolve_from nodes_by_id default_tracked (suc fuel) (some current) = elim current.tracked_override [
  | some tracked ↦ ok tracked
  | none ↦ elim current.parent_id [
    | none ↦ ok default_tracked
    | some parent ↦ resolve_from nodes_by_id default_tracked fuel (get_node nodes_by_id parent)
  ]
]

-- A series, a season and an episode: the longest chain of parents.
abbrev pub chain_length : ℕ
chain_length = 3

unfoldable pub resolve_tracked : LibraryNode → List LibraryNode → Bool → Result Bool
unfolding resolve_from
resolve_tracked node nodes_by_id default_tracked =
    resolve_from nodes_by_id default_tracked chain_length (some node)
