-- ===== src/Library/Tracked.antt =====
-- The Tracked value of a node is that of its nearest explicit ancestor, and the walk to it ends.
use collapsarr.Common.{
  ℕ, zero, suc, ◌<◌, ◌≡◌, refl, Bool, none, some, List, [], ◌∷◌, Option-cases, In, All, All-In, inl,
  inr, arith,
}
use collapsarr.Common.Result.{ok}
use collapsarr.Library.Nodes.{
  LibraryNodeKind, series, season, episode, movie, LibraryNode, get_node, resolve_from,
  chain_length, resolve_tracked,
}

-- The value that the walk is to find: the node's own, else that of its parent where that row is
-- there, else the global default.
pub data Resolves (nodes : List LibraryNode) (default_tracked : Bool)
    : LibraryNode → Bool → Type 0 where
  own :
      (node : LibraryNode) (tracked : Bool)
      → node.tracked_override ≡ some tracked
      → Resolves nodes default_tracked node tracked
  at_root :
      (node : LibraryNode)
      → node.tracked_override ≡ none
      → node.parent_id ≡ none
      → Resolves nodes default_tracked node default_tracked
  orphaned :
      (node : LibraryNode) (i : ℕ)
      → node.tracked_override ≡ none
      → node.parent_id ≡ some i
      → get_node nodes i ≡ none
      → Resolves nodes default_tracked node default_tracked
  inherited :
      (node parent : LibraryNode) (i : ℕ) (tracked : Bool)
      → node.tracked_override ≡ none
      → node.parent_id ≡ some i
      → get_node nodes i ≡ some parent
      → Resolves nodes default_tracked parent tracked
      → Resolves nodes default_tracked node tracked

abbrev pub level : LibraryNodeKind → ℕ
level series = 0
level movie = 0
level season = 1
level episode = 2

-- The parent of a season is a series, that of an episode a season or a series; the rows that have
-- none are at the root.
abbrev pub HasLevels : List LibraryNode → LibraryNode → Type 0
HasLevels nodes node =
    (i : ℕ) (parent : LibraryNode)
    → node.parent_id ≡ some i
    → get_node nodes i ≡ some parent
    → level parent.kind < level node.kind

get_node-In :
    (nodes : List LibraryNode) (i : ℕ) (node : LibraryNode)
    → get_node nodes i ≡ some node
    → In node nodes
unfolding get_node
get_node-In [] i node e = ground arith
get_node-In (n ∷ nodes) i node e = ground (arith, get_node-In nodes i node)

resolve_from-Resolves :
    (nodes : List LibraryNode) (default_tracked : Bool)
    → All (HasLevels nodes) nodes
    → (fuel : ℕ) (node : LibraryNode) → HasLevels nodes node
    → level node.kind < fuel
    → (tracked : Bool) × (resolve_from nodes default_tracked fuel (some node) ≡ ok tracked)
      × Resolves nodes default_tracked node tracked
unfolding resolve_from
resolve_from-Resolves nodes d levels zero node l h = absurd (omega (arith, h))
resolve_from-Resolves nodes d levels (suc fuel) node l h =
    elim (Option-cases node.tracked_override) [
      | inr (tracked, e) ↦ (tracked, rw e refl, own node tracked e)
      | inl e ↦ elim (Option-cases node.parent_id) [
        | inl root ↦ (d, rw e (rw root refl), at_root node e root)
        | inr (i, p) ↦ elim (Option-cases (get_node nodes i)) [
          | inl gone ↦ (d, rw e (rw p (rw gone refl)), orphaned node i e p gone)
          | inr (parent, found) ↦
              let (tracked, same, r) =
                resolve_from-Resolves nodes d levels fuel parent
                  (All-In (HasLevels nodes) parent nodes levels (get_node-In nodes i parent found))
                  (omega (arith, h, l i parent p found)) in
              (tracked, rw e (rw p (rw found same)), inherited node parent i tracked e p found r)
        ]
      ]
    ]

level-lt : (kind : LibraryNodeKind) → level kind < chain_length
level-lt series = omega arith
level-lt season = omega arith
level-lt episode = omega arith
level-lt movie = omega arith

-- The walk of `resolve_tracked` ends, and returns the value of the nearest node that has an explicit
-- one, counting the node itself, or the default where no ancestor has one; provided that among the
-- instance's nodes every parent is of a higher level than its child.
pub resolve_tracked-Resolves :
    (nodes : List LibraryNode) (node : LibraryNode) (default_tracked : Bool)
    → All (HasLevels nodes) nodes
    → In node nodes
    → (tracked : Bool) × (resolve_tracked node nodes default_tracked ≡ ok tracked)
      × Resolves nodes default_tracked node tracked
unfolding resolve_tracked
resolve_tracked-Resolves nodes node d levels m =
    resolve_from-Resolves nodes d levels chain_length node
      (All-In (HasLevels nodes) node nodes levels m) (level-lt node.kind)
