-- ===== src/Library/Tests.antt =====
-- A small catalog, and the Tracked values in it.
use collapsarr.Common.{
  ℕ, ◌≡◌, refl, Bool, true, false, Option, none, some, List, [], ◌∷◌, inl, inr, All, arith,
}
use collapsarr.Common.Result.{ok}
use collapsarr.Library.Nodes.{
  LibraryNodeKind, series, season, episode, LibraryNode, get_node, resolve_tracked, holds_id,
  is_episode, get_node_by_source_id,
}
use collapsarr.Library.Tracked.{Resolves, HasLevels, resolve_tracked-Resolves}

abbrev node_of : ℕ → Option ℕ → LibraryNodeKind → Option Bool → LibraryNode
node_of id parent_id kind tracked_override = record {
  id = id;
  instance_id = 1;
  parent_id = parent_id;
  kind = kind;
  sonarr_episode_id = some (id);
  radarr_movie_id = none;
  tracked_override = tracked_override;
  hidden = false;
}

abbrev show : LibraryNode
show = node_of 1 none series (some false)

abbrev first_season : LibraryNode
first_season = node_of 2 (some 1) season none

abbrev pilot : LibraryNode
pilot = node_of 3 (some 2) episode none

abbrev catalog : List LibraryNode
catalog = show ∷ first_season ∷ pilot ∷ []

pilot_untracked : resolve_tracked pilot catalog true ≡ ok false
unfolding resolve_tracked get_node
pilot_untracked = refl

pilot_found : get_node_by_source_id catalog 1 (some 3) none ≡ ok (some pilot)
unfolding get_node_by_source_id is_episode holds_id
pilot_found = refl

catalog_levels : All (HasLevels catalog) catalog
unfolding get_node
catalog_levels = (
  λ i parent e f. ground arith,
  (λ i parent e f. ground arith, (λ i parent e f. ground arith, tt)),
)

resolve_tracked-Resolves_example :
    (tracked : Bool) × (resolve_tracked pilot catalog true ≡ ok tracked)
    × Resolves catalog true pilot tracked
resolve_tracked-Resolves_example =
    resolve_tracked-Resolves catalog pilot true catalog_levels (inr (inr (inl refl)))
