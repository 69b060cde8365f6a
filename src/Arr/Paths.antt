-- ===== src/Arr/Paths.antt =====
-- collapsarr/arr/models.py, collapsarr/arr/service.py: instances, path mappings, and the local path of
-- a file that another service reports.
use collapsarr.Common.{
  ℕ, List, [], ◌∷◌, ◌++◌, Str, starts_with, ◌==◌, ltb, if◌then◌else◌, length, drop, Option,
}

-- The columns that are read here.
pub record ArrInstance : Type 0 where
  pub id : ℕ

pub record RemotePathMapping : Type 0 where
  pub instance_id : ℕ
  pub remote_prefix : Str
  pub local_prefix : Str
  pub order : ℕ

-- collapsarr/arr/files.py: what a fetch reports of a file.
pub record MonitoredFile : Type 0 where
  pub instance_id : ℕ
  pub file_path : Str
  pub sonarr_episode_id : Option ℕ
  pub radarr_movie_id : Option ℕ

unfoldable pub insert_mapping : RemotePathMapping → List RemotePathMapping → List RemotePathMapping
insert_mapping m [] = m ∷ []
insert_mapping m (n ∷ ns) = if ltb n.order m.order then n ∷ insert_mapping m ns else m ∷ n ∷ ns

-- `where(instance_id == ...).order_by(order)`, the rows of one order as they stand in the table.
unfoldable pub list_path_mappings : List RemotePathMapping → ℕ → List RemotePathMapping
unfolding insert_mapping
list_path_mappings [] i = []
list_path_mappings (m ∷ ms) i =
    let rest = list_path_mappings ms i in if m.instance_id == i then insert_mapping m rest else rest

-- `text.replace(old, new, 1)`
unfoldable pub replace_first : Str → Str → Str → Str
unfolding starts_with
replace_first old new [] = if starts_with old [] then new else []
replace_first old new (c ∷ text) =
    let rest = replace_first old new text in
    if starts_with old (c ∷ text) then new ++ drop (length old) (c ∷ text) else c ∷ rest

unfoldable pub resolve_path : Str → List RemotePathMapping → Str
unfolding starts_with replace_first
resolve_path file_path [] = file_path
resolve_path file_path (m ∷ ms) =
    let rest = resolve_path file_path ms in
    if starts_with m.remote_prefix file_path
    then replace_first m.remote_prefix m.local_prefix file_path
    else rest
