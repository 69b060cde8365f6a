-- ===== src/Arr/Tests.antt =====
-- Two mappings, and a path that both fit.
use collapsarr.Common.{◌≡◌, refl, [], ◌∷◌, ◌++◌, codes, starts_with, Str}
use collapsarr.Arr.Paths.{RemotePathMapping, replace_first, resolve_path}
use collapsarr.Arr.Prefixes.{resolve_path-reversed, reversed}

abbrev series_mapping : RemotePathMapping
series_mapping = record {
  instance_id = 1;
  remote_prefix = codes "/tv/";
  local_prefix = codes "/mnt/tv/";
  order = 0;
}

abbrev all_mapping : RemotePathMapping
all_mapping = record {
  instance_id = 1;
  remote_prefix = codes "/";
  local_prefix = codes "/host/";
  order = 1;
}

abbrev movie_path : Str
movie_path = codes "movies/a.mkv"

resolve_movie : resolve_path (codes "/tv/b") (series_mapping ∷ all_mapping ∷ []) ≡ codes "/mnt/tv/b"
unfolding resolve_path replace_first starts_with
resolve_movie = refl

resolve_path-reversed_example :
    resolve_path
      (resolve_path (codes "/" ++ movie_path) (series_mapping ∷ all_mapping ∷ []))
      (reversed all_mapping ∷ [])
    ≡ codes "/" ++ movie_path
unfolding starts_with
resolve_path-reversed_example =
    resolve_path-reversed (series_mapping ∷ []) [] all_mapping movie_path (refl, tt)
