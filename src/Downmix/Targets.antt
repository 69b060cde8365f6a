-- ===== src/Downmix/Targets.antt =====
-- collapsarr/downmix/targets.py: which `(language, target)` pairs qualify for a new track.
mod Groups
pub mod Qualify
pub mod Order
use collapsarr.Common.{
  ℕ, Bool, true, false, Option, none, some, List, [], ◌∷◌, ◌++◌, map, Str, codes, str_eq, str_lt,
  ◌==◌, ltb, leb, if◌then◌else◌, ◌||◌,
}
use collapsarr.Downmix.Stream.{AudioStreamInfo}

pub data DownmixTarget : Type 0 where
  stereo two_point_one five_point_one : DownmixTarget

unfoldable pub target_channels : DownmixTarget → ℕ
target_channels stereo = 2
target_channels two_point_one = 3
target_channels five_point_one = 6

abbrev pub target_order : List DownmixTarget
target_order = stereo ∷ two_point_one ∷ five_point_one ∷ []

unfoldable pub target_eq : DownmixTarget → DownmixTarget → Bool
target_eq stereo stereo = true
target_eq two_point_one two_point_one = true
target_eq five_point_one five_point_one = true
target_eq _ _ = false

-- The two frozensets are lists that are only asked for membership.
pub record DownmixSettings : Type 0 where
  pub enabled_targets : List DownmixTarget
  pub language_allow_list : Option (List Str)
  pub stereo_codec : Str
  pub stereo_bitrate_kbps : Option ℕ
  pub surround_codec : Str
  pub surround_bitrate_kbps : Option ℕ

abbrev pub default_settings : DownmixSettings
default_settings = record {
  enabled_targets = stereo ∷ [];
  language_allow_list = none;
  stereo_codec = codes "aac";
  stereo_bitrate_kbps = none;
  surround_codec = codes "ac3";
  surround_bitrate_kbps = some 448;
}

pub record QualifyingTarget : Type 0 where
  pub language : Str
  pub target : DownmixTarget

-- `target in settings.enabled_targets`
unfoldable pub is_enabled : List DownmixTarget → DownmixTarget → Bool
unfolding target_eq
is_enabled [] t = false
is_enabled (e ∷ es) t = target_eq e t || is_enabled es t

unfoldable pub has_language : List Str → Str → Bool
has_language [] l = false
has_language (k ∷ ks) l = str_eq k l || has_language ks l

-- The test that keeps a stream: no allow-list, or its language stands on it.
unfoldable pub is_allowed : Option (List Str) → Str → Bool
unfolding has_language
is_allowed none l = true
is_allowed (some ls) l = has_language ls l

unfoldable pub has_count : List ℕ → ℕ → Bool
has_count [] c = false
has_count (d ∷ ds) c = d == c || has_count ds c

-- `max(existing_channel_counts)`; the set is never empty where it is asked.
unfoldable pub max_count : List ℕ → ℕ
max_count [] = 0
max_count (d ∷ ds) = let m = max_count ds in if ltb d m then m else d

-- `channels_by_language`: each language with the set of its channel counts.
abbrev pub Groups : Type 0
Groups = List (Str × List ℕ)

-- `set.add`
pub add_count : ℕ → List ℕ → List ℕ
unfolding has_count
add_count c ds = if has_count ds c then ds else c ∷ ds

-- `channels_by_language[language].add(channels)` on a `defaultdict(set)`
pub add_channels : Str → ℕ → Groups → Groups
unfolding add_count
add_channels l c [] = (l, c ∷ []) ∷ []
add_channels l c ((k, ds) ∷ g) =
    if str_eq k l then (k, add_count c ds) ∷ g else (k, ds) ∷ add_channels l c g

pub group_streams : DownmixSettings → Groups → List AudioStreamInfo → Groups
unfolding add_channels is_allowed
group_streams settings g [] = g
group_streams settings g (x ∷ xs) =
    group_streams settings
      (if is_allowed settings.language_allow_list x.language
        then add_channels x.language x.channels g
        else g)
      xs

-- `channels_by_language[language]`
pub counts_of : Str → Groups → List ℕ
counts_of l [] = []
counts_of l ((k, ds) ∷ g) = if str_eq k l then ds else counts_of l g

pub languages : Groups → List Str
languages g = map (λ e. e.0) g

pub insert_sorted : Str → List Str → List Str
insert_sorted l [] = l ∷ []
insert_sorted l (k ∷ ks) = if str_lt k l then k ∷ insert_sorted l ks else l ∷ k ∷ ks

-- `sorted(channels_by_language)`
pub sort_languages : List Str → List Str
unfolding insert_sorted
sort_languages [] = []
sort_languages (l ∷ ls) = insert_sorted l (sort_languages ls)

-- The inner loop, over the targets in ascending order.
pub language_targets : DownmixSettings → Str → List ℕ → List DownmixTarget → List QualifyingTarget
unfolding is_enabled max_count has_count target_channels
language_targets settings l counts [] = []
language_targets settings l counts (t ∷ ts) =
    let rest = language_targets settings l counts ts in
    if is_enabled settings.enabled_targets t
    then if leb (max_count counts) (target_channels t)
      then rest
      else if has_count counts (target_channels t)
      then rest
      else record { language = l; target = t } ∷ rest
    else rest

-- The outer loop, over the sorted languages.
pub all_targets : DownmixSettings → Groups → List Str → List QualifyingTarget
unfolding language_targets counts_of
all_targets settings g [] = []
all_targets settings g (l ∷ ls) =
    language_targets settings l (counts_of l g) target_order ++ all_targets settings g ls

unfoldable pub detect_qualifying_targets :
    List AudioStreamInfo → DownmixSettings → List QualifyingTarget
unfolding group_streams languages sort_languages all_targets
detect_qualifying_targets streams settings =
    let g = group_streams settings [] streams in
    all_targets settings g (sort_languages (languages g))
