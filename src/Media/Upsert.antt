-- ===== src/Media/Upsert.antt =====
-- What an upsert and a finished job leave in the tables of the tracked files.
use mathlib.Core.Bool.{true≢false, false≢true}
use collapsarr.Common.{
  ℕ, ◌≡◌, refl, sym, ap, ◌∙◌, ◌↔◌, ◌⊎◌, inl, inr, true, false, some, List, [], ◌∷◌, Str, In,
  Bool-cases, Option-cases,
}
use collapsarr.Downmix.Stream.{AudioStreamInfo}
use collapsarr.Downmix.Targets.{
  DownmixSettings, QualifyingTarget, target_order, is_enabled, is_allowed,
  detect_qualifying_targets,
}
use collapsarr.Downmix.Targets.Qualify.{Qualifies, detect_iff}
use collapsarr.Media.Rows.{
  MediaTargetStatus, missing, processed, excluded_by_language_filter, StatusKey, MediaTables,
  SourceIds, get_tracked_media, get_or_add, stream_languages, enabled_list, status_keys, qualifies,
  status_of, key_eq, find_status, upsert_tracked_media,
}
use collapsarr.Media.Statuses.{
  key_eq_iff, qualifies_iff, put_statuses-hit, put_statuses-miss, HasStream, stream_languages_iff,
  enabled_list-target_order, status_keys_iff,
}

-- The id of the row of a path, and the tables with that row.
abbrev pub row_id : Str → MediaTables → ℕ
row_id path tables = (get_or_add path tables).1.id

-- The keys that an upsert writes.
abbrev pub Touched : Str → List AudioStreamInfo → DownmixSettings → MediaTables → StatusKey → Type 0
Touched path streams settings tables k =
    (k.media_id ≡ row_id path tables)
    × HasStream streams k.language
    × (is_enabled settings.enabled_targets k.target ≡ true)

abbrev keys : Str → List AudioStreamInfo → DownmixSettings → MediaTables → List StatusKey
keys path streams settings tables =
    status_keys (row_id path tables) (stream_languages [] streams)
      (enabled_list settings.enabled_targets target_order)

keys_iff :
    (path : Str) (streams : List AudioStreamInfo) (settings : DownmixSettings)
    (tables : MediaTables) (k : StatusKey)
    → In k (keys path streams settings tables) ↔ Touched path streams settings tables k
keys_iff path streams settings tables k = (
  λ i.
      let (a, b, c) = (status_keys_iff (row_id path tables) _ _ k).0 i in
      (
        a,
        (stream_languages_iff k.language streams).0 b,
        (enabled_list-target_order settings.enabled_targets k.target).0 c,
      ),
  λ (a, b, c). (status_keys_iff (row_id path tables) _ _ k).1 (
    a,
    (stream_languages_iff k.language streams).1 b,
    (enabled_list-target_order settings.enabled_targets k.target).1 c,
  ),
)

get_or_add-statuses :
    (path : Str) (tables : MediaTables) → (get_or_add path tables).0.statuses ≡ tables.statuses
unfolding get_or_add
get_or_add-statuses path tables = elim (Option-cases (get_tracked_media path tables.files)) [
  | inl none_yet ↦ rw none_yet refl
  | inr (m, found) ↦ rw found refl
]

-- What the status of a pair says of the streams of the file.
pub data StatusAfter (streams : List AudioStreamInfo) (settings : DownmixSettings)
    (q : QualifyingTarget) : MediaTargetStatus → Type 0 where
  not_allowed :
      is_allowed settings.language_allow_list q.language ≡ false
      → StatusAfter streams settings q excluded_by_language_filter
  to_do : Qualifies streams settings q → StatusAfter streams settings q missing
  nothing_to_do :
      is_allowed settings.language_allow_list q.language ≡ true
      → ¬ Qualifies streams settings q
      → StatusAfter streams settings q processed

status_of-StatusAfter :
    (streams : List AudioStreamInfo) (settings : DownmixSettings) (k : StatusKey)
    → StatusAfter streams settings
        (record { language = k.language; target = k.target })
        (status_of settings (detect_qualifying_targets streams settings) k)
unfolding status_of
status_of-StatusAfter streams settings k =
    let qs = detect_qualifying_targets streams settings in
    elim (Bool-cases (is_allowed settings.language_allow_list k.language)) [
      | inr out ↦ rw out (not_allowed out)
      | inl allowed ↦ rw allowed (elim (Bool-cases (qualifies qs k.language k.target)) [
        | inl q ↦
            rw q (
              to_do
                ((detect_iff streams settings _).0 ((qualifies_iff qs k.language k.target).0 q)))
        | inr q ↦ rw q (
            nothing_to_do allowed (λ h. false≢true (
              sym q
              ∙ (qualifies_iff qs k.language k.target).1 ((detect_iff streams settings _).1 h))))
      ])
    ]

pub In-decided : (k : StatusKey) (ks : List StatusKey) → In k ks ⊎ ¬ In k ks
In-decided k [] = inr (λ i. i)
In-decided k (j ∷ ks) = elim (Bool-cases (key_eq j k)) [
  | inl same ↦ inl (inl ((key_eq_iff j k).0 same))
  | inr other ↦ elim (In-decided k ks) [
    | inl i ↦ inl (inr i)
    | inr n ↦
        inr (λ i. elim i [ inl e ↦ true≢false (sym ((key_eq_iff j k).1 e) ∙ other) | inr m ↦ n m ])
  ]
]

-- An upsert gives every pair of an enabled target and a language of the file's streams the status
-- that the streams justify: excluded where the language is not allowed, missing exactly where the pair
-- qualifies for a new track, processed otherwise. Every other row, of this file or another, keeps its
-- status.
pub upsert_tracked_media-StatusAfter :
    (path : Str) (streams : List AudioStreamInfo) (settings : DownmixSettings) (ids : SourceIds)
    (tables : MediaTables) (k : StatusKey)
    → (Touched path streams settings tables k
        × ((s : MediaTargetStatus) × (find_status k
                (upsert_tracked_media path streams settings ids tables).statuses
              ≡ some s)
            × StatusAfter streams settings (record { language = k.language; target = k.target }) s))
      ⊎ (¬ Touched path streams settings tables k
          × (find_status k (upsert_tracked_media path streams settings ids tables).statuses
              ≡ find_status k tables.statuses))
unfolding upsert_tracked_media
upsert_tracked_media-StatusAfter path streams settings ids tables k =
    let f = status_of settings (detect_qualifying_targets streams settings) in
    let ks = keys path streams settings tables in
    let rows = (get_or_add path tables).0.statuses in
    let touched = keys_iff path streams settings tables k in
    elim (In-decided k ks) [
      | inl i ↦ inl (
        touched.0 i,
        (f k, put_statuses-hit f k ks rows i, status_of-StatusAfter streams settings k),
      )
      | inr n ↦ inr (
        λ t. n (touched.1 t),
        put_statuses-miss f k ks rows n ∙ ap (find_status k) (get_or_add-statuses path tables),
      )
    ]
