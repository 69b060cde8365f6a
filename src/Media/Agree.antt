-- ===== src/Media/Agree.antt =====
-- The two ways in which a finished downmix job is recorded: by the job itself, and by the next scan.
use mathlib.Core.Bool.{true≢false}
use collapsarr.Common.{
  ℕ, ◌≡◌, refl, sym, ap, ◌∙◌, subst, ◌↔◌, inl, inr, none, some, List, [], ◌∷◌, ◌++◌, Str, str_eq,
  str_eq_iff, ◌==◌, ==_iff, In, In-append_left, In-append_cases, Bool-cases, Option-cases, arith,
}
use collapsarr.Downmix.Stream.{AudioStreamInfo}
use collapsarr.Downmix.Targets.{DownmixSettings, QualifyingTarget, detect_qualifying_targets}
use collapsarr.Downmix.Targets.Qualify.{Qualifies, detect_iff}
use collapsarr.Downmix.DefaultAudio.{final_audio_layout, next_index, new_tracks}
use collapsarr.Downmix.Converge.{In-new_tracks, detect-final_audio_layout}
use collapsarr.Media.Rows.{
  MediaTargetStatus, processed, TrackedMediaFile, StatusKey, MediaTables, SourceIds,
  get_tracked_media, new_file, get_or_add, write_file, linked_file, put_status, find_status,
  put_statuses, upsert_tracked_media, record_target_processed, record_targets,
}
use collapsarr.Media.Statuses.{put_statuses-hit, put_statuses-miss, HasStream}
use collapsarr.Media.Upsert.{
  row_id, Touched, StatusAfter, not_allowed, to_do, nothing_to_do, upsert_tracked_media-StatusAfter,
  In-decided,
}

get_tracked_media-path :
    (path : Str) (ms : List TrackedMediaFile) (m : TrackedMediaFile)
    → get_tracked_media path ms ≡ some m
    → m.file_path ≡ path
unfolding get_tracked_media
get_tracked_media-path path [] m e = ground arith
get_tracked_media-path path (n ∷ ms) m e =
    ground (arith, str_eq_iff n.file_path path, get_tracked_media-path path ms m)

get_tracked_media-append :
    (path : Str) (ms : List TrackedMediaFile) (m : TrackedMediaFile)
    → m.file_path ≡ path
    → get_tracked_media path ms ≡ none
    → get_tracked_media path (ms ++ m ∷ []) ≡ some m
unfolding get_tracked_media
get_tracked_media-append path [] m e h = ground (arith, str_eq_iff m.file_path path)
get_tracked_media-append path (n ∷ ms) m e h = ground (arith, get_tracked_media-append path ms m e)

get_tracked_media-write_file :
    (path : Str) (ms : List TrackedMediaFile) (m new : TrackedMediaFile)
    → get_tracked_media path ms ≡ some m
    → new.id ≡ m.id
    → new.file_path ≡ path
    → get_tracked_media path (write_file new ms) ≡ some new
unfolding get_tracked_media write_file
get_tracked_media-write_file path [] m new e i p = ground arith
get_tracked_media-write_file path (n ∷ ms) m new e i p = elim (Bool-cases (n.id == new.id)) [
  | inl same ↦ rw same (ground (arith, str_eq_iff new.file_path path))
  | inr other ↦ rw other (elim (Bool-cases (str_eq n.file_path path)) [
    | inl here ↦ ground (arith, ==_iff n.id new.id)
    | inr there ↦ ground (arith, get_tracked_media-write_file path ms m new)
  ])
]

-- The file of the path has a row, whose id is `i`.
abbrev pub IsRow : Str → ℕ → MediaTables → Type 0
IsRow path i tables =
    (m : TrackedMediaFile) × (get_tracked_media path tables.files ≡ some m) × (m.id ≡ i)

pub get_or_add-IsRow :
    (path : Str) (tables : MediaTables)
    → (get_tracked_media path (get_or_add path tables).0.files ≡ some (get_or_add path tables).1)
      × ((get_or_add path tables).1.file_path ≡ path)
unfolding get_or_add
get_or_add-IsRow path tables = elim (Option-cases (get_tracked_media path tables.files)) [
  | inl none_yet ↦ rw none_yet (
    get_tracked_media-append path tables.files (new_file tables.next_id path) refl none_yet,
    refl,
  )
  | inr (m, found) ↦ rw found (found, get_tracked_media-path path tables.files m found)
]

IsRow-get_or_add :
    (path : Str) (i : ℕ) (tables : MediaTables)
    → IsRow path i tables
    → ((get_or_add path tables).0 ≡ tables) × ((get_or_add path tables).1.id ≡ i)
unfolding get_or_add
IsRow-get_or_add path i tables (m, found, e) = rw found (refl, e)

upsert-IsRow :
    (path : Str) (streams : List AudioStreamInfo) (settings : DownmixSettings) (ids : SourceIds)
    (tables : MediaTables)
    → IsRow path (row_id path tables) (upsert_tracked_media path streams settings ids tables)
unfolding upsert_tracked_media linked_file
upsert-IsRow path streams settings ids tables =
    let (found, p) = get_or_add-IsRow path tables in
    let (added, m) = get_or_add path tables in
    (
      linked_file ids streams m,
      get_tracked_media-write_file path added.files m (linked_file ids streams m) found refl p,
      refl,
    )

key_at : ℕ → QualifyingTarget → StatusKey
key_at i q = record { media_id = i; language = q.language; target = q.target }

keys_at : ℕ → List QualifyingTarget → List StatusKey
unfolding key_at
keys_at i [] = []
keys_at i (q ∷ qs) = key_at i q ∷ keys_at i qs

keys_at_iff :
    (i : ℕ) (qs : List QualifyingTarget) (k : StatusKey)
    → In k (keys_at i qs)
      ↔ ((k.media_id ≡ i) × In (record { language = k.language; target = k.target }) qs)
unfolding keys_at
keys_at_iff i [] k = ground arith
keys_at_iff i (q ∷ qs) k = ground (arith, keys_at_iff i qs k)

record_target_processed-put :
    (path : Str) (i : ℕ) (q : QualifyingTarget) (tables : MediaTables)
    → IsRow path i tables
    → record_target_processed path q.language q.target tables
      ≡ record tables { statuses = put_status (key_at i q) processed tables.statuses }
unfolding record_target_processed key_at
record_target_processed-put path i q tables row =
    let (same, id) = IsRow-get_or_add path i tables row in rw same (rw id refl)

record_targets-statuses :
    (path : Str) (i : ℕ) (qs : List QualifyingTarget) (tables : MediaTables)
    → IsRow path i tables
    → (record_targets path qs tables).statuses
      ≡ put_statuses (λ k. processed) (keys_at i qs) tables.statuses
unfolding record_targets put_statuses keys_at
record_targets-statuses path i [] tables row = refl
record_targets-statuses path i (q ∷ qs) tables row =
    ap (λ t. (record_targets path qs t).statuses) (record_target_processed-put path i q tables row)
    ∙ record_targets-statuses path i qs
        (record tables { statuses = put_status (key_at i q) processed tables.statuses }) row

module _ (streams : List AudioStreamInfo) (settings : DownmixSettings) where
  abbrev qs : List QualifyingTarget
  qs = detect_qualifying_targets streams settings

  abbrev final : List AudioStreamInfo
  final = final_audio_layout streams qs

  -- The new tracks bring no language that the file did not have.
  HasStream-final : (l : Str) → HasStream final l ↔ HasStream streams l
  unfolding final_audio_layout
  HasStream-final l = (
    λ (x, i, e). elim (In-append_cases x streams (new_tracks (next_index streams) qs) i) [
      | inl old ↦ (x, old, e)
      | inr new ↦
          let (t, j, same, _) = In-new_tracks (next_index streams) qs x new in
          let (y, k, m, _) = ((detect_iff streams settings t).0 j).higher in (y, k, m ∙ same ∙ e)
    ],
    λ (x, i, e). (x, In-append_left x streams (new_tracks (next_index streams) qs) i, e),
  )

  not_Qualifies-final : (q : QualifyingTarget) → ¬ Qualifies final settings q
  not_Qualifies-final q h =
      subst (In q) (detect-final_audio_layout streams settings) ((detect_iff final settings q).1 h)

  -- After the job a pair that the streams exclude is still excluded, and all others are processed.
  after_job :
      (q : QualifyingTarget) (s t : MediaTargetStatus)
      → StatusAfter streams settings q s
      → StatusAfter final settings q t
      → ¬ In q qs
      → s ≡ t
  after_job q s t (not_allowed a) (not_allowed b) n = refl
  after_job q s t (not_allowed a) (to_do h) n = absurd (not_Qualifies-final q h)
  after_job q s t (not_allowed a) (nothing_to_do b _) n = absurd (true≢false (sym b ∙ a))
  after_job q s t (to_do h) _ n = absurd (n ((detect_iff streams settings q).1 h))
  after_job q s t (nothing_to_do b _) (not_allowed a) n = absurd (true≢false (sym b ∙ a))
  after_job q s t (nothing_to_do b _) (to_do h) n = absurd (not_Qualifies-final q h)
  after_job q s t (nothing_to_do a _) (nothing_to_do b _) n = refl

  done_after :
      (q : QualifyingTarget) (t : MediaTargetStatus)
      → In q qs
      → StatusAfter final settings q t
      → t ≡ processed
  done_after q t i (not_allowed a) =
      absurd (true≢false (sym ((detect_iff streams settings q).0 i).allowed ∙ a))
  done_after q t i (to_do h) = absurd (not_Qualifies-final q h)
  done_after q t i (nothing_to_do _ _) = refl

module _ (path : Str) (streams : List AudioStreamInfo) (settings : DownmixSettings)
    (ids later : SourceIds) (tables : MediaTables) where
  -- The tables behind the scan that found the file.
  abbrev scanned : MediaTables
  scanned = upsert_tracked_media path streams settings ids tables

  same_row : row_id path scanned ≡ row_id path tables
  same_row =
      (IsRow-get_or_add path (row_id path tables) scanned
        (upsert-IsRow path streams settings ids tables)).1

  Touched-final :
      (k : StatusKey)
      → Touched path (final streams settings) settings scanned k
        ↔ Touched path streams settings tables k
  Touched-final k = (
    λ (i, l, e). (i ∙ same_row, (HasStream-final streams settings k.language).0 l, e),
    λ (i, l, e). (i ∙ sym same_row, (HasStream-final streams settings k.language).1 l, e),
  )

  detected-Touched :
      (k : StatusKey)
      → In k (keys_at (row_id path tables) (qs streams settings))
      → Touched path streams settings tables k
  detected-Touched k m =
      let (i, q) = (keys_at_iff (row_id path tables) (qs streams settings) k).0 m in
      let h = (detect_iff streams settings _).0 q in
      let (x, j, l, _) = h.higher in (i, (x, j, l), h.enabled)

  rescan_detected :
      (k : StatusKey)
      → In k (keys_at (row_id path tables) (qs streams settings))
      → some processed
        ≡ find_status k
            (upsert_tracked_media path (final streams settings) settings later scanned).statuses
  rescan_detected k m =
      let (_, q) = (keys_at_iff (row_id path tables) (qs streams settings) k).0 m in
      elim (upsert_tracked_media-StatusAfter path (final streams settings) settings later scanned
        k) [
          | inl (_, (t, found, after)) ↦
              sym (found ∙ ap (λ u. some u) (done_after streams settings _ t q after))
          | inr (n, _) ↦ absurd (n ((Touched-final k).1 (detected-Touched k m)))
        ]

  rescan_other :
      (k : StatusKey)
      → ¬ In k (keys_at (row_id path tables) (qs streams settings))
      → find_status k scanned.statuses
        ≡ find_status k
            (upsert_tracked_media path (final streams settings) settings later scanned).statuses
  rescan_other k n =
      elim (upsert_tracked_media-StatusAfter path (final streams settings) settings later scanned
        k) [
          | inr (_, kept) ↦ sym kept
          | inl (touched, (t, found, after)) ↦
              elim (upsert_tracked_media-StatusAfter path streams settings ids tables k) [
                | inr (m, _) ↦ absurd (m ((Touched-final k).0 touched))
                | inl ((i, _, _), (s, before, why)) ↦
                    before
                    ∙ ap (λ u. some u)
                        (after_job streams settings _ s t why after (λ q.
                          n ((keys_at_iff (row_id path tables) (qs streams settings) k).1 (i, q))))
                    ∙ sym found
              ]
        ]

  -- Once a scan has tracked a file, a downmix job that added every missing track leaves each row of
  -- the statuses the same whether it is recorded pair by pair as the job completes, or by a second scan
  -- that probes the file with its new tracks.
  pub record_targets-rescan :
      (k : StatusKey)
      → find_status k
          (record_targets path (detect_qualifying_targets streams settings) scanned).statuses
        ≡ find_status k
            (upsert_tracked_media path
              (final_audio_layout streams (detect_qualifying_targets streams settings))
              settings
              later
              scanned).statuses
  record_targets-rescan k =
      let i = row_id path tables in
      let ks = keys_at i (qs streams settings) in
      let recorded = ap (find_status k) (
        record_targets-statuses path i (qs streams settings) scanned
          (upsert-IsRow path streams settings ids tables)) in
      elim (In-decided k ks) [
        | inl m ↦
            recorded
            ∙ put_statuses-hit (λ _. processed) k ks scanned.statuses m
            ∙ rescan_detected k m
        | inr n ↦
            recorded ∙ put_statuses-miss (λ _. processed) k ks scanned.statuses n ∙ rescan_other k n
      ]
