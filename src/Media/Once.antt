-- ===== src/Media/Once.antt =====
-- The unique columns of the tables of the tracked files stay unique under every write.
use collapsarr.Common.{
  ℕ, ◌≡◌, refl, sym, ◌∙◌, inl, inr, none, some, List, [], ◌∷◌, ◌++◌, map, In, All, All-append,
  Distinct, Distinct-append_one, suc, ◌<◌, Str, str_eq_iff, Bool-cases, Option-cases, subst, arith,
  ap, ◌==◌, ==_iff,
}
use collapsarr.Downmix.Stream.{AudioStreamInfo}
use collapsarr.Downmix.Targets.{
  DownmixTarget, DownmixSettings, target_order, detect_qualifying_targets,
}
use collapsarr.Media.Rows.{
  MediaTargetStatus, TrackedMediaFile, StatusKey, TrackedMediaTargetStatus, MediaTables, SourceIds,
  get_tracked_media, new_file, get_or_add, write_file, linked_file, stream_languages, enabled_list,
  status_keys, status_of, key_eq, put_status, find_status, put_statuses, upsert_tracked_media,
  record_target_processed,
}
use collapsarr.Media.Statuses.{key_eq_iff, find_status-put_status}
use collapsarr.Media.Agree.{get_or_add-IsRow}

-- No two rows of the statuses have the same file, language and target.
abbrev pub HasStatusesOnce : List TrackedMediaTargetStatus → Type 0
HasStatusesOnce [] = Unit
HasStatusesOnce (row ∷ rows) = (find_status row.key rows ≡ none) × HasStatusesOnce rows

put_status-HasStatusesOnce :
    (k : StatusKey) (s : MediaTargetStatus) (rows : List TrackedMediaTargetStatus)
    → HasStatusesOnce rows
    → HasStatusesOnce (put_status k s rows)
unfolding put_status find_status
put_status-HasStatusesOnce k s [] h = (refl, tt)
put_status-HasStatusesOnce k s (row ∷ rows) h = elim (Bool-cases (key_eq row.key k)) [
  | inl same ↦ rw same h
  | inr other ↦ rw other (
    ground (
      arith,
      find_status-put_status row.key k s rows,
      key_eq_iff k row.key,
      key_eq_iff row.key k,
    ),
    put_status-HasStatusesOnce k s rows h.1,
  )
]

put_statuses-HasStatusesOnce :
    (f : StatusKey → MediaTargetStatus) (ks : List StatusKey) (rows : List TrackedMediaTargetStatus)
    → HasStatusesOnce rows
    → HasStatusesOnce (put_statuses f ks rows)
unfolding put_statuses
put_statuses-HasStatusesOnce f [] rows h = h
put_statuses-HasStatusesOnce f (k ∷ ks) rows h =
    put_statuses-HasStatusesOnce f ks (put_status k (f k) rows)
      (put_status-HasStatusesOnce k (f k) rows h)

-- The unique columns: the paths and the ids of the files, with ids below the next one, and the three
-- columns of a status together.
pub record IsUnique (tables : MediaTables) : Type 0 where
  pub paths : Distinct (map (λ m. m.file_path) tables.files)
  pub ids : Distinct (map (λ m. m.id) tables.files)
  pub below : All (λ i. i < tables.next_id) (map (λ m. m.id) tables.files)
  pub statuses : HasStatusesOnce tables.statuses

get_tracked_media-none :
    (path : Str) (ms : List TrackedMediaFile)
    → get_tracked_media path ms ≡ none
    → ¬ In path (map (λ m. m.file_path) ms)
unfolding get_tracked_media
get_tracked_media-none path [] e i = i
get_tracked_media-none path (m ∷ ms) e (inl same) = ground (arith, str_eq_iff m.file_path path)
get_tracked_media-none path (m ∷ ms) e (inr i) = get_tracked_media-none path ms (ground arith) i

fresh_id : (n : ℕ) (is : List ℕ) → All (λ i. i < n) is → ¬ In n is
fresh_id n [] h i = i
fresh_id n (j ∷ is) h (inl e) = omega (arith, h.0, e)
fresh_id n (j ∷ is) h (inr m) = fresh_id n is h.1 m

below_suc : (n : ℕ) (is : List ℕ) → All (λ i. i < n) is → All (λ i. i < suc n) is
below_suc n [] h = tt
below_suc n (j ∷ is) h = (omega (arith, h.0), below_suc n is h.1)

map-append_one :
    {B : Type 0} (f : TrackedMediaFile → B) (ms : List TrackedMediaFile) (m : TrackedMediaFile)
    → map f (ms ++ m ∷ []) ≡ map f ms ++ f m ∷ []
map-append_one f [] m = refl
map-append_one f (n ∷ ms) m = rw (map-append_one f ms m) refl

get_or_add-IsUnique :
    (path : Str) (tables : MediaTables) → IsUnique tables → IsUnique (get_or_add path tables).0
unfolding get_or_add
get_or_add-IsUnique path tables u = elim (Option-cases (get_tracked_media path tables.files)) [
  | inr (m, found) ↦ rw found u
  | inl fresh ↦ rw fresh (record {
    paths =
        rw (map-append_one (λ m. m.file_path) tables.files (new_file tables.next_id path))
          (Distinct-append_one path _ (get_tracked_media-none path tables.files fresh) u.paths);
    ids =
        rw (map-append_one (λ m. m.id) tables.files (new_file tables.next_id path))
          (Distinct-append_one tables.next_id _ (fresh_id tables.next_id _ u.below) u.ids);
    below = rw (map-append_one (λ m. m.id) tables.files (new_file tables.next_id path)) (
        All-append (λ i. i < suc tables.next_id) _ _ (below_suc tables.next_id _ u.below)
          (omega arith, tt));
    statuses = u.statuses;
  })
]

get_tracked_media-In :
    (path : Str) (ms : List TrackedMediaFile) (m : TrackedMediaFile)
    → get_tracked_media path ms ≡ some m
    → In m ms
unfolding get_tracked_media
get_tracked_media-In path [] m e = ground arith
get_tracked_media-In path (n ∷ ms) m e = ground (arith, get_tracked_media-In path ms m)

In-map :
    {B : Type 0} (f : TrackedMediaFile → B) (ms : List TrackedMediaFile) (m : TrackedMediaFile)
    → In m ms
    → In (f m) (map f ms)
In-map f [] m i = i
In-map f (n ∷ ms) m (inl e) = inl (ap f e)
In-map f (n ∷ ms) m (inr i) = inr (In-map f ms m i)

-- A row is the only one with its id.
same_id :
    (ms : List TrackedMediaFile) (m n : TrackedMediaFile)
    → Distinct (map (λ x. x.id) ms)
    → In m ms
    → In n ms
    → n.id ≡ m.id
    → n ≡ m
same_id [] m n d i j e = absurd i
same_id (x ∷ ms) m n d (inl a) (inl b) e = sym b ∙ a
same_id (x ∷ ms) m n d (inl a) (inr j) e = absurd (
    d.0 (
      subst (λ y. In y (map (λ z. z.id) ms)) (e ∙ sym (ap (λ z. z.id) a))
        (In-map (λ z. z.id) ms n j)))
same_id (x ∷ ms) m n d (inr i) (inl b) e = absurd (
    d.0 (
      subst (λ y. In y (map (λ z. z.id) ms)) (sym e ∙ sym (ap (λ z. z.id) b))
        (In-map (λ z. z.id) ms m i)))
same_id (x ∷ ms) m n d (inr i) (inr j) e = same_id ms m n d.1 i j e

map-write_file :
    {B : Type 0} (f : TrackedMediaFile → B) (new : TrackedMediaFile) (ms : List TrackedMediaFile)
    → ((n : TrackedMediaFile) → In n ms → n.id ≡ new.id → f n ≡ f new)
    → map f (write_file new ms) ≡ map f ms
unfolding write_file
map-write_file f new [] h = refl
map-write_file f new (n ∷ ms) h = elim (Bool-cases (n.id == new.id)) [
  | inl same ↦ rw same (
      rw (map-write_file f new ms (λ x i. h x (inr i)))
        (rw (h n (inl refl) ((==_iff n.id new.id).0 same)) refl))
  | inr other ↦ rw other (rw (map-write_file f new ms (λ x i. h x (inr i))) refl)
]

-- An upsert keeps the unique columns unique: one row for each path, one for each id, and one status
-- for each language and target of a file.
pub upsert_tracked_media-IsUnique :
    (path : Str) (streams : List AudioStreamInfo) (settings : DownmixSettings) (ids : SourceIds)
    (tables : MediaTables)
    → IsUnique tables
    → IsUnique (upsert_tracked_media path streams settings ids tables)
unfolding upsert_tracked_media linked_file
upsert_tracked_media-IsUnique path streams settings ids tables u =
    let (found, p) = get_or_add-IsRow path tables in
    let v = get_or_add-IsUnique path tables u in
    let files = (get_or_add path tables).0.files in
    let m = (get_or_add path tables).1 in
    let i = get_tracked_media-In path files m found in
    let paths =
      map-write_file (λ x. x.file_path) (linked_file ids streams m) files
        (λ n j e. ap (λ x. x.file_path) (same_id files m n v.ids i j e)) in
    let file_ids = map-write_file (λ x. x.id) (linked_file ids streams m) files (λ n j e. e) in
    record {
      paths = rw paths v.paths;
      ids = rw file_ids v.ids;
      below = rw file_ids v.below;
      statuses =
          put_statuses-HasStatusesOnce
            (status_of settings (detect_qualifying_targets streams settings))
            (status_keys m.id (stream_languages [] streams)
              (enabled_list settings.enabled_targets target_order))
            (get_or_add path tables).0.statuses v.statuses;
    }

-- So does the record of one processed pair.
pub record_target_processed-IsUnique :
    (path l : Str) (t : DownmixTarget) (tables : MediaTables)
    → IsUnique tables
    → IsUnique (record_target_processed path l t tables)
unfolding record_target_processed
record_target_processed-IsUnique path l t tables u =
    let v = get_or_add-IsUnique path tables u in
    record {
      paths = v.paths;
      ids = v.ids;
      below = v.below;
      statuses = put_status-HasStatusesOnce _ _ _ v.statuses;
    }
