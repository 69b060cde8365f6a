-- ===== src/Media/Statuses.antt =====
-- The table of statuses under each write.
use mathlib.Core.Bool.{true≢false}
use collapsarr.Common.{
  ℕ, ◌≡◌, refl, sym, ap, ◌∙◌, subst, ◌↔◌, ◌⊎◌, inl, inr, true, false, some, List, [], ◌∷◌, map, Str,
  str_eq_iff, ==_iff, if◌then◌else◌, In, In-append_left, In-append_right, In-append_cases,
  Bool-cases, arith,
}
use collapsarr.Downmix.Stream.{AudioStreamInfo}
use collapsarr.Downmix.Targets.{
  DownmixTarget, stereo, two_point_one, five_point_one, QualifyingTarget, target_eq, target_order,
  is_enabled, has_language,
}
use collapsarr.Media.Rows.{
  MediaTargetStatus, StatusKey, TrackedMediaTargetStatus, see, stream_languages, enabled_list,
  status_keys, qualifies, key_eq, put_status, find_status, put_statuses,
}

pub target_eq_iff : (s t : DownmixTarget) → (target_eq s t ≡ true) ↔ (s ≡ t)
unfolding target_eq
target_eq_iff stereo stereo = ground arith
target_eq_iff stereo two_point_one = ground arith
target_eq_iff stereo five_point_one = ground arith
target_eq_iff two_point_one stereo = ground arith
target_eq_iff two_point_one two_point_one = ground arith
target_eq_iff two_point_one five_point_one = ground arith
target_eq_iff five_point_one stereo = ground arith
target_eq_iff five_point_one two_point_one = ground arith
target_eq_iff five_point_one five_point_one = ground arith

pub key_eq_iff : (j k : StatusKey) → (key_eq j k ≡ true) ↔ (j ≡ k)
unfolding key_eq
key_eq_iff j k = ground (
  arith,
  ==_iff j.media_id k.media_id,
  str_eq_iff j.language k.language,
  target_eq_iff j.target k.target,
)

module _ (x k j : StatusKey) where
  eq_at : key_eq x k ≡ true → key_eq x j ≡ true → key_eq k j ≡ true
  eq_at a b = (key_eq_iff k j).1 (sym ((key_eq_iff x k).0 a) ∙ (key_eq_iff x j).0 b)

  other_at : key_eq x k ≡ true → key_eq x j ≡ false → key_eq k j ≡ false
  other_at a b = subst (λ y. key_eq y j ≡ false) ((key_eq_iff x k).0 a) b

  apart_at : key_eq x k ≡ false → key_eq x j ≡ true → key_eq k j ≡ false
  apart_at a b = elim (Bool-cases (key_eq k j)) [
    | inr differ ↦ differ
    | inl same ↦ absurd (
        true≢false
          (sym ((key_eq_iff x k).1 ((key_eq_iff x j).0 b ∙ sym ((key_eq_iff k j).0 same))) ∙ a))
  ]

pub qualifies_iff :
    (qs : List QualifyingTarget) (l : Str) (t : DownmixTarget)
    → (qualifies qs l t ≡ true) ↔ In (record { language = l; target = t }) qs
unfolding qualifies
qualifies_iff [] l t = ground arith
qualifies_iff (q ∷ qs) l t =
    ground (arith, str_eq_iff q.language l, target_eq_iff q.target t, qualifies_iff qs l t)

pub find_status-put_status :
    (j k : StatusKey) (s : MediaTargetStatus) (rows : List TrackedMediaTargetStatus)
    → find_status j (put_status k s rows) ≡ (if key_eq k j then some s else find_status j rows)
unfolding find_status put_status
find_status-put_status j k s [] = refl
find_status-put_status j k s (row ∷ rows) = elim (Bool-cases (key_eq row.key k)) [
  | inl same ↦ rw same (elim (Bool-cases (key_eq row.key j)) [
    | inl e ↦ rw e (rw (eq_at row.key k j same e) refl)
    | inr e ↦ rw e (rw (other_at row.key k j same e) refl)
  ])
  | inr other ↦ rw other (elim (Bool-cases (key_eq row.key j)) [
    | inl e ↦ rw e (rw (apart_at row.key k j other e) refl)
    | inr e ↦ rw e (find_status-put_status j k s rows)
  ])
]

module _ (f : StatusKey → MediaTargetStatus) where
  put_statuses-kept :
      (k : StatusKey) (ks : List StatusKey) (rows : List TrackedMediaTargetStatus)
      → find_status k rows ≡ some (f k)
      → find_status k (put_statuses f ks rows) ≡ some (f k)
  unfolding put_statuses
  put_statuses-kept k [] rows h = h
  put_statuses-kept k (j ∷ ks) rows h =
      put_statuses-kept k ks (put_status j (f j) rows) (elim (Bool-cases (key_eq j k)) [
        | inl same ↦
            find_status-put_status k j (f j) rows
            ∙ rw same (ap (λ i. some (f i)) ((key_eq_iff j k).0 same))
        | inr other ↦ find_status-put_status k j (f j) rows ∙ rw other h
      ])

  -- A key that the loop passes has its status behind it.
  pub put_statuses-hit :
      (k : StatusKey) (ks : List StatusKey) (rows : List TrackedMediaTargetStatus)
      → In k ks
      → find_status k (put_statuses f ks rows) ≡ some (f k)
  unfolding put_statuses
  put_statuses-hit k [] rows i = absurd i
  put_statuses-hit k (j ∷ ks) rows (inr i) = put_statuses-hit k ks (put_status j (f j) rows) i
  put_statuses-hit k (j ∷ ks) rows (inl e) =
      put_statuses-kept k ks (put_status j (f j) rows)
        (find_status-put_status k j (f j) rows ∙ rw ((key_eq_iff j k).1 e) (ap (λ i. some (f i)) e))

  -- Any other key keeps its status.
  pub put_statuses-miss :
      (k : StatusKey) (ks : List StatusKey) (rows : List TrackedMediaTargetStatus)
      → ¬ In k ks
      → find_status k (put_statuses f ks rows) ≡ find_status k rows
  unfolding put_statuses
  put_statuses-miss k [] rows n = refl
  put_statuses-miss k (j ∷ ks) rows n =
      put_statuses-miss k ks (put_status j (f j) rows) (λ i. n (inr i))
      ∙ find_status-put_status k j (f j) rows
      ∙ (elim (Bool-cases (key_eq j k)) [
        | inl same ↦ absurd (n (inl ((key_eq_iff j k).0 same)))
        | inr other ↦ rw other refl
      ])

has_language_iff : (ls : List Str) (l : Str) → (has_language ls l ≡ true) ↔ In l ls
unfolding has_language
has_language_iff [] l = ground arith
has_language_iff (k ∷ ks) l = ground (arith, str_eq_iff k l, has_language_iff ks l)

-- A stream of the language `l`.
abbrev pub HasStream : List AudioStreamInfo → Str → Type 0
HasStream streams l = (x : AudioStreamInfo) × In x streams × (x.language ≡ l)

see_iff : (seen : List Str) (l k : Str) → In k (see seen l) ↔ (In k seen ⊎ (l ≡ k))
unfolding see
see_iff seen l k = elim (Bool-cases (has_language seen l)) [
  | inl old ↦ rw old (
    λ i. inl i,
    λ i. elim i [ inl m ↦ m | inr e ↦ subst (λ j. In j seen) e ((has_language_iff seen l).0 old) ],
  )
  | inr new ↦ rw new (
    λ i. elim (In-append_cases k seen (l ∷ []) i) [
      | inl m ↦ inl m
      | inr (inl e) ↦ inr e
      | inr (inr m) ↦ absurd m
    ],
    λ i. elim i [
      | inl m ↦ In-append_left k seen (l ∷ []) m
      | inr e ↦ In-append_right k seen (l ∷ []) (inl e)
    ],
  )
]

stream_languages_from_iff :
    (l : Str) (xs : List AudioStreamInfo) (seen : List Str)
    → In l (stream_languages seen xs) ↔ (In l seen ⊎ HasStream xs l)
unfolding stream_languages
stream_languages_from_iff l [] seen =
    (λ i. inl i, λ i. elim i [ inl m ↦ m | inr (x, m, e) ↦ absurd m ])
stream_languages_from_iff l (x ∷ xs) seen = (
  λ i. elim ((stream_languages_from_iff l xs (see seen x.language)).0 i) [
    | inr (y, m, e) ↦ inr (y, inr m, e)
    | inl before ↦ elim ((see_iff seen x.language l).0 before) [
      | inl m ↦ inl m
      | inr e ↦ inr (x, inl refl, e)
    ]
  ],
  λ i. (stream_languages_from_iff l xs (see seen x.language)).1 (elim i [
    | inl m ↦ inl ((see_iff seen x.language l).1 (inl m))
    | inr (y, inr m, e) ↦ inr (y, m, e)
    | inr (y, inl same, e) ↦
        inl ((see_iff seen x.language l).1 (inr (ap (λ z. z.language) same ∙ e)))
  ]),
)

-- The languages of the loop are those of the streams.
pub stream_languages_iff :
    (l : Str) (xs : List AudioStreamInfo) → In l (stream_languages [] xs) ↔ HasStream xs l
stream_languages_iff l xs = (
  λ i. elim ((stream_languages_from_iff l xs []).0 i) [ inl h ↦ absurd h | inr h ↦ h ],
  λ h. (stream_languages_from_iff l xs []).1 (inr h),
)

enabled_list_iff :
    (enabled ts : List DownmixTarget) (t : DownmixTarget)
    → In t (enabled_list enabled ts) ↔ ((is_enabled enabled t ≡ true) × In t ts)
unfolding enabled_list
enabled_list_iff enabled [] t = ground arith
enabled_list_iff enabled (u ∷ ts) t = ground (arith, enabled_list_iff enabled ts t)

In-target_order : (t : DownmixTarget) → In t target_order
In-target_order stereo = inl refl
In-target_order two_point_one = inr (inl refl)
In-target_order five_point_one = inr (inr (inl refl))

-- The targets of the loop are the enabled ones.
pub enabled_list-target_order :
    (enabled : List DownmixTarget) (t : DownmixTarget)
    → In t (enabled_list enabled target_order) ↔ (is_enabled enabled t ≡ true)
enabled_list-target_order enabled t = (
  λ i. ((enabled_list_iff enabled target_order t).0 i).0,
  λ e. (enabled_list_iff enabled target_order t).1 (e, In-target_order t),
)

In-keys :
    (i : ℕ) (l : Str) (ts : List DownmixTarget) (k : StatusKey)
    → In k (map (λ t. record { media_id = i; language = l; target = t }) ts)
      ↔ ((k.media_id ≡ i) × (k.language ≡ l) × In k.target ts)
In-keys i l [] k = ground arith
In-keys i l (t ∷ ts) k = ground (arith, In-keys i l ts k)

pub status_keys_iff :
    (i : ℕ) (ls : List Str) (ts : List DownmixTarget) (k : StatusKey)
    → In k (status_keys i ls ts) ↔ ((k.media_id ≡ i) × In k.language ls × In k.target ts)
unfolding status_keys
status_keys_iff i [] ts k = ground arith
status_keys_iff i (l ∷ ls) ts k = (
  λ m.
      elim (In-append_cases k (map (λ t. record { media_id = i; language = l; target = t }) ts) _
        m) [
          | inl here ↦ let (a, b, c) = (In-keys i l ts k).0 here in (a, inl (sym b), c)
          | inr later ↦ let (a, b, c) = (status_keys_iff i ls ts k).0 later in (a, inr b, c)
        ],
  λ (a, b, c). elim b [
    | inl e ↦ In-append_left _ _ _ ((In-keys i l ts k).1 (a, sym e, c))
    | inr m ↦
        In-append_right _ (map (λ t. record { media_id = i; language = l; target = t }) ts) _
          ((status_keys_iff i ls ts k).1 (a, m, c))
  ],
)
