-- ===== src/Downmix/Targets/Groups.antt =====
-- What `channels_by_language` holds after the loop over the streams.
use collapsarr.Common.{
  ℕ, ◌<◌, ◌≡◌, refl, subst, ◌↔◌, ◌⊎◌, inl, inr, true, List, [], ◌∷◌, ltb, Str, str_eq, str_eq_iff,
  In, Bool-cases, arith,
}
use collapsarr.Downmix.Stream.{AudioStreamInfo}
use collapsarr.Downmix.Targets.{
  DownmixSettings, Groups, is_allowed, has_count, max_count, add_count, add_channels, group_streams,
  counts_of, languages,
}

pub has_count_iff : (ds : List ℕ) (c : ℕ) → (has_count ds c ≡ true) ↔ In c ds
unfolding has_count
has_count_iff [] c = ground arith
has_count_iff (d ∷ ds) c = ground (arith, has_count_iff ds c)

In-add_count : (c d : ℕ) (ds : List ℕ) → In d (add_count c ds) ↔ ((c ≡ d) ⊎ In d ds)
unfolding add_count
In-add_count c d ds = elim (Bool-cases (has_count ds c)) [
  | inl old ↦ rw old (
    λ i. inr i,
    λ o. elim o [ inl e ↦ subst (λ x. In x ds) e ((has_count_iff ds c).0 old) | inr i ↦ i ],
  )
  | inr new ↦ rw new (λ i. i, λ i. i)
]

pub max_count-lt : (ds : List ℕ) (c d : ℕ) → In d ds → c < d → c < max_count ds
unfolding max_count
max_count-lt [] c d i h = absurd i
max_count-lt (e ∷ ds) c d (inl p) h = ground arith
max_count-lt (e ∷ ds) c d (inr i) h = ground (arith, max_count-lt ds c d i h)

pub max_count_found : (ds : List ℕ) (c : ℕ) → c < max_count ds → (d : ℕ) × In d ds × (c < d)
unfolding max_count
max_count_found [] c h = absurd (omega arith)
max_count_found (e ∷ ds) c h = elim (Bool-cases (ltb e (max_count ds))) [
  | inl less ↦ let (d, i, more) = max_count_found ds c (rw less at h) in (d, inr i, more)
  | inr not_less ↦ (e, inl refl, rw not_less at h)
]

counts_of-add_channels :
    (k l : Str) (c d : ℕ) (g : Groups)
    → In d (counts_of l (add_channels k c g)) ↔ ((k ≡ l) × (c ≡ d) ⊎ In d (counts_of l g))
unfolding counts_of add_channels
counts_of-add_channels k l c d [] = ground (arith, str_eq_iff k l)
counts_of-add_channels k l c d ((j, ds) ∷ g) = ground (
  arith,
  str_eq_iff j k,
  str_eq_iff j l,
  str_eq_iff k l,
  counts_of-add_channels k l c d g,
  In-add_count c d ds,
)

-- A stream that the loop reads: it is on the list, and its language is allowed.
abbrev pub Reads : DownmixSettings → List AudioStreamInfo → Str → ℕ → Type 0
Reads settings streams l d =
    (x : AudioStreamInfo) × In x streams
    × (is_allowed settings.language_allow_list l ≡ true)
    × (x.language ≡ l)
    × (x.channels ≡ d)

-- The channel counts of a language are those of its streams.
pub counts_of-group_streams :
    (settings : DownmixSettings) (l : Str) (d : ℕ) (xs : List AudioStreamInfo) (g : Groups)
    → In d (counts_of l (group_streams settings g xs))
    → Reads settings xs l d ⊎ In d (counts_of l g)
unfolding group_streams
counts_of-group_streams settings l d [] g h = inr h
counts_of-group_streams settings l d (x ∷ xs) g h =
    elim (Bool-cases (is_allowed settings.language_allow_list x.language)) [
      | inl allowed ↦ elim (counts_of-group_streams settings l d xs _ h) [
        | inl (y, i, a, p, q) ↦ inl (y, inr i, a, p, q)
        | inr i ↦ elim ((counts_of-add_channels x.language l x.channels d g).0 (rw allowed at i)) [
          | inl (p, q) ↦ inl (x, inl refl, rw p at allowed, p, q)
          | inr old ↦ inr old
        ]
      ]
      | inr refused ↦ elim (counts_of-group_streams settings l d xs _ h) [
        | inl (y, i, a, p, q) ↦ inl (y, inr i, a, p, q)
        | inr i ↦ inr (rw refused at i)
      ]
    ]

pub group_streams_mono :
    (settings : DownmixSettings) (l : Str) (d : ℕ) (xs : List AudioStreamInfo) (g : Groups)
    → In d (counts_of l g)
    → In d (counts_of l (group_streams settings g xs))
unfolding group_streams
group_streams_mono settings l d [] g h = h
group_streams_mono settings l d (x ∷ xs) g h =
    elim (Bool-cases (is_allowed settings.language_allow_list x.language)) [
      | inl allowed ↦ rw allowed (
          group_streams_mono settings l d xs _
            ((counts_of-add_channels x.language l x.channels d g).1 (inr h)))
      | inr refused ↦ rw refused (group_streams_mono settings l d xs g h)
    ]

pub group_streams-counts_of :
    (settings : DownmixSettings) (x : AudioStreamInfo) (xs : List AudioStreamInfo) (g : Groups)
    → In x xs
    → is_allowed settings.language_allow_list x.language ≡ true
    → In x.channels (counts_of x.language (group_streams settings g xs))
unfolding group_streams
group_streams-counts_of settings x [] g i a = absurd i
group_streams-counts_of settings x (y ∷ xs) g (inl e) a =
    rw (e, a)
      (group_streams_mono settings x.language x.channels xs _ (
        (counts_of-add_channels x.language x.language x.channels x.channels g).1
          (inl (refl, refl))))
group_streams-counts_of settings x (y ∷ xs) g (inr i) a =
    group_streams-counts_of settings x xs _ i a

-- A language with a channel count is a key.
pub In-languages : (l : Str) (d : ℕ) (g : Groups) → In d (counts_of l g) → In l (languages g)
unfolding languages counts_of
In-languages l d [] i = absurd i
In-languages l d ((k, ds) ∷ g) i = elim (Bool-cases (str_eq k l)) [
  | inl same ↦ inl ((str_eq_iff k l).0 same)
  | inr other ↦ inr (In-languages l d g (rw other at i))
]
