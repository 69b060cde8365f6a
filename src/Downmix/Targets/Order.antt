-- ===== src/Downmix/Targets/Order.antt =====
-- The order of the result of `detect_qualifying_targets`.
use collapsarr.Common.{
  ℕ, ◌<◌, ◌≡◌, refl, ◌⊎◌, inl, inr, true, List, [], ◌∷◌, ◌++◌, Str, str_eq, str_eq_iff, str_lt,
  str_lt_trans, str_lt_total, In, All, All-append, Bool-cases, arith,
}
use collapsarr.Downmix.Stream.{AudioStreamInfo}
use collapsarr.Downmix.Targets.{
  DownmixTarget, target_channels, target_order, DownmixSettings, QualifyingTarget, Groups,
  is_allowed, add_channels, group_streams, counts_of, languages, insert_sorted, sort_languages,
  language_targets, all_targets, detect_qualifying_targets,
}

-- By language, then by the channels of the target.
abbrev pub Before : QualifyingTarget → QualifyingTarget → Type 0
Before q r =
    (str_lt q.language r.language ≡ true)
    ⊎ (q.language ≡ r.language) × (target_channels q.target < target_channels r.target)

-- Each pair stands before all that follow it, so none occurs twice.
abbrev pub IsAscending : List QualifyingTarget → Type 0
IsAscending [] = Unit
IsAscending (q ∷ qs) = All (λ r. Before q r) qs × IsAscending qs

abbrev Distinct : List Str → Type 0
Distinct [] = Unit
Distinct (l ∷ ls) = ¬ In l ls × Distinct ls

abbrev IsStrict : List Str → Type 0
IsStrict [] = Unit
IsStrict (l ∷ ls) = All (λ k. str_lt l k ≡ true) ls × IsStrict ls

languages-add_channels :
    (l k : Str) (c : ℕ) (g : Groups)
    → In k (languages (add_channels l c g))
    → (l ≡ k) ⊎ In k (languages g)
unfolding languages add_channels
languages-add_channels l k c [] i = i
languages-add_channels l k c ((j, ds) ∷ g) i = ground (arith, languages-add_channels l k c g)

add_channels-Distinct :
    (l : Str) (c : ℕ) (g : Groups)
    → Distinct (languages g)
    → Distinct (languages (add_channels l c g))
unfolding languages add_channels
add_channels-Distinct l c [] d = (λ i. i, tt)
add_channels-Distinct l c ((j, ds) ∷ g) (new, d) = elim (Bool-cases (str_eq j l)) [
  | inl same ↦ rw same (new, d)
  | inr other ↦ rw other (
    λ i. elim (languages-add_channels l j c g i) [
      | inl e ↦ ground (arith, str_eq_iff j l)
      | inr old ↦ new old
    ],
    add_channels-Distinct l c g d,
  )
]

group_streams-Distinct :
    (settings : DownmixSettings) (xs : List AudioStreamInfo) (g : Groups)
    → Distinct (languages g)
    → Distinct (languages (group_streams settings g xs))
unfolding group_streams
group_streams-Distinct settings [] g d = d
group_streams-Distinct settings (x ∷ xs) g d =
    elim (Bool-cases (is_allowed settings.language_allow_list x.language)) [
      | inl kept ↦
          rw kept
            (group_streams-Distinct settings xs _ (add_channels-Distinct x.language x.channels g d))
      | inr dropped ↦ rw dropped (group_streams-Distinct settings xs g d)
    ]

module _ (P : Str → Type 0) where
  All-insert_sorted : (l : Str) (ls : List Str) → P l → All P ls → All P (insert_sorted l ls)
  unfolding insert_sorted
  All-insert_sorted l [] p h = (p, tt)
  All-insert_sorted l (k ∷ ks) p h = elim (Bool-cases (str_lt k l)) [
    | inl less ↦ rw less (h.0, All-insert_sorted l ks p h.1)
    | inr not_less ↦ rw not_less (p, h)
  ]

  All-sort_languages : (ls : List Str) → All P ls → All P (sort_languages ls)
  unfolding sort_languages
  All-sort_languages [] h = tt
  All-sort_languages (l ∷ ls) h =
      All-insert_sorted l (sort_languages ls) h.0 (All-sort_languages ls h.1)

All-str_lt :
    (l k : Str) (ks : List Str)
    → str_lt l k ≡ true
    → All (λ m. str_lt k m ≡ true) ks
    → All (λ m. str_lt l m ≡ true) ks
All-str_lt l k [] p h = tt
All-str_lt l k (m ∷ ks) p h = (str_lt_trans l k m p h.0, All-str_lt l k ks p h.1)

insert_sorted-IsStrict :
    (l : Str) (ls : List Str)
    → All (λ k. ¬ (k ≡ l)) ls
    → IsStrict ls
    → IsStrict (insert_sorted l ls)
unfolding insert_sorted
insert_sorted-IsStrict l [] n s = (tt, tt)
insert_sorted-IsStrict l (k ∷ ks) n s = elim (Bool-cases (str_lt k l)) [
  | inl less ↦ rw less (
    All-insert_sorted (λ m. str_lt k m ≡ true) l ks less s.0,
    insert_sorted-IsStrict l ks n.1 s.1,
  )
  | inr not_less ↦
      let below : str_lt l k ≡ true = ground (arith, str_lt_total l k, n.0) in
      rw not_less ((below, All-str_lt l k ks below s.0), s)
]

not_In-All : (l : Str) (ls : List Str) → ¬ In l ls → All (λ k. ¬ (k ≡ l)) ls
not_In-All l [] n = tt
not_In-All l (k ∷ ks) n = (λ e. n (inl e), not_In-All l ks (λ i. n (inr i)))

sort_languages-IsStrict : (ls : List Str) → Distinct ls → IsStrict (sort_languages ls)
unfolding sort_languages
sort_languages-IsStrict [] d = tt
sort_languages-IsStrict (l ∷ ls) d =
    insert_sorted-IsStrict l (sort_languages ls)
      (All-sort_languages (λ k. ¬ (k ≡ l)) ls (not_In-All l ls d.0))
      (sort_languages-IsStrict ls d.1)

abbrev RisesFrom : DownmixTarget → List DownmixTarget → Type 0
RisesFrom t ts = All (λ u. target_channels t < target_channels u) ts

abbrev Rising : List DownmixTarget → Type 0
Rising [] = Unit
Rising (t ∷ ts) = RisesFrom t ts × Rising ts

module _ (settings : DownmixSettings) (l : Str) (counts : List ℕ) where
  All-language_targets :
      (P : QualifyingTarget → Type 0) (ts : List DownmixTarget)
      → All (λ t. P (record { language = l; target = t })) ts
      → All P (language_targets settings l counts ts)
  unfolding language_targets
  All-language_targets P [] h = tt
  All-language_targets P (t ∷ ts) h = ground (arith, All-language_targets P ts h.1)

  All-Before :
      (t : DownmixTarget) (ts : List DownmixTarget)
      → RisesFrom t ts
      → All
          (λ u. Before (record { language = l; target = t }) (record { language = l; target = u }))
          ts
  All-Before t [] h = tt
  All-Before t (u ∷ ts) h = (inr (refl, h.0), All-Before t ts h.1)

  language_targets-IsAscending :
      (ts : List DownmixTarget) → Rising ts → IsAscending (language_targets settings l counts ts)
  unfolding language_targets
  language_targets-IsAscending [] h = tt
  language_targets-IsAscending (t ∷ ts) h = ground (
    arith,
    language_targets-IsAscending ts h.1,
    All-language_targets (Before (record { language = l; target = t })) ts (All-Before t ts h.0),
  )

append-IsAscending :
    (l : Str) (xs ys : List QualifyingTarget)
    → All (λ q. q.language ≡ l) xs
    → All (λ r. str_lt l r.language ≡ true) ys
    → IsAscending xs
    → IsAscending ys
    → IsAscending (xs ++ ys)
append-IsAscending l [] ys e h a b = b
append-IsAscending l (x ∷ xs) ys e h a b =
    (All-append (Before x) xs ys a.0 (All-above ys h), append-IsAscending l xs ys e.1 h a.1 b)
  where
    All-above :
        (rs : List QualifyingTarget) → All (λ r. str_lt l r.language ≡ true) rs → All (Before x) rs
    All-above [] h = tt
    All-above (r ∷ rs) h = (inl (rw e.0 h.0), All-above rs h.1)

module _ (settings : DownmixSettings) (g : Groups) where
  All-all_targets :
      (P : Str → Type 0) (ls : List Str)
      → All P ls
      → All (λ r. P r.language) (all_targets settings g ls)
  unfolding all_targets
  All-all_targets P [] h = tt
  All-all_targets P (l ∷ ls) h =
      All-append (λ r. P r.language) (language_targets settings l (counts_of l g) target_order) _
        (All-language_targets settings l (counts_of l g) (λ r. P r.language) target_order
          (h.0, (h.0, (h.0, tt))))
        (All-all_targets P ls h.1)

  all_targets-IsAscending : (ls : List Str) → IsStrict ls → IsAscending (all_targets settings g ls)
  unfolding all_targets target_channels
  all_targets-IsAscending [] h = tt
  all_targets-IsAscending (l ∷ ls) h =
      append-IsAscending l (language_targets settings l (counts_of l g) target_order) _
        (All-language_targets settings l (counts_of l g) (λ r. r.language ≡ l) target_order
          (refl, (refl, (refl, tt))))
        (All-all_targets (λ k. str_lt l k ≡ true) ls h.0)
        (language_targets-IsAscending settings l (counts_of l g) target_order (omega arith))
        (all_targets-IsAscending ls h.1)

-- The pairs come in ascending order of language, and within a language of channel count, each at
-- most once.
pub detect-IsAscending :
    (streams : List AudioStreamInfo) (settings : DownmixSettings)
    → IsAscending (detect_qualifying_targets streams settings)
unfolding detect_qualifying_targets
detect-IsAscending streams settings =
    all_targets-IsAscending settings (group_streams settings [] streams) _
      (sort_languages-IsStrict _ (group_streams-Distinct settings streams [] tt))
