-- ===== src/Downmix/Targets/Qualify.antt =====
-- Which pairs `detect_qualifying_targets` returns.
use collapsarr.Common.{
  ℕ, ◌<◌, ◌≡◌, ◌∙◌, refl, subst, sym, ◌≢◌, ◌↔◌, ◌⊎◌, inl, inr, true, false, List, [], ◌∷◌, Str, In,
  In-append_left, In-append_right, In-append_cases, Bool-cases, arith,
}
use mathlib.Core.Bool.{false≢true}
use collapsarr.Downmix.Stream.{AudioStreamInfo}
use collapsarr.Downmix.Targets.{
  DownmixTarget, stereo, two_point_one, five_point_one, target_channels, target_order,
  DownmixSettings, QualifyingTarget, Groups, is_enabled, is_allowed, has_count, max_count,
  group_streams, counts_of, insert_sorted, sort_languages, language_targets, all_targets,
  detect_qualifying_targets,
}
use collapsarr.Downmix.Targets.Groups.{
  Reads, has_count_iff, max_count-lt, max_count_found, counts_of-group_streams,
  group_streams-counts_of, In-languages,
}

-- The rule for one pair, over the streams themselves.
pub record Qualifies (streams : List AudioStreamInfo) (settings : DownmixSettings)
    (q : QualifyingTarget) : Type 0 where
  pub enabled : is_enabled settings.enabled_targets q.target ≡ true
  pub allowed : is_allowed settings.language_allow_list q.language ≡ true
  pub higher :
      (x : AudioStreamInfo) × In x streams
      × (x.language ≡ q.language)
      × (target_channels q.target < x.channels)
  pub absent :
      (x : AudioStreamInfo)
      → In x streams
      → x.language ≡ q.language
      → x.channels ≢ target_channels q.target

-- The tests that the inner loop makes on one target.
abbrev Passes : DownmixSettings → List ℕ → DownmixTarget → Type 0
Passes settings counts t =
    (is_enabled settings.enabled_targets t ≡ true)
    × (target_channels t < max_count counts)
    × (has_count counts (target_channels t) ≡ false)

In-language_targets :
    (settings : DownmixSettings) (l : Str) (counts : List ℕ) (ts : List DownmixTarget)
    (q : QualifyingTarget)
    → In q (language_targets settings l counts ts)
    → (q.language ≡ l) × Passes settings counts q.target
unfolding language_targets
In-language_targets settings l counts [] q i = absurd i
In-language_targets settings l counts (t ∷ ts) q i =
    ground (arith, In-language_targets settings l counts ts q)

language_targets-In :
    (settings : DownmixSettings) (l : Str) (counts : List ℕ) (ts : List DownmixTarget)
    (t : DownmixTarget)
    → In t ts
    → Passes settings counts t
    → In (record { language = l; target = t }) (language_targets settings l counts ts)
unfolding language_targets
language_targets-In settings l counts [] t i p = absurd i
language_targets-In settings l counts (u ∷ ts) t i p =
    ground (arith, language_targets-In settings l counts ts t)

In-target_order : (t : DownmixTarget) → In t target_order
In-target_order stereo = inl refl
In-target_order two_point_one = inr (inl refl)
In-target_order five_point_one = inr (inr (inl refl))

In-insert_sorted : (k l : Str) (ls : List Str) → (k ≡ l) ⊎ In l ls → In l (insert_sorted k ls)
unfolding insert_sorted
In-insert_sorted k l [] i = i
In-insert_sorted k l (m ∷ ls) i = ground (arith, In-insert_sorted k l ls)

In-sort_languages : (l : Str) (ls : List Str) → In l ls → In l (sort_languages ls)
unfolding sort_languages
In-sort_languages l [] i = i
In-sort_languages l (k ∷ ls) (inl e) = In-insert_sorted k l (sort_languages ls) (inl e)
In-sort_languages l (k ∷ ls) (inr i) =
    In-insert_sorted k l (sort_languages ls) (inr (In-sort_languages l ls i))

In-all_targets :
    (settings : DownmixSettings) (g : Groups) (ls : List Str) (q : QualifyingTarget)
    → In q (all_targets settings g ls)
    → Passes settings (counts_of q.language g) q.target
unfolding all_targets
In-all_targets settings g [] q i = absurd i
In-all_targets settings g (l ∷ ls) q i =
    elim (In-append_cases q (language_targets settings l (counts_of l g) target_order) _ i) [
      | inl now ↦
          let (e, p) = In-language_targets settings l (counts_of l g) target_order q now in
          subst (λ k. Passes settings (counts_of k g) q.target) (sym e) p
      | inr later ↦ In-all_targets settings g ls q later
    ]

all_targets-In :
    (settings : DownmixSettings) (g : Groups) (ls : List Str) (l : Str) (t : DownmixTarget)
    → In l ls
    → Passes settings (counts_of l g) t
    → In (record { language = l; target = t }) (all_targets settings g ls)
unfolding all_targets
all_targets-In settings g [] l t i p = absurd i
all_targets-In settings g (k ∷ ls) l t (inl e) p = In-append_left _ _ _ (
    subst
      (λ m.
        In (record { language = l; target = t })
          (language_targets settings m (counts_of m g) target_order))
      (sym e) (language_targets-In settings l (counts_of l g) target_order t (In-target_order t) p))
all_targets-In settings g (k ∷ ls) l t (inr i) p =
    In-append_right _ (language_targets settings k (counts_of k g) target_order) _
      (all_targets-In settings g ls l t i p)

-- The dict after the first loop.
abbrev groups : DownmixSettings → List AudioStreamInfo → Groups
groups settings streams = group_streams settings [] streams

module _ (settings : DownmixSettings) (streams : List AudioStreamInfo) (l : Str) (c : ℕ) where
  counts_of-Reads : In c (counts_of l (groups settings streams)) → Reads settings streams l c
  unfolding counts_of
  counts_of-Reads i = elim (counts_of-group_streams settings l c streams [] i) [
    | inl r ↦ r
    | inr h ↦ absurd h
  ]

  Reads-counts_of : Reads settings streams l c → In c (counts_of l (groups settings streams))
  Reads-counts_of (x, i, allowed, same, eq) =
      let allowed' =
        subst (λ k. is_allowed settings.language_allow_list k ≡ true) (sym same) allowed in
      let here = group_streams-counts_of settings x streams [] i allowed' in
      subst (λ d. In d (counts_of l (groups settings streams))) eq
        (subst (λ k. In x.channels (counts_of k (groups settings streams))) same here)

module _ (settings : DownmixSettings) (streams : List AudioStreamInfo) (q : QualifyingTarget) where
  abbrev its_counts : List ℕ
  its_counts = counts_of q.language (groups settings streams)

  Passes→Qualifies : Passes settings its_counts q.target → Qualifies streams settings q
  Passes→Qualifies p =
      let (d, i, more) = max_count_found its_counts (target_channels q.target) p.1 in
      let (x, m, allowed, same, eq) = counts_of-Reads settings streams q.language d i in
      record {
        enabled = p.0;
        allowed = allowed;
        higher = (x, m, same, subst (λ c. target_channels q.target < c) (sym eq) more);
        absent = λ y n same' eq'. false≢true (
            sym p.2
            ∙ (has_count_iff its_counts (target_channels q.target)).1 (
                Reads-counts_of settings streams q.language (target_channels q.target)
                  (y, n, allowed, same', eq')));
      }

  Qualifies→Passes : Qualifies streams settings q → Passes settings its_counts q.target
  Qualifies→Passes h =
      let (x, m, same, more) = h.higher in
      (
        h.enabled,
        max_count-lt its_counts (target_channels q.target) x.channels
            (Reads-counts_of settings streams q.language x.channels (x, m, h.allowed, same, refl))
            more,
        elim (Bool-cases (has_count its_counts (target_channels q.target))) [
          | inr new ↦ new
          | inl old ↦
              let (y, n, _, same', eq) =
                counts_of-Reads settings streams q.language (target_channels q.target)
                  ((has_count_iff its_counts (target_channels q.target)).0 old) in
              absurd (h.absent y n same' eq)
        ],
      )

-- A pair is returned exactly when its target is enabled, its language is allowed, the language has
-- a stream with more channels than the target, and none at the target's own channel count.
pub detect_iff :
    (streams : List AudioStreamInfo) (settings : DownmixSettings) (q : QualifyingTarget)
    → In q (detect_qualifying_targets streams settings) ↔ Qualifies streams settings q
unfolding detect_qualifying_targets
detect_iff streams settings q = (
  λ i. Passes→Qualifies settings streams q (In-all_targets settings _ _ q i),
  λ h.
      let (x, m, same, more) = h.higher in
      all_targets-In settings (groups settings streams) _ q.language q.target
        (In-sort_languages q.language _ (
          In-languages q.language x.channels (groups settings streams)
            (Reads-counts_of settings streams q.language x.channels (x, m, h.allowed, same, refl))))
        (Qualifies→Passes settings streams q h),
)
