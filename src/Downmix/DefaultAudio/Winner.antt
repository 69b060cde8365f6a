-- ===== src/Downmix/DefaultAudio/Winner.antt =====
-- Which stream `resolve_default_audio_stream` chooses.
use collapsarr.Common.{
  ◌<◌, ◌≡◌, refl, sym, subst, inl, inr, ◌↔◌, ◌≢◌, true, false, none, some, List, [], ◌∷◌, str_eq,
  length, In, Bool-cases, Option-cases, arith,
}
use collapsarr.Downmix.DefaultAudio.{
  StreamRef, DefaultAudioPreference, is_exact, is_better, find_exact_match, same_language,
  best_from, best_available, best_in_language, resolve_default_audio_stream,
}

find_exact_match-some :
    (xs : List StreamRef) (p : DefaultAudioPreference) (w : StreamRef)
    → find_exact_match xs p ≡ some w
    → In w xs × (is_exact p w ≡ true)
unfolding find_exact_match
find_exact_match-some [] p w e = ground arith
find_exact_match-some (x ∷ xs) p w e = ground (arith, find_exact_match-some xs p w)

find_exact_match-none :
    (xs : List StreamRef) (p : DefaultAudioPreference) (x : StreamRef)
    → find_exact_match xs p ≡ none
    → In x xs
    → is_exact p x ≡ false
unfolding find_exact_match
find_exact_match-none [] p x e i = absurd i
find_exact_match-none (y ∷ xs) p x e i = ground (arith, find_exact_match-none xs p x)

In-same_language :
    (xs : List StreamRef) (p : DefaultAudioPreference) (x : StreamRef)
    → In x (same_language xs p) ↔ (In x xs × (str_eq x.language p.language ≡ true))
unfolding same_language
In-same_language [] p x = ground arith
In-same_language (y ∷ xs) p x = ground (arith, In-same_language xs p x)

best_from-In : (b : StreamRef) (xs : List StreamRef) → In (best_from b xs) (b ∷ xs)
unfolding best_from
best_from-In b [] = inl refl
best_from-In b (x ∷ xs) = ground (arith, best_from-In b xs, best_from-In x xs)

is_better_irrefl : (x : StreamRef) → is_better x x ≡ false
unfolding is_better
is_better_irrefl x = ground arith

not_is_better_of_better :
    (x y b : StreamRef) → is_better y b ≡ true → is_better x b ≡ false → is_better x y ≡ false
unfolding is_better
not_is_better_of_better x y b p q = ground arith

best_from_keeps :
    (b : StreamRef) (xs : List StreamRef) (x : StreamRef)
    → is_better x b ≡ false
    → is_better x (best_from b xs) ≡ false
unfolding best_from
best_from_keeps b [] x h = h
best_from_keeps b (y ∷ xs) x h = elim (Bool-cases (is_better y b)) [
  | inl better ↦ rw better (best_from_keeps y xs x (not_is_better_of_better x y b better h))
  | inr worse ↦ rw worse (best_from_keeps b xs x h)
]

best_from-best :
    (b : StreamRef) (xs : List StreamRef) (x : StreamRef)
    → In x (b ∷ xs)
    → is_better x (best_from b xs) ≡ false
unfolding best_from
best_from-best b xs x (inl e) = best_from_keeps b xs x (rw e (is_better_irrefl x))
best_from-best b [] x (inr i) = absurd i
best_from-best b (y ∷ xs) x (inr i) = elim (Bool-cases (is_better y b)) [
  | inl better ↦ rw better (best_from-best y xs x i)
  | inr worse ↦ rw worse (elim i [
    | inl e ↦ best_from_keeps b xs x (rw e at worse)
    | inr j ↦ best_from-best b xs x (inr j)
  ])
]

-- `w` is the best of the streams that satisfy `P`: no other has more channels, or as many channels
-- and a lower index.
pub record IsBestOf (P : StreamRef → Type 0) (streams : List StreamRef) (w : StreamRef)
    : Type 0 where
  pub present : In w streams
  pub satisfies : P w
  pub best : (x : StreamRef) → In x streams → P x → is_better x w ≡ false

abbrev pub HasLanguage : DefaultAudioPreference → StreamRef → Type 0
HasLanguage p x = str_eq x.language p.language ≡ true

-- The three steps of the resolution, each only where the ones before find nothing.
pub data IsWinner (streams : List StreamRef) (p : DefaultAudioPreference) (w : StreamRef)
    : Type 0 where
  exact : In w streams → is_exact p w ≡ true → IsWinner streams p w
  tier_fallback :
      ((x : StreamRef) → In x streams → is_exact p x ≡ false)
      → IsBestOf (HasLanguage p) streams w
      → IsWinner streams p w
  language_fallback :
      ((x : StreamRef) → In x streams → str_eq x.language p.language ≡ false)
      → IsBestOf (λ _. Unit) streams w
      → IsWinner streams p w

best_available-IsBest :
    (xs : List StreamRef) (w : StreamRef)
    → best_available xs ≡ some w
    → In w xs × ((x : StreamRef) → In x xs → is_better x w ≡ false)
unfolding best_available
best_available-IsBest [] w e = ground arith
best_available-IsBest (b ∷ xs) w e =
    let same : best_from b xs ≡ w = cc in
    (
      subst (λ v. In v (b ∷ xs)) same (best_from-In b xs),
      λ x i. subst (λ v. is_better x v ≡ false) same (best_from-best b xs x i),
    )

module _ (streams : List StreamRef) (p : DefaultAudioPreference) (w : StreamRef) where
  best_in_language-IsWinner :
      (same : List StreamRef)
      → same_language streams p ≡ same
      → find_exact_match streams p ≡ none
      → best_in_language same streams ≡ some w
      → IsWinner streams p w
  unfolding best_in_language
  best_in_language-IsWinner [] s n e =
      let (i, best) = best_available-IsBest streams w e in
      language_fallback
        (λ x j. elim (Bool-cases (str_eq x.language p.language)) [
          | inl same ↦ absurd (subst (λ l. In x l) s ((In-same_language streams p x).1 (j, same)))
          | inr other ↦ other
        ])
        (record { present = i; satisfies = tt; best = λ x j _. best x j })
  best_in_language-IsWinner (y ∷ ys) s n e =
      let (i, best) = best_available-IsBest (y ∷ ys) w e in
      let found = (In-same_language streams p w).0 (subst (λ l. In w l) (sym s) i) in
      tier_fallback (λ x j. find_exact_match-none streams p x n j)
        (record {
          present = found.0;
          satisfies = found.1;
          best = λ x j l. best x (subst (λ l. In x l) s ((In-same_language streams p x).1 (j, l)));
        })

  -- The stream that is returned is the winner by the three-step rule.
  pub resolve-IsWinner : resolve_default_audio_stream streams p ≡ some w → IsWinner streams p w
  unfolding resolve_default_audio_stream
  resolve-IsWinner e = elim (Option-cases (find_exact_match streams p)) [
    | inl absent ↦ best_in_language-IsWinner (same_language streams p) refl absent (ground arith)
    | inr (v, found) ↦
        let same : v ≡ w = ground arith in
        let (i, x) = find_exact_match-some streams p w (rw same at found) in exact i x
  ]

best_in_language-ne-none :
    (same : List StreamRef) (x : StreamRef) (xs : List StreamRef)
    → best_in_language same (x ∷ xs) ≢ none
unfolding best_in_language
best_in_language-ne-none [] x xs = ground arith
best_in_language-ne-none (y ∷ ys) x xs = ground arith

-- Nothing is returned exactly when there are fewer than two streams.
pub resolve-none_iff :
    (streams : List StreamRef) (p : DefaultAudioPreference)
    → (resolve_default_audio_stream streams p ≡ none) ↔ (length streams < 2)
unfolding resolve_default_audio_stream
resolve-none_iff [] p = ground arith
resolve-none_iff (x ∷ []) p = ground arith
resolve-none_iff (x ∷ y ∷ xs) p =
    ground (arith, best_in_language-ne-none (same_language (x ∷ y ∷ xs) p) x (y ∷ xs))
