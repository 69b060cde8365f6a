-- ===== src/Downmix/Converge.antt =====
-- A downmix job leaves no further job to do on the same file.
use collapsarr.Common.{
  ℕ, suc, ◌<◌, ◌≡◌, refl, ◌∙◌, inl, inr, List, [], ◌∷◌, ◌++◌, In, In-append_left, In-append_right,
  In-append_cases, arith,
}
use collapsarr.Downmix.Stream.{AudioStreamInfo}
use collapsarr.Downmix.Targets.{
  DownmixSettings, QualifyingTarget, target_channels, detect_qualifying_targets,
}
use collapsarr.Downmix.Targets.Qualify.{Qualifies, detect_iff}
use collapsarr.Downmix.DefaultAudio.{next_index, new_tracks, final_audio_layout}

nil_of_not_In : {A : Type 0} (xs : List A) → ((x : A) → ¬ In x xs) → xs ≡ []
nil_of_not_In [] h = refl
nil_of_not_In (x ∷ xs) h = absurd (h x (inl refl))

-- Where a new track comes from.
pub In-new_tracks :
    (n : ℕ) (ts : List QualifyingTarget) (x : AudioStreamInfo)
    → In x (new_tracks n ts)
    → (t : QualifyingTarget) × In t ts
      × (t.language ≡ x.language)
      × (target_channels t.target ≡ x.channels)
unfolding new_tracks
In-new_tracks n [] x i = absurd i
In-new_tracks n (t ∷ ts) x (inl e) = (t, inl refl, ground arith, ground arith)
In-new_tracks n (t ∷ ts) x (inr i) =
    let (u, j, l, c) = In-new_tracks (suc n) ts x i in (u, inr j, l, c)

new_tracks-In :
    (n : ℕ) (ts : List QualifyingTarget) (t : QualifyingTarget)
    → In t ts
    → (x : AudioStreamInfo) × In x (new_tracks n ts)
      × (x.language ≡ t.language)
      × (x.channels ≡ target_channels t.target)
unfolding new_tracks
new_tracks-In n [] t i = absurd i
new_tracks-In n (u ∷ ts) t (inl e) = (_, inl refl, ground arith, ground arith)
new_tracks-In n (u ∷ ts) t (inr i) =
    let (x, j, l, c) = new_tracks-In (suc n) ts t i in (x, inr j, l, c)

module _ (streams : List AudioStreamInfo) (settings : DownmixSettings) where
  abbrev targets : List QualifyingTarget
  targets = detect_qualifying_targets streams settings

  abbrev tracks : List AudioStreamInfo
  tracks = new_tracks (next_index streams) targets

  abbrev Higher : List AudioStreamInfo → QualifyingTarget → Type 0
  Higher xs q =
      (x : AudioStreamInfo) × In x xs
      × (x.language ≡ q.language)
      × (target_channels q.target < x.channels)

  -- A higher stream of the new layout leads to a higher stream of the old one.
  Higher-original : (q : QualifyingTarget) → Higher (streams ++ tracks) q → Higher streams q
  Higher-original q (x, i, l, more) = elim (In-append_cases x streams tracks i) [
    | inl old ↦ (x, old, l, more)
    | inr new ↦
        let (t, j, same, count) = In-new_tracks (next_index streams) targets x new in
        let (y, k, m, above) = ((detect_iff streams settings t).0 j).higher in
        (y, k, m ∙ same ∙ l, omega arith)
  ]

  not_Qualifies : (q : QualifyingTarget) → ¬ Qualifies (streams ++ tracks) settings q
  not_Qualifies q h =
      let old : Qualifies streams settings q = record {
        enabled = h.enabled;
        allowed = h.allowed;
        higher = Higher-original q h.higher;
        absent = λ x i. h.absent x (In-append_left x streams tracks i);
      } in
      let (x, i, l, c) =
        new_tracks-In (next_index streams) targets q ((detect_iff streams settings q).1 old) in
      h.absent x (In-append_right x streams tracks i) l c

-- Once the tracks of the detected targets stand in the file, nothing qualifies any more under the
-- same settings.
pub detect-final_audio_layout :
    (streams : List AudioStreamInfo) (settings : DownmixSettings)
    → detect_qualifying_targets
        (final_audio_layout streams (detect_qualifying_targets streams settings))
        settings
      ≡ []
unfolding final_audio_layout
detect-final_audio_layout streams settings =
    nil_of_not_In _ λ q i. not_Qualifies streams settings q ((detect_iff _ settings q).0 i)
