-- ===== src/Downmix/Remux/Sources.antt =====
-- Which stream each target is made from.
use collapsarr.Common.{
  ◌<◌, ◌≤◌, ◌≡◌, refl, ap, sym, subst, ◌⊎◌, inl, inr, true, List, [], ◌∷◌, map, Str, str_eq,
  str_eq_iff, All-In, All-of_In, ◌↔◌, In, All, arith, if◌then◌else◌, ◌≢◌,
}
use collapsarr.Common.Result.{Exception, Result, ok, raise, value_error, ◌>>=◌}
use collapsarr.Downmix.Stream.{AudioStreamInfo}
use collapsarr.Downmix.Targets.{
  DownmixSettings, QualifyingTarget, target_channels, detect_qualifying_targets,
}
use collapsarr.Downmix.Targets.Qualify.{Qualifies, detect_iff}
use collapsarr.Downmix.Remux.{candidates, outranks, best_source, Source, source_of, resolve_sources}

-- `y` comes behind `x`: it has fewer channels, or as many and no smaller index.
abbrev pub Behind : AudioStreamInfo → AudioStreamInfo → Type 0
Behind x y = (y.channels < x.channels) ⊎ ((y.channels ≡ x.channels) × (x.index ≤ y.index))

-- The stream that a target is to be made from.
pub record IsSource (streams : List AudioStreamInfo) (s : Source) : Type 0 where
  pub stands : In s.1 streams
  pub same : s.1.language ≡ s.0.language
  pub best : (y : AudioStreamInfo) → In y streams → y.language ≡ s.0.language → Behind s.1 y

In-candidates :
    (l : Str) (streams : List AudioStreamInfo) (y : AudioStreamInfo)
    → In y (candidates l streams) ↔ (In y streams × (str_eq y.language l ≡ true))
unfolding candidates
In-candidates l [] y = ground arith
In-candidates l (x ∷ xs) y = ground (arith, In-candidates l xs y)

best_source-In : (b : AudioStreamInfo) (xs : List AudioStreamInfo) → In (best_source b xs) (b ∷ xs)
unfolding best_source
best_source-In b [] = inl refl
best_source-In b (x ∷ xs) = ground (arith, best_source-In b xs, best_source-In x xs)

Behind-refl : (x : AudioStreamInfo) → Behind x x
Behind-refl x = omega arith

Behind-trans : (x y z : AudioStreamInfo) → Behind x y → Behind y z → Behind x z
Behind-trans x y z h k = omega arith

abbrev chosen : AudioStreamInfo → AudioStreamInfo → AudioStreamInfo
chosen b x = if outranks x b then x else b

chosen-Behind : (b x : AudioStreamInfo) → Behind (chosen b x) b × Behind (chosen b x) x
unfolding outranks
chosen-Behind b x = ground arith

best_source-Behind :
    (b : AudioStreamInfo) (xs : List AudioStreamInfo) (y : AudioStreamInfo)
    → In y (b ∷ xs)
    → Behind (best_source b xs) y
unfolding best_source
best_source-Behind b [] y (inl e) = subst (Behind b) e (Behind-refl b)
best_source-Behind b [] y (inr i) = absurd i
best_source-Behind b (x ∷ xs) y (inl e) =
    Behind-trans (best_source (chosen b x) xs) (chosen b x) y
      (best_source-Behind (chosen b x) xs (chosen b x) (inl refl))
      (subst (Behind (chosen b x)) e (chosen-Behind b x).0)
best_source-Behind b (x ∷ xs) y (inr (inl e)) =
    Behind-trans (best_source (chosen b x) xs) (chosen b x) y
      (best_source-Behind (chosen b x) xs (chosen b x) (inl refl))
      (subst (Behind (chosen b x)) e (chosen-Behind b x).1)
best_source-Behind b (x ∷ xs) y (inr (inr i)) = best_source-Behind (chosen b x) xs y (inr i)

module _ (streams : List AudioStreamInfo) (t : QualifyingTarget) where
  abbrev found : List AudioStreamInfo → Result Source
  found xs = elim xs [ [] ↦ raise value_error | y ∷ ys ↦ ok (t, best_source y ys) ]

  best_source-IsSource :
      (y : AudioStreamInfo) (ys : List AudioStreamInfo)
      → candidates t.language streams ≡ y ∷ ys
      → IsSource streams (t, best_source y ys)
  best_source-IsSource y ys c =
      let (stands, same) =
        (In-candidates t.language streams (best_source y ys)).0
          (subst (In (best_source y ys)) (sym c) (best_source-In y ys)) in
      record {
        stands = stands;
        same = (str_eq_iff _ _).0 same;
        best = λ z j e.
            best_source-Behind y ys z
              (subst (In z) c ((In-candidates t.language streams z).1 (j, (str_eq_iff _ _).1 e)));
      }

  candidates-none :
      candidates t.language streams ≡ []
      → (x : AudioStreamInfo) → In x streams
      → x.language ≢ t.language
  candidates-none c x i e =
      subst (In x) c ((In-candidates t.language streams x).1 (i, (str_eq_iff _ _).1 e))

-- What the resolution of the targets returns: the best stream of each target's language, in the
-- targets' order, or ValueError where the language of a target has no stream.
pub data Resolution (streams : List AudioStreamInfo) (ts : List QualifyingTarget)
    : Result (List Source) → Type 0 where
  resolved :
      (sources : List Source)
      → map (λ s. s.0) sources ≡ ts
      → All (IsSource streams) sources
      → Resolution streams ts (ok sources)
  missing :
      (t : QualifyingTarget)
      → In t ts
      → ((x : AudioStreamInfo) → In x streams → x.language ≢ t.language)
      → (e : Exception) → e ≡ value_error
      → Resolution streams ts (raise e)

module _ (streams : List AudioStreamInfo) where
  resolve_more :
      (t : QualifyingTarget) (ts : List QualifyingTarget) (xs : List AudioStreamInfo)
      (r : Result (List Source))
      → candidates t.language streams ≡ xs
      → Resolution streams ts r
      → Resolution streams (t ∷ ts) (found streams t xs >>= (λ s. r >>= (λ rest. ok (s ∷ rest))))
  resolve_more t ts [] r c h = missing t (inl refl) (candidates-none streams t c) _ refl
  resolve_more t ts (y ∷ ys) (ok rest) c (resolved _ targets are_sources) =
      resolved ((t, best_source y ys) ∷ rest) (ap (λ us. t ∷ us) targets)
        (best_source-IsSource streams t y ys c, are_sources)
  resolve_more t ts (y ∷ ys) (raise _) c (missing u i absent e v) = missing u (inr i) absent e v

  pub resolve_sources-Resolution :
      (ts : List QualifyingTarget) → Resolution streams ts (resolve_sources streams ts)
  unfolding resolve_sources source_of
  resolve_sources-Resolution [] = resolved [] refl tt
  resolve_sources-Resolution (t ∷ ts) = resolve_more t ts _ _ refl (resolve_sources-Resolution ts)

-- The source of a target that the detection returns: the best stream of its language, with more
-- channels than the target.
abbrev pub IsDownmix : List AudioStreamInfo → Source → Type 0
IsDownmix streams s = IsSource streams s × (target_channels s.0.target < s.1.channels)

IsSource-IsDownmix :
    (streams : List AudioStreamInfo) (settings : DownmixSettings) (s : Source)
    → Qualifies streams settings s.0
    → IsSource streams s
    → IsDownmix streams s
IsSource-IsDownmix streams settings s q h =
    let (x, i, same, more) = q.higher in (h, omega (arith, h.best x i same))

All-IsDownmix :
    (streams : List AudioStreamInfo) (settings : DownmixSettings) (sources : List Source)
    → All (Qualifies streams settings) (map (λ s. s.0) sources)
    → All (IsSource streams) sources
    → All (IsDownmix streams) sources
All-IsDownmix streams settings [] q h = tt
All-IsDownmix streams settings (s ∷ sources) q h =
    (IsSource-IsDownmix streams settings s q.0 h.0, All-IsDownmix streams settings sources q.1 h.1)

abbrev pub Downmixes : List AudioStreamInfo → List QualifyingTarget → Result (List Source) → Type 0
Downmixes streams ts r =
    (sources : List Source) × (r ≡ ok sources)
    × (map (λ s. s.0) sources ≡ ts)
    × All (IsDownmix streams) sources

Resolution-Downmixes :
    (streams : List AudioStreamInfo) (settings : DownmixSettings) (ts : List QualifyingTarget)
    (r : Result (List Source))
    → All (Qualifies streams settings) ts
    → Resolution streams ts r
    → Downmixes streams ts r
Resolution-Downmixes streams settings ts (ok _) q (resolved sources same h) = (
  sources,
  refl,
  same,
  All-IsDownmix streams settings sources (subst (All (Qualifies streams settings)) (sym same) q) h,
)
Resolution-Downmixes streams settings ts (raise _) q (missing t i absent e v) =
    let (x, m, same, _) = (All-In _ t ts q i).higher in absurd (absent x m same)

-- Every target that the detection returns has a source: the resolution of the detected targets
-- succeeds, keeps their order, and pairs each with the stream of its language that has the most
-- channels, the lowest index among equals, and more channels than the target.
pub resolve_sources-detect :
    (streams : List AudioStreamInfo) (settings : DownmixSettings)
    → Downmixes streams
        (detect_qualifying_targets streams settings)
        (resolve_sources streams (detect_qualifying_targets streams settings))
resolve_sources-detect streams settings =
    let ts = detect_qualifying_targets streams settings in
    Resolution-Downmixes streams settings ts _
      (All-of_In _ ts (λ q i. (detect_iff streams settings q).0 i))
      (resolve_sources-Resolution streams ts)
