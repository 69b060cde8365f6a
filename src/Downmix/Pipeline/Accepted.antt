-- ===== src/Downmix/Pipeline/Accepted.antt =====
-- The request that the pipeline makes of `build_remux_command` is never refused.
use collapsarr.Common.{
  ℕ, suc, ◌+◌, ◌<◌, ◌≡◌, ◌≢◌, refl, sym, ◌∙◌, ap, Bool, true, false, Option, none, some, List, [],
  ◌∷◌, ◌++◌, Str, length, length-append, arith,
}
use mathlib.Core.Bool.{false≢true}
use collapsarr.Common.Int.{ℤ, pos, negsuc}
use collapsarr.Common.Result.{Result, ok}
use collapsarr.Downmix.Stream.{AudioStreamInfo}
use collapsarr.Downmix.Targets.{DownmixSettings, QualifyingTarget, detect_qualifying_targets}
use collapsarr.Downmix.Targets.Qualify.{detect_iff}
use collapsarr.Downmix.DefaultAudio.{
  DefaultAudioPreference, final_audio_layout, new_tracks, next_index,
}
use collapsarr.Downmix.DefaultAudio.Position.{
  Outcome, too_few, stays, move_to, output_index-Outcome,
}
use collapsarr.Downmix.Remux.{in_range, build_remux_command}
use collapsarr.Downmix.Remux.Command.{
  IsRefused, nothing_asked, no_source, out_of_range, Built, refused, built,
  build_remux_command-Built,
}
use collapsarr.Downmix.Pipeline.{
  Options, World, resolve_if_wanted, default_audio_index, remux_tools, as_index,
}

length-new_tracks : (n : ℕ) (ts : List QualifyingTarget) → length (new_tracks n ts) ≡ length ts
unfolding new_tracks
length-new_tracks n [] = refl
length-new_tracks n (t ∷ ts) = ap suc (length-new_tracks (suc n) ts)

length-final_audio_layout :
    (streams : List AudioStreamInfo) (ts : List QualifyingTarget)
    → length (final_audio_layout streams ts) ≡ length streams + length ts
unfolding final_audio_layout
length-final_audio_layout streams ts = omega (
  arith,
  length-append streams (new_tracks (next_index streams) ts),
  length-new_tracks (next_index streams) ts,
)

-- An index that lies in the final layout.
abbrev Fits : List AudioStreamInfo → List QualifyingTarget → Option ℕ → Type 0
Fits streams ts index = (i : ℕ) → index ≡ some i → i < length streams + length ts

Outcome-Fits :
    (streams : List AudioStreamInfo) (ts : List QualifyingTarget) (p : DefaultAudioPreference)
    (index : Option ℕ)
    → Outcome (final_audio_layout streams ts) p index
    → Fits streams ts index
Outcome-Fits streams ts p _ (too_few few) i e = ground arith
Outcome-Fits streams ts p _ (stays w wins set only) i e = ground arith
Outcome-Fits streams ts p _ (move_to w wins within other) i e =
    let at : w.id ≡ i = ground arith in omega (arith, length-final_audio_layout streams ts)

abbrev Resolves : List AudioStreamInfo → List QualifyingTarget → Result (Option ℕ) → Type 0
Resolves streams ts r = (index : Option ℕ) × (r ≡ ok index) × Fits streams ts index

resolve_if_wanted-Resolves :
    (streams : List AudioStreamInfo) (ts : List QualifyingTarget) (wanted : Bool)
    (preference : Option DefaultAudioPreference)
    → Resolves streams ts (resolve_if_wanted streams ts wanted preference)
unfolding resolve_if_wanted
resolve_if_wanted-Resolves streams ts true (some p) =
    let (index, eq, outcome) = output_index-Outcome streams ts p in
    (index, eq, Outcome-Fits streams ts p index outcome)
resolve_if_wanted-Resolves streams ts true none = (none, refl, λ i e. ground arith)
resolve_if_wanted-Resolves streams ts false p = (none, refl, λ i e. ground arith)

Fits-in_range :
    (streams : List AudioStreamInfo) (ts : List QualifyingTarget) (index : Option ℕ)
    → Fits streams ts index
    → (i : ℤ) → as_index index ≡ some i
    → in_range i (length streams + length ts) ≡ true
unfolding as_index in_range
Fits-in_range streams ts none fits i e = ground arith
Fits-in_range streams ts (some n) fits (pos i) e =
    let at : n ≡ i = ground arith in let within = fits n refl in ground arith
Fits-in_range streams ts (some n) fits (negsuc i) e = ground arith

module _ (world : World) (options : Options) (path : Str) (streams : List AudioStreamInfo)
    (settings : DownmixSettings) where
  abbrev detected : List QualifyingTarget
  detected = detect_qualifying_targets streams settings

  not-IsRefused :
      (index : Option ℕ)
      → detected ≢ []
      → Fits streams detected index
      → ¬ IsRefused streams detected (as_index index)
  not-IsRefused index asked fits (nothing_asked no_targets no_index) = asked no_targets
  not-IsRefused index asked fits (no_source t i absent) =
      let (x, m, same, more) = ((detect_iff streams settings t).0 i).higher in
      absurd (absent x m same)
  not-IsRefused index asked fits (out_of_range i given out) =
      false≢true (sym out ∙ Fits-in_range streams detected index fits i given)

  -- The command for the targets, with a default index.
  abbrev pub Builds : Option ℕ → Type 0
  Builds index =
      (rest : List Str) × ((temp : Str)
        → build_remux_command world.format (remux_tools world options path index) path temp streams
            detected settings
          ≡ ok (options.ffmpeg_path ∷ (rest ++ temp ∷ [])))

  Built-Builds :
      (index : Option ℕ)
      → ¬ IsRefused streams detected (as_index index)
      → Built world.format path streams detected (remux_tools world options path index) (λ temp.
        build_remux_command world.format
          (remux_tools world options path index)
          path
          temp
          streams
          detected
          settings)
      → Builds index
  unfolding remux_tools
  Built-Builds index accepted (refused refusal eq) = absurd (accepted refusal)
  Built-Builds index accepted (built acceptance rest encoding shape eq) = (rest, eq)

  -- Whenever the detection returns a target, whatever the options are, the default index is resolved
  -- without an exception and the ffmpeg command is built for every temp path: the pipeline never
  -- meets a ValueError of the remux stage.
  pub detected-Builds :
      detect_qualifying_targets streams settings ≢ []
      → (index : Option ℕ) × (default_audio_index world options path streams
            (detect_qualifying_targets streams settings)
          ≡ ok index)
        × Builds index
  unfolding default_audio_index
  detected-Builds asked =
      let (index, eq, fits) =
        resolve_if_wanted-Resolves streams detected options.auto_set_default_audio
          options.default_audio_preference in
      (
        index,
        eq,
        Built-Builds index (not-IsRefused index asked fits) (
            build_remux_command-Built world.format (remux_tools world options path index) path
              streams detected settings),
      )
