-- ===== src/Downmix/Remux/Command.antt =====
-- What `build_remux_command` returns and when it refuses.
use collapsarr.Common.{
  ℕ, suc, ◌+◌, ◌≡◌, ◌≢◌, ◌⊎◌, inl, inr, refl, ap, ◌∙◌, true, false, Bool-cases, Option, none, some,
  List, [], ◌∷◌, ◌++◌, map, Str, codes, length, In, All, arith,
}
use mathlib.Core.List.{append_assoc}
use collapsarr.Common.Int.{ℤ, pos}
use collapsarr.Common.Result.{Result, ok, raise, value_error}
use collapsarr.Downmix.Files.{Format}
use collapsarr.Downmix.Stream.{AudioStreamInfo}
use collapsarr.Downmix.Targets.{DownmixSettings, QualifyingTarget}
use collapsarr.Downmix.Remux.{
  Source, Tools, in_range, resolve_sources, check_request, check_index, map_arguments,
  tracks_arguments, default_arguments, build_remux_command,
}
use collapsarr.Downmix.Remux.Sources.{
  IsSource, Resolution, resolved, missing, resolve_sources-Resolution,
}

-- Why a request is refused.
pub data IsRefused (streams : List AudioStreamInfo) (targets : List QualifyingTarget)
    (index : Option ℤ) : Type 0 where
  nothing_asked : targets ≡ [] → index ≡ none → IsRefused streams targets index
  no_source :
      (t : QualifyingTarget)
      → In t targets
      → ((x : AudioStreamInfo) → In x streams → x.language ≢ t.language)
      → IsRefused streams targets index
  out_of_range :
      (i : ℤ)
      → index ≡ some i
      → in_range i (length streams + length targets) ≡ false
      → IsRefused streams targets index

pub record IsAccepted (streams : List AudioStreamInfo) (targets : List QualifyingTarget)
    (index : Option ℤ) : Type 0 where
  pub asked : (targets ≢ []) ⊎ (index ≢ none)
  pub sources : List Source
  pub same : map (λ s. s.0) sources ≡ targets
  pub are_sources : All (IsSource streams) sources
  pub within : (i : ℤ) → index ≡ some i → in_range i (length streams + length targets) ≡ true

-- The streams of the input that the sources select.
abbrev pub selects : Format → List Source → List Str
selects format [] = []
selects format (s ∷ ss) =
    codes "-map" ∷ (codes "0:" ++ format.int (pos s.1.index)) ∷ selects format ss

-- A command for every temp path: ffmpeg's own path first, then the input, all of it and once more each
-- source mapped, all copied but for what the encoding arguments say, and the temp path last.
pub data Built (format : Format) (path : Str) (streams : List AudioStreamInfo)
    (targets : List QualifyingTarget) (tools : Tools) (build : Str → Result (List Str))
    : Type 0 where
  refused :
      IsRefused streams targets tools.default_audio_index
      → ((temp : Str) → build temp ≡ raise value_error)
      → Built format path streams targets tools build
  built :
      (accepted : IsAccepted streams targets tools.default_audio_index)
      → (rest encoding : List Str)
      → rest
        ≡ codes "-hide_banner"
          ∷ codes "-nostdin"
          ∷ codes "-y"
          ∷ codes "-i"
          ∷ path
          ∷ codes "-map"
          ∷ codes "0"
          ∷ (selects format accepted.sources ++ codes "-c" ∷ codes "copy" ∷ encoding)
      → ((temp : Str) → build temp ≡ ok (tools.ffmpeg_path ∷ (rest ++ temp ∷ [])))
      → Built format path streams targets tools build

length-sources :
    (sources : List Source) (targets : List QualifyingTarget)
    → map (λ s. s.0) sources ≡ targets
    → length sources ≡ length targets
length-sources [] [] e = refl
length-sources [] (t ∷ targets) e = ground arith
length-sources (s ∷ sources) [] e = ground arith
length-sources (s ∷ sources) (t ∷ targets) e =
    ap suc (length-sources sources targets (ground arith))

check_request-cases :
    (targets : List QualifyingTarget) (index : Option ℤ)
    → ((targets ≡ []) × (index ≡ none) × (check_request targets index ≡ raise value_error))
      ⊎ (((targets ≢ []) ⊎ (index ≢ none)) × (check_request targets index ≡ ok tt))
unfolding check_request
check_request-cases [] none = inl (refl, refl, refl)
check_request-cases [] (some i) = inr (inr (λ e. ground arith), refl)
check_request-cases (t ∷ ts) none = inr (inl (λ e. ground arith), refl)
check_request-cases (t ∷ ts) (some i) = inr (inl (λ e. ground arith), refl)

check_index-cases :
    (index : Option ℤ) (total : ℕ)
    → ((i : ℤ) × (index ≡ some i)
        × (in_range i total ≡ false)
        × (check_index index total ≡ raise value_error))
      ⊎ (((i : ℤ) → index ≡ some i → in_range i total ≡ true) × (check_index index total ≡ ok tt))
unfolding check_index
check_index-cases none total = inr (λ i e. ground arith, refl)
check_index-cases (some i) total = elim (Bool-cases (in_range i total)) [
  | inl ok_at ↦ inr (λ j e. ground arith, rw ok_at refl)
  | inr out ↦ inl (i, refl, out, rw out refl)
]

module _ (format : Format) (tools : Tools) (path : Str) (streams : List AudioStreamInfo)
    (targets : List QualifyingTarget) (settings : DownmixSettings) where
  abbrev build : Str → Result (List Str)
  build temp = build_remux_command format tools path temp streams targets settings

  abbrev start_with : List Str → List Str
  start_with others =
      codes "-hide_banner"
      ∷ codes "-nostdin"
      ∷ codes "-y"
      ∷ codes "-i"
      ∷ path
      ∷ codes "-map"
      ∷ codes "0"
      ∷ others

  abbrev encoding_of : List Source → List Str
  encoding_of sources =
      tracks_arguments format (length streams) settings sources
      ++ default_arguments format (length streams + length sources) tools.default_audio_index

  abbrev arguments : List Source → List Str
  arguments sources =
      start_with (map_arguments format sources ++ codes "-c" ∷ codes "copy" ∷ encoding_of sources)

  map_arguments-selects :
      (sources : List Source) → map_arguments format sources ≡ selects format sources
  unfolding map_arguments
  map_arguments-selects [] = refl
  map_arguments-selects (s ∷ ss) =
      ap (λ rest. codes "-map" ∷ (codes "0:" ++ format.int (pos s.1.index)) ∷ rest)
        (map_arguments-selects ss)

  length_total :
      (sources : List Source)
      → map (λ s. s.0) sources ≡ targets
      → length streams + length sources ≡ length streams + length targets
  length_total sources same = ap (λ n. length streams + n) (length-sources sources targets same)

  sources-Built :
      (sources : List Source)
      → resolve_sources streams targets ≡ ok sources
      → map (λ s. s.0) sources ≡ targets
      → All (IsSource streams) sources
      → Built format path streams targets tools build
  unfolding build_remux_command
  sources-Built sources r same h = elim (check_request-cases targets tools.default_audio_index) [
    | inl (no_targets, no_index, e) ↦
        refused (nothing_asked no_targets no_index) (λ temp. rw e refl)
    | inr (asked, e) ↦
        elim (check_index-cases tools.default_audio_index (length streams + length sources)) [
          | inl (i, given, out, f) ↦
              refused (out_of_range i given (rw (length_total sources same) at out))
                (λ temp. rw (e, r, f) refl)
          | inr (within, f) ↦
              built
                (record {
                  asked = asked;
                  sources = sources;
                  same = same;
                  are_sources = h;
                  within = λ i given. rw (length_total sources same) at (within i given);
                })
                (arguments sources) (encoding_of sources)
                (ap (λ maps. start_with (maps ++ codes "-c" ∷ codes "copy" ∷ encoding_of sources))
                  (map_arguments-selects sources))
                (λ temp. rw (e, r, f) (simp (append_assoc)))
        ]
  ]

  missing-Built :
      (t : QualifyingTarget)
      → In t targets
      → ((x : AudioStreamInfo) → In x streams → x.language ≢ t.language)
      → resolve_sources streams targets ≡ raise value_error
      → Built format path streams targets tools build
  unfolding build_remux_command
  missing-Built t i absent r = elim (check_request-cases targets tools.default_audio_index) [
    | inl (no_targets, no_index, e) ↦
        refused (nothing_asked no_targets no_index) (λ temp. rw e refl)
    | inr (asked, e) ↦ refused (no_source t i absent) (λ temp. rw (e, r) refl)
  ]

  Resolution-Built :
      (r : Result (List Source))
      → resolve_sources streams targets ≡ r
      → Resolution streams targets r
      → Built format path streams targets tools build
  Resolution-Built (ok _) e (resolved sources same h) = sources-Built sources e same h
  Resolution-Built (raise _) e (missing t i absent x v) = missing-Built t i absent (e ∙ ap raise v)

  -- Either the request asks for nothing, or the language of a target has no stream, or the default
  -- index lies outside the final audio streams, and every temp path raises ValueError; or none of
  -- these, each target has the best stream of its language as its source, and the command is ffmpeg's
  -- path, the input with all of it mapped, the index of each target's source mapped once more, in the
  -- order of the targets, everything copied but for some arguments that do not depend on the temp path,
  -- and the temp path as the last argument.
  pub build_remux_command-Built :
      Built format path streams targets tools
        (λ temp. build_remux_command format tools path temp streams targets settings)
  build_remux_command-Built = Resolution-Built _ refl (resolve_sources-Resolution streams targets)
