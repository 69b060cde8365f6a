-- ===== src/Jobs/Run/Kwargs.antt =====
-- Which keyword arguments reach which pipeline.
use collapsarr.Common.{
  ◌≡◌, refl, ap, ◌∙◌, inl, inr, true, ◌&&◌, Option, none, some, [], ◌∷◌, Str, str_eq, str_eq_iff,
  if◌then◌else◌, Bool-cases, arith,
}
use collapsarr.Jobs.Run.{
  Value, flag, audio_preference, text, Kwargs, get_key, set_default, GlobalSettings,
  as_default_audio_preference, auto_key, preference_key, ffmpeg_key, with_default_audio,
  with_ffmpeg_path, resolve_pipeline_kwargs, shared_kwargs,
}

-- `or_else` keeps the first of two optional values.
abbrev pub or_else : Option Value → Option Value → Option Value
or_else none b = b
or_else (some v) b = some v

get_key-set_default :
    (k j : Str) (v : Value) (kwargs : Kwargs)
    → get_key k (set_default j v kwargs)
      ≡ or_else (get_key k kwargs) (if str_eq j k then some v else none)
unfolding get_key set_default
get_key-set_default k j v [] = ground arith
get_key-set_default k j v ((i, w) ∷ kwargs) =
    ground (arith, get_key-set_default k j v kwargs, str_eq_iff i j, str_eq_iff i k, str_eq_iff j k)

-- The empty text counts as no path.
abbrev pub path_value : Option Str → Option Value
path_value none = none
path_value (some []) = none
path_value (some (c ∷ cs)) = some (text (c ∷ cs))

-- What the settings row provides for a key that the caller leaves out.
abbrev pub provided : GlobalSettings → Str → Option Value
provided settings k =
    if settings.auto_set_default_audio && str_eq auto_key k
    then some (flag true)
    else if settings.auto_set_default_audio && str_eq preference_key k
    then some (audio_preference (as_default_audio_preference settings))
    else if str_eq ffmpeg_key k
    then path_value settings.ffmpeg_path
    else none

get_key-with_ffmpeg_path :
    (k : Str) (kwargs : Kwargs) (settings : GlobalSettings) (path : Option Str)
    → settings.ffmpeg_path ≡ path
    → get_key k (with_ffmpeg_path settings kwargs)
      ≡ or_else (get_key k kwargs) (if str_eq ffmpeg_key k then path_value path else none)
unfolding with_ffmpeg_path
get_key-with_ffmpeg_path k kwargs settings none e = rw (e, with_ffmpeg_path) (ground arith)
get_key-with_ffmpeg_path k kwargs settings (some []) e = rw (e, with_ffmpeg_path) (ground arith)
get_key-with_ffmpeg_path k kwargs settings (some (c ∷ cs)) e =
    rw (e, with_ffmpeg_path) (get_key-set_default k ffmpeg_key (text (c ∷ cs)) kwargs)

get_key-with_default_audio :
    (k : Str) (kwargs : Kwargs) (settings : GlobalSettings)
    → get_key k (with_default_audio settings kwargs)
      ≡ or_else (get_key k kwargs) (
          if settings.auto_set_default_audio && str_eq auto_key k
          then some (flag true)
          else if settings.auto_set_default_audio && str_eq preference_key k
          then some (audio_preference (as_default_audio_preference settings))
          else none)
unfolding with_default_audio
get_key-with_default_audio k kwargs settings = elim (Bool-cases settings.auto_set_default_audio) [
  | inr off ↦ ground arith
  | inl on ↦
      let value = audio_preference (as_default_audio_preference settings) in
      ground (
        arith,
        get_key-set_default k preference_key value (set_default auto_key (flag true) kwargs),
        get_key-set_default k auto_key (flag true) kwargs,
      )
]

-- For every key a pipeline call gets the caller's value where there is one, and else what the
-- settings row provides: the default-audio pair only when its toggle is on, and the ffmpeg path
-- only when it is set and not empty.
pub get_key-resolve_pipeline_kwargs :
    (k : Str) (kwargs : Kwargs) (settings : GlobalSettings)
    → get_key k (resolve_pipeline_kwargs kwargs settings)
      ≡ or_else (get_key k kwargs) (provided settings k)
unfolding resolve_pipeline_kwargs
get_key-resolve_pipeline_kwargs k kwargs settings = ground (
  arith,
  get_key-with_ffmpeg_path k (with_default_audio settings kwargs) settings settings.ffmpeg_path
      refl,
  get_key-with_default_audio k kwargs settings,
)

get_key-shared_kwargs :
    (k : Str) (kwargs : Kwargs)
    → get_key k (shared_kwargs kwargs) ≡ (if str_eq k ffmpeg_key then get_key k kwargs else none)
unfolding get_key shared_kwargs
get_key-shared_kwargs k [] = ground arith
get_key-shared_kwargs k ((j, v) ∷ kwargs) = ground (
  arith,
  get_key-shared_kwargs k kwargs,
  str_eq_iff j k,
  str_eq_iff j ffmpeg_key,
  str_eq_iff k ffmpeg_key,
)

provided-ffmpeg_key :
    (settings : GlobalSettings) → provided settings ffmpeg_key ≡ path_value settings.ffmpeg_path
unfolding str_eq
provided-ffmpeg_key settings = ground arith

-- The default-audio pipeline gets no key but the ffmpeg path, and that one as the downmix pipeline
-- gets it, whatever the settings are.
pub get_key-shared-resolve :
    (k : Str) (kwargs : Kwargs) (settings : GlobalSettings)
    → get_key k (shared_kwargs (resolve_pipeline_kwargs kwargs settings)) ≡ (
        if str_eq k ffmpeg_key
        then or_else (get_key ffmpeg_key kwargs) (path_value settings.ffmpeg_path)
        else none)
get_key-shared-resolve k kwargs settings =
    rw get_key-shared_kwargs (elim (Bool-cases (str_eq k ffmpeg_key)) [
      | inr other ↦ simp other
      | inl same ↦
          let e = (str_eq_iff k ffmpeg_key).0 same in
          simp same (
            ap (λ j. get_key j (resolve_pipeline_kwargs kwargs settings)) e
            ∙ get_key-resolve_pipeline_kwargs ffmpeg_key kwargs settings
            ∙ ap (or_else (get_key ffmpeg_key kwargs)) (provided-ffmpeg_key settings))
    ])
