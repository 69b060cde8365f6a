-- ===== src/Downmix/Remux.antt =====
-- collapsarr/downmix/remux.py: the ffmpeg command of a remux, and running it on a temp file.
pub mod Sources
pub mod Command
pub mod Run
pub mod Safety
use collapsarr.Common.{
  ℕ, zero, suc, ◌+◌, Bool, true, false, not, ◌&&◌, ◌||◌, Option, none, some, List, [], ◌∷◌, ◌++◌,
  Str, codes, str_eq, ◌==◌, ltb, if◌then◌else◌, length,
}
use collapsarr.Common.Int.{ℤ, pos, negsuc}
use collapsarr.Common.Result.{Exception, Result, ok, raise, value_error, ◌>>=◌}
use collapsarr.Downmix.Files.{Format}
use collapsarr.Downmix.Stream.{AudioStreamInfo}
use collapsarr.Downmix.Targets.{
  DownmixTarget, stereo, two_point_one, five_point_one, target_channels, DownmixSettings,
  QualifyingTarget,
}

unfoldable pub target_channel_layout : DownmixTarget → Str
target_channel_layout stereo = codes "stereo"
target_channel_layout two_point_one = codes "2.1"
target_channel_layout five_point_one = codes "5.1"

pub record RemuxResult : Type 0 where
  pub success : Bool
  pub temp_file_path : Option Str
  pub returncode : ℤ
  pub stderr : Str

unfoldable pub codec_settings_for : DownmixTarget → DownmixSettings → Str × Option ℕ
codec_settings_for stereo settings = (settings.stereo_codec, settings.stereo_bitrate_kbps)
codec_settings_for _ settings = (settings.surround_codec, settings.surround_bitrate_kbps)

unfoldable pub candidates : Str → List AudioStreamInfo → List AudioStreamInfo
candidates language [] = []
candidates language (x ∷ xs) =
    let rest = candidates language xs in if str_eq x.language language then x ∷ rest else rest

-- `x` has a greater key `(channels, -index)` than `y`.
unfoldable pub outranks : AudioStreamInfo → AudioStreamInfo → Bool
outranks x y = ltb y.channels x.channels || (x.channels == y.channels && ltb x.index y.index)

-- `max` keeps the first of the greatest.
unfoldable pub best_source : AudioStreamInfo → List AudioStreamInfo → AudioStreamInfo
unfolding outranks
best_source b [] = b
best_source b (x ∷ xs) = best_source (if outranks x b then x else b) xs

abbrev pub Source : Type 0
Source = QualifyingTarget × AudioStreamInfo

unfoldable pub source_of : List AudioStreamInfo → QualifyingTarget → Result Source
unfolding candidates best_source
source_of streams target = elim (candidates target.language streams) [
  | [] ↦ raise value_error
  | x ∷ xs ↦ ok (target, best_source x xs)
]

unfoldable pub resolve_sources : List AudioStreamInfo → List QualifyingTarget → Result (List Source)
unfolding source_of
resolve_sources streams [] = ok []
resolve_sources streams (t ∷ ts) = do
  source ← source_of streams t
  rest ← resolve_sources streams ts
  ok (source ∷ rest)

-- `0 <= default_audio_index < total_audio_streams`
unfoldable pub in_range : ℤ → ℕ → Bool
in_range (pos i) total = ltb i total
in_range (negsuc i) total = false

unfoldable pub is_index : ℕ → ℤ → Bool
is_index i (pos j) = i == j
is_index i (negsuc j) = false

-- What of the keyword arguments the stages share.
pub record Tools : Type 0 where
  pub ffmpeg_path : Str
  pub timeout : ℕ
  pub default_audio_index : Option ℤ

-- The two refusals of bad input.
unfoldable pub check_request : List QualifyingTarget → Option ℤ → Result (Unit {0})
check_request [] none = raise value_error
check_request _ _ = ok tt

unfoldable pub check_index : Option ℤ → ℕ → Result (Unit {0})
unfolding in_range
check_index none total = ok tt
check_index (some index) total = if in_range index total then ok tt else raise value_error

module _ (format : Format) where
  abbrev number : ℕ → Str
  number n = format.int (pos n)

  unfoldable pub map_arguments : List Source → List Str
  map_arguments [] = []
  map_arguments ((target, source) ∷ sources) =
      codes "-map" ∷ (codes "0:" ++ number source.index) ∷ map_arguments sources

  unfoldable pub bitrate_arguments : ℕ → Option ℕ → List Str
  bitrate_arguments i none = []
  bitrate_arguments i (some kbps) = (codes "-b:a:" ++ number i) ∷ (number kbps ++ codes "k") ∷ []

  unfoldable pub track_arguments : ℕ → DownmixSettings → QualifyingTarget → List Str
  unfolding codec_settings_for target_channels target_channel_layout bitrate_arguments
  track_arguments i settings target =
      (codes "-c:a:" ++ number i)
      ∷ (codec_settings_for target.target settings).0
      ∷ (codes "-ac:a:" ++ number i)
      ∷ number (target_channels target.target)
      ∷ (codes "-channel_layout:a:" ++ number i)
      ∷ target_channel_layout target.target
      ∷ (bitrate_arguments i (codec_settings_for target.target settings).1
          ++ (codes "-metadata:s:a:" ++ number i) ∷ (codes "language=" ++ target.language) ∷ [])

  -- The loop over the sources, from the output index `i`.
  unfoldable pub tracks_arguments : ℕ → DownmixSettings → List Source → List Str
  unfolding track_arguments
  tracks_arguments i settings [] = []
  tracks_arguments i settings ((target, source) ∷ sources) =
      track_arguments i settings target ++ tracks_arguments (suc i) settings sources

  -- The loop over `range(total_audio_streams)`, from `i` on.
  unfoldable pub disposition_arguments : ℕ → ℕ → ℤ → List Str
  unfolding is_index
  disposition_arguments zero i index = []
  disposition_arguments (suc left) i index =
      (codes "-disposition:a:" ++ number i)
      ∷ (if is_index i index then codes "default" else codes "0")
      ∷ disposition_arguments left (suc i) index

  unfoldable pub default_arguments : ℕ → Option ℤ → List Str
  unfolding disposition_arguments
  default_arguments total none = []
  default_arguments total (some index) = disposition_arguments total 0 index

  unfoldable pub build_remux_command :
      Tools
      → Str
      → Str
      → List AudioStreamInfo
      → List QualifyingTarget
      → DownmixSettings
      → Result (List Str)
  unfolding check_request resolve_sources check_index map_arguments tracks_arguments
      default_arguments
  build_remux_command tools file_path temp_file_path streams targets settings = do
    _ ← check_request targets tools.default_audio_index
    sources ← resolve_sources streams targets
    let total = length streams + length sources
    _ ← check_index tools.default_audio_index total
    ok (
        tools.ffmpeg_path
        ∷ codes "-hide_banner"
        ∷ codes "-nostdin"
        ∷ codes "-y"
        ∷ codes "-i"
        ∷ file_path
        ∷ codes "-map"
        ∷ codes "0"
        ∷ (map_arguments sources
            ++ codes "-c"
              ∷ codes "copy"
              ∷ (tracks_arguments (length streams) settings sources
                  ++ (default_arguments total tools.default_audio_index ++ temp_file_path ∷ []))))
