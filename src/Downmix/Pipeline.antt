-- ===== src/Downmix/Pipeline.antt =====
-- collapsarr/downmix/pipeline.py: the four stages on one file, end to end. Logging is left out.
pub mod Ends
pub mod Safety
pub mod Accepted
pub mod Total
use collapsarr.Common.{
  ℕ, Bool, true, false, Option, none, some, List, [], ◌∷◌, Str, codes, ◌++◌, strip, length,
  if◌then◌else◌,
}
use collapsarr.Common.Int.{ℤ, pos}
use collapsarr.Common.Float.{Float}
use collapsarr.Common.Result.{Exception, Result, ok, raise, ffprobe_error}
use collapsarr.Downmix.Files.{Files, Io, ◌>>=◌, return, lift, Runner, Format}
use collapsarr.Downmix.Stream.{AudioStreamInfo}
use collapsarr.Downmix.Targets.{DownmixSettings, QualifyingTarget, detect_qualifying_targets}
use collapsarr.Downmix.DefaultAudio.{DefaultAudioPreference, resolve_default_audio_output_index}
use collapsarr.Downmix.Probe.{ProbeTools, Parsers, probe_audio_streams}
use collapsarr.Downmix.Remux.{RemuxResult, Tools}
use collapsarr.Downmix.Remux.Run.{Mkstemp, run_remux}
use collapsarr.Downmix.Apply.{ApplyResult, apply_remux_result}

pub data PipelineOutcome : Type 0 where
  success nothing_to_do probe_failed remux_failed apply_failed : PipelineOutcome

pub record PipelineResult : Type 0 where
  pub outcome : PipelineOutcome
  pub success : Bool
  pub detail : Str
  pub tracks_added : List QualifyingTarget
  pub remux_result : Option RemuxResult
  pub apply_result : Option ApplyResult

-- A result of a stage that adds no track.
unfoldable pub stopped :
    PipelineOutcome → Bool → Str → Option RemuxResult → Option ApplyResult → PipelineResult
stopped outcome flag detail remux_result apply_result = record {
  outcome = outcome;
  success = flag;
  detail = detail;
  tracks_added = [];
  remux_result = remux_result;
  apply_result = apply_result;
}

-- The keyword arguments but `runner` and `cancel_handle`, which stand for the runner that is used.
pub record Options : Type 0 where
  pub ffprobe_path : Str
  pub ffmpeg_path : Str
  pub probe_timeout : ℕ
  pub remux_timeout : ℕ
  pub duration_tolerance_seconds : Float
  pub default_audio_preference : Option DefaultAudioPreference
  pub auto_set_default_audio : Bool

-- What the stages use of their surroundings.
pub record World : Type 0 where
  pub format : Format
  pub parsers : Parsers
  pub mkstemp : Mkstemp
  pub runner : Runner

unfoldable pub as_index : Option ℕ → Option ℤ
as_index none = none
as_index (some n) = some (pos n)

unfoldable pub resolve_if_wanted :
    List AudioStreamInfo
    → List QualifyingTarget
    → Bool
    → Option DefaultAudioPreference
    → Result (Option ℕ)
unfolding resolve_default_audio_output_index
resolve_if_wanted streams targets true (some preference) =
    resolve_default_audio_output_index streams targets preference
resolve_if_wanted streams targets _ _ = ok none

module _ (world : World) (options : Options) (path : Str) where
  abbrev pub probe_tools : ProbeTools
  probe_tools = record {
    ffprobe_path = options.ffprobe_path;
    timeout = options.probe_timeout;
    parsers = world.parsers;
  }

  abbrev pub quoted : Str
  quoted = world.format.repr path

  unfoldable pub could_not_probe : Exception → PipelineResult
  unfolding stopped
  could_not_probe e =
      stopped PipelineOutcome.probe_failed false
        (codes "failed to probe audio streams of "
          ++ quoted
          ++ codes ": "
          ++ world.format.message e)
        none none

  unfoldable pub no_targets : PipelineResult
  unfolding stopped
  no_targets =
      stopped PipelineOutcome.nothing_to_do true
        (codes "no qualifying downmix targets for " ++ quoted ++ codes "; nothing to do") none none

  unfoldable pub could_not_remux : RemuxResult → PipelineResult
  unfolding stopped
  could_not_remux r =
      stopped PipelineOutcome.remux_failed false
        (codes "ffmpeg remux failed for "
          ++ quoted
          ++ codes " (exit code "
          ++ world.format.int r.returncode
          ++ codes "): "
          ++ strip r.stderr)
        (some r) none

  unfoldable pub could_not_validate : RemuxResult → Exception → PipelineResult
  unfolding stopped
  could_not_validate r e =
      stopped PipelineOutcome.apply_failed false
        (codes "failed to validate remux result for "
          ++ quoted
          ++ codes ": "
          ++ world.format.message e)
        (some r) none

  -- The last test, on what the apply stage returned.
  unfoldable pub applied : List QualifyingTarget → RemuxResult → ApplyResult → PipelineResult
  unfolding stopped
  applied targets r a =
      if a.success
      then record {
        outcome = PipelineOutcome.success;
        success = true;
        detail = a.detail;
        tracks_added = targets;
        remux_result = some r;
        apply_result = some a;
      }
      else stopped PipelineOutcome.apply_failed false a.detail (some r) (some a)

  -- `except FfprobeError` around the apply stage, and the steps behind it.
  unfoldable pub after_apply :
      List QualifyingTarget
      → RemuxResult
      → Files × Result ApplyResult
      → Files × Result PipelineResult
  unfolding applied could_not_validate
  after_apply targets r (files, ok a) = (files, ok (applied targets r a))
  after_apply targets r (files, raise ffprobe_error) =
      (files, ok (could_not_validate r ffprobe_error))
  after_apply targets r (files, raise e) = (files, raise e)

  unfoldable pub after_remux : List QualifyingTarget → RemuxResult → Io PipelineResult
  unfolding could_not_remux after_apply apply_remux_result
  after_remux targets r files =
      if r.success
      then after_apply targets r (
          apply_remux_result world.format world.runner probe_tools
            options.duration_tolerance_seconds path r (pos (length targets)) files)
      else (files, ok (could_not_remux r))

  unfoldable pub default_audio_index :
      List AudioStreamInfo → List QualifyingTarget → Result (Option ℕ)
  unfolding resolve_if_wanted
  default_audio_index streams targets =
      resolve_if_wanted streams targets options.auto_set_default_audio
        options.default_audio_preference

  unfoldable pub remux_tools : Option ℕ → Tools
  unfolding as_index
  remux_tools index = record {
    ffmpeg_path = options.ffmpeg_path;
    timeout = options.remux_timeout;
    default_audio_index = as_index index;
  }

  -- The stages behind the detection.
  unfoldable pub add_tracks :
      DownmixSettings → List AudioStreamInfo → List QualifyingTarget → Io PipelineResult
  unfolding no_targets default_audio_index remux_tools run_remux after_remux
  add_tracks settings streams [] = return no_targets
  add_tracks settings streams (t ∷ ts) = do
    index ← lift (default_audio_index streams (t ∷ ts))
    r ←
        run_remux world.format world.mkstemp world.runner (remux_tools index) path streams (t ∷ ts)
          settings
    after_remux (t ∷ ts) r

  -- `except FfprobeError` around the probe, and the steps behind it.
  unfoldable pub after_probe :
      DownmixSettings → Files × Result (List AudioStreamInfo) → Files × Result PipelineResult
  unfolding could_not_probe detect_qualifying_targets add_tracks
  after_probe settings (files, ok streams) =
      add_tracks settings streams (detect_qualifying_targets streams settings) files
  after_probe settings (files, raise ffprobe_error) = (files, ok (could_not_probe ffprobe_error))
  after_probe settings (files, raise e) = (files, raise e)

  unfoldable pub run_downmix_pipeline : DownmixSettings → Io PipelineResult
  unfolding probe_audio_streams after_probe
  run_downmix_pipeline settings files =
      after_probe settings (probe_audio_streams world.format world.runner probe_tools path files)
