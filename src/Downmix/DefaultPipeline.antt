-- ===== src/Downmix/DefaultPipeline.antt =====
-- collapsarr/downmix/default_audio_pipeline.py: moving the default flag of one file, with no new track.
-- The steps behind its remux are those of pipeline.py with no targets.
pub mod Agrees
pub mod Safety
use collapsarr.Common.{
  ℕ, Bool, true, false, not, ◌&&◌, Option, none, some, List, [], ◌∷◌, Str, codes, ◌++◌, get_elem?,
  if◌then◌else◌,
}
use collapsarr.Common.Result.{Exception, Result, ok, raise, other_error, ffprobe_error}
use collapsarr.Downmix.Files.{Files, Io, ◌>>=◌, return, lift}
use collapsarr.Downmix.Stream.{AudioStreamInfo}
use collapsarr.Downmix.Targets.{default_settings}
use collapsarr.Downmix.DefaultAudio.{
  DefaultAudioPreference, StreamRef, refs, resolve_default_audio_stream, index_of, other_default,
}
use collapsarr.Downmix.Probe.{probe_audio_streams}
use collapsarr.Downmix.Remux.Run.{run_remux}
use collapsarr.Downmix.Pipeline.{
  PipelineOutcome, PipelineResult, stopped, Options, World, probe_tools, quoted, could_not_probe,
  remux_tools, after_remux,
}

-- The test on `streams[winner_index]`, where IndexError is another exception.
unfoldable pub is_only_default : List StreamRef → ℕ → Option StreamRef → Result Bool
unfolding other_default
is_only_default streams winner_index none = raise other_error
is_only_default streams winner_index (some winner) =
    ok (winner.is_default && not (other_default 0 streams winner_index))

unfoldable pub already_correct : List StreamRef → ℕ → Result Bool
unfolding is_only_default
already_correct streams winner_index =
    is_only_default streams winner_index (get_elem? streams winner_index)

-- What is to be done: nothing, for one of two reasons, or to move the flag.
pub data Decision : Type 0 where
  too_few_streams already_matches : Decision
  move_flag : ℕ → Decision

unfoldable pub decision_of : ℕ → Result Bool → Result Decision
decision_of winner_index (ok true) = ok already_matches
decision_of winner_index (ok false) = ok (move_flag winner_index)
decision_of winner_index (raise e) = raise e

unfoldable pub decide_at : List StreamRef → Result ℕ → Result Decision
unfolding already_correct decision_of
decide_at streams (ok winner_index) =
    decision_of winner_index (already_correct streams winner_index)
decide_at streams (raise e) = raise e

unfoldable pub decide_for : List StreamRef → Option StreamRef → Result Decision
unfolding decide_at index_of
decide_for streams none = ok too_few_streams
decide_for streams (some winner) = decide_at streams (index_of 0 streams winner)

unfoldable pub decide : List AudioStreamInfo → DefaultAudioPreference → Result Decision
unfolding decide_for resolve_default_audio_stream refs
decide streams preference =
    decide_for (refs streams) (resolve_default_audio_stream (refs streams) preference)

module _ (world : World) (options : Options) (path : Str) where
  unfoldable pub nothing_done : Str → PipelineResult
  unfolding stopped
  nothing_done detail = stopped PipelineOutcome.nothing_to_do true detail none none

  unfoldable pub carry_out : List AudioStreamInfo → Decision → Io PipelineResult
  unfolding nothing_done run_remux remux_tools after_remux
  carry_out streams too_few_streams = return (
      nothing_done (
        codes "fewer than two audio streams to compare in "
        ++ quoted world options path
        ++ codes "; nothing to do"))
  carry_out streams already_matches = return (
      nothing_done (
        codes "Default Audio Track disposition in "
        ++ quoted world options path
        ++ codes " already matches the preference; nothing to do"))
  carry_out streams (move_flag winner_index) = do
    r ←
        run_remux world.format world.mkstemp world.runner
          (remux_tools world options path (some winner_index)) path streams [] default_settings
    after_remux world options path [] r

  -- `except FfprobeError` around the probe, and the steps behind it.
  unfoldable pub after_default_probe :
      DefaultAudioPreference → Files × Result (List AudioStreamInfo) → Files × Result PipelineResult
  unfolding could_not_probe decide carry_out
  after_default_probe preference (files, ok streams) =
      (lift (decide streams preference) >>= carry_out streams) files
  after_default_probe preference (files, raise ffprobe_error) =
      (files, ok (could_not_probe world options path ffprobe_error))
  after_default_probe preference (files, raise e) = (files, raise e)

  unfoldable pub run_default_audio_pipeline : DefaultAudioPreference → Io PipelineResult
  unfolding probe_audio_streams after_default_probe
  run_default_audio_pipeline preference files =
      after_default_probe preference
        (probe_audio_streams world.format world.runner (probe_tools world options path) path files)
