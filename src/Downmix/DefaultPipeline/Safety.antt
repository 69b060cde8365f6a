-- ===== src/Downmix/DefaultPipeline/Safety.antt =====
-- What a run of the disposition-only pipeline leaves on the disk.
use collapsarr.Common.{◌⊎◌, inl, inr, ◌≡◌, refl, some, List, [], Str, Option, ℕ, ap}
use collapsarr.Common.Result.{Result, ok, raise, ffprobe_error}
use collapsarr.Downmix.Files.{Files, after_io}
use collapsarr.Downmix.Files.Disk.{Same}
use collapsarr.Downmix.Stream.{AudioStreamInfo}
use collapsarr.Downmix.Targets.{QualifyingTarget, default_settings}
use collapsarr.Downmix.DefaultAudio.{DefaultAudioPreference}
use collapsarr.Downmix.Probe.{probe_audio_streams}
use collapsarr.Downmix.Remux.Safety.{IsFresh, WritesLast, run_remux-RemuxEnd}
use collapsarr.Downmix.Apply.Probes.{ReadsOnly, probe_audio_streams-Same}
use collapsarr.Downmix.Pipeline.{
  PipelineResult, stopped, Options, World, probe_tools, could_not_probe, remux_tools,
}
use collapsarr.Downmix.Pipeline.Ends.{
  PipelineEnd, idle, not_probed, unchanged, raised_early, RemuxEnd-PipelineEnd, PipelineEnd-Same,
}
use collapsarr.Downmix.DefaultPipeline.{
  Decision, too_few_streams, already_matches, move_flag, decide, nothing_done, carry_out,
  after_default_probe, run_default_audio_pipeline,
}

module _ (world : World) (options : Options) (path : Str) (preference : DefaultAudioPreference)
    (before : Files) where
  -- The streams that the run probes, no targets, and the index of the stream that the flag moves to.
  pub record IsDecided (streams : List AudioStreamInfo) (targets : List QualifyingTarget)
      (index : Option ℕ) : Type 0 where
    pub probed :
        (probe_audio_streams world.format world.runner
          (probe_tools world options path)
          path
          before).1
        ≡ ok streams
    pub none_added : targets ≡ []
    pub winner : ℕ
    pub decided : decide streams preference ≡ ok (move_flag winner)
    pub resolved : index ≡ some winner

  -- The decision on the probed streams is to do nothing.
  pub record IsLeft : Type 0 where
    pub streams : List AudioStreamInfo
    pub probed :
        (probe_audio_streams world.format world.runner
          (probe_tools world options path)
          path
          before).1
        ≡ ok streams
    pub decided :
        (decide streams preference ≡ ok too_few_streams)
        ⊎ (decide streams preference ≡ ok already_matches)

  abbrev Ends : Files → Files × Result PipelineResult → Type 0
  Ends = PipelineEnd world options path default_settings IsLeft IsDecided

  module _ (fresh : IsFresh world.mkstemp) (writes : WritesLast world.runner options.ffmpeg_path)
      (reads : ReadsOnly world.runner options.ffprobe_path) where
    module _ (disk : Files) (streams : List AudioStreamInfo)
        (probed : (probe_audio_streams world.format world.runner
            (probe_tools world options path)
            path
            before).1
          ≡ ok streams) where
      carry_out-Ends :
          (decision : Decision)
          → decide streams preference ≡ ok decision
          → Ends disk (carry_out world options path streams decision disk)
      unfolding carry_out nothing_done stopped
      carry_out-Ends too_few_streams d =
          unchanged disk _ (λ p. refl)
            (idle (record { streams = streams; probed = probed; decided = inl d })) refl
      carry_out-Ends already_matches d =
          unchanged disk _ (λ p. refl)
            (idle (record { streams = streams; probed = probed; decided = inr d })) refl
      carry_out-Ends (move_flag i) d =
          RemuxEnd-PipelineEnd world options path default_settings IsLeft IsDecided reads disk
            streams [] (some i) _
            (record {
              probed = probed;
              none_added = refl;
              winner = i;
              decided = d;
              resolved = refl;
            })
            (run_remux-RemuxEnd world.format world.mkstemp world.runner
              (remux_tools world options path (some i)) path streams [] default_settings fresh
              writes disk)

      decided-Ends :
          (decision : Result Decision)
          → decide streams preference ≡ decision
          → Ends disk (after_io (disk, decision) (carry_out world options path streams))
      unfolding after_io
      decided-Ends (ok decision) d = carry_out-Ends decision d
      decided-Ends (raise e) d = raised_early disk e (λ p. refl)

    after_default_probe-Ends :
        (m : Files × Result (List AudioStreamInfo))
        → probe_audio_streams world.format world.runner (probe_tools world options path) path before
          ≡ m
        → Same before m.0
        → Ends before (after_default_probe world options path preference m)
    unfolding after_default_probe could_not_probe stopped
    after_default_probe-Ends (disk, ok streams) e same =
        PipelineEnd-Same world options path default_settings IsLeft IsDecided before disk _ same
          (decided-Ends disk streams (ap (λ m. m.1) e) (decide streams preference) refl)
    after_default_probe-Ends (disk, raise ffprobe_error) e same =
        unchanged disk _ same (not_probed (ap (λ m. m.1) e)) refl
    after_default_probe-Ends (disk, raise _) e same = raised_early disk _ same

    -- Where `mkstemp` names a new file, an ffmpeg command writes only its last argument and an ffprobe
    -- command writes nothing, a run that only moves the default flag ends like a run of the downmix
    -- pipeline, but adds no tracks. It returns another outcome than SUCCESS with the disk as it was: the
    -- probe raised FfprobeError, the decision on the probed streams was that there are too few or that
    -- the flag stands right, the ffmpeg command failed, or its temp file was refused. It returns SUCCESS:
    -- the ffmpeg command for no targets and for the stream that the preference decides for ran on a new
    -- temp file and exited with 0, the probed durations and stream counts of the two files matched, the
    -- path holds what ffmpeg left in the temp file, and no other file differs. Or it raises with a disk
    -- that differs at most at one path where no file was.
    pub run_default_audio_pipeline-PipelineEnd :
        Ends before (run_default_audio_pipeline world options path preference before)
    unfolding run_default_audio_pipeline
    run_default_audio_pipeline-PipelineEnd = after_default_probe-Ends _ refl (
        probe_audio_streams-Same world.runner (probe_tools world options path) reads world.format
          path before)
