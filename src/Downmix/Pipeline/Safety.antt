-- ===== src/Downmix/Pipeline/Safety.antt =====
-- What a run of the pipeline leaves on the disk, and what it reports.
use collapsarr.Common.{ℕ, ◌≡◌, ◌≢◌, refl, sym, ap, Option, List, [], ◌∷◌, Str, arith}
use collapsarr.Common.Result.{Result, ok, raise, ffprobe_error}
use collapsarr.Downmix.Files.{Files, after_io}
use collapsarr.Downmix.Files.Disk.{Same}
use collapsarr.Downmix.Stream.{AudioStreamInfo}
use collapsarr.Downmix.Targets.{DownmixSettings, QualifyingTarget, detect_qualifying_targets}
use collapsarr.Downmix.Probe.{probe_audio_streams}
use collapsarr.Downmix.Remux.Safety.{IsFresh, WritesLast, run_remux-RemuxEnd}
use collapsarr.Downmix.Apply.Probes.{ReadsOnly, probe_audio_streams-Same}
use collapsarr.Downmix.Pipeline.{
  PipelineResult, probe_tools, stopped, could_not_probe, no_targets, default_audio_index,
  remux_tools, Options, World, add_tracks, after_probe, run_downmix_pipeline,
}
use collapsarr.Downmix.Pipeline.Ends.{
  PipelineEnd, idle, not_probed, unchanged, raised_early, RemuxEnd-PipelineEnd, PipelineEnd-Same,
}

module _ (world : World) (options : Options) (path : Str) (settings : DownmixSettings)
    (before : Files) where
  -- The streams that the run probes, the targets that these lack, and the index that the preference
  -- calls for.
  pub record IsDetected (streams : List AudioStreamInfo) (targets : List QualifyingTarget)
      (index : Option ℕ) : Type 0 where
    pub probed :
        (probe_audio_streams world.format world.runner
          (probe_tools world options path)
          path
          before).1
        ≡ ok streams
    pub detected : targets ≡ detect_qualifying_targets streams settings
    pub nonempty : targets ≢ []
    pub resolved : default_audio_index world options path streams targets ≡ ok index

  -- The probed streams lack no target.
  pub record IsComplete : Type 0 where
    pub streams : List AudioStreamInfo
    pub probed :
        (probe_audio_streams world.format world.runner
          (probe_tools world options path)
          path
          before).1
        ≡ ok streams
    pub complete : detect_qualifying_targets streams settings ≡ []

  abbrev pub End : Files → Files × Result PipelineResult → Type 0
  End = PipelineEnd world options path settings IsComplete IsDetected

  module _ (reads : ReadsOnly world.runner options.ffprobe_path) (fresh : IsFresh world.mkstemp)
      (writes : WritesLast world.runner options.ffmpeg_path) where
    module _ (disk : Files) (streams : List AudioStreamInfo)
        (probed : (probe_audio_streams world.format world.runner
            (probe_tools world options path)
            path
            before).1
          ≡ ok streams) where
      indexed-PipelineEnd :
          (t : QualifyingTarget) (ts : List QualifyingTarget) (index : Result (Option ℕ))
          → t ∷ ts ≡ detect_qualifying_targets streams settings
          → default_audio_index world options path streams (t ∷ ts) ≡ index
          → End disk (add_tracks world options path settings streams (t ∷ ts) disk)
      unfolding add_tracks after_io
      indexed-PipelineEnd t ts (raise e) d i = rw i (raised_early disk e (λ p. refl))
      indexed-PipelineEnd t ts (ok index) d i = rw i (
          RemuxEnd-PipelineEnd world options path settings IsComplete IsDetected reads disk streams
            (t ∷ ts) index _
            (record { probed = probed; detected = d; nonempty = λ e. ground arith; resolved = i })
            (run_remux-RemuxEnd world.format world.mkstemp world.runner
              (remux_tools world options path index) path streams (t ∷ ts) settings fresh writes
              disk))

      add_tracks-PipelineEnd :
          (ts : List QualifyingTarget)
          → ts ≡ detect_qualifying_targets streams settings
          → End disk (add_tracks world options path settings streams ts disk)
      unfolding add_tracks no_targets stopped
      add_tracks-PipelineEnd [] d =
          unchanged disk _ (λ p. refl)
            (idle (record { streams = streams; probed = probed; complete = sym d })) refl
      add_tracks-PipelineEnd (t ∷ ts) d = indexed-PipelineEnd t ts _ d refl

    probed-PipelineEnd :
        (m : Files × Result (List AudioStreamInfo))
        → probe_audio_streams world.format world.runner (probe_tools world options path) path before
          ≡ m
        → Same before m.0
        → End before (after_probe world options path settings m)
    unfolding after_probe could_not_probe stopped
    probed-PipelineEnd (disk, ok streams) e same =
        PipelineEnd-Same world options path settings IsComplete IsDetected before disk _ same (
          add_tracks-PipelineEnd disk streams (ap (λ m. m.1) e)
            (detect_qualifying_targets streams settings) refl)
    probed-PipelineEnd (disk, raise ffprobe_error) e same =
        unchanged disk _ same (not_probed (ap (λ m. m.1) e)) refl
    probed-PipelineEnd (disk, raise _) e same = raised_early disk _ same

    -- Where `mkstemp` names a new file, an ffmpeg command writes only its last argument and an ffprobe
    -- command writes nothing, a run ends in one of four ways. It returns another outcome than SUCCESS,
    -- no added tracks, and the disk as it was, and the outcome has its reason: the probe raised
    -- FfprobeError, the probed streams lack no target, the ffmpeg command for those that they lack ran
    -- on a new temp file and failed, or it exited with 0 and the temp file was refused: a probe of the
    -- two files raised FfprobeError, or their durations or stream counts did not match. It returns
    -- SUCCESS, and the added tracks are those that the probed streams lack: the ffmpeg command for
    -- these ran on a new temp file and exited with 0, the probed durations and stream counts of the two
    -- files matched, the path holds what ffmpeg left in the temp file, and no other file differs from
    -- before the run. It raises with the disk as it was. Or it raises with a disk that differs at most
    -- at one path where no file was.
    pub run_downmix_pipeline-PipelineEnd :
        End before (run_downmix_pipeline world options path settings before)
    unfolding run_downmix_pipeline
    run_downmix_pipeline-PipelineEnd = probed-PipelineEnd _ refl (
        probe_audio_streams-Same world.runner (probe_tools world options path) reads world.format
          path before)
