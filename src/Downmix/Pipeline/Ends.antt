-- ===== src/Downmix/Pipeline/Ends.antt =====
-- The ways in which a run of a pipeline ends, from the ways in which its remux and its swap end.
use collapsarr.Common.{
  ℕ, ◌≡◌, ◌⊎◌, inl, inr, refl, sym, subst, true, Option, none, some, List, [], Str, arith, length,
}
use collapsarr.Common.Int.{ℤ, pos}
use collapsarr.Common.Result.{Exception, Result, ok, raise, ffprobe_error}
use collapsarr.Downmix.Files.{Files, after_io, Ran, completed}
use collapsarr.Downmix.Files.Disk.{
  SameBut, Same, IsDiscarded, IsSwapped, discard-Same, swap-SameBut,
}
use collapsarr.Downmix.Stream.{AudioStreamInfo}
use collapsarr.Downmix.Targets.{DownmixSettings, QualifyingTarget}
use collapsarr.Downmix.Probe.{probe_audio_streams}
use collapsarr.Downmix.Remux.{RemuxResult}
use collapsarr.Downmix.Remux.Run.{remuxed}
use collapsarr.Downmix.Remux.Safety.{
  Runs, Failure, RemuxEnd, unbuilt, unreserved, failed, produced, orphaned,
}
use collapsarr.Downmix.Apply.{ApplyResult, ApplyFailureReason, Comparison, refuse}
use collapsarr.Downmix.Apply.Probes.{ReadsOnly, Unprobed}
use collapsarr.Downmix.Apply.Swap.{
  Fails, IsMade, Matches, ApplyEnd, bad_input, unprobed, refused, swapped,
  apply_remux_result-ApplyEnd,
}
use collapsarr.Downmix.Pipeline.{
  PipelineOutcome, PipelineResult, probe_tools, stopped, could_not_validate, could_not_remux,
  remux_tools, Options, World, after_apply, applied, after_remux,
}

-- What a run asks a remux for: the probed streams, the targets, and the default index.
abbrev pub Asks : Type 1
Asks = List AudioStreamInfo → List QualifyingTarget → Option ℕ → Type 0

some_injective : {A : Type 0} {a b : A} → some a ≡ some b → a ≡ b
some_injective e = ground arith

module _ (world : World) (options : Options) (path : Str) (settings : DownmixSettings)
    (Idle : Type 0) (Asked : Asks) where
  -- The subprocess of the remux for these streams, targets and index.
  abbrev pub Remuxes :
      List AudioStreamInfo → List QualifyingTarget → Option ℕ → Files → Str → Files × Ran → Type 0
  Remuxes streams targets index =
      Runs world.format world.mkstemp world.runner (remux_tools world options path index) path
        streams targets settings

  -- Why the temp file that ffmpeg left on `disk` is not applied.
  abbrev Refusal : List QualifyingTarget → Files → Str → Str → Type 0
  Refusal targets disk temp stderr =
      (Unprobed world.runner (probe_tools world options path) disk path ffprobe_error
        ⊎ Unprobed world.runner (probe_tools world options path) disk temp ffprobe_error)
      ⊎ ((c : Comparison) × (reason : ApplyFailureReason) × IsMade world.runner
            (probe_tools world options path) options.duration_tolerance_seconds path
            (remuxed temp stderr) (pos (length targets)) disk temp c
          × Fails c reason)

  -- The outcomes but SUCCESS, each with its reason.
  pub data Stops (before : Files) : PipelineOutcome → Type 0 where
    not_probed :
        (probe_audio_streams world.format world.runner
            (probe_tools world options path)
            path
            before).1
          ≡ raise ffprobe_error
        → Stops before PipelineOutcome.probe_failed
    idle : Idle → Stops before PipelineOutcome.nothing_to_do
    not_remuxed :
        (streams : List AudioStreamInfo) (targets : List QualifyingTarget) (index : Option ℕ)
        (disk : Files) (temp : Str) (answer : Ran) (code : ℤ)
        → Asked streams targets index
        → Remuxes streams targets index before temp (disk, answer)
        → Failure answer code
        → Stops before PipelineOutcome.remux_failed
    not_applied :
        (streams : List AudioStreamInfo) (targets : List QualifyingTarget) (index : Option ℕ)
        (disk : Files) (temp out stderr : Str)
        → Asked streams targets index
        → Remuxes streams targets index before temp (disk, completed (pos 0) out stderr)
        → Refusal targets disk temp stderr
        → Stops before PipelineOutcome.apply_failed

  -- The pipeline's end, from the disk `before`.
  pub data PipelineEnd (before : Files) : Files × Result PipelineResult → Type 0 where
    unchanged :
        (after : Files) (r : PipelineResult)
        → Same before after
        → Stops before r.outcome
        → r.tracks_added ≡ []
        → PipelineEnd before (after, ok r)
    replaced :
        (disk after : Files) (r : PipelineResult) (temp out stderr : Str) (c : Comparison)
        (streams : List AudioStreamInfo) (index : Option ℕ)
        → before temp ≡ none
        → Asked streams r.tracks_added index
        → Remuxes streams r.tracks_added index before temp (disk, completed (pos 0) out stderr)
        → IsMade world.runner
            (probe_tools world options path)
            options.duration_tolerance_seconds
            path
            (remuxed temp stderr)
            (pos (length r.tracks_added))
            disk
            temp
            c
        → Matches c
        → after path ≡ disk temp
        → SameBut path before after
        → r.outcome ≡ PipelineOutcome.success
        → r.success ≡ true
        → PipelineEnd before (after, ok r)
    raised :
        (after : Files) (e : Exception) (temp : Str)
        → before temp ≡ none
        → SameBut temp before after
        → PipelineEnd before (after, raise e)
    raised_early :
        (after : Files) (e : Exception) → Same before after → PipelineEnd before (after, raise e)

  module _ (streams : List AudioStreamInfo) (targets : List QualifyingTarget) (index : Option ℕ)
      (asked : Asked streams targets index) (before disk : Files) (temp out stderr : Str)
      (new : before temp ≡ none)
      (runs : Remuxes streams targets index before temp (disk, completed (pos 0) out stderr))
      (same : SameBut temp before disk) where
    abbrev Ends : Files × Result ApplyResult → Type 0
    Ends m = PipelineEnd before (after_apply world options path targets (remuxed temp stderr) m)

    discarded-Ends :
        (after : Files) (e : Exception)
        → Unprobed world.runner (probe_tools world options path) disk path e
          ⊎ Unprobed world.runner (probe_tools world options path) disk temp e
        → IsDiscarded temp disk after
        → Ends (after, raise e)
    unfolding after_apply could_not_validate stopped
    discarded-Ends after ffprobe_error why h =
        unchanged after _ (discard-Same temp before disk after new same h)
          (not_applied streams targets index disk temp out stderr asked runs (inl why)) refl
    discarded-Ends after _ why h =
        raised_early after _ (discard-Same temp before disk after new same h)

    same-IsMade :
        {u : Str} (t : Str) (c : Comparison)
        → u ≡ t
        → IsMade world.runner
            (probe_tools world options path)
            options.duration_tolerance_seconds
            path
            (remuxed temp stderr)
            (pos (length targets))
            disk
            u
            c
        → IsMade world.runner
            (probe_tools world options path)
            options.duration_tolerance_seconds
            path
            (remuxed temp stderr)
            (pos (length targets))
            disk
            t
            c
    same-IsMade t c at made =
        subst
          (λ v.
            IsMade world.runner (probe_tools world options path) options.duration_tolerance_seconds
              path (remuxed temp stderr) (pos (length targets)) disk v c)
          at made

    ApplyEnd-Ends :
        (m : Files × Result ApplyResult)
        → ApplyEnd world.runner
            (probe_tools world options path)
            options.duration_tolerance_seconds
            path
            (remuxed temp stderr)
            (pos (length targets))
            disk
            m
        → Ends m
    unfolding remuxed after_apply applied stopped refuse
    ApplyEnd-Ends _ (bad_input (inl e)) = ground arith
    ApplyEnd-Ends _ (bad_input (inr (inl e))) = ground arith
    ApplyEnd-Ends _ (bad_input (inr (inr (n, e)))) = ground arith
    ApplyEnd-Ends _ (unprobed u after e given why h) =
        let at : u ≡ temp = some_injective (sym given.at) in
        discarded-Ends after e
          (subst
            (λ t.
              Unprobed world.runner (probe_tools world options path) disk path e
              ⊎ Unprobed world.runner (probe_tools world options path) disk t e)
            at why)
          (subst (λ t. IsDiscarded t disk after) at h)
    ApplyEnd-Ends _ (refused u c after reason detail given made fails h) =
        let at : u ≡ temp = some_injective (sym given.at) in
        unchanged after _
          (discard-Same temp before disk after new same
            (subst (λ t. IsDiscarded t disk after) at h))
          (not_applied streams targets index disk temp out stderr asked runs
            (inr (c, reason, same-IsMade temp c at made, fails)))
          refl
    ApplyEnd-Ends _ (swapped u c after a given made matches h s p f) =
        let at : u ≡ temp = (some_injective (sym given.at)) in
        let swap = subst (λ t. IsSwapped path t disk after) at h in
        rw s (
          replaced disk after _ temp out stderr c streams index new asked runs
            (same-IsMade temp c at made) matches swap.replaced
            (swap-SameBut path temp before disk after new same swap) refl refl)

  module _ (reads : ReadsOnly world.runner options.ffprobe_path) (before : Files) where
    pub RemuxEnd-PipelineEnd :
        (streams : List AudioStreamInfo) (targets : List QualifyingTarget) (index : Option ℕ)
        (m : Files × Result RemuxResult)
        → Asked streams targets index
        → RemuxEnd world.format world.mkstemp world.runner
            (remux_tools world options path index)
            path
            streams
            targets
            settings
            before
            m
        → PipelineEnd before (after_io m (after_remux world options path targets))
    unfolding after_io after_remux could_not_remux stopped remuxed
    RemuxEnd-PipelineEnd streams targets index _ asked (unbuilt b) =
        raised_early before _ (λ p. refl)
    RemuxEnd-PipelineEnd streams targets index _ asked (unreserved e m) =
        raised_early before e (λ p. refl)
    RemuxEnd-PipelineEnd streams targets index _ asked
          (failed disk after temp answer r runs why same unsuccessful t) =
        rw unsuccessful (
          unchanged after _ same
            (not_remuxed streams targets index disk temp answer r.returncode asked runs why) refl)
    RemuxEnd-PipelineEnd streams targets index _ asked
          (produced disk temp out stderr new runs same) =
        ApplyEnd-Ends streams targets index asked before disk temp out stderr new runs same _ (
          apply_remux_result-ApplyEnd world.runner (probe_tools world options path)
            options.duration_tolerance_seconds path (remuxed temp stderr) (pos (length targets))
            disk world.format reads)
    RemuxEnd-PipelineEnd streams targets index _ asked (orphaned after temp e f t new runs same) =
        raised after e temp new same

  -- Equal disks are one disk.
  pub PipelineEnd-Same :
      (before disk : Files) (m : Files × Result PipelineResult)
      → Same before disk
      → PipelineEnd disk m
      → PipelineEnd before m
  PipelineEnd-Same before disk m like end =
      let same : disk ≡ before = λ i p. like p i in
      subst (λ (files : Files). PipelineEnd files m) same end
