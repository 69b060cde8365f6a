-- ===== src/Jobs/Run/Outcomes.antt =====
-- What a run leaves behind: the job's terminal state, and the hooks that were called.
use mathlib.Core.List.{append-nil}
use collapsarr.Common.{
  ℕ, ◌≡◌, inl, inr, true, false, none, some, List, [], ◌∷◌, ◌++◌, Bool-cases, Option-cases, arith,
}
use collapsarr.Common.Result.{Result, ok, raise, Exception}
use collapsarr.Downmix.Pipeline.{PipelineResult}
use collapsarr.Jobs.Job.{succeeded, failed, Job}
use collapsarr.Jobs.Run.{
  Hook, Hooks, HookCall, history, tracked_media, failure, plex, terminal, record_history,
  record_tracked_media, after_effects, run_pipeline, settled, run_body,
}

-- The terminal state that the answer of the pipeline calls for.
pub data Settled (now : ℕ) (job : Job) : Result PipelineResult → Job → Type 0 where
  success :
      (r : PipelineResult)
      → r.success ≡ true
      → Settled now job
          (ok r)
          (record job { status = succeeded; result = some r; ended_at = some now })
  reported :
      (r : PipelineResult)
      → r.success ≡ false
      → Settled now job
          (ok r)
          (record job { status = failed; result = some r; ended_at = some now })
  raised :
      (e : Exception)
      → Settled now job
          (raise e)
          (record job { status = failed; error = some e; ended_at = some now })

-- The hooks of a run whose recorders do not raise.
pub record Quiet (hooks : Hooks) : Type 0 where
  pub history_returns : (job : Job) → (record_history hooks job).1 ≡ ok tt
  pub tracked_returns : (job : Job) → (record_tracked_media hooks job).1 ≡ ok tt

-- A call of each hook that is configured.
abbrev pub calls_of : Hook → HookCall → List HookCall
calls_of none call = []
calls_of (some hook) call = call ∷ []

-- The calls of a run, by the status that the job ends in.
abbrev pub expected_calls : Hooks → Job → Job → List HookCall
expected_calls hooks job done =
    calls_of hooks.history_recorder (history job)
    ++ (calls_of hooks.history_recorder (history done)
        ++ (elim done.status [
          | succeeded ↦ calls_of hooks.tracked_media_recorder (tracked_media done)
          | failed ↦ calls_of hooks.failure_notifier (failure done)
          | _ ↦ []
        ]
            ++ (elim done.status [ succeeded ↦ calls_of hooks.plex_analyzer (plex done) | _ ↦ [] ]
                ++ calls_of hooks.job_terminal_hook (terminal done))))

settled-Settled :
    (now : ℕ) (job : Job) (r : Result PipelineResult) → Settled now job r (settled now r job)
unfolding settled
settled-Settled now job (raise e) = Settled.raised e
settled-Settled now job (ok r) = elim (Bool-cases r.success) [
  | inl good ↦ simp good (Settled.success r good)
  | inr bad ↦ simp bad (Settled.reported r bad)
]

module _ (hooks : Hooks) (quiet : Quiet hooks) (job : Job) where
  record_history-calls :
      record_history hooks job ≡ (calls_of hooks.history_recorder (history job), ok tt)
  unfolding record_history
  record_history-calls = elim (Option-cases hooks.history_recorder) [
    | inl absent ↦ ground arith
    | inr (recorder, present) ↦ ground (arith, quiet.history_returns job)
  ]

  record_tracked_media-calls : record_tracked_media hooks job ≡ (
    elim job.status [
      | succeeded ↦ calls_of hooks.tracked_media_recorder (tracked_media job)
      | _ ↦ []
    ],
    ok tt,
  )
  unfolding record_tracked_media
  record_tracked_media-calls = elim (Option-cases hooks.tracked_media_recorder) [
    | inl absent ↦ ground arith
    | inr (recorder, present) ↦ ground (arith, quiet.tracked_returns job)
  ]

  -- The calls behind the terminal status.
  after_effects-calls : after_effects hooks job ≡ (
    calls_of hooks.history_recorder (history job)
        ++ (elim job.status [
          | succeeded ↦ calls_of hooks.tracked_media_recorder (tracked_media job)
          | failed ↦ calls_of hooks.failure_notifier (failure job)
          | _ ↦ []
        ]
            ++ (elim job.status [ succeeded ↦ calls_of hooks.plex_analyzer (plex job) | _ ↦ [] ]
                ++ calls_of hooks.job_terminal_hook (terminal job))),
    ok tt,
  )
  unfolding after_effects
  after_effects-calls =
      rw (record_history-calls, record_tracked_media-calls, after_effects)
        (ground (arith, append-nil (calls_of hooks.tracked_media_recorder (tracked_media job))))

-- A run whose recorders do not raise returns. The job ends in the terminal state that the
-- pipeline's answer calls for, a raise included, and the configured hooks are called in order: the
-- history recorder before and after, the tracked-media recorder and Plex only for a success, the
-- failure notifier only for a failure, and the terminal hook always.
pub run_body-Quiet :
    (hooks : Hooks) (now : ℕ) (job : Job)
    → Quiet hooks
    → (done : Job) × (run_body hooks now job ≡ (done, (expected_calls hooks job done, ok tt)))
      × Settled now job (run_pipeline hooks job) done
unfolding run_body
run_body-Quiet hooks now job quiet =
    let done = settled now (run_pipeline hooks job) job in
    (
      done,
      rw (record_history-calls hooks quiet job, after_effects-calls hooks quiet done, run_body)
          (rw (record_history-calls hooks quiet job)),
      settled-Settled now job (run_pipeline hooks job),
    )
