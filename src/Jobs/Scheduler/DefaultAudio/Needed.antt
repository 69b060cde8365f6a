-- ===== src/Jobs/Scheduler/DefaultAudio/Needed.antt =====
-- A job that moves the default flag is enqueued where its pipeline has something to do.
use collapsarr.Common.{
  ℕ, suc, ◌≡◌, refl, sym, ap, ◌∙◌, inl, inr, Bool, true, false, Option, none, some, List, [], ◌∷◌,
  Str, Bool-cases, arith,
}
use collapsarr.Common.Result.{
  Exception, Result, ok, raise, value_error, stop_iteration, lookup_error, ffprobe_error,
  file_not_found, timeout_expired, json_decode_error, overflow_error, http_error, out_of_fuel,
  type_error, other_error,
}
use collapsarr.Downmix.Stream.{AudioStreamInfo}
use collapsarr.Downmix.DefaultAudio.{
  DefaultAudioPreference, StreamRef, refs_from, refs, resolve_default_audio_stream, other_default,
}
use collapsarr.Downmix.DefaultAudio.Winner.{resolve-IsWinner}
use collapsarr.Downmix.DefaultAudio.Position.{IsWinner-In}
use collapsarr.Downmix.DefaultPipeline.{
  Decision, too_few_streams, already_matches, move_flag, decision_of, decide_for, decide,
}
use collapsarr.Downmix.DefaultPipeline.Agrees.{decide_for-id}
use collapsarr.Jobs.Job.{Job, set_default_audio, new_job, is_pending}
use collapsarr.Jobs.Queue.{put_job, enqueue_job, enqueue_default_audio}
use collapsarr.Jobs.Run.{as_default_audio_preference}
use collapsarr.Jobs.Scheduler.Store.{Store, World}
use collapsarr.Jobs.Scheduler.Enqueue.{is_duplicate, recorded}
use collapsarr.Jobs.Scheduler.DefaultAudio.{
  no_preference, already_correct, unprobeable, duplicate, SetDefaultAudioOutcome, enqueued, skipped,
  any_other_default, default_audio_already_correct, nothing_to_move, default_audio_locked,
  default_audio_probed, default_audio_for, trigger_set_default_audio,
}

-- The test by identity is the test by position.
any_other_default-position :
    (n : ℕ) (xs : List AudioStreamInfo) (w : StreamRef)
    → any_other_default (refs_from n xs) w ≡ other_default n (refs_from n xs) w.id
unfolding any_other_default other_default refs_from
any_other_default-position n [] w = refl
any_other_default-position n (x ∷ xs) w = rw (any_other_default-position (suc n) xs w) refl

-- Whether the pipeline has nothing to do.
unfoldable pub is_idle : Result Decision → Bool
is_idle (ok too_few_streams) = true
is_idle (ok already_matches) = true
is_idle (ok (move_flag i)) = false
is_idle (raise e) = false

decision_of-is_idle : (i : ℕ) (b : Bool) → is_idle (decision_of i (ok b)) ≡ b
unfolding decision_of is_idle
decision_of-is_idle i true = refl
decision_of-is_idle i false = refl

nothing_to_move-found :
    (streams : List AudioStreamInfo) (p : DefaultAudioPreference) (found : Option StreamRef)
    → resolve_default_audio_stream (refs streams) p ≡ found
    → nothing_to_move (refs streams) found ≡ is_idle (decide_for (refs streams) found)
unfolding nothing_to_move default_audio_already_correct decide_for is_idle refs
nothing_to_move-found streams p none e = refl
nothing_to_move-found streams p (some w) e =
    let i = IsWinner-In (refs streams) p w (resolve-IsWinner (refs streams) p w e) in
    rw (any_other_default-position 0 streams w)
      (sym (ap is_idle (decide_for-id streams w i) ∙ decision_of-is_idle w.id _))

-- The scheduler finds nothing to move exactly where the pipeline decides to do nothing.
nothing_to_move-decide :
    (streams : List AudioStreamInfo) (p : DefaultAudioPreference)
    → nothing_to_move (refs streams) (resolve_default_audio_stream (refs streams) p)
      ≡ is_idle (decide streams p)
unfolding decide
nothing_to_move-decide streams p = nothing_to_move-found streams p _ refl

decision_of-move :
    (i : ℕ) (b : Bool) (d : Result Decision)
    → d ≡ decision_of i (ok b)
    → is_idle d ≡ false
    → d ≡ ok (move_flag i)
unfolding decision_of is_idle
decision_of-move i true d e h = ground arith
decision_of-move i false d e h = e

-- The pipeline's decision to move the flag.
abbrev pub Moves : List AudioStreamInfo → DefaultAudioPreference → Type 0
Moves streams p = (i : ℕ) × (decide streams p ≡ ok (move_flag i))

Moves-found :
    (streams : List AudioStreamInfo) (p : DefaultAudioPreference) (found : Option StreamRef)
    → resolve_default_audio_stream (refs streams) p ≡ found
    → is_idle (decide_for (refs streams) found) ≡ false
    → (i : ℕ) × (decide_for (refs streams) found ≡ ok (move_flag i))
unfolding decide_for is_idle
Moves-found streams p none e h = absurd (ground arith)
Moves-found streams p (some w) e h =
    let i = IsWinner-In (refs streams) p w (resolve-IsWinner (refs streams) p w e) in
    (
      w.id,
      decision_of-move w.id _ (decide_for (refs streams) (some w)) (decide_for-id streams w i) h,
    )

Moves-of_not_idle :
    (streams : List AudioStreamInfo) (p : DefaultAudioPreference)
    → is_idle (decide streams p) ≡ false
    → Moves streams p
unfolding decide
Moves-of_not_idle streams p h = Moves-found streams p _ refl h

-- The job that is made for a file.
pub record IsFlagJob (path : Str) (p : DefaultAudioPreference) (s t : Store) (job : Job)
    : Type 0 where
  pub kind : job.kind ≡ set_default_audio
  pub preference : job.preference ≡ some p
  pub file_path : job.file_path ≡ path
  pub pending : is_pending job ≡ true
  pub jobs : t.queue.jobs ≡ put_job job s.queue.jobs

-- How `trigger_set_default_audio` ends for `path`.
pub data DefaultAudioEnd (world : World) (path : Str) (bypass : Bool) (s : Store)
    : Store × Result SetDefaultAudioOutcome → Type 0 where
  unset :
      as_default_audio_preference s.settings ≡ none
      → DefaultAudioEnd world path bypass s (s, ok (skipped no_preference))
  busy :
      is_duplicate world path bypass s ≡ true
      → DefaultAudioEnd world path bypass s (s, ok (skipped duplicate))
  unprobed :
      world.probe path ≡ raise ffprobe_error
      → DefaultAudioEnd world path bypass s (s, ok (skipped unprobeable))
  broken :
      (e : Exception)
      → world.probe path ≡ raise e
      → DefaultAudioEnd world path bypass s (s, raise e)
  correct :
      (p : DefaultAudioPreference) (streams : List AudioStreamInfo)
      → as_default_audio_preference s.settings ≡ some p
      → world.probe path ≡ ok streams
      → is_idle (decide streams p) ≡ true
      → DefaultAudioEnd world path bypass s (s, ok (skipped already_correct))
  queued :
      (p : DefaultAudioPreference) (streams : List AudioStreamInfo) (t : Store) (job : Job)
      → as_default_audio_preference s.settings ≡ some p
      → is_duplicate world path bypass s ≡ false
      → world.probe path ≡ ok streams
      → Moves streams p
      → IsFlagJob path p s t job
      → DefaultAudioEnd world path bypass s (t, ok (enqueued job))

module _ (world : World) (path : Str) (bypass : Bool) (s : Store) where
  locked-End :
      (p : DefaultAudioPreference) (streams : List AudioStreamInfo)
      → as_default_audio_preference s.settings ≡ some p
      → is_duplicate world path bypass s ≡ false
      → world.probe path ≡ ok streams
      → Moves streams p
      → DefaultAudioEnd world path bypass s (default_audio_locked world path p bypass s)
  unfolding default_audio_locked recorded enqueue_default_audio enqueue_job new_job is_pending
  locked-End p streams e d found m = rw d (
      queued p streams _ _ e d found m
        (record { kind = refl; preference = refl; file_path = refl; pending = refl; jobs = refl }))

  probed-End :
      (p : DefaultAudioPreference) (answer : Result (List AudioStreamInfo))
      → as_default_audio_preference s.settings ≡ some p
      → is_duplicate world path bypass s ≡ false
      → world.probe path ≡ answer
      → DefaultAudioEnd world path bypass s (default_audio_probed world path p bypass answer s)
  unfolding default_audio_probed
  probed-End p (ok streams) e d found = elim (Bool-cases (is_idle (decide streams p))) [
    | inl idle ↦ rw (nothing_to_move-decide streams p ∙ idle) (correct p streams e found idle)
    | inr some_move ↦
        rw (nothing_to_move-decide streams p ∙ some_move)
          (locked-End p streams e d found (Moves-of_not_idle streams p some_move))
  ]
  probed-End p (raise ffprobe_error) e d found = unprobed found
  probed-End p (raise value_error) e d found = broken value_error found
  probed-End p (raise stop_iteration) e d found = broken stop_iteration found
  probed-End p (raise lookup_error) e d found = broken lookup_error found
  probed-End p (raise file_not_found) e d found = broken file_not_found found
  probed-End p (raise timeout_expired) e d found = broken timeout_expired found
  probed-End p (raise json_decode_error) e d found = broken json_decode_error found
  probed-End p (raise overflow_error) e d found = broken overflow_error found
  probed-End p (raise http_error) e d found = broken http_error found
  probed-End p (raise out_of_fuel) e d found = broken out_of_fuel found
  probed-End p (raise type_error) e d found = broken type_error found
  probed-End p (raise other_error) e d found = broken other_error found

  for-End :
      (preference : Option DefaultAudioPreference)
      → as_default_audio_preference s.settings ≡ preference
      → DefaultAudioEnd world path bypass s (default_audio_for world path bypass preference s)
  unfolding default_audio_for
  for-End none e = unset e
  for-End (some p) e = elim (Bool-cases (is_duplicate world path bypass s)) [
    | inl d ↦ rw d (busy d)
    | inr d ↦ rw d (probed-End p (world.probe path) e d refl)
  ]

-- `trigger_set_default_audio` enqueues a job for a file only where a preference is set, the file is no
-- duplicate, the probe answers, and the pipeline that the job will run would move the flag of the
-- probed streams; the job carries the preference. Where it skips the file as already correct, that
-- pipeline has nothing to do; and each other reason to skip it is the true one. Only a new job changes
-- the store.
pub trigger-DefaultAudioEnd :
    (world : World) (file_path : Str) (bypass : Bool) (s : Store)
    → DefaultAudioEnd world
        (world.as_path file_path)
        bypass
        s
        (trigger_set_default_audio world file_path bypass s)
unfolding trigger_set_default_audio
trigger-DefaultAudioEnd world file_path bypass s =
    for-End world (world.as_path file_path) bypass s _ refl
