-- ===== src/Jobs/Scheduler/Enqueue/Effect.antt =====
-- What `enqueue_file` does to the queue and to the history.
use mathlib.Core.Bool.{true≢false}
use collapsarr.Common.{
  ◌≡◌, refl, sym, ◌∙◌, ap, subst, ◌⊎◌, ◌≢◌, inl, inr, Bool, true, false, Option, none, some, List,
  [], ◌∷◌, Str, In, Bool-cases, arith,
}
use collapsarr.Common.Result.{
  Exception, Result, ok, raise, value_error, stop_iteration, lookup_error, ffprobe_error,
  file_not_found, timeout_expired, json_decode_error, overflow_error, http_error, out_of_fuel,
  type_error, other_error,
}
use collapsarr.Downmix.Stream.{AudioStreamInfo}
use collapsarr.Downmix.Targets.{DownmixSettings, QualifyingTarget, detect_qualifying_targets}
use collapsarr.Jobs.Job.{Job, new_job, is_pending}
use collapsarr.Jobs.Queue.{put_job, enqueue_job, enqueue}
use collapsarr.Jobs.History.{record_job_history}
use collapsarr.Jobs.Scheduler.Active.{is_active}
use collapsarr.Jobs.Scheduler.Store.{Store, World}
use collapsarr.Jobs.Scheduler.Enqueue.{
  is_recently_processed, is_duplicate, EnqueueRequest, tracked_gate, resolve_tracked_for,
  resolve_tracked_in, tracked_of_node, recorded, enqueue_locked, enqueue_targets, enqueue_gated,
  track_media, enqueue_probed, effective_settings, enqueue_file,
}

-- Nothing is on the queue that was not, and no row of the history has changed.
pub record IsKept (s t : Store) : Type 0 where
  pub queue : t.queue ≡ s.queue
  pub history : t.history ≡ s.history
  pub settings : t.settings ≡ s.settings

-- A job was put on the queue, and recorded.
pub record IsAdded (world : World) (path : Str) (s t : Store) (job : Job) : Type 0 where
  pub pending : is_pending job ≡ true
  pub file_path : job.file_path ≡ path
  pub jobs : t.queue.jobs ≡ put_job job s.queue.jobs
  pub is_shutdown : t.queue.is_shutdown ≡ s.queue.is_shutdown
  pub history : t.history ≡ record_job_history world.text job s.history
  pub settings : t.settings ≡ s.settings

-- The reasons for which `enqueue_file` adds a job.
pub record IsWanted (world : World) (request : EnqueueRequest) (s : Store) : Type 0 where
  pub idle : is_active (world.as_path request.file_path) s.queue.jobs ≡ false
  pub cooled :
      (request.bypass_dedup_window ≡ true)
      ⊎ (is_recently_processed world (world.as_path request.file_path) s ≡ false)
  pub streams : List AudioStreamInfo
  pub probed : world.probe (world.as_path request.file_path) ≡ ok streams
  pub gate : tracked_gate request s ≡ ok true
  pub target : QualifyingTarget
  pub missing :
      In target (detect_qualifying_targets streams (effective_settings world request.settings))

pub data EnqueueEnd (world : World) (request : EnqueueRequest) (s : Store)
    : Store × Result (Option Job) → Type 0 where
  declined :
      (t : Store)
      → IsKept s t
      → ¬ IsWanted world request s
      → EnqueueEnd world request s (t, ok none)
  raised : (t : Store) (e : Exception) → IsKept s t → EnqueueEnd world request s (t, raise e)
  added :
      (t : Store) (job : Job)
      → IsAdded world (world.as_path request.file_path) s t job
      → IsWanted world request s
      → EnqueueEnd world request s (t, ok (some job))

ok≢raise : {A : Type 0} {a : A} {e : Exception} → ok a ≢ raise e
ok≢raise h = ground arith

module _ (world : World) (path : Str) (settings : DownmixSettings) (bypass : Bool) (s : Store) where
  -- The store behind the enqueue, and the job.
  abbrev after : Store × Job
  after = recorded world (enqueue (world.uuid s.ids) path settings s.queue) s

  after-IsAdded : IsAdded world path s after.0 after.1
  unfolding recorded enqueue enqueue_job new_job is_pending
  after-IsAdded = record {
    pending = refl;
    file_path = refl;
    jobs = refl;
    is_shutdown = refl;
    history = refl;
    settings = refl;
  }

  locked_adds :
      is_duplicate world path bypass s ≡ false
      → enqueue_locked world path settings bypass s ≡ (after.0, ok (some after.1))
  unfolding enqueue_locked
  locked_adds d = rw d refl

ok_injective : {A : Type 0} {a b : A} → ok a ≡ ok b → a ≡ b
ok_injective e = cc

not_duplicate :
    (world : World) (path : Str) (bypass : Bool) (s : Store)
    → is_duplicate world path bypass s ≡ false
    → (is_active path s.queue.jobs ≡ false)
      × ((bypass ≡ true) ⊎ (is_recently_processed world path s ≡ false))
unfolding is_duplicate
not_duplicate world path bypass s d = elim (Bool-cases bypass) [
  | inl b ↦ (ground arith, inl b)
  | inr b ↦ (ground arith, inr (ground arith))
]

duplicate_why :
    (world : World) (path : Str) (bypass : Bool) (s : Store)
    → is_duplicate world path bypass s ≡ true
    → is_active path s.queue.jobs ≡ false
    → ¬ ((bypass ≡ true) ⊎ (is_recently_processed world path s ≡ false))
unfolding is_duplicate
duplicate_why world path bypass s d idle (inl b) = ground arith
duplicate_why world path bypass s d idle (inr b) = ground arith

module _ (world : World) (request : EnqueueRequest) (s : Store) where
  abbrev its_path : Str
  its_path = world.as_path request.file_path

  abbrev its_settings : DownmixSettings
  its_settings = effective_settings world request.settings

  tracked-IsKept :
      (streams : List AudioStreamInfo)
      → IsKept s (track_media its_path streams its_settings request.ids s)
  unfolding track_media
  tracked-IsKept streams = record { queue = refl; history = refl; settings = refl }

  targets-End :
      (streams : List AudioStreamInfo) (qs : List QualifyingTarget)
      → is_duplicate world its_path request.bypass_dedup_window s ≡ false
      → world.probe its_path ≡ ok streams
      → tracked_gate request s ≡ ok true
      → detect_qualifying_targets streams its_settings ≡ qs
      → EnqueueEnd world request s (
          enqueue_targets world its_path its_settings request.bypass_dedup_window qs
            (track_media its_path streams its_settings request.ids s))
  unfolding enqueue_targets track_media is_duplicate is_recently_processed
  targets-End streams [] d p g e =
      declined _ (tracked-IsKept streams) (λ w. subst (In w.target) (same w ∙ e) w.missing)
    where
      same :
          (w : IsWanted world request s)
          → detect_qualifying_targets w.streams its_settings
            ≡ detect_qualifying_targets streams its_settings
      same w =
          ap (λ xs. detect_qualifying_targets xs its_settings) (ok_injective (sym w.probed ∙ p))
  targets-End streams (q ∷ qs) d p g e =
      let tracked = track_media its_path streams its_settings request.ids s in
      let (idle, cooled) = not_duplicate world its_path request.bypass_dedup_window s d in
      let put = after-IsAdded world its_path its_settings request.bypass_dedup_window tracked in
      subst (EnqueueEnd world request s)
        (sym (locked_adds world its_path its_settings request.bypass_dedup_window tracked d))
        (added _ _
          (record {
            pending = put.pending;
            file_path = put.file_path;
            jobs = put.jobs;
            is_shutdown = put.is_shutdown;
            history = put.history;
            settings = put.settings;
          })
          (record {
            idle = idle;
            cooled = cooled;
            streams = streams;
            probed = p;
            gate = g;
            target = q;
            missing = subst (In q) (sym e) (inl refl);
          }))

  gate-tracked :
      (streams : List AudioStreamInfo)
      → tracked_gate request (track_media its_path streams its_settings request.ids s)
        ≡ tracked_gate request s
  unfolding tracked_gate track_media resolve_tracked_for resolve_tracked_in tracked_of_node
  gate-tracked streams = refl

  gated-End :
      (streams : List AudioStreamInfo) (gate : Result Bool)
      → is_duplicate world its_path request.bypass_dedup_window s ≡ false
      → world.probe its_path ≡ ok streams
      → tracked_gate request s ≡ gate
      → EnqueueEnd world request s (
          enqueue_gated world request its_settings streams gate
            (track_media its_path streams its_settings request.ids s))
  unfolding enqueue_gated
  gated-End streams (raise e) d p g = raised _ e (tracked-IsKept streams)
  gated-End streams (ok false) d p g =
      declined _ (tracked-IsKept streams) (λ w. true≢false (ok_injective (sym w.gate ∙ g)))
  gated-End streams (ok true) d p g = targets-End streams _ d p g refl

  unprobed : (e : Exception) → world.probe its_path ≡ raise e → ¬ IsWanted world request s
  unprobed e p w = ok≢raise (sym w.probed ∙ p)

  here-IsKept : IsKept s s
  here-IsKept = record { queue = refl; history = refl; settings = refl }

  probed-End :
      (answer : Result (List AudioStreamInfo))
      → is_duplicate world its_path request.bypass_dedup_window s ≡ false
      → world.probe its_path ≡ answer
      → EnqueueEnd world request s (enqueue_probed world request its_settings answer s)
  unfolding enqueue_probed
  probed-End (ok streams) d p =
      rw (gate-tracked streams) (gated-End streams (tracked_gate request s) d p refl)
  probed-End (raise ffprobe_error) d p = declined s here-IsKept (unprobed ffprobe_error p)
  probed-End (raise value_error) d p = raised s value_error here-IsKept
  probed-End (raise stop_iteration) d p = raised s stop_iteration here-IsKept
  probed-End (raise lookup_error) d p = raised s lookup_error here-IsKept
  probed-End (raise file_not_found) d p = raised s file_not_found here-IsKept
  probed-End (raise timeout_expired) d p = raised s timeout_expired here-IsKept
  probed-End (raise json_decode_error) d p = raised s json_decode_error here-IsKept
  probed-End (raise overflow_error) d p = raised s overflow_error here-IsKept
  probed-End (raise http_error) d p = raised s http_error here-IsKept
  probed-End (raise out_of_fuel) d p = raised s out_of_fuel here-IsKept
  probed-End (raise type_error) d p = raised s type_error here-IsKept
  probed-End (raise other_error) d p = raised s other_error here-IsKept

  -- `enqueue_file` puts one job for the path of its request, pending and recorded in the history,
  -- on the queue exactly where it returns a job; and where it returns, it does so exactly if no job for the path is
  -- pending or running, the path was not processed within the window or the window is bypassed, the
  -- probe answers, the gate of the tracked files lets the file pass, and a target qualifies. Else the
  -- queue and the history stay as they are, also where the probe or the gate raises.
  pub enqueue_file-EnqueueEnd : EnqueueEnd world request s (enqueue_file world request s)
  unfolding enqueue_file
  enqueue_file-EnqueueEnd =
      elim (Bool-cases (is_duplicate world its_path request.bypass_dedup_window s)) [
        | inl d ↦ rw d (
            declined s here-IsKept
              (λ w. duplicate_why world its_path request.bypass_dedup_window s d w.idle w.cooled))
        | inr d ↦ rw d (probed-End (world.probe its_path) d refl)
      ]
