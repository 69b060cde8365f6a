-- ===== src/Jobs/Scheduler/TopUp/Bound.antt =====
-- The Auto-Queue Limit holds behind every top-up.
use collapsarr.Common.{
  ℕ, suc, ◌≤◌, ◌<◌, ◌≡◌, refl, sym, subst, ◌⊎◌, inl, inr, true, false, Option, none, some, List, [],
  ◌∷◌, leb, Bool-cases, arith,
}
use collapsarr.Common.Result.{
  Exception, Result, ok, raise, value_error, stop_iteration, lookup_error, ffprobe_error,
  file_not_found, timeout_expired, json_decode_error, overflow_error, http_error, out_of_fuel,
  type_error, other_error,
}
use collapsarr.Arr.Paths.{ArrInstance, RemotePathMapping, MonitoredFile, list_path_mappings}
use collapsarr.Jobs.Job.{Job, is_pending}
use collapsarr.Jobs.Pool.{count_jobs}
use collapsarr.Jobs.Scheduler.Active.{count_pending, count_jobs-put_le}
use collapsarr.Jobs.Scheduler.Store.{Store, World, after_action}
use collapsarr.Jobs.Scheduler.Enqueue.{EnqueueRequest, enqueue_file}
use collapsarr.Jobs.Scheduler.Enqueue.Effect.{
  EnqueueEnd, declined, raised, added, enqueue_file-EnqueueEnd,
}
use collapsarr.Jobs.Scheduler.TopUp.{
  auto_queue_limit, Progress, after_file, monitored_request, fill_files, fill_instance,
  fill_instances, top_up,
}

-- The counter of the loops is not behind the queue, and within the limit.
abbrev Within : Store → Progress → Type 0
Within s p = (count_pending s.queue.jobs ≤ p.pending) × (p.pending ≤ auto_queue_limit)

abbrev Ends : Store × Result Progress → Type 0
Ends (s, ok p) = Within s p
Ends (s, raise e) = count_pending s.queue.jobs ≤ auto_queue_limit

-- One file, and the rest of a loop behind it.
file-Ends :
    (world : World) (request : EnqueueRequest) (s : Store) (p : Progress)
    (rest : Option Job → Store → Store × Result Progress) (answer : Store × Result (Option Job))
    → EnqueueEnd world request s answer
    → Within s p
    → leb auto_queue_limit p.pending ≡ false
    → ((job : Option Job) (t : Store) → Within t (after_file p job) → Ends (rest job t))
    → Ends (after_action rest answer)
unfolding after_action after_file count_pending
file-Ends world request s p rest answer (declined t kept n) w room h =
    h none t (subst (λ q. count_jobs is_pending q.jobs ≤ p.pending) (sym kept.queue) w.0, w.1)
file-Ends world request s p rest answer (raised t e kept) w room h =
    subst (λ q. count_jobs is_pending q.jobs ≤ auto_queue_limit) (sym kept.queue) (omega (arith, w))
file-Ends world request s p rest answer (added t job put wanted) w room h = h (some job) t (
  subst (λ js. count_jobs is_pending js ≤ suc p.pending) (sym put.jobs)
      (omega (arith, w.0, count_jobs-put_le is_pending job s.queue.jobs)),
  below p.pending room,
)
  where
    below : (n : ℕ) → leb auto_queue_limit n ≡ false → suc n ≤ auto_queue_limit
    below n e = ground arith

module _ (world : World) where
  fill_files-Ends :
      (mappings : List RemotePathMapping) (files : List MonitoredFile) (p : Progress) (s : Store)
      → Within s p
      → Ends (fill_files world mappings files p s)
  unfolding fill_files
  fill_files-Ends mappings [] p s w = w
  fill_files-Ends mappings (monitored ∷ files) p s w =
      elim (Bool-cases (leb auto_queue_limit p.pending)) [
        | inl full ↦ rw full w
        | inr room ↦ rw room (
            file-Ends world (monitored_request mappings monitored) s p
              (λ job. fill_files world mappings files (after_file p job))
              (enqueue_file world (monitored_request mappings monitored) s)
              (enqueue_file-EnqueueEnd world (monitored_request mappings monitored) s) w room
              (λ job t. fill_files-Ends mappings files (after_file p job) t))
      ]

  raise-Ends : (s : Store) (p : Progress) (e : Exception) → Within s p → Ends (s, raise e)
  raise-Ends s p e w = omega (arith, w)

  fill_instance-Ends :
      (instance_row : ArrInstance) (answer : Result (List MonitoredFile)) (p : Progress) (s : Store)
      → Within s p
      → Ends (fill_instance world instance_row answer p s)
  unfolding fill_instance
  fill_instance-Ends i (ok files) p s w =
      fill_files-Ends (list_path_mappings s.mappings i.id) files p s w
  fill_instance-Ends i (raise http_error) p s w = w
  fill_instance-Ends i (raise value_error) p s w = raise-Ends s p value_error w
  fill_instance-Ends i (raise stop_iteration) p s w = raise-Ends s p stop_iteration w
  fill_instance-Ends i (raise lookup_error) p s w = raise-Ends s p lookup_error w
  fill_instance-Ends i (raise ffprobe_error) p s w = raise-Ends s p ffprobe_error w
  fill_instance-Ends i (raise file_not_found) p s w = raise-Ends s p file_not_found w
  fill_instance-Ends i (raise timeout_expired) p s w = raise-Ends s p timeout_expired w
  fill_instance-Ends i (raise json_decode_error) p s w = raise-Ends s p json_decode_error w
  fill_instance-Ends i (raise overflow_error) p s w = raise-Ends s p overflow_error w
  fill_instance-Ends i (raise out_of_fuel) p s w = raise-Ends s p out_of_fuel w
  fill_instance-Ends i (raise type_error) p s w = raise-Ends s p type_error w
  fill_instance-Ends i (raise other_error) p s w = raise-Ends s p other_error w

  then-Ends :
      (rest : Progress → Store → Store × Result Progress) (answer : Store × Result Progress)
      → Ends answer
      → ((q : Progress) (t : Store) → Within t q → Ends (rest q t))
      → Ends (after_action rest answer)
  unfolding after_action
  then-Ends rest (t, ok q) w h = h q t w
  then-Ends rest (t, raise e) w h = w

  fill_instances-Ends :
      (instances : List ArrInstance) (p : Progress) (s : Store)
      → Within s p
      → Ends (fill_instances world instances p s)
  unfolding fill_instances
  fill_instances-Ends [] p s w = w
  fill_instances-Ends (i ∷ instances) p s w = elim (Bool-cases (leb auto_queue_limit p.pending)) [
    | inl full ↦ rw full w
    | inr room ↦ rw room (
        then-Ends (λ q. fill_instances world instances q) _
          (fill_instance-Ends i (world.fetch_monitored_files i) p s w)
          (λ q t. fill_instances-Ends instances q t))
  ]

  limited :
      (answer : Store × Result Progress)
      → Ends answer
      → count_pending (after_action {B = List Job} (λ p t. (t, ok p.enqueued)) answer).0.queue.jobs
        ≤ auto_queue_limit
  unfolding after_action
  limited (t, ok p) w = omega (arith, w)
  limited (t, raise e) w = w

  abbrev start_of : Store → Progress
  start_of s = record { pending = count_pending s.queue.jobs; enqueued = [] }

  top_up-fills :
      (s : Store)
      → s.settings.auto_queue_paused ≡ false
      → leb auto_queue_limit (count_pending s.queue.jobs) ≡ false
      → top_up world s
        ≡ after_action {B = List Job}
            (λ p t. (t, ok p.enqueued))
            (fill_instances world s.instances (start_of s) s)
  unfolding top_up
  top_up-fills s free room = simp (free, room) refl

  -- A top-up that is paused, or that finds as many pending jobs as the limit allows, or more, changes
  -- nothing; any other leaves at most as many pending jobs as the limit, however many files the
  -- instances report, and also where a fetch or a probe raises in the middle.
  pub top_up-limit :
      (s : Store)
      → (((s.settings.auto_queue_paused ≡ true) ⊎ (auto_queue_limit ≤ count_pending s.queue.jobs))
          × (top_up world s ≡ (s, ok [])))
        ⊎ ((count_pending s.queue.jobs < auto_queue_limit)
            × (count_pending (top_up world s).0.queue.jobs ≤ auto_queue_limit))
  unfolding top_up
  top_up-limit s = elim (Bool-cases s.settings.auto_queue_paused) [
    | inl paused ↦ inl (inl paused, rw paused refl)
    | inr free ↦ elim (Bool-cases (leb auto_queue_limit (count_pending s.queue.jobs))) [
      | inl full ↦ inl (inr (le_of_leb (count_pending s.queue.jobs) full), rw free (rw full refl))
      | inr room ↦ inr (
        lt_of_leb (count_pending s.queue.jobs) room,
        subst (λ r. count_pending r.0.queue.jobs ≤ auto_queue_limit)
            (sym (top_up-fills s free room))
            (limited (fill_instances world s.instances (start_of s) s) (
              fill_instances-Ends s.instances (start_of s) s
                (omega arith, omega (arith, lt_of_leb (count_pending s.queue.jobs) room)))),
      )
    ]
  ]
    where
      le_of_leb : (n : ℕ) → leb auto_queue_limit n ≡ true → auto_queue_limit ≤ n
      le_of_leb n e = ground arith

      lt_of_leb : (n : ℕ) → leb auto_queue_limit n ≡ false → n < auto_queue_limit
      lt_of_leb n e = ground arith
