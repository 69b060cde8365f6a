-- ===== src/Jobs/Scheduler/Steer/Requeue.antt =====
-- "Requeue all failed" accounts for every failed file once.
use collapsarr.Common.{
  ◌≡◌, subst, ◌↔◌, ◌⊎◌, inl, inr, true, false, Option, none, some, List, [], ◌∷◌, ◌++◌, map, Str,
  str_eq_iff, In, In-append_left, In-append_right, In-append_cases, Distinct, Distinct-append_one,
  Bool-cases, arith,
}
use collapsarr.Common.Result.{Result, ok, raise}
use collapsarr.Downmix.Targets.{has_language}
use collapsarr.Jobs.Job.{failed, downmix, Job}
use collapsarr.Jobs.History.{JobHistory, list_job_history}
use collapsarr.Jobs.Scheduler.Store.{Store, World, after_action}
use collapsarr.Jobs.Scheduler.Enqueue.{
  enqueue_file, trigger_file, settings_with_extra_languages, EnqueueRequest, no_source,
}
use collapsarr.Jobs.Scheduler.Enqueue.Effect.{
  EnqueueEnd, declined, raised, added, enqueue_file-EnqueueEnd,
}
use collapsarr.Jobs.Scheduler.Steer.{
  BulkRequeueResult, note_requeue, requeue_rows, requeue_all_failed,
}

-- The request of `trigger_file` within the window.
abbrev pub batch_request : World → Str → EnqueueRequest
batch_request world path = record {
  file_path = path;
  settings = some (settings_with_extra_languages world.downmix_settings []);
  ids = no_source;
  respect_tracked = false;
  bypass_dedup_window = false;
}

-- From the first store to the last, every path was triggered in turn. A job that this put on the queue
-- is on the one list, and a path that it put no job on the queue for is on the other.
pub data Split (world : World) (s : Store) : List Str → List Job → List Str → Store → Type 0 where
  nothing : Split world s [] [] [] s
  requeued :
      {paths skips : List Str} {jobs : List Job} {t : Store} (path : Str) (job : Job) (u : Store)
      → Split world s paths jobs skips t
      → EnqueueEnd world (batch_request world path) t (u, ok (some job))
      → Split world s (paths ++ path ∷ []) (jobs ++ job ∷ []) skips u
  skipped :
      {paths skips : List Str} {jobs : List Job} {t : Store} (path : Str) (u : Store)
      → Split world s paths jobs skips t
      → EnqueueEnd world (batch_request world path) t (u, ok none)
      → Split world s (paths ++ path ∷ []) jobs (skips ++ path ∷ []) u

abbrev row_paths : List JobHistory → List Str
row_paths rows = map (λ row. row.file_path) rows

-- The loop has met the paths `met`, which are those of `seen`.
record IsMet (world : World) (s t : Store) (seen met : List Str) (r : BulkRequeueResult)
    : Type 0 where
  split : Split world s met r.requeued r.skipped t
  once : Distinct met
  same : (p : Str) → In p seen ↔ In p met

has_language_iff : (ls : List Str) (l : Str) → (has_language ls l ≡ true) ↔ In l ls
unfolding has_language
has_language_iff [] l = ground arith
has_language_iff (k ∷ ks) l = ground (arith, str_eq_iff k l, has_language_iff ks l)

-- The account of the whole loop, from those met to those of all the rows.
pub record IsAccounted (world : World) (s t : Store) (before after : List Str)
    (r : BulkRequeueResult) : Type 0 where
  pub met : List Str
  pub split : Split world s met r.requeued r.skipped t
  pub once : Distinct met
  pub exactly : (p : Str) → In p met ↔ (In p before ⊎ In p after)

abbrev Accounts : World → Store → List Str → List Str → Store × Result BulkRequeueResult → Type 0
Accounts world s before after (t, ok r) = IsAccounted world s t before after r
Accounts world s before after (t, raise e) = Unit

met_one :
    (world : World) (s t : Store) (seen met : List Str) (r : BulkRequeueResult) (path : Str)
    → IsMet world s t seen met r
    → has_language seen path ≡ false
    → ¬ In path met
met_one world s t seen met r path m new i =
    let old = (has_language_iff seen path).1 ((m.same path).1 i) in absurd (ground arith)

In-snoc : (p path : Str) (met : List Str) → In p (met ++ path ∷ []) ↔ ((path ≡ p) ⊎ In p met)
In-snoc p path met = (
  λ i. elim (In-append_cases p met (path ∷ []) i) [
    | inl m ↦ inr m
    | inr (inl e) ↦ inl e
    | inr (inr m) ↦ absurd m
  ],
  λ i. elim i [
    | inl e ↦ In-append_right p met (path ∷ []) (inl e)
    | inr m ↦ In-append_left p met (path ∷ []) m
  ],
)

module _ (world : World) (s t : Store) (seen met : List Str) (r : BulkRequeueResult) (path : Str)
    (m : IsMet world s t seen met r) (new : has_language seen path ≡ false) where
  same_snoc : (p : Str) → In p (path ∷ seen) ↔ In p (met ++ path ∷ [])
  same_snoc p = (
    λ i. (In-snoc p path met).1 (elim i [ inl e ↦ inl e | inr j ↦ inr ((m.same p).0 j) ]),
    λ i. elim ((In-snoc p path met).0 i) [ inl e ↦ inl e | inr j ↦ inr ((m.same p).1 j) ],
  )

  once_snoc : Distinct (met ++ path ∷ [])
  once_snoc = Distinct-append_one path met (met_one world s t seen met r path m new) m.once

  requeued-IsMet :
      (u : Store) (job : Job)
      → EnqueueEnd world (batch_request world path) t (u, ok (some job))
      → IsMet world s u (path ∷ seen) (met ++ path ∷ []) (note_requeue path r (some job))
  unfolding note_requeue
  requeued-IsMet u job e = record {
    split = requeued path job u m.split e;
    once = once_snoc;
    same = same_snoc;
  }

  skipped-IsMet :
      (u : Store)
      → EnqueueEnd world (batch_request world path) t (u, ok none)
      → IsMet world s u (path ∷ seen) (met ++ path ∷ []) (note_requeue path r none)
  unfolding note_requeue
  skipped-IsMet u e = record {
    split = skipped path u m.split e;
    once = once_snoc;
    same = same_snoc;
  }

-- One row is triggered, and the rest of the loop follows.
trigger-Accounts :
    (world : World) (request : EnqueueRequest) (before after : List Str) (s t : Store)
    (rest : Option Job → Store → Store × Result BulkRequeueResult)
    (answer : Store × Result (Option Job))
    → EnqueueEnd world request t answer
    → ((u : Store)
        → EnqueueEnd world request t (u, ok none)
        → Accounts world s before after (rest none u))
    → ((u : Store) (job : Job)
        → EnqueueEnd world request t (u, ok (some job))
        → Accounts world s before after (rest (some job) u))
    → Accounts world s before after (after_action rest answer)
unfolding after_action
trigger-Accounts world request b a s t rest answer (declined u kept n) h k = h u (declined u kept n)
trigger-Accounts world request b a s t rest answer (raised u e kept) h k = tt
trigger-Accounts world request b a s t rest answer (added u job put wanted) h k =
    k u job (added u job put wanted)

-- The same account over other lists with the same paths.
same_paths :
    (world : World) (s : Store) (before after before' after' : List Str)
    (answer : Store × Result BulkRequeueResult)
    → ((p : Str) → (In p before ⊎ In p after) ↔ (In p before' ⊎ In p after'))
    → Accounts world s before after answer
    → Accounts world s before' after' answer
same_paths world s before after before' after' (t, ok r) h a = record {
  met = a.met;
  split = a.split;
  once = a.once;
  exactly = λ p. (λ i. (h p).0 ((a.exactly p).0 i), λ i. (a.exactly p).1 ((h p).1 i));
}
same_paths world s before after before' after' (t, raise e) h a = tt

known_path :
    (seen after : List Str) (path p : Str)
    → In path seen
    → (In p seen ⊎ In p after) ↔ (In p seen ⊎ In p (path ∷ after))
known_path seen after path p m = (
  λ i. elim i [ inl j ↦ inl j | inr j ↦ inr (inr j) ],
  λ i. elim i [
    | inl j ↦ inl j
    | inr (inl e) ↦ inl (subst (λ q. In q seen) e m)
    | inr (inr j) ↦ inr j
  ],
)

moved_path :
    (seen after : List Str) (path p : Str)
    → (In p (path ∷ seen) ⊎ In p after) ↔ (In p seen ⊎ In p (path ∷ after))
moved_path seen after path p = (
  λ i. elim i [ inl (inl e) ↦ inr (inl e) | inl (inr j) ↦ inl j | inr j ↦ inr (inr j) ],
  λ i. elim i [ inl j ↦ inl (inr j) | inr (inl e) ↦ inl (inl e) | inr (inr j) ↦ inr j ],
)

requeue_rows-Accounts :
    (world : World) (rows : List JobHistory) (seen met : List Str) (r : BulkRequeueResult)
    (s t : Store)
    → IsMet world s t seen met r
    → Accounts world s seen (row_paths rows) (requeue_rows world seen rows r t)
unfolding requeue_rows trigger_file
requeue_rows-Accounts world [] seen met r s t m = record {
  met = met;
  split = m.split;
  once = m.once;
  exactly =
      λ p. (λ i. inl ((m.same p).1 i), λ i. elim i [ inl j ↦ (m.same p).0 j | inr j ↦ absurd j ]);
}
requeue_rows-Accounts world (row ∷ rows) seen met r s t m =
    let path = row.file_path in
    elim (Bool-cases (has_language seen path)) [
      | inl old ↦ rw old (
          same_paths world s seen (row_paths rows) seen (path ∷ row_paths rows)
            (requeue_rows world seen rows r t)
            (λ p. known_path seen (row_paths rows) path p ((has_language_iff seen path).0 old))
            (requeue_rows-Accounts world rows seen met r s t m))
      | inr new ↦ rw new (
          same_paths world s (path ∷ seen) (row_paths rows) seen (path ∷ row_paths rows)
            (after_action (λ job. requeue_rows world (path ∷ seen) rows (note_requeue path r job))
              (enqueue_file world (batch_request world path) t))
            (λ p. moved_path seen (row_paths rows) path p)
            (trigger-Accounts world (batch_request world path) (path ∷ seen) (row_paths rows) s t
              (λ job. requeue_rows world (path ∷ seen) rows (note_requeue path r job))
              (enqueue_file world (batch_request world path) t)
              (enqueue_file-EnqueueEnd world (batch_request world path) t)
              (λ u e.
                requeue_rows-Accounts world rows (path ∷ seen) (met ++ path ∷ [])
                  (note_requeue path r none) s u
                  (skipped-IsMet world s t seen met r path m new u e))
              (λ u job e.
                requeue_rows-Accounts world rows (path ∷ seen) (met ++ path ∷ [])
                  (note_requeue path r (some job)) s u
                  (requeued-IsMet world s t seen met r path m new u job e))))
    ]

-- `requeue_all_failed`, where it returns, triggers each path that has a failed downmix row in the
-- history exactly once, however many such rows it has, and no other path. A job that a trigger put on
-- the queue, pending and recorded, is among the requeued ones; a path that is not wanted, for which
-- the queue and the history stay as they were, is among the skipped ones; and the store it leaves is
-- that behind the last trigger.
pub requeue_all_failed-IsAccounted :
    (world : World) (s t : Store) (r : BulkRequeueResult)
    → requeue_all_failed world s ≡ (t, ok r)
    → IsAccounted world s t []
        (map (λ row. row.file_path) (list_job_history none (some failed) (some downmix) s.history))
        r
unfolding requeue_all_failed
requeue_all_failed-IsAccounted world s t r e =
    subst
      (Accounts world s []
        (row_paths (list_job_history none (some failed) (some downmix) s.history)))
      e
      (requeue_rows-Accounts world (list_job_history none (some failed) (some downmix) s.history) []
        [] (record { requeued = []; skipped = [] }) s s
        (record { split = nothing; once = tt; same = λ p. (λ i. i, λ i. i) }))
