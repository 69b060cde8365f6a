-- ===== src/Jobs/Line/Represents.antt =====
-- When a line stands for the queue's dict, and what each write of the dict does to it.
use collapsarr.Common.{
  ℕ, ◌≡◌, refl, sym, ◌∙◌, subst, ◌↔◌, ◌≢◌, inl, inr, true, false, none, some, List, [], ◌∷◌, ==_iff,
  In, All-In, Bool-cases, Option-cases, arith,
}
use mathlib.Core.Bool.{true≢false}
use collapsarr.Common.Int.{ℤ, ◌<ℤ◌, ◌≤ℤ◌}
use collapsarr.Jobs.Job.{Job, is_pending}
use collapsarr.Jobs.Queue.{find_job, put_job, delete_job}
use collapsarr.Jobs.Queue.Lookup.{
  find_job-In, find_job-id, find_job_of-In, find_job-put_job, find_job-delete_job, HasKeysOnce,
  put_job-HasKeysOnce, delete_job-HasKeysOnce,
}
use collapsarr.Jobs.Pool.{pending_jobs, lowest}
use collapsarr.Jobs.Pool.Order.{
  FirstLowest-Lowest, FirstLowest-In, lowest-FirstLowest, In-pending_jobs,
}
use collapsarr.Jobs.Pool.Claims.{NonePending-of_lowest}
use collapsarr.Jobs.Line.{stands_in}
use collapsarr.Jobs.Line.Ascending.{
  Ascending, job_ids, without, In-without, Ascending-without, stands_in-In, In-stands_in,
}

-- The jobs of the line are the pending ones of the dict, in the order of their priorities, which all
-- differ and stand below the counter's next one.
pub record Represents (jobs : List Job) (next : ℤ) (line : List Job) : Type 0 where
  pub once : HasKeysOnce jobs
  pub ascending : Ascending line
  pub each : (x : Job) → In x line ↔ ((find_job x.id jobs ≡ some x) × (is_pending x ≡ true))
  pub below : (x : Job) → In x line → x.priority <ℤ next

module _ (jobs : List Job) (next : ℤ) (line : List Job) (r : Represents jobs next line) where
  pub In-find_job :
      (i : ℕ) (job : Job) → find_job i jobs ≡ some job → is_pending job ≡ true → In job line
  In-find_job i job found p =
      (r.each job).1
        (subst (λ k. find_job k jobs ≡ some job) (sym (find_job-id i jobs job found)) found, p)

  -- An id stands in the line exactly where its job is pending.
  pub stands_in-found :
      (i : ℕ) (job : Job)
      → find_job i jobs ≡ some job
      → is_pending job ≡ true
      → stands_in i (job_ids line) ≡ true
  stands_in-found i job found p =
      subst (λ k. stands_in k (job_ids line) ≡ true) (find_job-id i jobs job found)
        (stands_in-In job line (In-find_job i job found p))

  pub stands_in-missing :
      (i : ℕ)
      → ((job : Job) → find_job i jobs ≡ some job → is_pending job ≡ false)
      → stands_in i (job_ids line) ≡ false
  stands_in-missing i idle = elim (Bool-cases (stands_in i (job_ids line))) [
    | inl present ↦
        let (x, m, at) = In-stands_in i line present in
        let (found, p) = (r.each x).0 m in
        absurd (true≢false (sym p ∙ idle x (subst (λ k. find_job k jobs ≡ some x) at found)))
    | inr e ↦ e
  ]

  -- The line after the id's job has left: the dict has changed at that id alone, and nothing pending
  -- is left there.
  pub Represents-without :
      (i : ℕ) (after : List Job)
      → HasKeysOnce after
      → ((k : ℕ) → k ≢ i → find_job k after ≡ find_job k jobs)
      → ((job : Job) → find_job i after ≡ some job → is_pending job ≡ false)
      → Represents after next (without i line)
  Represents-without i after once same gone = record {
    once = once;
    ascending = Ascending-without i line r.ascending;
    each = λ x. (
      λ m.
          let (l, n) = (In-without x i line).0 m in
          let (found, p) = (r.each x).0 l in (same x.id n ∙ found, p),
      λ h.
          let n : x.id ≢ i =
            λ e. true≢false (sym h.1 ∙ gone x (subst (λ k. find_job k after ≡ some x) e h.0)) in
          (In-without x i line).1 ((r.each x).1 (sym (same x.id n) ∙ h.0, h.1), n),
    );
    below = λ x m. r.below x ((In-without x i line).0 m).0;
  }

  -- Any write at the id that leaves a job that does not wait.
  pub Represents-put_job :
      (job : Job)
      → is_pending job ≡ false
      → Represents (put_job job jobs) next (without job.id line)
  Represents-put_job job p =
      Represents-without job.id (put_job job jobs) (put_job-HasKeysOnce job jobs r.once)
        (λ k n. ground (arith, find_job-put_job k job jobs, ==_iff job.id k))
        (λ x found. ground (arith, find_job-put_job job.id job jobs, ==_iff job.id job.id, p))

  pub Represents-delete_job : (i : ℕ) → Represents (delete_job i jobs) next (without i line)
  Represents-delete_job i =
      Represents-without i (delete_job i jobs) (delete_job-HasKeysOnce i jobs r.once)
        (λ k n. ground (arith, find_job-delete_job k i jobs, ==_iff i k))
        (λ x found. ground (arith, find_job-delete_job i i jobs, ==_iff i i))

  -- The first of the line is the job that a worker claims.
  pub lowest-front :
      (first : Job) (rest : List Job)
      → line ≡ first ∷ rest
      → lowest (pending_jobs jobs) ≡ some first
  lowest-front first rest e =
      let here : In first line = rw e (inl refl) in
      let (at, p) = (r.each first).0 here in
      let m = find_job-In first.id jobs first at in
      elim (Option-cases (lowest (pending_jobs jobs))) [
        | inl empty ↦ absurd (true≢false (sym p ∙ NonePending-of_lowest jobs empty first m))
        | inr (b, found) ↦
            let best = lowest-FirstLowest (pending_jobs jobs) b found in
            let low =
              All-In (λ j. b.priority ≤ℤ j.priority) first (pending_jobs jobs)
                (FirstLowest-Lowest b (pending_jobs jobs) best)
                ((In-pending_jobs first jobs).1 (m, p)) in
            let (i, q) = (In-pending_jobs b jobs).0 (FirstLowest-In b (pending_jobs jobs) best) in
            let stands : In b (first ∷ rest) =
              subst (In b) e (In-find_job b.id b (find_job_of-In b jobs r.once i) q) in
            elim stands [
              | inl same ↦ rw same found
              | inr later ↦
                  let above =
                    All-In (λ k. first.priority <ℤ k.priority) b rest
                      (subst Ascending e r.ascending).0 later in
                  absurd (omega (arith, above, low))
            ]
      ]

  pub lowest-empty : line ≡ [] → lowest (pending_jobs jobs) ≡ none
  lowest-empty e = elim (Option-cases (lowest (pending_jobs jobs))) [
    | inl empty ↦ empty
    | inr (b, found) ↦
        let best = lowest-FirstLowest (pending_jobs jobs) b found in
        let (i, q) = (In-pending_jobs b jobs).0 (FirstLowest-In b (pending_jobs jobs) best) in
        absurd (subst (In b) e (In-find_job b.id b (find_job_of-In b jobs r.once i) q))
  ]

  -- No two of the line share an id.
  pub front_id :
      (first : Job) (rest : List Job) (x : Job) → line ≡ first ∷ rest → In x rest → x.id ≢ first.id
  front_id first rest x e m same =
      let (at, _) = (r.each first).0 (rw e (inl refl)) in
      let (found, _) = (r.each x).0 (rw e (inr m)) in
      let found' : find_job first.id jobs ≡ some x =
        subst (λ k. find_job k jobs ≡ some x) same found in
      let above =
        All-In (λ k. first.priority <ℤ k.priority) x rest (subst Ascending e r.ascending).0 m in
      let equal : some first ≡ some x = sym at ∙ found' in ground (arith)
