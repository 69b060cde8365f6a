-- ===== src/Jobs/Line/Joins.antt =====
-- The writes by which a job joins the line: an enqueue at its end, a bump at its front.
use collapsarr.Common.{
  ◌≡◌, refl, sym, ap, ◌∙◌, subst, ◌↔◌, ◌⊎◌, ◌≢◌, inl, inr, true, none, some, List, [], ◌∷◌, ◌++◌,
  ◌==◌, ==_iff, In, All-of_In, Bool-cases, In-append_left, In-append_right, In-append_cases, arith,
}
use collapsarr.Common.Int.{ℤ, ◌<ℤ◌, suc_ℤ, suc_ℤ_parts}
use collapsarr.Jobs.Job.{Job, is_pending}
use collapsarr.Jobs.Queue.{find_job, put_job}
use collapsarr.Jobs.Queue.Lookup.{find_job-In, find_job-none, find_job-put_job, put_job-HasKeysOnce}
use collapsarr.Jobs.Pool.{bumped_priority}
use collapsarr.Jobs.Pool.Steer.{bumped_priority-below}
use collapsarr.Jobs.Line.Ascending.{without, In-without, Ascending-without, Ascending-append}
use collapsarr.Jobs.Line.Represents.{Represents, In-find_job}

-- What the dict holds after a pending job is written: that job, and every other one as before.
each_after_put :
    (job : Job) (jobs : List Job)
    → is_pending job ≡ true
    → (x : Job)
    → ((find_job x.id (put_job job jobs) ≡ some x) × (is_pending x ≡ true))
      ↔ ((x ≡ job) ⊎ ((find_job x.id jobs ≡ some x) × (is_pending x ≡ true) × (x.id ≢ job.id)))
each_after_put job jobs p x = elim (Bool-cases (job.id == x.id)) [
  | inl same ↦
      let at : find_job x.id (put_job job jobs) ≡ some job =
        find_job-put_job x.id job jobs ∙ rw same refl in
      let equal = (==_iff job.id x.id).0 same in
      (
        λ h. inl (cc),
        λ h. elim h [
          | inl e ↦ (at ∙ ap (λ j. some j) (sym e), subst (λ j. is_pending j ≡ true) (sym e) p)
          | inr (_, _, n) ↦ absurd (n (sym equal))
        ],
      )
  | inr other ↦
      let at : find_job x.id (put_job job jobs) ≡ find_job x.id jobs =
        find_job-put_job x.id job jobs ∙ rw other refl in
      let apart : x.id ≢ job.id = λ e. ground (arith, ==_iff job.id x.id) in
      (
        λ h. inr (sym at ∙ h.0, h.1, apart),
        λ h. elim h [
          | inl e ↦ absurd (apart (ap (λ (j : Job). j.id) e))
          | inr (found, q, _) ↦ (at ∙ found, q)
        ],
      )
]

module _ (jobs : List Job) (next : ℤ) (line : List Job) (r : Represents jobs next line) where
  -- A new job goes to the end.
  pub Represents-enqueue :
      (job : Job)
      → is_pending job ≡ true
      → find_job job.id jobs ≡ none
      → job.priority ≡ next
      → Represents (put_job job jobs) (suc_ℤ next) (line ++ job ∷ [])
  Represents-enqueue job p fresh at = record {
    once = put_job-HasKeysOnce job jobs r.once;
    ascending =
        Ascending-append line job r.ascending
          (All-of_In (λ (k : Job). k.priority <ℤ job.priority) line (λ x m. rw at (r.below x m)));
    each = λ x. (
      λ m. (each_after_put job jobs p x).1 (elim (In-append_cases x line (job ∷ []) m) [
        | inl old ↦
            let (found, q) = (r.each x).0 old in
            inr (found, q, find_job-none job.id jobs x fresh (find_job-In x.id jobs x found))
        | inr (inl e) ↦ inl (sym e)
        | inr (inr i) ↦ absurd i
      ]),
      λ h. elim ((each_after_put job jobs p x).0 h) [
        | inl e ↦ In-append_right x line (job ∷ []) (inl (sym e))
        | inr (found, q, n) ↦ In-append_left x line (job ∷ []) ((r.each x).1 (found, q))
      ],
    );
    below = λ x m. elim (In-append_cases x line (job ∷ []) m) [
      | inl old ↦ omega (arith, r.below x old, suc_ℤ_parts next)
      | inr (inl e) ↦ rw (← e) (rw at (omega (arith, suc_ℤ_parts next)))
      | inr (inr i) ↦ absurd i
    ];
  }

  -- A pending job that is written with a priority below all others stands at the front.
  pub Represents-bump :
      (old : Job) (job : Job)
      → find_job job.id jobs ≡ some old
      → is_pending old ≡ true
      → is_pending job ≡ true
      → job.priority ≡ bumped_priority old jobs
      → Represents (put_job job jobs) next (job ∷ without job.id line)
  Represents-bump old job found p q at =
      let m = find_job-In job.id jobs old found in
      let lower : (x : Job) → In x line → job.priority <ℤ x.priority = λ x l.
        let (here, w) = (r.each x).0 l in
        rw at (bumped_priority-below old x jobs m p (find_job-In x.id jobs x here) w) in
      let stands = In-find_job jobs next line r job.id old found p in
      record {
        once = put_job-HasKeysOnce job jobs r.once;
        ascending = (
          All-of_In (λ (k : Job). job.priority <ℤ k.priority) (without job.id line)
              (λ x l. lower x ((In-without x job.id line).0 l).0),
          Ascending-without job.id line r.ascending,
        );
        each = λ x. (
          λ l. (each_after_put job jobs q x).1 (elim l [
            | inl e ↦ inl (sym e)
            | inr i ↦
                let (before, n) = (In-without x job.id line).0 i in
                let (here, w) = (r.each x).0 before in inr (here, w, n)
          ]),
          λ h. elim ((each_after_put job jobs q x).0 h) [
            | inl e ↦ inl (sym e)
            | inr (here, w, n) ↦ inr ((In-without x job.id line).1 ((r.each x).1 (here, w), n))
          ],
        );
        below = λ x l. elim l [
          | inl e ↦ rw (← e) (omega (arith, lower old stands, r.below old stands))
          | inr i ↦ r.below x ((In-without x job.id line).0 i).0
        ];
      }
