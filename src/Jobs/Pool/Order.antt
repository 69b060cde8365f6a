-- ===== src/Jobs/Pool/Order.antt =====
-- Which pending job is the next one.
use collapsarr.Common.{
  ◌≡◌, refl, ◌↔◌, ◌⊎◌, inl, inr, true, none, some, List, [], ◌∷◌, In, All, Bool-cases, arith,
}
use collapsarr.Common.Int.{ltb_ℤ, ◌<ℤ◌, ◌≤ℤ◌, ltb_ℤ→lt, ltb_ℤ→le}
use collapsarr.Jobs.Job.{Job, is_pending}
use collapsarr.Jobs.Pool.{pending_jobs, lowest_from, lowest}

-- No job of the list has a lower priority than `b`.
abbrev pub Lowest : Job → List Job → Type 0
Lowest b = All (λ j. b.priority ≤ℤ j.priority)

-- `b` is the first of the jobs with the lowest priority.
abbrev pub FirstLowest : Job → List Job → Type 0
FirstLowest b [] = ⊥
FirstLowest b (j ∷ js) = (j ≡ b) × Lowest b js ⊎ (b.priority <ℤ j.priority) × FirstLowest b js

pub FirstLowest-Lowest : (b : Job) (js : List Job) → FirstLowest b js → Lowest b js
FirstLowest-Lowest b [] h = tt
FirstLowest-Lowest b (j ∷ js) (inl (e, low)) = (rw e (omega arith), low)
FirstLowest-Lowest b (j ∷ js) (inr (less, h)) = (omega arith, FirstLowest-Lowest b js h)

pub FirstLowest-In : (b : Job) (js : List Job) → FirstLowest b js → In b js
FirstLowest-In b [] h = h
FirstLowest-In b (j ∷ js) (inl (e, low)) = inl e
FirstLowest-In b (j ∷ js) (inr (less, h)) = inr (FirstLowest-In b js h)

lowest_from-FirstLowest :
    (best : Job) (js : List Job) (b : Job) → lowest_from best js ≡ b → FirstLowest b (best ∷ js)
unfolding lowest_from
lowest_from-FirstLowest best [] b e = inl (e, tt)
lowest_from-FirstLowest best (j ∷ js) b e = elim (Bool-cases (ltb_ℤ j.priority best.priority)) [
  | inl less ↦
      let first = lowest_from-FirstLowest j js b (rw less at e) in
      let low = FirstLowest-Lowest b (j ∷ js) first in
      inr (omega (arith, ltb_ℤ→lt j.priority best.priority less, low.0), first)
  | inr not_less ↦
      let le = ltb_ℤ→le j.priority best.priority not_less in
      elim (lowest_from-FirstLowest best js b (rw not_less at e)) [
        | inl (same, low) ↦ inl (same, (rw (← same) le, low))
        | inr (less, first) ↦ inr (less, inr (omega (arith, le, less), first))
      ]
]

pub lowest-FirstLowest : (js : List Job) (b : Job) → lowest js ≡ some b → FirstLowest b js
unfolding lowest
lowest-FirstLowest [] b e = cc
lowest-FirstLowest (j ∷ js) b e = lowest_from-FirstLowest j js b (cc)

pub lowest-none : (js : List Job) → lowest js ≡ none → js ≡ []
unfolding lowest
lowest-none [] e = refl
lowest-none (j ∷ js) e = cc

-- The pending jobs are those of the dict that are pending.
pub In-pending_jobs :
    (x : Job) (js : List Job) → In x (pending_jobs js) ↔ (In x js × (is_pending x ≡ true))
unfolding pending_jobs
In-pending_jobs x [] = ground arith
In-pending_jobs x (j ∷ js) = ground (arith, In-pending_jobs x js)
