-- ===== src/Jobs/Line/Ascending.antt =====
-- Lists of jobs in the order of their priorities.
use collapsarr.Common.{
  ℕ, ◌≡◌, refl, ap, ◌↔◌, ◌≢◌, inl, inr, true, false, List, [], ◌∷◌, ◌++◌, ◌==◌, ==_iff,
  if◌then◌else◌, In, All, All-In, All-of_In, All-append, Bool-cases, arith,
}
use collapsarr.Common.Int.{◌<ℤ◌}
use collapsarr.Jobs.Job.{Job}
use collapsarr.Jobs.Line.{stands_in, leaves}

abbrev pub Ascending : List Job → Type 0
Ascending [] = Unit
Ascending (j ∷ js) = All (λ k. j.priority <ℤ k.priority) js × Ascending js

abbrev pub job_ids : List Job → List ℕ
job_ids [] = []
job_ids (j ∷ js) = j.id ∷ job_ids js

abbrev pub without : ℕ → List Job → List Job
without i [] = []
without i (j ∷ js) = let rest = without i js in if j.id == i then rest else j ∷ rest

pub job_ids-without : (i : ℕ) (js : List Job) → job_ids (without i js) ≡ leaves i (job_ids js)
job_ids-without i [] = refl
job_ids-without i (j ∷ js) = ground (arith, job_ids-without i js)

pub job_ids-append : (js : List Job) (j : Job) → job_ids (js ++ j ∷ []) ≡ job_ids js ++ j.id ∷ []
job_ids-append [] j = refl
job_ids-append (k ∷ js) j = ap (λ is. k.id ∷ is) (job_ids-append js j)

pub In-without : (x : Job) (i : ℕ) (js : List Job) → In x (without i js) ↔ (In x js × (x.id ≢ i))
In-without x i [] = ground arith
In-without x i (j ∷ js) = ground (arith, In-without x i js, ==_iff j.id i)

pub Ascending-without : (i : ℕ) (js : List Job) → Ascending js → Ascending (without i js)
Ascending-without i [] h = tt
Ascending-without i (j ∷ js) h = elim (Bool-cases (j.id == i)) [
  | inl same ↦ rw same (Ascending-without i js h.1)
  | inr other ↦ rw other (
    All-of_In (λ k. j.priority <ℤ k.priority) (without i js)
        (λ x m. All-In (λ k. j.priority <ℤ k.priority) x js h.0 ((In-without x i js).0 m).0),
    Ascending-without i js h.1,
  )
]

pub Ascending-append :
    (js : List Job) (j : Job)
    → Ascending js
    → All (λ k. k.priority <ℤ j.priority) js
    → Ascending (js ++ j ∷ [])
Ascending-append [] j h below = (tt, tt)
Ascending-append (k ∷ js) j h below = (
  All-append (λ x. k.priority <ℤ x.priority) js (j ∷ []) h.0 (below.0, tt),
  Ascending-append js j h.1 below.1,
)

-- Where no job of the list has the id, nothing leaves.
pub leaves-absent :
    (i : ℕ) (js : List Job) → ((x : Job) → In x js → x.id ≢ i) → leaves i (job_ids js) ≡ job_ids js
leaves-absent i [] n = refl
leaves-absent i (j ∷ js) n =
    let rest = leaves-absent i js (λ x m. n x (inr m)) in
    ground (arith, rest, n j (inl refl), ==_iff j.id i)

pub stands_in-In : (x : Job) (js : List Job) → In x js → stands_in x.id (job_ids js) ≡ true
stands_in-In x [] m = absurd m
stands_in-In x (j ∷ js) (inl e) = ground (arith, ==_iff j.id x.id)
stands_in-In x (j ∷ js) (inr m) = ground (arith, stands_in-In x js m)

pub In-stands_in :
    (i : ℕ) (js : List Job) → stands_in i (job_ids js) ≡ true → (x : Job) × In x js × (x.id ≡ i)
In-stands_in i [] e = absurd (ground arith)
In-stands_in i (j ∷ js) e = elim (Bool-cases (j.id == i)) [
  | inl same ↦ (j, inl refl, (==_iff j.id i).0 same)
  | inr other ↦ let (x, m, at) = In-stands_in i js (ground arith) in (x, inr m, at)
]

pub leaves-missing : (i : ℕ) (is : List ℕ) → stands_in i is ≡ false → leaves i is ≡ is
leaves-missing i [] e = refl
leaves-missing i (k ∷ is) e = ground (arith, leaves-missing i is)
