-- ===== src/Jobs/Line/Refines.antt =====
-- Any sequence of requests is answered by the queue as by the line.
use collapsarr.Common.{◌≡◌, refl, ap, false, List, [], ◌∷◌}
use collapsarr.Common.Int.{ℤ}
use collapsarr.Jobs.Job.{Job}
use collapsarr.Jobs.Queue.{JobQueue, find_job}
use collapsarr.Jobs.Line.{Request, handle, handle_all, serve_all}
use collapsarr.Jobs.Line.Ascending.{job_ids}
use collapsarr.Jobs.Line.Represents.{Represents}
use collapsarr.Jobs.Line.Answers.{IsLegal, handle-Answers}

abbrev pub AreLegal : List Request → JobQueue → Type 0
AreLegal [] q = Unit
AreLegal (request ∷ requests) q = IsLegal request q × AreLegal requests (handle request q).0

-- A queue without jobs is represented by the empty line.
pub Represents-empty : (next : ℤ) → Represents [] next []
unfolding find_job
Represents-empty next = record {
  once = tt;
  ascending = tt;
  each = λ x. ((λ m. absurd m), (λ h. absurd (cc)));
  below = λ x m. absurd m;
}

-- The queue implements a line of ids. Where the jobs of a line are those that are pending, in the order
-- of their priorities, no two of which are equal and all of which stand below the counter, and the queue
-- has not been shut down and claiming is not paused, then any sequence of enqueues of new jobs, bumps,
-- cancels, forced starts and claims is answered as the line answers it: an enqueue goes to the end, a bump
-- to the front, a cancel and a forced start take the id out of the middle, and a claim takes the first.
pub handle_all-serve_all :
    (requests : List Request) (q : JobQueue) (line : List Job)
    → Represents q.jobs q.next_priority line
    → q.is_shutdown ≡ false
    → AreLegal requests q
    → handle_all requests q ≡ serve_all requests (job_ids line)
unfolding handle_all serve_all
handle_all-serve_all [] q line r up legal = refl
handle_all-serve_all (request ∷ requests) q line r up (legal, later) =
    let (after, h, ids, reply, running_on) = handle-Answers q line r up request legal in
    let rest = handle_all-serve_all requests (handle request q).0 after h running_on later in
    rw (← reply, ← ids) (ap (λ replies. (handle request q).1 ∷ replies) rest)
