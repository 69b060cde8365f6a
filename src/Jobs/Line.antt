-- ===== src/Jobs/Line.antt =====
-- collapsarr/jobs/queue.py, seen from outside: a line of ids. An enqueue goes to its end, a bump goes to
-- its front, and a worker takes its first.
pub mod Ascending
pub mod Represents
pub mod Joins
pub mod Answers
pub mod Refines
mod Tests
use collapsarr.Common.{
  ℕ, ◌≡◌, Bool, true, false, not, Option, none, some, List, [], ◌∷◌, ◌++◌, ◌==◌, if◌then◌else◌,
}
use collapsarr.Jobs.Job.{Job}
use collapsarr.Jobs.Queue.{JobQueue, find_job, enqueue_job, cancel}
use collapsarr.Jobs.Pool.{bump_to_front, force_start, Claim, exits, waits, claims, claim_next}

-- What a client, or a worker, asks of the queue. A number after an id is the time.
pub data Request : Type 0 where
  adds : Job → Request
  bumps : ℕ → Request
  cancels : ℕ → Request
  starts : ℕ → ℕ → Request
  asks : ℕ → Request

-- What comes back: nothing, whether it was done, or the id of the job that was taken.
pub data Reply : Type 0 where
  added : Reply
  done : Bool → Reply
  took : Option ℕ → Reply

abbrev pub claimed_id : Claim → Option ℕ
claimed_id exits = none
claimed_id waits = none
claimed_id (claims job) = some job.id

-- The queue's own operations.
unfoldable pub handle : Request → JobQueue → JobQueue × Reply
unfolding enqueue_job bump_to_front cancel force_start claim_next
handle (adds job) q = ((enqueue_job job q).0, added)
handle (bumps i) q = ((bump_to_front i q).0, done (bump_to_front i q).1)
handle (cancels i) q = ((cancel i q).0, done (cancel i q).1)
handle (starts i now) q = ((force_start now i q).0, done (force_start now i q).1)
handle (asks now) q = ((claim_next false now q).0, took (claimed_id (claim_next false now q).1))

unfoldable pub handle_all : List Request → JobQueue → List Reply
unfolding handle
handle_all [] q = []
handle_all (request ∷ requests) q = (handle request q).1 ∷ handle_all requests (handle request q).0

-- The line: whether an id waits in it, and what is left without it.
abbrev pub stands_in : ℕ → List ℕ → Bool
stands_in i [] = false
stands_in i (k ∷ ks) = let rest = stands_in i ks in if k == i then true else rest

abbrev pub leaves : ℕ → List ℕ → List ℕ
leaves i [] = []
leaves i (k ∷ ks) = let rest = leaves i ks in if k == i then rest else k ∷ rest

unfoldable pub serve : Request → List ℕ → List ℕ × Reply
serve (adds job) line = (line ++ job.id ∷ [], added)
serve (bumps i) line =
    if stands_in i line then (i ∷ leaves i line, done true) else (line, done false)
serve (cancels i) line = (leaves i line, done (stands_in i line))
serve (starts i now) line = (leaves i line, done (stands_in i line))
serve (asks now) [] = ([], took none)
serve (asks now) (i ∷ line) = (line, took (some i))

unfoldable pub serve_all : List Request → List ℕ → List Reply
unfolding serve
serve_all [] line = []
serve_all (request ∷ requests) line =
    (serve request line).1 ∷ serve_all requests (serve request line).0
