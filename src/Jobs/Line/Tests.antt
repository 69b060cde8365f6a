-- ===== src/Jobs/Line/Tests.antt =====
-- A queue that starts empty, and what it answers.
use collapsarr.Common.{ℕ, ◌≡◌, refl, true, false, none, some, List, [], ◌∷◌, codes}
use collapsarr.Common.Int.{pos, suc_ℤ, pred_ℤ}
use collapsarr.Downmix.Targets.{default_settings}
use collapsarr.Jobs.Job.{Job, downmix, new_job, is_pending}
use collapsarr.Jobs.Queue.{JobQueue, find_job, put_job, delete_job, enqueue_job, cancel}
use collapsarr.Jobs.Pool.{
  pending_jobs, lowest, bumped_priority, bump_to_front, claimed_job, force_start, claim_next,
}
use collapsarr.Jobs.Line.{
  Request, adds, bumps, cancels, starts, asks, added, done, took, handle, handle_all, serve,
  serve_all,
}
use collapsarr.Jobs.Line.Refines.{handle_all-serve_all, Represents-empty}

program : Unit {0}
unfolding find_job put_job delete_job enqueue_job cancel pending_jobs lowest bumped_priority
    bump_to_front claimed_job force_start claim_next is_pending new_job suc_ℤ pred_ℤ handle
    handle_all serve serve_all
program = tt

abbrev film : ℕ → Job
film id = new_job id (codes "/media/film.mkv") default_settings downmix none

abbrev no_jobs : JobQueue
no_jobs = record {
  max_concurrency = 1;
  jobs = [];
  next_priority = pos 0;
  workers = 0;
  started = false;
  force_start_threads = [];
  is_shutdown = false;
  active = 0;
}

abbrev visits : List Request
visits =
    adds (film 4)
    ∷ adds (film 5)
    ∷ adds (film 6)
    ∷ bumps 6
    ∷ asks 9
    ∷ cancels 6
    ∷ starts 4 9
    ∷ asks 9
    ∷ asks 9
    ∷ []

visits_answered :
    handle_all visits no_jobs
    ≡ added
      ∷ added
      ∷ added
      ∷ done true
      ∷ took (some 6)
      ∷ done false
      ∷ done true
      ∷ took (some 5)
      ∷ took none
      ∷ []
unfolding program
visits_answered = refl

handle_all-serve_all_example : handle_all visits no_jobs ≡ serve_all visits []
unfolding program
handle_all-serve_all_example =
    handle_all-serve_all visits no_jobs [] (Represents-empty (pos 0)) refl
      ((refl, refl), ((refl, refl), ((refl, refl), (tt, (tt, (tt, (tt, (tt, (tt, tt)))))))))
