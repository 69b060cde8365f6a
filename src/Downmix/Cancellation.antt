-- ===== src/Downmix/Cancellation.antt =====
-- collapsarr/downmix/cancellation.py: the handle by which a cancel reaches the subprocess of a job,
-- and the runner that registers each subprocess with it. A process is a number, its identity.
pub mod Kills
use collapsarr.Common.{
  ℕ, Bool, true, false, Option, none, some, List, [], ◌∷◌, ◌++◌, ◌==◌, if◌then◌else◌,
}

-- What the operating system answers to the calls that end a process.
pub record Os : Type 0 where
  pub has_exited : ℕ → Bool
  pub has_getpgid : Bool
  pub getpgid : ℕ → Option ℕ
  pub has_killpg : Bool
  pub killpg : ℕ → Bool

-- A signal that was sent: to a process group, or to one process.
pub data Signal : Type 0 where
  group_kill : ℕ → Signal
  kill : ℕ → Signal

unfoldable pub process_group : Os → ℕ → Option ℕ
process_group os process = if os.has_getpgid then os.getpgid process else none

-- The attempts that `_terminate_process_tree` makes, in order.
unfoldable pub terminate_process_tree : Os → ℕ → List Signal
unfolding process_group
terminate_process_tree os process =
    if os.has_exited process then [] else elim (process_group os process) [
      | none ↦ kill process ∷ []
      | some pgid ↦
          if os.has_killpg
          then (if os.killpg pgid
              then group_kill pgid ∷ []
              else group_kill pgid ∷ kill process ∷ [])
          else kill process ∷ []
    ]

pub record CancellationHandle : Type 0 where
  pub cancelled : Bool
  pub process : Option ℕ

abbrev pub new_handle : CancellationHandle
new_handle = record { cancelled = false; process = none }

-- Each method returns the handle after it, and the processes that it terminates.
unfoldable pub attach : ℕ → CancellationHandle → CancellationHandle × List ℕ
attach process handle =
    if handle.cancelled
    then (handle, process ∷ [])
    else (record handle { process = some process }, [])

unfoldable pub detach : ℕ → CancellationHandle → CancellationHandle
detach process handle = elim handle.process [
  | none ↦ handle
  | some attached ↦ if attached == process then record handle { process = none } else handle
]

unfoldable pub cancel : CancellationHandle → CancellationHandle × List ℕ
cancel handle = elim handle.process [
  | none ↦ (record handle { cancelled = true }, [])
  | some process ↦ (record handle { cancelled = true }, process ∷ [])
]

-- The calls that the threads of one job make on its handle, in the order in which they hold its lock.
pub data Call : Type 0 where
  attaches detaches : ℕ → Call
  cancels : Call

unfoldable pub call : Call → CancellationHandle → CancellationHandle × List ℕ
unfolding attach detach cancel
call (attaches process) handle = attach process handle
call (detaches process) handle = (detach process handle, [])
call cancels handle = cancel handle

unfoldable pub calls : List Call → CancellationHandle → CancellationHandle × List ℕ
unfolding call
calls [] handle = (handle, [])
calls (c ∷ cs) handle =
    let (next, killed) = call c handle in let (last, more) = calls cs next in (last, killed ++ more)

-- What `communicate` does: it returns, it times out, or it raises something else.
pub data Communication : Type 0 where
  completed : ℕ → Communication
  timed_out : Communication
  interrupted : Communication

pub data RunnerOutcome : Type 0 where
  returned : ℕ → RunnerOutcome
  raised_timeout raised_other : RunnerOutcome

-- `run` of `make_cancellable_runner`, for the process that it spawned and what becomes of it. The
-- calls of other threads while `communicate` waits are `meanwhile`.
unfoldable pub run_cancellable :
    ℕ → Communication → List Call → CancellationHandle → CancellationHandle × List ℕ × RunnerOutcome
unfolding attach detach calls
run_cancellable process end meanwhile handle =
    let (attached, refused) = attach process handle in
    let (waited, killed) = calls meanwhile attached in
    let finished = detach process waited in
    elim end [
      | completed code ↦ (finished, refused ++ killed, returned code)
      | timed_out ↦ (finished, (refused ++ killed) ++ process ∷ [], raised_timeout)
      | interrupted ↦ (finished, refused ++ killed, raised_other)
    ]
