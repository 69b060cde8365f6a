-- ===== src/Downmix/Cancellation/Kills.antt =====
-- No subprocess of a job outlives a cancel.
use collapsarr.Common.{
  ℕ, ◌≡◌, refl, ◌≢◌, ◌⊎◌, inl, inr, true, false, none, some, List, [], ◌∷◌, ◌++◌, In,
  In-append_left, In-append_right, ==_iff, Option-cases, Bool-cases, arith,
}
use collapsarr.Downmix.Cancellation.{
  Os, Signal, group_kill, kill, process_group, terminate_process_tree, CancellationHandle, attach,
  detach, cancel, Call, attaches, detaches, cancels, call, calls, Communication, completed,
  timed_out, interrupted, run_cancellable,
}

-- Once cancelled, a handle stays so.
call-cancelled :
    (c : Call) (handle : CancellationHandle)
    → handle.cancelled ≡ true
    → (call c handle).0.cancelled ≡ true
unfolding call
call-cancelled (attaches p) handle h = ground arith
call-cancelled (detaches p) handle h = ground arith
call-cancelled cancels handle h = ground arith

attaches-killed :
    (c : Call) (handle : CancellationHandle) (process : ℕ)
    → handle.cancelled ≡ true
    → c ≡ attaches process
    → In process (call c handle).1
unfolding call
attaches-killed (attaches p) handle process h e = ground arith
attaches-killed (detaches p) handle process h e = cc
attaches-killed cancels handle process h e = cc

cancelled-calls :
    (cs : List Call) (handle : CancellationHandle) (process : ℕ)
    → handle.cancelled ≡ true
    → In (attaches process) cs
    → In process (calls cs handle).1
unfolding calls
cancelled-calls [] handle process h i = absurd i
cancelled-calls (c ∷ cs) handle process h (inl e) =
    In-append_left process (call c handle).1 _ (attaches-killed c handle process h e)
cancelled-calls (c ∷ cs) handle process h (inr i) =
    In-append_right process (call c handle).1 _
      (cancelled-calls cs (call c handle).0 process (call-cancelled c handle h) i)

cancel-cancelled : (handle : CancellationHandle) → (cancel handle).0.cancelled ≡ true
unfolding cancel
cancel-cancelled handle = ground arith

-- After a cancel every subprocess that the job still spawns is killed when it is attached, whatever
-- was called before.
pub attach_after_cancel :
    (before after : List Call) (handle : CancellationHandle) (process : ℕ)
    → In (attaches process) after
    → In process (calls (before ++ cancels ∷ after) handle).1
unfolding calls call
attach_after_cancel [] after handle process i =
    In-append_right process (cancel handle).1 _
      (cancelled-calls after (cancel handle).0 process (cancel-cancelled handle) i)
attach_after_cancel (c ∷ before) after handle process i =
    In-append_right process (call c handle).1 _
      (attach_after_cancel before after (call c handle).0 process i)

-- A cancel comes before `process` is detached and before another one takes its place.
abbrev pub CancelledWhileAttached : ℕ → List Call → Type 0
CancelledWhileAttached process [] = ⊥
CancelledWhileAttached process (attaches p ∷ cs) = ⊥
CancelledWhileAttached process (detaches p ∷ cs) = p ≢ process × CancelledWhileAttached process cs
CancelledWhileAttached process (cancels ∷ cs) = Unit

tracked-killed :
    (cs : List Call) (handle : CancellationHandle) (process : ℕ)
    → handle.process ≡ some process
    → CancelledWhileAttached process cs
    → In process (calls cs handle).1
unfolding calls call detach cancel
tracked-killed [] handle process e h = absurd h
tracked-killed (attaches p ∷ cs) handle process e h = absurd h
tracked-killed (detaches p ∷ cs) handle process e h =
    tracked-killed cs (detach p handle) process (ground (arith, ==_iff process p)) h.1
tracked-killed (cancels ∷ cs) handle process e h =
    In-append_left process (cancel handle).1 _ (ground arith)

-- A subprocess that is attached when a cancel arrives is killed: by the cancel, or, if an earlier
-- cancel had come, when it was attached.
pub cancel-kills :
    (before after : List Call) (handle : CancellationHandle) (process : ℕ)
    → CancelledWhileAttached process after
    → In process (calls (before ++ attaches process ∷ after) handle).1
unfolding calls call attach
cancel-kills [] after handle process h = elim (Bool-cases handle.cancelled) [
  | inl late ↦ In-append_left process (attach process handle).1 _ (ground arith)
  | inr early ↦
      In-append_right process (attach process handle).1 _
        (tracked-killed after (attach process handle).0 process (ground arith) h)
]
cancel-kills (c ∷ before) after handle process h =
    In-append_right process (call c handle).1 _
      (cancel-kills before after (call c handle).0 process h)

detach-ne :
    (process : ℕ) (handle : CancellationHandle) → (detach process handle).process ≢ some process
unfolding detach
detach-ne process handle = ground (arith, ==_iff process process)

calls_attached :
    (process : ℕ) (meanwhile : List Call) (handle : CancellationHandle)
    → CancelledWhileAttached process meanwhile
    → In process ((attach process handle).1 ++ (calls meanwhile (attach process handle).0).1)
unfolding calls call
calls_attached process meanwhile handle h = cancel-kills [] meanwhile handle process h

-- The handle when `communicate` has ended.
abbrev waited : ℕ → List Call → CancellationHandle → CancellationHandle
waited process meanwhile handle = (calls meanwhile (attach process handle).0).0

-- However `communicate` ends, the handle no longer tracks the process. A process that timed out has
-- been killed, and so has one that was cancelled while it was attached.
pub run_cancellable-untracked :
    (process : ℕ) (end : Communication) (meanwhile : List Call) (handle : CancellationHandle)
    → ((run_cancellable process end meanwhile handle).0.process ≢ some process)
      × (end ≡ timed_out → In process (run_cancellable process end meanwhile handle).1)
      × (CancelledWhileAttached process meanwhile
          → In process (run_cancellable process end meanwhile handle).1)
unfolding run_cancellable
run_cancellable-untracked process end meanwhile handle = elim end as Ended [
  | completed code ↦ (detach-ne process (waited process meanwhile handle), λ e. cc, killed)
  | timed_out ↦ (
    detach-ne process (waited process meanwhile handle),
    λ _.
        In-append_right process
          ((attach process handle).1 ++ (calls meanwhile (attach process handle).0).1)
          (process ∷ []) (inl refl),
    λ h. In-append_left process _ (process ∷ []) (killed h),
  )
  | interrupted ↦ (detach-ne process (waited process meanwhile handle), λ e. cc, killed)
]
  where
    Ended : Communication → Type 0
    Ended end =
        ((run_cancellable process end meanwhile handle).0.process ≢ some process)
        × (end ≡ timed_out → In process (run_cancellable process end meanwhile handle).1)
        × (CancelledWhileAttached process meanwhile
            → In process (run_cancellable process end meanwhile handle).1)

    killed :
        CancelledWhileAttached process meanwhile
        → In process ((attach process handle).1 ++ (calls meanwhile (attach process handle).0).1)
    killed h = calls_attached process meanwhile handle h

-- The signals of `_terminate_process_tree` to a process that has not exited: one to its group that
-- the system accepted, or one to the process itself at the end.
pub data Reached (os : Os) (process : ℕ) : List Signal → Type 0 where
  whole_group :
      (pgid : ℕ)
      → process_group os process ≡ some pgid
      → os.killpg pgid ≡ true
      → Reached os process (group_kill pgid ∷ [])
  refused_group :
      (pgid : ℕ)
      → process_group os process ≡ some pgid
      → os.killpg pgid ≡ false
      → Reached os process (group_kill pgid ∷ kill process ∷ [])
  process_only :
      (process_group os process ≡ none) ⊎ (os.has_killpg ≡ false)
      → Reached os process (kill process ∷ [])

-- A process that has not exited is sent a kill signal: one to its group that the system accepts, or
-- one to the process itself, also after the system refused the one to the group.
pub terminate-Reached :
    (os : Os) (process : ℕ)
    → os.has_exited process ≡ false
    → (signals : List Signal) × (terminate_process_tree os process ≡ signals)
      × Reached os process signals
unfolding terminate_process_tree
terminate-Reached os process h = elim (Option-cases (process_group os process)) [
  | inl absent ↦ (_, rw (h, absent, terminate_process_tree) refl, Reached.process_only (inl absent))
  | inr (pgid, found) ↦ elim (Bool-cases os.has_killpg) [
    | inr lacks ↦ (_, rw (h, found, lacks) refl, Reached.process_only (inr lacks))
    | inl has ↦ elim (Bool-cases (os.killpg pgid)) [
      | inl accepted ↦
          (_, rw (h, found, has, accepted) refl, Reached.whole_group pgid found accepted)
      | inr refused ↦
          (_, rw (h, found, has, refused) refl, Reached.refused_group pgid found refused)
    ]
  ]
]
