-- ===== src/Downmix/Remux/Safety.antt =====
-- What `run_remux` leaves on the disk.
use collapsarr.Common.{
  ◌≡◌, ◌≢◌, refl, ◌∙◌, zero, suc, false, none, List, [], ◌∷◌, ◌++◌, Str, arith, ℕ,
}
use collapsarr.Common.Int.{ℤ, pos, negsuc}
use collapsarr.Common.Result.{
  Exception, Result, ok, raise, value_error, file_not_found, timeout_expired,
}
use collapsarr.Downmix.Files.{Files, after_io, write_file, Ran, completed, raised, Runner, Format}
use collapsarr.Downmix.Files.Disk.{SameBut, Same, remove-Same, write-SameBut}
use collapsarr.Downmix.Stream.{AudioStreamInfo}
use collapsarr.Downmix.Targets.{DownmixSettings, QualifyingTarget}
use collapsarr.Downmix.Remux.{RemuxResult, Tools, build_remux_command}
use collapsarr.Downmix.Remux.Command.{Built, refused, built, build_remux_command-Built}
use collapsarr.Downmix.Remux.Run.{
  Mkstemp, created, reserve, finish_remux, run_remux, remuxed, failed_remux,
}

-- `mkstemp` documents that the file it creates did not exist.
abbrev pub IsFresh : Mkstemp → Type 0
IsFresh mkstemp =
    (path : Str) (files : Files) (temp : Str) → mkstemp path files ≡ ok temp → files temp ≡ none

-- A command of ffmpeg writes no file but its output, the last argument.
abbrev pub WritesLast : Runner → Str → Type 0
WritesLast runner ffmpeg_path =
    (rest : List Str) (temp : Str) (timeout : ℕ) (files : Files)
    → SameBut temp files (runner (ffmpeg_path ∷ (rest ++ temp ∷ [])) timeout files).0

-- The answers of the subprocess that a remux reports as a failure, with the code that it reports.
pub data Failure : Ran → ℤ → Type 0 where
  exited : (code : ℤ) (out err : Str) → code ≢ pos 0 → Failure (completed code out err) code
  absent : Failure (raised file_not_found) (negsuc 0)
  timed_out : Failure (raised timeout_expired) (negsuc 0)

module _ (format : Format) (mkstemp : Mkstemp) (runner : Runner) (tools : Tools) (path : Str)
    (streams : List AudioStreamInfo) (targets : List QualifyingTarget)
    (settings : DownmixSettings) where
  -- The subprocess of a remux: the built command, run where `mkstemp` has just created the temp file.
  pub record Runs (before : Files) (temp : Str) (m : Files × Ran) : Type 0 where
    pub reserved : mkstemp path before ≡ ok temp
    pub command : List Str
    pub is_built : build_remux_command format tools path temp streams targets settings ≡ ok command
    pub ran : runner command tools.timeout (write_file temp 0 before) ≡ m

  -- How a remux ends, from the disk `before`.
  pub data RemuxEnd (before : Files) : Files × Result RemuxResult → Type 0 where
    unbuilt :
        build_remux_command format tools path path streams targets settings ≡ raise value_error
        → RemuxEnd before (before, raise value_error)
    unreserved : (e : Exception) → mkstemp path before ≡ raise e → RemuxEnd before (before, raise e)
    failed :
        (disk after : Files) (temp : Str) (answer : Ran) (r : RemuxResult)
        → Runs before temp (disk, answer)
        → Failure answer r.returncode
        → Same before after
        → r.success ≡ false
        → r.temp_file_path ≡ none
        → RemuxEnd before (after, ok r)
    produced :
        (after : Files) (temp out stderr : Str)
        → before temp ≡ none
        → Runs before temp (after, completed (pos 0) out stderr)
        → SameBut temp before after
        → RemuxEnd before (after, ok (remuxed temp stderr))
    orphaned :
        (after : Files) (temp : Str) (e : Exception)
        → e ≢ file_not_found
        → e ≢ timeout_expired
        → before temp ≡ none
        → Runs before temp (after, raised e)
        → SameBut temp before after
        → RemuxEnd before (after, raise e)

  module _ (temp : Str) (before after : Files) where
    finish_remux-RemuxEnd :
        (answer : Ran)
        → before temp ≡ none
        → Runs before temp (after, answer)
        → SameBut temp before after
        → RemuxEnd before (finish_remux format tools path temp (after, answer))
    unfolding finish_remux failed_remux
    finish_remux-RemuxEnd (completed (pos zero) out err) new runs same =
        produced after temp out err new runs same
    finish_remux-RemuxEnd (completed (pos (suc n)) out err) new runs same =
        failed after _ temp _ _ runs (exited (pos (suc n)) out err (λ e. ground arith))
          (remove-Same temp before after new same) refl refl
    finish_remux-RemuxEnd (completed (negsuc n) out err) new runs same =
        failed after _ temp _ _ runs (exited (negsuc n) out err (λ e. ground arith))
          (remove-Same temp before after new same) refl refl
    finish_remux-RemuxEnd (raised file_not_found) new runs same =
        failed after _ temp _ _ runs absent (remove-Same temp before after new same) refl refl
    finish_remux-RemuxEnd (raised timeout_expired) new runs same =
        failed after _ temp _ _ runs timed_out (remove-Same temp before after new same) refl refl
    finish_remux-RemuxEnd (raised _) new runs same =
        orphaned after temp _ (λ e. ground arith) (λ e. ground arith) new runs same

  module _ (fresh : IsFresh mkstemp) (writes : WritesLast runner tools.ffmpeg_path)
      (files : Files) where
    abbrev ran_on : Str → List Str → Files × Ran
    ran_on temp rest =
        runner (tools.ffmpeg_path ∷ (rest ++ temp ∷ [])) tools.timeout (write_file temp 0 files)

    ran-RemuxEnd :
        (temp : Str) (rest : List Str)
        → mkstemp path files ≡ ok temp
        → build_remux_command format tools path temp streams targets settings
          ≡ ok (tools.ffmpeg_path ∷ (rest ++ temp ∷ []))
        → RemuxEnd files (finish_remux format tools path temp (ran_on temp rest))
    ran-RemuxEnd temp rest m b =
        finish_remux-RemuxEnd temp files (ran_on temp rest).0 (ran_on temp rest).1
          (fresh path files temp m) (record { reserved = m; command = _; is_built = b; ran = refl })
          (λ p other.
            writes rest temp tools.timeout (write_file temp 0 files) p other
            ∙ write-SameBut temp 0 files p other)

    reserved-RemuxEnd :
        (rest : List Str) (made : Result Str)
        → mkstemp path files ≡ made
        → ((temp : Str)
            → build_remux_command format tools path temp streams targets settings
              ≡ ok (tools.ffmpeg_path ∷ (rest ++ temp ∷ [])))
        → RemuxEnd files (run_remux format mkstemp runner tools path streams targets settings files)
    unfolding run_remux reserve created after_io
    reserved-RemuxEnd rest (raise e) m b = rw (b path, m) (unreserved e m)
    reserved-RemuxEnd rest (ok temp) m b =
        rw (b path, m, b temp) (ran-RemuxEnd temp rest m (b temp))

    Built-RemuxEnd :
        Built format path streams targets tools
          (λ temp. build_remux_command format tools path temp streams targets settings)
        → RemuxEnd files (run_remux format mkstemp runner tools path streams targets settings files)
    unfolding run_remux after_io
    Built-RemuxEnd (refused _ b) = rw (b path) (unbuilt (b path))
    Built-RemuxEnd (built _ rest _ shape b) = reserved-RemuxEnd rest _ refl b

    -- When `mkstemp` names a new file and an ffmpeg command writes only its last argument, a remux ends
    -- in one of five ways. The command cannot be built, and ValueError is raised; or `mkstemp` raises,
    -- and so does the remux: the disk is as before. In the other three the built command was run once
    -- the new temp file was created. The subprocess exited with another code than 0, was not found or
    -- timed out: the result is unsuccessful, has its code, or -1, and no temp path, and the disk is as
    -- before. It exited with 0: the result is successful with the temp path, and the disk is what
    -- the subprocess left, which differs from before at most at the temp path. Or it raised another
    -- exception: that is passed on, and the disk is what it left, with the same difference.
    pub run_remux-RemuxEnd :
        RemuxEnd files (run_remux format mkstemp runner tools path streams targets settings files)
    run_remux-RemuxEnd =
        Built-RemuxEnd (build_remux_command-Built format tools path streams targets settings)
