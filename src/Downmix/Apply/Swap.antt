-- ===== src/Downmix/Apply/Swap.antt =====
-- When `apply_remux_result` replaces the original, and what it leaves on the disk.
use collapsarr.Common.{
  Bool, Option, ℕ, ◌⊎◌, inl, inr, Bool-cases, ◌==◌, none, some, arith, ◌+◌, ◌≡◌, ◌≢◌, refl, true,
  false, Str,
}
use collapsarr.Common.Int.{ℤ, pos, negsuc}
use collapsarr.Common.Float.{Float, greater}
use collapsarr.Common.Result.{Exception, Result, ok, raise, value_error}
use collapsarr.Downmix.Files.{Files, after_io, Runner, Format}
use collapsarr.Downmix.Probe.{MediaSummary, ProbeTools}
use collapsarr.Downmix.Remux.{RemuxResult}
use collapsarr.Downmix.Files.Disk.{
  Same, IsDiscarded, IsSwapped, remove-IsDiscarded, rename-IsSwapped,
}
use collapsarr.Downmix.Apply.Probes.{
  ReadsOnly, Probed, Unprobed, Both, unread, read, probe_both-Both,
}
use collapsarr.Downmix.Apply.{
  ApplyResult, refuse, compare_and_swap, expected_stream_count, temp_of, check_added, checked_temp,
  or_discard, apply_remux_result, ApplyFailureReason, Comparison, duration_delta,
}

-- The two checks on the probed summaries.
pub record Matches (c : Comparison) : Type 0 where
  pub duration : greater (duration_delta c) c.tolerance ≡ false
  pub streams : c.temp.stream_count ≡ c.original.stream_count + c.added_track_count

pub data Fails (c : Comparison) : ApplyFailureReason → Type 0 where
  by_duration :
      greater (duration_delta c) c.tolerance ≡ true → Fails c ApplyFailureReason.duration_mismatch
  by_streams :
      c.temp.stream_count ≢ c.original.stream_count + c.added_track_count
      → Fails c ApplyFailureReason.stream_count_mismatch

checked_temp-cases :
    (success : Bool) (path : Option Str)
    → ((temp : Str) × (checked_temp success path ≡ ok temp) × (success ≡ true) × (path ≡ some temp))
      ⊎ ((checked_temp success path ≡ raise value_error) × ((success ≡ false) ⊎ (path ≡ none)))
unfolding checked_temp
checked_temp-cases true (some temp) = inl (temp, refl, refl, refl)
checked_temp-cases true none = inr (refl, inr refl)
checked_temp-cases false (some temp) = inr (refl, inl refl)
checked_temp-cases false none = inr (refl, inl refl)

check_added-cases :
    (added : ℤ)
    → ((n : ℕ) × (check_added added ≡ ok n) × (added ≡ pos n))
      ⊎ ((n : ℕ) × (check_added added ≡ raise value_error) × (added ≡ negsuc n))
unfolding check_added
check_added-cases (pos n) = inl (n, refl, refl)
check_added-cases (negsuc n) = inr (n, refl, refl)

module _ (runner : Runner) (tools : ProbeTools) (tolerance : Float) (original : Str)
    (r : RemuxResult) (added : ℤ) (before : Files) where
  -- The comparison that is made with the temp file at `temp`.
  pub record IsMade (temp : Str) (c : Comparison) : Type 0 where
    pub of_original : Probed runner tools before original c.original
    pub of_temp : Probed runner tools before temp c.temp
    pub limit : c.tolerance ≡ tolerance
    pub tracks : added ≡ pos c.added_track_count

  -- The result stands for a remux that succeeded, with its temp file at `temp`.
  pub record IsGiven (temp : Str) : Type 0 where
    pub succeeded : r.success ≡ true
    pub at : r.temp_file_path ≡ some temp

  pub data ApplyEnd : Files × Result ApplyResult → Type 0 where
    bad_input :
        (r.success ≡ false) ⊎ (r.temp_file_path ≡ none) ⊎ ((n : ℕ) × (added ≡ negsuc n))
        → ApplyEnd (before, raise value_error)
    unprobed :
        (temp : Str) (after : Files) (e : Exception)
        → IsGiven temp
        → Unprobed runner tools before original e ⊎ Unprobed runner tools before temp e
        → IsDiscarded temp before after
        → ApplyEnd (after, raise e)
    refused :
        (temp : Str) (c : Comparison) (after : Files) (reason : ApplyFailureReason) (detail : Str)
        → IsGiven temp
        → IsMade temp c
        → Fails c reason
        → IsDiscarded temp before after
        → ApplyEnd (after, ok (refuse reason detail))
    swapped :
        (temp : Str) (c : Comparison) (after : Files) (a : ApplyResult)
        → IsGiven temp
        → IsMade temp c
        → Matches c
        → IsSwapped original temp before after
        → a.success ≡ true
        → a.applied_path ≡ some original
        → a.failure_reason ≡ none
        → ApplyEnd (after, ok a)

  module _ (format : Format) (temp : Str) (given : IsGiven temp) where
    compare-ApplyEnd :
        (c : Comparison) (files : Files)
        → Same before files
        → IsMade temp c
        → ApplyEnd (compare_and_swap format original temp c files)
    unfolding compare_and_swap expected_stream_count
    compare-ApplyEnd c files same made =
        elim (Bool-cases (greater (duration_delta c) c.tolerance)) [
          | inl over ↦ rw over (
              refused temp c _ _ _ given made (by_duration over)
                (remove-IsDiscarded temp before files same))
          | inr under ↦ elim (Bool-cases (c.temp.stream_count == expected_stream_count c)) [
            | inr apart ↦
                rw (under, apart)
                  (refused temp c _ _ _ given made (by_streams (λ e. ground arith))
                    (remove-IsDiscarded temp before files same))
            | inl equal ↦
                rw (under, equal)
                  (swapped temp c _ _ given made
                    (record { duration = under; streams = ground arith })
                    (rename-IsSwapped original temp before files same) refl refl refl)
          ]
        ]

    compared-ApplyEnd :
        (n : ℕ)
        → added ≡ pos n
        → (m : Files × Result (MediaSummary × MediaSummary))
        → Both runner tools before original temp m
        → ApplyEnd (
            after_io (or_discard temp m) (λ s. compare_and_swap format original temp (record {
              original = s.0;
              temp = s.1;
              tolerance = tolerance;
              added_track_count = n;
            })))
    unfolding after_io or_discard
    compared-ApplyEnd n tracks (_, raise _) (unread files e same why) =
        unprobed temp _ e given why (remove-IsDiscarded temp before files same)
    compared-ApplyEnd n tracks (_, ok _) (read files o t same first second) =
        compare-ApplyEnd _ files same
          (record { of_original = first; of_temp = second; limit = refl; tracks = tracks })

  module _ (format : Format) (reads : ReadsOnly runner tools.ffprobe_path) where
    abbrev run : Files × Result ApplyResult
    run = apply_remux_result format runner tools tolerance original r added before

    checked-ApplyEnd :
        (temp : Str) (n : ℕ)
        → temp_of r ≡ ok temp
        → IsGiven temp
        → check_added added ≡ ok n
        → added ≡ pos n
        → ApplyEnd run
    unfolding apply_remux_result temp_of after_io
    checked-ApplyEnd temp n t given c tracks =
        rw (t, c)
          (compared-ApplyEnd format temp given n tracks _
            (probe_both-Both runner tools reads before original temp))

    given-ApplyEnd : (temp : Str) → temp_of r ≡ ok temp → IsGiven temp → ApplyEnd run
    unfolding apply_remux_result temp_of after_io
    given-ApplyEnd temp t given = elim (check_added-cases added) [
      | inl (n, c, tracks) ↦ checked-ApplyEnd temp n t given c tracks
      | inr (n, c, negative) ↦ rw (t, c) (bad_input (inr (inr (n, negative))))
    ]

    pub apply_remux_result-ApplyEnd :
        ApplyEnd (apply_remux_result format runner tools tolerance original r added before)
    unfolding apply_remux_result temp_of after_io
    apply_remux_result-ApplyEnd = elim (checked_temp-cases r.success r.temp_file_path) [
      | inl (temp, t, s, p) ↦ given-ApplyEnd temp t (record { succeeded = s; at = p })
      | inr (t, inl unsuccessful) ↦ rw t (bad_input (inl unsuccessful))
      | inr (t, inr nowhere) ↦ rw t (bad_input (inr (inl nowhere)))
    ]
