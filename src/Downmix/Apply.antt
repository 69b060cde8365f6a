-- ===== src/Downmix/Apply.antt =====
-- collapsarr/downmix/apply.py: comparing the temp file with the original, and the swap.
pub mod Probes
pub mod Swap
use collapsarr.Common.{
  ℕ, ◌+◌, Bool, true, false, not, Option, none, some, Str, codes, ◌++◌, ◌==◌, if◌then◌else◌,
}
use collapsarr.Common.Int.{ℤ, pos, negsuc}
use collapsarr.Common.Float.{Float, abs_difference, greater}
use collapsarr.Common.Result.{Result, ok, raise, value_error}
use collapsarr.Downmix.Files.{Files, Io, ◌>>=◌, lift, remove_if_exists, rename_file, Runner, Format}
use collapsarr.Downmix.Probe.{MediaSummary, ProbeTools, probe_media_summary}
use collapsarr.Downmix.Remux.{RemuxResult}

pub data ApplyFailureReason : Type 0 where
  duration_mismatch stream_count_mismatch : ApplyFailureReason

pub record ApplyResult : Type 0 where
  pub success : Bool
  pub applied_path : Option Str
  pub failure_reason : Option ApplyFailureReason
  pub detail : Str

-- The two summaries that are compared, and the two limits.
pub record Comparison : Type 0 where
  pub original : MediaSummary
  pub temp : MediaSummary
  pub tolerance : Float
  pub added_track_count : ℕ

unfoldable pub duration_delta : Comparison → Float
duration_delta c = abs_difference c.temp.duration_seconds c.original.duration_seconds

unfoldable pub expected_stream_count : Comparison → ℕ
expected_stream_count c = c.original.stream_count + c.added_track_count

unfoldable pub refuse : ApplyFailureReason → Str → ApplyResult
refuse reason detail = record {
  success = false;
  applied_path = none;
  failure_reason = some reason;
  detail = detail;
}

module _ (format : Format) where
  abbrev count : ℕ → Str
  count n = format.int (pos n)

  unfoldable pub duration_mismatch_detail : Comparison → Str
  unfolding duration_delta
  duration_mismatch_detail c =
      codes "duration mismatch: original "
      ++ format.fixed c.original.duration_seconds
      ++ codes "s vs remux "
      ++ format.fixed c.temp.duration_seconds
      ++ codes "s (delta "
      ++ format.fixed (duration_delta c)
      ++ codes "s exceeds tolerance "
      ++ format.fixed c.tolerance
      ++ codes "s); original left untouched, temp discarded"

  unfoldable pub stream_count_mismatch_detail : Comparison → Str
  unfolding expected_stream_count
  stream_count_mismatch_detail c =
      codes "stream-count mismatch: remux has "
      ++ count c.temp.stream_count
      ++ codes " streams, expected "
      ++ count (expected_stream_count c)
      ++ codes " (original "
      ++ count c.original.stream_count
      ++ codes " + "
      ++ count c.added_track_count
      ++ codes " added); original left untouched, temp discarded"

  unfoldable pub applied_detail : Str → Comparison → Str
  unfolding duration_delta
  applied_detail original c =
      codes "applied remux over "
      ++ format.repr original
      ++ codes ": "
      ++ count c.original.stream_count
      ++ codes "->"
      ++ count c.temp.stream_count
      ++ codes " streams, duration "
      ++ format.fixed c.original.duration_seconds
      ++ codes "s->"
      ++ format.fixed c.temp.duration_seconds
      ++ codes "s (delta "
      ++ format.fixed (duration_delta c)
      ++ codes "s within "
      ++ format.fixed c.tolerance
      ++ codes "s)"

  -- The two checks and the swap.
  unfoldable pub compare_and_swap : Str → Str → Comparison → Io ApplyResult
  unfolding duration_delta expected_stream_count duration_mismatch_detail
      stream_count_mismatch_detail applied_detail refuse remove_if_exists rename_file
  compare_and_swap original temp c files =
      if greater (duration_delta c) c.tolerance
      then (
        remove_if_exists temp files,
        ok (refuse ApplyFailureReason.duration_mismatch (duration_mismatch_detail c)),
      )
      else if not (c.temp.stream_count == expected_stream_count c)
      then (
        remove_if_exists temp files,
        ok (refuse ApplyFailureReason.stream_count_mismatch (stream_count_mismatch_detail c)),
      )
      else (
        rename_file temp original files,
        ok (record {
          success = true;
          applied_path = some original;
          failure_reason = none;
          detail = applied_detail original c;
        }),
      )

-- The two probes inside the `try`.
unfoldable pub probe_both : Runner → ProbeTools → Str → Str → Io (MediaSummary × MediaSummary)
unfolding probe_media_summary
probe_both runner tools original temp = do
  original_summary ← probe_media_summary runner tools original
  temp_summary ← probe_media_summary runner tools temp
  lift (ok (original_summary, temp_summary))

-- `except BaseException`: the temp file is removed and the exception passed on.
unfoldable pub or_discard {ℓ} : {A : Type ℓ} → Str → Files × Result A → Files × Result A
unfolding remove_if_exists
or_discard temp (files, ok a) = (files, ok a)
or_discard temp (files, raise e) = (remove_if_exists temp files, raise e)

-- The first test, with the temp path that it leaves.
unfoldable pub checked_temp : Bool → Option Str → Result Str
checked_temp true (some temp) = ok temp
checked_temp _ _ = raise value_error

unfoldable pub temp_of : RemuxResult → Result Str
unfolding checked_temp
temp_of remux_result = checked_temp remux_result.success remux_result.temp_file_path

unfoldable pub check_added : ℤ → Result ℕ
check_added (pos n) = ok n
check_added (negsuc n) = raise value_error

unfoldable pub apply_remux_result :
    Format → Runner → ProbeTools → Float → Str → RemuxResult → ℤ → Io ApplyResult
unfolding temp_of check_added or_discard probe_both compare_and_swap
apply_remux_result format runner tools tolerance original remux_result added_track_count = do
  temp ← lift (temp_of remux_result)
  added ← lift (check_added added_track_count)
  summaries ← λ files. or_discard temp (probe_both runner tools original temp files)
  compare_and_swap format original temp (record {
    original = summaries.0;
    temp = summaries.1;
    tolerance = tolerance;
    added_track_count = added;
  })
