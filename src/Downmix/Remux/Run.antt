-- ===== src/Downmix/Remux/Run.antt =====
-- collapsarr/downmix/remux.py: running the remux on a temp file beside the original.
use collapsarr.Common.{zero, true, false, none, some, List, Str, codes, ◌++◌}
use collapsarr.Common.Int.{ℤ, pos, negsuc}
use collapsarr.Common.Result.{Result, ok, raise, file_not_found, timeout_expired}
use collapsarr.Downmix.Files.{
  Files, Io, ◌>>=◌, lift, remove_if_exists, write_file, Ran, completed, raised, Runner, Format,
}
use collapsarr.Downmix.Stream.{AudioStreamInfo}
use collapsarr.Downmix.Targets.{DownmixSettings, QualifyingTarget}
use collapsarr.Downmix.Remux.{RemuxResult, Tools, build_remux_command}

-- A result whose temp file is already removed.
unfoldable pub failed_remux : ℤ → Str → RemuxResult
failed_remux returncode stderr = record {
  success = false;
  temp_file_path = none;
  returncode = returncode;
  stderr = stderr;
}

unfoldable pub remuxed : Str → Str → RemuxResult
remuxed temp_path stderr = record {
  success = true;
  temp_file_path = some temp_path;
  returncode = pos 0;
  stderr = stderr;
}

unfoldable pub missing_message : Format → Tools → Str
missing_message format tools =
    codes "ffmpeg executable not found: " ++ format.repr tools.ffmpeg_path

unfoldable pub timeout_message : Format → Tools → Str → Str
timeout_message format tools path =
    codes "ffmpeg timed out after "
    ++ format.float tools.timeout
    ++ codes "s remuxing "
    ++ format.repr path

-- The steps behind the subprocess: the handlers, and the tests of its return code.
unfoldable pub finish_remux : Format → Tools → Str → Str → Files × Ran → Files × Result RemuxResult
unfolding remove_if_exists failed_remux remuxed missing_message timeout_message
finish_remux format tools path temp (files, raised file_not_found) =
    (remove_if_exists temp files, ok (failed_remux (negsuc 0) (missing_message format tools)))
finish_remux format tools path temp (files, raised timeout_expired) =
    (remove_if_exists temp files, ok (failed_remux (negsuc 0) (timeout_message format tools path)))
finish_remux format tools path temp (files, raised e) = (files, raise e)
finish_remux format tools path temp (files, completed (pos zero) stdout stderr) =
    (files, ok (remuxed temp stderr))
finish_remux format tools path temp (files, completed returncode stdout stderr) =
    (remove_if_exists temp files, ok (failed_remux returncode stderr))

-- `tempfile.mkstemp` beside a path: it names a new file and creates it empty.
abbrev pub Mkstemp : Type 0
Mkstemp = Str → Files → Result Str

unfoldable pub created : Files → Result Str → Files × Result Str
unfolding write_file
created files (ok temp) = (write_file temp 0 files, ok temp)
created files (raise e) = (files, raise e)

unfoldable pub reserve : Mkstemp → Str → Io Str
unfolding created
reserve mkstemp path files = created files (mkstemp path files)

unfoldable pub run_remux :
    Format
    → Mkstemp
    → Runner
    → Tools
    → Str
    → List AudioStreamInfo
    → List QualifyingTarget
    → DownmixSettings
    → Io RemuxResult
unfolding build_remux_command reserve finish_remux
run_remux format mkstemp runner tools path streams targets settings = do
  _ ← lift (build_remux_command format tools path path streams targets settings)
  temp ← reserve mkstemp path
  command ← lift (build_remux_command format tools path temp streams targets settings)
  λ files. finish_remux format tools path temp (runner command tools.timeout files)
