-- ===== src/Downmix/Probe/Errors.antt =====
-- The exceptions of the probes, and of a stage in general.
use collapsarr.Common.{
  ℕ, zero, suc, ◌≡◌, ◌≢◌, ◌⊎◌, inl, inr, refl, false, ltb, Bool-cases, Option, none, some, List,
  Str, codes, arith,
}
use collapsarr.Common.Int.{pos, negsuc}
use collapsarr.Common.Float.{Float}
use collapsarr.Common.Json.{Json, null, boolean, integer, real, text, array, object, Fields, get}
use collapsarr.Common.Result.{
  Exception, Result, ok, raise, json_decode_error, overflow_error, ffprobe_error, file_not_found,
  timeout_expired,
}
use collapsarr.Downmix.Files.{Files, Io, after_io, Ran, completed, raised, Runner, Format}
use collapsarr.Downmix.Probe.{
  ProbeTools, Parsers, loaded, ffprobe_json, run_ffprobe_json, float_limit, parsed_float, as_float,
  caught, summary_with, raw_duration, summary_of, parse_media_summary, probe_media_summary,
  probe_audio_streams,
}

-- A stage returns a value that satisfies `P`, or raises an exception that satisfies `Q`.
abbrev pub Ends : {A : Type 0} → (A → Type 0) → (Exception → Type 0) → Result A → Type 0
Ends P Q (ok a) = P a
Ends P Q (raise e) = Q e

abbrev pub Any : {A : Type 0} → A → Type 0
Any a = Unit

pub after_io-Ends :
    {A B : Type 0} (P : A → Type 0) (R : B → Type 0) (Q : Exception → Type 0) (m : Files × Result A)
    (f : A → Io B)
    → Ends P Q m.1
    → ((a : A) (files : Files) → P a → Ends R Q (f a files).1)
    → Ends R Q (after_io m f).1
unfolding after_io
after_io-Ends P R Q (files, ok a) f h k = k a files h
after_io-Ends P R Q (files, raise e) f h k = h

-- The exceptions that the handlers around a subprocess name.
abbrev pub IsHandled : Exception → Type 0
IsHandled e = (e ≡ file_not_found) ⊎ (e ≡ timeout_expired)

-- A subprocess call raises only FileNotFoundError and TimeoutExpired.
abbrev pub RaisesHandled : Runner → Type 0
RaisesHandled runner =
    (command : List Str) (timeout : ℕ) (files : Files) (e : Exception)
    → (runner command timeout files).1 ≡ raised e
    → IsHandled e

abbrev pub IsFfprobe : Exception → Type 0
IsFfprobe e = e ≡ ffprobe_error

-- `json.loads` read it from a text.
abbrev pub IsLoaded : Parsers → Json → Type 0
IsLoaded parsers payload = (stdout : Str) × (parsers.loads stdout ≡ ok payload)

-- The exceptions that no handler around a probe names: those of `json.loads` but JSONDecodeError, and
-- the OverflowError of a loaded container duration that is an integer beyond the doubles.
pub data Escapes (parsers : Parsers) : Exception → Type 0 where
  unreadable :
      (stdout : Str) (e : Exception)
      → parsers.loads stdout ≡ raise e
      → e ≢ json_decode_error
      → Escapes parsers e
  too_large :
      (fields : Fields) (n : ℕ)
      → IsLoaded parsers (object fields)
      → raw_duration (get (codes "format") fields) ≡ integer n
      → ltb n float_limit ≡ false
      → Escapes parsers overflow_error

abbrev pub IsProbes : Parsers → Exception → Type 0
IsProbes parsers e = IsFfprobe e ⊎ Escapes parsers e

module _ (parsers : Parsers) where
  loaded-Ends :
      (stdout : Str) (answer : Result Json)
      → parsers.loads stdout ≡ answer
      → Ends (IsLoaded parsers) (IsProbes parsers) (loaded answer)
  unfolding loaded
  loaded-Ends stdout (ok payload) e = (stdout, e)
  loaded-Ends stdout (raise json_decode_error) e = inl refl
  loaded-Ends stdout (raise _) e = inr (unreadable stdout _ e (λ h. ground arith))

  ffprobe_json-Ends :
      (ran : Ran)
      → ((e : Exception) → ran ≡ raised e → IsHandled e)
      → Ends (IsLoaded parsers) (IsProbes parsers) (ffprobe_json parsers ran)
  unfolding ffprobe_json
  ffprobe_json-Ends (completed (pos zero) out err) h = loaded-Ends out _ refl
  ffprobe_json-Ends (completed (pos (suc n)) out err) h = inl refl
  ffprobe_json-Ends (completed (negsuc n) out err) h = inl refl
  ffprobe_json-Ends (raised file_not_found) h = inl refl
  ffprobe_json-Ends (raised timeout_expired) h = inl refl
  ffprobe_json-Ends (raised _) h = absurd (ground (arith, h _ refl))

  parsed_float-Ends : (x : Option Float) → Ends Any (IsProbes parsers) (caught (parsed_float x))
  unfolding caught parsed_float
  parsed_float-Ends none = inl refl
  parsed_float-Ends (some x) = tt

  -- The duration is a float, or is refused, or is too large an integer.
  caught-Ends :
      (duration : Json)
      → ((n : ℕ)
          → duration ≡ integer n
          → ltb n float_limit ≡ false
          → Escapes parsers overflow_error)
      → Ends Any (IsProbes parsers) (caught (as_float parsers duration))
  unfolding caught as_float
  caught-Ends (text s) large = parsed_float-Ends (parsers.float_of_text s)
  caught-Ends (integer n) large = elim (Bool-cases (ltb n float_limit)) [
    | inl fits ↦ rw fits tt
    | inr beyond ↦ rw beyond (inr (large n refl beyond))
  ]
  caught-Ends (boolean b) large = tt
  caught-Ends (real x) large = tt
  caught-Ends null large = inl refl
  caught-Ends (array items) large = inl refl
  caught-Ends (object fields) large = inl refl

  summary_with-Ends :
      (n : ℕ) (duration : Result Float)
      → Ends Any (IsProbes parsers) duration
      → Ends Any (IsProbes parsers) (summary_with n duration)
  unfolding summary_with
  summary_with-Ends n (ok x) h = tt
  summary_with-Ends n (raise e) h = h

  summary_of-Ends :
      (duration streams : Json)
      → ((n : ℕ)
          → duration ≡ integer n
          → ltb n float_limit ≡ false
          → Escapes parsers overflow_error)
      → Ends Any (IsProbes parsers) (summary_of parsers duration streams)
  unfolding summary_of
  summary_of-Ends duration (array items) large = summary_with-Ends _ _ (caught-Ends duration large)
  summary_of-Ends duration _ large = inl refl

  parse_media_summary-Ends :
      (payload : Json)
      → IsLoaded parsers payload
      → Ends Any (IsProbes parsers) (parse_media_summary parsers payload)
  unfolding parse_media_summary
  parse_media_summary-Ends (object fields) h =
      summary_of-Ends _ _ (λ n e beyond. too_large fields n h e beyond)
  parse_media_summary-Ends _ h = inl refl

module _ (runner : Runner) (handled : RaisesHandled runner) (tools : ProbeTools) where
  run_ffprobe_json-Ends :
      (command : List Str) (files : Files)
      → Ends
          (IsLoaded tools.parsers)
          (IsProbes tools.parsers)
          (run_ffprobe_json runner tools command files).1
  unfolding run_ffprobe_json
  run_ffprobe_json-Ends command files =
      ffprobe_json-Ends tools.parsers _ (handled command tools.timeout files)

  pub probe_audio_streams-Ends :
      (format : Format) (path : Str) (files : Files)
      → Ends Any (IsProbes tools.parsers) (probe_audio_streams format runner tools path files).1
  unfolding probe_audio_streams
  probe_audio_streams-Ends format path files =
      after_io-Ends (IsLoaded tools.parsers) Any (IsProbes tools.parsers) _ _
        (run_ffprobe_json-Ends _ files) (λ payload disk h. tt)

  pub probe_media_summary-Ends :
      (path : Str) (files : Files)
      → Ends Any (IsProbes tools.parsers) (probe_media_summary runner tools path files).1
  unfolding probe_media_summary
  probe_media_summary-Ends path files =
      after_io-Ends (IsLoaded tools.parsers) Any (IsProbes tools.parsers) _ _
        (run_ffprobe_json-Ends _ files)
        (λ payload disk h. parse_media_summary-Ends tools.parsers payload h)
