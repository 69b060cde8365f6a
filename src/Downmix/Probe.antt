-- ===== src/Downmix/Probe.antt =====
-- collapsarr/downmix/probe.py: running ffprobe and reading its JSON.
pub mod Errors
pub mod Normal
use collapsarr.Common.{
  ℕ, zero, ◌*◌, ◌-◌, ◌++◌, Bool, true, false, not, Option, none, some, List, [], ◌∷◌, Str, codes,
  str_eq, strip, ltb, ◌==◌, if◌then◌else◌, suc,
}
use Prim.Native.Nat.{◌^◌}
use collapsarr.Common.Int.{pos}
use collapsarr.Common.Float.{Float, finite}
use collapsarr.Common.Json.{
  Json, null, boolean, integer, real, text, array, object, Items, nil, cons, Fields, end, get,
}
use collapsarr.Common.Result.{
  Result, ok, raise, value_error, type_error, json_decode_error, overflow_error, ffprobe_error,
  file_not_found, timeout_expired,
}
use collapsarr.Downmix.Files.{Io, ◌>>=◌, lift, Ran, completed, raised, Runner, Format}
use collapsarr.Downmix.Stream.{AudioStreamInfo}

pub record MediaSummary : Type 0 where
  pub duration_seconds : Float
  pub stream_count : ℕ

-- `isinstance(value, int)`, which a Boolean passes.
unfoldable pub as_int : Json → Option ℕ
as_int (integer n) = some n
as_int (boolean b) = some (if b then 1 else 0)
as_int _ = none

-- `bool(value)`
unfoldable pub is_truthy : Json → Bool
is_truthy null = false
is_truthy (boolean b) = b
is_truthy (integer n) = not (n == 0)
is_truthy (real (finite (pos zero))) = false
is_truthy (real _) = true
is_truthy (text []) = false
is_truthy (array nil) = false
is_truthy (object end) = false
is_truthy _ = true

unfoldable pub normalize_is_default : Json → Bool
unfolding get is_truthy
normalize_is_default (object disposition) = is_truthy (get (codes "default") disposition)
normalize_is_default _ = false

unfoldable pub is_audio : Json → Bool
is_audio (text codec_type) = str_eq codec_type (codes "audio")
is_audio _ = false

-- `json.loads`, which raises JSONDecodeError, or another ValueError or RecursionError, and `float` of a
-- text, with none for ValueError.
pub record Parsers : Type 0 where
  pub loads : Str → Result Json
  pub float_of_text : Str → Option Float

-- The integers from here on round to 2 ^ 1024, which is no double.
unfoldable pub float_limit : ℕ
float_limit = 2 ^ 1024 - 2 ^ 970

unfoldable pub parsed_float : Option Float → Result Float
parsed_float none = raise value_error
parsed_float (some x) = ok x

-- `float(value)`
unfoldable pub as_float : Parsers → Json → Result Float
unfolding float_limit parsed_float
as_float parsers (text s) = parsed_float (parsers.float_of_text s)
as_float parsers (integer n) =
    if ltb n float_limit then ok (finite (pos (n * 1000000))) else raise overflow_error
as_float parsers (boolean b) = ok (finite (pos (if b then 1000000 else 0)))
as_float parsers (real x) = ok x
as_float parsers _ = raise type_error

unfoldable pub keep : Option AudioStreamInfo → List AudioStreamInfo → List AudioStreamInfo
keep none rest = rest
keep (some x) rest = x ∷ rest

module _ (format : Format) where
  unfoldable pub tag_or_unknown : Str → Str
  tag_or_unknown [] = codes "unknown"
  tag_or_unknown (c ∷ cs) =
      if str_eq (format.lower (c ∷ cs)) (codes "und")
      then codes "unknown"
      else format.lower (c ∷ cs)

  unfoldable pub language_of : Json → Str
  unfolding tag_or_unknown
  language_of (text raw) = tag_or_unknown (strip raw)
  language_of _ = codes "unknown"

  unfoldable pub normalize_language : Json → Str
  unfolding language_of get
  normalize_language (object tags) = language_of (get (codes "language") tags)
  normalize_language _ = codes "unknown"

  -- `f"{channels}ch"`, where a Boolean renders as one.
  unfoldable pub channels_ch : Json → Str
  channels_ch (integer n) = format.int (pos n) ++ codes "ch"
  channels_ch (boolean true) = codes "Truech"
  channels_ch _ = codes "Falsech"

  unfoldable pub normalize_channel_layout : Json → Json → Str
  unfolding channels_ch
  normalize_channel_layout (text []) channels = channels_ch channels
  normalize_channel_layout (text (c ∷ cs)) channels =
      if str_eq (c ∷ cs) (codes "unknown") then channels_ch channels else c ∷ cs
  normalize_channel_layout _ channels = channels_ch channels

  -- The stream that the three checked fields give, at the other fields of `stream`.
  unfoldable pub checked_stream : Fields → Option ℕ → Json → Option ℕ → Option AudioStreamInfo
  unfolding normalize_channel_layout normalize_language normalize_is_default get
  checked_stream stream (some index) (text codec) (some channels) = some (record {
    index = index;
    codec = codec;
    channels = channels;
    channel_layout =
        normalize_channel_layout (get (codes "channel_layout") stream)
          (get (codes "channels") stream);
    language = normalize_language (get (codes "tags") stream);
    is_default = normalize_is_default (get (codes "disposition") stream);
  })
  checked_stream _ _ _ _ = none

  -- One turn of the loop: none where it continues without a stream.
  unfoldable pub parse_stream : Json → Option AudioStreamInfo
  unfolding is_audio get as_int checked_stream
  parse_stream (object stream) =
      if is_audio (get (codes "codec_type") stream)
      then checked_stream stream (as_int (get (codes "index") stream))
          (get (codes "codec_name") stream) (as_int (get (codes "channels") stream))
      else none
  parse_stream _ = none

  unfoldable pub parse_items : Items → List AudioStreamInfo
  unfolding parse_stream keep
  parse_items nil = []
  parse_items (cons item items) = keep (parse_stream item) (parse_items items)

  unfoldable pub streams_of : Json → List AudioStreamInfo
  unfolding parse_items
  streams_of (array items) = parse_items items
  streams_of _ = []

  unfoldable pub parse_audio_streams : Json → List AudioStreamInfo
  unfolding streams_of get
  parse_audio_streams (object payload) = streams_of (get (codes "streams") payload)
  parse_audio_streams _ = []

unfoldable pub count_items : Items → ℕ
count_items nil = 0
count_items (cons item items) = suc (count_items items)

-- `fmt.get("duration") if isinstance(fmt, dict) else None`
unfoldable pub raw_duration : Json → Json
unfolding get
raw_duration (object fmt) = get (codes "duration") fmt
raw_duration _ = null

-- The two exceptions that are caught around `float`.
unfoldable pub caught : Result Float → Result Float
caught (raise type_error) = raise ffprobe_error
caught (raise value_error) = raise ffprobe_error
caught answer = answer

unfoldable pub summary_with : ℕ → Result Float → Result MediaSummary
summary_with stream_count (ok duration) =
    ok (record { duration_seconds = duration; stream_count = stream_count })
summary_with stream_count (raise e) = raise e

-- The streams are tested before the duration is read.
unfoldable pub summary_of : Parsers → Json → Json → Result MediaSummary
unfolding count_items as_float caught summary_with
summary_of parsers duration (array streams) =
    summary_with (count_items streams) (caught (as_float parsers duration))
summary_of parsers duration _ = raise ffprobe_error

unfoldable pub parse_media_summary : Parsers → Json → Result MediaSummary
unfolding get raw_duration summary_of
parse_media_summary parsers (object payload) =
    summary_of parsers (raw_duration (get (codes "format") payload)) (get (codes "streams") payload)
parse_media_summary parsers _ = raise ffprobe_error

-- What of the keyword arguments the two probes share.
pub record ProbeTools : Type 0 where
  pub ffprobe_path : Str
  pub timeout : ℕ
  pub parsers : Parsers

-- `except json.JSONDecodeError`
unfoldable pub loaded : Result Json → Result Json
loaded (raise json_decode_error) = raise ffprobe_error
loaded answer = answer

-- The steps behind the subprocess. FfprobeNotFoundError is an FfprobeError.
unfoldable pub ffprobe_json : Parsers → Ran → Result Json
unfolding loaded
ffprobe_json parsers (raised file_not_found) = raise ffprobe_error
ffprobe_json parsers (raised timeout_expired) = raise ffprobe_error
ffprobe_json parsers (raised e) = raise e
ffprobe_json parsers (completed (pos zero) stdout stderr) = loaded (parsers.loads stdout)
ffprobe_json parsers (completed _ stdout stderr) = raise ffprobe_error

unfoldable pub run_ffprobe_json : Runner → ProbeTools → List Str → Io Json
unfolding ffprobe_json
run_ffprobe_json runner tools command files =
    let ran = runner command tools.timeout files in (ran.0, ffprobe_json tools.parsers ran.1)

unfoldable pub probe_audio_streams : Format → Runner → ProbeTools → Str → Io (List AudioStreamInfo)
unfolding run_ffprobe_json parse_audio_streams
probe_audio_streams format runner tools file_path = do
  payload ← run_ffprobe_json runner tools (
      tools.ffprobe_path
      ∷ codes "-v"
      ∷ codes "quiet"
      ∷ codes "-print_format"
      ∷ codes "json"
      ∷ codes "-show_streams"
      ∷ codes "-select_streams"
      ∷ codes "a"
      ∷ file_path
      ∷ [])
  lift (ok (parse_audio_streams format payload))

unfoldable pub probe_media_summary : Runner → ProbeTools → Str → Io MediaSummary
unfolding run_ffprobe_json parse_media_summary
probe_media_summary runner tools file_path = do
  payload ← run_ffprobe_json runner tools (
      tools.ffprobe_path
      ∷ codes "-v"
      ∷ codes "quiet"
      ∷ codes "-print_format"
      ∷ codes "json"
      ∷ codes "-show_format"
      ∷ codes "-show_streams"
      ∷ file_path
      ∷ [])
  lift (parse_media_summary tools.parsers payload)
