-- ===== src/Downmix/Tests/Stages.antt =====
-- A disk with one film, a fake ffprobe and ffmpeg, and the theorems of the stages at this input.
use collapsarr.Common.{
  All, ◌≢◌, ℕ, ◌+◌, zero, suc, ◌≡◌, refl, subst, true, Option, none, some, List, [], ◌∷◌, ◌++◌, Str,
  codes, str_eq, str_lt, strip, lower_ascii, lower_ascii-lower_ascii, lower_ascii-empty,
  if◌then◌else◌, arith,
}
use collapsarr.Common.Int.{ℤ, pos, negsuc}
use collapsarr.Common.Float.{finite, greater, abs_difference}
use collapsarr.Common.Json.{Json, null, integer, text, array, object, Items, nil, cons, end, field}
use collapsarr.Common.Result.{Result, ok, raise, json_decode_error, other_error, file_not_found}
use collapsarr.Downmix.Files.{Files, after_io, write_file, completed, raised, Runner, Format}
use collapsarr.Downmix.Files.Disk.{write-SameBut}
use collapsarr.Downmix.Targets.{default_settings, detect_qualifying_targets}
use collapsarr.Downmix.DefaultAudio.{
  resolve_default_audio_output_index, refs, is_exact, resolve_default_audio_stream,
  final_audio_layout,
}
use collapsarr.Downmix.Probe.{parse_audio_streams, ProbeTools, Parsers}
use collapsarr.Downmix.Remux.{RemuxResult, Tools, resolve_sources, build_remux_command}
use collapsarr.Downmix.Remux.Sources.{Downmixes, resolve_sources-detect}
use collapsarr.Downmix.Remux.Command.{Built, build_remux_command-Built}
use collapsarr.Downmix.Remux.Run.{Mkstemp, run_remux}
use collapsarr.Downmix.Remux.Safety.{IsFresh, WritesLast, RemuxEnd, run_remux-RemuxEnd}
use collapsarr.Downmix.Apply.Probes.{ReadsOnly}
use collapsarr.Downmix.Pipeline.{
  Options, World, default_audio_index, PipelineResult, run_downmix_pipeline,
}
use collapsarr.Downmix.DefaultPipeline.{decide, run_default_audio_pipeline}
use collapsarr.Downmix.DefaultPipeline.Safety.{
  IsLeft, IsDecided, run_default_audio_pipeline-PipelineEnd,
}
use collapsarr.Downmix.DefaultPipeline.Agrees.{index_to_set, decide-resolve}
use collapsarr.Downmix.Pipeline.Ends.{PipelineEnd}
use collapsarr.Downmix.Pipeline.Safety.{End, run_downmix_pipeline-PipelineEnd}
use collapsarr.Downmix.Probe.Normal.{Lowers, IsNormal, parse_audio_streams-IsNormal}
use collapsarr.Downmix.Pipeline.Accepted.{Builds, detected-Builds}
use collapsarr.Downmix.Tests.{surround, english_stereo, prefer}

abbrev digit : ℤ → Str
digit (pos n) = (48 + n) ∷ []
digit (negsuc n) = codes "-"

abbrev plain : Format
plain = record {
  repr = λ s. s;
  int = digit;
  float = λ n. n ∷ [];
  fixed = λ x. [];
  message = λ e. [];
  lower = lower_ascii;
}

abbrev film : Str
film = codes "film.mkv"

abbrev spare : Str
spare = codes ".film.tmp.mkv"

abbrev disk : Files
disk p = if str_eq film p then some 1 else none

abbrev remuxed_disk : Files
remuxed_disk = write_file spare 7 disk

abbrev spare_if_free : Option ℕ → Result Str
spare_if_free none = ok spare
spare_if_free (some content) = raise other_error

abbrev one_name : Mkstemp
one_name path files = spare_if_free (files spare)

spare_if_free-ok :
    (files : Files) (temp : Str) (found : Option ℕ)
    → files spare ≡ found
    → spare_if_free found ≡ ok temp
    → files temp ≡ none
spare_if_free-ok files temp none f e = subst (λ t. files t ≡ none) (ground arith) f
spare_if_free-ok files temp (some content) f e = ground arith

one_name-IsFresh : IsFresh one_name
one_name-IsFresh path files temp e = spare_if_free-ok files temp _ refl e

abbrev last : Str → List Str → Str
last s [] = s
last s (t ∷ ts) = last t ts

last-append : (s : Str) (rest : List Str) (temp : Str) → last s (rest ++ temp ∷ []) ≡ temp
last-append s [] temp = refl
last-append s (t ∷ ts) temp = last-append t ts temp

abbrev contents : Option ℕ → Str
contents none = []
contents (some n) = n ∷ []

-- ffprobe prints the content of a file, and ffmpeg writes the content 7.
abbrev fake : Runner
fake [] timeout files = (files, raised file_not_found)
fake (s ∷ ss) timeout files =
    if str_eq s (codes "ffprobe")
    then (files, completed (pos 0) (contents (files (last s ss))) [])
    else (write_file (last s ss) 7 files, completed (pos 0) [] [])

fake-WritesLast : WritesLast fake (codes "ffmpeg")
unfolding str_eq
fake-WritesLast rest temp timeout files =
    λ p other. rw (last-append (codes "ffmpeg") rest temp) (write-SameBut temp 7 files p other)

fake-ReadsOnly : ReadsOnly fake (codes "ffprobe")
unfolding str_eq
fake-ReadsOnly rest timeout files p = refl

abbrev audio : Json
audio = object (
    field (codes "codec_type") (text (codes "audio")) (
      field (codes "index") (integer 1) (
        field (codes "codec_name") (text (codes "ac3")) (
          field (codes "channels") (integer 8) (
            field (codes "tags") (object (field (codes "language") (text (codes "ENG ")) end))
              end)))))

abbrev payload : Items → Json
payload items = object (
    field (codes "streams") (array items)
      (field (codes "format") (object (field (codes "duration") (text (codes "60")) end)) end))

-- The content 1 has one stream, and the content 7 has one more.
abbrev load : Str → Result Json
load (suc zero ∷ []) = ok (payload (cons audio nil))
load (n ∷ []) = ok (payload (cons null (cons audio nil)))
load s = raise json_decode_error

abbrev parsers : Parsers
parsers = record { loads = load; float_of_text = λ s. some (finite (pos 60000000)) }

abbrev tools : ProbeTools
tools = record { ffprobe_path = codes "ffprobe"; timeout = 30000000; parsers = parsers }

abbrev world : World
world = record { format = plain; parsers = parsers; mkstemp = one_name; runner = fake }

abbrev options : Options
options = record {
  ffprobe_path = codes "ffprobe";
  ffmpeg_path = codes "ffmpeg";
  probe_timeout = 30000000;
  remux_timeout = 3600000000;
  duration_tolerance_seconds = finite (pos 500000);
  default_audio_preference = some prefer;
  auto_set_default_audio = true;
}

abbrev ended : Files × Result PipelineResult
ended = run_downmix_pipeline world options film default_settings disk

pipeline_replaces_film : (ended.0 film ≡ some 7) × (ended.0 spare ≡ none)
unfolding run_downmix_pipeline str_eq str_lt strip lower_ascii after_io resolve_default_audio_stream
    refs final_audio_layout is_exact greater abs_difference
pipeline_replaces_film = (refl, refl)

abbrev remux_tools : Tools
remux_tools = record {
  ffmpeg_path = codes "ffmpeg";
  timeout = 3600000000;
  default_audio_index = some (pos 1);
}

abbrev made : RemuxResult
made = record { success = true; temp_file_path = some spare; returncode = pos 0; stderr = [] }

resolve_sources-detect_example :
    Downmixes
      (surround ∷ [])
      (detect_qualifying_targets (surround ∷ []) default_settings)
      (resolve_sources (surround ∷ []) (detect_qualifying_targets (surround ∷ []) default_settings))
resolve_sources-detect_example = resolve_sources-detect (surround ∷ []) default_settings

build_remux_command-Built_example :
    Built plain film (surround ∷ []) (english_stereo ∷ []) remux_tools (λ temp.
      build_remux_command plain remux_tools film temp
        (surround ∷ [])
        (english_stereo ∷ [])
        default_settings)
build_remux_command-Built_example =
    build_remux_command-Built plain remux_tools film (surround ∷ []) (english_stereo ∷ [])
      default_settings

run_remux-RemuxEnd_example :
    RemuxEnd plain one_name fake remux_tools film
      (surround ∷ [])
      (english_stereo ∷ [])
      default_settings
      disk
      (run_remux plain one_name fake remux_tools film
        (surround ∷ [])
        (english_stereo ∷ [])
        default_settings
        disk)
run_remux-RemuxEnd_example =
    run_remux-RemuxEnd plain one_name fake remux_tools film (surround ∷ []) (english_stereo ∷ [])
      default_settings one_name-IsFresh fake-WritesLast disk

run_downmix_pipeline-PipelineEnd_example : End world options film default_settings disk disk ended
run_downmix_pipeline-PipelineEnd_example =
    run_downmix_pipeline-PipelineEnd world options film default_settings disk fake-ReadsOnly
      one_name-IsFresh fake-WritesLast

detects_one : detect_qualifying_targets (surround ∷ []) default_settings ≡ english_stereo ∷ []
unfolding detect_qualifying_targets str_eq str_lt
detects_one = refl

detects_some : detect_qualifying_targets (surround ∷ []) default_settings ≢ []
detects_some none_found = ground (arith, detects_one)

detected-Builds_example :
    (index : Option ℕ) × (default_audio_index world options film
        (surround ∷ [])
        (detect_qualifying_targets (surround ∷ []) default_settings)
      ≡ ok index)
    × Builds world options film (surround ∷ []) default_settings index
detected-Builds_example =
    detected-Builds world options film (surround ∷ []) default_settings detects_some

abbrev spare_world : World
spare_world = record world { mkstemp = λ path files. ok spare }

plain-Lowers : Lowers plain.lower
unfolding lower_ascii
plain-Lowers = record {
  stable = lower_ascii-lower_ascii;
  keeps = λ s n e. n (lower_ascii-empty s e);
  unknown = refl;
}

parse_audio_streams-IsNormal_example :
    All (IsNormal plain) (parse_audio_streams plain (payload (cons null (cons audio nil))))
parse_audio_streams-IsNormal_example =
    parse_audio_streams-IsNormal plain plain-Lowers (payload (cons null (cons audio nil)))

decide-resolve_example :
    index_to_set (decide (surround ∷ record surround { is_default = true } ∷ []) prefer)
    ≡ resolve_default_audio_output_index
        (surround ∷ record surround { is_default = true } ∷ [])
        []
        prefer
decide-resolve_example =
    decide-resolve (surround ∷ record surround { is_default = true } ∷ []) prefer

run_default_audio_pipeline-PipelineEnd_example :
    PipelineEnd world options film default_settings
      (IsLeft world options film prefer disk)
      (IsDecided world options film prefer disk)
      disk
      (run_default_audio_pipeline world options film prefer disk)
run_default_audio_pipeline-PipelineEnd_example =
    run_default_audio_pipeline-PipelineEnd world options film prefer disk one_name-IsFresh
      fake-WritesLast fake-ReadsOnly
