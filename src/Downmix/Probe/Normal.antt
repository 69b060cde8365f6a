-- ===== src/Downmix/Probe/Normal.antt =====
-- What every stream that the probe returns satisfies.
use collapsarr.Common.{
  ℕ, ◌≡◌, ◌≢◌, true, false, Bool-cases, inl, inr, Option, none, some, List, [], ◌∷◌, ◌++◌, Str,
  codes, str_eq, str_eq_iff, All, arith, strip,
}
use collapsarr.Common.Json.{
  Json, boolean, integer, text, array, object, Items, nil, cons, Fields, get,
}
use collapsarr.Downmix.Files.{Format}
use collapsarr.Downmix.Stream.{AudioStreamInfo}
use collapsarr.Downmix.Probe.{
  tag_or_unknown, language_of, normalize_language, channels_ch, normalize_channel_layout,
  checked_stream, parse_stream, keep, parse_items, streams_of, parse_audio_streams, is_audio,
}

-- What Python documents of `str.lower`: the text it returns is in lower case, which it is on a text
-- of lowercase ASCII letters already, and it drops no text.
pub record Lowers (lower : Str → Str) : Type 0 where
  pub stable : (s : Str) → lower (lower s) ≡ lower s
  pub keeps : (s : Str) → s ≢ [] → lower s ≢ []
  pub unknown : lower (codes "unknown") ≡ codes "unknown"

module _ (format : Format) where
  -- A lowercase language tag that is there and not the "undetermined" one.
  pub record IsTag (language : Str) : Type 0 where
    pub present : language ≢ []
    pub determined : language ≢ codes "und"
    pub lowercase : format.lower language ≡ language

  pub record IsNormal (x : AudioStreamInfo) : Type 0 where
    pub tagged : IsTag x.language
    pub laid_out : x.channel_layout ≢ []

  module _ (lowers : Lowers format.lower) where
    unknown-IsTag : IsTag (codes "unknown")
    unknown-IsTag = record {
      present = λ e. ground arith;
      determined = λ e. ground arith;
      lowercase = lowers.unknown;
    }

    tag_or_unknown-IsTag : (s : Str) → IsTag (tag_or_unknown format s)
    unfolding tag_or_unknown
    tag_or_unknown-IsTag [] = unknown-IsTag
    tag_or_unknown-IsTag (c ∷ s) = elim (Bool-cases (str_eq (format.lower (c ∷ s)) (codes "und"))) [
      | inl und ↦ rw und unknown-IsTag
      | inr other ↦ rw other (record {
        present = lowers.keeps (c ∷ s) (λ e. ground arith);
        determined = λ e. ground (arith, str_eq_iff (format.lower (c ∷ s)) (codes "und"));
        lowercase = lowers.stable (c ∷ s);
      })
    ]

    language_of-IsTag : (j : Json) → IsTag (language_of format j)
    unfolding language_of
    language_of-IsTag (text raw) = tag_or_unknown-IsTag (strip raw)
    language_of-IsTag _ = unknown-IsTag

    normalize_language-IsTag : (j : Json) → IsTag (normalize_language format j)
    unfolding normalize_language
    normalize_language-IsTag (object tags) = language_of-IsTag (get (codes "language") tags)
    normalize_language-IsTag _ = unknown-IsTag

append-nonempty : (s t : Str) → t ≢ [] → s ++ t ≢ []
append-nonempty [] t h e = h e
append-nonempty (c ∷ s) t h e = ground arith

module _ (format : Format) (lowers : Lowers format.lower) where
  channels_ch-nonempty : (j : Json) → channels_ch format j ≢ []
  unfolding channels_ch
  channels_ch-nonempty (integer n) = append-nonempty _ (codes "ch") (λ e. ground arith)
  channels_ch-nonempty (boolean true) = λ e. ground arith
  channels_ch-nonempty (boolean false) = λ e. ground arith
  channels_ch-nonempty _ = λ e. ground arith

  layout-nonempty : (j channels : Json) → normalize_channel_layout format j channels ≢ []
  unfolding normalize_channel_layout
  layout-nonempty (text []) channels = channels_ch-nonempty channels
  layout-nonempty (text (c ∷ s)) channels = elim (Bool-cases (str_eq (c ∷ s) (codes "unknown"))) [
    | inl unknown ↦ rw unknown (channels_ch-nonempty channels)
    | inr named ↦ rw named (λ e. ground arith)
  ]
  layout-nonempty _ channels = channels_ch-nonempty channels

  abbrev IsNormalIfSome : Option AudioStreamInfo → Type 0
  IsNormalIfSome none = Unit
  IsNormalIfSome (some x) = IsNormal format x

  checked_stream-IsNormal :
      (stream : Fields) (index : Option ℕ) (codec : Json) (channels : Option ℕ)
      → IsNormalIfSome (checked_stream format stream index codec channels)
  unfolding checked_stream
  checked_stream-IsNormal stream (some index) (text codec) (some channels) = record {
    tagged = normalize_language-IsTag format lowers (get (codes "tags") stream);
    laid_out =
        layout-nonempty (get (codes "channel_layout") stream) (get (codes "channels") stream);
  }
  checked_stream-IsNormal stream _ _ _ = tt

  parse_stream-IsNormal : (j : Json) → IsNormalIfSome (parse_stream format j)
  unfolding parse_stream
  parse_stream-IsNormal (object stream) =
      elim (Bool-cases (is_audio (get (codes "codec_type") stream))) [
        | inl audio ↦ rw audio (checked_stream-IsNormal stream _ _ _)
        | inr other ↦ rw other tt
      ]
  parse_stream-IsNormal _ = tt

  keep-IsNormal :
      (x : Option AudioStreamInfo) (rest : List AudioStreamInfo)
      → IsNormalIfSome x
      → All (IsNormal format) rest
      → All (IsNormal format) (keep x rest)
  unfolding keep
  keep-IsNormal none rest h k = k
  keep-IsNormal (some x) rest h k = (h, k)

  parse_items-IsNormal : (items : Items) → All (IsNormal format) (parse_items format items)
  unfolding parse_items
  parse_items-IsNormal nil = tt
  parse_items-IsNormal (cons j items) =
      keep-IsNormal (parse_stream format j) _ (parse_stream-IsNormal j) (parse_items-IsNormal items)

  streams_of-IsNormal : (j : Json) → All (IsNormal format) (streams_of format j)
  unfolding streams_of
  streams_of-IsNormal (array items) = parse_items-IsNormal items
  streams_of-IsNormal _ = tt

  -- Where `str.lower` does what it documents, every stream that is read from a JSON value whose integers
  -- are not negative has a lowercase language tag that is neither empty nor "und", and a channel layout
  -- that is not empty.
  pub parse_audio_streams-IsNormal :
      (payload : Json) → All (IsNormal format) (parse_audio_streams format payload)
  unfolding parse_audio_streams
  parse_audio_streams-IsNormal (object payload) =
      streams_of-IsNormal (get (codes "streams") payload)
  parse_audio_streams-IsNormal _ = tt
