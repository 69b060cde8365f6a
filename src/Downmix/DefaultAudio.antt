-- ===== src/Downmix/DefaultAudio.antt =====
-- collapsarr/downmix/default_audio.py: which stream should be the default audio track.
pub mod Winner
pub mod Position
use collapsarr.Common.{
  ℕ, zero, suc, ◌+◌, Bool, true, false, not, ◌&&◌, ◌||◌, Option, none, some, List, [], ◌∷◌, ◌++◌,
  Str, str_eq, ◌==◌, ltb, if◌then◌else◌, length,
}
use collapsarr.Common.Result.{Result, ok, raise, stop_iteration, ◌>>=◌}
use collapsarr.Downmix.Stream.{AudioStreamInfo}
use collapsarr.Downmix.Targets.{DownmixTarget, QualifyingTarget, target_channels}

pub record DefaultAudioPreference : Type 0 where
  pub language : Str
  pub channel_tier : DownmixTarget

-- A stream object: `is` compares the identity, all else reads the fields.
pub record StreamRef : Type 0 where
  pub id : ℕ
  pub stream : AudioStreamInfo
  pub open stream use *

unfoldable pub refs_from : ℕ → List AudioStreamInfo → List StreamRef
refs_from n [] = []
refs_from n (x ∷ xs) = record { id = n; stream = x } ∷ refs_from (suc n) xs

-- The objects of a list of streams, no two of them the same.
unfoldable pub refs : List AudioStreamInfo → List StreamRef
unfolding refs_from
refs xs = refs_from 0 xs

unfoldable pub is_exact : DefaultAudioPreference → StreamRef → Bool
is_exact preference x =
    str_eq x.language preference.language && x.channels == target_channels preference.channel_tier

pub find_exact_match : List StreamRef → DefaultAudioPreference → Option StreamRef
find_exact_match [] preference = none
find_exact_match (x ∷ xs) preference =
    let rest = find_exact_match xs preference in if is_exact preference x then some x else rest

pub same_language : List StreamRef → DefaultAudioPreference → List StreamRef
same_language [] preference = []
same_language (x ∷ xs) preference =
    let rest = same_language xs preference in
    if str_eq x.language preference.language then x ∷ rest else rest

-- `x` has a smaller key `(-channels, index)` than `y`.
unfoldable pub is_better : StreamRef → StreamRef → Bool
is_better x y = ltb y.channels x.channels || (x.channels == y.channels && ltb x.index y.index)

-- `min` keeps the first of the smallest.
pub best_from : StreamRef → List StreamRef → StreamRef
best_from b [] = b
best_from b (x ∷ xs) = best_from (if is_better x b then x else b) xs

-- `min` is never called with an empty list.
pub best_available : List StreamRef → Option StreamRef
unfolding best_from
best_available [] = none
best_available (x ∷ xs) = some (best_from x xs)

pub best_in_language : List StreamRef → List StreamRef → Option StreamRef
unfolding best_available
best_in_language [] streams = best_available streams
best_in_language (x ∷ xs) streams = best_available (x ∷ xs)

unfoldable pub resolve_default_audio_stream :
    List StreamRef → DefaultAudioPreference → Option StreamRef
unfolding find_exact_match same_language best_in_language
resolve_default_audio_stream streams preference =
    if ltb (length streams) 2 then none else elim (find_exact_match streams preference) [
      | some x ↦ some x
      | none ↦ best_in_language (same_language streams preference) streams
    ]

-- `max((stream.index for stream in streams), default=-1) + 1`
unfoldable pub next_index : List AudioStreamInfo → ℕ
next_index [] = 0
next_index (x ∷ xs) = let m = next_index xs in if ltb x.index m then m else x.index + 1

-- One new track for each target, behind the existing streams.
unfoldable pub new_tracks : ℕ → List QualifyingTarget → List AudioStreamInfo
new_tracks n [] = []
new_tracks n (t ∷ ts) =
    record {
      index = n;
      codec = [];
      channels = target_channels t.target;
      channel_layout = [];
      language = t.language;
      is_default = false;
    }
    ∷ new_tracks (suc n) ts

unfoldable pub final_audio_layout :
    List AudioStreamInfo → List QualifyingTarget → List AudioStreamInfo
unfolding next_index new_tracks
final_audio_layout streams targets = streams ++ new_tracks (next_index streams) targets

-- `next(i for i, stream in enumerate(streams) if stream is winner)`, from position `n`.
unfoldable pub index_of : ℕ → List StreamRef → StreamRef → Result ℕ
index_of n [] winner = raise stop_iteration
index_of n (x ∷ xs) winner =
    let rest = index_of (suc n) xs winner in if x.id == winner.id then ok n else rest

-- `any(stream.is_default for i, stream in enumerate(streams) if i != index)`, from position `n`.
unfoldable pub other_default : ℕ → List StreamRef → ℕ → Bool
other_default n [] index = false
other_default n (x ∷ xs) index =
    (not (n == index) && x.is_default) || other_default (suc n) xs index

-- The steps behind the resolution of the winner.
unfoldable pub output_index_of : List StreamRef → Option StreamRef → Result (Option ℕ)
unfolding index_of other_default
output_index_of final_streams none = ok none
output_index_of final_streams (some winner) = do
  output_index ← index_of 0 final_streams winner
  ok (
      if winner.is_default && not (other_default 0 final_streams output_index)
      then none
      else some output_index)

unfoldable pub resolve_default_audio_output_index :
    List AudioStreamInfo → List QualifyingTarget → DefaultAudioPreference → Result (Option ℕ)
unfolding output_index_of
resolve_default_audio_output_index streams targets preference =
    let final_streams = refs (final_audio_layout streams targets) in
    output_index_of final_streams (resolve_default_audio_stream final_streams preference)
