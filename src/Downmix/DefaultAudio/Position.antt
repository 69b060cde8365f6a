-- ===== src/Downmix/DefaultAudio/Position.antt =====
-- The output position of the winner, over the final layout of a downmix.
use collapsarr.Common.{
  get_elem?, zero, suc, ap, ℕ, ◌+◌, ◌<◌, ◌≤◌, ◌≡◌, refl, ◌⊎◌, inl, inr, ◌≢◌, true, false, not, ◌&&◌,
  Option, none, some, List, [], ◌∷◌, ◌==◌, if◌then◌else◌, length, length-append, In, Bool-cases,
  arith,
}
use collapsarr.Common.Result.{Result, ok}
use collapsarr.Downmix.Stream.{AudioStreamInfo}
use collapsarr.Downmix.Targets.{QualifyingTarget}
use collapsarr.Downmix.DefaultAudio.{
  StreamRef, DefaultAudioPreference, refs_from, refs, resolve_default_audio_stream, next_index,
  new_tracks, final_audio_layout, index_of, other_default, output_index_of,
  resolve_default_audio_output_index,
}
use collapsarr.Downmix.DefaultAudio.Winner.{IsWinner, resolve-IsWinner, resolve-none_iff}

refs_from-bounds :
    (n : ℕ) (xs : List AudioStreamInfo) (w : StreamRef)
    → In w (refs_from n xs)
    → (n ≤ w.id) × (w.id < n + length xs)
unfolding refs_from
refs_from-bounds n [] w i = absurd i
refs_from-bounds n (x ∷ xs) w (inl e) = ground arith
refs_from-bounds n (x ∷ xs) w (inr i) = omega (arith, refs_from-bounds (suc n) xs w i)

pub index_of-refs_from :
    (n : ℕ) (xs : List AudioStreamInfo) (w : StreamRef)
    → In w (refs_from n xs)
    → index_of n (refs_from n xs) w ≡ ok w.id
unfolding refs_from index_of
index_of-refs_from n [] w i = absurd i
index_of-refs_from n (x ∷ xs) w (inl e) = ground arith
index_of-refs_from n (x ∷ xs) w (inr i) =
    ground (arith, refs_from-bounds (suc n) xs w i, index_of-refs_from (suc n) xs w i)

pub get_elem?-refs_from :
    (n k : ℕ) (xs : List AudioStreamInfo) (w : StreamRef)
    → In w (refs_from n xs)
    → w.id ≡ n + k
    → get_elem? (refs_from n xs) k ≡ some w
unfolding refs_from
get_elem?-refs_from n k [] w i e = absurd i
get_elem?-refs_from n zero (x ∷ xs) w (inl f) e = ap some f
get_elem?-refs_from n (suc k) (x ∷ xs) w (inl f) e = ground arith
get_elem?-refs_from n zero (x ∷ xs) w (inr i) e = ground (arith, refs_from-bounds (suc n) xs w i)
get_elem?-refs_from n (suc k) (x ∷ xs) w (inr i) e =
    get_elem?-refs_from (suc n) k xs w i (omega arith)

-- No stream but the one at `i` carries the flag.
abbrev pub OnlyDefault : ℕ → List StreamRef → Type 0
OnlyDefault i xs = (x : StreamRef) → In x xs → x.is_default ≡ true → x.id ≡ i

other_default-OnlyDefault :
    (n : ℕ) (xs : List AudioStreamInfo) (i : ℕ)
    → other_default n (refs_from n xs) i ≡ false
    → OnlyDefault i (refs_from n xs)
unfolding refs_from other_default
other_default-OnlyDefault n [] i h x m d = absurd m
other_default-OnlyDefault n (y ∷ ys) i h x (inl e) d = ground arith
other_default-OnlyDefault n (y ∷ ys) i h x (inr m) d =
    other_default-OnlyDefault (suc n) ys i (ground arith) x m d

abbrev pub OtherDefault : ℕ → List StreamRef → Type 0
OtherDefault i xs = (x : StreamRef) × In x xs × (x.is_default ≡ true) × (x.id ≢ i)

other_default-OtherDefault :
    (n : ℕ) (xs : List AudioStreamInfo) (i : ℕ)
    → other_default n (refs_from n xs) i ≡ true
    → OtherDefault i (refs_from n xs)
unfolding refs_from other_default
other_default-OtherDefault n [] i h = ground arith
other_default-OtherDefault n (y ∷ ys) i h = elim (Bool-cases (not (n == i) && y.is_default)) [
  | inl here ↦ (record { id = n; stream = y }, inl refl, ground arith, ground arith)
  | inr not_here ↦
      let (x, m, d, ne) = other_default-OtherDefault (suc n) ys i (rw not_here at h) in
      (x, inr m, d, ne)
]

length-new_tracks : (n : ℕ) (ts : List QualifyingTarget) → length (new_tracks n ts) ≡ length ts
unfolding new_tracks
length-new_tracks n [] = refl
length-new_tracks n (t ∷ ts) = omega (arith, length-new_tracks (suc n) ts)

pub length-final_audio_layout :
    (streams : List AudioStreamInfo) (targets : List QualifyingTarget)
    → length (final_audio_layout streams targets) ≡ length streams + length targets
unfolding final_audio_layout
length-final_audio_layout streams targets = omega (
  arith,
  length-append {0} streams (new_tracks (next_index streams) targets),
  length-new_tracks (next_index streams) targets,
)

pub length-refs : (xs : List AudioStreamInfo) (n : ℕ) → length (refs_from n xs) ≡ length xs
unfolding refs_from
length-refs [] n = refl
length-refs (x ∷ xs) n = omega (arith, length-refs xs (suc n))

pub IsWinner-In :
    (xs : List StreamRef) (p : DefaultAudioPreference) (w : StreamRef) → IsWinner xs p w → In w xs
IsWinner-In xs p w (IsWinner.exact i _) = i
IsWinner-In xs p w (IsWinner.tier_fallback _ b) = b.present
IsWinner-In xs p w (IsWinner.language_fallback _ b) = b.present

-- What the call may return, for the layout `final`.
pub data Outcome (final : List AudioStreamInfo) (p : DefaultAudioPreference)
    : Option ℕ → Type 0 where
  too_few : length final < 2 → Outcome final p none
  stays :
      (w : StreamRef)
      → IsWinner (refs final) p w
      → w.is_default ≡ true
      → OnlyDefault w.id (refs final)
      → Outcome final p none
  move_to :
      (w : StreamRef)
      → IsWinner (refs final) p w
      → w.id < length final
      → (w.is_default ≡ false) ⊎ OtherDefault w.id (refs final)
      → Outcome final p (some w.id)

-- The winner's position is returned unless the winner alone carries the flag.
pub output_index_of_lem :
    (final : List AudioStreamInfo) (w : StreamRef)
    → In w (refs final)
    → output_index_of (refs final) (some w) ≡ (
        if w.is_default && not (other_default 0 (refs final) w.id) then ok none else ok (some w.id))
unfolding output_index_of refs
output_index_of_lem final w m = ground (arith, index_of-refs_from 0 final w m)

module _ (final : List AudioStreamInfo) (p : DefaultAudioPreference) where
  abbrev Returns : Result (Option ℕ) → Type 0
  Returns r = (o : Option ℕ) × (r ≡ ok o) × Outcome final p o

  winner-Returns :
      (w : StreamRef)
      → In w (refs final)
      → IsWinner (refs final) p w
      → Returns (output_index_of (refs final) (some w))
  unfolding refs
  winner-Returns w m wins =
      let at = output_index_of_lem final w m in
      let (_, within) = refs_from-bounds 0 final w m in
      elim (Bool-cases w.is_default) [
        | inr unset ↦ (some w.id, ground (arith, at), move_to w wins (omega arith) (inl unset))
        | inl set ↦ elim (Bool-cases (other_default 0 (refs final) w.id)) [
          | inl other ↦ (
            some w.id,
            ground (arith, at),
            move_to w wins (omega arith) (inr (other_default-OtherDefault 0 final w.id other)),
          )
          | inr alone ↦ (
            none,
            ground (arith, at),
            stays w wins set (other_default-OnlyDefault 0 final w.id alone),
          )
        ]
      ]

  resolved-Returns :
      (found : Option StreamRef)
      → resolve_default_audio_stream (refs final) p ≡ found
      → Returns (output_index_of (refs final) found)
  unfolding output_index_of refs
  resolved-Returns none e = (
    none,
    refl,
    too_few (omega (arith, (resolve-none_iff (refs final) p).0 e, length-refs final 0)),
  )
  resolved-Returns (some w) e =
      let wins = resolve-IsWinner (refs final) p w e in
      winner-Returns w (IsWinner-In (refs final) p w wins) wins

-- The call always returns. It returns no position when the final layout has fewer than two streams,
-- or when its winner carries the flag and no other stream does; else it returns the winner's
-- position, which lies in the layout, and the winner lacks the flag or another stream carries it.
pub output_index-Outcome :
    (streams : List AudioStreamInfo) (targets : List QualifyingTarget) (p : DefaultAudioPreference)
    → (r : Option ℕ) × (resolve_default_audio_output_index streams targets p ≡ ok r)
      × Outcome (final_audio_layout streams targets) p r
unfolding resolve_default_audio_output_index
output_index-Outcome streams targets p =
    resolved-Returns (final_audio_layout streams targets) p _ refl
