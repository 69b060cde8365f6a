-- ===== src/Downmix/DefaultPipeline/Agrees.antt =====
-- The decision of the disposition-only pipeline and the index that the downmix pipeline resolves.
use collapsarr.Common.{
  ℕ, ◌≡◌, refl, sym, ◌∙◌, ap, subst, Bool, true, false, not, ◌&&◌, Option, none, some, List, [], In,
  arith, if◌then◌else◌,
}
use mathlib.Core.List.{append-nil}
use collapsarr.Common.Result.{Result, ok, raise}
use collapsarr.Downmix.Stream.{AudioStreamInfo}
use collapsarr.Downmix.DefaultAudio.{
  DefaultAudioPreference, StreamRef, refs, resolve_default_audio_stream, other_default,
  output_index_of, final_audio_layout, new_tracks, resolve_default_audio_output_index,
}
use collapsarr.Downmix.DefaultAudio.Winner.{resolve-IsWinner}
use collapsarr.Downmix.DefaultAudio.Position.{
  index_of-refs_from, get_elem?-refs_from, output_index_of_lem, IsWinner-In,
}
use collapsarr.Downmix.DefaultPipeline.{
  Decision, too_few_streams, already_matches, move_flag, is_only_default, already_correct,
  decision_of, decide_at, decide_for, decide,
}

-- The index that a decision stands for.
unfoldable pub index_to_set : Result Decision → Result (Option ℕ)
index_to_set (ok too_few_streams) = ok none
index_to_set (ok already_matches) = ok none
index_to_set (ok (move_flag i)) = ok (some i)
index_to_set (raise e) = raise e

decision_of-index :
    (i : ℕ) (b : Bool) → index_to_set (decision_of i (ok b)) ≡ (if b then ok none else ok (some i))
unfolding decision_of index_to_set
decision_of-index i true = refl
decision_of-index i false = refl

-- Whether `w` alone carries the flag.
abbrev pub is_settled : List AudioStreamInfo → StreamRef → Bool
is_settled streams w = w.is_default && not (other_default 0 (refs streams) w.id)

already_correct-id :
    (streams : List AudioStreamInfo) (w : StreamRef)
    → In w (refs streams)
    → already_correct (refs streams) w.id ≡ ok (is_settled streams w)
unfolding already_correct is_only_default refs
already_correct-id streams w i = rw (get_elem?-refs_from 0 w.id streams w i (omega arith)) refl

pub decide_for-id :
    (streams : List AudioStreamInfo) (w : StreamRef)
    → In w (refs streams)
    → decide_for (refs streams) (some w) ≡ decision_of w.id (ok (is_settled streams w))
unfolding decide_for decide_at refs
decide_for-id streams w i =
    ap (decide_at (refs streams)) (index_of-refs_from 0 streams w i)
    ∙ ap (decision_of w.id) (already_correct-id streams w i)

decide_for-some :
    (streams : List AudioStreamInfo) (w : StreamRef)
    → In w (refs streams)
    → index_to_set (decide_for (refs streams) (some w)) ≡ output_index_of (refs streams) (some w)
decide_for-some streams w i =
    ap index_to_set (decide_for-id streams w i)
    ∙ decision_of-index w.id (is_settled streams w)
    ∙ sym (output_index_of_lem streams w i)

decide_for-resolved :
    (streams : List AudioStreamInfo) (p : DefaultAudioPreference) (found : Option StreamRef)
    → resolve_default_audio_stream (refs streams) p ≡ found
    → index_to_set (decide_for (refs streams) found) ≡ output_index_of (refs streams) found
unfolding decide_for index_to_set output_index_of
decide_for-resolved streams p none e = refl
decide_for-resolved streams p (some w) e =
    decide_for-some streams w
      (IsWinner-In (refs streams) p w (resolve-IsWinner (refs streams) p w e))

final_audio_layout-none : (streams : List AudioStreamInfo) → final_audio_layout streams [] ≡ streams
unfolding final_audio_layout new_tracks
final_audio_layout-none streams = append-nil streams

-- The pipeline that only moves the default flag decides as the downmix pipeline does for no new
-- tracks: it sets the position that `resolve_default_audio_output_index` returns for the streams and
-- no targets, and has nothing to do exactly where that returns none.
pub decide-resolve :
    (streams : List AudioStreamInfo) (p : DefaultAudioPreference)
    → index_to_set (decide streams p) ≡ resolve_default_audio_output_index streams [] p
unfolding decide resolve_default_audio_output_index
decide-resolve streams p =
    subst
      (λ final.
        index_to_set (decide streams p)
        ≡ output_index_of (refs final) (resolve_default_audio_stream (refs final) p))
      (sym (final_audio_layout-none streams)) (decide_for-resolved streams p _ refl)
