-- ===== src/Jobs/Scheduler/DefaultAudio.antt =====
-- collapsarr/jobs/scheduler.py: the manual trigger of a job that moves the default flag.
pub mod Needed
use collapsarr.Common.{
  Bool, true, false, not, ◌&&◌, ◌||◌, Option, none, some, List, [], ◌∷◌, Str, ◌==◌, if◌then◌else◌,
}
use collapsarr.Common.Result.{Result, ok, raise, ffprobe_error}
use collapsarr.Downmix.Stream.{AudioStreamInfo}
use collapsarr.Downmix.DefaultAudio.{
  DefaultAudioPreference, StreamRef, refs, resolve_default_audio_stream,
}
use collapsarr.Jobs.Job.{Job}
use collapsarr.Jobs.Queue.{enqueue_default_audio}
use collapsarr.Jobs.Run.{as_default_audio_preference}
use collapsarr.Jobs.Scheduler.Store.{Store, World, Action}
use collapsarr.Jobs.Scheduler.Enqueue.{is_duplicate, recorded}

pub data DefaultAudioSkipReason : Type 0 where
  no_preference already_correct unprobeable duplicate : DefaultAudioSkipReason

-- Either the job or the reason is set.
pub data SetDefaultAudioOutcome : Type 0 where
  enqueued : Job → SetDefaultAudioOutcome
  skipped : DefaultAudioSkipReason → SetDefaultAudioOutcome

-- `any(stream.is_default for stream in streams if stream is not winner)`
unfoldable pub any_other_default : List StreamRef → StreamRef → Bool
any_other_default [] winner = false
any_other_default (x ∷ xs) winner =
    (not (x.id == winner.id) && x.is_default) || any_other_default xs winner

unfoldable pub default_audio_already_correct : List StreamRef → StreamRef → Bool
unfolding any_other_default
default_audio_already_correct streams winner =
    winner.is_default && not (any_other_default streams winner)

-- Whether there is nothing to move: no winner, or one that is the only default already.
unfoldable pub nothing_to_move : List StreamRef → Option StreamRef → Bool
unfolding default_audio_already_correct
nothing_to_move streams none = true
nothing_to_move streams (some winner) = default_audio_already_correct streams winner

-- The block under `_enqueue_lock`.
unfoldable pub default_audio_locked :
    World → Str → DefaultAudioPreference → Bool → Action SetDefaultAudioOutcome
unfolding is_duplicate recorded enqueue_default_audio
default_audio_locked world path preference bypass_dedup_window s =
    if is_duplicate world path bypass_dedup_window s
    then (s, ok (skipped duplicate))
    else let (after, job) =
        recorded world (enqueue_default_audio (world.uuid s.ids) path preference s.queue) s in
      (after, ok (enqueued job))

unfoldable pub default_audio_probed :
    World
    → Str
    → DefaultAudioPreference
    → Bool
    → Result (List AudioStreamInfo)
    → Action SetDefaultAudioOutcome
unfolding nothing_to_move default_audio_locked resolve_default_audio_stream refs
default_audio_probed world path preference bypass_dedup_window (raise ffprobe_error) s =
    (s, ok (skipped unprobeable))
default_audio_probed world path preference bypass_dedup_window (raise e) s = (s, raise e)
default_audio_probed world path preference bypass_dedup_window (ok streams) s =
    if nothing_to_move (refs streams) (resolve_default_audio_stream (refs streams) preference)
    then (s, ok (skipped already_correct))
    else default_audio_locked world path preference bypass_dedup_window s

unfoldable pub default_audio_for :
    World → Str → Bool → Option DefaultAudioPreference → Action SetDefaultAudioOutcome
unfolding is_duplicate default_audio_probed
default_audio_for world path bypass_dedup_window none s = (s, ok (skipped no_preference))
default_audio_for world path bypass_dedup_window (some preference) s =
    if is_duplicate world path bypass_dedup_window s
    then (s, ok (skipped duplicate))
    else default_audio_probed world path preference bypass_dedup_window (world.probe path) s

unfoldable pub trigger_set_default_audio : World → Str → Bool → Action SetDefaultAudioOutcome
unfolding as_default_audio_preference default_audio_for
trigger_set_default_audio world file_path bypass_dedup_window s =
    default_audio_for world (world.as_path file_path) bypass_dedup_window
      (as_default_audio_preference s.settings) s
