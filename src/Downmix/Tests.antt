-- ===== src/Downmix/Tests.antt =====
-- A small file, what the detection does on it, and the theorems at this input.
mod Stages
use collapsarr.Common.{
  ℕ, ◌<◌, ◌≡◌, refl, ◌≢◌, ◌↔◌, inl, inr, true, false, Option, none, some, List, [], ◌∷◌, ◌++◌,
  codes, length, str_eq, str_lt, In,
}
use collapsarr.Common.Result.{ok}
use collapsarr.Downmix.Stream.{AudioStreamInfo}
use collapsarr.Downmix.Targets.{
  stereo, two_point_one, five_point_one, target_channels, DownmixSettings, default_settings,
  QualifyingTarget, detect_qualifying_targets,
}
use collapsarr.Downmix.Targets.Qualify.{Qualifies, detect_iff}
use collapsarr.Downmix.Targets.Order.{IsAscending, detect-IsAscending}
use collapsarr.Downmix.DefaultAudio.{
  DefaultAudioPreference, is_exact, refs, resolve_default_audio_stream, final_audio_layout,
  resolve_default_audio_output_index,
}
use collapsarr.Downmix.DefaultAudio.Winner.{resolve-none_iff}
use collapsarr.Downmix.DefaultAudio.Position.{Outcome, output_index-Outcome}
use collapsarr.Downmix.Converge.{detect-final_audio_layout}
use collapsarr.Downmix.Cancellation.{
  Os, Signal, terminate_process_tree, new_handle, attaches, detaches, cancels, calls, timed_out,
  run_cancellable,
}
use collapsarr.Downmix.Cancellation.Kills.{
  CancelledWhileAttached, attach_after_cancel, cancel-kills, run_cancellable-untracked, Reached,
  terminate-Reached,
}

abbrev pub surround : AudioStreamInfo
surround = record {
  index = 1;
  codec = codes "ac3";
  channels = 8;
  channel_layout = codes "7.1";
  language = codes "eng";
  is_default = true;
}

abbrev all_targets_on : DownmixSettings
all_targets_on = record default_settings {
  enabled_targets = five_point_one ∷ stereo ∷ two_point_one ∷ [];
}

abbrev pub english_stereo : QualifyingTarget
english_stereo = record { language = codes "eng"; target = stereo }

abbrev pub prefer : DefaultAudioPreference
prefer = record { language = codes "eng"; channel_tier = stereo }

detect_all :
    detect_qualifying_targets (surround ∷ []) all_targets_on
    ≡ english_stereo
      ∷ record english_stereo { target = two_point_one }
      ∷ record english_stereo { target = five_point_one }
      ∷ []
unfolding detect_qualifying_targets str_eq str_lt
detect_all = refl

output_index_moves :
    resolve_default_audio_output_index (surround ∷ []) (english_stereo ∷ []) prefer ≡ ok (some 1)
unfolding resolve_default_audio_output_index refs final_audio_layout str_eq
    resolve_default_audio_stream target_channels is_exact
output_index_moves = refl

detect_iff_example :
    In english_stereo (detect_qualifying_targets (surround ∷ []) all_targets_on)
    ↔ Qualifies (surround ∷ []) all_targets_on english_stereo
detect_iff_example = detect_iff (surround ∷ []) all_targets_on english_stereo

detect-IsAscending_example : IsAscending (detect_qualifying_targets (surround ∷ []) all_targets_on)
detect-IsAscending_example = detect-IsAscending (surround ∷ []) all_targets_on

detect-final_audio_layout_example :
    detect_qualifying_targets
      (final_audio_layout
        (surround ∷ [])
        (detect_qualifying_targets (surround ∷ []) all_targets_on))
      all_targets_on
    ≡ []
detect-final_audio_layout_example = detect-final_audio_layout (surround ∷ []) all_targets_on

output_index-Outcome_example :
    (r : Option ℕ) × (resolve_default_audio_output_index
        (surround ∷ [])
        (english_stereo ∷ [])
        prefer
      ≡ ok r)
    × Outcome (final_audio_layout (surround ∷ []) (english_stereo ∷ [])) prefer r
output_index-Outcome_example = output_index-Outcome (surround ∷ []) (english_stereo ∷ []) prefer

resolve-none_iff_example :
    (resolve_default_audio_stream (refs (surround ∷ surround ∷ [])) prefer ≡ none)
    ↔ (length (refs (surround ∷ surround ∷ [])) < 2)
resolve-none_iff_example = resolve-none_iff (refs (surround ∷ surround ∷ [])) prefer

attach_after_cancel_example :
    In 4 (calls ((attaches 3 ∷ []) ++ cancels ∷ detaches 3 ∷ attaches 4 ∷ []) new_handle).1
attach_after_cancel_example =
    attach_after_cancel (attaches 3 ∷ []) (detaches 3 ∷ attaches 4 ∷ []) new_handle 4
      (inr (inl refl))

cancel-kills_example :
    In 4 (calls ((attaches 3 ∷ detaches 3 ∷ []) ++ attaches 4 ∷ cancels ∷ []) new_handle).1
cancel-kills_example = cancel-kills (attaches 3 ∷ detaches 3 ∷ []) (cancels ∷ []) new_handle 4 tt

run_cancellable-untracked_example :
    ((run_cancellable 4 timed_out (cancels ∷ []) new_handle).0.process ≢ some 4)
    × (timed_out ≡ timed_out → In 4 (run_cancellable 4 timed_out (cancels ∷ []) new_handle).1)
    × (CancelledWhileAttached 4 (cancels ∷ [])
        → In 4 (run_cancellable 4 timed_out (cancels ∷ []) new_handle).1)
run_cancellable-untracked_example = run_cancellable-untracked 4 timed_out (cancels ∷ []) new_handle

abbrev linux : Os
linux = record {
  has_exited = λ _. false;
  has_getpgid = true;
  getpgid = λ process. some process;
  has_killpg = true;
  killpg = λ _. true;
}

terminate-Reached_example :
    (signals : List Signal) × (terminate_process_tree linux 4 ≡ signals) × Reached linux 4 signals
terminate-Reached_example = terminate-Reached linux 4 refl
