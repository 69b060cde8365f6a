-- ===== src/Downmix/Apply/Probes.antt =====
-- The two probes of `apply_remux_result`.
use collapsarr.Common.{ℕ, ◌≡◌, refl, ap, ◌∙◌, ◌⊎◌, inl, inr, List, ◌∷◌, Str}
use collapsarr.Common.Result.{Exception, Result, ok, raise}
use collapsarr.Downmix.Files.{Files, after_io, lift, Runner, Format}
use collapsarr.Downmix.Probe.{
  probe_audio_streams, parse_audio_streams, MediaSummary, ProbeTools, run_ffprobe_json,
  probe_media_summary, parse_media_summary,
}
use collapsarr.Downmix.Files.Disk.{Same}
use collapsarr.Downmix.Apply.{probe_both}

-- A command of ffprobe writes no file.
abbrev pub ReadsOnly : Runner → Str → Type 0
ReadsOnly runner ffprobe_path =
    (rest : List Str) (timeout : ℕ) (files : Files)
    → Same files (runner (ffprobe_path ∷ rest) timeout files).0

after_io-lift-Same :
    {A B : Type 0} (before : Files) (m : Files × Result A) (f : A → Result B)
    → Same before m.0
    → Same before (after_io m (λ a. lift (f a))).0
unfolding after_io
after_io-lift-Same before (files, ok a) f same = same
after_io-lift-Same before (files, raise e) f same = same

module _ (runner : Runner) (tools : ProbeTools) where
  -- What a probe of `path` gave, on a disk like `before`.
  pub record Probed (before : Files) (path : Str) (summary : MediaSummary) : Type 0 where
    pub disk : Files
    pub like : Same before disk
    pub given : (probe_media_summary runner tools path disk).1 ≡ ok summary

  -- A probe of `path` raised, on a disk like `before`.
  pub record Unprobed (before : Files) (path : Str) (e : Exception) : Type 0 where
    pub disk : Files
    pub like : Same before disk
    pub given : (probe_media_summary runner tools path disk).1 ≡ raise e

  pub data Both (before : Files) (original temp : Str)
      : Files × Result (MediaSummary × MediaSummary) → Type 0 where
    unread :
        (after : Files) (e : Exception)
        → Same before after
        → Unprobed before original e ⊎ Unprobed before temp e
        → Both before original temp (after, raise e)
    read :
        (after : Files) (o t : MediaSummary)
        → Same before after
        → Probed before original o
        → Probed before temp t
        → Both before original temp (after, ok (o, t))

module _ (runner : Runner) (tools : ProbeTools) (reads : ReadsOnly runner tools.ffprobe_path) where
  pub probe_audio_streams-Same :
      (format : Format) (path : Str) (files : Files)
      → Same files (probe_audio_streams format runner tools path files).0
  unfolding probe_audio_streams run_ffprobe_json
  probe_audio_streams-Same format path files =
      after_io-lift-Same files _ (λ payload. ok (parse_audio_streams format payload))
        (reads _ _ files)

  probe-Same :
      (path : Str) (files : Files) → Same files (probe_media_summary runner tools path files).0
  unfolding probe_media_summary run_ffprobe_json
  probe-Same path files =
      after_io-lift-Same files _ (parse_media_summary tools.parsers) (reads _ _ files)

  module _ (before : Files) (original temp : Str) where
    second-Both :
        (o : MediaSummary) (disk : Files) (m : Files × Result MediaSummary)
        → probe_media_summary runner tools temp disk ≡ m
        → Same before disk
        → Same disk m.0
        → Probed runner tools before original o
        → Both runner tools before original temp (after_io m (λ t. lift (ok (o, t))))
    unfolding after_io
    second-Both o disk (files, raise e) eq like same h =
        unread files e (λ p. same p ∙ like p)
          (inr (record { disk = disk; like = like; given = ap (λ m. m.1) eq }))
    second-Both o disk (files, ok t) eq like same h =
        read files o t (λ p. same p ∙ like p) h
          (record { disk = disk; like = like; given = ap (λ m. m.1) eq })

    first-Both :
        (m : Files × Result MediaSummary)
        → probe_media_summary runner tools original before ≡ m
        → Same before m.0
        → Both runner tools before original temp (
            after_io m (λ o disk.
              after_io (probe_media_summary runner tools temp disk) (λ t. lift (ok (o, t)))))
    unfolding after_io
    first-Both (files, raise e) eq same =
        unread files e same
          (inl (record { disk = before; like = λ p. refl; given = ap (λ m. m.1) eq }))
    first-Both (files, ok o) eq same =
        second-Both o files _ refl same (probe-Same temp files)
          (record { disk = before; like = λ p. refl; given = ap (λ m. m.1) eq })

    pub probe_both-Both :
        Both runner tools before original temp (probe_both runner tools original temp before)
    unfolding probe_both
    probe_both-Both = first-Both _ refl (probe-Same original before)
