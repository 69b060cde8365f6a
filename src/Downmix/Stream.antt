-- ===== src/Downmix/Stream.antt =====
-- collapsarr/downmix/probe.py: one audio stream of a file.
use collapsarr.Common.{ℕ, Bool, Str}

-- `index` and `channels` are what ffprobe prints, so they are not negative.
pub record AudioStreamInfo : Type 0 where
  pub index : ℕ
  pub codec : Str
  pub channels : ℕ
  pub channel_layout : Str
  pub language : Str
  pub is_default : Bool
