-- ===== src/Downmix.antt =====
-- collapsarr/downmix: the audio streams of a file, the tracks that it lacks, the track that should
-- be the default one, and the ffmpeg command.
pub mod Stream
pub mod Targets
pub mod DefaultAudio
pub mod Converge
pub mod Files
pub mod Remux
pub mod Probe
pub mod Apply
pub mod Pipeline
pub mod DefaultPipeline
pub mod Cancellation
mod Tests
