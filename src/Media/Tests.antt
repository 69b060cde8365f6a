-- ===== src/Media/Tests.antt =====
-- A file with one surround track, before and after it is tracked.
use collapsarr.Common.{◌≡◌, ◌⊎◌, none, some, List, [], ◌∷◌, Str, codes, true}
use collapsarr.Downmix.Stream.{AudioStreamInfo}
use collapsarr.Downmix.Targets.{stereo, default_settings, detect_qualifying_targets}
use collapsarr.Downmix.DefaultAudio.{final_audio_layout}
use collapsarr.Media.Rows.{
  MediaTargetStatus, StatusKey, MediaTables, SourceIds, find_status, upsert_tracked_media,
  record_targets,
}
use collapsarr.Media.Upsert.{Touched, StatusAfter, upsert_tracked_media-StatusAfter}
use collapsarr.Media.Agree.{record_targets-rescan}
use collapsarr.Media.Once.{IsUnique, upsert_tracked_media-IsUnique}

abbrev no_tables : MediaTables
no_tables = record { files = []; statuses = []; next_id = 1 }

abbrev surround : List AudioStreamInfo
surround =
    record {
      index = 1;
      codec = codes "ac3";
      channels = 6;
      channel_layout = codes "5.1(side)";
      language = codes "eng";
      is_default = true;
    }
    ∷ []

abbrev no_ids : SourceIds
no_ids = record { instance_id = none; sonarr_episode_id = none; radarr_movie_id = none }

abbrev film : Str
film = codes "/media/film.mkv"

abbrev english_stereo : StatusKey
english_stereo = record { media_id = 1; language = codes "eng"; target = stereo }

upsert_tracked_media-StatusAfter_example :
    (Touched film surround default_settings no_tables english_stereo
      × ((s : MediaTargetStatus) × (find_status english_stereo
              (upsert_tracked_media film surround default_settings no_ids no_tables).statuses
            ≡ some s)
          × StatusAfter surround default_settings
              (record { language = codes "eng"; target = stereo })
              s))
    ⊎ (¬ Touched film surround default_settings no_tables english_stereo
        × (find_status english_stereo
              (upsert_tracked_media film surround default_settings no_ids no_tables).statuses
            ≡ find_status english_stereo no_tables.statuses))
upsert_tracked_media-StatusAfter_example =
    upsert_tracked_media-StatusAfter film surround default_settings no_ids no_tables english_stereo

record_targets-rescan_example :
    find_status english_stereo
      (record_targets film
        (detect_qualifying_targets surround default_settings)
        (upsert_tracked_media film surround default_settings no_ids no_tables)).statuses
    ≡ find_status english_stereo
        (upsert_tracked_media film
          (final_audio_layout surround (detect_qualifying_targets surround default_settings))
          default_settings
          no_ids
          (upsert_tracked_media film surround default_settings no_ids no_tables)).statuses
record_targets-rescan_example =
    record_targets-rescan film surround default_settings no_ids no_ids no_tables english_stereo

upsert_tracked_media-IsUnique_example :
    IsUnique (upsert_tracked_media film surround default_settings no_ids no_tables)
upsert_tracked_media-IsUnique_example =
    upsert_tracked_media-IsUnique film surround default_settings no_ids no_tables
      (record { paths = tt; ids = tt; below = tt; statuses = tt })
