-- ===== src/Health/Classification/Inputs.antt =====
-- What the metrics read from the jobs and projects that the pipeline writes.
use music_video_generator.Prelude.{none, some, Option, Text}
use music_video_generator.Json.{Json}
use music_video_generator.Schema.{Project, SourceMode}
use music_video_generator.Pipeline.Reconciliation.{source_name}
use music_video_generator.Health.Classification.{ProjectLike}

abbrev stored_mode : Option SourceMode → Option Text
stored_mode none = none
stored_mode (some m) = some (source_name m)

-- A project of the pipeline, as the metrics read it.
abbrev pub as_read : Project → ProjectLike
as_read p = record {
  source_mode = stored_mode p.source_mode;
  youtube_url = p.youtube_url;
  audio_url = p.audio_url;
  lyrics = p.lyrics;
  title = some p.title;
}
