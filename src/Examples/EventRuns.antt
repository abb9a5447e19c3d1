-- ===== src/Examples/EventRuns.antt =====
-- Two users, a join of a foreign project, and a message of the pipeline.
use music_video_generator.Prelude.{
  true, none, some, List, [], ◌∷◌, ◌≡◌, refl, Text, codes, every, map, length, count_where,
}
use music_video_generator.Schema.{Project, ProjectStatus}
use music_video_generator.Auth.Tokens.{Handshake, authenticate_socket}
use music_video_generator.Auth.Settings.{user_id_claim}
use music_video_generator.Events.Gateway.{ProjectRow, of_video}
use music_video_generator.Events.Gateway.Rooms.{client_owns}
use music_video_generator.Events.Messages.{MessageData}
use music_video_generator.Events.Messages.Delivery.{
  SocketEvent, connected, join_requested, message_received, emission_asked, after,
  emissions_private,
}
use music_video_generator.Events.Messages.Counts.{
  IsCounted, is_message, has_type, metrics-IsCounted,
}
use music_video_generator.Json.{Json}
use music_video_generator.Pipeline.Source.{build_pipeline_definition}
use music_video_generator.Pipeline.Reconciliation.{fresh_input, classify_synthetic_run}
use music_video_generator.Examples.AuthWorld.{
  alice, toy_jwt, one_secret, access_token_at, session_one,
}

abbrev song : Text
song = codes "33333333-3333-4333-8333-333333333333"

abbrev foreign_song : Text
foreign_song = codes "44444444-4444-4444-8444-444444444444"

abbrev project_rows : List ProjectRow
project_rows =
    record { id = song; user_id = alice } ∷ record { id = foreign_song; user_id = session_one } ∷ []

abbrev by_token : Handshake
by_token = record {
  auth_token = some (access_token_at 1000);
  auth_authorization = none;
  header_authorization = none;
}

abbrev first_image : MessageData
first_image = record {
  scene_index = some 0;
  total_scenes = some 8;
  image_url = some (codes "/images/0.png");
  prompt = none;
  progress = none;
  message = none;
  job_type = none;
  exposed = none;
  reason = none;
  verse_type = none;
  signal_type = none;
  modifications = none;
}

abbrev socket_events : List SocketEvent
socket_events =
    emission_asked foreign_song (of_video (codes "/video.mp4"))
    ∷ message_received (
        some (record {
          project_id = some song;
          type = codes "image_generated";
          body = some first_image;
        }))
    ∷ join_requested 5 (some foreign_song)
    ∷ join_requested 5 (some song)
    ∷ connected 5 by_token 2000000
    ∷ []

-- The socket is in the room of its user's project only.
recipient_counts :
    map (λ e. length e.recipients) (after project_rows toy_jwt one_secret socket_events).emissions
    ≡ 0 ∷ 1 ∷ 1 ∷ []
unfolding after toy_jwt authenticate_socket user_id_claim
recipient_counts = refl

emissions_private_example :
    every
      (λ e. every (client_owns project_rows e.project_id) e.recipients)
      (after project_rows toy_jwt one_secret socket_events).emissions
    ≡ true
emissions_private_example = emissions_private project_rows toy_jwt one_secret socket_events

metrics-IsCounted_example :
    IsCounted
      (count_where is_message socket_events)
      (λ t. count_where (has_type t) socket_events)
      (after project_rows toy_jwt one_secret socket_events)
metrics-IsCounted_example = metrics-IsCounted project_rows toy_jwt one_secret socket_events

abbrev smoke_project : Project
smoke_project = record {
  id = 1;
  user_id = 7;
  title = codes "[synthetic:smoke] run 3";
  status = ProjectStatus.draft;
  source_mode = none;
  youtube_url = none;
  audio_url = none;
  lyrics = some (codes "la la");
  analysis_result = none;
}

abbrev smoke_input : Json
unfolding fresh_input classify_synthetic_run
smoke_input =
    fresh_input (codes "c-1") (build_pipeline_definition smoke_project).source
      (classify_synthetic_run smoke_project.title)
