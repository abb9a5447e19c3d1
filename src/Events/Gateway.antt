-- ===== src/Events/Gateway.antt =====
-- modules/events/events.gateway.ts: the rooms of the sockets and the emissions. Socket.IO keeps, for
-- each socket that is connected, its data and its rooms; the time stamps of the payloads are left out.
pub mod Rooms
use music_video_generator.Prelude.{
  ℕ, ◌+◌, Bool, true, false, not, ◌&&◌, ◌||◌, Option, none, some, List, [], ◌∷◌, ◌++◌, Text, codes,
  text_eq, lower, truthy, ◌==◌, any, keep, find, if◌then◌else◌,
}
use music_video_generator.Json.{Json}
use music_video_generator.Outcome.{Outcome, ok, err}
use music_video_generator.Env.{Environment}
use music_video_generator.Auth.Settings.{is_uuid}
use music_video_generator.Auth.Tokens.{Jwt, Handshake, AuthenticatedUser, authenticate_socket}
use music_video_generator.Events.Metrics.{
  Metrics, JoinResult, joined, denied, invalid, no_metrics, record_connection_opened,
  record_connection_closed, record_auth_failure, record_join_attempt, record_leave, record_emitted,
}

pub data PipelineEventType : Type 0 where
  verse_classified image_generated frame_skipped frame_rendered pipeline_complete :
      PipelineEventType

-- `PipelineEvent` without its project.
pub record PipelineEvent : Type 0 where
  pub type : PipelineEventType
  pub url : Option Text
  pub percent : ℕ
  pub exposed : Bool
  pub scene_index : Option ℕ
  pub total_scenes : Option ℕ
  pub verse_type : Option Text
  pub reason : Option Text

pub record JobUpdate : Type 0 where
  pub job_type : Text
  pub status : Text
  pub progress : ℕ
  pub current_step : Option Text

pub record GeneratedImage : Type 0 where
  pub scene_index : ℕ
  pub total_scenes : ℕ
  pub image_url : Text
  pub prompt : Text

pub record AppliedSteering : Type 0 where
  pub signal_type : Text
  pub scene_index : ℕ
  pub message : Text
  pub modifications : Option Json

pub record ReceivedSteering : Type 0 where
  pub signal_type : Text
  pub scene_index : ℕ
  pub status : Text

-- What is emitted, beside the project id.
pub data Payload : Type 0 where
  of_image : GeneratedImage → Payload
  of_job : JobUpdate → Payload
  of_video : Text → Payload
  of_pipeline : PipelineEvent → Payload
  of_applied_steering : AppliedSteering → Payload
  of_received_steering : ReceivedSteering → Payload

abbrev pub type_name : PipelineEventType → Text
type_name verse_classified = codes "VERSE_CLASSIFIED"
type_name image_generated = codes "IMAGE_GENERATED"
type_name frame_skipped = codes "FRAME_SKIPPED"
type_name frame_rendered = codes "FRAME_RENDERED"
type_name pipeline_complete = codes "PIPELINE_COMPLETE"

-- The type under which an emission is counted.
abbrev pub metric_name : Payload → Text
metric_name (of_image d) = codes "image:generated"
metric_name (of_job d) = codes "job:update"
metric_name (of_video url) = codes "generation:complete"
metric_name (of_pipeline e) = codes "pipeline:" ++ type_name e.type
metric_name (of_applied_steering d) = codes "steering:applied"
metric_name (of_received_steering d) = codes "steering:received"

-- A connected socket, with `client.data.userId`.
pub record Client : Type 0 where
  pub id : ℕ
  pub user_id : Option Text
  pub rooms : List Text

pub record Emission : Type 0 where
  pub project_id : Text
  pub payload : Payload
  pub recipients : List Client

pub record Hub : Type 0 where
  pub clients : List Client
  pub metrics : Metrics
  pub emissions : List Emission

abbrev pub no_clients : Hub
no_clients = record { clients = []; metrics = no_metrics; emissions = [] }

-- A row of `Project`, as the join reads it: columns of type `uuid`, which are in lower case.
pub record ProjectRow : Type 0 where
  pub id : Text
  pub user_id : Text

abbrev pub room_of : Text → Text
room_of project = codes "project:" ++ project

abbrev pub is_client : ℕ → Client → Bool
is_client id c = c.id == id

unfoldable pub in_room : Text → Client → Bool
unfolding text_eq
in_room room c = any (text_eq room) c.rooms

unfoldable pub enter : Text → Client → Client
unfolding in_room
enter room c = if in_room room c then c else record c { rooms = room ∷ c.rooms }

unfoldable pub depart : Text → Client → Client
unfolding text_eq
depart room c = record c { rooms = keep (λ r. not (text_eq room r)) c.rooms }

-- A change of the client with an id; Socket.IO gives each client an id of its own.
abbrev pub update_client : ℕ → (Client → Client) → List Client → List Client
update_client id f [] = []
update_client id f (c ∷ cs) = if is_client id c then f c ∷ cs else c ∷ update_client id f cs

abbrev pub measure : (Metrics → Metrics) → Hub → Hub
measure f h = record h { metrics = f h.metrics }

module _ (jwt : Jwt) (env : Environment) where
  -- A socket that is refused is disconnected, and is not kept.
  unfoldable pub handle_connection : ℕ → Handshake → ℕ → Hub → Hub
  unfolding authenticate_socket
  handle_connection id handshake now h = elim (authenticate_socket jwt env handshake now) [
    | err f ↦ measure record_auth_failure h
    | ok u ↦ measure record_connection_opened (record h {
      clients = record { id = id; user_id = some u.user_id; rooms = [] } ∷ h.clients;
    })
  ]

unfoldable pub handle_disconnect : ℕ → Hub → Hub
handle_disconnect id h =
    measure record_connection_closed
      (record h { clients = keep (λ c. not (is_client id c)) h.clients })

unfoldable pub uuid_only : Option Text → Option Text
unfolding is_uuid
uuid_only none = none
uuid_only (some u) = if is_uuid u then some u else none

-- `client.data.userId` where it is a UUID.
unfoldable pub user_context : Option Client → Option Text
unfolding uuid_only
user_context none = none
user_context (some c) = uuid_only c.user_id

module _ (projects : List ProjectRow) where
  -- `findFirst({ where: { id, userId } })`; the values are compared as UUIDs.
  unfoldable pub owns_project : Text → Text → Bool
  unfolding text_eq lower
  owns_project project user =
      any (λ p. text_eq p.id (lower project) && text_eq p.user_id (lower user)) projects

  unfoldable pub join_as : ℕ → Text → Option Text → Hub → Hub
  unfolding owns_project enter
  join_as id project none h = measure (record_join_attempt denied) h
  join_as id project (some user) h =
      if owns_project project user
      then measure (record_join_attempt joined)
          (record h { clients = update_client id (enter (room_of project)) h.clients })
      else measure (record_join_attempt denied) h

  unfoldable pub handle_join_project : ℕ → Option Text → Hub → Hub
  unfolding is_uuid join_as user_context
  handle_join_project id none h = measure (record_join_attempt invalid) h
  handle_join_project id (some project) h =
      if is_uuid project
      then join_as id project (user_context (find (is_client id) h.clients)) h
      else measure (record_join_attempt invalid) h

unfoldable pub handle_leave_project : ℕ → Text → Hub → Hub
unfolding depart
handle_leave_project id project h =
    measure record_leave
      (record h { clients = update_client id (depart (room_of project)) h.clients })

-- `this.server.to(room).emit`, with its metric.
unfoldable pub emit : Text → Payload → Hub → Hub
unfolding in_room record_emitted
emit project payload h = measure (record_emitted (metric_name payload)) (record h {
  emissions =
      record {
        project_id = project;
        payload = payload;
        recipients = keep (in_room (room_of project)) h.clients;
      }
      ∷ h.emissions;
})

unfoldable pub emit_image_generated : Text → GeneratedImage → Hub → Hub
unfolding emit
emit_image_generated project d = emit project (of_image d)

unfoldable pub emit_job_update : Text → JobUpdate → Hub → Hub
unfolding emit
emit_job_update project d = emit project (of_job d)

unfoldable pub emit_generation_complete : Text → Text → Hub → Hub
unfolding emit
emit_generation_complete project url = emit project (of_video url)

unfoldable pub emit_pipeline_progress : Text → PipelineEvent → Hub → Hub
unfolding emit
emit_pipeline_progress project e = emit project (of_pipeline e)

unfoldable pub emit_verse_classified : Text → Text → ℕ → ℕ → ℕ → Hub → Hub
unfolding emit_pipeline_progress
emit_verse_classified project verse_type scene_index total_scenes percent =
    emit_pipeline_progress project (record {
      type = verse_classified;
      url = none;
      percent = percent;
      exposed = false;
      scene_index = some scene_index;
      total_scenes = some total_scenes;
      verse_type = some verse_type;
      reason = none;
    })

unfoldable pub emit_image_exposed : Text → Text → ℕ → ℕ → ℕ → Option Text → Hub → Hub
unfolding emit_pipeline_progress
emit_image_exposed project url scene_index total_scenes percent verse_type =
    emit_pipeline_progress project (record {
      type = image_generated;
      url = some url;
      percent = percent;
      exposed = true;
      scene_index = some scene_index;
      total_scenes = some total_scenes;
      verse_type = verse_type;
      reason = none;
    })

unfoldable pub emit_frame_skipped : Text → ℕ → ℕ → ℕ → Text → Hub → Hub
unfolding emit_pipeline_progress
emit_frame_skipped project scene_index total_scenes percent reason =
    emit_pipeline_progress project (record {
      type = frame_skipped;
      url = none;
      percent = percent;
      exposed = false;
      scene_index = some scene_index;
      total_scenes = some total_scenes;
      verse_type = none;
      reason = some reason;
    })

unfoldable pub emit_frame_rendered : Text → ℕ → ℕ → ℕ → Hub → Hub
unfolding emit_pipeline_progress
emit_frame_rendered project scene_index total_scenes percent =
    emit_pipeline_progress project (record {
      type = frame_rendered;
      url = none;
      percent = percent;
      exposed = true;
      scene_index = some scene_index;
      total_scenes = some total_scenes;
      verse_type = none;
      reason = none;
    })

unfoldable pub emit_pipeline_complete : Text → Text → Hub → Hub
unfolding emit_pipeline_progress
emit_pipeline_complete project url = emit_pipeline_progress project (record {
  type = pipeline_complete;
  url = some url;
  percent = 100;
  exposed = true;
  scene_index = none;
  total_scenes = none;
  verse_type = none;
  reason = none;
})

unfoldable pub emit_steering_applied : Text → AppliedSteering → Hub → Hub
unfolding emit
emit_steering_applied project d = emit project (of_applied_steering d)

unfoldable pub emit_steering_received : Text → ReceivedSteering → Hub → Hub
unfolding emit
emit_steering_received project d = emit project (of_received_steering d)
