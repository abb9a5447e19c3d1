-- ===== src/Events/Messages.antt =====
-- modules/events/events.service.ts: the messages of the Python pipeline, as JSON.parse reads them.
-- The numbers are natural.
pub mod Delivery
pub mod Counts
use music_video_generator.Prelude.{
  ℕ, zero, suc, ◌+◌, ◌*◌, ◌/◌, Bool, true, false, Option, none, some, List, [], ◌∷◌, Text, codes,
  text_eq, truthy, or_default, or_empty, if◌then◌else◌,
}
use music_video_generator.Json.{Json}
use music_video_generator.Events.Metrics.{record_inbound, record_inbound_parse_error}
use music_video_generator.Events.Gateway.{
  Hub, GeneratedImage, JobUpdate, AppliedSteering, ReceivedSteering, measure, emit_image_generated,
  emit_job_update, emit_verse_classified, emit_image_exposed, emit_frame_skipped,
  emit_steering_applied, emit_steering_received,
}

pub record MessageData : Type 0 where
  pub scene_index : Option ℕ
  pub total_scenes : Option ℕ
  pub image_url : Option Text
  pub prompt : Option Text
  pub progress : Option ℕ
  pub message : Option Text
  pub job_type : Option Text
  pub exposed : Option Bool
  pub reason : Option Text
  pub verse_type : Option Text
  pub signal_type : Option Text
  pub modifications : Option Json

-- `RedisPipelineMessage`; a message without `type` has the text `undefined`, the key that is counted.
pub record PipelineMessage : Type 0 where
  pub project_id : Option Text
  pub type : Text
  pub body : Option MessageData

-- `number || fallback`.
abbrev pub number_or : Option ℕ → ℕ → ℕ
number_or none fallback = fallback
number_or (some zero) fallback = fallback
number_or (some (suc n)) fallback = suc n

-- `Math.round(a / b)`.
abbrev round_quotient : ℕ → ℕ → ℕ
round_quotient a b = (2 * a + b) / (2 * b)

unfoldable pub calculate_percent : Option ℕ → Option ℕ → ℕ
calculate_percent scene_index none = 0
calculate_percent scene_index (some zero) = 0
calculate_percent scene_index (some (suc n)) =
    round_quotient ((number_or scene_index 0 + 1) * 100) (suc n)

abbrev percent_of : MessageData → ℕ
unfolding calculate_percent
percent_of d = calculate_percent d.scene_index d.total_scenes

abbrev is_exposed : Option Bool → Bool
is_exposed (some false) = false
is_exposed _ = true

unfoldable pub handle_image_generated : Text → MessageData → Hub → Hub
unfolding percent_of emit_image_exposed emit_frame_skipped emit_image_generated
handle_image_generated project d h =
    let scene_index = number_or d.scene_index 0 in
    let total_scenes = number_or d.total_scenes 1 in
    emit_image_generated project
      (record {
        scene_index = scene_index;
        total_scenes = total_scenes;
        image_url = or_empty d.image_url;
        prompt = or_empty d.prompt;
      })
      (if is_exposed d.exposed
        then emit_image_exposed project (or_empty d.image_url) scene_index total_scenes
            (percent_of d) d.verse_type h
        else emit_frame_skipped project scene_index total_scenes (percent_of d)
            (or_default d.reason (codes "Quality check failed")) h)

unfoldable pub handle_frame_skipped : Text → MessageData → Hub → Hub
unfolding percent_of emit_frame_skipped
handle_frame_skipped project d =
    emit_frame_skipped project (number_or d.scene_index 0) (number_or d.total_scenes 1)
      (percent_of d) (or_default d.reason (codes "Frame skipped"))

unfoldable pub handle_verse_classified : Text → MessageData → Hub → Hub
unfolding percent_of emit_verse_classified
handle_verse_classified project d =
    emit_verse_classified project (or_default d.verse_type (codes "NARRATIVE"))
      (number_or d.scene_index 0) (number_or d.total_scenes 1) (percent_of d)

unfoldable pub handle_progress : Text → MessageData → Hub → Hub
unfolding emit_job_update
handle_progress project d = emit_job_update project (record {
  job_type = or_default d.job_type (codes "GENERATE_IMAGES");
  status = codes "processing";
  progress = number_or d.progress 0;
  current_step = d.message;
})

unfoldable pub handle_steering_applied : Text → MessageData → Hub → Hub
unfolding emit_steering_applied
handle_steering_applied project d = emit_steering_applied project (record {
  signal_type = or_default d.signal_type (codes "unknown");
  scene_index = number_or d.scene_index 0;
  message = or_default d.message (codes "Direction applied");
  modifications = d.modifications;
})

unfoldable pub handle_steering_received : Text → MessageData → Hub → Hub
unfolding emit_steering_received
handle_steering_received project d = emit_steering_received project (record {
  signal_type = or_default d.signal_type (codes "unknown");
  scene_index = number_or d.scene_index 0;
  status = codes "queued";
})

-- The handlers of the `switch`, by the type of the message.
pub data MessageKind : Type 0 where
  of_generated of_skipped of_classified of_progress of_applied of_received of_unknown : MessageKind

unfoldable pub kind_of : Text → MessageKind
unfolding text_eq
kind_of t =
    if text_eq t (codes "image_generated")
    then of_generated
    else if text_eq t (codes "frame_skipped")
    then of_skipped
    else if text_eq t (codes "verse_classified")
    then of_classified
    else if text_eq t (codes "progress")
    then of_progress
    else if text_eq t (codes "steering_applied")
    then of_applied
    else if text_eq t (codes "steering_received")
    then of_received
    else of_unknown

-- A handler reads a property of `data` (here `body`), so it throws where that is missing, before it emits.
unfoldable pub dispatch_message : MessageKind → Text → Option MessageData → Hub → Hub
unfolding handle_image_generated handle_frame_skipped handle_verse_classified handle_progress
    handle_steering_applied handle_steering_received
dispatch_message of_unknown project body h = h
dispatch_message kind project none h = measure record_inbound_parse_error h
dispatch_message of_generated project (some d) h = handle_image_generated project d h
dispatch_message of_skipped project (some d) h = handle_frame_skipped project d h
dispatch_message of_classified project (some d) h = handle_verse_classified project d h
dispatch_message of_progress project (some d) h = handle_progress project d h
dispatch_message of_applied project (some d) h = handle_steering_applied project d h
dispatch_message of_received project (some d) h = handle_steering_received project d h

-- The argument is `none` where JSON.parse throws, or gives null.
unfoldable pub handle_pipeline_message : Option PipelineMessage → Hub → Hub
unfolding record_inbound kind_of dispatch_message
handle_pipeline_message none h = measure record_inbound_parse_error h
handle_pipeline_message (some m) h =
    let counted = measure (record_inbound m.type) h in
    let project = or_empty m.project_id in
    if truthy project then dispatch_message (kind_of m.type) project m.body counted else counted
