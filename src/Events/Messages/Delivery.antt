-- ===== src/Events/Messages/Delivery.antt =====
-- Runs of the gateway: connections, joins, messages of the pipeline and emissions of other services.
use music_video_generator.Prelude.{
  ℕ, true, not, Option, none, some, List, [], ◌∷◌, ◌≡◌, refl, Text, truthy, or_empty, every, keep,
  Bool-cases, inl, inr,
}
use music_video_generator.Env.{Environment}
use music_video_generator.Outcome.{Outcome-cases}
use music_video_generator.Auth.Settings.{is_uuid}
use music_video_generator.Auth.Tokens.{Jwt, Handshake, authenticate_socket}
use music_video_generator.Events.Metrics.{record_inbound, record_inbound_parse_error}
use music_video_generator.Events.Gateway.{
  Hub, Payload, ProjectRow, no_clients, room_of, in_room, emit, measure, handle_connection,
  handle_disconnect, handle_join_project, handle_leave_project, join_as, owns_project, is_client,
  depart, emit_image_generated, emit_image_exposed, emit_frame_skipped,
}
use music_video_generator.Events.Gateway.Rooms.{
  is_entitled, client_owns, every-keep, every-keep_implied, every-update_client, entitled_owns,
  depart-is_entitled, handle_connection-entitled, handle_join_project-entitled,
}
use music_video_generator.Events.Messages.{
  PipelineMessage, MessageData, MessageKind, of_generated, of_skipped, of_classified, of_progress,
  of_applied, of_received, of_unknown, handle_pipeline_message, dispatch_message, kind_of,
  handle_image_generated, handle_frame_skipped, handle_verse_classified, handle_progress,
  handle_steering_applied, handle_steering_received, is_exposed,
}

pub data SocketEvent : Type 0 where
  connected : ℕ → Handshake → ℕ → SocketEvent
  disconnected : ℕ → SocketEvent
  join_requested : ℕ → Option Text → SocketEvent
  leave_requested : ℕ → Text → SocketEvent
  message_received : Option PipelineMessage → SocketEvent
  emission_asked : Text → Payload → SocketEvent

module _ (projects : List ProjectRow) (jwt : Jwt) (env : Environment) where
  unfoldable pub step : SocketEvent → Hub → Hub
  unfolding handle_connection handle_disconnect handle_join_project handle_leave_project
      handle_pipeline_message emit
  step (connected id handshake now) h = handle_connection jwt env id handshake now h
  step (disconnected id) h = handle_disconnect id h
  step (join_requested id project) h = handle_join_project projects id project h
  step (leave_requested id project) h = handle_leave_project id project h
  step (message_received m) h = handle_pipeline_message m h
  step (emission_asked project payload) h = emit project payload h

  -- The latest event stands first.
  unfoldable pub after : List SocketEvent → Hub
  unfolding step
  after [] = no_clients
  after (e ∷ es) = step e (after es)

-- What every emission and the counting of messages keep, the handling of a message keeps.
module _ (P : Hub → Type 0)
    (emitted : (project : Text) (payload : Payload) (h : Hub) → P h → P (emit project payload h))
    (failed : (h : Hub) → P h → P (measure record_inbound_parse_error h)) where
  image_generated-keeps :
      (project : Text) (d : MessageData) (h : Hub) → P h → P (handle_image_generated project d h)
  unfolding handle_image_generated emit_image_generated emit_image_exposed emit_frame_skipped
  image_generated-keeps project d h p = elim (Bool-cases (is_exposed d.exposed)) [
    | inl shown ↦ rw (handle_image_generated, shown) (emitted project _ _ (emitted project _ h p))
    | inr skipped ↦
        rw (handle_image_generated, skipped) (emitted project _ _ (emitted project _ h p))
  ]

  pub dispatch_message-keeps :
      (k : MessageKind) (project : Text) (body : Option MessageData) (h : Hub)
      → P h
      → P (dispatch_message k project body h)
  unfolding dispatch_message handle_frame_skipped handle_verse_classified handle_progress
      handle_steering_applied handle_steering_received
  dispatch_message-keeps of_unknown project body h p = p
  dispatch_message-keeps of_generated project none h p = failed h p
  dispatch_message-keeps of_generated project (some d) h p = image_generated-keeps project d h p
  dispatch_message-keeps of_skipped project none h p = failed h p
  dispatch_message-keeps of_skipped project (some d) h p = emitted project _ h p
  dispatch_message-keeps of_classified project none h p = failed h p
  dispatch_message-keeps of_classified project (some d) h p = emitted project _ h p
  dispatch_message-keeps of_progress project none h p = failed h p
  dispatch_message-keeps of_progress project (some d) h p = emitted project _ h p
  dispatch_message-keeps of_applied project none h p = failed h p
  dispatch_message-keeps of_applied project (some d) h p = emitted project _ h p
  dispatch_message-keeps of_received project none h p = failed h p
  dispatch_message-keeps of_received project (some d) h p = emitted project _ h p

  handle_pipeline_message-keeps :
      (counted : (t : Text) (h : Hub) → P h → P (measure (record_inbound t) h))
      (o : Option PipelineMessage) (h : Hub)
      → P h
      → P (handle_pipeline_message o h)
  unfolding handle_pipeline_message
  handle_pipeline_message-keeps counted none h p = failed h p
  handle_pipeline_message-keeps counted (some m) h p =
      elim (Bool-cases (truthy (or_empty m.project_id))) [
        | inl given ↦
            rw (handle_pipeline_message, given)
              (dispatch_message-keeps (kind_of m.type) (or_empty m.project_id) m.body _
                (counted m.type h p))
        | inr missing ↦ rw (handle_pipeline_message, missing) (counted m.type h p)
      ]

module _ (projects : List ProjectRow) (jwt : Jwt) (env : Environment) where
  -- The clients are in rooms of their own projects, and so were the recipients of each emission.
  record IsPrivate (h : Hub) : Type 0 where
    pub entitled : every (is_entitled projects) h.clients ≡ true
    pub delivered :
        every (λ e. every (client_owns projects e.project_id) e.recipients) h.emissions ≡ true

  emit-IsPrivate :
      (project : Text) (payload : Payload) (h : Hub)
      → IsPrivate h
      → IsPrivate (emit project payload h)
  unfolding emit
  emit-IsPrivate project payload h p =
      let now : every (client_owns projects project) (keep (in_room (room_of project)) h.clients)
          ≡ true =
        every-keep_implied (is_entitled projects) (in_room (room_of project))
          (client_owns projects project) (entitled_owns projects project) h.clients p.entitled in
      record { entitled = p.entitled; delivered = rw (now) p.delivered }

  same_rooms :
      (h h' : Hub)
      → h'.emissions ≡ h.emissions
      → every (is_entitled projects) h'.clients ≡ true
      → IsPrivate h
      → IsPrivate h'
  same_rooms h h' same entitled p = record {
    entitled = entitled;
    delivered = rw (same) p.delivered;
  }

  connection_emits_nothing :
      (id : ℕ) (handshake : Handshake) (now : ℕ) (h : Hub)
      → (handle_connection jwt env id handshake now h).emissions ≡ h.emissions
  unfolding handle_connection
  connection_emits_nothing id handshake now h =
      elim (Outcome-cases (authenticate_socket jwt env handshake now)) [
        | inl (f, e) ↦ rw (handle_connection, e) refl
        | inr (u, e) ↦ rw (handle_connection, e) refl
      ]

  join_as_emits_nothing :
      (id : ℕ) (project : Text) (o : Option Text) (h : Hub)
      → (join_as projects id project o h).emissions ≡ h.emissions
  unfolding join_as
  join_as_emits_nothing id project none h = refl
  join_as_emits_nothing id project (some user) h =
      elim (Bool-cases (owns_project projects project user)) [
        | inl owns ↦ rw (join_as, owns) refl
        | inr other ↦ rw (join_as, other) refl
      ]

  join_emits_nothing :
      (id : ℕ) (o : Option Text) (h : Hub)
      → (handle_join_project projects id o h).emissions ≡ h.emissions
  unfolding handle_join_project
  join_emits_nothing id none h = refl
  join_emits_nothing id (some project) h = elim (Bool-cases (is_uuid project)) [
    | inl valid ↦ rw (handle_join_project, valid) (join_as_emits_nothing id project _ h)
    | inr invalid ↦ rw (handle_join_project, invalid) refl
  ]

  step-IsPrivate : (e : SocketEvent) (h : Hub) → IsPrivate h → IsPrivate (step projects jwt env e h)
  unfolding step handle_disconnect handle_leave_project
  step-IsPrivate (connected id handshake now) h p =
      same_rooms h _ (connection_emits_nothing id handshake now h)
        (handle_connection-entitled projects jwt env id handshake now h p.entitled) p
  step-IsPrivate (disconnected id) h p = record {
    entitled = every-keep (is_entitled projects) (λ c. not (is_client id c)) h.clients p.entitled;
    delivered = p.delivered;
  }
  step-IsPrivate (join_requested id project) h p =
      same_rooms h _ (join_emits_nothing id project h)
        (handle_join_project-entitled projects id project h p.entitled) p
  step-IsPrivate (leave_requested id project) h p = record {
    entitled =
        every-update_client (is_entitled projects) id (depart (room_of project)) h.clients
          p.entitled (λ c _ k. depart-is_entitled projects (room_of project) c k);
    delivered = p.delivered;
  }
  step-IsPrivate (message_received m) h p =
      handle_pipeline_message-keeps IsPrivate emit-IsPrivate
        (λ _ q. record { entitled = q.entitled; delivered = q.delivered })
        (λ _ _ q. record { entitled = q.entitled; delivered = q.delivered }) m h p
  step-IsPrivate (emission_asked project payload) h p = emit-IsPrivate project payload h p

  after-IsPrivate : (es : List SocketEvent) → IsPrivate (after projects jwt env es)
  unfolding after
  after-IsPrivate [] = record { entitled = refl; delivered = refl }
  after-IsPrivate (e ∷ es) = step-IsPrivate e (after projects jwt env es) (after-IsPrivate es)

-- Whatever sockets connect, join and leave and whatever messages arrive, every emission for a project
-- reaches only sockets whose user owns the project.
pub emissions_private :
    (projects : List ProjectRow) (jwt : Jwt) (env : Environment) (es : List SocketEvent)
    → every
        (λ e. every (client_owns projects e.project_id) e.recipients)
        (after projects jwt env es).emissions
      ≡ true
emissions_private projects jwt env es = (after-IsPrivate projects jwt env es).delivered
