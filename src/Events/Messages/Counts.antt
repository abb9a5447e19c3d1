-- ===== src/Events/Messages/Counts.antt =====
-- The metrics against what the gateway did.
use music_video_generator.Prelude.{
  ℕ, suc, ◌+◌, Bool, true, false, Option, none, some, List, [], ◌∷◌, ◌≡◌, refl, sym, ap, ◌∙◌, arith,
  Text, text_eq, truthy, or_empty, length, Bool-cases, inl, inr, find, count_where, if◌then◌else◌,
}
use music_video_generator.Env.{Environment}
use music_video_generator.Outcome.{Outcome-cases}
use music_video_generator.Auth.Settings.{is_uuid}
use music_video_generator.Auth.Tokens.{Jwt, Handshake, authenticate_socket}
use music_video_generator.Events.Metrics.{
  Metrics, JoinResult, joined, denied, invalid, bump, is_inherited, is_prototype,
  record_join_attempt, record_emitted, record_inbound,
}
use music_video_generator.Events.Metrics.Tallies.{
  cell_at, cell_of, number, cell_of-ordinary, cell_at-bump,
}
use music_video_generator.Events.Gateway.{
  Client, Hub, Payload, of_image, of_job, of_video, of_pipeline, of_applied_steering,
  of_received_steering, PipelineEventType, verse_classified, image_generated, frame_skipped,
  frame_rendered, pipeline_complete, type_name, ProjectRow, emit, measure, handle_connection,
  handle_disconnect, handle_join_project, handle_leave_project, join_as, owns_project, user_context,
  is_client, metric_name,
}
use music_video_generator.Events.Messages.{PipelineMessage, handle_pipeline_message, kind_of}
use music_video_generator.Events.Messages.Delivery.{
  SocketEvent, connected, disconnected, join_requested, leave_requested, message_received,
  emission_asked, step, after, dispatch_message-keeps,
}

-- Two emissions of the same kind: the same event, and for the progress of the pipeline the same type
-- of progress.
abbrev same_progress : PipelineEventType → PipelineEventType → Bool
same_progress verse_classified verse_classified = true
same_progress image_generated image_generated = true
same_progress frame_skipped frame_skipped = true
same_progress frame_rendered frame_rendered = true
same_progress pipeline_complete pipeline_complete = true
same_progress _ _ = false

unfoldable pub same_kind : Payload → Payload → Bool
same_kind (of_image d) (of_image e) = true
same_kind (of_job d) (of_job e) = true
same_kind (of_video d) (of_video e) = true
same_kind (of_pipeline d) (of_pipeline e) = same_progress d.type e.type
same_kind (of_applied_steering d) (of_applied_steering e) = true
same_kind (of_received_steering d) (of_received_steering e) = true
same_kind _ _ = false

progress_names_differ :
    (t u : PipelineEventType) → text_eq (type_name u) (type_name t) ≡ same_progress t u
unfolding text_eq
progress_names_differ verse_classified verse_classified = refl
progress_names_differ verse_classified image_generated = refl
progress_names_differ verse_classified frame_skipped = refl
progress_names_differ verse_classified frame_rendered = refl
progress_names_differ verse_classified pipeline_complete = refl
progress_names_differ image_generated verse_classified = refl
progress_names_differ image_generated image_generated = refl
progress_names_differ image_generated frame_skipped = refl
progress_names_differ image_generated frame_rendered = refl
progress_names_differ image_generated pipeline_complete = refl
progress_names_differ frame_skipped verse_classified = refl
progress_names_differ frame_skipped image_generated = refl
progress_names_differ frame_skipped frame_skipped = refl
progress_names_differ frame_skipped frame_rendered = refl
progress_names_differ frame_skipped pipeline_complete = refl
progress_names_differ frame_rendered verse_classified = refl
progress_names_differ frame_rendered image_generated = refl
progress_names_differ frame_rendered frame_skipped = refl
progress_names_differ frame_rendered frame_rendered = refl
progress_names_differ frame_rendered pipeline_complete = refl
progress_names_differ pipeline_complete verse_classified = refl
progress_names_differ pipeline_complete image_generated = refl
progress_names_differ pipeline_complete frame_skipped = refl
progress_names_differ pipeline_complete frame_rendered = refl
progress_names_differ pipeline_complete pipeline_complete = refl

-- Two emissions are counted under the same name exactly if they are of the same kind.
names_differ : (p q : Payload) → text_eq (metric_name q) (metric_name p) ≡ same_kind p q
unfolding text_eq same_kind
names_differ (of_image d) (of_image e) = refl
names_differ (of_image d) (of_job e) = refl
names_differ (of_image d) (of_video e) = refl
names_differ (of_image d) (of_pipeline e) = refl
names_differ (of_image d) (of_applied_steering e) = refl
names_differ (of_image d) (of_received_steering e) = refl
names_differ (of_job d) (of_image e) = refl
names_differ (of_job d) (of_job e) = refl
names_differ (of_job d) (of_video e) = refl
names_differ (of_job d) (of_pipeline e) = refl
names_differ (of_job d) (of_applied_steering e) = refl
names_differ (of_job d) (of_received_steering e) = refl
names_differ (of_video d) (of_image e) = refl
names_differ (of_video d) (of_job e) = refl
names_differ (of_video d) (of_video e) = refl
names_differ (of_video d) (of_pipeline e) = refl
names_differ (of_video d) (of_applied_steering e) = refl
names_differ (of_video d) (of_received_steering e) = refl
names_differ (of_pipeline d) (of_image e) = refl
names_differ (of_pipeline d) (of_job e) = refl
names_differ (of_pipeline d) (of_video e) = refl
names_differ (of_pipeline d) (of_pipeline e) = progress_names_differ d.type e.type
names_differ (of_pipeline d) (of_applied_steering e) = refl
names_differ (of_pipeline d) (of_received_steering e) = refl
names_differ (of_applied_steering d) (of_image e) = refl
names_differ (of_applied_steering d) (of_job e) = refl
names_differ (of_applied_steering d) (of_video e) = refl
names_differ (of_applied_steering d) (of_pipeline e) = refl
names_differ (of_applied_steering d) (of_applied_steering e) = refl
names_differ (of_applied_steering d) (of_received_steering e) = refl
names_differ (of_received_steering d) (of_image e) = refl
names_differ (of_received_steering d) (of_job e) = refl
names_differ (of_received_steering d) (of_video e) = refl
names_differ (of_received_steering d) (of_pipeline e) = refl
names_differ (of_received_steering d) (of_applied_steering e) = refl
names_differ (of_received_steering d) (of_received_steering e) = refl

-- No name of an emission is inherited by objects.
name_is_ordinary :
    (p : Payload) → (is_prototype (metric_name p) ≡ false) × (is_inherited (metric_name p) ≡ false)
unfolding is_prototype is_inherited
name_is_ordinary (of_image d) = (refl, refl)
name_is_ordinary (of_job d) = (refl, refl)
name_is_ordinary (of_video d) = (refl, refl)
name_is_ordinary (of_pipeline d) = (refl, refl)
name_is_ordinary (of_applied_steering d) = (refl, refl)
name_is_ordinary (of_received_steering d) = (refl, refl)

abbrev pub is_message : SocketEvent → Bool
is_message (message_received (some m)) = true
is_message _ = false

-- A message that is read, of a type.
abbrev pub has_type : Text → SocketEvent → Bool
unfolding text_eq
has_type t (message_received (some m)) = text_eq m.type t
has_type t _ = false

-- The counters of a gateway against its emissions and against the messages that it has read, of which
-- there are `n`, with `seen t` of type `t`.
pub record IsCounted (n : ℕ) (seen : Text → ℕ) (h : Hub) : Type 0 where
  -- Each join attempt has one result.
  pub joins :
      h.metrics.join_requests
      ≡ h.metrics.join_success + h.metrics.join_denied + h.metrics.join_invalid
  pub all_emissions : h.metrics.emitted_events ≡ length h.emissions
  pub emissions_of_kind :
      (p : Payload)
      → cell_at (metric_name p) h.metrics.emitted_by_type
        ≡ number (count_where (λ e. same_kind p e.payload) h.emissions)
  pub all_messages : h.metrics.inbound_messages ≡ n
  pub messages_of_type : (t : Text) → cell_at t h.metrics.inbound_by_type ≡ cell_of t (seen t)

module _ (n : ℕ) (seen : Text → ℕ) where
  -- The other counters and the clients do not matter.
  elsewhere :
      (cs : List Client) (m : Metrics) (h : Hub)
      → m.join_requests ≡ m.join_success + m.join_denied + m.join_invalid
      → m.emitted_events ≡ h.metrics.emitted_events
      → m.emitted_by_type ≡ h.metrics.emitted_by_type
      → m.inbound_messages ≡ h.metrics.inbound_messages
      → m.inbound_by_type ≡ h.metrics.inbound_by_type
      → IsCounted n seen h
      → IsCounted n seen (record h { clients = cs; metrics = m })
  elsewhere cs m h joins e es i is c = record {
    joins = joins;
    all_emissions = e ∙ c.all_emissions;
    emissions_of_kind = λ p. ap (cell_at (metric_name p)) es ∙ c.emissions_of_kind p;
    all_messages = i ∙ c.all_messages;
    messages_of_type = λ t. ap (cell_at t) is ∙ c.messages_of_type t;
  }

  join_attempt-IsCounted :
      (cs : List Client) (r : JoinResult) (h : Hub)
      → IsCounted n seen h
      → IsCounted n seen (measure (record_join_attempt r) (record h { clients = cs }))
  join_attempt-IsCounted cs joined h c =
      elsewhere cs _ h (omega (arith, c.joins)) refl refl refl refl c
  join_attempt-IsCounted cs denied h c =
      elsewhere cs _ h (omega (arith, c.joins)) refl refl refl refl c
  join_attempt-IsCounted cs invalid h c =
      elsewhere cs _ h (omega (arith, c.joins)) refl refl refl refl c

  emission_counted :
      (project : Text) (payload : Payload) (h : Hub)
      → IsCounted n seen h
      → (p : Payload)
      → cell_at (metric_name p) (bump (metric_name payload) h.metrics.emitted_by_type)
        ≡ number (
            if same_kind p payload
            then suc (count_where (λ e. same_kind p e.payload) h.emissions)
            else count_where (λ e. same_kind p e.payload) h.emissions)
  emission_counted project payload h c p =
      let k = count_where (λ e. same_kind p e.payload) h.emissions in
      let (own, plain) = name_is_ordinary p in
      cell_at-bump (metric_name p) (metric_name payload) k h.metrics.emitted_by_type
        (c.emissions_of_kind p ∙ sym (cell_of-ordinary (metric_name p) k own plain))
      ∙ cell_of-ordinary (metric_name p) _ own plain
      ∙ ap (λ b. number (if b then suc k else k)) (names_differ p payload)

  emit-IsCounted :
      (project : Text) (payload : Payload) (h : Hub)
      → IsCounted n seen h
      → IsCounted n seen (emit project payload h)
  unfolding emit record_emitted
  emit-IsCounted project payload h c = record {
    joins = c.joins;
    all_emissions = omega (arith, c.all_emissions);
    emissions_of_kind = emission_counted project payload h c;
    all_messages = c.all_messages;
    messages_of_type = c.messages_of_type;
  }

  module _ (projects : List ProjectRow) (jwt : Jwt) (env : Environment) where
    connection-IsCounted :
        (id : ℕ) (handshake : Handshake) (now : ℕ) (h : Hub)
        → IsCounted n seen h
        → IsCounted n seen (handle_connection jwt env id handshake now h)
    unfolding handle_connection
    connection-IsCounted id handshake now h c =
        elim (Outcome-cases (authenticate_socket jwt env handshake now)) [
          | inl (f, e) ↦
              rw (handle_connection, e) (elsewhere h.clients _ h c.joins refl refl refl refl c)
          | inr (u, e) ↦ rw (handle_connection, e) (elsewhere _ _ h c.joins refl refl refl refl c)
        ]

    join_as-IsCounted :
        (id : ℕ) (project : Text) (o : Option Text) (h : Hub)
        → IsCounted n seen h
        → IsCounted n seen (join_as projects id project o h)
    unfolding join_as
    join_as-IsCounted id project none h c = join_attempt-IsCounted h.clients denied h c
    join_as-IsCounted id project (some user) h c =
        elim (Bool-cases (owns_project projects project user)) [
          | inl owns ↦ rw (join_as, owns) (join_attempt-IsCounted _ joined h c)
          | inr other ↦ rw (join_as, other) (join_attempt-IsCounted h.clients denied h c)
        ]

    join-IsCounted :
        (id : ℕ) (o : Option Text) (h : Hub)
        → IsCounted n seen h
        → IsCounted n seen (handle_join_project projects id o h)
    unfolding handle_join_project
    join-IsCounted id none h c = join_attempt-IsCounted h.clients invalid h c
    join-IsCounted id (some project) h c = elim (Bool-cases (is_uuid project)) [
      | inl valid ↦
          rw (handle_join_project, valid)
            (join_as-IsCounted id project (user_context (find (is_client id) h.clients)) h c)
      | inr bad ↦ rw (handle_join_project, bad) (join_attempt-IsCounted h.clients invalid h c)
    ]

  inbound-IsCounted :
      (type : Text) (h : Hub)
      → IsCounted n seen h
      → IsCounted
          (suc n)
          (λ t. if text_eq type t then suc (seen t) else seen t)
          (measure (record_inbound type) h)
  unfolding record_inbound
  inbound-IsCounted type h c = record {
    joins = c.joins;
    all_emissions = c.all_emissions;
    emissions_of_kind = c.emissions_of_kind;
    all_messages = omega (arith, c.all_messages);
    messages_of_type =
        λ t. cell_at-bump t type (seen t) h.metrics.inbound_by_type (c.messages_of_type t);
  }

message-IsCounted :
    (n : ℕ) (seen : Text → ℕ) (m : PipelineMessage) (h : Hub)
    → IsCounted n seen h
    → IsCounted
        (suc n)
        (λ t. if text_eq m.type t then suc (seen t) else seen t)
        (handle_pipeline_message (some m) h)
unfolding handle_pipeline_message
message-IsCounted n seen m h c =
    let now : Text → ℕ = λ t. if text_eq m.type t then suc (seen t) else seen t in
    let counted = inbound-IsCounted n seen m.type h c in
    elim (Bool-cases (truthy (or_empty m.project_id))) [
      | inl given ↦
          rw (handle_pipeline_message, given)
            (dispatch_message-keeps (IsCounted (suc n) now) (emit-IsCounted (suc n) now)
              (λ g d. elsewhere (suc n) now g.clients _ g d.joins refl refl refl refl d)
              (kind_of m.type) (or_empty m.project_id) m.body _ counted)
      | inr missing ↦ rw (handle_pipeline_message, missing) counted
    ]

module _ (projects : List ProjectRow) (jwt : Jwt) (env : Environment) where
  -- The counters after any run: each join attempt has one result; the emissions are counted in all,
  -- and each kind of them under a name of its own; and the messages that could be read are counted in
  -- all, and under their types, but for a type that every object inherits, whose counter becomes a
  -- text, or stays out for `__proto__`.
  pub metrics-IsCounted :
      (es : List SocketEvent)
      → IsCounted
          (count_where is_message es)
          (λ t. count_where (has_type t) es)
          (after projects jwt env es)
  unfolding after step handle_disconnect handle_leave_project handle_pipeline_message cell_at
      cell_of
  metrics-IsCounted [] = record {
    joins = refl;
    all_emissions = refl;
    emissions_of_kind = λ p. refl;
    all_messages = refl;
    messages_of_type = λ t. refl;
  }
  metrics-IsCounted (connected id handshake now ∷ es) =
      connection-IsCounted _ _ projects jwt env id handshake now _ (metrics-IsCounted es)
  metrics-IsCounted (disconnected id ∷ es) =
      let c = metrics-IsCounted es in
      elsewhere _ _ _ _ (after projects jwt env es) c.joins refl refl refl refl c
  metrics-IsCounted (join_requested id project ∷ es) =
      join-IsCounted _ _ projects jwt env id project _ (metrics-IsCounted es)
  metrics-IsCounted (leave_requested id project ∷ es) =
      let c = metrics-IsCounted es in
      elsewhere _ _ _ _ (after projects jwt env es) c.joins refl refl refl refl c
  metrics-IsCounted (message_received none ∷ es) =
      let c = metrics-IsCounted es in
      elsewhere _ _ _ _ (after projects jwt env es) c.joins refl refl refl refl c
  metrics-IsCounted (message_received (some m) ∷ es) =
      message-IsCounted _ _ m _ (metrics-IsCounted es)
  metrics-IsCounted (emission_asked project payload ∷ es) =
      emit-IsCounted _ _ project payload _ (metrics-IsCounted es)
