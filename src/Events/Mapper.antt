-- ===== src/Events/Mapper.antt =====
-- app/events/mapper.py: events to commands, and results to events. pydantic's parsers and writer,
-- `str(UUID)` and `uuid5` are parameters.
use be25_fin_thanos_meetbowl.Prelude.{
  Option, none, some, List, [], ◌∷◌, ◌++◌, contains, nat_eq, list_eq, ◌==◌, if◌then◌else◌,
}
use be25_fin_thanos_meetbowl.Text.{Text, codes}
use be25_fin_thanos_meetbowl.Errors.{Raises, returned, raised, ai, other, AiError, ai_error, ◌>>=◌}
use be25_fin_thanos_meetbowl.Schemas.{Uuid, Moment}
use be25_fin_thanos_meetbowl.Schemas.Minutes.{MinutesGenerationCommand, MinutesGenerationResult}
use be25_fin_thanos_meetbowl.Schemas.Indexing.{IndexDocumentCommand}
use be25_fin_thanos_meetbowl.Schemas.Events.{
  EventEnvelope, MeetingEndedPayload, MinutesGenerationRequestedPayload, MinutesGeneratedPayload,
  DocumentIndexRequestedPayload, DocumentIndexRemovedPayload,
}

abbrev pub meeting_ended : Text
meeting_ended = codes "meeting.ended"

abbrev pub minutes_generation_requested : Text
minutes_generation_requested = codes "minutes.generation.requested"

abbrev pub minutes_generated : Text
minutes_generated = codes "minutes.generated"

abbrev pub document_index_requested : Text
document_index_requested = codes "document.index.requested"

abbrev pub document_index_removed : Text
document_index_removed = codes "document.index.removed"

-- The code outside the repository: `none` is a `ValidationError`.
pub record Codec : Type 1 where
  pub Json : Type 0
  pub meeting_ended_payload : Json → Option MeetingEndedPayload
  pub generation_requested_payload : Json → Option MinutesGenerationRequestedPayload
  pub index_requested_payload : Json → Option DocumentIndexRequestedPayload
  pub index_removed_payload : Json → Option DocumentIndexRemovedPayload
  pub dump : MinutesGeneratedPayload → Json
  pub uuid_text : Uuid → Text
  pub uuid5 : Text → Uuid

invalid_payload : AiError
invalid_payload = ai_error (codes "AI_INVALID_EVENT") (codes "이벤트 payload가 올바르지 않습니다.")

unsupported : Text → AiError
unsupported event_type =
    ai_error (codes "AI_INVALID_EVENT") (codes "지원하지 않는 이벤트입니다: " ++ event_type)

-- `model_validate` inside `try … except ValidationError`.
unfoldable pub validated {ℓ} : {A : Type ℓ} → Option A → Raises A
unfolding invalid_payload
validated none = raised (ai invalid_payload)
validated (some a) = returned a

-- `MinutesGenerationCommand(**payload.model_dump())`: fields that the payload lacks are `None`.
unfoldable pub command_from_meeting_ended : MeetingEndedPayload → MinutesGenerationCommand
command_from_meeting_ended p = record {
  meeting_id = p.meeting_id;
  organization_id = p.organization_id;
  reviewer_user_id = p.reviewer_user_id;
  host_user_id = some p.host_user_id;
  requested_by_user_id = none;
  title = some p.title;
  started_at = some p.started_at;
  ended_at = some p.ended_at;
  prompt_version = none;
  reason = none;
  participants = none;
  raw_transcript = none;
}

unfoldable pub command_from_request : MinutesGenerationRequestedPayload → MinutesGenerationCommand
command_from_request p = record {
  meeting_id = p.meeting_id;
  organization_id = p.organization_id;
  reviewer_user_id = p.reviewer_user_id;
  host_user_id = none;
  requested_by_user_id = some p.requested_by_user_id;
  title = none;
  started_at = none;
  ended_at = none;
  prompt_version = some p.prompt_version;
  reason = some p.reason;
  participants = none;
  raw_transcript = none;
}

abbrev pub document_types : List Text
document_types =
    codes "BACKUP_MAIL"
    ∷ codes "MEETING_MINUTES"
    ∷ codes "MINUTES"
    ∷ codes "PERSONAL_MEMO"
    ∷ codes "PERSONAL_DRIVE_FILE"
    ∷ codes "SHARED_WORKSPACE_FILE_VERSION"
    ∷ []

-- `IndexDocumentCommand(**payload.model_dump(), created_at=…)`, outside of the `try`: a document type that
-- is none of the six names raises here. The other fields fit, since the payload has the same ones.
unfoldable pub valid_command : DocumentIndexRequestedPayload → Moment → Raises IndexDocumentCommand
valid_command p occurred_at =
    if contains p.document_type document_types
    then returned (record {
      document_id = p.document_id;
      document_type = p.document_type;
      organization_id = p.organization_id;
      owner_user_id = p.owner_user_id;
      title = p.title;
      content = p.content;
      access_scope = p.access_scope;
      metadata = p.metadata;
      created_at = occurred_at;
    })
    else raised (other (codes "ValidationError"))

module _ (codec : Codec) where
  open codec use {
    Json, meeting_ended_payload, generation_requested_payload, index_requested_payload,
    index_removed_payload, dump, uuid_text, uuid5,
  }

  unfoldable pub removed_document_id_from_event : EventEnvelope Json → Raises Text
  unfolding unsupported validated
  removed_document_id_from_event envelope =
      if envelope.event_type == document_index_removed
      then (do
        payload ← validated (index_removed_payload envelope.payload)
        returned (uuid_text payload.document_id))
      else raised (ai (unsupported envelope.event_type))

  unfoldable pub command_from_event : EventEnvelope Json → Raises MinutesGenerationCommand
  unfolding unsupported validated command_from_meeting_ended command_from_request
  command_from_event envelope =
      if envelope.event_type == meeting_ended
      then (do
        payload ← validated (meeting_ended_payload envelope.payload)
        returned (command_from_meeting_ended payload))
      else if envelope.event_type == minutes_generation_requested
      then (do
        payload ← validated (generation_requested_payload envelope.payload)
        returned (command_from_request payload))
      else raised (ai (unsupported envelope.event_type))

  unfoldable pub index_command_from_event : EventEnvelope Json → Raises IndexDocumentCommand
  unfolding unsupported validated valid_command
  index_command_from_event envelope =
      if envelope.event_type == document_index_requested
      then (do
        payload ← validated (index_requested_payload envelope.payload)
        valid_command payload envelope.occurred_at)
      else raised (ai (unsupported envelope.event_type))

  unfoldable pub generated_event_id : Uuid → Uuid
  generated_event_id source_event_id =
      uuid5 (codes "minutes.generated:" ++ uuid_text source_event_id)

  -- `now` is the clock's reading.
  unfoldable pub generated_event :
      Moment → MinutesGenerationResult → Uuid → Uuid → EventEnvelope Json
  unfolding generated_event_id
  generated_event now result correlation_id source_event_id = record {
    event_id = generated_event_id source_event_id;
    event_type = minutes_generated;
    occurred_at = now;
    producer = codes "ai-server";
    correlation_id = correlation_id;
    payload = dump (record {
      meeting_id = result.meeting_id;
      organization_id = result.organization_id;
      reviewer_user_id = result.reviewer_user_id;
      summary = result.minutes_draft.summary;
      agenda_items = result.minutes_draft.agenda_items;
      decisions = result.minutes_draft.decisions;
      action_items = result.minutes_draft.action_items;
      editor_content = result.editor_content;
      model = result.model;
      prompt_version = result.prompt_version;
    });
  }
