-- ===== src/Tests/Indexing.antt =====
-- Indexing a short document, with an embedding that counts characters, and who finds it.
use be25_fin_thanos_meetbowl.Prelude.{
  ℕ, ◌≡◌, refl, not, ◌&&◌, ◌||◌, none, some, List, [], ◌∷◌, map, arith, ◌==◌, nat_eq, list_eq,
  option_eq, pair_eq, contains, length, elements, null, all,
}
use be25_fin_thanos_meetbowl.Text.{Text, codes, decimal, strip}
use be25_fin_thanos_meetbowl.Errors.{returned}
use be25_fin_thanos_meetbowl.Schemas.{Uuid}
use be25_fin_thanos_meetbowl.Schemas.Feedback.{MeetingFeedbackCommand}
use be25_fin_thanos_meetbowl.Schemas.Indexing.{
  AccessScope, DocumentMetadata, IndexDocumentCommand, DocumentChunk, DocumentIndexingResult,
}
use be25_fin_thanos_meetbowl.Rag.AccessFilter.{build_chat_access_filter}
use be25_fin_thanos_meetbowl.Rag.AccessFilter.Readable.{overlaps}
use be25_fin_thanos_meetbowl.Rag.FeedbackFilter.{FeedbackEngine, build_feedback_access_filter}
use be25_fin_thanos_meetbowl.Workflows.DocumentIndexing.{
  Ports, chat_source_type, payload_of, execute,
}
use be25_fin_thanos_meetbowl.Workflows.DocumentIndexing.Points.{IsIndexed, execute-IsIndexed}
use be25_fin_thanos_meetbowl.Workflows.DocumentIndexing.Found.{
  payload_values, shares, found_in_chat_lem, found_in_feedback_lem,
}
use be25_fin_thanos_meetbowl.Tests.Access.{engine, question}

abbrev ports : Ports
ports = record {
  Vector = ℕ;
  Bytes = Text;
  embed = λ texts.
      returned
        (record { embeddings = map length texts; dimensions = 1; model_name = codes "count" });
  replace_document = λ request. returned tt;
  delete_document = λ document_id. returned tt;
  download = none;
  extract = none;
  chunk_size = 12;
  chunk_overlap = 3;
  chunk_strategy_version = codes "v1";
  uuid_text = λ n. n ∷ [];
  uuid5 = λ t. t;
  isoformat = λ n. decimal n;
}

-- Minutes of meeting 6 in organization 5, for users 3 and 8 and workspace 4.
abbrev document : IndexDocumentCommand
document = record {
  document_id = 1;
  document_type = codes "MEETING_MINUTES";
  organization_id = some 5;
  owner_user_id = 2;
  title = codes "t";
  content = some (codes "decided today, and it was good");
  access_scope = record {
    user_ids = 3 ∷ 8 ∷ [];
    department_ids = [];
    shared_workspace_ids = 4 ∷ [];
  };
  metadata = record {
    meeting_id = some 6;
    approved_at = none;
    workspace_id = none;
    file_version_id = none;
    mail_id = none;
    storage_key = none;
    content_type = none;
  };
  created_at = 9;
}

abbrev indexed : DocumentIndexingResult
indexed = record {
  document_id = 1;
  document_type = codes "MEETING_MINUTES";
  chunk_count = 3;
  embedding_model = codes "count";
  indexed_at = 7;
}

executed : execute ports 7 document ≡ returned indexed
unfolding execute strip be25_fin_thanos_meetbowl.Schemas.Indexing.is_empty
    be25_fin_thanos_meetbowl.Pipelines.Chunking.block_chunks
    be25_fin_thanos_meetbowl.Text.split_from
    be25_fin_thanos_meetbowl.Pipelines.Chunking.split_long_block
    be25_fin_thanos_meetbowl.Pipelines.Chunking.is_markdown_table
    be25_fin_thanos_meetbowl.Pipelines.Chunking.enumerate
    be25_fin_thanos_meetbowl.Pipelines.Chunking.Window.split_plain_window
    be25_fin_thanos_meetbowl.Pipelines.Chunking.Window.window_loop
executed = refl

execute-IsIndexed_example : IsIndexed ports document indexed
execute-IsIndexed_example = execute-IsIndexed ports document 7 indexed (omega arith) executed

abbrev chunk : DocumentChunk
chunk = record { chunk_index = 0; content = codes "decided"; embedding_text = codes "t\n\ndecided" }

injective : (a b : Uuid) → a ∷ [] ≡ b ∷ [] → a ≡ b
injective a b h = cc

abbrev point : Text → List Text
point key = payload_values (λ n. n ∷ []) (payload_of ports document chunk) key

found_in_chat_lem_example :
    engine.accepts (build_chat_access_filter (λ n. n ∷ []) question (codes "MINUTES" ∷ [])) point
    ≡ ((document.owner_user_id == question.user_id
          || (contains question.user_id document.access_scope.user_ids
              || shares document.access_scope.shared_workspace_ids question.shared_workspace_ids))
        && (null (codes "MINUTES" ∷ [])
            || contains (chat_source_type document.document_type) (codes "MINUTES" ∷ [])))
found_in_chat_lem_example =
    found_in_chat_lem ports injective document chunk engine point (λ key. refl) question
      (codes "MINUTES" ∷ [])

abbrev feedback_engine : FeedbackEngine
feedback_engine = record {
  Point = Text → List Text;
  values = λ p key. p key;
  accepts = λ f p.
      all (λ m. overlaps (p m.key) m.values) f.must
      && all (λ m. not (overlaps (p m.key) m.values)) f.must_not;
  accepts-clauses = λ f p. refl;
}

abbrev meeting : MeetingFeedbackCommand
meeting = record {
  meeting_id = 7;
  session_id = 1;
  organization_id = 5;
  participant_user_ids = 8 ∷ 3 ∷ [];
  correlation_id = 1;
  transcript_window = [];
}

found_in_feedback_lem_example :
    feedback_engine.accepts (build_feedback_access_filter (λ n. n ∷ []) meeting (7 ∷ [])) point ≡ (
      contains meeting.organization_id (elements document.organization_id)
      && (contains document.document_type (codes "MEETING_MINUTES" ∷ codes "MINUTES" ∷ [])
          && all
              (λ user. contains user document.access_scope.user_ids)
              meeting.participant_user_ids)
      && not (contains meeting.meeting_id (elements document.metadata.meeting_id)))
found_in_feedback_lem_example =
    found_in_feedback_lem ports injective document chunk feedback_engine point (λ key. refl) meeting
