-- ===== src/Lib.antt =====
-- MeetBowl's AI server: a Python service that writes minutes of meetings, indexes documents for a chat
-- bot and reminds the participants of a running meeting of what was decided before. Messages come from
-- RabbitMQ (app/events/rabbit.py) and from Redis streams (app/consumers/redis_feedback.py); they run
-- workflows whose pure parts are pipelines (app/pipelines), and the documents are kept in Qdrant
-- (app/rag/qdrant_vector_store.py).
--
-- Which file models what:
-- - Events/Minutes: `MinutesEventProcessor` of app/events/rabbit.py. `process` is the whole handler, from
--   a message to the new state of the tracker and the list of effects (Events/Effect); the calls of its
--   `try` block are `run_command`, what follows them `settle`, and `_handle_failure` is `handle_failure`.
--   The workflow and the publisher are arguments (`Attempt`) that may differ at every delivery.
-- - Events/Documents: the two document consumers of the same file, in the same form.
-- - Events/Tracker and Events/Tracker/Redis: app/events/idempotency.py. The record `Tracker` is what a
--   consumer relies on; both trackers fill it. The Redis server is a parameter.
-- - Events/Mapper: app/events/mapper.py. pydantic's parsers and writer, `str(UUID)` and `uuid5` are the
--   parameters of a `Codec`.
-- - Feedback/Window, Feedback/State and Feedback/Consumer: `MeetingWindowState` and the state and the
--   handler of `FeedbackEventProcessor` of app/consumers/redis_feedback.py. `process_payload` is
--   `process_raw` after parsing; the handler is cut
--   at its early returns into `add_segment`, `accept`, `query`, `after_query` and `publish_result`.
--   Feedback/Consumer/Stream is the loop of `_read_stream` over the messages of one read.
-- - Rag/VectorStore: app/rag/qdrant_vector_store.py over an HTTP client that is a parameter.
-- - Rag/AccessFilter: app/rag/access_filter.py. The search engine that reads the filter is a parameter
--   with the documented meaning of `must`, `should` and `match`.
-- - Pipelines: Chunking (app/pipelines/chunking.py), Evidence (app/pipelines/minutes_evidence.py) and
--   Quality (app/pipelines/minutes_quality.py); `str.casefold` is a parameter.
--   Transcript (app/pipelines/transcript.py) and Tiptap (app/pipelines/tiptap.py) belong to them, with
--   `str.isalpha` as a parameter.
-- - Workflows/MinutesGeneration: app/workflows/minutes_generation.py, the composition of these pipelines.
--   The context loader and the generation port are parameters.
-- - Workflows/DocumentIndexing: app/workflows/document_indexing.py. The ports are parameters; a request to
--   the store carries whole points with their payload. DocumentIndexing/Found reads this payload through
--   the filters of the two searches, Rag/AccessFilter and Rag/FeedbackFilter
--   (app/rag/feedback_access_filter.py).
-- - Workflows/MeetingFeedback: app/workflows/meeting_feedback.py.
-- - Rag/Merging: app/rag/source_merge.py, app/rag/multi_query_search.py and
--   app/providers/vector_score_reranker.py, which share the list with an index of documents (`Collected`).
-- - Rag/QueryExpansion: app/rag/query_expansion.py, over Cache, which is app/core/cache.py.
-- - Providers: Citations, AnswerFormat and Chat are app/providers/pydantic_ai_chat.py, SinglePass is
--   app/providers/single_pass_chat.py. The agent is a parameter with a state of its own, whose runs tell
--   what the tools found; a retry is one more run.
-- - Rag/QdrantChat: app/rag/qdrant_chat.py. The bodies of the requests are data, and the server that answers
--   them is a parameter; a payload is a record of the fields that are read.
-- - Providers/ContextLoader: app/providers/http_minutes_context_loader.py, which the minutes workflow takes
--   as its loader.
-- - Providers/Routing: app/providers/routing_chat.py with app/rag/chat_router.py and app/workflows/chat.py,
--   app/providers/fallback_structured_generation.py and app/providers/structured_generation_router.py.
-- - Providers/GeminiReranker: app/providers/gemini_reranker.py.
-- - Rag/QdrantFeedback: app/rag/qdrant_feedback.py, which the feedback workflow takes as its search.
-- - Rag/Sparse: app/rag/sparse.py, the encoder of the sparse vectors.
-- - Schemas and Errors: app/schemas and app/core/errors.py.
-- - Prelude, Text, Dedupe, Sort: lists, dicts, strings, the loop with a set of seen keys and sorting. Tests
--   holds the concrete inputs.
--
-- How values are modelled: a UUID is a number; a moment, a delay or an interval is a number of
-- milliseconds; a text is the list of its code points; a dict is an association list in insertion order.
-- An exception is an `AiError` or the name of another class. Python subtracts integers below zero where
-- numbers here stop at 0; such tests are written as sums. Where the program builds a value of a schema from
-- parts that may not fit (the chunks of a document, the answer of a chat, the draft of minutes, the context
-- of a command, the command of an index request), the checks of the schema are written out and raise a
-- `ValidationError`.
--
-- Bounds and fuel: `window_loop` has one round more than the text has characters, and each round moves
-- its start; `deliver`, the redelivery of one message, needs more rounds than there are retries left;
-- `decimal` has one round more than the number. All other loops are structural.
--
-- Not modelled: calls of the tracker that raise, the expiry of a Redis key between two deliveries (what time
-- does to the keys is in Events/Tracker/Redis), logging, cancellation, tasks that wait for one lock of the
-- cache, the order in which parallel searches fail, the broker's connection and topology, the HTTP API, the
-- models' and embeddings' adapters, prompts and configuration, and the tools of the chat agent besides what
-- they find and show.
pub mod Prelude
pub mod Text
pub mod Errors
pub mod Schemas
pub mod Events
pub mod Rag
pub mod Feedback
pub mod Pipelines
pub mod Dedupe
pub mod Sort
pub mod Cache
pub mod Providers
pub mod Workflows
pub mod Tests
