-- ===== src/Messaging/Publisher.antt =====
-- src/infra/nats/nats.publisher.service.ts over `NatsClientService.publish`: a publication is
-- acknowledged by the broker, or the call throws.
use back_end.Prelude.{
  ℕ, String, Option, none, ◌∷◌, ◌≡◌, ◌⊎◌, inl, inr, refl, Bool-cases, if◌then◌else◌,
}
use back_end.Database.Json.{Json, Fields}
use back_end.Database.Entities.{Uuid, Instant, Score}
use back_end.World.{
  World, Outgoing, published, Correlation, of_id, MsgId, Action, ok, err, nats_error,
}

abbrev pub with_sent : Outgoing → World → World
with_sent m w = record w { outbox = m ∷ w.outbox }

unfoldable pub publish : String → Json → MsgId → Action (Unit {0})
publish subject payload msg_id w =
    let m = published subject payload msg_id in
    if w.accepts m then (ok tt, with_sent m w) else (err nats_error, w)

abbrev pub build_msg_id : Correlation → String → Option Uuid → MsgId
build_msg_id c subject pipeline = record {
  correlation = c;
  subject = subject;
  pipeline_execution_id = pipeline;
}

pub record SessionFinalizedEvent : Type 0 where
  pub session_id : Uuid
  pub workflow_id : Uuid
  pub final_version_number : ℕ
  pub final_confidence : Score
  pub finalized_at : Instant

abbrev pub session_finalized_payload : SessionFinalizedEvent → Json
session_finalized_payload e = Json.object (
    Fields.field "session_id" (Json.uuid e.session_id) (
      Fields.field "workflow_id" (Json.uuid e.workflow_id) (
        Fields.field "final_version_number" (Json.number e.final_version_number) (
          Fields.field "final_confidence" (Json.number e.final_confidence)
            (Fields.field "finalized_at" (Json.instant e.finalized_at) Fields.end)))))

unfoldable pub publish_session_finalized : SessionFinalizedEvent → Action (Unit {0})
unfolding publish
publish_session_finalized e =
    publish "session.events.finalized" (session_finalized_payload e)
      (build_msg_id (of_id e.session_id) "session.events.finalized" none)

-- `DocumentPreprocessEvent` (src/core/messaging/events)
pub record DocumentPreprocessEvent : Type 0 where
  pub document_id : Uuid
  pub file_type : String
  pub storage_url : String

abbrev pub document_preprocess_payload : DocumentPreprocessEvent → Json
document_preprocess_payload e = Json.object (
    Fields.field "document_id" (Json.uuid e.document_id) (
      Fields.field "file_type" (Json.text e.file_type)
        (Fields.field "storage_url" (Json.text e.storage_url) Fields.end)))

unfoldable pub publish_document_preprocess : DocumentPreprocessEvent → Action (Unit {0})
unfolding publish
publish_document_preprocess e =
    publish "document.preprocess" (document_preprocess_payload e)
      (build_msg_id (of_id e.document_id) "document.preprocess" none)

-- A publication is sent, or throws and leaves the world as it was.
pub document_preprocess_outcome :
    (e : DocumentPreprocessEvent) (w : World)
    → ((m : Outgoing) × (publish_document_preprocess e w ≡ (ok tt, with_sent m w)))
      ⊎ (publish_document_preprocess e w ≡ (err nats_error, w))
unfolding publish_document_preprocess
document_preprocess_outcome e w =
    let m =
      published "document.preprocess" (document_preprocess_payload e)
        (build_msg_id (of_id e.document_id) "document.preprocess" none) in
    elim (Bool-cases (w.accepts m)) [ inl a ↦ inl (m, rw (a) refl) | inr a ↦ inr (rw (a) refl) ]
