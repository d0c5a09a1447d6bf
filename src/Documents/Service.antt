-- ===== src/Documents/Service.antt =====
-- src/modules/documents/services/documents.service.ts. The storage of the files (MinIO behind
-- document-storage.service.ts) is a parameter; a response is the row with its link.
use back_end.Prelude.{
  ℕ, ◌+◌, String, Bool, false, not, ◌&&◌, Option, none, some, ◌==◌, ◌===◌, string_Eq, nat_Eq,
  option_Eq, is_some,
}
use back_end.Database.Json.{Json, Fields, or_null}
use back_end.Database.Orm.{Orm}
use back_end.Database.Entities.{Uuid, Instant, Session, Document, document_entity}
use back_end.World.{
  World, Action, Result, ok, bad_request, not_found, pure, throw_if, lift, gets, modify, or_throw,
  ◌>>=◌, ◌>>◌,
}
use back_end.Messaging.Audit.{log, user_entry}
use back_end.Messaging.Publisher.{DocumentPreprocessEvent, publish_document_preprocess}
use back_end.Sessions.Access.{RequestUser, in_org}
use back_end.Documents.Validation.{
  Bytes, FileTools, validate_document_mime_type, assert_document_file_size_within_limit,
  assert_session_document_size_within_limit,
}

pub record UploadDocumentDto : Type 0 where
  pub session_id : Uuid
  pub workflow_id : Option Uuid

pub record UploadedFile : Type 0 where
  pub originalname : String
  pub size : ℕ
  pub buffer : Bytes

-- The storage service and the names of its objects: the url that is kept and the link that is
-- given out.
pub record DocumentStorage : Type 0 where
  -- organisation, workflow, session, version, a new id, and the name of the file
  pub object_key : Uuid → Uuid → Uuid → ℕ → Uuid → String → String
  pub store_document : String → String → Bytes → Result (String × String)
  pub create_presigned_url : String → Result String

-- The ids and the time that an upload or a new version draws.
pub record Draw : Type 0 where
  pub id : Uuid
  pub object_id : Uuid
  pub now : Instant

abbrev pub event_of : Document → DocumentPreprocessEvent
event_of d = record { document_id = d.id; file_type = d.file_type; storage_url = d.storage_url }

abbrev pub text_state : Document → Json
text_state d = Json.object (
    Fields.field "extracted_text" (or_null Json.text d.extracted_text) (
      Fields.field "preprocessing_confidence" (or_null Json.number d.preprocessing_confidence)
        Fields.end))

abbrev pub uploaded : Draw → Session → UploadedFile → String → String → ℕ → Document
uploaded draw session file type url version = record {
  id = draw.id;
  workflow_id = some session.workflow_id;
  session_id = some session.id;
  filename = file.originalname;
  file_type = type;
  storage_url = url;
  file_size_bytes = file.size;
  extracted_text = none;
  preprocessing_confidence = none;
  doc_version = version;
  created_at = draw.now;
  deleted_at = none;
  archived_at = none;
}

abbrev pub reprocessed : Draw → Document → ℕ → Document
reprocessed draw d version = record d {
  id = draw.id;
  extracted_text = none;
  preprocessing_confidence = none;
  doc_version = version;
  created_at = draw.now;
  deleted_at = none;
  archived_at = none;
}

abbrev pub in_session : Uuid → Document → Bool
in_session session_id d = d.session_id === some session_id

abbrev pub has_name : Uuid → String → Document → Bool
has_name session_id filename d = in_session session_id d && d.filename === filename

module _ (orm : Orm) where
  abbrev pub owned_session : World → Uuid → Uuid → Option Session
  owned_session w session_id org_id =
      orm.find_one
        (λ (s : Session).
          s.id == session_id && is_some (orm.find_one (in_org s.workflow_id org_id) w.workflows))
        w.sessions

  -- The join with the workflows: a row whose column is null joins none.
  abbrev pub is_of_org : World → Uuid → Document → Bool
  is_of_org w org_id d = elim d.workflow_id [
    | none ↦ false
    | some id ↦ is_some (orm.find_one (in_org id org_id) w.workflows)
  ]

  unfoldable pub find_active_owned_document : Uuid → Uuid → Action Document
  find_active_owned_document document_id org_id = do
    found ← gets (λ w.
        orm.find_one
          (λ (d : Document).
            d.id == document_id && not (is_some d.deleted_at) && is_of_org w org_id d)
          w.documents)
    or_throw found (not_found "Document not found.")

  abbrev pub get_session_document_bytes : Uuid → World → ℕ
  get_session_document_bytes session_id w =
      orm.sum (λ (d : Document). d.file_size_bytes) (in_session session_id) w.documents

  abbrev pub get_next_document_version : Uuid → String → World → ℕ
  get_next_document_version session_id filename w =
      orm.max (λ (d : Document). d.doc_version) (has_name session_id filename) w.documents + 1

  abbrev pub save_document : Document → Action (Unit {0})
  save_document d = modify (λ w. record w { documents = orm.save d w.documents })

  unfoldable pub soft_delete_document : Instant → Uuid → RequestUser → Action (Unit {0})
  unfolding find_active_owned_document
  soft_delete_document now document_id current_user = do
    document ← find_active_owned_document document_id current_user.org_id
    save_document (record document { deleted_at = some now })

  unfoldable pub get_extracted_text : Uuid → RequestUser → Action (Option String)
  unfolding find_active_owned_document
  get_extracted_text document_id current_user = do
    document ← find_active_owned_document document_id current_user.org_id
    pure document.extracted_text

  -- The audit row names the document by the text of its id.
  unfoldable pub update_extracted_text :
      (Uuid → String) → Uuid → String → RequestUser → Action Document
  unfolding find_active_owned_document log
  update_extracted_text uuid_text document_id extracted_text current_user = do
    document ← find_active_owned_document document_id current_user.org_id
    let saved = record document { extracted_text = some extracted_text }
    save_document saved
    log orm (
        user_entry saved.workflow_id current_user.id "DOCUMENT_EXTRACTED_TEXT_UPDATED"
          (some (uuid_text saved.id)) (some (text_state document)) (some (text_state saved)))
    pure saved

  module _ (storage : DocumentStorage) where
    unfoldable pub get_document : Uuid → RequestUser → Action (Document × String)
    unfolding find_active_owned_document
    get_document document_id current_user = do
      document ← find_active_owned_document document_id current_user.org_id
      link ← lift (storage.create_presigned_url document.storage_url)
      pure (document, link)

    -- The end of both ways to a new version: the row, the event and the response.
    unfoldable pub add_document : Document → Result String → Action (Document × String)
    unfolding publish_document_preprocess
    add_document d link = do
      save_document d
      publish_document_preprocess (event_of d)
      url ← lift link
      pure (d, url)

    unfoldable pub reprocess_document : Draw → Uuid → RequestUser → Action (Document × String)
    unfolding find_active_owned_document add_document
    reprocess_document draw document_id current_user = do
      document ← find_active_owned_document document_id current_user.org_id
      session_id ←
          or_throw document.session_id
            (bad_request "Only workflow session documents can be reprocessed.")
      throw_if (not (is_some document.workflow_id))
          (bad_request "Only workflow session documents can be reprocessed.")
      version ← gets (get_next_document_version session_id document.filename)
      add_document (reprocessed draw document version)
          (storage.create_presigned_url document.storage_url)

    module _ (tools : FileTools) where
      unfoldable pub upload_document :
          Draw → UploadDocumentDto → Option UploadedFile → RequestUser → Action (Document × String)
      unfolding validate_document_mime_type assert_document_file_size_within_limit
          assert_session_document_size_within_limit add_document
      upload_document draw dto upload current_user = do
        file ←
            or_throw upload (bad_request "A multipart file is required under the \"file\" field.")
        lift (assert_document_file_size_within_limit file.size)
        type ← lift (validate_document_mime_type tools file.originalname file.buffer)
        found ← gets (λ w. owned_session w dto.session_id current_user.org_id)
        session ← or_throw found (not_found "Session not found.")
        throw_if (is_some dto.workflow_id && not (dto.workflow_id === some session.workflow_id)) (
            bad_request
              "The provided workflowId does not match the workflow linked to the session.")
        bytes ← gets (get_session_document_bytes session.id)
        lift (assert_session_document_size_within_limit bytes file.size)
        version ← gets (get_next_document_version session.id file.originalname)
        let key =
            storage.object_key current_user.org_id session.workflow_id session.id version
              draw.object_id file.originalname
        stored ← lift (storage.store_document key type file.buffer)
        add_document (uploaded draw session file type stored.0 version) (ok stored.1)
