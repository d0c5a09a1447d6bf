-- ===== src/Documents/Requests.antt =====
-- The requests to src/modules/documents that write, and what they can do to the table.
use back_end.Prelude.{ℕ, String, Bool, true, false, ◌≡◌, Option, some, option_Eq, nat_Eq}
use back_end.Database.Rows.{Contains}
use back_end.Database.Orm.{Orm}
use back_end.Database.Entities.{Uuid, Instant, Document, document_entity}
use back_end.World.{World, Action, pure, ◌>>◌}
use back_end.Sessions.Access.{RequestUser}
use back_end.Documents.Validation.{FileTools}
use back_end.Documents.Service.{
  UploadDocumentDto, UploadedFile, DocumentStorage, Draw, get_session_document_bytes,
  get_next_document_version, soft_delete_document, update_extracted_text, reprocess_document,
  upload_document,
}

-- The requests of the controller that write.
pub data Request : Type 0 where
  upload : Draw → UploadDocumentDto → Option UploadedFile → Request
  remove : Instant → Uuid → Request
  correct : Uuid → String → Request
  reprocess : Draw → Uuid → Request

abbrev pub is_reprocess : Request → Bool
is_reprocess (reprocess _ _) = true
is_reprocess _ = false

module _ (orm : Orm) (storage : DocumentStorage) (tools : FileTools)
    (uuid_text : Uuid → String) where
  unfoldable pub serve : Request → RequestUser → Action (Unit {0})
  unfolding upload_document soft_delete_document update_extracted_text reprocess_document
  serve (upload draw dto file) caller =
      upload_document orm storage tools draw dto file caller >> pure tt
  serve (remove now id) caller = soft_delete_document orm now id caller
  serve (correct id text) caller = update_extracted_text orm uuid_text id text caller >> pure tt
  serve (reprocess draw id) caller = reprocess_document orm storage draw id caller >> pure tt

abbrev pub total : Orm → Uuid → World → ℕ
total orm session_id w = get_session_document_bytes orm session_id w

-- A new row of the session, with the next version of its name.
pub record Added (orm : Orm) (w w' : World) : Type 0 where
  pub row : Document
  pub session_id : Uuid
  pub in_its_session : row.session_id ≡ some session_id
  pub next : row.doc_version ≡ get_next_document_version orm session_id row.filename w
  pub documents : w'.documents ≡ orm.save row w.documents

-- A row was saved again in place.
pub record Rewritten (orm : Orm) (w w' : World) : Type 0 where
  pub old : Document
  pub row : Document
  pub old_in : Contains old w.documents
  pub same_id : row.id ≡ old.id
  pub same_session : row.session_id ≡ old.session_id
  pub same_name : row.filename ≡ old.filename
  pub same_version : row.doc_version ≡ old.doc_version
  pub same_size : row.file_size_bytes ≡ old.file_size_bytes
  pub documents : w'.documents ≡ orm.save row w.documents
