-- ===== src/Documents/Uploads.antt =====
-- What an upload does to the table, step by step.
use back_end.Prelude.{
  ℕ, ◌+◌, ◌≤◌, String, Bool, not, ◌&&◌, ◌≡◌, ◌∙◌, ◌⊎◌, inl, inr, refl, ap, Option, none, some,
  ◌===◌, is_some, option_Eq, nat_Eq, arith,
}
use back_end.Database.Orm.{Orm}
use back_end.Database.Entities.{Session, Document, document_entity}
use back_end.World.{
  Exception, World, bind_lem, bad_request, throw_if, gets, or_throw, Ends, lift-Ends, or_throw-Ends,
  throw_if-Ends, Action, Result, ok, err, not_found, lift, pure, ◌>>=◌, ◌>>◌,
}
use back_end.Messaging.Publisher.{
  publish_document_preprocess, document_preprocess_outcome, with_sent,
}
use back_end.Sessions.Access.{RequestUser}
use back_end.Documents.Validation.{
  FileTools, validate_document_mime_type, assert_document_file_size_within_limit,
  assert_session_document_size_within_limit, max_session_document_total_size_bytes,
}
use back_end.Documents.Service.{
  UploadDocumentDto, UploadedFile, DocumentStorage, Draw, event_of, uploaded, owned_session,
  get_session_document_bytes, get_next_document_version, save_document, add_document,
  upload_document,
}
use back_end.Documents.Requests.{Added, total}

size_fits :
    (bytes size : ℕ) {a : Unit {0}}
    → assert_session_document_size_within_limit bytes size ≡ ok a
    → bytes + size ≤ max_session_document_total_size_bytes
unfolding assert_session_document_size_within_limit
size_fits bytes size h = ground (arith, h)

module _ (orm : Orm) (storage : DocumentStorage) (w : World) where
  -- The event and the link leave the table alone.
  link-documents :
      (v : World) (d : Document) (l : Result String)
      → let respond : String → Action (Document × String) = λ url. pure (d, url) in
        ((publish_document_preprocess (event_of d) >> (lift l >>= respond)) v).1.documents
        ≡ v.documents
  link-documents v d l =
      let respond : String → Action (Document × String) = λ url. pure (d, url) in
      let rest = lift l >>= respond in
      elim (document_preprocess_outcome (event_of d) v) [
        | inl (m, e) ↦
            ap (λ p. p.1.documents)
              (bind_lem (publish_document_preprocess (event_of d)) (λ _. rest) v e)
            ∙ (lift-Ends (λ v'. v'.documents ≡ v.documents) (with_sent m v) l respond refl
                (λ url _. record { ends = refl })).ends
        | inr e ↦
            ap
              (λ (p : Result (Unit {0}) × World).
                (elim p.0 as (λ _. Result (Document × String) × World) [
                  | ok _ ↦ rest p.1
                  | err x ↦ (err x, p.1)
                ]).1.documents)
              e
      ]

  -- Whatever becomes of the event and of the link, the row is stored.
  pub add_document-Ends :
      (P : World → Type 0) (d : Document) (l : Result (String))
      → ((w' : World) → w'.documents ≡ orm.save d w.documents → P w')
      → Ends P (add_document orm storage d l) w
  unfolding add_document
  add_document-Ends P d l h = record {
    ends = h (add_document orm storage d l w).1 (link-documents (save_document orm d w).1 d l);
  }

module _ (orm : Orm) (storage : DocumentStorage) (tools : FileTools) (caller : RequestUser)
    (w : World) where
  abbrev pub UploadChange : World → Type 0
  UploadChange w' =
      (w'.documents ≡ w.documents)
      ⊎ ((c : Added orm w w') × (total orm c.session_id w + c.row.file_size_bytes
            ≤ max_session_document_total_size_bytes))

  module _ (draw : Draw) (dto : UploadDocumentDto) (file : UploadedFile) (type : String) where
    -- The steps of the upload, from the last one to the lookup of the session.
    abbrev key : Session → ℕ → String
    key session version =
        storage.object_key caller.org_id session.workflow_id session.id version draw.object_id
          file.originalname

    abbrev add : Session → ℕ → String × String → Action (Document × String)
    add session version stored =
        add_document orm storage (uploaded draw session file type stored.0 version) (ok stored.1)

    abbrev store : Session → ℕ → Action (Document × String)
    store session version =
        lift (storage.store_document (key session version) type file.buffer) >>= add session version

    abbrev measure : Session → ℕ → Action (Document × String)
    measure session bytes =
        lift (assert_session_document_size_within_limit bytes file.size)
        >> (gets (get_next_document_version orm session.id file.originalname) >>= store session)

    abbrev mismatch : Exception
    mismatch =
        bad_request "The provided workflowId does not match the workflow linked to the session."

    abbrev other_workflow : Session → Bool
    other_workflow session =
        is_some dto.workflow_id && not (dto.workflow_id === some session.workflow_id)

    abbrev check : Session → Action (Document × String)
    check session =
        throw_if (other_workflow session) mismatch
        >> (gets (get_session_document_bytes orm session.id) >>= measure session)

    store-Ends :
        (session : Session)
        → total orm session.id w + file.size ≤ max_session_document_total_size_bytes
        → Ends UploadChange
            (store session (get_next_document_version orm session.id file.originalname w))
            w
    store-Ends session fits =
        let version = get_next_document_version orm session.id file.originalname w in
        lift-Ends UploadChange w (storage.store_document (key session version) type file.buffer)
          (add session version) (inl refl)
          (λ stored _.
            let row = uploaded draw session file type stored.0 version in
            add_document-Ends orm storage w UploadChange row (ok stored.1) (λ w' e. inr (
              record {
                row = row;
                session_id = session.id;
                in_its_session = refl;
                next = refl;
                documents = e;
              },
              fits,
            )))

    measure-Ends :
        (session : Session)
        → Ends UploadChange (measure session (get_session_document_bytes orm session.id w)) w
    measure-Ends session =
        let bytes = get_session_document_bytes orm session.id w in
        lift-Ends UploadChange w (assert_session_document_size_within_limit bytes file.size)
          (λ _. gets (get_next_document_version orm session.id file.originalname) >>= store session)
          (inl refl)
          (λ _ fits. record { ends = (store-Ends session (size_fits bytes file.size fits)).ends })

    check-Ends : (session : Session) → Ends UploadChange (check session) w
    check-Ends session =
        throw_if-Ends UploadChange w (other_workflow session) mismatch
          (gets (get_session_document_bytes orm session.id) >>= measure session) (inl refl)
          (λ _. record { ends = (measure-Ends session).ends })

  -- An upload, refused or not, leaves the table alone or adds a row that fits.
  pub upload-Ends :
      (draw : Draw) (dto : UploadDocumentDto) (upload : Option UploadedFile)
      → Ends UploadChange (upload_document orm storage tools draw dto upload caller) w
  unfolding upload_document
  upload-Ends draw dto none = record { ends = inl refl }
  upload-Ends draw dto (some file) =
      let look = λ (type : String).
        gets (λ w. owned_session orm w dto.session_id caller.org_id) >>= λ (found : Option Session).
        or_throw found (not_found "Session not found.") >>= check draw dto file type in
      let read = λ (_ : Unit {0}).
        lift (validate_document_mime_type tools file.originalname file.buffer) >>= look in
      record {
        ends =
            (lift-Ends UploadChange w (assert_document_file_size_within_limit file.size) read
              (inl refl)
              (λ _ _.
                lift-Ends UploadChange w
                  (validate_document_mime_type tools file.originalname file.buffer) look (inl refl)
                  (λ type _. record {
                    ends =
                        (or_throw-Ends UploadChange w
                          (owned_session orm w dto.session_id caller.org_id)
                          (not_found "Session not found.") (check draw dto file type) (inl refl)
                          (λ session _. check-Ends draw dto file type session)).ends;
                  }))).ends;
      }
