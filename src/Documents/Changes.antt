-- ===== src/Documents/Changes.antt =====
-- What a request to src/modules/documents does to the table of the documents.
use back_end.Prelude.{
  ℕ, ◌+◌, ◌≤◌, String, false, not, ◌&&◌, ◌≡◌, ◌⊎◌, inl, inr, refl, sym, ap, subst, some, ◌==◌,
  is_some, option_Eq, nat_Eq, arith, Option-cases,
}
use back_end.Database.Rows.{Contains}
use back_end.Database.Orm.{Orm}
use back_end.Database.Entities.{Uuid, Instant, Document, document_entity}
use back_end.World.{
  World, bind_lem, bind_err, bad_request, throw_if, gets, or_throw, Ends, or_throw-Ends,
  throw_if-Ends, done-Ends, ok, err, not_found, pure, ◌>>=◌, ◌>>◌,
}
use back_end.Messaging.Audit.{log, user_entry}
use back_end.Sessions.Access.{RequestUser}
use back_end.Documents.Validation.{FileTools, max_session_document_total_size_bytes}
use back_end.Documents.Service.{
  DocumentStorage, Draw, text_state, reprocessed, is_of_org, find_active_owned_document,
  get_next_document_version, save_document, soft_delete_document, update_extracted_text,
  add_document, reprocess_document, upload_document,
}
use back_end.Documents.Requests.{
  Request, upload, remove, correct, reprocess, is_reprocess, serve, total, Added, Rewritten,
}
use back_end.Documents.Uploads.{add_document-Ends, upload-Ends}

module _ (orm : Orm) (storage : DocumentStorage) (tools : FileTools) (uuid_text : Uuid → String)
    (caller : RequestUser) (w : World) where
  document_outcome :
      (id : Uuid)
      → (find_active_owned_document orm id caller.org_id w
          ≡ (err (not_found "Document not found."), w))
        ⊎ ((d : Document) × (find_active_owned_document orm id caller.org_id w ≡ (ok d, w))
            × Contains d w.documents)
  unfolding find_active_owned_document
  document_outcome id =
      let p = λ (d : Document).
        d.id == id && not (is_some d.deleted_at) && is_of_org orm w caller.org_id d in
      elim (Option-cases (orm.find_one p w.documents)) [
        | inl e ↦ inl (rw (e) refl)
        | inr (d, e) ↦ inr (d, rw (e) refl, (orm.find_one_sound p w.documents d e).1)
      ]

  -- Either the table is as it was, or a row was saved in place, or one was added; a row that is
  -- uploaded fits.
  abbrev pub Change : Request → World → Type 0
  Change r w' =
      (w'.documents ≡ w.documents)
      ⊎ Rewritten orm w w'
      ⊎ ((c : Added orm w w') × (is_reprocess r ≡ false
            → total orm c.session_id w + c.row.file_size_bytes
              ≤ max_session_document_total_size_bytes))

  remove-Change :
      (now : Instant) (id : Uuid)
      → Change (remove now id) (soft_delete_document orm now id caller w).1
  unfolding soft_delete_document
  remove-Change now id =
      let find = find_active_owned_document orm id caller.org_id in
      let k = λ (d : Document). save_document orm (record d { deleted_at = some now }) in
      elim (document_outcome id) [
        | inl e ↦ inl (ap (λ p. p.1.documents) (bind_err find k w e))
        | inr (d, e, c) ↦ inr (
            inl (record {
              old = d;
              row = record d { deleted_at = some now };
              old_in = c;
              same_id = refl;
              same_session = refl;
              same_name = refl;
              same_version = refl;
              same_size = refl;
              documents = ap (λ p. p.1.documents) (bind_lem find k w e);
            }))
      ]

  correct-Ends :
      (id : Uuid) (text : String)
      → Ends (Change (correct id text)) (update_extracted_text orm uuid_text id text caller) w
  unfolding update_extracted_text
  correct-Ends id text =
      let find = find_active_owned_document orm id caller.org_id in
      let k = λ (d : Document).
        let saved = record d { extracted_text = some text } in
        save_document orm saved
        >> log orm (
            user_entry saved.workflow_id caller.id "DOCUMENT_EXTRACTED_TEXT_UPDATED"
              (some (uuid_text saved.id)) (some (text_state d)) (some (text_state saved)))
        >> pure saved in
      elim (document_outcome id) [
        | inl e ↦ record { ends = inl (ap (λ p. p.1.documents) (bind_err find k w e)) }
        | inr (d, e, c) ↦ record {
          ends = inr (
              inl (record {
                old = d;
                row = record d { extracted_text = some text };
                old_in = c;
                same_id = refl;
                same_session = refl;
                same_name = refl;
                same_version = refl;
                same_size = refl;
                documents = ap (λ p. p.1.documents) (bind_lem find k w e);
              }));
        }
      ]

  reprocess-Ends :
      (draw : Draw) (id : Uuid)
      → Ends (Change (reprocess draw id)) (reprocess_document orm storage draw id caller) w
  unfolding reprocess_document
  reprocess-Ends draw id =
      let P = Change (reprocess draw id) in
      let refused = bad_request "Only workflow session documents can be reprocessed." in
      let find = find_active_owned_document orm id caller.org_id in
      let add = λ (d : Document) (version : ℕ).
        add_document orm storage (reprocessed draw d version)
          (storage.create_presigned_url d.storage_url) in
      let number = λ (d : Document) (session_id : Uuid).
        throw_if (not (is_some d.workflow_id)) refused
        >> (gets (get_next_document_version orm session_id d.filename) >>= add d) in
      let k = λ (d : Document). or_throw d.session_id refused >>= number d in
      elim (document_outcome id) [
        | inl e ↦ record { ends = inl (ap (λ p. p.1.documents) (bind_err find k w e)) }
        | inr (d, e, c) ↦ record {
          ends =
              subst (λ p. P p.1) (sym (bind_lem find k w e))
                (or_throw-Ends P w d.session_id refused (number d) (inl refl) (λ session_id s.
                  throw_if-Ends P w (not (is_some d.workflow_id)) refused
                    (gets (get_next_document_version orm session_id d.filename) >>= add d)
                    (inl refl)
                    (λ _.
                      let version = get_next_document_version orm session_id d.filename w in
                      record {
                        ends =
                            (add_document-Ends orm storage w P (reprocessed draw d version)
                              (storage.create_presigned_url d.storage_url)
                              (λ w' q. inr (
                                inr (
                                  record {
                                    row = reprocessed draw d version;
                                    session_id = session_id;
                                    in_its_session = s;
                                    next = refl;
                                    documents = q;
                                  },
                                  λ n. absurd (ground (arith, n)),
                                )))).ends;
                      }))).ends;
        }
      ]

  -- The effect of every request on the table.
  pub serve-Change : (r : Request) → Change r (serve orm storage tools uuid_text r caller w).1
  unfolding serve
  serve-Change (upload draw dto file) =
      (done-Ends (Change (upload draw dto file)) w
        (upload_document orm storage tools draw dto file caller)
        record {
          ends = elim ((upload-Ends orm storage tools caller w draw dto file).ends) [
            | inl e ↦ inl e
            | inr (c, b) ↦ inr (inr (c, λ _. b))
          ];
        }).ends
  serve-Change (remove now id) = remove-Change now id
  serve-Change (correct id text) =
      (done-Ends (Change (correct id text)) w (update_extracted_text orm uuid_text id text caller)
        (correct-Ends id text)).ends
  serve-Change (reprocess draw id) =
      (done-Ends (Change (reprocess draw id)) w (reprocess_document orm storage draw id caller)
        (reprocess-Ends draw id)).ends
