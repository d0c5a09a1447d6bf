-- ===== src/Documents/Preprocess.antt =====
-- src/modules/documents/services/document-preprocess.subscriber.service.ts: the text that the
-- preparation of a document found.
use back_end.Prelude.{
  String, Bool, true, false, Option, none, some, ◌==◌, ◌||◌, if◌then◌else◌, ◌≡◌, ◌≢◌, inl, inr, sym,
  ap, subst, ◌∙◌, is_some, arith, Bool-cases, Option-cases,
}
use back_end.Database.Rows.{Contains}
use back_end.Database.Json.{Json, Fields}
use back_end.Database.Orm.{Orm}
use back_end.Database.Entities.{Uuid, Score, Document, document_entity}
use back_end.World.{
  World, session_room, emitted, Action, Exception, pure, gets, modify, ◌>>=◌, ◌>>◌,
}
use back_end.Messaging.Publisher.{with_sent}
use back_end.Messaging.Gateway.{emit_to_session}
use back_end.Messaging.Delivery.{Subscriber}

-- `DocumentPreprocessResultEvent`
pub record PreprocessResult : Type 0 where
  pub document_id : Uuid
  pub extracted_text : String
  pub preprocessing_confidence : Option Score

-- `document.deletedAt || document.archivedAt`
abbrev pub is_inactive : Document → Bool
is_inactive d = is_some d.deleted_at || is_some d.archived_at

abbrev pub prepared : PreprocessResult → Document → Document
prepared e d = record d {
  extracted_text = some e.extracted_text;
  preprocessing_confidence = e.preprocessing_confidence;
}

abbrev pub ready : Uuid → Json
ready document_id = Json.object (
    Fields.field "type" (Json.text "document.ready")
      (Fields.field "document_id" (Json.uuid document_id) Fields.end))

-- Only a document of a session has somebody to tell.
abbrev pub tell : Document → Action (Unit {0})
tell d = elim d.session_id [
  | none ↦ pure tt
  | some id ↦ emit_to_session id "document.ready" (ready d.id)
]

module _ (orm : Orm) where
  unfoldable pub save_prepared : PreprocessResult → Document → Action (Unit {0})
  save_prepared e d = do
    modify (λ w. record w { documents = orm.save (prepared e d) w.documents })
    tell d

  abbrev pub take_text : PreprocessResult → Option Document → Action (Unit {0})
  take_text e none = pure tt
  take_text e (some d) = if is_inactive d then pure tt else save_prepared e d

  unfoldable pub handle_preprocess_result : PreprocessResult → Action (Unit {0})
  unfolding save_prepared
  handle_preprocess_result e = do
    found ← gets (λ w. orm.find_one (λ d. d.id == e.document_id) w.documents)
    take_text e found

  -- The subscription, which has no handler for what is given up; the check of the payload is
  -- class-validator's.
  unfoldable pub preprocess_subscription :
      PreprocessResult → (PreprocessResult → Option Exception) → Subscriber PreprocessResult
  unfolding handle_preprocess_result
  preprocess_subscription empty check = record {
    subject = "document.preprocess.result";
    empty = empty;
    payload_type = some check;
    handler = λ e _. handle_preprocess_result e;
    on_exhausted = none;
  }

  -- A result either changes nothing, or is saved in the one active document it names, whose session
  -- alone is told.
  pub data Prepared (e : PreprocessResult) (w : World) : World → Type 0 where
    missing : ((d : Document) → Contains d w.documents → d.id ≢ e.document_id) → Prepared e w w
    inactive :
        (d : Document)
        → Contains d w.documents
        → d.id ≡ e.document_id
        → is_inactive d ≡ true
        → Prepared e w w
    quiet :
        (d : Document)
        → Contains d w.documents
        → d.id ≡ e.document_id
        → is_inactive d ≡ false
        → d.session_id ≡ none
        → Prepared e w (record w { documents = orm.save (prepared e d) w.documents })
    told :
        (d : Document) (session_id : Uuid)
        → Contains d w.documents
        → d.id ≡ e.document_id
        → is_inactive d ≡ false
        → d.session_id ≡ some session_id
        → Prepared e w (
            with_sent
              (emitted (session_room session_id) "document.ready" (ready d.id))
              (record w { documents = orm.save (prepared e d) w.documents }))

  saved-Prepared :
      (e : PreprocessResult) (w : World) (d : Document)
      → Contains d w.documents
      → d.id ≡ e.document_id
      → is_inactive d ≡ false
      → Prepared e w (save_prepared e d w).1
  unfolding save_prepared
  saved-Prepared e w d c i a = elim (Option-cases d.session_id) [
    | inl n ↦ subst (Prepared e w) (sym (ap (λ (p : Option Uuid). telling p) n)) (quiet d c i a n)
    | inr (s, n) ↦
        subst (Prepared e w) (sym (ap (λ (p : Option Uuid). telling p) n)) (told d s c i a n)
  ]
    where
      telling : Option Uuid → World
      telling p =
          (elim p as (λ _. Action (Unit {0})) [
            | none ↦ pure tt
            | some id ↦ emit_to_session id "document.ready" (ready d.id)
          ]
            (record w { documents = orm.save (prepared e d) w.documents })).1

  -- The result of a preparation changes nothing where the document it names is missing, deleted or
  -- archived; otherwise it is saved in that document and no other, and its session alone is told.
  pub handle_preprocess_result-Prepared :
      (e : PreprocessResult) (w : World) → Prepared e w (handle_preprocess_result e w).1
  unfolding handle_preprocess_result
  handle_preprocess_result-Prepared e w =
      elim (Option-cases (orm.find_one (λ d. d.id == e.document_id) w.documents)) [
        | inl n ↦ subst (Prepared e w) (sym (ap (λ o. (take_text e o w).1) n)) (
            missing (λ d c i.
              ground
                (arith, orm.find_one_complete (λ d. d.id == e.document_id) w.documents d n c, i)))
        | inr (d, f) ↦
            let (p, c) = orm.find_one_sound (λ d. d.id == e.document_id) w.documents d f in
            elim (Bool-cases (is_inactive d)) [
              | inl a ↦
                  subst (Prepared e w)
                    (sym (
                      ap (λ o. (take_text e o w).1) f
                      ∙ ap (λ b. ((if b then pure tt else save_prepared e d) w).1) a))
                    (inactive d c (ground (arith, p)) a)
              | inr a ↦
                  subst (Prepared e w)
                    (sym (
                      ap (λ o. (take_text e o w).1) f
                      ∙ ap (λ b. ((if b then pure tt else save_prepared e d) w).1) a))
                    (saved-Prepared e w d c (ground (arith, p)) a)
            ]
      ]
