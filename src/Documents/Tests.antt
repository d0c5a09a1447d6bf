-- ===== src/Documents/Tests.antt =====
-- Runs of the document component: user 10 uploads a second version of a text to session 70.
use back_end.Prelude.{
  String, true, false, ◌≡◌, refl, inl, inr, [], ◌∷◌, none, some, arith, ◌∙◌, sym, ap,
}
use back_end.Database.InMemory.{in_memory}
use back_end.Database.Enums.{UserRole}
use back_end.Database.Entities.{Uuid, Document}
use back_end.World.{World, ok}
use back_end.World.Fixtures.{office}
use back_end.Sessions.Access.{RequestUser}
use back_end.Documents.Validation.{FileTools}
use back_end.Documents.Service.{DocumentStorage}
use back_end.Documents.Preprocess.{
  PreprocessResult, Prepared, handle_preprocess_result, handle_preprocess_result-Prepared,
}
use back_end.Documents.Requests.{Request, upload, serve}
use back_end.Documents.Bounds.{
  IsWithinLimit, HasDistinctVersions, serve-IsWithinLimit, serve-HasDistinctVersions,
}

abbrev ann : RequestUser
ann = record { id = 10; org_id = 1; role = UserRole.admin }

abbrev tools : FileTools
tools = record {
  extension = λ _. ".txt";
  detect_file_type = λ _. none;
  has_replacement = λ _. false;
}

abbrev storage : DocumentStorage
storage = record {
  object_key = λ _ _ _ _ _ name. name;
  store_document = λ key _ _. ok (key, key);
  create_presigned_url = λ url. ok url;
}

abbrev no_text : Uuid → String
no_text id = ""

abbrev brief : Document
brief = record {
  id = 300;
  workflow_id = some 50;
  session_id = some 70;
  filename = "brief.txt";
  file_type = "text/plain";
  storage_url = "brief.txt";
  file_size_bytes = 1000;
  extracted_text = none;
  preprocessing_confidence = none;
  doc_version = 1;
  created_at = 25;
  deleted_at = none;
  archived_at = none;
}

abbrev shelf : World
shelf = record (office true) { documents = brief ∷ [] }

abbrev second_brief : Request
second_brief =
    upload (record { id = 301; object_id = 302; now = 50 })
      (record { session_id = 70; workflow_id = some 50 })
      (some (record { originalname = "brief.txt"; size = 3; buffer = 65 ∷ 66 ∷ 10 ∷ [] }))

shelf-IsWithinLimit : IsWithinLimit in_memory shelf
shelf-IsWithinLimit k = ground arith

-- The upload is stored, as the second version.
second_version :
    (serve in_memory storage tools no_text second_brief ann shelf).1.documents
    ≡ brief ∷ record brief { id = 301; file_size_bytes = 3; doc_version = 2; created_at = 50 } ∷ []
unfolding serve
second_version = refl

serve-IsWithinLimit_example :
    IsWithinLimit in_memory (serve in_memory storage tools no_text second_brief ann shelf).1
serve-IsWithinLimit_example =
    serve-IsWithinLimit in_memory storage tools no_text ann shelf second_brief refl
      shelf-IsWithinLimit

shelf-HasDistinctVersions : HasDistinctVersions shelf.documents
shelf-HasDistinctVersions k a b (inl e) (inl f) _ _ _ _ = ap (λ d. d.id) (e ∙ sym f)
shelf-HasDistinctVersions k a b (inr x) _ _ _ _ _ = elim x [ ]
shelf-HasDistinctVersions k a b (inl e) (inr x) _ _ _ _ = elim x [ ]

serve-HasDistinctVersions_example :
    HasDistinctVersions (serve in_memory storage tools no_text second_brief ann shelf).1.documents
serve-HasDistinctVersions_example =
    serve-HasDistinctVersions in_memory storage tools no_text ann shelf second_brief
      shelf-HasDistinctVersions

abbrev text_found : PreprocessResult
text_found = record {
  document_id = 300;
  extracted_text = "Buy paper";
  preprocessing_confidence = some 8;
}

handle_preprocess_result-Prepared_example :
    Prepared in_memory text_found shelf (handle_preprocess_result in_memory text_found shelf).1
handle_preprocess_result-Prepared_example =
    handle_preprocess_result-Prepared in_memory text_found shelf
