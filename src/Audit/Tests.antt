-- ===== src/Audit/Tests.antt =====
-- A run of the export of src/modules/audit/audit.service.ts.
use back_end.Prelude.{◌≡◌, none, some, [], ◌∷◌}
use back_end.Database.Json.{Json}
use back_end.Database.Enums.{ActorType}
use back_end.Audit.Csv.{StoredLog, render_csv}
use back_end.Audit.Reader.{read_csv}
use back_end.Audit.Reading.{read_csv-render_csv}

abbrev edit : StoredLog
edit = record {
  id = 1;
  created_at = 2;
  row = record {
    workflow_id = some 50;
    actor_id = none;
    actor_type = ActorType.ai_agent;
    event_type = "EDIT, \"draft\"";
    element_id = none;
    before_state = none;
    after_state = some (Json.text "a\nb");
  };
}

read_csv-render_csv_example :
    read_csv 1 (render_csv (λ _. "id") (λ _. "now") (λ _. "{}") (edit ∷ []))
    ≡ some
        (("id" ∷ "id" ∷ "" ∷ "ai_agent" ∷ "EDIT, \"draft\"" ∷ "" ∷ "now" ∷ "" ∷ "a\nb" ∷ []) ∷ [])
read_csv-render_csv_example = read_csv-render_csv (λ _. "id") (λ _. "now") (λ _. "{}") (edit ∷ [])
