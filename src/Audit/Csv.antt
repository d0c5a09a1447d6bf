-- ===== src/Audit/Csv.antt =====
-- src/modules/audit/audit.service.ts: the audit log as CSV.
use Prim.Native.Char.{Char, code}
use Prim.Native.String.{◌++◌ as ◌+++◌}
use back_end.Prelude.{
  String, Bool, Option, none, some, List, [], ◌∷◌, map, ◌==◌, if◌then◌else◌, option_get,
}
use back_end.Database.Json.{Json}
use back_end.Database.Enums.{ActorType}
use back_end.Database.Entities.{Uuid, Instant, AuditLog}

-- A row of the table with the columns that the database fills.
pub record StoredLog : Type 0 where
  pub id : Uuid
  pub created_at : Instant
  pub row : AuditLog

abbrev pub is_quote : Char → Bool
is_quote c = code c == b'"'

-- `value.replace(/"/g, '""')`
unfoldable pub double_quotes : String → String
double_quotes String.[] = ""
double_quotes (String.◌∷◌ c s) =
    let rest = double_quotes s in
    if is_quote c then String.◌∷◌ c (String.◌∷◌ c rest) else String.◌∷◌ c rest

abbrev pub escape_csv : String → String
escape_csv value = "\"" +++ (double_quotes value +++ "\"")

abbrev pub join : String → List String → String
join sep [] = ""
join sep (x ∷ []) = x
join sep (x ∷ y ∷ ys) = x +++ (sep +++ join sep (y ∷ ys))

abbrev pub actor_type_text : ActorType → String
actor_type_text ActorType.user = "user"
actor_type_text ActorType.ai_agent = "ai_agent"
actor_type_text ActorType.system = "system"

abbrev pub csv_header : List String
csv_header =
    "id" ∷ "workflow_id" ∷ "actor_id" ∷ "actor_type" ∷ "event_type" ∷ "element_id" ∷ "created_at"
    ∷ "before_state" ∷ "after_state" ∷ []

abbrev pub csv_line : List String → String
csv_line values = join "," (map escape_csv values)

module _ (uuid_text : Uuid → String) (iso_text : Instant → String) (stringify : Json → String) where
  abbrev pub text_or_empty : {A : Type 0} → (A → String) → Option A → String
  text_or_empty f none = ""
  text_or_empty f (some a) = f a

  -- An absent state and a null have no text, a text is its own, and another value is written as JSON.
  abbrev pub stringify_state : Option Json → String
  stringify_state none = ""
  stringify_state (some Json.null) = ""
  stringify_state (some (Json.text t)) = t
  stringify_state (some (Json.uuid id)) = uuid_text id
  stringify_state (some (Json.instant at)) = iso_text at
  stringify_state (some value) = stringify value

  abbrev pub other_values : StoredLog → List String
  other_values entry =
      text_or_empty uuid_text entry.row.workflow_id
      ∷ text_or_empty uuid_text entry.row.actor_id
      ∷ actor_type_text entry.row.actor_type
      ∷ entry.row.event_type
      ∷ option_get entry.row.element_id ""
      ∷ iso_text entry.created_at
      ∷ stringify_state entry.row.before_state
      ∷ stringify_state entry.row.after_state
      ∷ []

  -- The values of a line, the id first.
  abbrev pub csv_values : StoredLog → List String
  csv_values entry = uuid_text entry.id ∷ other_values entry

  unfoldable pub render_csv : List StoredLog → String
  render_csv entries =
      join "\n" (join "," csv_header ∷ map (λ entry. csv_line (csv_values entry)) entries)
