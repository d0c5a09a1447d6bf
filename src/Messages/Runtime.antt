-- ===== src/Messages/Runtime.antt =====
-- What src/modules/messages uses of the language's runtime, of the driver and of PostgreSQL: a
-- record of operations and of the laws that they document.
use back_end.Prelude.{String, Bool, ◌≡◌, Option, none, some}
use back_end.Database.Json.{Json, Fields}
use back_end.Database.Entities.{Uuid, Instant}

-- The object whose text is a cursor.
abbrev pub cursor_json : Instant → Json → Json
cursor_json created_at id =
    Json.object
      (Fields.field "createdAt" (Json.instant created_at) (Fields.field "id" id Fields.end))

pub record Runtime : Type 0 where
  -- `JSON.stringify`
  pub stringify : Json → String
  -- `JSON.parse`; none where it throws
  pub parse : String → Option Json
  -- `Buffer.from(text).toString('base64url')`
  pub to_base64url : String → String
  -- `Buffer.from(text, 'base64url').toString('utf8')`
  pub from_base64url : String → String
  -- `new Date(value)`; none where its time is NaN
  pub new_date : Json → Option Instant
  -- a parameter that PostgreSQL reads as a uuid; none where it refuses the text
  pub read_uuid : Json → Option Uuid
  -- a `timestamptz`, which counts microseconds, as the driver's `Date`, which counts milliseconds
  pub read_time : Instant → Instant
  -- `to_tsvector('english', content) @@ plainto_tsquery('english', search)`
  pub search_hits : String → String → Bool
  pub base64url_lem : (s : String) → from_base64url (to_base64url s) ≡ s
  pub base64url_empty : from_base64url "" ≡ ""
  pub json_lem :
      (t : Instant) (id : Uuid)
      → parse (stringify (cursor_json t (Json.uuid id))) ≡ some (cursor_json t (Json.uuid id))
  pub json_empty : parse "" ≡ none
  pub new_date_lem : (t : Instant) → new_date (Json.instant t) ≡ some t
  pub read_uuid_lem : (id : Uuid) → read_uuid (Json.uuid id) ≡ some id
