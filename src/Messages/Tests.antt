-- ===== src/Messages/Tests.antt =====
-- Runs of the message component: a session of sixty messages, and a runtime that writes numbers in
-- unary.
use Prim.Native.Char.{code}
use back_end.Prelude.{
  ℕ, zero, suc, ◌≤◌, String, true, ◌≡◌, refl, ap, ◌∙◌, List, [], ◌∷◌, map, Option, none, some, ◌==◌,
  if◌then◌else◌, arith, ltb, length,
}
use back_end.Database.Rows.{HasUniqueKeys, count_if}
use back_end.Database.Json.{Json, Fields}
use back_end.Database.InMemory.{in_memory}
use back_end.Database.Enums.{UserRole}
use back_end.Database.Entities.{Message, message_entity}
use back_end.World.{World, ok}
use back_end.World.Fixtures.{office, question, elicitation}
use back_end.Sessions.Access.{RequestUser}
use back_end.Messages.Runtime.{Runtime, cursor_json}
use back_end.Messages.Pagination.{
  cursor_of, encode_message_cursor, decode_message_cursor, decode-encode,
}
use back_end.Messages.Service.{ListSessionMessagesQueryDto, to_message_response}
use back_end.Messages.Paging.{read_pages, selected, read_pages_lem}

abbrev unary : ℕ → String → String
unary zero s = String.◌∷◌ "b" s
unary (suc n) s = String.◌∷◌ "a" (unary n s)

abbrev read_unary : String → ℕ × String
read_unary String.[] = (0, "")
read_unary (String.◌∷◌ c s) =
    let (n, r) = read_unary s in if code c == b'a' then (suc n, r) else (0, s)

read-unary : (n : ℕ) (s : String) → read_unary (unary n s) ≡ (n, s)
read-unary zero s = refl
read-unary (suc n) s = ap (λ (p : ℕ × String). (suc p.0, p.1)) (read-unary n s)

abbrev written : Json → String
written (Json.object (Fields.field _ (Json.instant t) (Fields.field _ (Json.uuid i) Fields.end))) =
    unary t (unary i "")
written _ = ""

abbrev read_both : ℕ × String → Option Json
read_both (t, s) = some (cursor_json t (Json.uuid (read_unary s).0))

abbrev read : String → Option Json
read String.[] = none
read (String.◌∷◌ c s) = read_both (read_unary (String.◌∷◌ c s))

read-written : (t i : ℕ) → read (unary t (unary i "")) ≡ some (cursor_json t (Json.uuid i))
read-written zero i =
    ap (λ (p : ℕ × String). some (cursor_json 0 (Json.uuid p.0))) (read-unary i "")
read-written (suc t) i =
    ap read_both (read-unary (suc t) (unary i ""))
    ∙ ap (λ (p : ℕ × String). some (cursor_json (suc t) (Json.uuid p.0))) (read-unary i "")

abbrev date_of : Json → Option ℕ
date_of (Json.instant t) = some t
date_of _ = none

abbrev id_of : Json → Option ℕ
id_of (Json.uuid i) = some i
id_of _ = none

abbrev plain : Runtime
plain = record {
  stringify = written;
  parse = read;
  to_base64url = λ s. s;
  from_base64url = λ s. s;
  new_date = date_of;
  read_uuid = id_of;
  read_time = λ t. t;
  search_hits = λ _ _. true;
  base64url_lem = λ s. refl;
  base64url_empty = refl;
  json_lem = read-written;
  json_empty = refl;
  new_date_lem = λ t. refl;
  read_uuid_lem = λ i. refl;
}

decode-encode_example :
    decode_message_cursor plain (encode_message_cursor plain (cursor_of question))
    ≡ ok (cursor_of question)
decode-encode_example = decode-encode plain question

abbrev chat : ℕ → List Message
chat zero = []
chat (suc n) = record question { id = n; created_at = n } ∷ chat n

count-chat : (n k : ℕ) → count_if (λ (m : Message). m.id == k) (chat n) ≤ (if ltb k n then 1 else 0)
count-chat zero k = ground arith
count-chat (suc n) k = ground (arith, count-chat n k)

chat-HasUniqueKeys : HasUniqueKeys (chat 60)
chat-HasUniqueKeys k = ground (arith, count-chat 60 k)

abbrev ann : RequestUser
ann = record { id = 10; org_id = 1; role = UserRole.admin }

abbrev interview : World
interview = record (office true) { messages = chat 60 }

abbrev everything : ListSessionMessagesQueryDto
everything = record { type = none; cursor = none; search = none }

few : length (selected in_memory plain 70 everything ann interview) ≤ 100
few = omega arith

read_pages_lem_example :
    read_pages in_memory plain 70 everything ann interview 2 none
    ≡ some (map to_message_response (selected in_memory plain 70 everything ann interview))
read_pages_lem_example =
    read_pages_lem in_memory plain 70 everything ann interview elicitation refl chat-HasUniqueKeys
      (λ m c. refl) 2 few (omega arith)
