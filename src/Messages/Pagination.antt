-- ===== src/Messages/Pagination.antt =====
-- src/modules/messages/utils/message-pagination.util.ts: the token of a cursor, and the window of a
-- page.
use back_end.Prelude.{
  ℕ, String, Bool, true, false, not, ◌≡◌, ◌≢◌, ◌∙◌, sym, ap, List, [], ◌∷◌, Option, none, some,
  ◌==◌, ◌===◌, string_Eq, if◌then◌else◌, ltb, length, take, last, option_map, arith,
}
use back_end.Database.Json.{Json, get_property}
use back_end.Database.Entities.{Instant, Message}
use back_end.World.{Result, ok, err, bad_request}
use back_end.Messages.Runtime.{Runtime, cursor_json}

abbrev pub default_message_page_size : ℕ
default_message_page_size = 50

-- The id is the value that the token brings: a token that nobody issued may have any.
pub record MessageCursor : Type 0 where
  pub created_at : Instant
  pub id : Json

-- `if (!value)` passes.
abbrev pub is_falsy : Option Json → Bool
is_falsy none = true
is_falsy (some Json.null) = true
is_falsy (some (Json.boolean b)) = not b
is_falsy (some (Json.number n)) = n == 0
is_falsy (some (Json.text s)) = s === ""
is_falsy (some _) = false

abbrev pub cursor_of : Message → MessageCursor
cursor_of m = record { created_at = m.created_at; id = Json.uuid m.id }

pub record PageWindow : Type 0 where
  pub items : List Message
  pub next_cursor : Option String

module _ (rt : Runtime) where
  unfoldable pub encode_message_cursor : MessageCursor → String
  encode_message_cursor c = rt.to_base64url (rt.stringify (cursor_json c.created_at c.id))

  -- The properties of what was parsed; none where the code throws.
  abbrev pub cursor_fields : Option Json → Option Json → Option MessageCursor
  cursor_fields (some d) (some id) =
      if is_falsy (some d)
      then none
      else if is_falsy (some id)
      then none
      else elim (rt.new_date d) [ none ↦ none | some t ↦ some (record { created_at = t; id = id }) ]
  cursor_fields _ _ = none

  abbrev pub parsed_cursor : Option Json → Option MessageCursor
  parsed_cursor (some (Json.object fs)) =
      cursor_fields (get_property "createdAt" fs) (get_property "id" fs)
  parsed_cursor _ = none

  -- Whatever goes wrong is caught and ends in the bad request.
  abbrev caught : Option MessageCursor → Result MessageCursor
  caught none = err (bad_request "Invalid cursor token.")
  caught (some c) = ok c

  unfoldable pub decode_message_cursor : String → Result MessageCursor
  decode_message_cursor token = caught (parsed_cursor (rt.parse (rt.from_base64url token)))

  unfoldable pub get_message_page_window : List Message → ℕ → PageWindow
  get_message_page_window [] page_size = record { items = []; next_cursor = none }
  get_message_page_window (r ∷ rs) page_size =
      let has_more = ltb page_size (length (r ∷ rs)) in
      let items = if has_more then take page_size (r ∷ rs) else r ∷ rs in
      record {
        items = items;
        next_cursor =
            if has_more
            then option_map (λ m. encode_message_cursor (cursor_of m)) (last items)
            else none;
      }

  -- The token that a page ends with is read back as the time and the id of its last message.
  pub decode-encode :
      (m : Message) → decode_message_cursor (encode_message_cursor (cursor_of m)) ≡ ok (cursor_of m)
  unfolding decode_message_cursor encode_message_cursor get_property
  decode-encode m =
      let j = cursor_json m.created_at (Json.uuid m.id) in
      ap (λ s. caught (parsed_cursor (rt.parse s))) (rt.base64url_lem (rt.stringify j))
      ∙ ap (λ o. caught (parsed_cursor o)) (rt.json_lem m.created_at m.id)
      ∙ ap
          (λ (o : Option Instant). caught (elim o [
            | none ↦ none
            | some t ↦ some (record { created_at = t; id = Json.uuid m.id })
          ]))
          (rt.new_date_lem m.created_at)

  -- No token that a page ends with is empty.
  pub token_ne_empty : (m : Message) → encode_message_cursor (cursor_of m) ≢ ""
  unfolding encode_message_cursor
  token_ne_empty m e =
      let j = cursor_json m.created_at (Json.uuid m.id) in
      let empty : rt.stringify j ≡ "" =
        sym (rt.base64url_lem (rt.stringify j)) ∙ ap rt.from_base64url e ∙ rt.base64url_empty in
      ground (arith, rt.json_lem m.created_at m.id, ap rt.parse empty, rt.json_empty)
