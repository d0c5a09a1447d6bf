-- ===== src/Messages/Service.antt =====
-- src/modules/messages/services/messages.service.ts and utils/message-query.util.ts. The pages of the
-- PDF are left to the package that draws them: `exported_messages` is what it is given.
use back_end.Prelude.{
  ◌+◌, String, Bool, true, not, ◌&&◌, ◌||◌, List, map, Option, none, some, ◌==◌, ◌===◌, string_Eq,
  if◌then◌else◌, ltb, take, option_get, is_some,
}
use back_end.Database.Json.{Json, Fields}
use back_end.Database.Enums.{MessageRole, MessageType, message_type_Eq}
use back_end.Database.Orm.{Orm}
use back_end.Database.Entities.{Uuid, Instant, Session, Message, message_entity}
use back_end.World.{
  World, Action, Result, ok, err, not_found, plain_error, pure, lift, gets, modify, or_throw, ◌>>=◌,
  ◌>>◌,
}
use back_end.Sessions.Access.{RequestUser, in_org}
use back_end.Messages.Runtime.{Runtime}
use back_end.Messages.Pagination.{
  MessageCursor, PageWindow, default_message_page_size, decode_message_cursor,
  get_message_page_window,
}

pub record CreateMessageDto : Type 0 where
  pub role : MessageRole
  pub type : MessageType
  pub content : String
  pub metadata : Option Json

pub record ListSessionMessagesQueryDto : Type 0 where
  pub type : Option MessageType
  pub cursor : Option String
  pub search : Option String

pub record MessageResponseDto : Type 0 where
  pub id : Uuid
  pub session_id : Uuid
  pub role : MessageRole
  pub type : MessageType
  pub content : String
  pub metadata : Json
  pub created_at : Instant

pub record PaginatedMessagesDto : Type 0 where
  pub items : List MessageResponseDto
  pub next_cursor : Option String

abbrev pub to_message_response : Message → MessageResponseDto
to_message_response m = record {
  id = m.id;
  session_id = m.session_id;
  role = m.role;
  type = m.type;
  content = m.content;
  metadata = m.metadata;
  created_at = m.created_at;
}

abbrev pub new_message : Uuid → Instant → Uuid → CreateMessageDto → Message
new_message id now session_id dto = record {
  id = id;
  session_id = session_id;
  role = dto.role;
  type = dto.type;
  content = dto.content;
  metadata = option_get dto.metadata (Json.object Fields.end);
  created_at = now;
  archived_at = none;
}

-- `orderBy('message.created_at', 'ASC').addOrderBy('message.id', 'ASC')`
abbrev pub stands_before : Message → Message → Bool
stands_before a b = ltb a.created_at b.created_at || (a.created_at == b.created_at && ltb a.id b.id)

-- The clause of the cursor.
abbrev pub is_after : Option (Instant × Uuid) → Message → Bool
is_after none m = true
is_after (some (t, id)) m = ltb t m.created_at || (m.created_at == t && ltb id m.id)

-- `if (filters.search)` and `if (query.cursor)`: an empty text counts as none.
abbrev pub given_text : Option String → Option String
given_text none = none
given_text (some s) = if s === "" then none else some s

abbrev pub page_of : PageWindow → PaginatedMessagesDto
page_of page = record { items = map to_message_response page.items; next_cursor = page.next_cursor }

module _ (rt : Runtime) where
  -- A row as the driver hands it over.
  abbrev pub as_read : Message → Message
  as_read m = record m { created_at = rt.read_time m.created_at }

  -- The type and the search term of the query.
  abbrev pub passes_filters : ListSessionMessagesQueryDto → Message → Bool
  passes_filters query m =
      elim query.type [ none ↦ true | some t ↦ m.type === t ]
      && elim (given_text query.search) [ none ↦ true | some s ↦ rt.search_hits m.content s ]

  -- The parameters of the cursor's clause, as the database reads them.
  abbrev pub at_id : Instant → Option Uuid → Result (Option (Instant × Uuid))
  at_id t none = err (plain_error "invalid input syntax for type uuid")
  at_id t (some id) = ok (some (t, id))

  abbrev pub position_of : Result MessageCursor → Result (Option (Instant × Uuid))
  position_of (err e) = err e
  position_of (ok c) = at_id c.created_at (rt.read_uuid c.id)

  unfoldable pub cursor_position : Option String → Result (Option (Instant × Uuid))
  unfolding decode_message_cursor
  cursor_position none = ok none
  cursor_position (some token) = position_of (decode_message_cursor rt token)

module _ (orm : Orm) where
  -- The joins of a query with the sessions that are not archived and the caller's workflows.
  abbrev pub is_visible : World → Uuid → Session → Bool
  is_visible w org_id s =
      not (is_some s.archived_at)
      && is_some (orm.find_one (in_org s.workflow_id org_id) w.workflows)

  abbrev pub visible_session : World → Uuid → Uuid → Option Session
  visible_session w id org_id =
      orm.find_one (λ (s : Session). s.id == id && is_visible w org_id s) w.sessions

  -- `createOwnedSessionMessagesQuery`
  abbrev pub is_owned_message : World → Uuid → Uuid → Message → Bool
  is_owned_message w session_id org_id m =
      m.session_id == session_id
      && not (is_some m.archived_at)
      && is_some (visible_session w m.session_id org_id)

  unfoldable pub find_owned_session_or_throw : Uuid → Uuid → Action Session
  find_owned_session_or_throw session_id org_id = do
    found ← gets (λ w. visible_session w session_id org_id)
    or_throw found (not_found "Session not found.")

  unfoldable pub create_message :
      Uuid → Instant → Uuid → CreateMessageDto → RequestUser → Action MessageResponseDto
  unfolding find_owned_session_or_throw
  create_message id now session_id dto current_user = do
    find_owned_session_or_throw session_id current_user.org_id
    modify (λ w. record w { messages = orm.save (new_message id now session_id dto) w.messages })
    pure (to_message_response (new_message id now session_id dto))

  unfoldable pub get_message : Uuid → RequestUser → Action MessageResponseDto
  get_message message_id current_user = do
    found ← gets (λ w.
        orm.find_one
          (λ (m : Message).
            m.id == message_id
            && not (is_some m.archived_at)
            && is_some (visible_session w m.session_id current_user.org_id))
          w.messages)
    message ← or_throw found (not_found "Message not found.")
    pure (to_message_response message)

  module _ (rt : Runtime) where
    -- The rows of a query, with the clauses that `applyOptionalMessageFilters` adds.
    abbrev pub is_selected :
        World → Uuid → ListSessionMessagesQueryDto → Uuid → Option (Instant × Uuid) → Message → Bool
    is_selected w session_id query org_id position m =
        is_owned_message w session_id org_id m && passes_filters rt query m && is_after position m

    unfoldable pub list_session_messages :
        Uuid → ListSessionMessagesQueryDto → RequestUser → Action PaginatedMessagesDto
    unfolding find_owned_session_or_throw cursor_position get_message_page_window
    list_session_messages session_id query current_user = do
      find_owned_session_or_throw session_id current_user.org_id
      position ← lift (cursor_position rt (given_text query.cursor))
      rows ← gets (λ w. take (default_message_page_size + 1) (
          orm.find_ordered stands_before
            (is_selected w session_id query current_user.org_id position) w.messages))
      pure (page_of (get_message_page_window rt (map (as_read rt) rows) default_message_page_size))

    -- The messages that `exportSessionTranscriptPdf` prints.
    unfoldable pub exported_messages : Uuid → RequestUser → Action (List Message)
    unfolding find_owned_session_or_throw
    exported_messages session_id current_user = do
      find_owned_session_or_throw session_id current_user.org_id
      rows ← gets (λ w.
          orm.find_ordered stands_before (is_owned_message w session_id current_user.org_id)
            w.messages)
      pure (map (as_read rt) rows)
