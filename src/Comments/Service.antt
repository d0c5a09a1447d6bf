-- ===== src/Comments/Service.antt =====
-- src/modules/comments/services/comments.service.ts: the methods on comments and replies. The new
-- id and the time are arguments, and so is the `trim` of the runtime.
use back_end.Prelude.{
  String, Bool, true, false, not, Option, none, some, ◌==◌, ◌===◌, string_Eq, ◌&&◌, ◌||◌,
}
use back_end.Database.Json.{Json, Fields}
use back_end.Database.Enums.{UserRole, user_role_Eq, CommentType, comment_type_text}
use back_end.Database.Orm.{Orm}
use back_end.Database.Entities.{Uuid, Instant, Comment, User, comment_entity}
use back_end.World.{
  Action, ok, not_found, forbidden, unauthorized, pure, throw_if, gets, or_throw, ◌>>=◌, ◌>>◌,
}
use back_end.Messaging.Audit.{log, user_entry}
use back_end.Messaging.Gateway.{emit_to_session}
use back_end.Workflows.Rows.{with_id_and_org}

-- Who calls: `userId`, `userRole` and `orgId` of the methods.
pub record Caller : Type 0 where
  pub id : Uuid
  pub role : UserRole
  pub org_id : Uuid

pub record CreateCommentDto : Type 0 where
  pub element_id : Option String
  pub type : CommentType
  pub content : String

abbrev pub can_user_create_comment : UserRole → Bool
can_user_create_comment role =
    role === UserRole.reviewer
    || role === UserRole.business_analyst
    || role === UserRole.process_owner
    || role === UserRole.admin

abbrev pub pair : String → Json → String → Json → Json
pair k v l u = Json.object (Fields.field k v (Fields.field l u Fields.end))

abbrev pub one : String → Json → Json
one k v = Json.object (Fields.field k v Fields.end)

abbrev pub new_comment :
    Uuid → Instant → Uuid → Option String → Uuid → CommentType → String → Option Uuid → Comment
new_comment id now workflow_id element_id author_id type content parent_id = record {
  id = id;
  workflow_id = workflow_id;
  element_id = element_id;
  author_id = author_id;
  type = type;
  content = content;
  resolved = false;
  resolved_at = none;
  resolved_by = none;
  resolution_note = none;
  parent_id = parent_id;
  assigned_to = none;
  created_at = now;
}

-- The row after a resolution with this note.
abbrev pub settled : Instant → Uuid → String → Comment → Comment
settled now user_id note c = record c {
  resolved = true;
  resolved_at = some now;
  resolved_by = some user_id;
  resolution_note = some note;
}

module _ (orm : Orm) where
  unfoldable pub save_comment : Comment → Action Comment
  save_comment c w = (ok c, record w { comments = orm.save c w.comments })

  unfoldable pub log_user_audit :
      Uuid → Uuid → String → Option String → Option Json → Option Json → Action (Unit {0})
  unfolding log
  log_user_audit workflow_id actor_id event_type element_id before after =
      log orm (user_entry (some workflow_id) actor_id event_type element_id before after)

  unfoldable pub find_comment_with_workflow : Uuid → Uuid → Action Comment
  find_comment_with_workflow comment_id org_id = do
    found ← gets (λ w. orm.find_one (λ c. c.id == comment_id) w.comments)
    comment ← or_throw found (not_found "Comment not found")
    workflow ← gets (λ w. orm.find_one (with_id_and_org comment.workflow_id org_id) w.workflows)
    or_throw workflow (not_found "Comment not found in organization")
    pure comment

  unfoldable pub create_comment : Uuid → Instant → Uuid → CreateCommentDto → Caller → Action Comment
  unfolding save_comment log_user_audit
  create_comment new_id now workflow_id dto caller = do
    workflow ← gets (λ w. orm.find_one (with_id_and_org workflow_id caller.org_id) w.workflows)
    or_throw workflow (not_found "Workflow not found")
    throw_if (not (can_user_create_comment caller.role))
        (unauthorized "User role cannot create comments")
    saved ←
        save_comment
          (new_comment new_id now workflow_id dto.element_id caller.id dto.type dto.content none)
    log_user_audit workflow_id caller.id "COMMENT_CREATED" dto.element_id none (
        some
          (pair "comment_id" (Json.uuid saved.id) "type" (Json.text (comment_type_text dto.type))))
    pure saved

  unfoldable pub update_comment : Uuid → String → Caller → Action Comment
  unfolding find_comment_with_workflow save_comment log_user_audit
  update_comment comment_id content caller = do
    comment ← find_comment_with_workflow comment_id caller.org_id
    throw_if (not (comment.author_id == caller.id) && not (caller.role === UserRole.admin))
        (forbidden "Only comment author or admin can edit")
    saved ← save_comment (record comment { content = content })
    log_user_audit comment.workflow_id caller.id "COMMENT_UPDATED" comment.element_id
        (some (one "content" (Json.text comment.content)))
        (some (one "content" (Json.text content)))
    pure saved

  unfoldable pub delete_comment : Uuid → Instant → Caller → Action (Unit {0})
  unfolding find_comment_with_workflow save_comment log_user_audit
  delete_comment comment_id now caller = do
    comment ← find_comment_with_workflow comment_id caller.org_id
    throw_if (not (comment.author_id == caller.id) && not (caller.role === UserRole.admin))
        (forbidden "Only comment author or admin can delete")
    save_comment (settled now caller.id "deleted" comment)
    log_user_audit comment.workflow_id caller.id "COMMENT_DELETED" comment.element_id none none

  unfoldable pub create_reply : Uuid → Instant → Uuid → String → Caller → Action Comment
  unfolding find_comment_with_workflow save_comment log_user_audit
  create_reply new_id now comment_id content caller = do
    parent ← find_comment_with_workflow comment_id caller.org_id
    throw_if (not (can_user_create_comment caller.role))
        (unauthorized "User role cannot create comments")
    saved ← save_comment (
        new_comment new_id now parent.workflow_id parent.element_id caller.id parent.type content
          (some parent.id))
    log_user_audit parent.workflow_id caller.id "COMMENT_REPLY_CREATED" parent.element_id
        (some (one "parent_comment_id" (Json.uuid parent.id)))
        (some (one "reply_id" (Json.uuid saved.id)))
    pure saved

  module _ (trim : String → String) where
    unfoldable pub resolve_comment : Uuid → Instant → String → Caller → Action Comment
    unfolding find_comment_with_workflow save_comment log_user_audit
    resolve_comment comment_id now note caller = do
      comment ← find_comment_with_workflow comment_id caller.org_id
      throw_if (note === "" || trim note === "") (forbidden "Resolution note is required")
      saved ← save_comment (settled now caller.id note comment)
      log_user_audit comment.workflow_id caller.id "COMMENT_RESOLVED" comment.element_id
          (some (one "resolved" (Json.boolean false)))
          (some (pair "resolved" (Json.boolean true) "resolution_note" (Json.text note)))
      pure saved

  unfoldable pub assign_comment : Uuid → Uuid → Caller → Action Comment
  unfolding find_comment_with_workflow save_comment log_user_audit
  assign_comment comment_id assignee_id caller = do
    comment ← find_comment_with_workflow comment_id caller.org_id
    throw_if
        (not (comment.author_id == caller.id)
          && not (caller.role === UserRole.admin)
          && not (caller.role === UserRole.process_owner))
        (forbidden "Only comment author, admin, or process owner can assign")
    assignee ←
        gets (λ w.
          orm.find_one (λ (u : User). u.id == assignee_id && u.org_id == caller.org_id) w.users)
    or_throw assignee (not_found "Assignee not found in organization")
    saved ← save_comment (record comment { assigned_to = some assignee_id })
    log_user_audit comment.workflow_id caller.id "COMMENT_ASSIGNED" comment.element_id
        (some (one "assigned_to" Json.null)) (some (one "assigned_to" (Json.uuid assignee_id)))
    emit_to_session assignee_id "notification.review_request"
        (pair "comment_id" (Json.uuid comment_id) "workflow_id" (Json.uuid comment.workflow_id))
    pure saved

-- The requests of the controller on comments and replies.
pub data Request : Type 0 where
  post : Uuid → Instant → Uuid → CreateCommentDto → Request
  edit : Uuid → String → Request
  remove : Uuid → Instant → Request
  reply : Uuid → Instant → Uuid → String → Request
  resolve : Uuid → Instant → String → Request
  assign : Uuid → Uuid → Request

-- The injection into a conversation, which stands among these routes, is not modelled.
unfoldable pub serve : Orm → (String → String) → Request → Caller → Action (Unit {0})
serve orm trim (post new_id now workflow_id dto) caller =
    create_comment orm new_id now workflow_id dto caller >> pure tt
serve orm trim (edit id content) caller = update_comment orm id content caller >> pure tt
serve orm trim (remove id now) caller = delete_comment orm id now caller
serve orm trim (reply new_id now id content) caller =
    create_reply orm new_id now id content caller >> pure tt
serve orm trim (resolve id now note) caller = resolve_comment orm trim id now note caller >> pure tt
serve orm trim (assign id assignee_id) caller = assign_comment orm id assignee_id caller >> pure tt
