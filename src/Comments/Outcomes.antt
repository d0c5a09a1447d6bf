-- ===== src/Comments/Outcomes.antt =====
-- What a request to src/modules/comments does to the table of comments.
use back_end.Prelude.{
  String, true, ◌≢◌, not, ◌&&◌, ◌||◌, ◌≡◌, refl, ◌⊎◌, inl, inr, none, some, Option, ◌==◌, ◌===◌,
  string_Eq, arith, Option-cases, Bool-cases, is_some,
}
use back_end.Database.Rows.{Contains}
use back_end.Database.Enums.{UserRole, user_role_Eq}
use back_end.Database.Orm.{Orm}
use back_end.Database.Entities.{Uuid, Comment, User, comment_entity}
use back_end.World.{World, ok, err, Exception, not_found}
use back_end.Workflows.Rows.{with_id_and_org}
use back_end.Comments.Service.{
  Caller, Request, post, edit, remove, reply, resolve, assign, serve, can_user_create_comment,
  find_comment_with_workflow, create_comment, update_comment, delete_comment, create_reply,
  resolve_comment, assign_comment, new_comment, settled,
}

-- A resolved comment says when, by whom and why: its note is not blank, or the note of a deletion.
abbrev pub IsSettled : (String → String) → Comment → Type 0
IsSettled trim c =
    c.resolved ≡ true
    → (is_some c.resolved_at ≡ true)
      × (is_some c.resolved_by ≡ true)
      × ((n : String) × (c.resolution_note ≡ some n) × ((n ≡ "deleted") ⊎ (trim n ≢ "")))

-- The id that a request would give to a new comment.
abbrev pub new_id_of : Request → Option Uuid
new_id_of (post id _ _ _) = some id
new_id_of (reply id _ _ _) = some id
new_id_of _ = none

module _ (orm : Orm) (caller : Caller) (w : World) where
  -- The comment stands in a workflow of the caller's organisation, or the request ends there.
  pub find_comment_outcome :
      (id : Uuid)
      → ((e : Exception) × (find_comment_with_workflow orm id caller.org_id w ≡ (err e, w)))
        ⊎ ((c : Comment) × (find_comment_with_workflow orm id caller.org_id w ≡ (ok c, w))
            × Contains c w.comments
            × (c.id ≡ id))
  unfolding find_comment_with_workflow
  find_comment_outcome id =
      elim (Option-cases (orm.find_one (λ (c : Comment). c.id == id) w.comments)) [
        | inl e ↦ inl (not_found "Comment not found", rw e)
        | inr (c, e) ↦
            let (p, m) = orm.find_one_sound (λ (c : Comment). c.id == id) w.comments c e in
            elim (Option-cases
              (orm.find_one (with_id_and_org c.workflow_id caller.org_id) w.workflows)) [
                | inl f ↦ inl (not_found "Comment not found in organization", ground arith)
                | inr (x, f) ↦ inr (c, ground arith, m, ground arith)
              ]
      ]

  module _ (trim : String → String) where
    -- No comment changed; one was rewritten in its place; one was added.
    abbrev pub Rewritten : World → Type 0
    Rewritten w' =
        (old : Comment) × (row : Comment) × Contains old w.comments
        × (row.id ≡ old.id)
        × (row.workflow_id ≡ old.workflow_id)
        × (row.parent_id ≡ old.parent_id)
        × (IsSettled trim old → IsSettled trim row)
        × (w'.comments ≡ orm.save row w.comments)

    abbrev pub Added : Uuid → World → Type 0
    Added id w' =
        (row : Comment) × (row.id ≡ id)
        × IsSettled trim row
        × ((row.parent_id ≡ none)
            ⊎ ((p : Comment) × Contains p w.comments
                × (row.parent_id ≡ some p.id)
                × (p.workflow_id ≡ row.workflow_id)))
        × (w'.comments ≡ orm.save row w.comments)

    abbrev pub Effect : World → Request → Type 0
    Effect w' r =
        (w'.comments ≡ w.comments)
        ⊎ (Rewritten w' ⊎ ((id : Uuid) × (new_id_of r ≡ some id) × Added id w'))

    pub serve-Effect : (r : Request) → Effect (serve orm trim r caller w).1 r
    unfolding serve
    serve-Effect (post id now wid dto) =
        elim (Option-cases (orm.find_one (with_id_and_org wid caller.org_id) w.workflows)) [
          | inl e ↦ inl (unfold create_comment in ground arith)
          | inr (x, e) ↦ elim (Bool-cases (can_user_create_comment caller.role)) [
            | inr n ↦ inl (unfold create_comment in ground arith)
            | inl y ↦ inr (
                inr (
                  id,
                  refl,
                  (
                    new_comment id now wid dto.element_id caller.id dto.type dto.content none,
                    refl,
                    (λ h. ground (arith, h)),
                    inl refl,
                    (unfold create_comment in ground arith),
                  ),
                ))
          ]
        ]
    serve-Effect (edit id content) = elim (find_comment_outcome id) [
      | inl (x, e) ↦ inl (unfold update_comment in ground arith)
      | inr (c, e, m, i) ↦
          elim (Bool-cases
            (not (c.author_id == caller.id) && not (caller.role === UserRole.admin))) [
              | inl s ↦ inl (unfold update_comment in ground arith)
              | inr s ↦ inr (
                  inl (
                    c,
                    record c { content = content },
                    m,
                    refl,
                    refl,
                    refl,
                    (λ h. h),
                    (unfold update_comment in ground arith),
                  ))
            ]
    ]
    serve-Effect (remove id now) = elim (find_comment_outcome id) [
      | inl (x, e) ↦ inl (unfold delete_comment in ground arith)
      | inr (c, e, m, i) ↦
          elim (Bool-cases
            (not (c.author_id == caller.id) && not (caller.role === UserRole.admin))) [
              | inl s ↦ inl (unfold delete_comment in ground arith)
              | inr s ↦ inr (
                  inl (
                    c,
                    settled now caller.id "deleted" c,
                    m,
                    refl,
                    refl,
                    refl,
                    (λ _ _. (refl, refl, ("deleted", refl, inl refl))),
                    (unfold delete_comment in ground arith),
                  ))
            ]
    ]
    serve-Effect (reply new_id now id content) = elim (find_comment_outcome id) [
      | inl (x, e) ↦ inl (unfold create_reply in ground arith)
      | inr (c, e, m, i) ↦ elim (Bool-cases (can_user_create_comment caller.role)) [
        | inr n ↦ inl (unfold create_reply in ground arith)
        | inl y ↦ inr (
            inr (
              new_id,
              refl,
              (
                new_comment new_id now c.workflow_id c.element_id caller.id c.type content
                    (some c.id),
                refl,
                (λ h. ground (arith, h)),
                inr (c, m, refl, refl),
                (unfold create_reply in ground arith),
              ),
            ))
      ]
    ]
    serve-Effect (resolve id now note) = elim (find_comment_outcome id) [
      | inl (x, e) ↦ inl (unfold resolve_comment in ground arith)
      | inr (c, e, m, i) ↦ elim (Bool-cases (note === "" || trim note === "")) [
        | inl s ↦ inl (unfold resolve_comment in ground arith)
        | inr s ↦ inr (
            inl (
              c,
              settled now caller.id note c,
              m,
              refl,
              refl,
              refl,
              (λ _ _. (
                refl,
                refl,
                (note, refl, inr (λ q. ground (arith, s, (string_Eq.beq_iff (trim note) "").1 q))),
              )),
              (unfold resolve_comment in ground arith),
            ))
      ]
    ]
    serve-Effect (assign id to) = elim (find_comment_outcome id) [
      | inl (x, e) ↦ inl (unfold assign_comment in ground arith)
      | inr (c, e, m, i) ↦
          elim (Bool-cases (
            not (c.author_id == caller.id)
            && not (caller.role === UserRole.admin)
            && not (caller.role === UserRole.process_owner))) [
              | inl s ↦ inl (unfold assign_comment in ground arith)
              | inr s ↦
                  elim (Option-cases (
                    orm.find_one (λ (u : User). u.id == to && u.org_id == caller.org_id) w.users)) [
                      | inl f ↦ inl (unfold assign_comment in ground arith)
                      | inr (u, f) ↦ inr (
                          inl (
                            c,
                            record c { assigned_to = some to },
                            m,
                            refl,
                            refl,
                            refl,
                            (λ h. h),
                            (unfold assign_comment in ground arith),
                          ))
                    ]
            ]
    ]
