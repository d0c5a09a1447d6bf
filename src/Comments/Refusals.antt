-- ===== src/Comments/Refusals.antt =====
-- The requests to src/modules/comments that are refused.
use back_end.Prelude.{
  String, ◌≡◌, inl, inr, none, some, Option, ◌==◌, string_Eq, arith, Option-cases,
}
use back_end.Database.Rows.{Contains}
use back_end.Database.Enums.{user_role_Eq}
use back_end.Database.Orm.{Orm}
use back_end.Database.Entities.{Uuid, Comment, Workflow}
use back_end.World.{World, Exception, err, not_found}
use back_end.Workflows.Rows.{with_id_and_org}
use back_end.Comments.Service.{
  Caller, Request, post, edit, remove, reply, resolve, assign, serve, find_comment_with_workflow,
  update_comment, delete_comment, create_reply, resolve_comment, assign_comment,
}

-- The comment that a request names.
abbrev pub target : Request → Option Uuid
target (post _ _ _ _) = none
target (edit id _) = some id
target (remove id _) = some id
target (reply _ _ id _) = some id
target (resolve id _ _) = some id
target (assign id _) = some id

-- A comment with this id, in a workflow of the organisation.
abbrev pub CommentIn : World → Uuid → Uuid → Type 0
CommentIn w id org_id =
    (c : Comment) × Contains c w.comments
    × (c.id ≡ id)
    × ((x : Workflow) × Contains x w.workflows × (x.id ≡ c.workflow_id) × (x.org_id ≡ org_id))

module _ (orm : Orm) (trim : String → String) (caller : Caller) (w : World) where
  not_in_org :
      (id : Uuid)
      → (CommentIn w id caller.org_id → ⊥)
      → (e : Exception) × (find_comment_with_workflow orm id caller.org_id w ≡ (err e, w))
  unfolding find_comment_with_workflow
  not_in_org id n = elim (Option-cases (orm.find_one (λ (c : Comment). c.id == id) w.comments)) [
    | inl e ↦ (not_found "Comment not found", rw e)
    | inr (c, e) ↦
        let (p, m) = orm.find_one_sound (λ (c : Comment). c.id == id) w.comments c e in
        elim (Option-cases
          (orm.find_one (with_id_and_org c.workflow_id caller.org_id) w.workflows)) [
            | inl f ↦ (not_found "Comment not found in organization", ground arith)
            | inr (x, f) ↦
                let (q, d) =
                  orm.find_one_sound (with_id_and_org c.workflow_id caller.org_id) w.workflows x
                    f in
                absurd (n (c, m, ground arith, (x, d, ground arith, ground arith)))
          ]
  ]

  -- A request on a comment that stands in no workflow of the caller's organisation is refused and
  -- changes nothing.
  pub foreign_comment_refused :
      (r : Request) (id : Uuid)
      → target r ≡ some id
      → (CommentIn w id caller.org_id → ⊥)
      → (e : Exception) × (serve orm trim r caller w ≡ (err e, w))
  foreign_comment_refused r id t n = let (x, e) = not_in_org id n in (x, refuse r t e)
    where
      refuse :
          {x : Exception} (r : Request)
          → target r ≡ some id
          → find_comment_with_workflow orm id caller.org_id w ≡ (err x, w)
          → serve orm trim r caller w ≡ (err x, w)
      refuse (post _ _ _ _) t e = cc
      refuse (edit _ _) t e = unfold serve update_comment in ground arith
      refuse (remove _ _) t e = unfold serve delete_comment in ground arith
      refuse (reply _ _ _ _) t e = unfold serve create_reply in ground arith
      refuse (resolve _ _ _) t e = unfold serve resolve_comment in ground arith
      refuse (assign _ _) t e = unfold serve assign_comment in ground arith
