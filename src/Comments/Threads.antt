-- ===== src/Comments/Threads.antt =====
-- What the requests to src/modules/comments keep: threads stay in one workflow, and a resolved
-- comment is accounted for.
use back_end.Prelude.{
  String, ◌≡◌, ◌≢◌, refl, sym, ap, subst, ◌∙◌, inl, inr, some, arith, Bool-cases, ◌==◌, ==_iff,
}
use back_end.Database.Rows.{HasUniqueKeys, Contains, Every}
use back_end.Database.Counting.{row_is_unique}
use back_end.Database.Orm.{Orm}
use back_end.Database.Entities.{Uuid, Comment, comment_entity}
use back_end.World.{World}
use back_end.Comments.Service.{Caller, Request, serve}
use back_end.Comments.Outcomes.{IsSettled, new_id_of, serve-Effect}

-- A reply has its parent in the table, in its own workflow.
abbrev pub IsThreaded : World → Type 0
IsThreaded w =
    Every
      (λ (c : Comment).
        (p : Uuid)
        → c.parent_id ≡ some p
        → (q : Comment) × Contains q w.comments × (q.id ≡ p) × (q.workflow_id ≡ c.workflow_id))
      w.comments

module _ (orm : Orm) (trim : String → String) (caller : Caller) (w : World) (r : Request) where
  abbrev after : World
  after = (serve orm trim r caller w).1

  -- Each request keeps it so that a comment that is resolved says when and by whom, with a note that
  -- is not blank or the note of a deletion.
  pub serve-IsSettled : Every (IsSettled trim) w.comments → Every (IsSettled trim) after.comments
  serve-IsSettled h = elim (serve-Effect orm caller w trim r) [
    | inl e ↦ subst (Every (IsSettled trim)) (sym e) h
    | inr (inl (old, row, c, _, _, _, k, e)) ↦ λ t m.
        elim (orm.save_other row w.comments t (subst (Contains t) e m)) [
          | inl q ↦ subst (IsSettled trim) (sym q) (k (h old c))
          | inr o ↦ h t o
        ]
    | inr (inr (id, _, (row, _, k, _, e))) ↦ λ t m.
        elim (orm.save_other row w.comments t (subst (Contains t) e m)) [
          | inl q ↦ subst (IsSettled trim) (sym q) k
          | inr o ↦ h t o
        ]
  ]

  -- A parent stays, in its workflow, when a row is saved that keeps its own workflow or is new.
  parent_stays :
      (row q : Comment)
      → Contains q w.comments
      → (q.id ≡ row.id → q.workflow_id ≡ row.workflow_id)
      → (t : Comment) × Contains t (orm.save row w.comments)
        × (t.id ≡ q.id)
        × (t.workflow_id ≡ q.workflow_id)
  parent_stays row q c k = elim (Bool-cases (q.id == row.id)) [
    | inl e ↦
        let i = (==_iff q.id row.id).0 e in (row, orm.save_self row w.comments, sym i, sym (k i))
    | inr e ↦ (q, orm.save_keeps row w.comments q (λ i. ground (arith, i)) c, refl, refl)
  ]

  saved-IsThreaded :
      (w' : World) (row : Comment)
      → w'.comments ≡ orm.save row w.comments
      → ((q : Comment) → Contains q w.comments → q.id ≡ row.id → q.workflow_id ≡ row.workflow_id)
      → ((p : Uuid)
          → row.parent_id ≡ some p
          → (q : Comment) × Contains q w.comments × (q.id ≡ p) × (q.workflow_id ≡ row.workflow_id))
      → IsThreaded w
      → IsThreaded w'
  saved-IsThreaded w' row e k n h = λ t m p a.
      let found : (q : Comment) × Contains q w.comments
          × (q.id ≡ p)
          × (q.workflow_id ≡ t.workflow_id) =
        elim (orm.save_other row w.comments t (subst (Contains t) e m)) [
          | inl s ↦
              let (q, c, i, f) = n p (ap (λ z. z.parent_id) (sym s) ∙ a) in
              (q, c, i, f ∙ ap (λ z. z.workflow_id) (sym s))
          | inr o ↦ h t o p a
        ] in
      let (q, c, i, f) = found in
      let (u, d, j, g) = parent_stays row q c (k q c) in
      (u, subst (Contains u) (sym e) d, j ∙ i, g ∙ f)

  -- Each request keeps every reply's parent in the table and in the reply's workflow, where no two
  -- comments have one id and a new comment's id is no comment's.
  pub serve-IsThreaded :
      HasUniqueKeys w.comments
      → ((id : Uuid) → new_id_of r ≡ some id → Every (λ (c : Comment). c.id ≢ id) w.comments)
      → IsThreaded w
      → IsThreaded after
  serve-IsThreaded u new h = elim (serve-Effect orm caller w trim r) [
    | inl e ↦ λ t m p a.
        let (q, c, i, f) = h t (subst (Contains t) e m) p a in
        (q, subst (Contains q) (sym e) c, i, f)
    | inr (inl (old, row, c, i, f, a, k, e)) ↦
        saved-IsThreaded after row e
          (λ q d j. ap (λ z. z.workflow_id) (row_is_unique w.comments q old u d c (j ∙ i)) ∙ sym f)
          (λ p b. let (q, d, j, g) = h old c p (sym a ∙ b) in (q, d, j, g ∙ sym f)) h
    | inr (inr (id, n, (row, i, k, inl o, e))) ↦
        saved-IsThreaded after row e (λ q d j. absurd (new id n q d (j ∙ i)))
          (λ p b. ground (arith, o, b)) h
    | inr (inr (id, n, (row, i, k, inr (q, c, o, f), e))) ↦
        saved-IsThreaded after row e (λ q d j. absurd (new id n q d (j ∙ i)))
          (λ p b. (q, c, ground (arith, o, b), f)) h
  ]
