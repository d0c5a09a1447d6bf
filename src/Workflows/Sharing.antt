-- ===== src/Workflows/Sharing.antt =====
-- What a share link of src/modules/workflows/services/share-workflow.service.ts lets be seen.
use back_end.Prelude.{
  taken, not_taken, ==_iff, ℕ, ◌+◌, ◌≤◌, String, Bool, true, false, List, [], ◌∷◌, Option, none,
  some, ◌≡◌, ◌≢◌, ◌⊎◌, inl, inr, refl, sym, ap, ◌∙◌, ◌==◌, ◌===◌, string_Eq, option_Eq,
  option_beq_iff, arith, Option-cases, Bool-cases, subst,
}
use back_end.Database.Rows.{Contains, Every}
use back_end.Database.Orm.{Orm}
use back_end.Database.Entities.{Uuid, Instant, Workflow}
use back_end.World.{World, Result, ok}
use back_end.Workflows.Share.{
  ExpiresIn, ShareOptions, ShareResult, create_share, get_shared_workflow, is_expired, is_used_up,
  viewed, shared,
}

module _ (orm : Orm) (token : String) where
  abbrev has_token : Workflow → Bool
  has_token x = x.share_token === some token

  -- Why a link shows nothing: no workflow has its token, or one that has it is expired or used up.
  abbrev pub IsInvalid : Instant → World → Type 0
  IsInvalid now w =
      Every (λ (x : Workflow). x.share_token ≢ some token) w.workflows
      ⊎ ((x : Workflow) × Contains x w.workflows
          × (x.share_token ≡ some token)
          × ((is_expired now x ≡ true) ⊎ (is_used_up x ≡ true)))

  pub get_shared_workflow_outcome :
      (now : Instant) (w : World)
      → (IsInvalid now w × (get_shared_workflow orm now token w ≡ (ok none, w)))
        ⊎ ((x : Workflow) × Contains x w.workflows
            × (x.share_token ≡ some token)
            × (is_expired now x ≡ false)
            × (is_used_up x ≡ false)
            × (get_shared_workflow orm now token w ≡ (
              ok (some x),
              record w { workflows = orm.update (λ y. y.id == x.id) viewed w.workflows },
            )))
  unfolding get_shared_workflow
  get_shared_workflow_outcome now w = elim (Option-cases (orm.find_one has_token w.workflows)) [
    | inl e ↦ inl (
      inl (λ x c t. ground (
        arith,
        orm.find_one_complete has_token w.workflows x e c,
        (option_beq_iff x.share_token (some token)).1 t,
      )),
      rw e,
    )
    | inr (x, e) ↦
        let (p, c) = orm.find_one_sound has_token w.workflows x e in
        let q = (option_beq_iff x.share_token (some token)).0 p in
        elim (Bool-cases (is_expired now x)) [
          | inl t ↦ inl (inr (x, c, q, inl t), ground arith)
          | inr f ↦ elim (Bool-cases (is_used_up x)) [
            | inl t ↦ inl (inr (x, c, q, inr t), ground arith)
            | inr g ↦ inr (x, c, q, f, g, ground arith)
          ]
        ]
  ]

  abbrev tally : Result (Option Workflow) → ℕ → ℕ
  tally (ok (some _)) rest = rest + 1
  tally _ rest = rest

  -- How many of these requests see the workflow.
  unfoldable pub times_seen : List Instant → World → ℕ
  times_seen [] w = 0
  times_seen (now ∷ later) w =
      let (r, w') = get_shared_workflow orm now token w in
      let rest = times_seen later w' in tally r rest

  -- The rows of the token: one id, a limit, and at least so many views.
  abbrev Limits : Uuid → ℕ → ℕ → World → Type 0
  Limits id m seen w =
      Every
        (λ (x : Workflow).
          x.share_token ≡ some token
          → (x.id ≡ id) × (x.share_max_views ≡ some m) × (seen ≤ x.share_view_count))
        w.workflows

  seen-Limits :
      (id m seen : ℕ) (w : World) (x : Workflow)
      → x.id ≡ id
      → Limits id m seen w
      → Limits id m
          (seen + 1)
          (record w { workflows = orm.update (λ y. y.id == x.id) viewed w.workflows })
  seen-Limits id m seen w x i h = λ y c t.
      let (r, d, q) = orm.update_sound (λ y. y.id == x.id) viewed w.workflows y c in
      elim (Bool-cases (r.id == x.id)) [
        | inl e ↦
            let q' = taken (r.id == x.id) _ _ q e in
            let (a, b, l) = h r d (ap (λ z. z.share_token) (sym q') ∙ t) in
            (
              ap (λ z. z.id) q' ∙ a,
              ap (λ z. z.share_max_views) q' ∙ b,
              ground (arith, ap (λ z. z.share_view_count) q'),
            )
        | inr e ↦
            let q' = not_taken (r.id == x.id) _ _ q e in
            let (a, b, l) = h r d (ap (λ z. z.share_token) (sym q') ∙ t) in ground arith
      ]

  -- As long as views are left, at most those are given.
  seen-bounded :
      (id m : ℕ) (nows : List Instant) (seen : ℕ) (w : World)
      → 1 ≤ m
      → seen ≤ m
      → Limits id m seen w
      → times_seen nows w + seen ≤ m
  unfolding times_seen
  seen-bounded id m [] seen w one l h = omega arith
  seen-bounded id m (now ∷ later) seen w one l h = elim (get_shared_workflow_outcome now w) [
    | inl (_, e) ↦ ground (arith, seen-bounded id m later seen w one l h)
    | inr (x, c, t, _, u, e) ↦
        let (i, b, k) = h x c t in
        let w' = record w { workflows = orm.update (λ y. y.id == x.id) viewed w.workflows } in
        let rest =
          seen-bounded id m later (seen + 1) w' one (ground arith)
            (seen-Limits id m seen w x i h) in
        subst
          (λ (p : Result (Option Workflow) × World). tally p.0 (times_seen later p.1) + seen ≤ m)
          (sym e) (omega (arith, rest))
  ]

  pub share-bounded :
      (now : Instant) (o : ShareOptions) (m : ℕ) (nows : List Instant) (w : World)
      → Every (λ (x : Workflow). x.share_token ≢ some token) w.workflows
      → o.max_views ≡ some m
      → 1 ≤ m
      → times_seen nows (create_share orm token now o w).1 ≤ m
  unfolding create_share
  share-bounded now o m nows w new v one =
      omega (arith, seen-bounded o.workflow_id m nows 0 _ one (ground arith) start)
    where
      start : Limits o.workflow_id m 0 (create_share orm token now o w).1
      start y c t =
          let (r, d, q) = orm.update_sound _ _ w.workflows y c in
          elim (Bool-cases (r.id == o.workflow_id)) [
            | inl e ↦
                let q' = taken (r.id == o.workflow_id) _ _ q e in
                (
                  ap (λ z. z.id) q' ∙ (==_iff r.id o.workflow_id).0 e,
                  ap (λ z. z.share_max_views) q' ∙ rw v refl,
                  ground arith,
                )
            | inr e ↦ absurd (
                new r d
                  (ap (λ z. z.share_token) (sym (not_taken (r.id == o.workflow_id) _ _ q e)) ∙ t))
          ]

  -- The answer names no expiry and no limit, and a row of the token has those of the old row.
  abbrev pub HasOldLimits : Workflow → Result ShareResult × World → Type 0
  HasOldLimits x p =
      ((a : ShareResult) × (p.0 ≡ ok a) × (a.expires_at ≡ none) × (a.max_views ≡ none))
      × ((y : Workflow) × Contains y p.1.workflows
          × (y.id ≡ x.id)
          × (y.share_token ≡ some token)
          × (y.share_expires_at ≡ x.share_expires_at)
          × (y.share_max_views ≡ x.share_max_views))

  -- Sharing a workflow again, for ever and without a limit, keeps the expiry and the limit that the
  -- row had, though the answer shows none.
  pub share_again :
      (now : Instant) (id : Uuid) (w : World) (x : Workflow)
      → Contains x w.workflows
      → x.id ≡ id
      → HasOldLimits x (
          create_share orm token now
            (record { workflow_id = id; expires_in = some ExpiresIn.never; max_views = none })
            w)
  unfolding create_share
  share_again now id w x c i = (
    (_, refl, refl, refl),
    (
      shared token none none x,
      subst (λ z. Contains z (orm.update (λ y. y.id == id) (shared token none none) w.workflows))
          (ground arith)
          (orm.update_complete (λ y. y.id == id) (shared token none none) w.workflows x c),
      refl,
      refl,
      refl,
      refl,
    ),
  )
