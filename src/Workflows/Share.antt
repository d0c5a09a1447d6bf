-- ===== src/Workflows/Share.antt =====
-- src/modules/workflows/services/share-workflow.service.ts. The token and the time are the
-- runtime's, and arguments here.
use back_end.Prelude.{
  ℕ, ◌+◌, String, Bool, Option, none, some, ◌==◌, ◌===◌, string_Eq, option_Eq, ◌&&◌, not, ltb, leb,
  if◌then◌else◌, false,
}
use Prim.Native.String.{◌++◌}
use back_end.Database.Orm.{Orm}
use back_end.Database.Entities.{Uuid, Instant, Workflow}
use back_end.World.{Action, pure, gets, modify, ◌>>=◌, ◌>>◌}

pub data ExpiresIn : Type 0 where
  one_day seven_days never : ExpiresIn

pub record ShareOptions : Type 0 where
  pub workflow_id : Uuid
  pub expires_in : Option ExpiresIn
  pub max_views : Option ℕ

pub record ShareResult : Type 0 where
  pub token : String
  pub url : String
  pub expires_at : Option Instant
  pub max_views : Option ℕ

abbrev pub expires_at : Option ExpiresIn → Instant → Option Instant
expires_at (some ExpiresIn.one_day) now = some (now + 86400000)
expires_at (some ExpiresIn.seven_days) now = some (now + 604800000)
expires_at (some ExpiresIn.never) now = none
expires_at none now = none

-- The mapper's `update` leaves a column as it is where the partial row has `undefined`.
abbrev pub assigned : {A : Type 0} → Option A → Option A → Option A
assigned none old = old
assigned (some a) old = some a

abbrev pub shared : String → Option Instant → Option ℕ → Workflow → Workflow
shared token until max_views x = record x {
  share_token = some token;
  share_expires_at = assigned until x.share_expires_at;
  share_max_views = assigned max_views x.share_max_views;
  share_view_count = 0;
}

-- `new Date() > workflow.shareExpiresAt`, where there is one
abbrev pub is_expired : Instant → Workflow → Bool
is_expired now x = elim x.share_expires_at [ none ↦ false | some t ↦ ltb t now ]

-- A limit of 0 is no limit.
abbrev pub is_used_up : Workflow → Bool
is_used_up x = elim x.share_max_views [
  | none ↦ false
  | some m ↦ not (m == 0) && leb m x.share_view_count
]

abbrev pub viewed : Workflow → Workflow
viewed x = record x { share_view_count = x.share_view_count + 1 }

module _ (orm : Orm) where
  unfoldable pub create_share : String → Instant → ShareOptions → Action ShareResult
  create_share token now o = do
    modify (λ w. record w {
      workflows =
          orm.update (λ x. x.id == o.workflow_id)
            (shared token (expires_at o.expires_in now) o.max_views) w.workflows;
    })
    pure (record {
      token = token;
      url = "/workflows/shared/" ++ token;
      expires_at = expires_at o.expires_in now;
      max_views = o.max_views;
    })

  unfoldable pub get_shared_workflow : Instant → String → Action (Option Workflow)
  get_shared_workflow now token = do
    found ← gets (λ w. orm.find_one (λ x. x.share_token === some token) w.workflows)
    elim found [
      | none ↦ pure none
      | some x ↦ if is_expired now x then pure none else if is_used_up x then pure none else (do
        modify (λ w. record w { workflows = orm.update (λ y. y.id == x.id) viewed w.workflows })
        pure (some x))
    ]
