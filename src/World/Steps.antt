-- ===== src/World/Steps.antt =====
-- What holds of the world when a method ends, with a result or with an exception, step by step.
use back_end.Prelude.{◌≡◌, refl, sym, ap, subst, ◌∙◌, Bool, true, false, Option, none, some}
use back_end.World.State.{World}
use back_end.World.Monad.{
  Exception, Result, ok, err, Action, pure, throw_if, lift, gets, modify, or_throw, ◌>>=◌, ◌>>◌,
}

pub record Ends {A : Type 0} (P : World → Type 0) (m : Action A) (w : World) : Type 0 where
  pub ends : P (m w).1

module _ {A B : Type 0} (P : World → Type 0) (w : World) where
  pub lift-Ends :
      (r : Result A) (k : A → Action B)
      → P w
      → ((a : A) → r ≡ ok a → Ends P (k a) w)
      → Ends P (lift r >>= k) w
  lift-Ends (err e) k stop go = record { ends = stop }
  lift-Ends (ok a) k stop go = record { ends = (go a refl).ends }

  pub or_throw-Ends :
      (o : Option A) (e : Exception) (k : A → Action B)
      → P w
      → ((a : A) → o ≡ some a → Ends P (k a) w)
      → Ends P (or_throw o e >>= k) w
  or_throw-Ends none e k stop go = record { ends = stop }
  or_throw-Ends (some a) e k stop go = record { ends = (go a refl).ends }

  pub gets-Ends : (f : World → A) (k : A → Action B) → Ends P (k (f w)) w → Ends P (gets f >>= k) w
  gets-Ends f k go = record { ends = go.ends }

module _ {B : Type 0} (P : World → Type 0) (w : World) where
  pub throw_if-Ends :
      (c : Bool) (e : Exception) (k : Action B)
      → P w
      → (c ≡ false → Ends P k w)
      → Ends P (throw_if c e >> k) w
  throw_if-Ends true e k stop go = record { ends = stop }
  throw_if-Ends false e k stop go = record { ends = (go refl).ends }

  pub modify-Ends : (f : World → World) (k : Action B) → Ends P k (f w) → Ends P (modify f >> k) w
  modify-Ends f k go = record { ends = go.ends }

  last_result :
      (p : Result B × World)
      → P p.1
      → P
          (elim p.0 as (λ _. Result (Unit {0}) × World) [
            | ok a ↦ (ok tt, p.1)
            | err e ↦ (err e, p.1)
          ]).1
  last_result (ok a, w') h = h
  last_result (err e, w') h = h

  pub done-Ends : (m : Action B) → Ends P m w → Ends P (m >> pure tt) w
  done-Ends m go = record { ends = last_result (m w) go.ends }

-- A method that leaves a part of the world alone, however it ends.
pub record Keeps {A V : Type 0} (part : World → V) (m : Action A) : Type 0 where
  pub keeps : (w : World) → part (m w).1 ≡ part w

module _ {V : Type 0} (part : World → V) where
  module _ {A B : Type 0} where
    bound-Keeps :
        (k : A → Action B)
        → ((a : A) → Keeps part (k a))
        → (v : V) (p : Result A × World) → part p.1 ≡ v
        → part (elim p.0 as (λ _. Result B × World) [ ok a ↦ k a p.1 | err e ↦ (err e, p.1) ]).1 ≡ v
    bound-Keeps k h v (ok a, w) e = (h a).keeps w ∙ e
    bound-Keeps k h v (err x, w) e = e

    pub bind-Keeps :
        (m : Action A) (k : A → Action B)
        → Keeps part m
        → ((a : A) → Keeps part (k a))
        → Keeps part (m >>= k)
    bind-Keeps m k h g = record { keeps = λ w. bound-Keeps k g (part w) (m w) (h.keeps w) }

    pub lift-Keeps :
        (r : Result A) (k : A → Action B) → ((a : A) → Keeps part (k a)) → Keeps part (lift r >>= k)
    lift-Keeps r k h = bind-Keeps (lift r) k (record { keeps = λ w. refl }) h

  pub read-Keeps : {A : Type 0} {m : Action A} → Keeps (λ (w : World). w) m → Keeps part m
  read-Keeps {m = m} h = record { keeps = λ w. ap part (h.keeps w) }

module _ {A B : Type 0} (P : World → Type 0) (w : World) where
  read_result :
      (k : A → Action B)
      → P w
      → (p : Result A × World) → p.1 ≡ w
      → ((a : A) → p ≡ (ok a, w) → P (k a w).1)
      → P (elim p.0 as (λ _. Result B × World) [ ok a ↦ k a p.1 | err e ↦ (err e, p.1) ]).1
  read_result k stop (err e, w') q go = subst P (sym q) stop
  read_result k stop (ok a, w') q go =
      subst (λ z. P (k a z).1) (sym q) (go a (ap (λ z. (ok a, z)) q))

  -- A step that only reads.
  pub read-Ends :
      (m : Action A) (k : A → Action B)
      → Keeps (λ (w : World). w) m
      → P w
      → ((a : A) → m w ≡ (ok a, w) → Ends P (k a) w)
      → Ends P (m >>= k) w
  read-Ends m k h stop go = record {
    ends = read_result k stop (m w) (h.keeps w) (λ a e. (go a e).ends);
  }
