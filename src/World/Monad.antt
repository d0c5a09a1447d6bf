-- ===== src/World/Monad.antt =====
-- The monad of the services: state, and exceptions that keep the state.
use back_end.Prelude.{
  ◌≡◌, ◌⊎◌, inl, inr, refl, ap, String, Bool, true, false, Option, none, some, if◌then◌else◌,
}
use back_end.Database.Json.{Json}
use back_end.World.State.{World}

-- The classes of @nestjs/common, `Error`, and a publication that failed. A template in a message
-- stands as it is written.
pub data Exception : Type 0 where
  bad_request unauthorized forbidden not_found conflict unprocessable internal payload_too_large
        unsupported_media_type :
      String → Exception
  -- an exception whose response is an object
  conflict_with : Json → Exception
  plain_error : String → Exception
  nats_error : Exception

pub data Result (A : Type 0) : Type 0 where
  ok : A → Result A
  err : Exception → Result A

abbrev pub Action : Type 0 → Type 0
Action A = World → Result A × World

module _ {A : Type 0} where
  abbrev pub pure : A → Action A
  pure a w = (ok a, w)

  abbrev pub throw : Exception → Action A
  throw e w = (err e, w)

  abbrev pub gets : (World → A) → Action A
  gets f w = (ok (f w), w)

  abbrev pub or_throw : Option A → Exception → Action A
  or_throw none e = throw e
  or_throw (some a) _ = pure a

  -- A function that may throw, called in a method.
  abbrev pub lift : Result A → Action A
  lift r w = (r, w)

infixl 5 ◌>>=◌ ◌>>◌
abbrev pub ◌>>=◌ : {A B : Type 0} → Action A → (A → Action B) → Action B
◌>>=◌ m f w = let (r, w') = m w in elim r [ ok a ↦ f a w' | err e ↦ throw e w' ]

abbrev pub ◌>>◌ : {A B : Type 0} → Action A → Action B → Action B
m >> k = m >>= λ _. k

abbrev pub throw_if : Bool → Exception → Action (Unit {0})
throw_if c e w = (if c then err e else ok tt, w)

abbrev pub when : Bool → Action (Unit {0}) → Action (Unit {0})
when true m = m
when false m = pure tt

abbrev pub modify : (World → World) → Action (Unit {0})
modify f w = (ok tt, f w)

-- A step that succeeds hands its result and its world to the rest.
pub bind_lem :
    {A B : Type 0} (m : Action A) (k : A → Action B) (w : World) {a : A} {w' : World}
    → m w ≡ (ok a, w')
    → (m >>= k) w ≡ k a w'
bind_lem m k w e = ap (λ p. elim p.0 [ ok a ↦ k a p.1 | err x ↦ throw x p.1 ]) e

-- A step that throws ends the method.
pub bind_err :
    {A B : Type 0} (m : Action A) (k : A → Action B) (w : World) {e : Exception} {w' : World}
    → m w ≡ (err e, w')
    → (m >>= k) w ≡ (err e, w')
bind_err m k w e = ap (λ p. elim p.0 [ ok a ↦ k a p.1 | err x ↦ throw x p.1 ]) e

pub Result-cases :
    {A : Type 0} (r : Result A) → ((e : Exception) × (r ≡ err e)) ⊎ ((a : A) × (r ≡ ok a))
Result-cases (err e) = inl (e, refl)
Result-cases (ok a) = inr (a, refl)
