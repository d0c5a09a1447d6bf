-- ===== src/AiGateway/Handled.antt =====
-- The set of handled messages that each handler of src/modules/ai-gateway/handlers keeps in memory:
-- a `Set`, which remembers the order of insertion.
use Prim.Native.String.{◌++◌ as ◌+++◌}
use back_end.Prelude.{
  ℕ, ◌≤◌, String, Bool, true, false, ◌≡◌, ◌≢◌, ◌↔◌, ◌⊎◌, ◌∙◌, ◌+◌, ◌<◌, ap, subst, inl, inr, refl,
  sym, List, [], ◌∷◌, ◌++◌, Option, ◌===◌, string_Eq, if◌then◌else◌, ltb, length, array_some,
  option_get, arith, Bool-cases,
}
use back_end.Database.Rows.{Contains}
use back_end.Database.Lists.{some_iff, append-Contains}
use back_end.World.{
  World, Action, Result, Exception, ok, err, pure, gets, modify, ◌>>=◌, ◌>>◌, bind_lem, bind_err,
  Keeps,
}

abbrev pub idempotency_key : Option String → String → String → String
idempotency_key msg_id correlation_id subject =
    option_get msg_id "" +++ (":" +++ (correlation_id +++ (":" +++ subject)))

abbrev pub is_already_handled : String → List String → Bool
is_already_handled key handled = array_some (λ k. k === key) handled

abbrev pub max_handled : ℕ
max_handled = 10000

-- `Set.add`
abbrev pub set_add : String → List String → List String
set_add key handled = if is_already_handled key handled then handled else handled ++ (key ∷ [])

-- `handledIds.values().next().value`, and its deletion unless it is the empty text.
abbrev pub forget_first : List String → List String
forget_first [] = []
forget_first (k ∷ ks) = if k === "" then k ∷ ks else ks

-- `if (this.handledIds.size > 10_000)`
abbrev pub cut_down : List String → List String
cut_down handled = if ltb max_handled (length handled) then forget_first handled else handled

unfoldable pub mark_handled : String → List String → List String
mark_handled key handled = cut_down (set_add key handled)

-- The frame that the three handlers have: a handled message is passed over, and a message counts as
-- handled when its handling has come to its end.
abbrev pub handle_once :
    (World → List String)
    → (List String → World → World)
    → String
    → Action (Unit {0})
    → Action (Unit {0})
handle_once get set key body = do
  handled ← gets (λ w. is_already_handled key (get w))
  if handled then pure tt else (body >> modify (λ w. set (mark_handled key (get w)) w))

-- The set holds at most as many keys as it may, none of them empty.
abbrev pub IsBounded : List String → Type 0
IsBounded handled = (length handled ≤ max_handled) × ((k : String) → Contains k handled → k ≢ "")

handled_iff : (key : String) (l : List String) → (is_already_handled key l ≡ true) ↔ Contains key l
handled_iff key l = (
  λ h.
      let (k, c, e) = (some_iff (λ k. k === key) l).0 h in
      subst (λ z. Contains z l) ((string_Eq.beq_iff k key).0 e) c,
  λ c. (some_iff (λ k. k === key) l).1 (key, c, (string_Eq.beq_iff key key).1 refl),
)

length-concat : (l : List String) (k : String) → length (l ++ k ∷ []) ≡ length l + 1
length-concat [] k = omega arith
length-concat (x ∷ l) k = omega (arith, length-concat l k)

-- What the set is after a key was added: the key is new, or it was there.
add_cases :
    (key : String) (l : List String)
    → ((set_add key l ≡ l) × Contains key l) ⊎ (set_add key l ≡ l ++ key ∷ [])
add_cases key l = elim (Bool-cases (is_already_handled key l)) [
  | inl h ↦ inl (rw (h) refl, (handled_iff key l).0 h)
  | inr h ↦ inr (rw (h) refl)
]

cut_small : (l : List String) → length l ≤ max_handled → cut_down l ≡ l
cut_small l h = ground (arith, h)

cut_big :
    (k : String) (l : List String) → max_handled < length (k ∷ l) → k ≢ "" → cut_down (k ∷ l) ≡ l
cut_big k l h n =
    let long : ltb max_handled (length (k ∷ l)) ≡ true = ground (arith, h) in
    let full : (k === "") ≡ false = ground (arith, n, string_Eq.beq_iff k "") in
    rw (long, full) refl

-- What the set is after a key was handled: as it was, with the key at its end, or without its
-- oldest key and with the new one.
data Marked (key : String) (l : List String) : List String → Type 0 where
  kept : Contains key l → Marked key l l
  added : length l < max_handled → Marked key l (l ++ key ∷ [])
  replaced :
      (k : String) (ks : List String)
      → l ≡ k ∷ ks
      → length l ≡ max_handled
      → Marked key l (ks ++ key ∷ [])

mark-Marked : (key : String) (l : List String) → IsBounded l → Marked key l (mark_handled key l)
unfolding mark_handled
mark-Marked key l (b, n) = elim (add_cases key l) [
  | inl (e, c) ↦ subst (Marked key l) (sym (ap cut_down e ∙ cut_small l b)) (kept c)
  | inr e ↦ elim (Bool-cases (ltb (length l) max_handled)) [
    | inl h ↦
        subst (Marked key l)
          (sym (ap cut_down e ∙ cut_small (l ++ key ∷ []) (ground (arith, length-concat l key, h))))
          (added (ground (arith, h)))
    | inr h ↦ full l (ground (arith, b, h)) n (ap cut_down e)
  ]
]
  where
    full :
        (l : List String)
        → length l ≡ max_handled
        → ((k : String) → Contains k l → k ≢ "")
        → mark_handled key l ≡ cut_down (l ++ key ∷ [])
        → Marked key l (mark_handled key l)
    full [] h n e = absurd (omega (arith, h))
    full (k ∷ ks) h n e =
        let long : max_handled < length (k ∷ (ks ++ key ∷ [])) =
          omega (arith, h, length-concat ks key) in
        subst (Marked key (k ∷ ks)) (sym (e ∙ cut_big k (ks ++ key ∷ []) long (n k (inl refl))))
          (replaced k ks refl h)

-- A key that was handled is in the set.
mark-Contains : (key : String) (l : List String) → IsBounded l → Contains key (mark_handled key l)
mark-Contains key l b = by_case (mark_handled key l) (mark-Marked key l b)
  where
    by_case : (m : List String) → Marked key l m → Contains key m
    by_case m (kept c) = c
    by_case m (added h) = (append-Contains l (key ∷ []) key).1 (inr (inl refl))
    by_case m (replaced k ks e h) = (append-Contains ks (key ∷ []) key).1 (inr (inl refl))

-- Handling a key that is not empty keeps the set within its bound.
pub mark-IsBounded :
    (key : String) (l : List String) → key ≢ "" → IsBounded l → IsBounded (mark_handled key l)
mark-IsBounded key l n b = by_case (mark_handled key l) (mark-Marked key l b)
  where
    at_end :
        (ks : List String) (k : String)
        → ((k : String) → Contains k ks → k ≢ "")
        → Contains k (ks ++ key ∷ [])
        → k ≢ ""
    at_end ks k h c = elim ((append-Contains ks (key ∷ []) k).0 c) [
      | inl d ↦ h k d
      | inr (inl e) ↦ λ z. n (sym e ∙ z)
      | inr (inr x) ↦ elim x [ ]
    ]

    by_case : (m : List String) → Marked key l m → IsBounded m
    by_case m (kept c) = b
    by_case m (added h) = (omega (arith, h, length-concat l key), λ k c. at_end l k b.1 c)
    by_case m (replaced k ks e h) = (
      omega (arith, h, ap length e, length-concat ks key),
      λ j c. at_end ks j (λ i d. b.1 i (subst (Contains i) (sym e) (inr d))) c,
    )

-- A key that counts as handled counts as handled when another one was, unless it was the oldest of
-- a full set.
pub mark-keeps :
    (key : String) (l : List String) (other : String)
    → IsBounded l
    → is_already_handled other l ≡ true
    → (is_already_handled other (mark_handled key l) ≡ true)
      ⊎ ((ks : List String) × (l ≡ other ∷ ks) × (length l ≡ max_handled))
mark-keeps key l other b h = by_case (mark_handled key l) (mark-Marked key l b)
  where
    found : Contains other l
    found = (handled_iff other l).0 h

    by_case :
        (m : List String)
        → Marked key l m
        → (is_already_handled other m ≡ true)
          ⊎ ((ks : List String) × (l ≡ other ∷ ks) × (length l ≡ max_handled))
    by_case m (kept c) = inl h
    by_case m (added f) =
        inl ((handled_iff other m).1 ((append-Contains l (key ∷ []) other).1 (inl found)))
    by_case m (replaced k ks e f) = elim (subst (Contains other) e found) [
      | inl q ↦ inr (ks, subst (λ z. l ≡ z ∷ ks) (sym q) e, f)
      | inr c ↦ inl ((handled_iff other m).1 ((append-Contains ks (key ∷ []) other).1 (inl c)))
    ]

ok_err : {e : Exception} → ok tt ≢ err e
ok_err = λ e. cc

module _ (get : World → List String) (set : List String → World → World) (key : String)
    (body : Action (Unit {0})) where
  skipped :
      (w : World)
      → is_already_handled key (get w) ≡ true
      → handle_once get set key body w ≡ (ok tt, w)
  skipped w h =
      ap (λ c. (if c then pure tt else (body >> modify (λ w. set (mark_handled key (get w)) w))) w)
        h

  pub not_skipped :
      (w : World)
      → is_already_handled key (get w) ≡ false
      → handle_once get set key body w ≡ (body >> modify (λ w. set (mark_handled key (get w)) w)) w
  not_skipped w h =
      ap (λ c. (if c then pure tt else (body >> modify (λ w. set (mark_handled key (get w)) w))) w)
        h

  after_body :
      (P : World → Type 0) (p : Result (Unit {0}) × World)
      → ((l : List String) (v : World) → P v → P (set l v))
      → P p.1
      → P
          (elim p.0 as (λ _. Result (Unit {0}) × World) [
            | ok _ ↦ (ok tt, set (mark_handled key (get p.1)) p.1)
            | err x ↦ (err x, p.1)
          ]).1
  after_body P (ok _, v) stable h = stable (mark_handled key (get v)) v h
  after_body P (err x, v) stable h = h

  -- What holds when the handling ends, holds when the frame does.
  pub once-Ends :
      (P : World → Type 0) (w : World)
      → ((l : List String) (v : World) → P v → P (set l v))
      → P w
      → P (body w).1
      → P (handle_once get set key body w).1
  once-Ends P w stable before after = elim (Bool-cases (is_already_handled key (get w))) [
    | inl h ↦ subst (λ p. P p.1) (sym (skipped w h)) before
    | inr h ↦ subst (λ p. P p.1) (sym (not_skipped w h)) (after_body P (body w) stable after)
  ]

-- A message that was handled to the end is passed over when it comes again.
module _ (get : World → List String) (set : List String → World → World)
    (get-set : (l : List String) (w : World) → get (set l w) ≡ l) (key : String)
    (body : Action (Unit {0})) (body-Keeps : Keeps get body) where
  marked-Contains :
      (w : World)
      → IsBounded (get w)
      → is_already_handled key (get (set (mark_handled key (get w)) w)) ≡ true
  marked-Contains w b =
      subst (λ l. is_already_handled key l ≡ true) (sym (get-set (mark_handled key (get w)) w))
        ((handled_iff key (mark_handled key (get w))).1 (mark-Contains key (get w) b))

  first_time :
      (w : World) (p : Result (Unit {0}) × World)
      → body w ≡ p
      → IsBounded (get w)
      → is_already_handled key (get w) ≡ false
      → ((handle_once get set key body w).0 ≡ ok tt)
      → handle_once get set key body (handle_once get set key body w).1
        ≡ (ok tt, (handle_once get set key body w).1)
  first_time w (err e, w') r b h done =
      let q =
        not_skipped get set key body w h
        ∙ bind_err body (λ _. modify (λ w. set (mark_handled key (get w)) w)) w r in
      absurd (ok_err (sym done ∙ ap (λ p. p.0) q))
  first_time w (ok _, w') r b h done =
      let q =
        not_skipped get set key body w h
        ∙ bind_lem body (λ _. modify (λ w. set (mark_handled key (get w)) w)) w r in
      let bounded = subst IsBounded (sym (ap (λ p. get p.1) (sym r) ∙ body-Keeps.keeps w)) b in
      subst (λ p. handle_once get set key body p.1 ≡ (ok tt, p.1)) (sym q)
        (skipped get set key body (set (mark_handled key (get w')) w') (marked-Contains w' bounded))

  pub once_more :
      (w : World)
      → IsBounded (get w)
      → ((handle_once get set key body w).0 ≡ ok tt)
      → handle_once get set key body (handle_once get set key body w).1
        ≡ (ok tt, (handle_once get set key body w).1)
  once_more w b done = elim (Bool-cases (is_already_handled key (get w))) [
    | inl h ↦
        subst (λ p. handle_once get set key body p.1 ≡ (ok tt, p.1))
          (sym (skipped get set key body w h)) (skipped get set key body w h)
    | inr h ↦ first_time w (body w) refl b h done
  ]
