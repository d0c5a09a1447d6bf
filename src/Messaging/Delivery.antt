-- ===== src/Messaging/Delivery.antt =====
-- src/infra/nats/nats.client.ts: `subscribeDurable`, which takes the messages of a durable consumer
-- one by one. JetStream numbers the deliveries of a message from 1 and delivers it again after a
-- negative acknowledgement, `max_deliver` times in all.
use back_end.Prelude.{
  ℕ, zero, suc, ◌+◌, ◌≤◌, ◌≡◌, refl, sym, ap, subst, ◌∙◌, String, false, Option, none, some,
  option_get, leb, arith, if◌then◌else◌,
}
use back_end.World.{World, Action, Exception, Result, ok, err, pure, throw, lift, ◌>>=◌, ◌>>◌}

pub record SubscriberMeta : Type 0 where
  pub subject : String
  pub delivery_count : ℕ
  pub msg_id : Option String

pub record ExhaustedMeta (P : Type 0) : Type 0 where
  pub meta : SubscriberMeta
  pub payload : P
  pub error : Exception

-- `DurableSubscriberOptions`. The check of a payload type (class-validator) gives the exception that
-- it rejects with; `empty` is `{}`.
pub record Subscriber (P : Type 0) : Type 0 where
  pub subject : String
  pub empty : P
  pub payload_type : Option (P → Option Exception)
  pub handler : P → SubscriberMeta → Action (Unit {0})
  pub on_exhausted : Option (ExhaustedMeta P → Action (Unit {0}))

-- What the loop told the broker. When `onExhausted` throws, the loop itself ends.
pub data Verdict : Type 0 where
  acked nacked terminated stopped : Verdict

-- A message as it arrives: what the codec decodes it to, or throws.
pub record RawMessage (P : Type 0) : Type 0 where
  pub content : Result P
  pub msg_id : Option String

abbrev pub max_deliver : ℕ
max_deliver = 3

module _ {P : Type 0} (s : Subscriber P) (m : RawMessage P) where
  abbrev pub meta_of : ℕ → SubscriberMeta
  meta_of count = record { subject = s.subject; delivery_count = count; msg_id = m.msg_id }

  abbrev validate_or_reject : Option (P → Option Exception) → P → Action (Unit {0})
  validate_or_reject none payload = pure tt
  validate_or_reject (some check) payload = elim (check payload) [
    | none ↦ pure tt
    | some e ↦ throw e
  ]

  -- The body of the `try`, up to the acknowledgement.
  unfoldable pub process : ℕ → Action (Unit {0})
  process count = do
    payload ← lift m.content
    validate_or_reject s.payload_type payload
    s.handler payload (meta_of count)

  abbrev decoded_or_empty : Result P → P
  decoded_or_empty (ok payload) = payload
  decoded_or_empty (err _) = s.empty

  abbrev pub exhausted_meta : ℕ → Exception → ExhaustedMeta P
  exhausted_meta count error = record {
    meta = meta_of count;
    payload = decoded_or_empty m.content;
    error = error;
  }

  abbrev pub ended : Result (Unit {0}) × World → Verdict × World
  ended (ok _, w) = (terminated, w)
  ended (err _, w) = (stopped, w)

  abbrev run_exhausted :
      Option (ExhaustedMeta P → Action (Unit {0})) → ExhaustedMeta P → World → Verdict × World
  run_exhausted none meta w = (terminated, w)
  run_exhausted (some run) meta w = ended (run meta w)

  abbrev judged : ℕ → Result (Unit {0}) × World → Verdict × World
  judged count (ok _, w) = (acked, w)
  judged count (err e, w) =
      if leb 3 count then run_exhausted s.on_exhausted (exhausted_meta count e) w else (nacked, w)

  -- One pass of the loop.
  unfoldable pub deliver : Option ℕ → World → Verdict × World
  unfolding process
  deliver redelivery_count w =
      judged (option_get redelivery_count 1) (process (option_get redelivery_count 1) w)

  -- The broker delivers the message again while it is told to and may; in between, other things
  -- happen.
  abbrev again : (Verdict × World → Verdict × World) → Verdict × World → Verdict × World
  again next (nacked, w) = next (nacked, w)
  again next p = p

  unfoldable pub redeliver : (ℕ → World → World) → ℕ → ℕ → World → Verdict × World
  unfolding deliver
  redeliver between zero count w = deliver (some count) w
  redeliver between (suc left) count w =
      again (λ p. redeliver between left (count + 1) (between count p.1)) (deliver (some count) w)

  abbrev pub serve : (ℕ → World → World) → World → Verdict × World
  unfolding redeliver
  serve between w = redeliver between 2 1 w

  -- How a message ends: it was processed at some delivery, or it was given up at the last.
  pub data Served : Verdict × World → Type 0 where
    processed :
        (count : ℕ) (w w' : World)
        → count ≤ max_deliver
        → process count w ≡ (ok tt, w')
        → Served (acked, w')
    given_up :
        (e : Exception) (w w' : World)
        → process max_deliver w ≡ (err e, w')
        → Served (run_exhausted s.on_exhausted (exhausted_meta max_deliver e) w')

  deliver-acked :
      (count : ℕ) (w w' : World)
      → process count w ≡ (ok tt, w')
      → deliver (some count) w ≡ (acked, w')
  unfolding deliver
  deliver-acked count w w' e = ap (judged count) e

  deliver-err :
      (count : ℕ) (w w' : World) (x : Exception)
      → process count w ≡ (err x, w')
      → deliver (some count) w ≡ judged count (err x, w')
  unfolding deliver
  deliver-err count w w' x e = ap (judged count) e

  last-Served :
      (w : World) (p : Result (Unit {0}) × World) → process 3 w ≡ p → Served (deliver (some 3) w)
  last-Served w (ok _, w') e =
      subst Served (sym (deliver-acked 3 w w' e)) (processed 3 w w' (omega arith) e)
  last-Served w (err x, w') e = subst Served (sym (deliver-err 3 w w' x e)) (given_up x w w' e)

  -- After each delivery but the last, the message is processed, or delivered again.
  step-Served :
      (between : ℕ → World → World) (left count : ℕ) (w : World) (p : Result (Unit {0}) × World)
      → process count w ≡ p
      → count + suc left ≡ max_deliver
      → ((w : World) → Served (redeliver between left (count + 1) w))
      → Served (redeliver between (suc left) count w)
  unfolding redeliver
  step-Served between left count w (ok _, w') e n rest =
      subst Served
        (sym (
          ap (again (λ p. redeliver between left (count + 1) (between count p.1)))
            (deliver-acked count w w' e)))
        (processed count w w' (omega (arith, n)) e)
  step-Served between left count w (err x, w') e n rest =
      let early : leb 3 count ≡ false = ground (arith, n) in
      let verdict : deliver (some count) w ≡ (nacked, w') =
        deliver-err count w w' x e
        ∙ ap
            (λ c.
              if c then run_exhausted s.on_exhausted (exhausted_meta count x) w' else (nacked, w'))
            early in
      subst Served
        (sym (ap (again (λ p. redeliver between left (count + 1) (between count p.1))) verdict))
        (rest (between count w'))

  -- A message that the broker delivers is processed at one of its three deliveries, or given up at
  -- the third, whatever happens between the deliveries.
  pub serve-Served : (between : ℕ → World → World) (w : World) → Served (serve between w)
  unfolding redeliver
  serve-Served between w =
      step-Served between 1 1 w (process 1 w) refl refl
        λ w. step-Served between 0 2 w (process 2 w) refl refl λ w. last-Served w (process 3 w) refl
