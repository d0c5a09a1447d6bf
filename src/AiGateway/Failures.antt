-- ===== src/AiGateway/Failures.antt =====
-- src/modules/ai-gateway/handlers/retry-exhausted.handler.ts and dlq/ai-task-dlq.service.ts: a message
-- that was given up. The text of an error is the runtime's, and a parameter.
use back_end.Prelude.{
  ℕ, ◌≤◌, ◌≡◌, ◌≢◌, ◌⊎◌, inl, inr, refl, subst, sym, ap, ◌∙◌, String, Option, none, some, ◌==◌,
  arith,
}
use Prim.Native.String.{◌++◌ as ◌+++◌}
use back_end.Database.Rows.{Contains}
use back_end.Database.Json.{Json, Fields}
use back_end.Database.Enums.{PipelineStatus}
use back_end.Database.Orm.{Orm}
use back_end.Database.Entities.{Uuid, Instant, PipelineExecution, pipeline_execution_entity}
use back_end.Database.PipelineEntities.{DeadLetter}
use back_end.World.{
  World, Action, Exception, Result, ok, err, plain_error, pure, throw, gets, modify, bind_lem,
  bind_err, ◌>>=◌, ◌>>◌,
}
use back_end.Messaging.Gateway.{emit_to_session}
use back_end.Messaging.Delivery.{
  Subscriber, Verdict, acked, terminated, stopped, RawMessage, max_deliver, process, serve, Served,
  processed, given_up, serve-Served, exhausted_meta, ended, redeliver,
}
use back_end.AiGateway.Results.{save_pipeline}

-- The id of an execution as a payload holds it, truthy: one that the database reads as a uuid, or
-- anything else, on which the query fails.
pub data GivenId : Type 0 where
  uuid : Uuid → GivenId
  malformed : GivenId

-- What the gateway reads of a payload that is not null. An absent or falsy id is `none`. The room of a
-- session that is told is named after the id, whatever it is.
pub record PayloadFields : Type 0 where
  pub json : Json
  pub pipeline_execution_id : Option GivenId
  pub session_id : Option Uuid

-- What the codec may decode a message to: JSON's null, of which no property can be read, or more.
pub data Payload : Type 0 where
  null : Payload
  fields : PayloadFields → Payload

abbrev pub DlqRecordParams : Type 0
DlqRecordParams = DeadLetter

module _ (orm : Orm) (text_of : Exception → String) where
  unfoldable pub record_failure : DlqRecordParams → Action (Unit {0})
  record_failure params =
      modify
        (λ w. record w { ai = record w.ai { dead_letters = orm.insert params w.ai.dead_letters } })

  unfoldable pub fail_pipeline : Instant → String → Option PipelineExecution → Action (Unit {0})
  unfolding save_pipeline
  fail_pipeline now last_error none = pure tt
  fail_pipeline now last_error (some p) = save_pipeline orm (record p {
    status = PipelineStatus.failed;
    error_summary = some last_error;
    completed_at = some now;
  })

  unfoldable pub fail_execution : Instant → String → Option GivenId → Action (Unit {0})
  unfolding fail_pipeline
  fail_execution now last_error none = pure tt
  fail_execution now last_error (some (uuid id)) = do
    found ← gets (λ w. orm.find_one (λ p. p.id == id) w.pipeline_executions)
    fail_pipeline now last_error found
  fail_execution now last_error (some malformed) =
      throw (plain_error "invalid input syntax for type uuid")

  abbrev pub tell_session : String → String → String → Option Uuid → Action (Unit {0})
  tell_session subject reason last_error none = pure tt
  tell_session subject reason last_error (some id) = emit_to_session id "pipeline.failed" (
      Json.object (
        Fields.field "subject" (Json.text subject) (
          Fields.field "reason" (Json.text reason)
            (Fields.field "lastError" (Json.text last_error) Fields.end))))

  abbrev pub dead_letter : String → PayloadFields → Exception → ℕ → DeadLetter
  dead_letter subject payload error delivery_count = record {
    subject = subject;
    payload = payload.json;
    reason = "max deliveries reached for " +++ subject;
    delivery_count = delivery_count;
    last_error = some (text_of error);
  }

  unfoldable pub retry_exhausted : Instant → String → Payload → Exception → ℕ → Action (Unit {0})
  unfolding fail_execution record_failure
  retry_exhausted now subject null error delivery_count =
      throw (plain_error "Cannot read properties of null (reading 'pipeline_execution_id')")
  retry_exhausted now subject (fields payload) error delivery_count = do
    fail_execution now (text_of error) payload.pipeline_execution_id
    tell_session subject ("max deliveries reached for " +++ subject) (text_of error)
        payload.session_id
    record_failure (dead_letter subject payload error delivery_count)

  fail_pipeline-ok :
      (now : Instant) (last_error : String) (found : Option PipelineExecution) (w : World)
      → (w' : World) × (fail_pipeline now last_error found w ≡ (ok tt, w'))
  unfolding fail_pipeline save_pipeline
  fail_pipeline-ok now last_error none w = (w, refl)
  fail_pipeline-ok now last_error (some p) w = (_, refl)

  fail_execution-ok :
      (now : Instant) (last_error : String) (id : Option GivenId) (w : World)
      → id ≢ some malformed
      → (w' : World) × (fail_execution now last_error id w ≡ (ok tt, w'))
  unfolding fail_execution
  fail_execution-ok now last_error none w n = (w, refl)
  fail_execution-ok now last_error (some (uuid id)) w n =
      fail_pipeline-ok now last_error (orm.find_one (λ p. p.id == id) w.pipeline_executions) w
  fail_execution-ok now last_error (some malformed) w n = absurd (n refl)

  tell_session-ok :
      (subject reason last_error : String) (id : Option Uuid) (w : World)
      → (w' : World) × (tell_session subject reason last_error id w ≡ (ok tt, w'))
  tell_session-ok subject reason last_error none w = (w, refl)
  tell_session-ok subject reason last_error (some id) w = (_, refl)

  retry_exhausted-stores :
      (now : Instant) (subject : String) (f : PayloadFields) (error : Exception) (count : ℕ)
      (w : World)
      → f.pipeline_execution_id ≢ some malformed
      → (w' : World) × (retry_exhausted now subject (fields f) error count w ≡ (ok tt, w'))
        × Contains (dead_letter subject f error count) w'.ai.dead_letters
  unfolding retry_exhausted record_failure
  retry_exhausted-stores now subject payload error count w n =
      let letter = dead_letter subject payload error count in
      let reason = "max deliveries reached for " +++ subject in
      let (w1, e) = fail_execution-ok now (text_of error) payload.pipeline_execution_id w n in
      let (w2, f) = tell_session-ok subject reason (text_of error) payload.session_id w1 in
      (
        record w2 { ai = record w2.ai { dead_letters = orm.insert letter w2.ai.dead_letters } },
        bind_lem (fail_execution now (text_of error) payload.pipeline_execution_id)
              (λ _.
                tell_session subject reason (text_of error) payload.session_id
                >> record_failure letter)
              w e
            ∙ bind_lem (tell_session subject reason (text_of error) payload.session_id)
                (λ _. record_failure letter) w1 f,
        (orm.insert_iff letter w2.ai.dead_letters letter).1 (inl refl),
      )

  -- What the handler of a message that was given up comes to.
  pub data Exhausted (subject : String) (payload : Payload) (error : Exception) (count : ℕ)
      (w : World) : Result (Unit {0}) × World → Type 0 where
    letter_stored :
        (f : PayloadFields) (v : World)
        → payload ≡ fields f
        → f.pipeline_execution_id ≢ some malformed
        → Contains (dead_letter subject f error count) v.ai.dead_letters
        → Exhausted subject payload error count w (ok tt, v)
    null_thrown :
        (x : Exception) → payload ≡ null → Exhausted subject payload error count w (err x, w)
    malformed_thrown :
        (f : PayloadFields) (x : Exception)
        → payload ≡ fields f
        → f.pipeline_execution_id ≡ some malformed
        → Exhausted subject payload error count w (err x, w)

  malformed-Exhausted :
      (now : Instant) (subject : String) (f : PayloadFields) (error : Exception) (count : ℕ)
      (w : World)
      → f.pipeline_execution_id ≡ some malformed
      → Exhausted subject
          (fields f)
          error
          count
          w
          (retry_exhausted now subject (fields f) error count w)
  unfolding retry_exhausted fail_execution
  malformed-Exhausted now subject f error count w e =
      subst (Exhausted subject (fields f) error count w)
        (sym (
          bind_err (fail_execution now (text_of error) f.pipeline_execution_id)
            (λ _.
              tell_session subject ("max deliveries reached for " +++ subject) (text_of error)
                f.session_id
              >> record_failure (dead_letter subject f error count))
            w (ap (λ i. fail_execution now (text_of error) i w) e)))
        (malformed_thrown f _ refl e)

  readable-Exhausted :
      (now : Instant) (subject : String) (f : PayloadFields) (error : Exception) (count : ℕ)
      (w : World)
      → f.pipeline_execution_id ≢ some malformed
      → Exhausted subject
          (fields f)
          error
          count
          w
          (retry_exhausted now subject (fields f) error count w)
  readable-Exhausted now subject f error count w n =
      let (v, q, c) = retry_exhausted-stores now subject f error count w n in
      subst (Exhausted subject (fields f) error count w) (sym q) (letter_stored f v refl n c)

  id_cases : (i : Option GivenId) → (i ≡ some malformed) ⊎ (i ≢ some malformed)
  id_cases none = inr (λ e. cc)
  id_cases (some (uuid _)) = inr (λ e. ground (arith, e))
  id_cases (some malformed) = inl refl

  retry_exhausted-Exhausted :
      (now : Instant) (subject : String) (payload : Payload) (error : Exception) (count : ℕ)
      (w : World)
      → Exhausted subject payload error count w (retry_exhausted now subject payload error count w)
  unfolding retry_exhausted
  retry_exhausted-Exhausted now subject null error count w = null_thrown _ refl
  retry_exhausted-Exhausted now subject (fields f) error count w =
      elim (id_cases f.pipeline_execution_id) [
        | inl e ↦ malformed-Exhausted now subject f error count w e
        | inr n ↦ readable-Exhausted now subject f error count w n
      ]

  -- A subscription of the gateway: its handler, and the handler of what was given up.
  unfoldable pub subscription :
      {P : Type 0} → (P → Payload) → Instant → String → P → (P → Action (Unit {0})) → Subscriber P
  unfolding retry_exhausted
  subscription view now subject empty handler = record {
    subject = subject;
    empty = empty;
    payload_type = none;
    handler = λ payload _. handler payload;
    on_exhausted = some (λ meta.
        retry_exhausted now subject (view meta.payload) meta.error meta.meta.delivery_count);
  }

  module _ {P : Type 0} (view : P → Payload) (now : Instant) (subject : String) (empty : P)
      (handler : P → Action (Unit {0})) (m : RawMessage P) where
    abbrev pub gateway : Subscriber P
    gateway = subscription view now subject empty handler

    -- The message was processed at its last delivery; or its dead letter is stored; or its payload
    -- is null, or the id of its execution malformed, and the loop of the subscription has ended.
    pub data IsAccountedFor : Verdict × World → Type 0 where
      handled :
          (count : ℕ) (w w' : World)
          → count ≤ max_deliver
          → process gateway m count w ≡ (ok tt, w')
          → IsAccountedFor (acked, w')
      dead :
          (error : Exception) (w w' : World)
          → process gateway m max_deliver w ≡ (err error, w')
          → (f : PayloadFields) (v : World)
          → view (exhausted_meta gateway m max_deliver error).payload ≡ fields f
          → f.pipeline_execution_id ≢ some malformed
          → Contains (dead_letter subject f error max_deliver) v.ai.dead_letters
          → IsAccountedFor (terminated, v)
      null_payload :
          (error : Exception) (w w' : World)
          → process gateway m max_deliver w ≡ (err error, w')
          → view (exhausted_meta gateway m max_deliver error).payload ≡ null
          → IsAccountedFor (stopped, w')
      malformed_id :
          (error : Exception) (w w' : World)
          → process gateway m max_deliver w ≡ (err error, w')
          → (f : PayloadFields)
          → view (exhausted_meta gateway m max_deliver error).payload ≡ fields f
          → f.pipeline_execution_id ≡ some malformed
          → IsAccountedFor (stopped, w')

    given_up-account :
        (x : Exception) (w w' : World)
        → process gateway m max_deliver w ≡ (err x, w')
        → (q : Result (Unit {0}) × World)
        → Exhausted subject
            (view (exhausted_meta gateway m max_deliver x).payload)
            x
            max_deliver
            w'
            q
        → IsAccountedFor (ended gateway m q)
    given_up-account x w w' e _ (letter_stored f v p n c) = dead x w w' e f v p n c
    given_up-account x w w' e _ (null_thrown y p) = null_payload x w w' e p
    given_up-account x w w' e _ (malformed_thrown f y p i) = malformed_id x w w' e f p i

    account : (p : Verdict × World) → Served gateway m p → IsAccountedFor p
    unfolding subscription
    account p (processed count w w' l e) = handled count w w' l e
    account p (given_up x w w' e) =
        let meta = exhausted_meta gateway m max_deliver x in
        given_up-account x w w' e _
          (retry_exhausted-Exhausted now subject (view meta.payload) x max_deliver w')

    pub serve-IsAccountedFor :
        (between : ℕ → World → World) (w : World) → IsAccountedFor (serve gateway m between w)
    unfolding redeliver
    serve-IsAccountedFor between w =
        account (serve gateway m between w) (serve-Served gateway m between w)
