-- ===== src/AiGateway/Publication.antt =====
-- A task is published, or its publication fails; the sessions stay as they are
-- (src/modules/ai-gateway/ai-gateway.service.ts).
use back_end.Prelude.{
  ℕ, String, some, List, ◌==◌, ◌&&◌, take, ◌≡◌, ◌≢◌, ◌⊎◌, inl, inr, refl, sym, subst, ◌∙◌,
  Bool-cases, arith,
}
use back_end.Database.Rows.{Contains}
use back_end.Database.Json.{Json, Items}
use back_end.Database.Orm.{Orm}
use back_end.Database.Entities.{Uuid, Session, session_entity}
use back_end.World.{
  World, Outgoing, published, of_text, Result, Exception, ok, err, Keeps, bind-Keeps, read-Keeps,
  bind_lem, bind_err, pure, gets, nats_error, ◌>>=◌, ◌>>◌,
}
use back_end.Messaging.Publisher.{publish, build_msg_id, with_sent}
use back_end.Rules.Service.{get_cached_active_rules}
use back_end.Rules.Context.{list_active_rules_for_context, get_session_context_rules}
use back_end.AiGateway.Results.{find_session, save_pipeline}
use back_end.AiGateway.Lookups.{find_session-reads}
use back_end.AiGateway.Tasks.{
  AiTask, TaskDraw, PublishedTask, prepare_task, send_task, publish_ai_task, publish_ai_task_new,
  task_payload, pending_execution, note_message, publish_ai_context_load,
  resolve_org_id_for_session, load_context, skill_before, skill_ids, open_execution, place_session,
}

-- The task's message.
abbrev pub task_message : TaskDraw → Json → Outgoing
task_message d payload =
    published "ai.tasks.new" payload
      (build_msg_id (of_text d.correlation_id) "ai.tasks.new" (some d.execution_id))

abbrev pub IsSent : TaskDraw → World → Type 0
IsSent d w = (payload : Json) × Contains (task_message d payload) w.outbox

err_ok : {A : Type 0} {e : Exception} {a : A} → err e ≢ ok a
err_ok = λ q. cc

-- A step that ends with a result only when the task was sent, and leaves the sessions alone.
abbrev pub Sends : TaskDraw → World → Result PublishedTask × World → Type 0
Sends d w p = (p.1.sessions ≡ w.sessions) × ((a : PublishedTask) → p.0 ≡ ok a → IsSent d p.1)

module _ (orm : Orm) (stringify : Json → String) (uuid_text : Uuid → String) (d : TaskDraw)
    (t : AiTask) where
  task_sent :
      (w : World) (session_id org_id : Uuid)
      → (publish_ai_task_new orm stringify uuid_text d t session_id org_id w
          ≡ (ok tt, with_sent (task_message d (task_payload d t session_id org_id)) w))
        ⊎ (publish_ai_task_new orm stringify uuid_text d t session_id org_id w
            ≡ (err nats_error, w))
  unfolding publish_ai_task_new publish
  task_sent w session_id org_id =
      let m = task_message d (task_payload d t session_id org_id) in
      elim (Bool-cases (w.accepts m)) [ inl a ↦ inl (rw (a) refl) | inr a ↦ inr (rw (a) refl) ]

  note-Sends :
      (w : World) (payload : Json)
      → Sends d w (note_message orm stringify uuid_text d t (with_sent (task_message d payload) w))
  unfolding note_message save_pipeline
  note-Sends w payload = (refl, λ a e. (payload, inl refl))

  send-Sends :
      (w : World) (ids : Uuid × Uuid) → Sends d w (send_task orm stringify uuid_text d t ids w)
  unfolding send_task
  send-Sends w (session_id, org_id) =
      let send = publish_ai_task_new orm stringify uuid_text d t session_id org_id in
      let note = note_message orm stringify uuid_text d t in
      elim (task_sent w session_id org_id) [
        | inl e ↦
            subst (Sends d w) (sym (bind_lem send (λ _. note) w e))
              (note-Sends w (task_payload d t session_id org_id))
        | inr e ↦
            subst (Sends d w) (sym (bind_err send (λ _. note) w e)) (refl, λ a q. absurd (err_ok q))
      ]

  abbrev sessions : World → List Session
  sessions w = w.sessions

  rules-Keeps :
      (now org_id session_id : ℕ)
      → Keeps sessions (list_active_rules_for_context orm stringify now org_id session_id)
  unfolding list_active_rules_for_context get_session_context_rules get_cached_active_rules
  rules-Keeps now org_id session_id = record { keeps = λ w. ground arith }

  resolve-Keeps :
      (s : Session) → Keeps sessions (resolve_org_id_for_session orm stringify uuid_text s)
  unfolding resolve_org_id_for_session
  resolve-Keeps s = record { keeps = λ w. ground arith }

  context-Keeps :
      (rules skills : Items) (session_id org_id : Uuid)
      → Keeps sessions
          (publish_ai_context_load orm stringify uuid_text d session_id org_id rules skills)
  unfolding publish_ai_context_load publish
  context-Keeps rules skills session_id org_id = record { keeps = λ w. ground arith }

  load-Keeps :
      (session_id org_id : Uuid)
      → Keeps sessions (load_context orm stringify uuid_text d session_id org_id)
  unfolding load_context
  load-Keeps session_id org_id =
      bind-Keeps sessions (list_active_rules_for_context orm stringify d.now org_id session_id)
        (λ rules.
          gets (λ w.
            orm.find_ordered skill_before (λ s. s.org_id == org_id && s.is_active) w.ai.skills)
          >>= λ skills.
              publish_ai_context_load orm stringify uuid_text d session_id org_id rules
                (skill_ids (take 50 skills))
              >> pure (session_id, org_id))
        (rules-Keeps d.now org_id session_id)
        λ rules. record {
          keeps = λ w.
              let skills = skill_ids (
                take 50 (
                  orm.find_ordered skill_before (λ s. s.org_id == org_id && s.is_active)
                    w.ai.skills)) in
              (bind-Keeps sessions
                  (publish_ai_context_load orm stringify uuid_text d session_id org_id rules skills)
                  (λ _. pure (session_id, org_id)) (context-Keeps rules skills session_id org_id)
                  (λ _. record { keeps = λ w. refl })).keeps
                w;
        }

  prepare-Keeps : Keeps sessions (prepare_task orm stringify uuid_text d t)
  unfolding prepare_task save_pipeline
  prepare-Keeps =
      bind-Keeps sessions
        (find_session orm t.session_id "Session not found when publishing ai task")
        (place_session orm stringify uuid_text d t)
        (read-Keeps sessions
          (find_session-reads orm t.session_id "Session not found when publishing ai task"))
        λ s.
          bind-Keeps sessions (resolve_org_id_for_session orm stringify uuid_text s)
            (open_execution orm stringify uuid_text d t s) (resolve-Keeps s)
            λ org_id.
              bind-Keeps sessions (save_pipeline orm (pending_execution d t))
                (λ _. load_context orm stringify uuid_text d s.id org_id)
                (record { keeps = λ w. refl }) λ _. load-Keeps s.id org_id

  pub publish-Sends : (w : World) → Sends d w (publish_ai_task orm stringify uuid_text d t w)
  unfolding publish_ai_task
  publish-Sends w = after (prepare_task orm stringify uuid_text d t w) (prepare-Keeps.keeps w)
    where
      after :
          (p : Result (Uuid × Uuid) × World)
          → p.1.sessions ≡ w.sessions
          → Sends d w (elim p.0 as (λ _. Result PublishedTask × World) [
            | ok ids ↦ send_task orm stringify uuid_text d t ids p.1
            | err e ↦ (err e, p.1)
          ])
      after (err e, w') k = (k, λ a q. absurd (err_ok q))
      after (ok ids, w') k = let (a, b) = send-Sends w' ids in (a ∙ k, b)
