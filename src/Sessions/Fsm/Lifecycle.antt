-- ===== src/Sessions/Fsm/Lifecycle.antt =====
-- What holds over any sequence of accepted events (src/modules/sessions/session-fsm.ts), the
-- mode changing between them as it may.
use mathlib.Core.List.{Memᴰ}
use back_end.Prelude.{◌≡◌, refl, Option, List, [], ◌∷◌}
use back_end.Database.Enums.{SessionMode, SessionStatus}
use back_end.World.{ok}
use back_end.Sessions.Fsm.Events.{
  SessionFsmEvent, ai_question_received, enter_review, validate, export_completed,
  transition_session_status,
}
use back_end.Sessions.Fsm.Diagram.{IsOpen, Step, transition_iff_Step}

-- The status after some accepted events, the latest first.
pub data Trace (s : SessionStatus) : List SessionFsmEvent → SessionStatus → Type 0 where
  here : Trace s [] s
  next :
      {es : List SessionFsmEvent} {t u : SessionStatus} (e : SessionFsmEvent)
      (mode : Option SessionMode)
      → Trace s es t
      → transition_session_status t e mode ≡ ok u
      → Trace s (e ∷ es) u

-- What must have happened to a session that has come this far.
abbrev pub Accounts : SessionStatus → List SessionFsmEvent → Type 0
Accounts SessionStatus.in_elicitation es = Memᴰ ai_question_received es
Accounts SessionStatus.in_review es = Memᴰ enter_review es
Accounts SessionStatus.validated es = Memᴰ enter_review es × Memᴰ validate es
Accounts SessionStatus.exported es =
    Memᴰ enter_review es × Memᴰ validate es × Memᴰ export_completed es
Accounts _ es = Unit

Step-Accounts :
    {mode : Option SessionMode} {s : SessionStatus} {e : SessionFsmEvent} {t : SessionStatus}
    (es : List SessionFsmEvent)
    → Step mode s e t
    → Accounts s es
    → Accounts t (e ∷ es)
Step-Accounts es (Step.ask h) a = Memᴰ.head refl
Step-Accounts es Step.review a = Memᴰ.head refl
Step-Accounts es Step.approve a = (Memᴰ.tail a, Memᴰ.head refl)
Step-Accounts es Step.deliver a = (Memᴰ.tail a.0, Memᴰ.tail a.1, Memᴰ.head refl)
Step-Accounts es _ a = tt

pub created-Accounts :
    (es : List SessionFsmEvent) (t : SessionStatus)
    → Trace SessionStatus.created es t
    → Accounts t es
created-Accounts _ _ here = tt
created-Accounts _ _ (next {es = es} {t = t} {u = u} e mode r h) =
    Step-Accounts es ((transition_iff_Step t e mode u).0 h) (created-Accounts es t r)

-- The session is archived or in error.
abbrev pub Over : SessionStatus → Type 0
Over SessionStatus.archived = Unit
Over SessionStatus.error = Unit
Over _ = ⊥

open-not-Over : {s : SessionStatus} → IsOpen s → Over s → ⊥
open-not-Over IsOpen.created_open h = h
open-not-Over _ h = h

Step-Over :
    {mode : Option SessionMode} {s : SessionStatus} {e : SessionFsmEvent} {t : SessionStatus}
    → Step mode s e t
    → Over s
    → Over t
Step-Over (Step.finalize o) h = absurd (open-not-Over o h)
Step-Over Step.fail h = tt
Step-Over Step.delete h = tt
Step-Over Step.greet h = absurd h
Step-Over _ h = absurd h

-- No sequence of events that the state machine accepts, with nothing between them that does not ask
-- the machine, leads out of ARCHIVED and ERROR.
pub Over-stays :
    (s : SessionStatus) (es : List SessionFsmEvent) (t : SessionStatus)
    → Over s
    → Trace s es t
    → Over t
Over-stays s _ _ o here = o
Over-stays s _ _ o (next {es = es} {t = t} {u = u} e mode r h) =
    Step-Over ((transition_iff_Step t e mode u).0 h) (Over-stays s es t o r)
