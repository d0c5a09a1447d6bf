-- ===== src/Comments/Tests.antt =====
-- Runs of the comment component: user 12 of organisation 1 asks, and user 10 answers.
use back_end.Prelude.{String, true, ◌≡◌, ◌≢◌, refl, inl, inr, none, some, [], ◌∷◌, arith, ℕ}
use back_end.Database.Rows.{HasUniqueKeys, Every}
use back_end.Database.InMemory.{in_memory}
use back_end.Database.Enums.{UserRole, CommentType}
use back_end.Database.Entities.{Comment, comment_entity}
use back_end.World.{World, Exception, err}
use back_end.World.Fixtures.{office}
use back_end.Comments.Service.{Caller, reply, resolve, remove, serve, new_comment}
use back_end.Comments.Outcomes.{IsSettled}
use back_end.Comments.Threads.{IsThreaded, serve-IsSettled, serve-IsThreaded}
use back_end.Comments.Refusals.{CommentIn, foreign_comment_refused}

abbrev ann : Caller
ann = record { id = 10; role = UserRole.admin; org_id = 1 }

abbrev eve : Caller
eve = record { id = 20; role = UserRole.admin; org_id = 2 }

abbrev opening : Comment
opening = new_comment 200 30 50 (some "pay") 12 CommentType.question "Who pays?" none

abbrev answer : Comment
answer = new_comment 201 31 50 (some "pay") 10 CommentType.question "The client." (some 200)

abbrev forum : World
forum = record (office true) { comments = opening ∷ answer ∷ [] }

abbrev same_text : String → String
same_text s = s

forum-IsSettled : Every (IsSettled same_text) forum.comments
forum-IsSettled c (inl e) h = ground (arith, e, h)
forum-IsSettled c (inr (inl e)) h = ground (arith, e, h)
forum-IsSettled c (inr (inr x)) h = elim x [ ]

distinct : HasUniqueKeys forum.comments
distinct k = ground arith

forum-IsThreaded : IsThreaded forum
forum-IsThreaded c (inl e) p h = ground (arith, e, h)
forum-IsThreaded c (inr (inl e)) p h = (opening, inl refl, ground (arith, e, h), ground (arith, e))
forum-IsThreaded c (inr (inr x)) p h = elim x [ ]

new_202 : (id : ℕ) → some 202 ≡ some id → Every (λ (c : Comment). c.id ≢ id) forum.comments
new_202 id e c (inl q) i = ground (arith, e, q, i)
new_202 id e c (inr (inl q)) i = ground (arith, e, q, i)
new_202 id e c (inr (inr x)) i = elim x [ ]

not_of_eve : CommentIn forum 200 2 → ⊥
not_of_eve (c, _, _, (x, inl d, _, o)) = ground (arith, d, o)
not_of_eve (c, _, _, (x, inr d, _, _)) = d

serve-IsSettled_example :
    Every
      (IsSettled same_text)
      (serve in_memory same_text (resolve 200 40 "The client pays.") ann forum).1.comments
serve-IsSettled_example =
    serve-IsSettled in_memory same_text ann forum (resolve 200 40 "The client pays.")
      forum-IsSettled

serve-IsThreaded_example :
    IsThreaded (serve in_memory same_text (reply 202 40 201 "Why?") ann forum).1
serve-IsThreaded_example =
    serve-IsThreaded in_memory same_text ann forum (reply 202 40 201 "Why?") distinct new_202
      forum-IsThreaded

foreign_comment_refused_example :
    (e : Exception) × (serve in_memory same_text (remove 200 40) eve forum ≡ (err e, forum))
foreign_comment_refused_example =
    foreign_comment_refused in_memory same_text eve forum (remove 200 40) 200 refl not_of_eve
