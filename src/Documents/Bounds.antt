-- ===== src/Documents/Bounds.antt =====
-- What the requests to src/modules/documents keep: the sizes of a session's files, and the versions
-- of a file.
use back_end.Prelude.{
  ℕ, ◌+◌, ◌≤◌, String, Bool, true, false, not, ◌&&◌, ◌≡◌, ◌∙◌, inl, inr, refl, sym, ap, subst, some,
  List, [], ◌∷◌, ◌==◌, ◌===◌, ==_iff, string_Eq, option_Eq, nat_Eq, arith, and_iff, Bool-cases,
  if◌then◌else◌,
}
use back_end.Database.Rows.{Contains, sum_if, max_if}
use back_end.Database.Orm.{Orm}
use back_end.Database.Entities.{Uuid, Document, document_entity}
use back_end.World.{World}
use back_end.Sessions.Access.{RequestUser}
use back_end.Documents.Validation.{FileTools, max_session_document_total_size_bytes}
use back_end.Documents.Service.{DocumentStorage, in_session, has_name, get_session_document_bytes}
use back_end.Documents.Changes.{serve-Change}
use back_end.Documents.Requests.{Request, serve, is_reprocess, Added, Rewritten}

abbrev size : Document → ℕ
size d = d.file_size_bytes

sum_other_le :
    (p : Document → Bool) (k : ℕ) (t : List Document)
    → sum_if size (λ s. p s && not (s.id == k)) t ≤ sum_if size p t
sum_other_le p k [] = omega arith
sum_other_le p k (x ∷ t) = ground (arith, sum_other_le p k t)

-- A row's own size is no part of the sum over the others.
sum_split_le :
    (p : Document → Bool) (old : Document) (t : List Document)
    → Contains old t
    → sum_if size (λ s. p s && not (s.id == old.id)) t + (if p old then old.file_size_bytes else 0)
      ≤ sum_if size p t
sum_split_le p old [] c = elim c [ ]
sum_split_le p old (x ∷ t) (inl e) = ground (arith, sum_other_le p old.id t)
sum_split_le p old (x ∷ t) (inr c) = ground (arith, sum_split_le p old t c)

max_ge :
    (p : Document → Bool) (d : Document) (t : List Document)
    → Contains d t
    → p d ≡ true
    → d.doc_version ≤ max_if (λ (x : Document). x.doc_version) p t
max_ge p d [] c h = elim c [ ]
max_ge p d (x ∷ t) (inl e) h = ground arith
max_ge p d (x ∷ t) (inr c) h = ground (arith, max_ge p d t c h)

at_most : (b : Bool) (n : ℕ) → (if b then n else 0) ≤ n
at_most b n = ground arith

===_flip_false : (a b : ℕ) → (b == a) ≡ false → (some a === some b) ≡ false
===_flip_false a b h = ground (arith, h)

-- No session's files are together larger than the limit.
abbrev pub IsWithinLimit : Orm → World → Type 0
IsWithinLimit orm w =
    (session_id : Uuid)
    → get_session_document_bytes orm session_id w ≤ max_session_document_total_size_bytes

-- No two rows of one session and one name have one version.
abbrev pub HasDistinctVersions : List Document → Type 0
HasDistinctVersions t =
    (session_id : Uuid) (a b : Document)
    → Contains a t
    → Contains b t
    → a.session_id ≡ some session_id
    → b.session_id ≡ some session_id
    → a.filename ≡ b.filename
    → a.doc_version ≡ b.doc_version
    → a.id ≡ b.id

module _ (orm : Orm) (storage : DocumentStorage) (tools : FileTools) (uuid_text : Uuid → String)
    (caller : RequestUser) (w : World) where
  -- What a session's files come to after a row was saved.
  saved_total :
      (session_id : Uuid) (row : Document) (w' : World)
      → w'.documents ≡ orm.save row w.documents
      → get_session_document_bytes orm session_id w'
        ≡ sum_if size (λ s. in_session session_id s && not (s.id == row.id)) w.documents
          + (if in_session session_id row then row.file_size_bytes else 0)
  saved_total session_id row w' e =
      ap (orm.sum size (in_session session_id)) e
      ∙ orm.sum_lem size (in_session session_id) (orm.save row w.documents)
      ∙ orm.save_sum size (in_session session_id) row w.documents

  module _ (r : Request) where
    abbrev after : World
    after = (serve orm storage tools uuid_text r caller w).1

    -- Every request but a new run of the preparation, refused or not, keeps the files of every
    -- session within 200 MB.
    pub serve-IsWithinLimit : is_reprocess r ≡ false → IsWithinLimit orm w → IsWithinLimit orm after
    serve-IsWithinLimit n h session_id =
        let old_sum = orm.sum_lem size (in_session session_id) w.documents in
        elim (serve-Change orm storage tools uuid_text caller w r) [
          | inl e ↦
              subst
                (λ t.
                  orm.sum size (in_session session_id) t ≤ max_session_document_total_size_bytes)
                (sym e) (h session_id)
          | inr (inl c) ↦
              let total = saved_total session_id c.row after c.documents in
              let split = sum_split_le (in_session session_id) c.old w.documents c.old_in in
              let same : in_session session_id c.row ≡ in_session session_id c.old =
                ap (λ s. s === some session_id) c.same_session in
              let id =
                ap (λ k. sum_if size (λ s. in_session session_id s && not (s.id == k)) w.documents)
                  c.same_id in
              let own : (if in_session session_id c.row then c.row.file_size_bytes else 0)
                  ≡ (if in_session session_id c.old then c.old.file_size_bytes else 0) =
                rw (c.same_session, c.same_size) refl in
              omega (arith, total, id, own, split, old_sum, h session_id)
          | inr (inr (c, fits)) ↦
              let total = saved_total session_id c.row after c.documents in
              let others = sum_other_le (in_session session_id) c.row.id w.documents in
              elim (Bool-cases (session_id == c.session_id)) [
                | inl q ↦
                    let i = (==_iff session_id c.session_id).0 q in
                    let same = ap (λ k. get_session_document_bytes orm k w) i in
                    let own : (if in_session session_id c.row then c.row.file_size_bytes else 0)
                        ≤ c.row.file_size_bytes =
                      at_most (in_session session_id c.row) c.row.file_size_bytes in
                    omega (arith, total, others, own, same, fits n, old_sum)
                | inr q ↦
                    let own : in_session session_id c.row ≡ false =
                      ap (λ s. s === some session_id) c.in_its_session
                      ∙ ===_flip_false c.session_id session_id q in
                    let none_added : (if in_session session_id c.row
                          then c.row.file_size_bytes
                          else 0)
                        ≡ 0 =
                      rw (own) refl in
                    omega (arith, total, others, none_added, old_sum, h session_id)
              ]
        ]

    -- A row of the new table, and the row of the old one that it was.
    origin :
        (c : Rewritten orm w after) (x : Document)
        → Contains x after.documents
        → (y : Document) × Contains y w.documents
          × (x.id ≡ y.id)
          × (x.session_id ≡ y.session_id)
          × (x.filename ≡ y.filename)
          × (x.doc_version ≡ y.doc_version)
    origin c x m = elim (orm.save_other c.row w.documents x (subst (Contains x) c.documents m)) [
      | inl e ↦ (
        c.old,
        c.old_in,
        ap (λ d. d.id) e ∙ c.same_id,
        ap (λ d. d.session_id) e ∙ c.same_session,
        ap (λ d. d.filename) e ∙ c.same_name,
        ap (λ d. d.doc_version) e ∙ c.same_version,
      )
      | inr o ↦ (x, o, refl, refl, refl, refl)
    ]

    -- The added row has no version that a row of its session and name has.
    newer :
        (c : Added orm w after) (a b : Document)
        → a ≡ c.row
        → Contains b w.documents
        → b.session_id ≡ a.session_id
        → b.filename ≡ a.filename
        → b.doc_version ≡ a.doc_version
        → ⊥
    newer c a b e o s f v =
        let in_it : in_session c.session_id b ≡ true =
          (option_Eq.beq_iff b.session_id (some c.session_id)).1
            (s ∙ ap (λ d. d.session_id) e ∙ c.in_its_session) in
        let named : (b.filename === c.row.filename) ≡ true =
          (string_Eq.beq_iff b.filename c.row.filename).1 (f ∙ ap (λ d. d.filename) e) in
        let least =
          max_ge (has_name c.session_id c.row.filename) b w.documents o
            ((and_iff _ _).1 (in_it, named)) in
        let top =
          orm.max_lem (λ (d : Document). d.doc_version) (has_name c.session_id c.row.filename)
            w.documents in
        omega (arith, least, top, c.next, v ∙ ap (λ d. d.doc_version) e)

    -- Every request keeps the versions of a file in a session apart.
    pub serve-HasDistinctVersions :
        HasDistinctVersions w.documents → HasDistinctVersions after.documents
    serve-HasDistinctVersions h = elim (serve-Change orm storage tools uuid_text caller w r) [
      | inl e ↦ subst HasDistinctVersions (sym e) h
      | inr (inl c) ↦ λ sid a b ca cb sa sb f v.
          let (x, cx, ix, sx, fx, vx) = origin c a ca in
          let (y, cy, iy, sy, fy, vy) = origin c b cb in
          ix
          ∙ h sid x y cx cy (sym sx ∙ sa) (sym sy ∙ sb) (sym fx ∙ f ∙ fy) (sym vx ∙ v ∙ vy)
          ∙ sym iy
      | inr (inr (c, _)) ↦ λ sid a b ca cb sa sb f v.
          elim (orm.save_other c.row w.documents a (subst (Contains a) c.documents ca)) [
            | inl ea ↦
                elim (orm.save_other c.row w.documents b (subst (Contains b) c.documents cb)) [
                  | inl eb ↦ ap (λ d. d.id) (ea ∙ sym eb)
                  | inr ob ↦ absurd (newer c a b ea ob (sb ∙ sym sa) (sym f) (sym v))
                ]
            | inr oa ↦
                elim (orm.save_other c.row w.documents b (subst (Contains b) c.documents cb)) [
                  | inl eb ↦ absurd (newer c b a eb oa (sa ∙ sym sb) f v)
                  | inr ob ↦ h sid a b oa ob sa sb f v
                ]
          ]
    ]
