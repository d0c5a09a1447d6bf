-- ===== src/Messages/Paging.antt =====
-- A client that asks for page after page of a session's messages, with the cursor of the last one.
use back_end.Prelude.{
  ℕ, suc, zero, ◌*◌, ◌≤◌, String, true, false, ◌≡◌, ◌≢◌, ◌↔◌, ◌⊎◌, ◌∙◌, inl, inr, refl, sym, ap,
  subst, List, [], ◌∷◌, ◌++◌, map, Option, none, some, ◌===◌, string_Eq, and_iff, length, take,
  option_map, arith,
}
use back_end.Database.Rows.{Contains, Every, HasUniqueKeys, IsOrdered}
use back_end.Database.Ordered.{ordered_unique, rest_is_after, rest-IsOrdered}
use back_end.Database.Orm.{Orm}
use back_end.Database.Entities.{Uuid, Instant, Session, Message, message_entity}
use back_end.World.{World, Result, ok, err, bind_lem, not_found, or_throw, lift, gets, pure, ◌>>=◌}
use back_end.Sessions.Access.{RequestUser}
use back_end.Messages.Runtime.{Runtime}
use back_end.Messages.Pagination.{
  MessageCursor, cursor_of, encode_message_cursor, decode_message_cursor, get_message_page_window,
  decode-encode, token_ne_empty,
}
use back_end.Messages.Service.{
  ListSessionMessagesQueryDto, MessageResponseDto, PaginatedMessagesDto, to_message_response,
  stands_before, is_after, given_text, visible_session, as_read, position_of, at_id, is_selected,
  cursor_position, page_of, find_owned_session_or_throw, list_session_messages,
}
use back_end.Messages.Pages.{fits_or_splits, last_page, full_page, length-append}

irreflexive : (a : Message) → stands_before a a ≡ false
irreflexive a = ground arith

transitive :
    (a b c : Message)
    → stands_before a b ≡ true
    → stands_before b c ≡ true
    → stands_before a c ≡ true
transitive a b c h k = ground arith

is_total : (a b : Message) → a.id ≢ b.id → (stands_before a b ≡ true) ⊎ (stands_before b a ≡ true)
is_total a b n = ground arith

map-append :
    (a b : List Message)
    → map to_message_response (a ++ b) ≡ map to_message_response a ++ map to_message_response b
map-append [] b = refl
map-append (x ∷ a) b = ap (λ t. to_message_response x ∷ t) (map-append a b)

take-Contains : (n : ℕ) (xs : List Message) (x : Message) → Contains x (take n xs) → Contains x xs
take-Contains zero xs x c = elim c [ ]
take-Contains (suc n) [] x c = c
take-Contains (suc n) (y ∷ xs) x (inl e) = inl e
take-Contains (suc n) (y ∷ xs) x (inr c) = inr (take-Contains n xs x c)

append_one :
    (xs : List Message) (q z : Message) (b : List Message)
    → (xs ++ q ∷ []) ++ z ∷ b ≡ xs ++ q ∷ z ∷ b
append_one [] q z b = refl
append_one (x ∷ xs) q z b = ap (λ t. x ∷ t) (append_one xs q z b)

append_regroup :
    (xs a : List Message) (q z : Message) (b : List Message)
    → xs ++ (a ++ q ∷ z ∷ b) ≡ (xs ++ a) ++ q ∷ z ∷ b
append_regroup [] a q z b = refl
append_regroup (x ∷ xs) a q z b = ap (λ t. x ∷ t) (append_regroup xs a q z b)

-- A page, and what its cursor leads to.
abbrev pub page_then :
    (String → Option (List MessageResponseDto))
    → Result PaginatedMessagesDto
    → Option (List MessageResponseDto)
page_then more (err e) = none
page_then more (ok page) = elim page.next_cursor [
  | none ↦ some page.items
  | some next ↦ option_map (λ rest. page.items ++ rest) (more next)
]

module _ (orm : Orm) (rt : Runtime) (session_id : Uuid) (query : ListSessionMessagesQueryDto)
    (caller : RequestUser) (w : World) where
  -- The pages that come one after the other, at most as many as the number says; none where one of
  -- them fails or more are left.
  abbrev pub read_pages : ℕ → Option String → Option (List MessageResponseDto)
  read_pages zero token = none
  read_pages (suc n) token =
      page_then (λ next. read_pages n (some next))
        (list_session_messages orm rt session_id (record query { cursor = token }) caller w).0

  -- The session's messages that the query selects, in the order of their times and ids.
  abbrev pub selected : List Message
  selected =
      orm.find_ordered stands_before (is_selected orm rt w session_id query caller.org_id none)
        w.messages

  module _ (session : Session)
      (found : visible_session orm w session_id caller.org_id ≡ some session)
      (unique : HasUniqueKeys w.messages)
      (exact : Every (λ (m : Message). rt.read_time m.created_at ≡ m.created_at) w.messages) where
    read_back :
        (ys : List Message) → Every (λ m. Contains m w.messages) ys → map (as_read rt) ys ≡ ys
    read_back [] h = refl
    read_back (m ∷ ys) h =
        let same : as_read rt m ≡ m =
          ap (λ t. record m { created_at = t }) (exact m (h m (inl refl))) in
        cc (same, read_back ys (λ x c. h x (inr c)))

    abbrev rows_at : Option (Instant × Uuid) → List Message
    rows_at position =
        orm.find_ordered stands_before
          (is_selected orm rt w session_id query caller.org_id position) w.messages

    rows_at_iff :
        (position : Option (Instant × Uuid)) (m : Message)
        → Contains m (rows_at position) ↔ (Contains m selected × (is_after position m ≡ true))
    rows_at_iff position m =
        let all =
          orm.find_ordered_iff stands_before
            (is_selected orm rt w session_id query caller.org_id none) w.messages m in
        let some_of =
          orm.find_ordered_iff stands_before
            (is_selected orm rt w session_id query caller.org_id position) w.messages m in
        (
          λ c.
              let (d, h) = some_of.0 c in
              (all.1 (d, (and_iff _ _).1 (((and_iff _ _).0 h).0, refl)), ((and_iff _ _).0 h).1),
          λ (c, k).
              let (d, h) = all.0 c in some_of.1 (d, (and_iff _ _).1 (((and_iff _ _).0 h).0, k)),
        )

    rows_at-IsOrdered :
        (position : Option (Instant × Uuid)) → IsOrdered stands_before (rows_at position)
    rows_at-IsOrdered position =
        orm.rows_in_order stands_before
          (is_selected orm rt w session_id query caller.org_id position) w.messages
          (transitive, is_total) unique

    -- After the cursor of a message stand the ones that follow it in the whole list.
    rows_after :
        (xs : List Message) (r : Message) (ys : List Message)
        → selected ≡ xs ++ r ∷ ys
        → rows_at (some (r.created_at, r.id)) ≡ ys
    rows_after xs r ys e =
        let o : IsOrdered stands_before (xs ++ r ∷ ys) =
          subst (IsOrdered stands_before) e (rows_at-IsOrdered none) in
        ordered_unique stands_before irreflexive transitive (rows_at (some (r.created_at, r.id))) ys
          (rows_at-IsOrdered (some (r.created_at, r.id)))
          (rest-IsOrdered stands_before irreflexive transitive xs r ys o)
          (λ m.
            let after = rest_is_after stands_before irreflexive transitive xs r ys m o in
            (
              λ c.
                  let (d, h) = (rows_at_iff (some (r.created_at, r.id)) m).0 c in
                  after.1 (subst (Contains m) e d, ground (arith, h)),
              λ c.
                  let (d, h) = after.0 c in
                  (rows_at_iff (some (r.created_at, r.id)) m).1
                    (subst (Contains m) (sym e) d, ground (arith, h)),
            ))

    -- What a token stands for.
    abbrev Marks : Option String → List Message → Type 0
    Marks token ys =
        (position : Option (Instant × Uuid)) × (cursor_position rt (given_text token) ≡ ok position)
        × (rows_at position ≡ ys)

    token_position :
        (token : String) (c : MessageCursor) (id : Uuid)
        → token ≢ ""
        → decode_message_cursor rt token ≡ ok c
        → rt.read_uuid c.id ≡ some id
        → cursor_position rt (given_text (some token)) ≡ ok (some (c.created_at, id))
    unfolding cursor_position
    token_position token c id n d u =
        let other : (token === "") ≡ false = ground (arith, n, string_Eq.beq_iff token "") in
        let opened : cursor_position rt (some token) ≡ ok (some (c.created_at, id)) =
          ap (position_of rt) d ∙ ap (at_id rt c.created_at) u in
        rw (other) opened

    next-Marks :
        (xs : List Message) (r : Message) (ys : List Message)
        → selected ≡ xs ++ r ∷ ys
        → Marks (some (encode_message_cursor rt (cursor_of r))) ys
    next-Marks xs r ys e = (
      some (r.created_at, r.id),
      token_position (encode_message_cursor rt (cursor_of r)) (cursor_of r) r.id
          (token_ne_empty rt r) (decode-encode rt r) (rt.read_uuid_lem r.id),
      rows_after xs r ys e,
    )

    owned : find_owned_session_or_throw orm session_id caller.org_id w ≡ (ok session, w)
    unfolding find_owned_session_or_throw
    owned = ap (λ o. or_throw o (not_found "Session not found.") w) found

    page_lem :
        (token : Option String) (ys : List Message)
        → Marks token ys
        → (list_session_messages orm rt session_id (record query { cursor = token }) caller w).0
          ≡ ok (page_of (get_message_page_window rt (take 51 ys) 50))
    unfolding list_session_messages
    page_lem token ys (position, c, e) =
        let rows : map (as_read rt) (take 51 (rows_at position)) ≡ take 51 ys =
          read_back (take 51 (rows_at position)) (λ m d.
            ((orm.find_ordered_iff stands_before
                (is_selected orm rt w session_id query caller.org_id position) w.messages m).0
              (take-Contains 51 (rows_at position) m d)).0)
          ∙ ap (take 51) e in
        let k = λ (p : Option (Instant × Uuid)).
          gets (λ w. take 51 (
            orm.find_ordered stands_before (is_selected orm rt w session_id query caller.org_id p)
              w.messages))
          >>= λ (rows : List Message).
              pure (page_of (get_message_page_window rt (map (as_read rt) rows) 50)) in
        ap (λ r. r.0)
          (bind_lem (find_owned_session_or_throw orm session_id caller.org_id)
              (λ _. lift (cursor_position rt (given_text token)) >>= k) w owned
            ∙ bind_lem (lift (cursor_position rt (given_text token))) k w (ap (λ r. (r, w)) c))
        ∙ ap (λ t. ok (page_of (get_message_page_window rt t 50))) rows

    split_page :
        (a : List Message) (q z : Message) (b : List Message)
        → length a ≡ 49
        → get_message_page_window rt (take 51 (a ++ q ∷ z ∷ b)) 50 ≡ record {
          items = a ++ q ∷ [];
          next_cursor = some (encode_message_cursor rt (cursor_of q));
        }
    split_page a q z b l =
        subst
          (λ k. get_message_page_window rt (take (suc (suc k)) (a ++ q ∷ z ∷ b)) (suc k) ≡ record {
            items = a ++ q ∷ [];
            next_cursor = some (encode_message_cursor rt (cursor_of q));
          })
          l (full_page rt a q z b)

    rest-read_pages :
        (n : ℕ) (xs ys : List Message) (token : Option String)
        → selected ≡ xs ++ ys
        → Marks token ys
        → length ys ≤ 50 * n
        → 1 ≤ n
        → read_pages n token ≡ some (map to_message_response ys)
    rest-read_pages zero xs ys token e m h p = absurd (omega (arith, p))
    rest-read_pages (suc n) xs ys token e m h p =
        let more = λ (next : String). read_pages n (some next) in
        elim (fits_or_splits 49 ys) [
          | inl short ↦
              ap (page_then more)
                (page_lem token ys m ∙ ap (λ t. ok (page_of t)) (last_page rt 49 ys short))
          | inr (a, q, z, b, s, l) ↦
              let whole : selected ≡ (xs ++ a) ++ q ∷ z ∷ b =
                e ∙ ap (λ t. xs ++ t) s ∙ append_regroup xs a q z b in
              let rest =
                rest-read_pages n ((xs ++ a) ++ q ∷ []) (z ∷ b)
                  (some (encode_message_cursor rt (cursor_of q)))
                  (whole ∙ sym (append_one (xs ++ a) q z b)) (next-Marks (xs ++ a) q (z ∷ b) whole)
                  (omega (arith, h, ap length s, length-append a (q ∷ z ∷ b), l))
                  (omega (arith, h, ap length s, length-append a (q ∷ z ∷ b), l)) in
              ap (page_then more) (
                page_lem token ys m
                ∙ ap (λ t. ok (page_of (get_message_page_window rt (take 51 t) 50))) s
                ∙ ap (λ t. ok (page_of t)) (split_page a q z b l))
              ∙ ap (option_map (λ t. map to_message_response (a ++ q ∷ []) ++ t)) rest
              ∙ ap some (
                  sym (map-append (a ++ q ∷ []) (z ∷ b))
                  ∙ ap (map to_message_response) (sym (s ∙ sym (append_one a q z b))))
        ]

    -- A client that starts without a cursor and follows the cursors gets every selected message of
    -- the session once and in order, and then no cursor, in n requests where n is not 0 and fifty
    -- times n are not fewer than the messages; where the session is visible to the caller, no two
    -- messages have one id and the driver keeps their times.
    pub read_pages_lem :
        (n : ℕ)
        → length selected ≤ 50 * n
        → 1 ≤ n
        → read_pages n none ≡ some (map to_message_response selected)
    unfolding cursor_position
    read_pages_lem n h p = rest-read_pages n [] selected none refl (none, refl, refl) h p
