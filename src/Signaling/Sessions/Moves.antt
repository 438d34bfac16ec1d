-- ===== src/Signaling/Sessions/Moves.antt =====
-- session_registry.rs: the two indices after `set_room` and `clear_room`.
use callifornia.Map.{Map, insert, lookup, contains, lookup-insert, lookup-remove}
use callifornia.Prelude.{
  ◌≡◌, ◌∙◌, ap, ◌≢◌, refl, String, Bool, true, false, List, [], ◌∷◌, Option, none, some, arith,
  eq_iff, is_text, ◌==◌, ◌&&◌, ◌||◌, not, if◌then◌else◌, Option-cases, inl, inr,
}
use callifornia.Signaling.Sessions.{
  SessionStore, SessionState, set_room, clear_room, unlink_previous, room_of, assign_room, move_to,
  clear_ids, clear_found,
}
use callifornia.Signaling.Sessions.Rooms.{
  IsValid, is_linked, is_linked-link, is_linked-unlink_previous, link-occupied,
  unlink_previous-occupied, link-sessions, unlink_previous-sessions,
}

-- Whether a session stands under the id.
unfoldable pub is_known : SessionStore → String → Bool
is_known s id = elim (lookup id s.by_session_id) [ none ↦ false | some _ ↦ true ]

moved-sessions :
    (id : String) (room : Option String) (ses : SessionState) (s : SessionStore)
    → (move_to id room (some ses) s).by_session_id
      ≡ insert id (record ses { room_id = room }) s.by_session_id
unfolding move_to assign_room
moved-sessions id room ses s = ap (insert id (record ses { room_id = room })) (
    link-sessions (unlink_previous id ses.room_id s) id room
    ∙ unlink_previous-sessions s id ses.room_id)

room_of-move_to :
    (id j : String) (room : Option String) (s : SessionStore) (o : Option SessionState)
    → lookup id s.by_session_id ≡ o
    → room_of (move_to id room o s) j ≡ (if is_known s id && id == j then room else room_of s j)
unfolding room_of is_known
room_of-move_to id j room s none h = unfold move_to in ground arith
room_of-move_to id j room s (some ses) h = ground (
  arith,
  moved-sessions id room ses s,
  lookup-insert id j (record ses { room_id = room }) s.by_session_id,
)

-- After `set_room` a known session has the room given, and no other session has changed.
pub room_of-set_room :
    (id j : String) (room : Option String) (s : SessionStore)
    → room_of (set_room id room s) j ≡ (if is_known s id && id == j then room else room_of s j)
unfolding set_room
room_of-set_room id j room s = room_of-move_to id j room s (lookup id s.by_session_id) refl

is_linked-move_to :
    (id q j : String) (room : Option String) (s : SessionStore) (o : Option SessionState)
    → lookup id s.by_session_id ≡ o
    → is_linked (move_to id room o s) q j ≡ (
        if is_known s id
        then is_text room q && id == j
          || not (is_text (room_of s id) q && id == j) && is_linked s q j
        else is_linked s q j)
unfolding room_of is_known
is_linked-move_to id q j room s none h = unfold move_to in ground arith
is_linked-move_to id q j room s (some ses) h = ground (arith, via)
  where
    via :
        is_linked (move_to id room (some ses) s) q j
        ≡ (is_text room q && id == j || not (is_text ses.room_id q && id == j) && is_linked s q j)
    via =
        unfold move_to assign_room is_linked in
        is_linked-link (unlink_previous id ses.room_id s) id q j room
        ∙ ap (λ b. is_text room q && id == j || b) (is_linked-unlink_previous s id q j ses.room_id)

move_to-occupied :
    (id q : String) (room : Option String) (s : SessionStore) (o : Option SessionState)
    → lookup q s.by_room_id ≢ some []
    → lookup q (move_to id room o s).by_room_id ≢ some []
unfolding move_to assign_room
move_to-occupied id q room s none h = h
move_to-occupied id q room s (some ses) h =
    link-occupied (unlink_previous id ses.room_id s) id q room
      (unlink_previous-occupied s id q ses.room_id h)

-- If the two indices are inverse to one another, without an empty room, `set_room` keeps them so.
pub set_room-IsValid :
    (id : String) (room : Option String) (s : SessionStore)
    → IsValid s
    → IsValid (set_room id room s)
unfolding set_room
set_room-IsValid id room s v = record {
  inverse = λ q j. ground (
    arith,
    is_linked-move_to id q j room s (lookup id s.by_session_id) refl,
    room_of-move_to id j room s (lookup id s.by_session_id) refl,
    v.inverse q j,
    eq_iff id j,
  );
  occupied = λ q. move_to-occupied id q room s (lookup id s.by_session_id) (v.occupied q);
}

abbrev room_in : Map SessionState → String → Option String
room_in m j = elim (lookup j m) [ none ↦ none | some ses ↦ ses.room_id ]

room_in-clear_ids :
    (ids : List String) (m : Map SessionState) (j : String)
    → room_in (clear_ids ids m).0 j ≡ (if contains j ids then none else room_in m j)
unfolding clear_ids contains
room_in-clear_ids [] m j = refl
room_in-clear_ids (id ∷ ids) m j = elim (Option-cases (lookup id m)) [
  | inl e ↦ ground (arith, e, room_in-clear_ids ids m j, eq_iff id j)
  | inr (ses, e) ↦ ground (
    arith,
    e,
    room_in-clear_ids ids (insert id (record ses { room_id = none }) m) j,
    lookup-insert id j (record ses { room_id = none }) m,
    eq_iff id j,
  )
]

-- After `clear_room` the sessions that the room held have no room, and no other has changed.
pub room_of-clear_room :
    (room j : String) (s : SessionStore)
    → room_of (clear_room room s).0 j ≡ (if is_linked s room j then none else room_of s j)
unfolding clear_room clear_found is_linked room_of contains
room_of-clear_room room j s = elim (Option-cases (lookup room s.by_room_id)) [
  | inl e ↦ ground (arith, e)
  | inr (ids, e) ↦ ground (arith, e, room_in-clear_ids ids s.by_session_id j)
]

pub is_linked-clear_room :
    (room q j : String) (s : SessionStore)
    → is_linked (clear_room room s).0 q j ≡ (not (room == q) && is_linked s q j)
unfolding clear_room clear_found is_linked contains
is_linked-clear_room room q j s = elim (Option-cases (lookup room s.by_room_id)) [
  | inl e ↦ ground (arith, e, eq_iff room q)
  | inr (ids, e) ↦ ground (arith, e, lookup-remove room q s.by_room_id)
]

clear_room-occupied :
    (room q : String) (s : SessionStore)
    → lookup q s.by_room_id ≢ some []
    → lookup q (clear_room room s).0.by_room_id ≢ some []
unfolding clear_room clear_found
clear_room-occupied room q s h = elim (Option-cases (lookup room s.by_room_id)) [
  | inl e ↦ ground (arith, e)
  | inr (ids, e) ↦ ground (arith, e, lookup-remove room q s.by_room_id)
]

-- If the two indices are inverse to one another, without an empty room, `clear_room` keeps them so.
pub clear_room-IsValid :
    (room : String) (s : SessionStore) → IsValid s → IsValid (clear_room room s).0
clear_room-IsValid room s v = record {
  inverse = λ q j. ground (
    arith,
    is_linked-clear_room room q j s,
    room_of-clear_room room j s,
    v.inverse q j,
    v.inverse room j,
    eq_iff room q,
    single (room_of s j) room q,
  );
  occupied = λ q. clear_room-occupied room q s (v.occupied q);
}
  where
    single :
        (o : Option String) (a b : String)
        → is_text o a ≡ true
        → is_text o b ≡ true
        → (a == b) ≡ true
    single none a b h k = cc
    single (some t) a b h k = ground (arith, eq_iff t a, eq_iff t b, eq_iff a b)
