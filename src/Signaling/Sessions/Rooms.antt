-- ===== src/Signaling/Sessions/Rooms.antt =====
-- session_registry.rs: the index by room against the index by session, for `upsert` and `remove`.
use callifornia.Map.{
  Map, insert, remove, add, discard, lookup, contains, lookup-insert, lookup-remove, contains-add,
  contains-discard,
}
use callifornia.Prelude.{
  ◌≡◌, ◌∙◌, ap, ◌≢◌, refl, String, Bool, List, [], ◌∷◌, Option, none, some, arith, eq_iff, get_or,
  is_text, ◌==◌, ◌&&◌, ◌||◌, not, if◌then◌else◌,
}
use callifornia.Signaling.Sessions.{
  SessionStore, SessionState, default, upsert, delete, unlink_previous, unlink, link, room_of,
}

-- Whether the index by room holds the session under the room.
unfoldable pub is_linked : SessionStore → String → String → Bool
is_linked s room id = contains id (get_or (lookup room s.by_room_id) [])

pub record IsValid (s : SessionStore) : Type 0 where
  pub inverse : (room id : String) → is_linked s room id ≡ is_text (room_of s id) room
  pub occupied : (room : String) → lookup room s.by_room_id ≢ some []

pub linked-unlink :
    (id room q j : String) (m : Map (List String)) (o : Option (List String))
    → lookup room m ≡ o
    → contains j (get_or (lookup q (unlink id room m o)) [])
      ≡ (not (room == q && id == j) && contains j (get_or (lookup q m) []))
unfolding unlink contains
linked-unlink id room q j m none h = ground (arith, eq_iff room q)
linked-unlink id room q j m (some ids) h = ground (
  arith,
  eq_iff room q,
  eq_iff id j,
  contains-discard id j ids,
  lookup-remove room q m,
  lookup-insert room q (discard id ids) m,
)

pub unlink-occupied :
    (id room q : String) (m : Map (List String)) (o : Option (List String))
    → lookup q m ≢ some []
    → lookup q (unlink id room m o) ≢ some []
unfolding unlink
unlink-occupied id room q m none h = h
unlink-occupied id room q m (some ids) h =
    ground (arith, eq_iff room q, lookup-remove room q m, lookup-insert room q (discard id ids) m)

pub is_linked-unlink_previous :
    (s : SessionStore) (id q j : String) (o : Option String)
    → is_linked (unlink_previous id o s) q j ≡ (not (is_text o q && id == j) && is_linked s q j)
unfolding is_linked unlink_previous
is_linked-unlink_previous s id q j none = refl
is_linked-unlink_previous s id q j (some room) =
    linked-unlink id room q j s.by_room_id (lookup room s.by_room_id) refl

pub is_linked-link :
    (s : SessionStore) (id q j : String) (o : Option String)
    → is_linked (link id o s) q j ≡ (is_text o q && id == j || is_linked s q j)
unfolding is_linked link
is_linked-link s id q j none = refl
is_linked-link s id q j (some room) = ground (
  arith,
  eq_iff room q,
  lookup-insert room q (add id (get_or (lookup room s.by_room_id) [])) s.by_room_id,
  contains-add id j (get_or (lookup room s.by_room_id) []),
)

pub unlink_previous-occupied :
    (s : SessionStore) (id q : String) (o : Option String)
    → lookup q s.by_room_id ≢ some []
    → lookup q (unlink_previous id o s).by_room_id ≢ some []
unfolding unlink_previous
unlink_previous-occupied s id q none h = h
unlink_previous-occupied s id q (some room) h =
    unlink-occupied id room q s.by_room_id (lookup room s.by_room_id) h

add-ne-nil : (id : String) (xs : List String) → add id xs ≢ []
unfolding add contains
add-ne-nil id [] = ground arith
add-ne-nil id (x ∷ xs) = ground arith

pub link-occupied :
    (s : SessionStore) (id q : String) (o : Option String)
    → lookup q s.by_room_id ≢ some []
    → lookup q (link id o s).by_room_id ≢ some []
unfolding link
link-occupied s id q none h = h
link-occupied s id q (some room) h = ground (
  arith,
  lookup-insert room q (add id (get_or (lookup room s.by_room_id) [])) s.by_room_id,
  add-ne-nil id (get_or (lookup room s.by_room_id) []),
)

-- The first index is left alone by the edits of the second.
pub unlink_previous-sessions :
    (s : SessionStore) (id : String) (o : Option String)
    → (unlink_previous id o s).by_session_id ≡ s.by_session_id
unfolding unlink_previous
unlink_previous-sessions s id none = refl
unlink_previous-sessions s id (some room) = refl

pub link-sessions :
    (s : SessionStore) (id : String) (o : Option String)
    → (link id o s).by_session_id ≡ s.by_session_id
unfolding link
link-sessions s id none = refl
link-sessions s id (some room) = refl

pub upsert-sessions :
    (id : String) (ses : SessionState) (s : SessionStore)
    → (upsert id ses s).by_session_id ≡ insert id ses s.by_session_id
unfolding upsert
upsert-sessions id ses s =
    link-sessions _ id ses.room_id ∙ unlink_previous-sessions _ id (room_of s id)

pub delete-sessions :
    (id : String) (s : SessionStore) → (delete id s).by_session_id ≡ remove id s.by_session_id
unfolding delete
delete-sessions id s = unlink_previous-sessions _ id (room_of s id)

pub room_of-upsert :
    (id j : String) (ses : SessionState) (s : SessionStore)
    → room_of (upsert id ses s) j ≡ (if id == j then ses.room_id else room_of s j)
unfolding room_of
room_of-upsert id j ses s =
    ground (arith, upsert-sessions id ses s, lookup-insert id j ses s.by_session_id)

pub room_of-delete :
    (id j : String) (s : SessionStore)
    → room_of (delete id s) j ≡ (if id == j then none else room_of s j)
unfolding room_of
room_of-delete id j s = ground (arith, delete-sessions id s, lookup-remove id j s.by_session_id)

is_linked-upsert :
    (id q j : String) (ses : SessionState) (s : SessionStore)
    → is_linked (upsert id ses s) q j ≡ (
        is_text ses.room_id q && id == j
        || not (is_text (room_of s id) q && id == j) && is_linked s q j)
unfolding upsert is_linked
is_linked-upsert id q j ses s =
    let base = record s { by_session_id = insert id ses s.by_session_id } in
    is_linked-link (unlink_previous id (room_of s id) base) id q j ses.room_id
    ∙ ap (λ b. is_text ses.room_id q && id == j || b)
        (is_linked-unlink_previous base id q j (room_of s id))

is_linked-delete :
    (id q j : String) (s : SessionStore)
    → is_linked (delete id s) q j ≡ (not (is_text (room_of s id) q && id == j) && is_linked s q j)
unfolding delete is_linked
is_linked-delete id q j s =
    is_linked-unlink_previous (record s { by_session_id = remove id s.by_session_id }) id q j
      (room_of s id)

pub default-IsValid : IsValid default
unfolding default is_linked room_of lookup contains
default-IsValid = record { inverse = λ room id. refl; occupied = λ room. ground arith }

pub upsert-IsValid :
    (id : String) (ses : SessionState) (s : SessionStore) → IsValid s → IsValid (upsert id ses s)
upsert-IsValid id ses s v = record {
  inverse = λ q j.
      ground (
        arith,
        is_linked-upsert id q j ses s,
        room_of-upsert id j ses s,
        v.inverse q j,
        eq_iff id j,
      );
  occupied = λ q.
      unfold upsert in
      link-occupied _ id q ses.room_id (
        unlink_previous-occupied (record s { by_session_id = insert id ses s.by_session_id }) id q
          (room_of s id) (v.occupied q));
}

pub delete-IsValid : (id : String) (s : SessionStore) → IsValid s → IsValid (delete id s)
delete-IsValid id s v = record {
  inverse = λ q j.
      ground (arith, is_linked-delete id q j s, room_of-delete id j s, v.inverse q j, eq_iff id j);
  occupied = λ q.
      unfold delete in
      unlink_previous-occupied (record s { by_session_id = remove id s.by_session_id }) id q
        (room_of s id) (v.occupied q);
}
