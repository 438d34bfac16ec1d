-- ===== src/ControlStore/Scan/Ids.antt =====
-- common/control_store/src/storage.rs: the ids that the scans read in keys are those of the keys.
use callifornia.ControlStore.{
  session_key, session_lock_key, room_binding_key, room_members_key, signaling_session_prefix,
  signaling_room_prefix, room_binding_prefix,
}
use callifornia.ControlStore.Scan.{and_then, session_id_of, room_id_of, binding_id_of}
use callifornia.ControlStore.Scan.Strip.{
  strip_prefix, strip_suffix, strip_prefix-append, strip_prefix_sound, strip_suffix-append,
  strip_suffix_sound, ends_with, ends_with-append,
}
use callifornia.Prelude.{String, Option, none, some, true, ◌≡◌, ◌↔◌, refl, if◌then◌else◌}
use Prim.Native.String.{◌++◌}
use text.Mathlib.TextLemmas.{append_assoc}

between :
    (p x key id : String)
    → (and_then (strip_prefix p key) (strip_suffix x) ≡ some id) ↔ (key ≡ p ++ (id ++ x))
between p x key id = (forth (strip_prefix p key) (strip_prefix_sound p key), back)
  where
    forth :
        (o : Option String)
        → ((t : String) → o ≡ some t → key ≡ p ++ t)
        → and_then o (strip_suffix x) ≡ some id
        → key ≡ p ++ (id ++ x)
    forth none f h = absurd cc
    forth (some t) f h = cc (f t refl, strip_suffix_sound x t id h)

    back : key ≡ p ++ (id ++ x) → and_then (strip_prefix p key) (strip_suffix x) ≡ some id
    back e = rw (e, strip_prefix-append p (id ++ x)) (strip_suffix-append id x)

-- The scan of the bindings reads an id in a key exactly if the key is the one of that room's binding.
pub binding_id_of-room_binding_key :
    (key id : String) → (binding_id_of key ≡ some id) ↔ (key ≡ room_binding_key id)
unfolding binding_id_of room_binding_key
binding_id_of-room_binding_key key id = between room_binding_prefix ":binding" key id

-- The scan of the rooms reads an id in a key exactly if the key is the one of that room's members.
pub room_id_of-room_members_key :
    (key id : String) → (room_id_of key ≡ some id) ↔ (key ≡ room_members_key id)
unfolding room_id_of room_members_key
room_id_of-room_members_key key id = between signaling_room_prefix ":members" key id

ends_with_lock :
    (id : String) → ends_with ":lock" (signaling_session_prefix ++ (id ++ ":lock")) ≡ true
ends_with_lock id =
    rw (← append_assoc signaling_session_prefix id ":lock")
      (ends_with-append ":lock" (signaling_session_prefix ++ id))

-- The scan of the sessions reads no session in the key of a session's lock, and in the key of a
-- session it reads its id, unless that ends in `:lock`.
pub session_id_of-session_key :
    (id : String)
    → (session_id_of (session_lock_key id) ≡ none)
      × (session_id_of (session_key id)
          ≡ (if ends_with ":lock" (session_key id) then none else some id))
unfolding session_id_of session_key session_lock_key
session_id_of-session_key id =
    (rw (ends_with_lock id) refl, rw (strip_prefix-append signaling_session_prefix id) refl)
