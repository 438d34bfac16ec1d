-- ===== src/ControlStore/Distinct.antt =====
-- common/control_store/src/keys.rs: keys of different kinds, or for different rooms, are different.
use callifornia.ControlStore.{room_binding_key, room_members_key, session_key, sfu_instances_key}
use callifornia.ControlStore.Scan.Strip.{strip_prefix, strip_prefix-append, strip_prefix-clash}
use callifornia.Prelude.{String, none, false, ◌==◌, eq_iff, ◌≡◌, ◌≢◌, refl, Bool-cases, inl, inr}
use Prim.Native.String.{◌++◌}
use text.Mathlib.TextLemmas.{append_cancel_left, append_cancel_right}

differ : (s t : String) → s ≢ t → (s == t) ≡ false
differ s t ne = elim (Bool-cases (s == t)) [ inl e ↦ absurd (ne ((eq_iff s t).0 e)) | inr e ↦ e ]

-- A key that does not begin with `room:` is the one of no binding.
not_binding :
    (key room_id : String)
    → strip_prefix "room:" key ≡ none
    → (key == room_binding_key room_id) ≡ false
unfolding room_binding_key
not_binding key room_id h =
    differ key ("room:" ++ (room_id ++ ":binding"))
      λ e. absurd (cc (e, strip_prefix-append "room:" (room_id ++ ":binding")))

pub members_not_binding :
    (other room_id : String) → (room_members_key other == room_binding_key room_id) ≡ false
unfolding room_members_key strip_prefix
members_not_binding other room_id =
    not_binding (room_members_key other) room_id
      (strip_prefix-clash "room:" "signaling:room:" (other ++ ":members") refl)

pub session_not_binding :
    (other room_id : String) → (session_key other == room_binding_key room_id) ≡ false
unfolding session_key strip_prefix
session_not_binding other room_id =
    not_binding (session_key other) room_id
      (strip_prefix-clash "room:" "signaling:session:" other refl)

pub instances_not_binding :
    (room_id : String) → (sfu_instances_key == room_binding_key room_id) ≡ false
unfolding strip_prefix
instances_not_binding room_id = not_binding sfu_instances_key room_id refl

pub room_binding_key-inj :
    (other room_id : String)
    → other ≢ room_id
    → (room_binding_key other == room_binding_key room_id) ≡ false
unfolding room_binding_key
room_binding_key-inj other room_id ne =
    differ _ _
      λ e. ne (append_cancel_right other room_id ":binding" (append_cancel_left "room:" _ _ e))
