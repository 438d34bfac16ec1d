-- ===== src/ControlStore/Scan.antt =====
-- common/control_store/src/storage.rs: the loops over `SCAN`, which find the ids of the sessions,
-- the rooms and the bindings in the keys of the server. A loop that takes more rounds than fit in
-- the timeout of an operation ends with it, so those rounds are its fuel.
pub mod Strip
pub mod Ids
pub mod Pages
use callifornia.ControlStore.{
  Store, redis, query, signaling_session_prefix, signaling_room_prefix, room_binding_prefix,
}
use callifornia.ControlStore.Scan.Strip.{strip_prefix, strip_suffix, ends_with}
use callifornia.Exec.{Action, pure, raise, ◌>>=◌}
use callifornia.Prelude.{
  ℕ, zero, suc, String, List, [], ◌∷◌, ◌++◌, Option, none, some, Bool, true, false, nat_eq,
  if◌then◌else◌,
}
use callifornia.Services.{Services, Fault}

-- `if let Some(rest) = key.strip_prefix(p) { f(rest) }`
abbrev pub and_then : Option String → (String → Option String) → Option String
and_then none f = none
and_then (some s) f = f s

unfoldable pub session_id_of : String → Option String
unfolding strip_prefix ends_with
session_id_of key =
    if ends_with ":lock" key then none else strip_prefix signaling_session_prefix key

unfoldable pub room_id_of : String → Option String
unfolding strip_prefix strip_suffix
room_id_of key = and_then (strip_prefix signaling_room_prefix key) (strip_suffix ":members")

unfoldable pub binding_id_of : String → Option String
unfolding strip_prefix strip_suffix
binding_id_of key = and_then (strip_prefix room_binding_prefix key) (strip_suffix ":binding")

abbrev pub push : Option String → List String → List String
push none results = results
push (some id) results = id ∷ results

-- `for key in keys { … results.push(…) … }`
unfoldable pub collect : (String → Option String) → List String → List String
collect id_of [] = []
collect id_of (key ∷ keys) = push (id_of key) (collect id_of keys)

module _ ⦃v : Services⦄ where
  unfoldable pub scan_loop :
      ℕ → String → (String → Option String) → ℕ → List String → Store (List String)
  unfolding collect
  scan_loop zero pattern id_of cursor results = raise (redis Fault.timeout)
  scan_loop (suc rounds) pattern id_of cursor results = do
    (next, keys) ← query (v.scan_keys cursor pattern)
    let found = results ++ collect id_of keys
    elim (nat_eq next 0) [ true ↦ pure found | false ↦ scan_loop rounds pattern id_of next found ]

  unfoldable pub scan_signaling_session_ids : Store (List String)
  unfolding session_id_of
  scan_signaling_session_ids = scan_loop v.scan_rounds "signaling:session:*" session_id_of 0 []

  unfoldable pub scan_signaling_room_ids : Store (List String)
  unfolding room_id_of
  scan_signaling_room_ids = scan_loop v.scan_rounds "signaling:room:*:members" room_id_of 0 []

  unfoldable pub scan_room_binding_ids : Store (List String)
  unfolding binding_id_of
  scan_room_binding_ids = scan_loop v.scan_rounds "room:*:binding" binding_id_of 0 []
