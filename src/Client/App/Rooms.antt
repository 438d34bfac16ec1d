-- ===== src/Client/App/Rooms.antt =====
-- client/src/app.rs: the participants of a room, which are shown once each.
use callifornia.Client.Participants.{
  ActiveRoom, add_unique, gather_unique, unique_participants, active_room_with_participant,
  active_room_without_participant,
}
use callifornia.Map.{contains, discard, contains-discard}
use callifornia.Prelude.{
  String, List, [], ◌∷◌, push, Option, none, some, false, ◌||◌, ◌==◌, eq_iff, ◌≡◌, refl, Bool-cases,
  inl, inr, arith,
}

unfoldable pub IsUnique : List String → Type 0
IsUnique [] = Unit
IsUnique (x ∷ xs) = (contains x xs ≡ false) × IsUnique xs

contains-push :
    (n y : String) (xs : List String) → contains n (push xs y) ≡ (y == n || contains n xs)
unfolding contains
contains-push n y [] = ground arith
contains-push n y (x ∷ xs) = ground (arith, contains-push n y xs)

push-IsUnique :
    (y : String) (xs : List String) → contains y xs ≡ false → IsUnique xs → IsUnique (push xs y)
unfolding contains IsUnique
push-IsUnique y [] h u = (refl, tt)
push-IsUnique y (x ∷ xs) h (e, u) = (
  ground (arith, contains-push x y xs, eq_iff x y, eq_iff y x),
  push-IsUnique y xs (ground arith) u,
)

pub contains-add_unique :
    (n y : String) (xs : List String) → contains n (add_unique xs y) ≡ (y == n || contains n xs)
unfolding add_unique
contains-add_unique n y xs = ground (arith, contains-push n y xs, eq_iff y n)

pub add_unique-IsUnique : (y : String) (xs : List String) → IsUnique xs → IsUnique (add_unique xs y)
unfolding add_unique
add_unique-IsUnique y xs u = elim (Bool-cases (contains y xs)) [
  | inl e ↦ rw e u
  | inr e ↦ rw e (push-IsUnique y xs e u)
]

pub discard-IsUnique : (y : String) (xs : List String) → IsUnique xs → IsUnique (discard y xs)
unfolding discard IsUnique
discard-IsUnique y [] u = tt
discard-IsUnique y (x ∷ xs) (e, u) = elim (Bool-cases (x == y)) [
  | inl h ↦ rw h (discard-IsUnique y xs u)
  | inr h ↦ rw h (ground (arith, contains-discard y x xs), discard-IsUnique y xs u)
]

contains-gather_unique :
    (n : String) (unique names : List String)
    → contains n (gather_unique unique names) ≡ (contains n unique || contains n names)
unfolding gather_unique contains
contains-gather_unique n unique [] = ground arith
contains-gather_unique n unique (y ∷ names) =
    ground
      (arith, contains-gather_unique n (add_unique unique y) names, contains-add_unique n y unique)

gather_unique-IsUnique :
    (unique names : List String) → IsUnique unique → IsUnique (gather_unique unique names)
unfolding gather_unique
gather_unique-IsUnique unique [] u = u
gather_unique-IsUnique unique (y ∷ names) u =
    gather_unique-IsUnique (add_unique unique y) names (add_unique-IsUnique y unique u)

pub contains-unique_participants :
    (n : String) (names : List String) → contains n (unique_participants names) ≡ contains n names
unfolding unique_participants contains
contains-unique_participants n names = contains-gather_unique n [] names

pub unique_participants-IsUnique : (names : List String) → IsUnique (unique_participants names)
unfolding unique_participants IsUnique
unique_participants-IsUnique names = gather_unique-IsUnique [] names tt

-- The participants of the room, if there is one, are listed once each.
unfoldable pub IsTidy : Option ActiveRoom → Type 0
IsTidy none = Unit
IsTidy (some r) = IsUnique r.participants

pub with_participant-IsTidy :
    (r : Option ActiveRoom) (name : String)
    → IsTidy r
    → IsTidy (active_room_with_participant r name)
unfolding active_room_with_participant IsTidy
with_participant-IsTidy none name h = h
with_participant-IsTidy (some r) name h = add_unique-IsUnique name r.participants h

pub without_participant-IsTidy :
    (r : Option ActiveRoom) (name : String)
    → IsTidy r
    → IsTidy (active_room_without_participant r name)
unfolding active_room_without_participant IsTidy
without_participant-IsTidy none name h = h
without_participant-IsTidy (some r) name h = discard-IsUnique name r.participants h
