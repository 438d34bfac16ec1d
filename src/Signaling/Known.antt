-- ===== src/Signaling/Known.antt =====
-- services/signaling/src/websocket.rs: a session that is checked stands in the registry, and one that
-- enters a room is in it.
use callifornia.Exec.{Result}
use callifornia.Exec.Ensures.{Ensures, Ensures-bind, Ensures-Keeps, Ensures-modify}
use callifornia.Exec.Keeps.{Keeps, keeps_rules}
use callifornia.Map.{lookup-insert}
use callifornia.Prelude.{String, some, true, ◌≡◌, arith, eq_refl}
use callifornia.Services.{Services}
use callifornia.Signaling.Invariant.Steps.{IsLocal}
use callifornia.Signaling.Invariant.Writes.{OfNode, Keeps-on_redis}
use callifornia.Signaling.Node.{Node}
use callifornia.Signaling.Sessions
use callifornia.Signaling.Sessions.{SessionState, SessionStore, room_of}
use callifornia.Signaling.Sessions.Moves.{is_known, room_of-set_room}
use callifornia.Signaling.Sessions.Rooms.{upsert-sessions}
use callifornia.Signaling.Websocket.Context.{Conn, on_context, on_sessions, check_session}
use callifornia.Signaling.Websocket.Rooms.{enter_room}

module _ ⦃v : Services⦄ where
  unfoldable pub Any : Conn → Type 0
  Any c = Unit

  Keeps-Any : {E A : Type 0} {m : Conn → Result E A × Conn} → Keeps Any m
  unfolding Any
  Keeps-Any = record { at = λ c h. tt }

  -- A session stands in the registry under the id.
  unfoldable pub IsKnown : String → Node → Type 0
  IsKnown id n = is_known n.sessions id ≡ true

  unfoldable pub IsIn : String → String → Node → Type 0
  IsIn id room n = room_of n.sessions id ≡ some room

  pub IsKnown-IsLocal : (id : String) → IsLocal (IsKnown id)
  unfolding IsKnown
  IsKnown-IsLocal id = record { on_ext = λ n x h. h; on_sfu = λ n r h. h }

  pub IsIn-IsLocal : (id room : String) → IsLocal (IsIn id room)
  unfolding IsIn
  IsIn-IsLocal id room = record { on_ext = λ n x h. h; on_sfu = λ n r h. h }

  is_known-upsert :
      (id : String) (session : SessionState) (s : SessionStore)
      → is_known (Sessions.upsert id session s) id ≡ true
  unfolding is_known
  is_known-upsert id session s =
      ground (
        arith,
        upsert-sessions id session s,
        lookup-insert id id session s.by_session_id,
        eq_refl id,
      )

  -- What `check_session` returns stands in the registry.
  pub check_session-Ensures :
      (id : String) → Ensures Any (check_session id) (λ _. OfNode (IsKnown id))
  unfolding check_session IsKnown on_sessions
  check_session-Ensures id = Ensures-bind _ _ (Ensures-Keeps {P = Any} _ Keeps-Any) λ bound.
      Ensures-bind _ _ (Ensures-Keeps {P = Any} _ Keeps-Any) λ _.
        Ensures-bind _ _ (Ensures-Keeps {P = Any} _ Keeps-Any) λ _.
          Ensures-bind _ _ (Ensures-Keeps {P = Any} _ Keeps-Any) λ found.
            Ensures-bind _ _ (Ensures-Keeps {P = Any} _ Keeps-Any) λ session.
              Ensures-bind _ _ (Ensures-Keeps {P = Any} _ Keeps-Any) λ _.
                Ensures-bind _ _
                  (Ensures-modify _ λ c h. is_known-upsert id session c.node.sessions)
                  λ _. Ensures-Keeps _ (search keeps_rules)

  pub enter_room-Ensures :
      (id room : String)
      → Ensures (OfNode (IsKnown id)) (enter_room id room) (λ _. OfNode (IsIn id room))
  unfolding enter_room on_sessions on_context IsKnown IsIn
  enter_room-Ensures id room =
      Ensures-bind _ _ (Ensures-Keeps _ (Keeps-on_redis (IsKnown-IsLocal id) _)) λ _.
        Ensures-bind _ _
          (Ensures-modify _ λ c h.
            ground (arith, h, room_of-set_room id id (some room) c.node.sessions, eq_refl id))
          λ _. Ensures-modify _ λ c h. h
