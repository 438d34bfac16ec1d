-- ===== src/Signaling/Cleanup.antt =====
-- services/signaling/src/websocket.rs: what `cleanup_connection` leaves.
use callifornia.Exec.{◌>>=◌, gets, modify, when_some}
use callifornia.Exec.Leads.{Leads, Leads-bind, Leads-modify}
use callifornia.Map.{lookup-remove}
use callifornia.Prelude.{String, none, some, Bool, true, false, ◌≡◌, arith, eq_refl}
use callifornia.Services.{Services}
use callifornia.Signaling.Sessions
use callifornia.Signaling.Sessions.{SessionStore, SessionState, get, delete}
use callifornia.Signaling.Sessions.Rooms.{delete-sessions}
use callifornia.Signaling.Websocket.Connection.{
  Run, edit_sessions, release_bound, stop_renewer, cleanup_connection,
}
use callifornia.Signaling.State.{is_redis_available}
use callifornia.Signaling.Websocket.Context.{Conn, on_node}

module _ ⦃v : Services⦄ where
  Any : Conn → Type 0
  Any c = Unit

  -- No session stands in the registry under the id.
  abbrev IsGone : String → Conn → Type 0
  IsGone id c = get id c.node.sessions ≡ none

  pub get-delete : (id : String) (s : SessionStore) → get id (delete id s) ≡ none
  unfolding get
  get-delete id s =
      ground (arith, delete-sessions id s, lookup-remove id id s.by_session_id, eq_refl id)

  delete-Leads : (id : String) → Leads Any (IsGone id) (modify (edit_sessions (Sessions.delete id)))
  unfolding edit_sessions
  delete-Leads id = Leads-modify _ λ c _. get-delete id c.node.sessions

  release_bound-Leads : (id : String) (b : Bool) → Leads Any (IsGone id) (release_bound id b)
  unfolding release_bound Any
  release_bound-Leads id false = delete-Leads id
  release_bound-Leads id true =
      Leads-bind _ _ through
        λ cached. Leads-bind _ _ through λ session. Leads-bind _ _ through λ _. delete-Leads id
    where
      through : {A : Type 0} {m : Run A} → Leads Any Any m
      through = record { at = λ c _. tt }

  close-Leads :
      (id : String) → Leads Any (IsGone id) (on_node is_redis_available >>= release_bound id)
  unfolding Any
  close-Leads id = Leads-bind _ _ (record { at = λ c _. tt }) (release_bound-Leads id)

  -- When a connection that is bound to a session is cleaned up, the session leaves the node's registry,
  -- whatever Redis and the SFU answer.
  pub get-cleanup_connection :
      (id : String) (c : Conn)
      → c.context.session_id ≡ some id
      → get id (cleanup_connection c).1.node.sessions ≡ none
  unfolding cleanup_connection ◌>>=◌ modify gets when_some stop_renewer Any
  get-cleanup_connection id c h = rw h (
      (close-Leads id).at
        (record (stop_renewer c) {
          context = record (stop_renewer c).context { session_id = some id };
        })
        tt)
