-- ===== src/Signaling/Invariant/Handlers.antt =====
-- Predicates on a node that joining and creating a room keep.
use callifornia.Exec.Keeps.{Keeps, keeps_rules}
use callifornia.Prelude.{String}
use callifornia.Services.{Services}
use callifornia.Signaling.Invariant.Rooms.{Keeps-broadcast, Keeps-detach_stale_peers}
use callifornia.Signaling.Invariant.Writes.{
  IsServed, OfNode, Keeps-on_redis, Keeps-quietly, Keeps-register, Keeps-send_message,
  Keeps-check_session, Keeps-enter_room, Keeps-ensure_peer_or, Keeps-join_created,
  Keeps-undo_create,
}
use callifornia.Signaling.Invariant.Steps.{Keeps-on_ext}
use callifornia.Signaling.Node.{Node}
use callifornia.Signaling.Websocket.Rooms.{handle_join_locked, handle_create_locked}

module _ ⦃v : Services⦄ {P : Node → Type 0} (s : IsServed P) where
  pub Keeps-handle_join_locked :
      (tx : v.Sender) (id room : String) → Keeps (OfNode P) (handle_join_locked tx id room)
  unfolding handle_join_locked
  Keeps-handle_join_locked tx id room =
      search
        (
          keeps_rules,
          Keeps-check_session s,
          Keeps-on_redis s.roomy.local,
          Keeps-on_ext s.roomy.local,
          Keeps-ensure_peer_or s.roomy.local,
          Keeps-enter_room s,
          Keeps-send_message s.roomy.local,
          Keeps-register s,
          Keeps-quietly,
          Keeps-broadcast s.roomy.local,
          Keeps-detach_stale_peers s.roomy,
        )
        depth 20

  pub Keeps-handle_create_locked :
      (tx : v.Sender) (id : String) → Keeps (OfNode P) (handle_create_locked tx id)
  unfolding handle_create_locked
  Keeps-handle_create_locked tx id =
      search
        (
          keeps_rules,
          Keeps-check_session s,
          Keeps-on_redis s.roomy.local,
          Keeps-on_ext s.roomy.local,
          Keeps-quietly,
          Keeps-join_created s.roomy.local,
          Keeps-ensure_peer_or s.roomy.local,
          Keeps-undo_create s.roomy.local,
          Keeps-enter_room s,
          Keeps-send_message s.roomy.local,
          Keeps-register s,
        )
        depth 20
