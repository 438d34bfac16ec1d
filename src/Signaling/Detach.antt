-- ===== src/Signaling/Detach.antt =====
-- services/signaling/src/state.rs: what `detach_peer` writes into the node.
use callifornia.Exec.Keeps.{keeps_rules}
use callifornia.Exec.Leads.{Leads, Leads-bind, Leads-Keeps, Leads-modify}
use callifornia.Prelude.{String, ◌≡◌, refl, ap}
use callifornia.Services.{Services}
use callifornia.Signaling.Invariant.Rooms.{Keeps-known_route, Keeps-leave_redis}
use callifornia.Signaling.Invariant.Steps.{IsLocal, Keeps-on_ext, Keeps-delete_peer}
use callifornia.Signaling.Node.{Node}
use callifornia.Signaling.Peers.{RoomPeers, unregister}
use callifornia.Signaling.State.{detach_peer, drop_peer, is_redis_available}

module _ ⦃v : Services⦄ where
  peers-IsLocal : (ps : RoomPeers) → IsLocal (λ n. n.peers ≡ ps)
  peers-IsLocal ps = record { on_ext = λ n x i. i; on_sfu = λ n r i. i }

  detach_peer-Leads :
      (room nick reason : String) (ps : RoomPeers)
      → Leads
          (λ n. n.peers ≡ ps)
          (λ n. n.peers ≡ unregister room nick ps)
          (detach_peer room nick reason)
  unfolding detach_peer drop_peer is_redis_available
  detach_peer-Leads room nick reason ps =
      let before = peers-IsLocal ps in
      let after = peers-IsLocal (unregister room nick ps) in
      Leads-bind _ _ (Leads-Keeps _ (Keeps-on_ext before _)) λ available.
        Leads-bind _ _ (Leads-Keeps _ (Keeps-known_route before available room)) λ route.
          Leads-bind _ _ (Leads-modify _ λ n e. ap (unregister room nick) e) λ _. Leads-Keeps _ (
            search
              (keeps_rules, Keeps-on_ext after, Keeps-leave_redis after, Keeps-delete_peer after)
              depth 8)

  -- Whatever Redis and the SFU answer, `detach_peer` removes that one peer from the registry.
  pub peers-detach_peer :
      (room nick reason : String) (n : Node)
      → (detach_peer room nick reason n).1.peers ≡ unregister room nick n.peers
  peers-detach_peer room nick reason n = (detach_peer-Leads room nick reason n.peers).at n refl
