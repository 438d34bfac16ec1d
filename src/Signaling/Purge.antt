-- ===== src/Signaling/Purge.antt =====
-- services/signaling/src/state.rs: what a purge leaves behind.
use callifornia.Exec.{Action, when, ◌>>=◌, total}
use callifornia.Exec.Keeps.{Keeps-when}
use callifornia.Exec.Leads.{Leads, Leads-bind, Leads-modify}
use callifornia.Prelude.{String, [], true, false, not, none, ◌≡◌, refl, arith}
use callifornia.Services.{Services}
use callifornia.Signaling.Invariant.Node.{
  Reach, IsPurging, IsPurging-IsStable, IsPurging-IsServed, Reach-keeps,
}
use callifornia.Signaling.Invariant.Rooms.{Keeps-purge}
use callifornia.Signaling.Node.{Node}
use callifornia.Signaling.Peers
use callifornia.Signaling.Sessions
use callifornia.Signaling.Sfu
use callifornia.Signaling.State.{run_purge, purge, try_begin_purge, clear_registries, is_purging}
use callifornia.Signaling.Websocket.Connection.{ws_upgrade}

module _ ⦃v : Services⦄ where
  -- No peer, no session and nothing of the SFU client is left.
  pub record IsEmpty (n : Node) : Type 0 where
    pub no_peers : n.peers ≡ []
    pub no_sessions : n.sessions ≡ Sessions.default
    pub no_channels : n.sfu.clients ≡ []
    pub no_listeners : n.sfu.listeners ≡ []
    pub no_locks : n.sfu.sdp_peer_locks ≡ []
    pub no_ufrags : n.sfu.last_offer_ice_ufrag ≡ []

  Any : Node → Type 0
  Any n = Unit

  purge-Leads : (dependency : String) → Leads Any IsEmpty (purge dependency)
  unfolding purge clear_registries Sessions.clear Peers.clear Sfu.clear Sfu.edit Any
  purge-Leads dependency = Leads-bind _ _ through λ rooms. Leads-bind _ _ through λ _.
      Leads-bind _ _ through λ _. Leads-modify _ λ n _. record {
        no_peers = refl;
        no_sessions = refl;
        no_channels = refl;
        no_listeners = refl;
        no_locks = refl;
        no_ufrags = refl;
      }
    where
      through : {A : Type 0} {m : Action Node ⊥ A} → Leads Any Any m
      through = record { at = λ n _. tt }

  -- A purge that is the first one clears every registry of the node, whatever fails on the way.
  pub run_purge-IsEmpty :
      (dependency : String) (n : Node) → n.purging ≡ false → IsEmpty (run_purge dependency n).1
  unfolding run_purge try_begin_purge ◌>>=◌ total when Any
  run_purge-IsEmpty dependency n h =
      rw h ((purge-Leads dependency).at (record n { purging = true }) tt)

  run_purge-IsPurging : (dependency : String) (n : Node) → IsPurging (run_purge dependency n).1
  unfolding run_purge try_begin_purge ◌>>=◌ total IsPurging
  run_purge-IsPurging dependency n =
      (Keeps-when (not n.purging) _ (Keeps-purge IsPurging-IsStable dependency)).at _ refl

  -- Once a purge was asked for, no node that is reached later takes a new connection.
  pub run_purge-refuses :
      (dependency : String) (n m : Node) → Reach (run_purge dependency n).1 m → ws_upgrade m ≡ none
  unfolding ws_upgrade is_purging IsPurging
  run_purge-refuses dependency n m r = ground (
    arith,
    Reach-keeps IsPurging-IsStable IsPurging-IsServed r (run_purge-IsPurging dependency n),
  )

  -- A purge that finds the flag set changes nothing.
  pub run_purge_again :
      (dependency : String) (n : Node) → n.purging ≡ true → (run_purge dependency n).1 ≡ n
  unfolding run_purge try_begin_purge ◌>>=◌ total when
  run_purge_again dependency n h = rw h
