-- ===== src/Signaling/Invariant/Node.antt =====
-- The steps of a running node, and what holds of each node that they reach.
use callifornia.Map.{lookup}
use callifornia.Prelude.{String, List, [], true, false, ◌≡◌, refl, arith}
use callifornia.Services.{Services}
use callifornia.Signaling.Events.{SfuEvent, listen_once, handle_sfu_event}
use callifornia.Signaling.Invariant.Connection.{Keeps-handle_event, Keeps-cleanup_connection}
use callifornia.Signaling.Invariant.Rooms.{
  IsRoomy, IsStable, Keeps-listen_once, Keeps-handle_sfu_event, Keeps-run_purge, Keeps-close_rooms,
}
use callifornia.Signaling.Invariant.Steps.{IsLocal}
use callifornia.Signaling.Invariant.Writes.{IsServed}
use callifornia.Signaling.Node.{Node, Config}
use callifornia.Signaling.Peers
use callifornia.Signaling.Peers.Rooms.{IsOccupied, register-IsOccupied, unregister-IsOccupied}
use callifornia.Signaling.Sessions
use callifornia.Signaling.Sessions.Moves.{set_room-IsValid, clear_room-IsValid}
use callifornia.Signaling.Sessions.Rooms.{IsValid, default-IsValid, upsert-IsValid, delete-IsValid}
use callifornia.Signaling.Sfu
use callifornia.Signaling.State.{
  drop_peer, clear_registries, run_purge, close_rooms_due_to_sfu_addr,
}
use callifornia.Signaling.Websocket.Connection.{Event, handle_event, cleanup_connection}
use callifornia.Signaling.Websocket.Context.{ConnectionContext}

module _ ⦃v : Services⦄ where
  -- The two session indices are inverse to one another, and no room is kept without a peer.
  pub record Inv (n : Node) : Type 0 where
    pub sessions_valid : IsValid n.sessions
    pub rooms_occupied : IsOccupied n.peers

  Inv-IsLocal : IsLocal Inv
  Inv-IsLocal = record {
    on_ext =
        λ n x i. record { sessions_valid = i.sessions_valid; rooms_occupied = i.rooms_occupied };
    on_sfu =
        λ n r i. record { sessions_valid = i.sessions_valid; rooms_occupied = i.rooms_occupied };
  }

  Inv-IsRoomy : IsRoomy Inv
  unfolding drop_peer
  Inv-IsRoomy = record {
    local = Inv-IsLocal;
    on_drop = λ room nick n i. record {
      sessions_valid = i.sessions_valid;
      rooms_occupied = unregister-IsOccupied room nick n.peers i.rooms_occupied;
    };
  }

  Inv-IsStable : IsStable Inv
  unfolding clear_registries Sessions.clear Peers.clear Sfu.clear Sfu.edit lookup
  Inv-IsStable = record {
    roomy = Inv-IsRoomy;
    on_clear_room = λ room n i. record {
      sessions_valid = clear_room-IsValid room n.sessions i.sessions_valid;
      rooms_occupied = i.rooms_occupied;
    };
    on_clear =
        λ n i. record { sessions_valid = default-IsValid; rooms_occupied = λ room. ground arith };
    on_purging =
        λ n i. record { sessions_valid = i.sessions_valid; rooms_occupied = i.rooms_occupied };
  }

  Inv-IsServed : IsServed Inv
  Inv-IsServed = record {
    roomy = Inv-IsRoomy;
    on_register = λ room nick entry n i. record {
      sessions_valid = i.sessions_valid;
      rooms_occupied = register-IsOccupied room nick entry n.peers i.rooms_occupied;
    };
    on_upsert = λ id session n i. record {
      sessions_valid = upsert-IsValid id session n.sessions i.sessions_valid;
      rooms_occupied = i.rooms_occupied;
    };
    on_delete = λ id n i. record {
      sessions_valid = delete-IsValid id n.sessions i.sessions_valid;
      rooms_occupied = i.rooms_occupied;
    };
    on_set_room = λ id room n i. record {
      sessions_valid = set_room-IsValid id room n.sessions i.sessions_valid;
      rooms_occupied = i.rooms_occupied;
    };
  }

  -- A node as `State::new` makes it.
  unfoldable pub new : v.Ext → Config → Node
  unfolding Sessions.default
  new x config = record {
    ext = x;
    config = config;
    peers = [];
    sessions = Sessions.default;
    sfu = record { clients = []; listeners = []; sdp_peer_locks = []; last_offer_ice_ufrag = [] };
    purging = false;
  }

  -- A connection handles an event or ends, whatever its context is; an SFU's stream is heard; the
  -- supervisor asks for a purge or for the closing of an SFU's rooms; the outside world goes on.
  pub data Step : Node → Node → Type 0 where
    event :
        (n : Node) (context : ConnectionContext) (tx : v.Sender) (e : Event)
        → Step n (handle_event tx e (record { node = n; context = context })).1.node
    disconnect :
        (n : Node) (context : ConnectionContext)
        → Step n (cleanup_connection (record { node = n; context = context })).1.node
    sfu_event : (n : Node) (e : SfuEvent) → Step n (handle_sfu_event e n).1
    stream : (n : Node) (addr : String) (es : List SfuEvent) → Step n (listen_once addr es n).1
    purge : (n : Node) (dependency : String) → Step n (run_purge dependency n).1
    close_rooms :
        (n : Node) (addr reason : String) → Step n (close_rooms_due_to_sfu_addr addr reason n).1
    outside : (n : Node) (x : v.Ext) → Step n (record n { ext = x })

  pub data Reach (start : Node) : Node → Type 0 where
    here : Reach start start
    next : {n m : Node} → Reach start n → Step n m → Reach start m

  module _ {P : Node → Type 0} (stable : IsStable P) (served : IsServed P) where
    Step-keeps : {n m : Node} → Step n m → P n → P m
    Step-keeps (event n context tx e) i = (Keeps-handle_event served tx e).at _ i
    Step-keeps (disconnect n context) i = (Keeps-cleanup_connection served).at _ i
    Step-keeps (sfu_event n e) i = (Keeps-handle_sfu_event stable.roomy e).at n i
    Step-keeps (stream n addr es) i = (Keeps-listen_once stable addr es).at n i
    Step-keeps (purge n dependency) i = (Keeps-run_purge stable dependency).at n i
    Step-keeps (close_rooms n addr reason) i = (Keeps-close_rooms stable addr reason).at n i
    Step-keeps (outside n x) i = stable.roomy.local.on_ext n x i

    pub Reach-keeps : {start m : Node} → Reach start m → P start → P m
    Reach-keeps here i = i
    Reach-keeps (next r st) i = Step-keeps st (Reach-keeps r i)

  new-Inv : (x : v.Ext) (config : Config) → Inv (new x config)
  unfolding new lookup
  new-Inv x config = record {
    sessions_valid = default-IsValid;
    rooms_occupied = λ room. ground arith;
  }

  -- In every node that a new node reaches, a session stands in the index of a room exactly when it
  -- has that room in the index of the sessions, and neither the index of rooms nor the registry of
  -- peers keeps a room that is empty.
  pub Reach-Inv : (x : v.Ext) (config : Config) (n : Node) → Reach (new x config) n → Inv n
  Reach-Inv x config n r = Reach-keeps Inv-IsStable Inv-IsServed r (new-Inv x config)

  -- The flag of the purge is never cleared.
  unfoldable pub IsPurging : Node → Type 0
  IsPurging n = n.purging ≡ true

  IsPurging-IsRoomy : IsRoomy IsPurging
  unfolding drop_peer IsPurging
  IsPurging-IsRoomy = record {
    local = record { on_ext = λ n x i. i; on_sfu = λ n r i. i };
    on_drop = λ room nick n i. i;
  }

  pub IsPurging-IsStable : IsStable IsPurging
  unfolding clear_registries Sfu.clear Sfu.edit IsPurging
  IsPurging-IsStable = record {
    roomy = IsPurging-IsRoomy;
    on_clear_room = λ room n i. i;
    on_clear = λ n i. i;
    on_purging = λ n i. refl;
  }

  pub IsPurging-IsServed : IsServed IsPurging
  unfolding IsPurging
  IsPurging-IsServed = record {
    roomy = IsPurging-IsRoomy;
    on_register = λ room nick entry n i. i;
    on_upsert = λ id session n i. i;
    on_delete = λ id n i. i;
    on_set_room = λ id room n i. i;
  }
