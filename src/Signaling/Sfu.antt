-- ===== src/Signaling/Sfu.antt =====
-- services/signaling/src/sfu.rs: the client of the SFU's gRPC service. A channel is opened on first
-- use and dropped when a call shows that it is broken. The mutex for each peer only orders the calls
-- of `handle_sdp`; here a call is one step.
mod Ufrag
pub use Ufrag.*
use callifornia.Exec.{
  Result, ok, err, Action, pure, raise, gets, total, modify, when, when_some, guard, attempt, ◌>>=◌,
  ◌>>◌,
}
use callifornia.Map.{Map, insert, remove, contains, add, discard}
use callifornia.Prelude.{
  ℕ, String, List, [], Option, none, some, Bool, true, false, ◌==◌, nat_eq, get_or, if◌then◌else◌,
}
use callifornia.Services.{
  Services, SfuRequest, SfuResponse, create_peer, handle_sdp as sdp_request,
  delete_peer as delete_request, add_ice_candidate as candidate_request, Code, RpcFault,
  unavailable, cancelled, deadline_exceeded, other, status, timed_out,
}
use callifornia.Signaling.Node.{Node, Registry, on_ext, public_node_id}
use Prim.Native.String.{◌++◌}

pub data SfuClientError : Type 0 where
  transport : Code → SfuClientError
  connect timeout : SfuClientError
  rejected : String → SfuClientError

pub record RemoteSdp : Type 0 where
  pub sdp : String
  pub sdp_type : String

unfoldable pub sdp_peer_key : String → String → String
sdp_peer_key room_id nickname = room_id ++ ("\u{1f}" ++ nickname)

-- The numbers of `SdpType` in common/proto/signaling.proto.
unfoldable pub parse_sdp_type : String → ℕ
parse_sdp_type value = if value == "offer" then 1 else if value == "answer" then 2 else 0

unfoldable pub format_sdp_type : ℕ → String
format_sdp_type value = if nat_eq value 1 then "offer" else "answer"

-- The codes after which the channel is opened anew.
unfoldable pub is_broken : Code → Bool
is_broken unavailable = true
is_broken cancelled = true
is_broken deadline_exceeded = true
is_broken other = false

module _ ⦃v : Services⦄ where
  unfoldable pub edit : (Registry → Registry) → Node → Node
  edit f n = record n { sfu = f n.sfu }

  abbrev pub Sfu : Type 0 → Type 0
  Sfu A = Action Node SfuClientError A

  unfoldable pub sdp_peer_mutex : String → String → Node → Node
  sdp_peer_mutex room_id nickname =
      edit λ r. record r { sdp_peer_locks = add (sdp_peer_key room_id nickname) r.sdp_peer_locks }

  unfoldable pub cleanup_peer_sdp_state : String → String → Node → Node
  cleanup_peer_sdp_state room_id nickname = edit λ r. record r {
    sdp_peer_locks = discard (sdp_peer_key room_id nickname) r.sdp_peer_locks;
    last_offer_ice_ufrag = remove (sdp_peer_key room_id nickname) r.last_offer_ice_ufrag;
  }

  unfoldable pub invalidate_channel : String → Node → Node
  invalidate_channel sfu_addr = edit λ r. record r { clients = discard sfu_addr r.clients }

  unfoldable pub open_channel : String → Sfu (Unit {0})
  open_channel sfu_addr = do
    connected ← on_ext (total (v.connect_sfu sfu_addr))
    guard connected connect
    modify (edit λ r. record r { clients = add sfu_addr r.clients })

  unfoldable pub channel_for : String → Sfu (Unit {0})
  channel_for sfu_addr = do
    is_open ← gets (λ n. contains sfu_addr n.sfu.clients)
    if is_open then pure tt else open_channel sfu_addr

  unfoldable pub read_reply : String → Result RpcFault SfuResponse → Sfu SfuResponse
  read_reply sfu_addr (ok response) = pure response
  read_reply sfu_addr (err (status code)) = do
    when (is_broken code) (modify (invalidate_channel sfu_addr))
    raise (transport code)
  read_reply sfu_addr (err timed_out) = do modify (invalidate_channel sfu_addr); raise timeout

  unfoldable pub run_rpc : String → SfuRequest → Sfu SfuResponse
  run_rpc sfu_addr request = do
    channel_for sfu_addr
    reply ← on_ext (total (v.call_sfu sfu_addr request))
    read_reply sfu_addr reply

  unfoldable pub ensure_success : SfuResponse → String → Sfu (Unit {0})
  ensure_success response fallback =
      guard response.success (rejected (get_or response.error_message fallback))

  unfoldable pub clear : Node → Node
  clear =
      edit
        λ r. record { clients = []; listeners = []; sdp_peer_locks = []; last_offer_ice_ufrag = [] }

  -- The task that `ensure_listener` starts for a new address is `run_event_listener`.
  unfoldable pub ensure_listener : String → Node → Node
  ensure_listener sfu_addr = edit λ r. record r { listeners = add sfu_addr r.listeners }

  unfoldable pub ensure_peer : String → String → String → Sfu (Unit {0})
  ensure_peer sfu_addr room_id nickname = do
    modify (ensure_listener sfu_addr)
    signaling_id ← gets (λ n. public_node_id n.config)
    response ← run_rpc sfu_addr (create_peer room_id nickname signaling_id)
    ensure_success response "SFU failed to create peer"

  unfoldable pub finish : Result SfuClientError (Unit {0}) → Sfu (Unit {0})
  finish (ok _) = pure tt
  finish (err e) = raise e

  -- The local state of the peer is dropped whatever the SFU answers.
  unfoldable pub delete_peer : String → String → String → String → Sfu (Unit {0})
  delete_peer sfu_addr room_id nickname reason = do
    result ← attempt (do
      response ← run_rpc sfu_addr (delete_request room_id nickname reason)
      ensure_success response "SFU failed to delete peer")
    modify (cleanup_peer_sdp_state room_id nickname)
    finish result

  unfoldable pub offered_ufrag : String → String → Option (List ℕ)
  offered_ufrag sdp sdp_type = if sdp_type == "offer" then first_ice_ufrag sdp else none

  unfoldable pub note_ufrag : String → List ℕ → Node → Node
  note_ufrag key ufrag =
      edit λ r. record r { last_offer_ice_ufrag = insert key ufrag r.last_offer_ice_ufrag }

  unfoldable pub handle_sdp : String → String → String → String → String → Sfu RemoteSdp
  handle_sdp sfu_addr room_id nickname sdp sdp_type = do
    modify (sdp_peer_mutex room_id nickname)
    response ← run_rpc sfu_addr (sdp_request room_id nickname sdp (parse_sdp_type sdp_type))
    ensure_success response "SFU rejected SDP"
    when_some (offered_ufrag sdp sdp_type)
        λ u. modify (note_ufrag (sdp_peer_key room_id nickname) u)
    pure (record { sdp = response.sdp; sdp_type = format_sdp_type response.type })

  unfoldable pub add_ice_candidate : String → String → String → String → String → Sfu (Unit {0})
  add_ice_candidate sfu_addr room_id nickname candidate sdp_mid = do
    response ← run_rpc sfu_addr (candidate_request room_id nickname candidate sdp_mid)
    ensure_success response "SFU rejected ICE candidate"
