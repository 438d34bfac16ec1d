-- ===== src/Signaling/Invariant/Steps.antt =====
-- Predicates on a node that the steps of sfu.rs and redis.rs keep: those say nothing of the outside
-- world, and nothing of the SFU registry.
use callifornia.Exec.{Result, ok, err, Action, zoom, modify}
use callifornia.Exec.Keeps.{Keeps, Keeps-modify, keeps_rules}
use callifornia.Prelude.{String}
use callifornia.Services.{Services, SfuRequest, SfuResponse, RpcFault, status, timed_out}
use callifornia.Signaling.Node.{Node, Registry, on_ext}
use callifornia.Signaling.Sfu.{
  SfuClientError, edit, open_channel, channel_for, read_reply, invalidate_channel, run_rpc,
  ensure_success, ensure_listener, ensure_peer, finish, delete_peer, cleanup_peer_sdp_state,
  sdp_peer_mutex, note_ufrag, handle_sdp, add_ice_candidate,
}

module _ ⦃v : Services⦄ where
  pub record IsLocal (P : Node → Type 0) : Type 0 where
    pub on_ext : (n : Node) (x : v.Ext) → P n → P (record n { ext = x })
    pub on_sfu : (n : Node) (r : Registry) → P n → P (record n { sfu = r })

module _ ⦃v : Services⦄ {P : Node → Type 0} (l : IsLocal P) {E A : Type 0} where
  pub Keeps-on_ext : (m : Action v.Ext E A) → Keeps P (on_ext m)
  unfolding on_ext zoom
  Keeps-on_ext m = record { at = λ n i. l.on_ext n (m n.ext).1 i }

module _ ⦃v : Services⦄ {P : Node → Type 0} (l : IsLocal P) {E : Type 0} where
  pub Keeps-edit : (f : Registry → Registry) → Keeps P (modify {E = E} (edit f))
  unfolding edit
  Keeps-edit f = Keeps-modify (edit f) λ n i. l.on_sfu n (f n.sfu) i

module _ ⦃v : Services⦄ {P : Node → Type 0} (l : IsLocal P) where
  Keeps-channel_for : (addr : String) → Keeps P (channel_for addr)
  unfolding channel_for open_channel
  Keeps-channel_for addr = search (keeps_rules, Keeps-on_ext l, Keeps-edit l)

  Keeps-read_reply : (addr : String) (r : Result RpcFault SfuResponse) → Keeps P (read_reply addr r)
  unfolding read_reply invalidate_channel
  Keeps-read_reply addr (ok response) = search keeps_rules
  Keeps-read_reply addr (err (status code)) = search (keeps_rules, Keeps-edit l)
  Keeps-read_reply addr (err timed_out) = search (keeps_rules, Keeps-edit l)

  pub Keeps-run_rpc : (addr : String) (request : SfuRequest) → Keeps P (run_rpc addr request)
  unfolding run_rpc
  Keeps-run_rpc addr request =
      search (keeps_rules, Keeps-on_ext l, Keeps-channel_for, Keeps-read_reply)

  pub Keeps-ensure_peer : (addr room nick : String) → Keeps P (ensure_peer addr room nick)
  unfolding ensure_peer ensure_listener ensure_success
  Keeps-ensure_peer addr room nick = search (keeps_rules, Keeps-edit l, Keeps-run_rpc)

  Keeps-finish : (r : Result SfuClientError (Unit {0})) → Keeps P (finish r)
  unfolding finish
  Keeps-finish (ok _) = search keeps_rules
  Keeps-finish (err e) = search keeps_rules

  pub Keeps-delete_peer :
      (addr room nick reason : String) → Keeps P (delete_peer addr room nick reason)
  unfolding delete_peer ensure_success cleanup_peer_sdp_state
  Keeps-delete_peer addr room nick reason =
      search (keeps_rules, Keeps-edit l, Keeps-run_rpc, Keeps-finish) depth 7

  pub Keeps-handle_sdp :
      (addr room nick sdp sdp_type : String) → Keeps P (handle_sdp addr room nick sdp sdp_type)
  unfolding handle_sdp sdp_peer_mutex note_ufrag ensure_success
  Keeps-handle_sdp addr room nick sdp sdp_type =
      search (keeps_rules, Keeps-edit l, Keeps-run_rpc) depth 8

  pub Keeps-add_ice_candidate :
      (addr room nick candidate sdp_mid : String)
      → Keeps P (add_ice_candidate addr room nick candidate sdp_mid)
  unfolding add_ice_candidate ensure_success
  Keeps-add_ice_candidate addr room nick candidate sdp_mid = search (keeps_rules, Keeps-run_rpc)
