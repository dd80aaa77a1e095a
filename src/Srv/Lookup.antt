-- ===== src/Srv/Lookup.antt =====
-- The start of a server transaction, the list of servers, and the events that reach one
-- (evcoap_srv.c).
use webthings.Common.{
  ℕ, zero, suc, Bytes, List, [], ◌∷◌, ◌≡◌, Option, none, some, Bool, true, false, not, ◌==◌, ◌||◌,
  if◌then◌else◌, take, Run, or_else,
}
use mathlib.Core.Option
use webthings.Flow.{Flow}
use webthings.Resource.{same_bytes}
use webthings.Timer.{timer_unset}
use webthings.Observe.{Peer, SockAddrs, net_socklen}
use webthings.Srv.{state_none, req_ok, OutPdu, Server, server_set_state}
use webthings.Srv.Send.{Env, pdu_new_empty}
use webthings.Srv.Drive.{
  Answer, server_userfn, resched_userfn, server_wakeup, srv_coap_timeout, server_abort,
  server_handle_empty,
}

-- Whether an outbound PDU remembers a MID.
abbrev pub has_mid : ℕ → Option OutPdu → Bool
has_mid mid none = false
has_mid mid (some pdu) = pdu.mid == mid

-- The loop of ec_servers_lookup, over addresses of `peer_len` bytes.
unfoldable pub lookup_loop : ℕ → List Server → ℕ → ℕ → Peer → Option ℕ
lookup_loop peer_len [] mid sd peer = none
lookup_loop peer_len (srv ∷ srvs) mid sd peer =
    let rest = Option.map suc (lookup_loop peer_len srvs mid sd peer) in
    if not (srv.socket == sd) || not (same_bytes (take peer_len srv.peer) (take peer_len peer.addr))
    then rest
    else (if has_mid mid srv.octrl || has_mid mid srv.res then some zero else rest)

-- ec_servers_lookup: the position of the first server on the socket and of the peer with such an
-- outbound PDU; none for a peer of an unknown family.
unfoldable pub servers_lookup : SockAddrs → List Server → ℕ → ℕ → Peer → Option ℕ
unfolding lookup_loop net_socklen
servers_lookup sys srvs mid sd peer = elim (net_socklen sys peer.family) [
  | none ↦ none
  | some peer_len ↦ lookup_loop peer_len srvs mid sd peer
]

-- What ec_server_handle_pdu makes of a request that was read without error: ec_server_new,
-- ec_server_set_msg_model, ec_server_set_req, ec_server_new_response and the state REQ_OK.
unfoldable pub server_accept : Env → Flow → ℕ → Bytes → Bool → ℕ → Bytes → Run Server
server_accept env flow sd peer is_con mid payload =
    server_set_state env.ev
      (record {
        state = state_none;
        flow = flow;
        socket = sd;
        peer = peer;
        is_confirmable = if is_con then 1 else 2;
        req = some mid;
        payload = payload;
        res = some pdu_new_empty;
        octrl = none;
        coap = timer_unset;
        resched = timer_unset;
        listed = false;
        freed = false;
        sent = [];
      })
      req_ok

-- The events of a transaction: the first call of the user's function, a later one when the reschedule
-- timer fires, the user's wake-up, the retransmission timer, and an empty message of the client.
pub data ServerEvent : Type 0 where
  called rescheduled : Answer → ServerEvent
  woken timed_out : ServerEvent
  emptied : ℕ → ServerEvent

unfoldable pub server_event : Env → Server → ServerEvent → Run Server
server_event env srv (called a) = or_else (server_userfn env srv a) (λ s. server_abort env s 0)
server_event env srv (rescheduled a) = resched_userfn env srv a
server_event env srv woken = server_wakeup env srv
server_event env srv timed_out = srv_coap_timeout env srv
server_event env srv (emptied t) = server_handle_empty env srv t

-- When an event can come: the first call follows the acceptance, the others need a timer that is
-- pending, or a server that is found in the list and an empty message of type ACK or RST.
abbrev pub CanCome : Server → ServerEvent → Type 0
CanCome srv (called a) = srv.state ≡ req_ok
CanCome srv (rescheduled a) = srv.resched.pending ≡ true
CanCome srv woken = Unit {0}
CanCome srv timed_out = srv.coap.pending ≡ true
CanCome srv (emptied t) = (srv.listed ≡ true) × ((t == 2 || t == 3) ≡ true)
