-- ===== src/Srv/Input.antt =====
-- ec_server_handle_pdu of evcoap_srv.c: what a server makes of a PDU, with the transactions and the
-- observations that it keeps.
use webthings.Common.{
  ℕ, zero, suc, ◌+◌, ◌-◌, ◌^◌, Bytes, List, [], ◌∷◌, ◌++◌, Option, none, some, Bool, false, not,
  ltb, length, drop, ◌==◌, ◌||◌, if◌then◌else◌, Result, ok, err, fault, ◌>>=◌, Run, done, failed,
  ended, and_also,
}
use webthings.Enums.{Method}
use webthings.Opt.{Opts, opts_init}
use webthings.Opt.Get.{opts_get_token}
use webthings.Opt.Decode.{Failure, hdr_size, opts_decode}
use webthings.Pdu.{Hdr, decode_header}
use webthings.Flow.{Flow, flow_init, flow_set_method, flow_save_token}
use webthings.Timer.{timer_unset}
use webthings.Srv.{SrvState, resp_done, Server, server_set_state}
use webthings.Srv.Send.{Env, server_reply}
use webthings.Srv.Drive.{Answer, server_abort, server_handle_empty}
use webthings.Srv.Lookup.{servers_lookup, server_accept, ServerEvent, server_event}
use webthings.Observe.{Peer, SockAddrs, Observation}
use webthings.Observe.Ops.{canceled_by_rst, canceled_by_get}

-- A resource of the server: its path, and the answers of the user's function.
pub record Hosted : Type 0 where
  pub path : Bytes
  pub cb : Server → Answer

-- What the server keeps (ec_t): the transactions in progress, the observations, the resources and the
-- function for all the others.
pub record Base : Type 0 where
  pub servers : List Server
  pub observing : List Observation
  pub resources : List Hosted
  pub fb : Option (Server → Answer)

-- What ec_dups_handle_incoming_climsg says of the message: 0, 1 or -1.
pub data Seen : Type 0 where
  new copy internal : Seen

-- The code of a failure of the decoder, -1 as an unsigned integer, and that of the others, 0.
abbrev pub to_rc : {A : Type 0} → Result (Failure × Opts) A → Result ℕ A
to_rc (ok a) = ok a
to_rc (err (Failure.bad_option, _)) = err 130
to_rc (err (Failure.internal_server_error, _)) = err 160
to_rc (err (Failure.bad_pdu, _)) = err (2 ^ 32 - 1)
to_rc fault = fault

abbrev pub zero_rc : {A : Type 0} → Result A A → Result ℕ A
zero_rc (ok a) = ok a
zero_rc (err _) = err 0
zero_rc fault = fault

-- The method of a code; another code is none.
abbrev pub method_of : ℕ → Method
method_of code =
    if code == 1
    then Method.get
    else (if code == 2
        then Method.post
        else (if code == 3
            then Method.put
            else (if code == 4 then Method.delete else Method.unset)))

abbrev pub is_request : ℕ → Bool
is_request code = code == 1 || code == 2 || code == 3 || code == 4

unfoldable pub read_options : Bytes → Hdr → Result ℕ (Opts × ℕ)
unfolding opts_decode
read_options raw h = if h.oc == 0 then ok (opts_init, 0) else to_rc (opts_decode opts_init raw h.oc)

-- The payload behind the options. Where they end behind the PDU, the unsigned difference wraps, and the
-- copy is of more bytes than there are.
abbrev pub read_payload : Bytes → ℕ → Result ℕ Bytes
read_payload raw olen =
    if ltb (length raw) (olen + hdr_size) then fault else ok (drop (olen + hdr_size) raw)

-- The options and the payload of a message.
unfoldable pub read_body : Bytes → Hdr → Result ℕ (Opts × Bytes)
unfolding read_options
read_body raw h =
    read_options raw h >>= λ (opts, olen). read_payload raw olen >>= λ payload. ok (opts, payload)

unfoldable pub save_token : Flow → Option (Option Bytes × ℕ) → Result Flow Flow
unfolding flow_save_token
save_token flow none = flow_save_token flow none 0
save_token flow (some (v, l)) = flow_save_token flow v l

-- The callback of the first resource whose path is that of the request; the comparison is strcasecmp of
-- the C library.
unfoldable pub find_callback :
    (Bytes → Bytes → Bool)
    → List Hosted
    → Option (Server → Answer)
    → Bytes
    → Option (Server → Answer)
find_callback same_uri [] fb uri = fb
find_callback same_uri (r ∷ rs) fb uri =
    let rest = find_callback same_uri rs fb uri in if same_uri r.path uri then some r.cb else rest

-- The other servers, and this one if it was not freed.
abbrev pub with_rest : List Server → Run Server → Run (List Server)
with_rest srvs (done s) = done (if s.freed then srvs else s ∷ srvs)
with_rest srvs (failed s) = failed (if s.freed then srvs else s ∷ srvs)
with_rest srvs ended = ended

abbrev pub in_front : Server → Run (List Server) → Run (List Server)
in_front srv (done srvs) = done (srv ∷ srvs)
in_front srv (failed srvs) = failed (srv ∷ srvs)
in_front srv ended = ended

-- A step of the server at a position of the list.
unfoldable pub on_server : (Server → Run Server) → List Server → ℕ → Run (List Server)
on_server f [] i = failed []
on_server f (srv ∷ srvs) zero = with_rest srvs (f srv)
on_server f (srv ∷ srvs) (suc i) = in_front srv (on_server f srvs i)

abbrev pub with_servers : Base → Run (List Server) → Run Base
with_servers base (done srvs) = done (record base { servers = srvs })
with_servers base (failed srvs) = failed (record base { servers = srvs })
with_servers base ended = ended

-- A server that asked for time goes to the end of the list; the others are over.
abbrev pub with_new : Base → Run Server → Run Base
with_new base (done s) =
    done
      (if s.freed || not s.listed then base else record base { servers = base.servers ++ (s ∷ []) })
with_new base (failed s) =
    failed
      (if s.freed || not s.listed then base else record base { servers = base.servers ++ (s ∷ []) })
with_new base ended = ended

-- An empty message of another type than ACK and RST runs into the checks of a request, where its code
-- is refused.
unfoldable pub bad_control : Env → Server → Result ℕ (Opts × Bytes) → Run Server
unfolding server_abort
bad_control env srv (ok _) = server_abort env srv 0
bad_control env srv (err rc) = server_abort env srv rc
bad_control env srv fault = ended

unfoldable pub control_message : Env → Bytes → Hdr → Server → Run Server
unfolding server_handle_empty bad_control read_body
control_message env raw h srv =
    if h.t == 2 || h.t == 3
    then server_handle_empty env srv h.t
    else bad_control env srv (read_body raw h)

unfoldable pub handle_control : SockAddrs → Env → Base → Bytes → Hdr → ℕ → Peer → Run Base
unfolding servers_lookup on_server control_message
handle_control sys env base raw h sd peer = elim (servers_lookup sys base.servers h.mid sd peer) [
  | none ↦ failed base
  | some i ↦ with_servers base (on_server (control_message env raw h) base.servers i)
]

-- ec_server_new, with the socket, the peer and the message model.
abbrev pub server_new : ℕ → Bytes → Bool → Server
server_new sd peer is_con = record {
  state = SrvState.state_none;
  flow = flow_init;
  socket = sd;
  peer = peer;
  is_confirmable = if is_con then 1 else 2;
  req = none;
  payload = [];
  res = none;
  octrl = none;
  coap = timer_unset;
  resched = timer_unset;
  listed = false;
  freed = false;
  sent = [];
}

-- The user's function for the resource, or 4.04 where there is none.
unfoldable pub serve : Env → Server → Option (Server → Answer) → Run Server
unfolding server_event server_reply server_set_state
serve env srv (some cb) = server_event env srv (ServerEvent.called (cb srv))
serve env srv none =
    and_also (server_reply env srv 132 []) (λ s. server_set_state env.ev s resp_done)

-- `same_uri` is evutil_ascii_strcasecmp of libevent, `strcasecmp` that of the C library.
module _ (sys : SockAddrs) (same_uri strcasecmp : Bytes → Bytes → Bool)
    (url : Opts → Option (Bytes × Bool)) where
  -- What is read of a request: the flow, the URI and the payload. `url` is what ec_opts_compose_url and
  -- ec_flow_save_url make of the options, by the u_uri_t of libu: the URI, and whether it is proxied.
  unfoldable pub read_request : Bytes → Hdr → Result ℕ (Flow × Bytes × Bytes)
  unfolding read_body flow_set_method save_token opts_get_token
  read_request raw h = read_body raw h >>= λ (opts, payload).
      zero_rc (flow_set_method flow_init (method_of h.code)) >>= λ f.
      zero_rc (save_token f (opts_get_token opts.bundle)) >>= λ flow. elim (url opts) [
        | none ↦ err 0
        | some (uri, is_px) ↦ ok (record flow { proxy_uri = is_px }, uri, payload)
      ]

  -- The request that was read: an observation by the peer is canceled by a GET, and the user's function
  -- is called.
  unfoldable pub run_request :
      Env
      → Base
      → Flow
      → Bytes
      → ℕ
      → Peer
      → Bool
      → ℕ
      → Bytes
      → Result (Unit {0}) (ℕ × List Observation)
      → Run Base
  unfolding server_accept serve find_callback
  run_request env base flow uri sd peer is_con mid payload (ok (_, observing)) =
      with_new (record base { observing = observing })
        (and_also (server_accept env flow sd peer.addr is_con mid payload)
          (λ srv. serve env srv (find_callback strcasecmp base.resources base.fb uri)))
  run_request env base flow uri sd peer is_con mid payload (err _) = with_new base (
      and_also (server_accept env flow sd peer.addr is_con mid payload)
        (λ srv. serve env srv (find_callback strcasecmp base.resources base.fb uri)))
  run_request env base flow uri sd peer is_con mid payload fault = ended

  -- A new request: where it cannot be read, an error is replied and the server is over.
  unfoldable pub handle_request :
      Env → Base → Hdr → ℕ → Peer → Result ℕ (Flow × Bytes × Bytes) → Run Base
  unfolding run_request canceled_by_get server_abort
  handle_request env base h sd peer (ok (flow, uri, payload)) =
      run_request env base flow uri sd peer (h.t == 0) h.mid payload
        (canceled_by_get same_uri sys base.observing flow.method uri peer)
  handle_request env base h sd peer (err rc) =
      with_new base (server_abort env (server_new sd peer.addr (h.t == 0)) rc)
  handle_request env base h sd peer fault = ended

  -- An empty message: a reset may be meant for a notification.
  unfoldable pub handle_reset :
      Env → Base → Bytes → Hdr → ℕ → Peer → Result (Unit {0}) (ℕ × List Observation) → Run Base
  unfolding handle_control
  handle_reset env base raw h sd peer (ok (n, observing)) =
      if n == 1
      then done (record base { observing = observing })
      else handle_control sys env (record base { observing = observing }) raw h sd peer
  handle_reset env base raw h sd peer (err _) = handle_control sys env base raw h sd peer
  handle_reset env base raw h sd peer fault = ended

  -- By the code of the message.
  unfoldable pub handle_new : Env → Base → Bytes → Hdr → ℕ → Peer → Run Base
  unfolding handle_reset handle_control canceled_by_rst handle_request read_request
  handle_new env base raw h sd peer =
      if h.code == 0
      then (if h.t == 3
          then handle_reset env base raw h sd peer (canceled_by_rst sys base.observing peer h.mid)
          else handle_control sys env base raw h sd peer)
      else (if is_request h.code
          then handle_request env base h sd peer (read_request raw h)
          else failed base)

  -- ec_server_handle_pdu, from the decoded header on.
  unfoldable pub handle_decoded : Env → Base → Bytes → ℕ → Peer → Seen → Option Hdr → Run Base
  unfolding handle_new
  handle_decoded env base raw sd peer seen none = failed base
  handle_decoded env base raw sd peer Seen.new (some h) = handle_new env base raw h sd peer
  handle_decoded env base raw sd peer Seen.copy (some h) = done base
  handle_decoded env base raw sd peer Seen.internal (some h) = failed base

  -- ec_server_handle_pdu.
  unfoldable pub server_handle_pdu : Env → Base → Bytes → ℕ → Peer → Seen → Run Base
  unfolding handle_decoded decode_header
  server_handle_pdu env base raw sd peer seen =
      handle_decoded env base raw sd peer seen (decode_header env.host raw)
