-- ===== src/Tests/Servers.antt =====
-- The theorems on server transactions, at concrete servers.
use webthings.Common.{
  ◌⊎◌, Bool, Bytes, Option, replicate, subst, [], ◌∷◌, none, some, true, false, ◌≡◌, refl, arith,
  done, ok,
}
use webthings.Opt.{Sym, opts_init}
use webthings.Opt.Pool.{opts_add_raw, opts_get}
use webthings.Opt.Reads.{InBounds, opts_add_raw-InBounds}
use webthings.Timer.{timer_unset}
use webthings.Srv.{
  SrvState, Server, server_state_is_final, server_check_transition, set_state_from,
  server_set_state, enter_timers,
}
use webthings.Srv.Send.{Env, pdu_new_empty}
use webthings.Srv.Drive.{CbRc, Answer, server_handle_empty}
use webthings.Srv.Unchanged.{Ends}
use webthings.Srv.States.{IsServer}
use webthings.Srv.Lookup.{ServerEvent, server_event, server_accept}
use webthings.Srv.Safety.{accepted, Reach-server_event, server_handle_empty_dangling}
use webthings.Srv.Retry.{Over, timeouts, timeouts_end}
use webthings.Opt.{Opts}
use webthings.Opt.Get.{opts_get_token}
use webthings.Pdu.{Hdr, decode_header}
use webthings.Enums.{Method}
use webthings.Flow.{flow_init, flow_set_method, flow_save_token}
use webthings.Resource.{same_bytes}
use webthings.Observe.{SockAddrs, Peer}
use webthings.Srv.Input.{
  Base, Seen, read_request, read_options, read_body, save_token, server_handle_pdu,
}
use webthings.Srv.Stepped.{IsBase, Leaves}
use webthings.Srv.Served.{server_handle_pdu-IsBase}
use webthings.Tests.{little_endian, fresh_flow, three}

-- libevent serves, and the network takes every PDU.
abbrev serving : Env
serving = record {
  ev = record { new_ok = true; add_ok = true; del_ok = true };
  host = little_endian;
  random = 4711;
  uninitialized = 0;
  net_send = λ pdu. true;
  cfg = record { block_is_stateless = true; block_szx = 6 };
}

-- A server at the acceptance of a confirmable request of MID 7.
abbrev fresh : Server
fresh = record {
  state = SrvState.req_ok;
  flow = fresh_flow;
  socket = 3;
  peer = 10 ∷ [];
  is_confirmable = 1;
  req = some 7;
  payload = [];
  res = some pdu_new_empty;
  octrl = none;
  coap = timer_unset;
  resched = timer_unset;
  listed = false;
  freed = false;
  sent = [];
}

abbrev pub content : Answer
content = record {
  rc = CbRc.ready;
  resp_code = 69;
  opts = opts_init;
  payload = 104 ∷ 105 ∷ [];
  tv = 0;
}

-- A server that awaits the acknowledgement of its separate response.
abbrev waiting : Server
waiting = record fresh {
  state = SrvState.wait_ack;
  coap = record { evti = true; pending = true; retries_left = 4; tout = 2 };
  listed = true;
}

-- A server whose user asked for time.
abbrev asked : Server
asked = record fresh {
  state = SrvState.ack_sent;
  resched = record { evti = true; pending = true; retries_left = 1; tout = 5 };
  listed = true;
}

waiting-IsServer : IsServer waiting
unfolding server_state_is_final
waiting-IsServer = record {
  freed_final = refl;
  not_retrying = refl;
  timed = record { attached = λ q. refl; pending = λ q. refl; capped = omega arith };
}

accept_fresh : server_accept serving fresh_flow 3 (10 ∷ []) true 7 [] ≡ done fresh
unfolding server_accept server_set_state set_state_from server_check_transition enter_timers
    server_state_is_final
accept_fresh = refl

Reach-server_event_example :
    IsServer fresh
    × (((fresh.freed ≡ false)
          × Ends IsServer (server_event serving fresh (ServerEvent.called content)))
        ⊎ ((fresh.freed ≡ true) × (fresh.coap.pending ≡ false)))
Reach-server_event_example =
    Reach-server_event serving fresh (ServerEvent.called content)
      (accepted serving fresh_flow 3 (10 ∷ []) true 7 [] accept_fresh) refl

timeouts_end_example : Ends Over (timeouts (λ i. serving) 5 waiting)
timeouts_end_example =
    timeouts_end (λ i. serving) 4 waiting (λ i. refl) (λ i. refl) waiting-IsServer refl refl
      (omega arith)

server_handle_empty_dangling_example :
    (srv' : Server) × (server_handle_empty serving asked 3 ≡ done srv')
    × (srv'.freed ≡ true)
    × (srv'.resched.pending ≡ true)
server_handle_empty_dangling_example = server_handle_empty_dangling serving asked refl

opts_add_raw-InBounds_example : InBounds (opts_add_raw three Sym.token (1 ∷ 2 ∷ []) 2)
opts_add_raw-InBounds_example = opts_add_raw-InBounds three Sym.token (1 ∷ 2 ∷ []) 2 (omega arith)

abbrev linux : SockAddrs
linux = record { af_inet = 2; af_inet6 = 10; inet_sz = 16; inet6_sz = 28 }

abbrev near : Peer
near = record { family = 2; addr = 2 ∷ 0 ∷ 22 ∷ 51 ∷ 10 ∷ 0 ∷ 0 ∷ 1 ∷ replicate 120 0 }

abbrev at_root : Opts → Option (Bytes × Bool)
at_root opts = some (47 ∷ [], false)

-- A server with a transaction in progress and a resource at `/`, and a GET without options.
abbrev pub busy : Base
busy = record {
  servers = waiting ∷ [];
  observing = [];
  resources = (record { path = 47 ∷ []; cb = λ srv. content }) ∷ [];
  fb = none;
}

abbrev get_root : Bytes
get_root = 64 ∷ 1 ∷ 7 ∷ 0 ∷ []

abbrev get_hdr : Hdr
get_hdr = record { t = 0; oc = 0; code = 1; mid = 7 }

get_root-hdr : decode_header little_endian get_root ≡ some get_hdr
unfolding decode_header
get_root-hdr = refl

get_root-read :
    read_request linux same_bytes same_bytes at_root get_root get_hdr
    ≡ ok (record fresh_flow { method = Method.get }, 47 ∷ [], [])
unfolding read_request read_body read_options flow_init flow_set_method save_token flow_save_token
    opts_get_token opts_get opts_init
get_root-read = refl

get_root-InBounds : InBounds (read_request linux same_bytes same_bytes at_root get_root get_hdr)
get_root-InBounds = λ q. cc (get_root-read, q)

busy-IsBase : IsBase busy
busy-IsBase = record { servers = ((waiting-IsServer, refl), tt); observing = tt }

server_handle_pdu-IsBase_example :
    Leaves IsBase
      (server_handle_pdu linux same_bytes same_bytes at_root serving busy get_root 3 near Seen.new)
server_handle_pdu-IsBase_example =
    server_handle_pdu-IsBase linux same_bytes same_bytes at_root serving busy get_root 3 near
      Seen.new
      (λ h e.
        subst (λ x. InBounds (read_request linux same_bytes same_bytes at_root get_root x))
          (cc (get_root-hdr, e)) get_root-InBounds)
      busy-IsBase
