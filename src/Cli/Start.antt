-- ===== src/Cli/Start.antt =====
-- How a client transaction starts: ec_client_go, ec_client_dns_cb and ec_client_register
-- (evcoap_cli.c), ec_pdu_encode_request and ec_pdu_set_peer (evcoap_pdu.c).
-- The resolver, the sockets and the events are what libevent and the kernel give.
use webthings.Common.{
  ℕ, List, [], ◌∷◌, ◌++◌, Bytes, Option, none, some, Bool, true, false, not, ltb, ◌||◌, take, drop,
  if◌then◌else◌, Result, ok, err, fault, Run, done, failed, ended, and_then, and_also, or_else,
}
use webthings.Enums.{method_num}
use webthings.Opt.Encode.{opts_encode}
use webthings.Opt.Get.{opts_get_uri_port}
use webthings.Pdu.{HostOrder, encode_header}
use webthings.Srv.{OutPdu}
use webthings.Srv.Send.{conn_get_confirmable}
use webthings.Observe.{SockAddrs, net_socklen}
use webthings.Cli.{CliState, Client, CliEnv, client_state_is_final, is_cli_none}
use webthings.Cli.Drive.{client_set_state}

-- EC_COAP_DEFAULT_PORT.
abbrev pub default_port : ℕ
default_port = 5683

-- An address that the resolver found: the bytes of its sockaddr, what socket() gives for it, whether
-- ec_net_send reaches it with a PDU, and whether evutil_make_socket_nonblocking succeeds.
pub record Address : Type 0 where
  pub family : ℕ
  pub ai_addr : Bytes
  pub socket : Option ℕ
  pub reached : OutPdu → Bool
  pub nonblocking : Bool

-- A client with its connection: the socket (`none` is -1), the peer of the connection and that of the
-- request, the sockets that were closed, the read event, and whether it is in the list of the base.
pub record Dial : Type 0 where
  pub cli : Client
  pub socket : Option ℕ
  pub peer : Bytes
  pub pdu_peer : Bytes
  pub closed : List ℕ
  pub ev_input : Bool
  pub listed : Bool
  pub dns_req : Bool

-- What the start gets from outside, besides the environment of the client: the numbers
-- and sizes of socket addresses, the random MID, whether event_new and event_add succeed, and
-- evdns_getaddrinfo: `some` is an answer at once, with its success and the addresses.
pub record DialEnv : Type 0 where
  pub client : CliEnv
  pub sys : SockAddrs
  pub mid : ℕ
  pub event_new : Bool
  pub event_add : Bool
  pub getaddrinfo : Bytes → ℕ → Option (Bool × List Address)

-- ec_pdu_set_peer of the request; `none` is -1.
unfoldable pub pdu_set_peer : DialEnv → Dial → Address → Option Dial
unfolding net_socklen
pdu_set_peer env d ai = elim (net_socklen env.sys ai.family) [
  | none ↦ none
  | some n ↦ some (
      if d.cli.is_multicast
      then record d { pdu_peer = take n ai.ai_addr ++ drop n d.pdu_peer }
      else record d { peer = take n ai.ai_addr ++ drop n d.peer })
]

-- ec_pdu_encode_request, with the code of the method, the flag of the connection and the MID.
unfoldable pub pdu_encode_request : HostOrder → ℕ → ℕ → ℕ → OutPdu → Result OutPdu OutPdu
unfolding conn_get_confirmable
pdu_encode_request host method confirmable mid pdu = elim (opts_encode pdu.opts) [
  | ok o ↦ elim (conn_get_confirmable confirmable) [
    | none ↦ err (record pdu { opts = o })
    | some is_con ↦ ok (record pdu {
      opts = o;
      hdr = encode_header host o.noptions method (if is_con then 0 else 1) mid;
    })
  ]
  | err o ↦ err (record pdu { opts = o })
  | fault ↦ fault
]

-- A step of the client within its connection.
abbrev pub with_client : Dial → Run Client → Run Dial
with_client d (done cli) = done (record d { cli = cli })
with_client d (failed cli) = failed (record d { cli = cli })
with_client d ended = ended

abbrev pub dial_state : DialEnv → Dial → CliState → Run Dial
dial_state env d state = with_client d (client_set_state env.client d.cli state)

-- EC_CLI_ASSERT, where the test fails: the state is entered, and the callback returns.
abbrev pub give_up : DialEnv → Dial → CliState → Run Dial
give_up env d state = and_also (dial_state env d state) failed

-- The request went out.
abbrev pub with_sent : Dial → Dial
with_sent d = record d { cli = record d.cli { sent = d.cli.req ∷ d.cli.sent } }

-- The loop of ec_client_dns_cb over the addresses.
unfoldable pub try_addresses : DialEnv → Dial → List Address → Run Dial
unfolding pdu_set_peer
try_addresses env d [] = done d
try_addresses env d (ai ∷ rest) = elim ai.socket [
  | none ↦ try_addresses env (record d { socket = none }) rest
  | some sd ↦ elim (pdu_set_peer env (record d { socket = some sd }) ai) [
    | none ↦ failed (record d { socket = some sd })
    | some d' ↦ elim (ai.reached d'.cli.req) [
      | true ↦
          if ai.nonblocking
          then dial_state env (with_sent d') CliState.req_sent
          else give_up env (with_sent d') CliState.internal_err
      | false ↦ try_addresses env (record d' { socket = none; closed = sd ∷ d'.closed }) rest
    ]
  ]
]

-- ec_client_register and ec_client_add.
unfoldable pub client_register : DialEnv → Dial → Run Dial
client_register env d =
    if not env.event_new
    then failed d
    else (if not env.event_add
        then failed d
        else done (record d { ev_input = true; listed = true }))

-- The request is sent on the socket that there is, or on the first one that works.
unfoldable pub transmit_on : DialEnv → Dial → List Address → Option ℕ → Run Dial
unfolding try_addresses
transmit_on env d addrs none = try_addresses env (record d { socket = none }) addrs
transmit_on env d addrs (some sd) =
    if ltb 0 sd
    then (if env.client.net_send d.cli.req
        then dial_state env (with_sent d) CliState.req_sent
        else give_up env d CliState.internal_err)
    else try_addresses env (record d { socket = none }) addrs

unfoldable pub transmit : DialEnv → Dial → List Address → Run Dial
unfolding transmit_on
transmit env d addrs = transmit_on env d addrs d.socket

-- The end of ec_client_dns_cb: the socket is looked at, the client registered.
unfoldable pub settle : DialEnv → Dial → Run Dial
unfolding client_register
settle env d = elim d.socket [
  | none ↦ give_up env d CliState.internal_err
  | some _ ↦ or_else (client_register env d) (λ d'. give_up env d' CliState.internal_err)
]

-- What ec_client_dns_cb does once the request is encoded.
unfoldable pub send_request : DialEnv → Dial → List Address → Result OutPdu OutPdu → Run Dial
unfolding transmit settle
send_request env d addrs (ok req) =
    and_then (transmit env (record d { cli = record d.cli { req = req } }) addrs) (settle env)
send_request env d addrs (err req) =
    give_up env (record d { cli = record d.cli { req = req } }) CliState.internal_err
send_request env d addrs fault = ended

-- The request of a client, encoded.
unfoldable pub encode_req : DialEnv → Client → Result OutPdu OutPdu
unfolding pdu_encode_request
encode_req env cli =
    pdu_encode_request env.client.host (method_num cli.flow.method) cli.is_confirmable env.mid
      cli.req

-- ec_client_dns_cb: whether the resolver succeeded, and the addresses.
unfoldable pub client_dns_cb : DialEnv → Dial → Bool → List Address → Run Dial
unfolding send_request encode_req
client_dns_cb env d found addrs =
    let d' = record d { dns_req = false } in
    if not found
    then give_up env d' CliState.dns_failed
    else and_also (dial_state env d' CliState.dns_ok)
        (λ e. send_request env e addrs (encode_req env e.cli))

-- The host and the port that ec_client_go resolves: the proxy's, or those of the URI (its host is
-- what libu's u_uri_get_host gives). `none` is the failure.
unfoldable pub destination :
    DialEnv → Client → Option (Bytes × ℕ) → Option Bytes → Option (Bytes × ℕ)
unfolding opts_get_uri_port
destination env cli (some proxy) host = some proxy
destination env cli none none = none
destination env cli none (some host) = elim (opts_get_uri_port env.client.le cli.req.opts.bundle) [
  | none ↦ some (host, default_port)
  | some port ↦ some (host, port)
]

-- ec_client_go, with the proxy, the host of the URI, whether the user gives a callback, and the
-- application timeout (60 seconds where the user gives none).
unfoldable pub client_go :
    DialEnv → Dial → Option (Bytes × ℕ) → Option Bytes → Bool → Option ℕ → Run Dial
unfolding destination client_dns_cb client_state_is_final
client_go env d proxy host user_cb tout =
    if is_cli_none d.cli.state || client_state_is_final d.cli.state
    then (elim (destination env d.cli proxy host) [
      | none ↦ give_up env d CliState.internal_err
      | some (name, port) ↦
          let timed = record d {
            cli = record d.cli { cb = user_cb; app = record d.cli.app { tout = app_tout tout } };
          } in
          elim (env.getaddrinfo name port) [
            | none ↦ done (record timed { dns_req = true })
            | some (found, addrs) ↦ settled (client_dns_cb env timed found addrs)
          ]
    ])
    else give_up env d CliState.internal_err
  where
    app_tout : Option ℕ → ℕ
    app_tout none = 60
    app_tout (some t) = t

    settled : Run Dial → Run Dial
    settled r = and_also r done
