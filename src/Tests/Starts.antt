-- ===== src/Tests/Starts.antt =====
-- The start of a client transaction, at a fresh client and two addresses.
use webthings.Common.{[], ◌∷◌, some, none, true, false, ◌≡◌, refl, ok, inr}
use webthings.Opt.{opts_init}
use webthings.Opt.Encode.{opts_encode, encode_loop}
use webthings.Pdu.{encode_header}
use webthings.Srv.{OutPdu}
use webthings.Srv.Send.{conn_get_confirmable}
use webthings.Timer.{timer_unset}
use webthings.Cli.{CliState, Client}
use webthings.Cli.Start.{Address, Dial, DialEnv, pdu_encode_request, encode_req, client_dns_cb}
use webthings.Cli.Sending.UnderWay.{IsUnderWay, client_dns_cb-IsUnderWay}
use webthings.Cli.Sending.Addresses.{Arrives}
use webthings.Tests.Clients.{asking, serving}

abbrev dialing : DialEnv
dialing = record {
  client = serving;
  sys = record { af_inet = 2; af_inet6 = 10; inet_sz = 16; inet6_sz = 28 };
  mid = 0x7d38;
  event_new = true;
  event_add = true;
  getaddrinfo = λ host port. none;
}

-- A confirmable GET, before it is sent.
abbrev fresh : Client
fresh = record asking { state = CliState.state_none; app = timer_unset; coap = timer_unset }

abbrev fresh_dial : Dial
fresh_dial = record {
  cli = fresh;
  socket = some 0;
  peer = [];
  pdu_peer = [];
  closed = [];
  ev_input = false;
  listed = false;
  dns_req = true;
}

abbrev unreached : Address
unreached = record {
  family = 10;
  ai_addr = 10 ∷ 0 ∷ [];
  socket = some 4;
  reached = λ pdu. false;
  nonblocking = true;
}

abbrev working : Address
working = record {
  family = 2;
  ai_addr = 2 ∷ 0 ∷ [];
  socket = some 5;
  reached = λ pdu. true;
  nonblocking = true;
}

abbrev encoded_req : OutPdu
encoded_req = record fresh.req { hdr = 64 ∷ 1 ∷ 0x38 ∷ 0x7d ∷ [] }

fresh_encoded : encode_req dialing fresh ≡ ok encoded_req
unfolding encode_req pdu_encode_request conn_get_confirmable opts_encode encode_loop encode_header
    opts_init
fresh_encoded = refl

client_dns_cb-IsUnderWay_example :
    Arrives
      (IsUnderWay (record fresh { state = CliState.dns_ok; req = encoded_req }) 5)
      (client_dns_cb dialing fresh_dial true (unreached ∷ working ∷ []))
client_dns_cb-IsUnderWay_example =
    client_dns_cb-IsUnderWay dialing fresh_dial (unreached ∷ []) working [] 5 encoded_req refl
      (record { new_ok = refl; add_ok = refl; app = refl; coap = refl }) refl refl refl
      fresh_encoded (inr (refl, refl), tt)
      (record { is_ip = refl; socket = refl; reached = refl; nonblocking = refl })
