-- ===== src/Cli/Sending/UnderWay.antt =====
-- ec_client_dns_cb after an answer of the resolver (evcoap_cli.c).
use webthings.Common.{
  ◌≡◌, refl, ℕ, List, ◌∷◌, ◌++◌, Bool, true, false, ◌||◌, Option, none, some, not, ltb, and_then,
  ok, Run, done, failed, ended,
}
use webthings.Srv.{OutPdu}
use webthings.Cli.{CliState, Client, is_cli_none, client_state_is_final}
use webthings.Cli.Start.{
  Address, Dial, DialEnv, transmit, transmit_on, settle, send_request, encode_req, client_dns_cb,
  client_register,
}
use webthings.Cli.Sending.{IsReady, dns_ok_lem}
use webthings.Cli.Sending.Addresses.{IsSent, Arrives, AllSkipped, IsWorking, try_addresses-IsSent}

-- A connection without a socket: ec_client_dns_cb takes the addresses.
abbrev pub is_unset : Option ℕ → Bool
is_unset none = true
is_unset (some sd) = not (ltb 0 sd)

-- The request went out, and the client waits for the answer.
pub record IsUnderWay (cli : Client) (sd : ℕ) (e : Dial) : Type 0 where
  pub sent : IsSent cli sd e
  pub ev_input : e.ev_input ≡ true
  pub listed : e.listed ≡ true

registered :
    (env : DialEnv) (cli : Client) (sd : ℕ) (r : Run Dial)
    → env.event_new ≡ true
    → env.event_add ≡ true
    → Arrives (IsSent cli sd) r
    → Arrives (IsUnderWay cli sd) (and_then r (settle env))
unfolding settle client_register
registered env cli sd (done e) n a s =
    rw (s.socket, n, a)
      record {
        sent = record { state = s.state; sent = s.sent; app = s.app; coap = s.coap; socket = refl };
        ev_input = refl;
        listed = refl;
      }
registered env cli sd (failed _) n a s = elim s [ ]
registered env cli sd ended n a s = elim s [ ]

flipped : (b : Bool) → not b ≡ true → b ≡ false
flipped false e = refl
flipped true e = cc

transmit-IsSent :
    (env : DialEnv) (d : Dial) (before : List Address) (ai : Address) (rest : List Address) (sd : ℕ)
    (o : Option ℕ)
    → is_unset o ≡ true
    → d.cli.state ≡ CliState.dns_ok
    → IsReady env.client d.cli
    → AllSkipped env.sys d.cli.req before
    → IsWorking env.sys d.cli.req sd ai
    → Arrives (IsSent d.cli sd) (transmit_on env d (before ++ ai ∷ rest) o)
unfolding transmit_on
transmit-IsSent env d before ai rest sd none f q w others works =
    try_addresses-IsSent env (record d { socket = none }) before ai rest sd q w others works
transmit-IsSent env d before ai rest sd (some k) f q w others works =
    let low : ltb 0 k ≡ false = flipped (ltb 0 k) f in
    rw low
      (try_addresses-IsSent env (record d { socket = none }) before ai rest sd q w others works)

-- Once the resolver has answered, the first address that works is enough: a fresh client, or one that
-- is over, whose timers can be started, whose request is encoded as `req` and that has no socket is
-- then in REQ_SENT and in the list of the base, the request went out once, on the socket of that
-- address, the application timer runs, and the retransmission timer exactly if the request is
-- confirmable. The addresses in front of it may have no socket or not be reached, as long as they
-- are IP addresses; libevent takes the read event.
pub client_dns_cb-IsUnderWay :
    (env : DialEnv) (d : Dial) (before : List Address) (ai : Address) (rest : List Address) (sd : ℕ)
    (req : OutPdu)
    → is_cli_none d.cli.state || client_state_is_final d.cli.state ≡ true
    → IsReady env.client d.cli
    → is_unset d.socket ≡ true
    → env.event_new ≡ true
    → env.event_add ≡ true
    → encode_req env d.cli ≡ ok req
    → AllSkipped env.sys req before
    → IsWorking env.sys req sd ai
    → Arrives
        (IsUnderWay (record d.cli { state = CliState.dns_ok; req = req }) sd)
        (client_dns_cb env d true (before ++ ai ∷ rest))
unfolding client_dns_cb send_request encode_req transmit
client_dns_cb-IsUnderWay env d before ai rest sd req q w f n a enc others works =
    let ready : Dial = record d {
      dns_req = false;
      cli = record d.cli { state = CliState.dns_ok; req = req };
    } in
    rw (dns_ok_lem env.client d.cli q, enc)
      (registered env ready.cli sd (transmit env ready (before ++ ai ∷ rest)) n a (
        transmit-IsSent env ready before ai rest sd d.socket f refl
          (record { new_ok = w.new_ok; add_ok = w.add_ok; app = w.app; coap = w.coap }) others
          works))
