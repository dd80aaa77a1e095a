-- ===== src/Cli/Sending.antt =====
-- When REQ_SENT and DNS_OK are entered, the timers of the client start (evcoap_cli.c).
pub mod Addresses
pub mod UnderWay
use webthings.Common.{◌≡◌, refl, ◌||◌, Bool, true, false, if◌then◌else◌, done}
use webthings.Timer.{Timer, timer_start}
use webthings.Srv.{resp_timeout, max_retransmit}
use webthings.Cli.{
  CliState, Client, CliEnv, is_cli_none, client_state_is_final, client_check_transition,
  cli_start_app_timer, cli_start_coap_timer,
}
use webthings.Cli.Drive.{
  flow_is_con, client_enter, client_inform, client_is_over, client_switch, client_set_state_from,
  client_set_state,
}
use webthings.Cli.Told.{Gives}

-- A timer that libevent is going to fire.
abbrev pub started : Timer → Timer
started ti = record ti {
  evti = true;
  pending = true;
  retries_left = max_retransmit;
  tout = resp_timeout;
}

-- A client in REQ_SENT, with its timers running.
pub record IsWaiting (cli c : Client) : Type 0 where
  pub state : c.state ≡ CliState.req_sent
  pub sent : c.sent ≡ cli.sent
  pub app : c.app.pending ≡ true
  pub coap : c.coap ≡ (if flow_is_con cli then started cli.coap else cli.coap)

-- A client whose timers can be started.
pub record IsReady (env : CliEnv) (cli : Client) : Type 0 where
  pub new_ok : env.ev.new_ok ≡ true
  pub add_ok : env.ev.add_ok ≡ true
  pub app : cli.app.evti ≡ false
  pub coap : cli.coap.evti ≡ false

start_coap :
    (env : CliEnv) (cli : Client)
    → env.ev.new_ok ≡ true
    → env.ev.add_ok ≡ true
    → cli.coap.evti ≡ false
    → cli_start_coap_timer env.ev cli ≡ done (record cli { coap = started cli.coap })
unfolding cli_start_coap_timer timer_start
start_coap env cli n a e = rw (e, n, a) refl

start_app :
    (env : CliEnv) (cli : Client)
    → env.ev.new_ok ≡ true
    → env.ev.add_ok ≡ true
    → cli.app.evti ≡ false
    → cli_start_app_timer env.ev cli
      ≡ done (record cli { app = record cli.app { evti = true; pending = true; retries_left = 1 } })
unfolding cli_start_app_timer timer_start
start_app env cli n a e = rw (e, n, a) refl

waits :
    (env : CliEnv) (cli : Client) (is_con : Bool)
    → flow_is_con cli ≡ is_con
    → IsReady env cli
    → Gives (IsWaiting cli) (
        client_switch env CliState.req_sent is_con
          (client_enter env CliState.req_sent CliState.dns_ok is_con cli))
unfolding client_switch client_enter client_inform client_is_over client_state_is_final
waits env cli true e w = rw (start_app env cli w.new_ok w.add_ok w.app) (
    rw
      (start_coap env
        (record cli { app = record cli.app { evti = true; pending = true; retries_left = 1 } })
        w.new_ok w.add_ok w.coap)
      record { state = refl; sent = refl; app = refl; coap = rw e refl })
waits env cli false e w =
    rw (start_app env cli w.new_ok w.add_ok w.app)
      record { state = refl; sent = refl; app = refl; coap = rw e refl }

pub waits_from :
    (env : CliEnv) (cur : CliState) (cli : Client)
    → cur ≡ CliState.dns_ok
    → IsReady env cli
    → Gives (IsWaiting cli) (client_set_state_from env cur cli CliState.req_sent)
unfolding client_set_state_from client_check_transition
waits_from env cur cli e w = rw e (waits env cli (flow_is_con cli) refl w)

-- DNS_OK is entered from the state of a fresh client and from a final one, and nothing else changes.
pub dns_ok_lem :
    (env : CliEnv) (cli : Client)
    → is_cli_none cli.state || client_state_is_final cli.state ≡ true
    → client_set_state env cli CliState.dns_ok ≡ done (record cli { state = CliState.dns_ok })
unfolding client_set_state client_set_state_from client_check_transition client_switch client_enter
    client_inform client_is_over client_state_is_final
dns_ok_lem env cli e = rw e refl
