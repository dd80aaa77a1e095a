-- ===== src/Cli/Empty.antt =====
-- What an empty message of the server does to a client transaction (evcoap_cli.c).
use webthings.Common.{◌≡◌, ◌⊎◌, inl, inr, refl, true, false, ended, Bool-cases}
use webthings.Cli.{
  CliState, Client, CliEnv, client_state_is_final, client_check_transition, is_open,
}
use webthings.Cli.Drive.{
  flow_is_con, client_set_state_from, client_set_state, client_handle_empty_pdu,
}
use webthings.Cli.Told.{Gives}
use webthings.Cli.Final.{IsOver, client_set_state_final}

-- A client that goes on without retransmissions, until the response comes.
pub record IsAcked (cli c : Client) : Type 0 where
  pub state : c.state ≡ CliState.req_ackd
  pub coap : c.coap.evti ≡ false
  pub app : c.app ≡ cli.app
  pub called : c.called ≡ cli.called
  pub freed : c.freed ≡ cli.freed

refused :
    (env : CliEnv) (cli : Client) (state : CliState)
    → client_check_transition cli.state state ≡ false
    → client_set_state env cli state ≡ ended
unfolding client_set_state client_set_state_from
refused env cli state e = rw e refl

-- A reset is taken while a request or an observation is open, and the client is over then; in any
-- other state it ends the process.
pub client_handle_empty_pdu-rst :
    (env : CliEnv) (cli : Client)
    → (flow_is_con cli ≡ false → cli.coap.evti ≡ false)
    → ((is_open cli.state ≡ true)
        × Gives (IsOver cli CliState.req_rst) (client_handle_empty_pdu env cli 3))
      ⊎ ((is_open cli.state ≡ false) × (client_handle_empty_pdu env cli 3 ≡ ended))
unfolding client_handle_empty_pdu client_check_transition client_state_is_final
client_handle_empty_pdu-rst env cli h = elim (Bool-cases (is_open cli.state)) [
  | inl e ↦ inl (e, client_set_state_final env cli CliState.req_rst e refl h)
  | inr e ↦ inr (e, refused env cli CliState.req_rst e)
]
