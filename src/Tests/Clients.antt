-- ===== src/Tests/Clients.antt =====
-- The theorems on client transactions, at concrete clients.
use webthings.Common.{[], ◌∷◌, some, true, false, ◌≡◌, ◌⊎◌, refl, done, failed, arith}
use webthings.Opt.{Sym, OptType, opts_init, rank, sym2type}
use webthings.Opt.Pool.{opts_get, opts_get_nth}
use webthings.Opt.Get.{opts_get_observe, opts_get_uint}
use webthings.Opt.Uint.{decode_uint}
use webthings.Timer.{timer_unset}
use webthings.Srv.Send.{pdu_new_empty, conn_get_confirmable}
use webthings.Cli.{
  CliState, Client, CliEnv, ResPdu, client_check_transition, client_state_is_final,
  client_get_response_pdu,
}
use webthings.Cli.Drive.{client_set_state, flow_is_con}
use webthings.Cli.Input.{is_stale, client_handle_observation, client_take_response}
use webthings.Cli.Told.{Gives}
use webthings.Cli.Final.{IsOver, client_set_state_final}
use webthings.Cli.Freshness.{
  IsNewer, IsCounted, client_handle_observation-IsNewer, kept, client_take_response_stuck,
}
use mathlib.Core.Option
use webthings.Tests.{little_endian, fresh_flow}

abbrev pub serving : CliEnv
serving = record {
  ev = record { new_ok = true; add_ok = true; del_ok = true };
  le = true;
  host = little_endian;
  net_send = λ pdu. true;
  cancels = λ cli. false;
}

-- A client that sent a confirmable request.
abbrev pub asking : Client
asking = record {
  state = CliState.req_sent;
  userown = false;
  is_confirmable = 1;
  is_multicast = false;
  cb = true;
  observe = record { on = false; cancel = false; last_cnt = 0; last_ts = 0 };
  flow = fresh_flow;
  req = pdu_new_empty;
  res_set = [];
  app = record { evti = true; pending = true; retries_left = 1; tout = 60 };
  coap = record { evti = true; pending = true; retries_left = 4; tout = 2 };
  obs = timer_unset;
  freed = false;
  called = [];
  sent = [];
}

-- A notification with the counter 5.
abbrev pub five : ResPdu
five = record {
  hdr = record { t = 1; oc = 1; code = 69; mid = 77 };
  opts = record opts_init {
    noptions = 1;
    bundle = (record { sym = Sym.observe; t = OptType.uint; l = 1; v = some (5 ∷ []) }) ∷ [];
  };
  payload = [];
}

-- A client that observes, told of the counter 4 or 6 at the time 100.
abbrev at_four : Client
at_four = record asking {
  state = CliState.wait_nfy;
  observe = record { on = true; cancel = false; last_cnt = 4; last_ts = 100 };
  flow = record fresh_flow { resp_code = 69 };
  res_set = five ∷ [];
}

abbrev at_six : Client
at_six = record at_four {
  observe = record { on = true; cancel = false; last_cnt = 6; last_ts = 100 };
  res_set = [];
}

five-counter : opts_get_observe true five.opts.bundle ≡ some 5
unfolding opts_get_observe opts_get_uint opts_get opts_get_nth decode_uint sym2type Option.bind rank
five-counter = refl

is_con : flow_is_con asking ≡ true
unfolding flow_is_con conn_get_confirmable
is_con = refl

client_set_state_final_example :
    Gives (IsOver asking CliState.req_done) (client_set_state serving asking CliState.req_done)
unfolding client_check_transition client_state_is_final
client_set_state_final_example =
    client_set_state_final serving asking CliState.req_done refl refl (λ q. cc (is_con, q))

five-IsCounted : IsCounted serving at_four five 5
unfolding client_get_response_pdu
five-IsCounted = record {
  found = refl;
  on = refl;
  not_canceled = refl;
  not_deleted = refl;
  counter = five-counter;
}

client_handle_observation-IsNewer_example :
    (IsNewer at_four.observe 5 101
      × (client_handle_observation serving at_four 101
          ≡ done (record at_four {
            observe = record at_four.observe { last_cnt = 5; last_ts = 101 };
          })))
    ⊎ (¬ IsNewer at_four.observe 5 101
        × (client_handle_observation serving at_four 101 ≡ failed at_four))
client_handle_observation-IsNewer_example =
    client_handle_observation-IsNewer serving at_four five 5 101 five-IsCounted (omega arith)
      (omega arith)

five-stale : is_stale at_six.observe 5 101 ≡ true
unfolding is_stale
five-stale = refl

client_take_response_stuck_example :
    (client_take_response serving at_six five 101 ≡ failed (kept at_six five))
    × (client_take_response serving (kept at_six five) five 200
        ≡ failed (kept (kept at_six five) five))
client_take_response_stuck_example =
    client_take_response_stuck serving at_six five five 5 101 200 refl refl refl five-counter
      five-stale (refl, refl, refl) (refl, refl, refl) (omega arith)
