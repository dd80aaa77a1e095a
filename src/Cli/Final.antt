-- ===== src/Cli/Final.antt =====
-- What a final state leaves of a client transaction (ec_client_set_state of evcoap_cli.c).
use webthings.Common.{
  ◌≡◌, inl, inr, refl, ◌∙◌, ap, List, [], ◌∷◌, Bool, true, false, ◌||◌, ◌&&◌, not, if◌then◌else◌,
  Run, done, failed, ended, and_also, Bool-cases, arith,
}
use webthings.Timer.{Timer, timer_remove}
use webthings.Cli.{
  CliState, Client, CliEnv, client_state_is_final, client_check_transition, is_wait_nfy,
  res_set_clear, cli_stop_coap_timer, cli_stop_app_timer, cli_stop_obs_timer,
}
use webthings.Cli.Drive.{
  flow_is_con, client_enter, client_is_over, client_inform, client_free, client_dispose,
  client_switch, client_set_state_from, client_set_state,
}
use webthings.Cli.Told.{Gives, Same, Told, is_told, enter_final-Same, inform_final-Told}

-- No timer is attached, the responses are gone, and the memory was given back unless it is the user's.
pub record IsDisposed (cli : Client) : Type 0 where
  pub app : cli.app.evti ≡ false
  pub coap : cli.coap.evti ≡ false
  pub obs : cli.obs.evti ≡ false
  pub res_set : cli.res_set ≡ []
  pub freed : (cli.freed || cli.userown) ≡ true

pub removed : (ti : Timer) → (timer_remove ti).evti ≡ false
unfolding timer_remove
removed ti = elim (Bool-cases ti.evti) [ inl e ↦ rw e refl | inr e ↦ rw e refl ]

disposed :
    (cli : Client) (own : Bool)
    → own ≡ cli.userown
    → cli.app.evti ≡ false
    → cli.coap.evti ≡ false
    → cli.obs.evti ≡ false
    → IsDisposed (if own then res_set_clear cli else client_free cli)
unfolding res_set_clear client_free
disposed cli true e a c o = record {
  app = a;
  coap = c;
  obs = o;
  res_set = refl;
  freed = ground (arith, e);
}
disposed cli false e a c o = record { app = a; coap = c; obs = o; res_set = refl; freed = refl }

dispose-IsDisposed :
    (is_con : Bool) (cli : Client)
    → (is_con ≡ false → cli.coap.evti ≡ false)
    → IsDisposed (client_dispose is_con cli)
unfolding client_dispose cli_stop_app_timer cli_stop_coap_timer cli_stop_obs_timer
dispose-IsDisposed true cli h =
    disposed (cli_stop_obs_timer (cli_stop_coap_timer (cli_stop_app_timer cli))) cli.userown refl
      (removed cli.app) (removed cli.coap) (removed cli.obs)
dispose-IsDisposed false cli h =
    disposed (cli_stop_obs_timer (cli_stop_app_timer cli)) cli.userown refl (removed cli.app)
      (h refl) (removed cli.obs)

disposed-called :
    (cli : Client) (own : Bool)
    → let c = if own then res_set_clear cli else client_free cli in
      (c.state ≡ cli.state) × (c.called ≡ cli.called)
unfolding res_set_clear client_free
disposed-called cli true = (refl, refl)
disposed-called cli false = (refl, refl)

dispose-called :
    (is_con : Bool) (cli : Client)
    → ((client_dispose is_con cli).state ≡ cli.state)
      × ((client_dispose is_con cli).called ≡ cli.called)
unfolding client_dispose cli_stop_app_timer cli_stop_coap_timer cli_stop_obs_timer
dispose-called true cli =
    disposed-called (cli_stop_obs_timer (cli_stop_coap_timer (cli_stop_app_timer cli))) cli.userown
dispose-called false cli = disposed-called (cli_stop_obs_timer (cli_stop_app_timer cli)) cli.userown

-- The end of a transaction in the state `state`, of a client that was `cli`.
pub record IsOver (cli : Client) (state : CliState) (c : Client) : Type 0 where
  pub entered : c.state ≡ state
  pub disposed : IsDisposed c
  pub told : c.called ≡ (if is_told cli then state ∷ cli.called else cli.called)

told_as :
    (state : CliState) (x y : Bool) (l m : List CliState)
    → x ≡ y
    → l ≡ m
    → (if x then state ∷ l else l) ≡ (if y then state ∷ m else m)
told_as state x y l m e f = rw (e, f) refl

both : (a b c d : Bool) → a ≡ b → c ≡ d → (not a && c) ≡ (not b && d)
both a b c d e f = rw (e, f) refl

switch_final :
    (env : CliEnv) (cli : Client) (state : CliState) (is_con : Bool) (r : Run Client)
    → client_state_is_final state ≡ true
    → (is_con ≡ false → cli.coap.evti ≡ false)
    → Gives (Same cli) r
    → Gives (IsOver cli state) (client_switch env state is_con r)
unfolding client_switch client_is_over
switch_final env cli state is_con (done c) f h w =
    over (client_inform env (record c { state = state }))
      (inform_final-Told env (record c { state = state }) f)
  where
    over :
        (r : Run Client)
        → Gives (Told (record c { state = state })) r
        → Gives (IsOver cli state) (
            and_also r (λ d.
              if client_state_is_final state || (is_wait_nfy state && c.observe.cancel)
              then done (client_dispose is_con d)
              else done d))
    over (done d) v = rw f (record {
      entered = (dispose-called is_con d).0 ∙ v.state;
      disposed = dispose-IsDisposed is_con d (λ q. ap (λ t. t.evti) (v.coap ∙ w.coap) ∙ h q);
      told =
          (dispose-called is_con d).1
          ∙ (v.called
              ∙ told_as state (is_told c) (is_told cli) c.called cli.called
                  (both c.observe.cancel cli.observe.cancel c.cb cli.cb w.cancel w.cb) w.called);
    })
    over (failed _) v = elim v [ ]
    over ended v = elim v [ ]
switch_final env cli state is_con (failed _) f h w = elim w [ ]
switch_final env cli state is_con ended f h w = elim w [ ]

-- A client that enters a final state is over, from whatever state that is allowed and whatever the
-- network carries, as long as only a confirmable request has a retransmission timer: no timer is
-- attached, the responses are gone, the memory is given back unless the user owns it, and the user was
-- told of the state once where there is a callback, unless the observation was canceled.
pub client_set_state_final :
    (env : CliEnv) (cli : Client) (state : CliState)
    → client_check_transition cli.state state ≡ true
    → client_state_is_final state ≡ true
    → (flow_is_con cli ≡ false → cli.coap.evti ≡ false)
    → Gives (IsOver cli state) (client_set_state env cli state)
unfolding client_set_state client_set_state_from
client_set_state_final env cli state c f h = rw c (
    switch_final env cli state (flow_is_con cli)
      (client_enter env state cli.state (flow_is_con cli) cli) f h
      (enter_final-Same env state cli.state (flow_is_con cli) cli f))
