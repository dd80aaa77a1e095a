-- ===== src/Cli/Sending/Addresses.antt =====
-- The loop of ec_client_dns_cb over the addresses (evcoap_cli.c).
use webthings.Common.{
  ◌==◌, ◌||◌, ◌≡◌, ◌⊎◌, inl, inr, refl, ℕ, List, [], ◌∷◌, ◌++◌, Bool, true, false, none, some,
  Bool-cases, Option-cases, take, drop, if◌then◌else◌, Run, done, failed, ended,
}
use webthings.Observe.{SockAddrs, net_socklen}
use webthings.Srv.{OutPdu}
use webthings.Cli.{CliState, Client}
use webthings.Cli.Drive.{flow_is_con, client_set_state}
use webthings.Cli.Told.{Gives}
use webthings.Cli.Start.{
  Address, Dial, DialEnv, pdu_set_peer, with_client, dial_state, with_sent, try_addresses,
}
use webthings.Cli.Sending.{started, IsWaiting, IsReady, waits_from}

-- The request went out on the socket `sd`.
pub record IsSent (cli : Client) (sd : ℕ) (e : Dial) : Type 0 where
  pub state : e.cli.state ≡ CliState.req_sent
  pub sent : e.cli.sent ≡ cli.req ∷ cli.sent
  pub app : e.cli.app.pending ≡ true
  pub coap : e.cli.coap ≡ (if flow_is_con cli then started cli.coap else cli.coap)
  pub socket : e.socket ≡ some sd

-- A run that comes back, to a connection of which `P` holds.
abbrev pub Arrives : (Dial → Type 0) → Run Dial → Type 0
Arrives P (done d) = P d
Arrives P _ = ⊥

in_dial :
    (d : Dial) (sd : ℕ) (r : Run Client)
    → d.socket ≡ some sd
    → Gives (IsWaiting (with_sent d).cli) r
    → Arrives (IsSent d.cli sd) (with_client (with_sent d) r)
unfolding flow_is_con
in_dial d sd (done c) e w = record {
  state = w.state;
  sent = w.sent;
  app = w.app;
  coap = w.coap;
  socket = e;
}
in_dial d sd (failed _) e w = elim w [ ]
in_dial d sd ended e w = elim w [ ]

sends :
    (env : DialEnv) (d : Dial) (sd : ℕ)
    → d.cli.state ≡ CliState.dns_ok
    → IsReady env.client d.cli
    → d.socket ≡ some sd
    → Arrives (IsSent d.cli sd) (dial_state env (with_sent d) CliState.req_sent)
unfolding client_set_state
sends env d sd e w s = in_dial d sd _ s (
    waits_from env.client d.cli.state (with_sent d).cli e
      (record { new_ok = w.new_ok; add_ok = w.add_ok; app = w.app; coap = w.coap }))

-- The families that ec_net_socklen knows.
abbrev pub is_ip : SockAddrs → ℕ → Bool
is_ip sys family = family == sys.af_inet || family == sys.af_inet6

-- An address without a socket, or an IP address that the request does not reach.
abbrev pub IsSkipped : SockAddrs → OutPdu → Address → Type 0
IsSkipped sys req ai =
    (ai.socket ≡ none) ⊎ ((is_ip sys ai.family ≡ true) × (ai.reached req ≡ false))

abbrev pub AllSkipped : SockAddrs → OutPdu → List Address → Type 0
AllSkipped sys req [] = Unit
AllSkipped sys req (ai ∷ rest) = IsSkipped sys req ai × AllSkipped sys req rest

-- An IP address that the request reaches, over the socket `sd`.
pub record IsWorking (sys : SockAddrs) (req : OutPdu) (sd : ℕ) (ai : Address) : Type 0 where
  pub is_ip : is_ip sys ai.family ≡ true
  pub socket : ai.socket ≡ some sd
  pub reached : ai.reached req ≡ true
  pub nonblocking : ai.nonblocking ≡ true

socklen_known :
    (sys : SockAddrs) (family : ℕ)
    → is_ip sys family ≡ true
    → (n : ℕ) × (net_socklen sys family ≡ some n)
unfolding net_socklen
socklen_known sys family e = elim (Bool-cases (family == sys.af_inet)) [
  | inl i ↦ (sys.inet_sz, rw i refl)
  | inr i ↦ (sys.inet6_sz, rw (i, or_right (family == sys.af_inet) _ i e) refl)
]
  where
    or_right : (a b : Bool) → a ≡ false → a || b ≡ true → b ≡ true
    or_right false b q h = h
    or_right true b q h = cc

-- The peer of an IP address is copied, the client and the socket are left.
peer_set :
    (env : DialEnv) (d : Dial) (ai : Address)
    → is_ip env.sys ai.family ≡ true
    → (e : Dial) × (pdu_set_peer env d ai ≡ some e) × (e.cli ≡ d.cli) × (e.socket ≡ d.socket)
unfolding pdu_set_peer
peer_set env d ai known =
    let (n, e) = socklen_known env.sys ai.family known in
    elim (Bool-cases d.cli.is_multicast) [
      | inl m ↦ (
        record d { pdu_peer = take n ai.ai_addr ++ drop n d.pdu_peer },
        rw (e, m, pdu_set_peer) refl,
        refl,
        refl,
      )
      | inr m ↦ (
        record d { peer = take n ai.ai_addr ++ drop n d.peer },
        rw (e, m, pdu_set_peer) refl,
        refl,
        refl,
      )
    ]

-- The first address works.
used :
    (env : DialEnv) (d e : Dial) (ai : Address) (rest : List Address) (sd : ℕ)
    → d.cli.state ≡ CliState.dns_ok
    → IsReady env.client d.cli
    → IsWorking env.sys d.cli.req sd ai
    → pdu_set_peer env (record d { socket = some sd }) ai ≡ some e
    → e.cli ≡ d.cli
    → e.socket ≡ some sd
    → Arrives (IsSent d.cli sd) (try_addresses env d (ai ∷ rest))
unfolding try_addresses
used env d e ai rest sd q w works p c s =
    let hit : ai.reached e.cli.req ≡ true = rw c works.reached in
    rw (works.socket, p, hit, works.nonblocking, ← c) (sends env e sd (rw c q) (rw c w) s)

-- The first address is not reached, and the others are tried.
missed :
    (env : DialEnv) (d e : Dial) (ai : Address) (rest : List Address) (k sd : ℕ)
    → ai.socket ≡ some k
    → pdu_set_peer env (record d { socket = some k }) ai ≡ some e
    → e.cli ≡ d.cli
    → ai.reached d.cli.req ≡ false
    → Arrives
        (IsSent e.cli sd)
        (try_addresses env (record e { socket = none; closed = k ∷ e.closed }) rest)
    → Arrives (IsSent d.cli sd) (try_addresses env d (ai ∷ rest))
unfolding try_addresses
missed env d e ai rest k sd s p c h t =
    let miss : ai.reached e.cli.req ≡ false = rw c h in rw (s, p, miss, ← c) t

-- The addresses in front of a working one are passed over, and that one is used.
pub try_addresses-IsSent :
    (env : DialEnv) (d : Dial) (before : List Address) (ai : Address) (rest : List Address) (sd : ℕ)
    → d.cli.state ≡ CliState.dns_ok
    → IsReady env.client d.cli
    → AllSkipped env.sys d.cli.req before
    → IsWorking env.sys d.cli.req sd ai
    → Arrives (IsSent d.cli sd) (try_addresses env d (before ++ ai ∷ rest))
unfolding try_addresses
try_addresses-IsSent env d [] ai rest sd q w skipped works =
    let (e, p, c, s) = peer_set env (record d { socket = some sd }) ai works.is_ip in
    used env d e ai rest sd q w works p c s
try_addresses-IsSent env d (x ∷ before) ai rest sd q w (inl none_there, others) works =
    rw none_there
      (try_addresses-IsSent env (record d { socket = none }) before ai rest sd q w others works)
try_addresses-IsSent env d (x ∷ before) ai rest sd q w (inr (known, miss), others) works =
    elim (Option-cases x.socket) [
      | inl n ↦
          rw n (
            try_addresses-IsSent env (record d { socket = none }) before ai rest sd q w others
              works)
      | inr (k, n) ↦
          let (e, p, c, s) = peer_set env (record d { socket = some k }) x known in
          missed env d e x (before ++ ai ∷ rest) k sd n p c miss (
            try_addresses-IsSent env (record e { socket = none; closed = k ∷ e.closed }) before ai
              rest sd (rw c q) (rw c w) (rw c others) (rw c works))
    ]
