-- ===== src/Srv/Stepped.antt =====
-- The steps of the listed transactions keep them in order (evcoap_srv.c).
use webthings.Common.{
  ℕ, zero, suc, ◌≡◌, inl, inr, refl, Bytes, List, [], ◌∷◌, ◌++◌, All, Option, none, some, Bool,
  true, false, not, ◌==◌, ◌||◌, if◌then◌else◌, Result, ok, err, fault, Run, done, failed, ended,
  Bool-cases, arith,
}
use webthings.Opt.{Opts}
use webthings.Opt.Reads.{InBounds}
use webthings.Pdu.{Hdr}
use webthings.Srv.{Server}
use webthings.Srv.Send.{Env}
use webthings.Srv.Unchanged.{Ends}
use webthings.Srv.States.{IsServer}
use webthings.Srv.Kept.{server_abort-IsServer, server_handle_empty-IsServer}
use webthings.Srv.Lookup.{servers_lookup}
use webthings.Observe.{Peer, SockAddrs}
use webthings.Observe.Cancel.{AreObserved}
use webthings.Srv.Input.{
  Base, read_body, with_rest, in_front, on_server, with_servers, with_new, bad_control,
  control_message, handle_control,
}

-- The transactions of the list are in progress and in order.
abbrev pub AreServers : List Server → Type 0
AreServers srvs = All (λ s. IsServer s × (s.freed ≡ false)) srvs

-- What holds of the base between two messages.
pub record IsBase (base : Base) : Type 0 where
  pub servers : AreServers base.servers
  pub observing : AreObserved base.observing

-- A step that does not end the process.
abbrev pub Leaves : {S : Type 0} → (S → Type 0) → Run S → Type 0
Leaves P (done s) = P s
Leaves P (failed s) = P s
Leaves P ended = ⊥

unless-AreServers :
    (srvs : List Server) (s : Server) (freed : Bool)
    → s.freed ≡ freed
    → AreServers srvs
    → IsServer s
    → AreServers (if freed then srvs else s ∷ srvs)
unless-AreServers srvs s true e w v = w
unless-AreServers srvs s false e w v = ((v, e), w)

rest-AreServers :
    (srvs : List Server) (r : Run Server)
    → AreServers srvs
    → Ends IsServer r
    → Leaves AreServers (with_rest srvs r)
rest-AreServers srvs (done s) w v = unless-AreServers srvs s s.freed refl w v
rest-AreServers srvs (failed s) w v = unless-AreServers srvs s s.freed refl w v
rest-AreServers srvs ended w v = v

front-AreServers :
    (srv : Server) (r : Run (List Server))
    → IsServer srv × (srv.freed ≡ false)
    → Leaves AreServers r
    → Leaves AreServers (in_front srv r)
front-AreServers srv (done _) v w = (v, w)
front-AreServers srv (failed _) v w = (v, w)
front-AreServers srv ended v w = w

on_server-AreServers :
    (f : Server → Run Server) (srvs : List Server) (i : ℕ)
    → ((s : Server) → IsServer s → s.freed ≡ false → Ends IsServer (f s))
    → AreServers srvs
    → Leaves AreServers (on_server f srvs i)
unfolding on_server
on_server-AreServers f [] i k w = tt
on_server-AreServers f (srv ∷ srvs) zero k ((v, e), w) = rest-AreServers srvs (f srv) w (k srv v e)
on_server-AreServers f (srv ∷ srvs) (suc i) k (v, w) =
    front-AreServers srv (on_server f srvs i) v (on_server-AreServers f srvs i k w)

with_servers-IsBase :
    (base : Base) (r : Run (List Server))
    → IsBase base
    → Leaves AreServers r
    → Leaves IsBase (with_servers base r)
with_servers-IsBase base (done _) v w = record { servers = w; observing = v.observing }
with_servers-IsBase base (failed _) v w = record { servers = w; observing = v.observing }
with_servers-IsBase base ended v w = w

append-AreServers :
    (srvs : List Server) (s : Server)
    → AreServers srvs
    → IsServer s
    → s.freed ≡ false
    → AreServers (srvs ++ (s ∷ []))
append-AreServers [] s w v e = ((v, e), tt)
append-AreServers (srv ∷ srvs) s (u, w) v e = (u, append-AreServers srvs s w v e)

kept-IsBase :
    (base : Base) (s : Server) (listed : Bool)
    → IsBase base
    → IsServer s
    → IsBase
        (if s.freed || not listed then base else record base { servers = base.servers ++ (s ∷ []) })
kept-IsBase base s listed v u = elim (Bool-cases (s.freed || not listed)) [
  | inl e ↦ rw e v
  | inr e ↦ rw e (record {
    servers = append-AreServers base.servers s v.servers u (ground (arith, e));
    observing = v.observing;
  })
]

pub with_new-IsBase :
    (base : Base) (r : Run Server) → IsBase base → Ends IsServer r → Leaves IsBase (with_new base r)
with_new-IsBase base (done s) v u = kept-IsBase base s s.listed v u
with_new-IsBase base (failed s) v u = kept-IsBase base s s.listed v u
with_new-IsBase base ended v u = u

bad_control-IsServer :
    (env : Env) (srv : Server) (r : Result ℕ (Opts × Bytes))
    → InBounds r
    → IsServer srv
    → Ends IsServer (bad_control env srv r)
unfolding bad_control
bad_control-IsServer env srv (ok _) h v = server_abort-IsServer env srv 0 v
bad_control-IsServer env srv (err rc) h v = server_abort-IsServer env srv rc v
bad_control-IsServer env srv fault h v = absurd (h refl)

control_message-IsServer :
    (env : Env) (raw : Bytes) (h : Hdr) (srv : Server)
    → InBounds (read_body raw h)
    → IsServer srv
    → Ends IsServer (control_message env raw h srv)
unfolding control_message
control_message-IsServer env raw h srv b v = elim (Bool-cases (h.t == 2 || h.t == 3)) [
  | inl e ↦ rw e (server_handle_empty-IsServer env srv h.t v)
  | inr e ↦ rw e (bad_control-IsServer env srv (read_body raw h) b v)
]

at_position-IsBase :
    (env : Env) (base : Base) (raw : Bytes) (h : Hdr) (i : Option ℕ)
    → InBounds (read_body raw h)
    → IsBase base
    → Leaves IsBase (elim i [
      | none ↦ failed base
      | some i ↦ with_servers base (on_server (control_message env raw h) base.servers i)
    ])
at_position-IsBase env base raw h none b v = v
at_position-IsBase env base raw h (some i) b v =
    with_servers-IsBase base (on_server (control_message env raw h) base.servers i) v (
      on_server-AreServers (control_message env raw h) base.servers i
        (λ s u e. control_message-IsServer env raw h s b u) v.servers)

pub handle_control-IsBase :
    (sys : SockAddrs) (env : Env) (base : Base) (raw : Bytes) (h : Hdr) (sd : ℕ) (peer : Peer)
    → InBounds (read_body raw h)
    → IsBase base
    → Leaves IsBase (handle_control sys env base raw h sd peer)
unfolding handle_control
handle_control-IsBase sys env base raw h sd peer b v =
    at_position-IsBase env base raw h (servers_lookup sys base.servers h.mid sd peer) b v
