-- ===== src/Srv/Unchanged.antt =====
-- What sending leaves alone in a server transaction, and that it ends no process (evcoap_srv.c).
use webthings.Common.{
  ℕ, ◌≡◌, inl, inr, refl, ◌∙◌, Bytes, List, [], ◌∷◌, Option, none, some, Bool, not, ◌&&◌, take,
  Result, ok, err, fault, Run, done, failed, ended, and_then, and_also, or_else, Bool-cases,
}
use webthings.Opt.Reads.{InBounds}
use webthings.Pdu.Reads.{
  encode_response_piggyback-InBounds, encode_response_ack-InBounds,
  encode_response_separate-InBounds,
}
use webthings.Enums.{is_resp_code}
use webthings.Flow.{Flow, flow_get_separate}
use webthings.Srv.{OutPdu, Server, is_req_ok, is_ack_sent}
use webthings.Srv.Drive.{as_error}
use webthings.Srv.Send.{
  Env, encoded, encoded_separate, encode_resp, send_encoded, send_with_sibling, send_res,
  server_send_resp, send_ack, send_ack_for, has_pdu, server_send_separate_ack, attach_payload,
  server_reply, conn_get_confirmable,
}

-- A step that does not end the process, and leaves a server of which `P` holds.
abbrev pub Ends : (Server → Type 0) → Run Server → Type 0
Ends P (done srv) = P srv
Ends P (failed srv) = P srv
Ends P ended = ⊥

-- What sending leaves alone.
pub record Alike (a b : Server) : Type 0 where
  pub state : b.state ≡ a.state
  pub coap : b.coap ≡ a.coap
  pub resched : b.resched ≡ a.resched
  pub freed : b.freed ≡ a.freed
  pub is_confirmable : b.is_confirmable ≡ a.is_confirmable

pub Alike-refl : (a : Server) → Alike a a
Alike-refl a = record {
  state = refl;
  coap = refl;
  resched = refl;
  freed = refl;
  is_confirmable = refl;
}

pub encoded-InBounds : (pdu : OutPdu) (r : Result _ _) → InBounds r → InBounds (encoded pdu r)
encoded-InBounds pdu (ok (hdr, opts)) h = λ q. cc
encoded-InBounds pdu (err opts) h = λ q. cc
encoded-InBounds pdu fault h = absurd (h refl)

pub encoded_separate-InBounds :
    (pdu : OutPdu) (r : Result _ _) → InBounds r → InBounds (encoded_separate pdu r)
encoded_separate-InBounds pdu (ok (mid, hdr, opts)) h = λ q. cc
encoded_separate-InBounds pdu (err opts) h = λ q. cc
encoded_separate-InBounds pdu fault h = absurd (h refl)

encode_resp-InBounds :
    (env : Env) (srv : Server) (res : OutPdu) (is_con : Bool)
    → InBounds (encode_resp env srv res is_con)
unfolding encode_resp
encode_resp-InBounds env srv res is_con =
    let token = take srv.flow.token_sz srv.flow.token in
    elim (Bool-cases (is_con && not (flow_get_separate srv.flow) && not (is_ack_sent srv.state))) [
      | inl e ↦ rw e (
          encoded-InBounds res _ (
            encode_response_piggyback-InBounds env.host res.opts token srv.flow.resp_code
              res.sibling))
      | inr e ↦ rw e (
          encoded_separate-InBounds res _ (
            encode_response_separate-InBounds env.host res.opts token srv.flow.resp_code
              srv.is_confirmable res.mid env.random env.uninitialized))
    ]

pub Alike-sends :
    (a srv : Server) (res octrl : Option OutPdu) (sent : List OutPdu) (flow : Flow)
    → Alike a srv
    → Alike a (record srv { res = res; octrl = octrl; sent = sent; flow = flow })
Alike-sends a srv res octrl sent flow w = record {
  state = w.state;
  coap = w.coap;
  resched = w.resched;
  freed = w.freed;
  is_confirmable = w.is_confirmable;
}

send_encoded-Alike :
    (env : Env) (a srv : Server) (r : Result OutPdu OutPdu)
    → Alike a srv
    → InBounds r
    → Ends (Alike a) (send_encoded env srv r)
unfolding send_encoded
send_encoded-Alike env a srv (ok res) w h = elim (Bool-cases (env.net_send res)) [
  | inl e ↦ rw e (Alike-sends a srv (some res) srv.octrl (res ∷ srv.sent) srv.flow w)
  | inr e ↦ rw e (Alike-sends a srv (some res) srv.octrl srv.sent srv.flow w)
]
send_encoded-Alike env a srv (err res) w h =
    Alike-sends a srv (some res) srv.octrl srv.sent srv.flow w
send_encoded-Alike env a srv fault w h = absurd (h refl)

send_confirmable-Alike :
    (env : Env) (a srv : Server) (res : OutPdu) (flag : Option Bool)
    → Alike a srv
    → Ends (Alike a) (elim flag [
      | none ↦ failed srv
      | some is_con ↦ send_encoded env srv (encode_resp env srv res is_con)
    ])
send_confirmable-Alike env a srv res none w = w
send_confirmable-Alike env a srv res (some is_con) w =
    send_encoded-Alike env a srv (encode_resp env srv res is_con) w
      (encode_resp-InBounds env srv res is_con)

send_with_sibling-Alike :
    (env : Env) (srv : Server) (res : Option OutPdu)
    → Ends (Alike srv) (send_with_sibling env srv res)
unfolding send_with_sibling
send_with_sibling-Alike env srv none = Alike-refl srv
send_with_sibling-Alike env srv (some res) =
    let w = Alike-sends srv srv (some res) srv.octrl srv.sent srv.flow (Alike-refl srv) in
    elim (Bool-cases (not (is_resp_code srv.flow.resp_code))) [
      | inl e ↦ rw e w
      | inr e ↦ rw e (
          send_confirmable-Alike env srv (record srv { res = some res }) res
            (conn_get_confirmable srv.is_confirmable) w)
    ]

send_res-Alike :
    (env : Env) (srv : Server) (res : Option OutPdu) → Ends (Alike srv) (send_res env srv res)
unfolding send_res
send_res-Alike env srv none = Alike-refl srv
send_res-Alike env srv (some res) = send_with_sibling-Alike env srv _

pub server_send_resp-Alike :
    (env : Env) (srv : Server) → Ends (Alike srv) (server_send_resp env srv)
unfolding server_send_resp
server_send_resp-Alike env srv = send_res-Alike env srv srv.res

send_ack-Alike :
    (env : Env) (srv : Server) (r : Result OutPdu OutPdu)
    → InBounds r
    → Ends (Alike srv) (send_ack env srv r)
unfolding send_ack
send_ack-Alike env srv (ok ack) h = elim (Bool-cases (env.net_send ack)) [
  | inl e ↦ rw e (Alike-sends srv srv srv.res (some ack) (ack ∷ srv.sent) srv.flow (Alike-refl srv))
  | inr e ↦ rw e (Alike-refl srv)
]
send_ack-Alike env srv (err _) h = Alike-refl srv
send_ack-Alike env srv fault h = absurd (h refl)

send_ack_for-Alike :
    (env : Env) (srv : Server) (ack : Option OutPdu) → Ends (Alike srv) (send_ack_for env srv ack)
unfolding send_ack_for
send_ack_for-Alike env srv none = Alike-refl srv
send_ack_for-Alike env srv (some ack) = send_ack-Alike env srv _ (
    encoded-InBounds ack _ (
      encode_response_ack-InBounds env.host ack.opts (take srv.flow.token_sz srv.flow.token)
        ack.sibling))

pub server_send_separate_ack-Alike :
    (env : Env) (srv : Server) → Ends (Alike srv) (server_send_separate_ack env srv)
unfolding server_send_separate_ack
server_send_separate_ack-Alike env srv = elim (Bool-cases (not (is_req_ok srv.state))) [
  | inl e ↦ rw e (Alike-refl srv)
  | inr e ↦ elim (Bool-cases (has_pdu srv.octrl)) [
    | inl f ↦ rw (e, f) (Alike-refl srv)
    | inr f ↦ rw (e, f) (send_ack_for-Alike env srv _)
  ]
]

pub Ends-mono :
    (P Q : Server → Type 0) (r : Run Server) → Ends P r → ((s : Server) → P s → Q s) → Ends Q r
Ends-mono P Q (done s) h k = k s h
Ends-mono P Q (failed s) h k = k s h
Ends-mono P Q ended h k = h

-- A step that does not end the process, followed by others.
pub Ends-and_then :
    (P Q : Server → Type 0) (r : Run Server) (f : Server → Run Server)
    → Ends P r
    → ((s : Server) → P s → Ends Q (f s))
    → ((s : Server) → P s → Q s)
    → Ends Q (and_then r f)
Ends-and_then P Q (done s) f h k l = k s h
Ends-and_then P Q (failed s) f h k l = l s h
Ends-and_then P Q ended f h k l = h

pub Ends-and_also :
    (P Q : Server → Type 0) (r : Run Server) (f : Server → Run Server)
    → Ends P r
    → ((s : Server) → P s → Ends Q (f s))
    → Ends Q (and_also r f)
Ends-and_also P Q (done s) f h k = k s h
Ends-and_also P Q (failed s) f h k = k s h
Ends-and_also P Q ended f h k = h

pub Ends-or_else :
    (P Q : Server → Type 0) (r : Run Server) (f : Server → Run Server)
    → Ends P r
    → ((s : Server) → P s → Ends Q (f s))
    → ((s : Server) → P s → r ≡ done s → Q s)
    → Ends Q (or_else r f)
Ends-or_else P Q (done s) f h k l = l s h refl
Ends-or_else P Q (failed s) f h k l = k s h
Ends-or_else P Q ended f h k l = h

pub Alike-trans : (a b c : Server) → Alike a b → Alike b c → Alike a c
Alike-trans a b c v w = record {
  state = w.state ∙ v.state;
  coap = w.coap ∙ v.coap;
  resched = w.resched ∙ v.resched;
  freed = w.freed ∙ v.freed;
  is_confirmable = w.is_confirmable ∙ v.is_confirmable;
}

attach_payload-Alike :
    (env : Env) (a srv : Server) (pl : Bytes) (res : Option OutPdu)
    → Alike a srv
    → Ends (Alike a) (attach_payload env srv pl res)
unfolding attach_payload
attach_payload-Alike env a srv [] res w = w
attach_payload-Alike env a srv (b ∷ pl) none w = w
attach_payload-Alike env a srv (b ∷ pl) (some res) w =
    Alike-sends a srv _ srv.octrl srv.sent srv.flow w

pub server_reply-Alike :
    (env : Env) (srv : Server) (rc : ℕ) (pl : Bytes) → Ends (Alike srv) (server_reply env srv rc pl)
unfolding server_reply
server_reply-Alike env srv rc pl = elim (Bool-cases (not (is_resp_code rc))) [
  | inl e ↦ rw e (Alike-refl srv)
  | inr e ↦
      let coded = record srv { flow = record srv.flow { resp_code = rc } } in
      rw e (
        Ends-and_then (Alike srv) (Alike srv) (attach_payload env coded pl srv.res)
          (server_send_resp env)
          (attach_payload-Alike env srv coded pl srv.res (
            Alike-sends srv srv srv.res srv.octrl srv.sent (record srv.flow { resp_code = rc })
              (Alike-refl srv)))
          (λ s w.
            Ends-mono (Alike s) (Alike srv) (server_send_resp env s) (server_send_resp-Alike env s)
              (λ t v. Alike-trans srv s t w v))
          (λ s w. w))
]

pub Ends-as_error : (P : Server → Type 0) (r : Run Server) → Ends P r → Ends P (as_error r)
Ends-as_error P (done s) h = h
Ends-as_error P (failed s) h = h
Ends-as_error P ended h = h
