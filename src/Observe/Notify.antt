-- ===== src/Observe/Notify.antt =====
-- The notifications of an observation: ec_ob_cb (evcoap_observe.c).
use webthings.Common.{
  ℕ, ◌≡◌, refl, List, [], ◌∷◌, Bytes, Option, none, some, Bool, true, false, not, ◌==◌, ◌&&◌,
  if◌then◌else◌, length, Result, ok, err, fault, ◌>>=◌, Run, done, failed, ended, Bool-cases, ◌⊎◌,
  inl, inr, arith,
}
use webthings.Opt.{Sym, OptType, Opts, opts_init, sym2type}
use webthings.Opt.Pool.{opts_add_raw}
use webthings.Opt.Uint.{encode_uint}
use webthings.Opt.Reads.{InBounds, >>=-InBounds, opts_add_raw-InBounds, opts_add_token-InBounds}
use webthings.Pdu.Reads.{encode_response_separate-InBounds}
use webthings.Srv.Unchanged.{encoded_separate-InBounds}
use webthings.Opt.Add.{type_is, opts_add_uint, opts_add_token, opts_add_observe}
use webthings.Pdu.{HostOrder, encode_response_separate}
use webthings.Srv.{OutPdu}
use webthings.Srv.Send.{pdu_new_empty, encoded_separate}
use webthings.Observe.{Observer, Observation}

-- What the callback gets from outside: the build, the byte order, the random MID of each notification,
-- what an uninitialized MID and the uninitialized `drained` hold, whether ec_net_send of a PDU and
-- evtimer_add succeed, and the representation that the user produces for an observer (`none` for NULL).
pub record NotifyEnv : Type 0 where
  pub le : Bool
  pub host : HostOrder
  pub random : Observer → ℕ
  pub uninitialized : ℕ
  pub drained : Bool
  pub net_send : OutPdu → Bool
  pub add_ok : Bool
  pub reps_cb : Bytes → Observer → Option Bytes

-- The options of a notification.
unfoldable pub notify_opts : NotifyEnv → ℕ → Observer → Result Opts Opts
unfolding opts_add_token opts_add_observe
notify_opts env o_cnt ovr =
    (if length ovr.token == 0
      then ok opts_init
      else opts_add_token opts_init (some ovr.token) (length ovr.token))
    >>= λ opts. opts_add_observe env.le opts o_cnt

-- The payload and the code: 2.05 with a representation, 2.02 without.
abbrev pub nfy_payload : Option Bytes → Bytes
nfy_payload none = []
nfy_payload (some b) = b

abbrev pub nfy_code : Option Bytes → ℕ
nfy_code none = 66
nfy_code (some b) = 69

-- The PDU of a notification, which is always NON.
unfoldable pub notify_pdu : NotifyEnv → ℕ → Observer → Option Bytes → Result OutPdu OutPdu
unfolding notify_opts
notify_pdu env o_cnt ovr p = elim (notify_opts env o_cnt ovr) [
  | ok opts ↦
      let nfy = record pdu_new_empty { opts = opts; payload = nfy_payload p } in
      encoded_separate nfy (
        encode_response_separate env.host opts [] (nfy_code p) 2 0 (env.random ovr)
          env.uninitialized)
  | err opts ↦ err (record pdu_new_empty { opts = opts })
  | fault ↦ fault
]

added-InBounds :
    (env : NotifyEnv) (opts : Opts) (o_cnt : ℕ) → InBounds (opts_add_observe env.le opts o_cnt)
unfolding opts_add_observe opts_add_uint
added-InBounds env opts o_cnt = elim (Bool-cases (type_is (sym2type Sym.observe) OptType.uint)) [
  | inl e ↦ rw e (coded (encode_uint env.le 8 o_cnt))
  | inr e ↦ rw e (λ q. cc)
]
  where
    coded :
        (e : Option Bytes)
        → InBounds
            (elim e [ none ↦ err opts | some v ↦ opts_add_raw opts Sym.observe v (length v) ])
    coded none = λ q. cc
    coded (some v) = opts_add_raw-InBounds opts Sym.observe v (length v) (omega arith)

notify_opts-InBounds :
    (env : NotifyEnv) (o_cnt : ℕ) (ovr : Observer) → InBounds (notify_opts env o_cnt ovr)
unfolding notify_opts
notify_opts-InBounds env o_cnt ovr =
    >>=-InBounds _ (λ opts. opts_add_observe env.le opts o_cnt)
      (token_first (length ovr.token == 0)) (λ opts. added-InBounds env opts o_cnt)
  where
    token_first :
        (b : Bool)
        → InBounds (
            if b
            then ok opts_init
            else opts_add_token opts_init (some ovr.token) (length ovr.token))
    token_first true = λ q. cc
    token_first false = opts_add_token-InBounds opts_init ovr.token

elim-InBounds :
    (r : Result Opts Opts) (k : Opts → Result OutPdu OutPdu) (g : Opts → OutPdu)
    → InBounds r
    → ((o : Opts) → InBounds (k o))
    → InBounds (elim r [ ok opts ↦ k opts | err opts ↦ err (g opts) | fault ↦ fault ])
elim-InBounds (ok o) k g h c = c o
elim-InBounds (err o) k g h c = λ q. cc
elim-InBounds fault k g h c = absurd (h refl)

-- A notification is encoded within the buffers.
pub notify_pdu-InBounds :
    (env : NotifyEnv) (o_cnt : ℕ) (ovr : Observer) (p : Option Bytes)
    → InBounds (notify_pdu env o_cnt ovr p)
unfolding notify_pdu
notify_pdu-InBounds env o_cnt ovr p =
    elim-InBounds (notify_opts env o_cnt ovr) _ _ (notify_opts-InBounds env o_cnt ovr) (λ o.
      encoded_separate-InBounds (record pdu_new_empty { opts = o; payload = nfy_payload p }) _
        (encode_response_separate-InBounds env.host o [] (nfy_code p) 2 0 (env.random ovr)
          env.uninitialized))

-- An observer that was notified, in front of what became of the others.
abbrev pub in_round :
    Observer → OutPdu → Run (List Observer × List OutPdu) → Run (List Observer × List OutPdu)
in_round ovr nfy (done (ovrs, sent)) = done (ovr ∷ ovrs, nfy ∷ sent)
in_round ovr nfy (failed (ovrs, sent)) = failed (ovr ∷ ovrs, nfy ∷ sent)
in_round ovr nfy ended = ended

-- One round of the loop, with what the rounds behind it do. Where there is no representation the
-- observer is freed, and TAILQ_FOREACH reads it.
unfoldable pub notify_one :
    NotifyEnv
    → Observer
    → List Observer
    → Option Bytes
    → Result OutPdu OutPdu
    → Run (List Observer × List OutPdu)
    → Run (List Observer × List OutPdu)
notify_one env ovr ovrs p (ok nfy) rest =
    if env.net_send nfy
    then (elim p [ none ↦ ended | some _ ↦ in_round (record ovr { last_mid = nfy.mid }) nfy rest ])
    else failed (ovr ∷ ovrs, [])
notify_one env ovr ovrs p (err _) rest = failed (ovr ∷ ovrs, [])
notify_one env ovr ovrs p fault rest = ended

-- The loop of ec_ob_cb: the observers, and what was sent.
unfoldable pub notify_loop :
    NotifyEnv → Bytes → ℕ → List Observer → Run (List Observer × List OutPdu)
unfolding notify_one notify_pdu
notify_loop env uri o_cnt [] = done ([], [])
notify_loop env uri o_cnt (ovr ∷ ovrs) =
    let p = env.reps_cb uri ovr in
    notify_one env ovr ovrs p (notify_pdu env o_cnt ovr p) (notify_loop env uri o_cnt ovrs)

-- The end of ec_ob_cb: the countdown is armed again behind a loop that came to its end.
unfoldable pub rearmed :
    NotifyEnv → Observation → Run (List Observer × List OutPdu) → Run (Observation × List OutPdu)
rearmed env obs (done (ovrs, sent)) =
    done (record obs { observers = ovrs; armed = not env.drained && env.add_ok }, sent)
rearmed env obs (failed (ovrs, sent)) =
    failed (record obs { observers = ovrs; armed = false }, sent)
rearmed env obs ended = ended

-- ec_ob_cb, with what ec_get_observe_counter gives.
unfoldable pub ob_cb : NotifyEnv → Observation → Option ℕ → Run (Observation × List OutPdu)
unfolding notify_loop rearmed
ob_cb env obs none = failed (record obs { armed = false }, [])
ob_cb env obs (some o_cnt) = rearmed env obs (notify_loop env obs.uri o_cnt obs.observers)

-- What a round that does not fail makes of the rounds behind it.
pub record IsRound (env : NotifyEnv) (ovr : Observer) (p : Option Bytes) (r : Result OutPdu OutPdu)
    (rest : Run (List Observer × List OutPdu)) (ovrs : List Observer) (sent : List OutPdu)
    : Type 0 where
  pub next : Observer
  pub nfy : OutPdu
  pub others : List Observer
  pub behind : List OutPdu
  pub went : rest ≡ done (others, behind)
  pub observers : ovrs ≡ next ∷ others
  pub pdus : sent ≡ nfy ∷ behind
  pub round :
      (os : List Observer) (rest' : Run (List Observer × List OutPdu))
      → notify_one env ovr os p r rest' ≡ in_round next nfy rest'

-- The notification of an observer is not encoded, or is not sent.
unfoldable pub IsUnsent : NotifyEnv → Bytes → ℕ → Observer → Type 0
IsUnsent env uri o_cnt ovr =
    ((pdu : OutPdu) × (notify_pdu env o_cnt ovr (env.reps_cb uri ovr) ≡ err pdu))
    ⊎ ((pdu : OutPdu) × (notify_pdu env o_cnt ovr (env.reps_cb uri ovr) ≡ ok pdu)
        × (env.net_send pdu ≡ false))
