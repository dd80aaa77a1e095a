-- ===== src/Resource/Link.antt =====
-- The link format of a resource, ec_res_link_format_str with __q_match and the getters of the attributes
-- (evcoap_resource.c).
use webthings.Common.{
  ℕ, Bytes, List, [], ◌∷◌, ◌++◌, Option, none, some, Bool, true, false, length, take, drop, ◌==◌,
  ◌&&◌, not, if◌then◌else◌,
}
use mathlib.Core.Option
use webthings.Resource.{Rep, Res}

-- What is used of the C library and of libu: whether strcasecmp is 0, u_strtok at '&', u_strlcpy and
-- u_strlcat into a buffer of the given size, and u_snprintf of a number into one; `none` is a failure.
pub record Text : Type 0 where
  pub same : Bytes → Bytes → Bool
  pub strtok : Bytes → Option (List Bytes)
  pub strlcpy : Bytes → ℕ → Option Bytes
  pub strlcat : Bytes → Bytes → ℕ → Option Bytes
  pub snprintf : ℕ → ℕ → Option Bytes

-- EC_LINK_FMT_MAX.
abbrev pub link_fmt_max : ℕ
link_fmt_max = 1024

-- ec_res_attrs_get_obs and ec_res_attrs_get_exp.
unfoldable pub res_attrs_get_obs : Res → Bool
res_attrs_get_obs res = res.attrs.obs

unfoldable pub res_attrs_get_exp : Res → Bool
res_attrs_get_exp res = res.attrs.exp

-- The loop over the representations: whether all have this size, and whether all have this type.
unfoldable pub all_size : ℕ → List Rep → Bool
all_size sz [] = true
all_size sz (rep ∷ rest) = (length rep.bytes == sz) && all_size sz rest

unfoldable pub all_type : ℕ → List Rep → Bool
all_type mt [] = true
all_type mt (rep ∷ rest) = (rep.media_type == mt) && all_type mt rest

-- An attribute with its name and quotes, where it is not empty.
abbrev pub quoted : Bytes → Bytes → List Bytes
quoted name [] = []
quoted name (b ∷ value) = name ∷ (b ∷ value) ∷ (b'"' ∷ []) ∷ []

abbrev pub flag : Bool → Bytes → List Bytes
flag b name = if b then name ∷ [] else []

module _ (text : Text) where
  open text use {same, strtok, strlcpy, strlcat, snprintf}

  -- ec_res_attrs_get_if and ec_res_attrs_get_rt.
  unfoldable pub res_attrs_get_if : Res → Option Bytes
  res_attrs_get_if res = strlcpy res.attrs.interface 1024

  unfoldable pub res_attrs_get_rt : Res → Option Bytes
  res_attrs_get_rt res = strlcpy res.attrs.res_type 1024

  -- One parameter of the query in __q_match: false where it returns false.
  unfoldable pub parameter_matches : Bool → Bool → Bytes → Bytes → Bytes → Bool
  parameter_matches ex obs iface res_type tv =
      if same (take 3 tv) (b'i' ∷ b'f' ∷ b'=' ∷ []) && not (same iface (drop 3 tv))
      then false
      else (if same (take 3 tv) (b'r' ∷ b't' ∷ b'=' ∷ []) && not (same res_type (drop 3 tv))
          then false
          else (if same tv (b'o' ∷ b'b' ∷ b's' ∷ []) && not obs
              then false
              else (if same tv (b'e' ∷ b'x' ∷ b'p' ∷ []) && not ex then false else true)))

  unfoldable pub parameters_match : Bool → Bool → Bytes → Bytes → List Bytes → Bool
  unfolding parameter_matches
  parameters_match ex obs iface res_type [] = true
  parameters_match ex obs iface res_type (tv ∷ tvs) =
      parameter_matches ex obs iface res_type tv && parameters_match ex obs iface res_type tvs

  -- __q_match of a query.
  unfoldable pub q_match : Bytes → Bool → Bool → Bytes → Bytes → Bool
  unfolding parameters_match
  q_match query ex obs iface res_type = elim (strtok query) [
    | none ↦ false
    | some tvs ↦ parameters_match ex obs iface res_type tvs
  ]

  -- A query that is NULL or empty is passed by every resource.
  unfoldable pub passes : Option Bytes → Bool → Bool → Bytes → Bytes → Bool
  unfolding q_match
  passes none ex obs iface res_type = true
  passes (some query) ex obs iface res_type =
      if length query == 0 then true else q_match query ex obs iface res_type

  -- A run of u_strlcat into the string `s`.
  unfoldable pub cat : ℕ → Bytes → List Bytes → Option Bytes
  cat size s [] = some s
  cat size s (p ∷ ps) = elim (strlcat s p size) [ none ↦ none | some s' ↦ cat size s' ps ]

  -- A number with its name, where all representations share it.
  unfoldable pub numbered : Bool → Bytes → ℕ → ℕ → Option (List Bytes)
  numbered false name n size = some []
  numbered true name n size = Option.map (λ s. name ∷ s ∷ []) (snprintf n size)

  -- What ec_res_link_format_str puts behind each other, for a resource whose first representation is
  -- `rep`.
  unfoldable pub link_parts : Res → Rep → Bytes → Bytes → Bytes → Option (List Bytes)
  unfolding numbered res_attrs_get_obs res_attrs_get_exp all_size all_type
  link_parts res rep uri_ref iface res_type =
      Option.bind
        (numbered (all_size (length rep.bytes) res.reps) (b';' ∷ b's' ∷ b'z' ∷ b'=' ∷ [])
          (length rep.bytes) 16)
        (λ sz.
          Option.map
            (λ ct.
              (b'<' ∷ [])
              ∷ uri_ref
              ∷ (b'>' ∷ [])
              ∷ (quoted (b';' ∷ b'r' ∷ b't' ∷ b'=' ∷ b'"' ∷ []) res_type
                  ++ quoted (b';' ∷ b'i' ∷ b'f' ∷ b'=' ∷ b'"' ∷ []) iface
                  ++ sz
                  ++ ct
                  ++ flag (res_attrs_get_obs res) (b';' ∷ b'o' ∷ b'b' ∷ b's' ∷ [])
                  ++ flag (res_attrs_get_exp res) (b';' ∷ b'e' ∷ b'x' ∷ b'p' ∷ [])))
            (numbered (all_type rep.media_type res.reps) (b';' ∷ b'c' ∷ b't' ∷ b'=' ∷ [])
              rep.media_type 4))

  -- ec_res_link_format_str once the URI reference and the attributes are copied.
  unfoldable pub link_of : Res → List Rep → Option Bytes → Bytes → Bytes → Bytes → Option Bytes
  unfolding link_parts passes cat res_attrs_get_obs res_attrs_get_exp
  link_of res [] query uri_ref iface res_type = none
  link_of res (rep ∷ reps) query uri_ref iface res_type =
      if passes query (res_attrs_get_exp res) (res_attrs_get_obs res) iface res_type
      then Option.bind (link_parts res rep uri_ref iface res_type) (cat link_fmt_max [])
      else none

  -- ec_res_link_format_str into an empty string; `none` is NULL. strcasestr finds `origin` at the
  -- start of the URI if the URI begins with it, without regard to case.
  unfoldable pub res_link_format_str : Res → Bytes → Option Bytes → Bool → Option Bytes
  unfolding res_attrs_get_if res_attrs_get_rt link_of
  res_link_format_str res origin query relative_ref =
      if same (take (length origin) res.uri) origin
      then Option.bind
          (strlcpy (if relative_ref then drop (length origin) res.uri else res.uri) 512)
          (λ uri_ref. Option.bind (res_attrs_get_if res) (λ iface.
            Option.bind (res_attrs_get_rt res)
              (λ res_type. link_of res res.reps query uri_ref iface res_type)))
      else none
