-- ===== src/Filesys/WellKnown.antt =====
-- The answer to a GET of /.well-known/core, ec_filesys_well_known_core of evcoap_filesys.c: the links of
-- the resources, with commas between them.
use mathlib.Core.Option
use mathlib.Core.List.{append_assoc, append-nil}
use webthings.Common.{
  ℕ, ◌+◌, ◌≤◌, ◌<◌, ◌≡◌, refl, sym, ap, ◌∙◌, subst, Bytes, List, [], ◌∷◌, ◌++◌, Option, none, some,
  Bool, false, length, ltb, ◌==◌, if◌then◌else◌, arith, length-append, bind-eq-some, Bool-cases,
  Option-cases, lt→ltb, le→ltb, inl, inr,
}
use webthings.Resource.{Rep, Res}
use webthings.Resource.Link.{Text, link_fmt_max, cat, link_parts, link_of, res_link_format_str}
use webthings.Filesys.{Filesys, wkc_max, append_link, build_wkc, filesys_well_known_core}

-- What is documented of libu's u_strlcat: it appends where the result and a NUL fit the buffer.
pub record IsStrlcat (text : Text) : Type 0 where
  pub appends :
      (d s : Bytes) (n : ℕ)
      → text.strlcat d s n ≡ (if ltb (length d + length s) n then some (d ++ s) else none)

abbrev concat : List Bytes → Bytes
concat [] = []
concat (p ∷ ps) = p ++ concat ps

map-eq-some :
    {A B : Type 0} (o : Option A) (f : A → B) (b : B)
    → Option.map f o ≡ some b
    → (a : A) × (o ≡ some a) × (f a ≡ b)
map-eq-some none f b h = cc
map-eq-some (some a) f b h = (a, refl, ground arith)

some_room : 0 < link_fmt_max
some_room = omega arith

if_fits :
    (t l : Bytes) (n : ℕ)
    → (if ltb (length t) n then some t else none) ≡ some l
    → (t ≡ l) × (length t < n)
if_fits t l n h = (ground arith, ground arith)

chosen : (b : Bool) (o : Option Bytes) (l : Bytes) → (if b then o else none) ≡ some l → o ≡ some l
chosen b o l h = ground arith

module _ (text : Text) (lawful : IsStrlcat text) where
  cat-concat :
      (n : ℕ) (s : Bytes) (ps : List Bytes)
      → length s < n
      → cat text n s ps ≡ (if ltb (length (s ++ concat ps)) n then some (s ++ concat ps) else none)
  unfolding cat
  cat-concat n s [] h = rw (append-nil s, lt→ltb (length s) n h, cat)
  cat-concat n s (p ∷ ps) h = elim (Bool-cases (ltb (length s + length p) n)) [
    | inl e ↦
        rw (cat, lawful.appends s p n, e)
          (subst (λ t. cat text n (s ++ p) ps ≡ (if ltb (length t) n then some t else none))
            (append_assoc s p (concat ps))
            (cat-concat n (s ++ p) ps (ground (arith, length-append s p))))
    | inr e ↦ rw (
      cat,
      lawful.appends s p n,
      e,
      le→ltb (length (s ++ (p ++ concat ps))) n
          (ground (arith, length-append s (p ++ concat ps), length-append p (concat ps))),
    )
  ]

  cat_bounds :
      (n : ℕ) (b : ℕ) (rest : List Bytes) (l : Bytes)
      → 0 < n
      → cat text n [] ((b ∷ []) ∷ rest) ≡ some l
      → (1 ≤ length l) × (length l < n)
  cat_bounds n b rest l h e =
      let (q, short) =
        if_fits (b ∷ concat rest) l n (sym (cat-concat n [] ((b ∷ []) ∷ rest) h) ∙ e) in
      subst (λ t. (1 ≤ length t) × (length t < n)) q (omega arith, short)

  link_parts-head :
      (res : Res) (rep : Rep) (uri_ref iface res_type : Bytes) (parts : List Bytes)
      → link_parts text res rep uri_ref iface res_type ≡ some parts
      → (rest : List Bytes) × (parts ≡ (b'<' ∷ []) ∷ rest)
  unfolding link_parts
  link_parts-head res rep uri_ref iface res_type parts h =
      let (sz, e, f) = bind-eq-some _ _ parts h in
      let (ct, _, g) = map-eq-some _ _ parts f in (_, sym g)

  -- A link is not empty, and fits its buffer.
  link_of-size :
      (res : Res) (reps : List Rep) (query : Option Bytes) (uri_ref iface res_type l : Bytes)
      → link_of text res reps query uri_ref iface res_type ≡ some l
      → (1 ≤ length l) × (length l < link_fmt_max)
  unfolding link_of
  link_of-size res [] query uri_ref iface res_type l h = cc
  link_of-size res (rep ∷ reps) query uri_ref iface res_type l h =
      let (parts, e, f) =
        bind-eq-some (link_parts text res rep uri_ref iface res_type) (cat text link_fmt_max []) l
          (chosen _ _ l h) in
      let (rest, g) = link_parts-head res rep uri_ref iface res_type parts e in
      cat_bounds link_fmt_max b'<' rest l some_room
        (subst (λ p. cat text link_fmt_max [] p ≡ some l) g f)

  res_link_format_str-size :
      (res : Res) (origin : Bytes) (query : Option Bytes) (rel : Bool) (l : Bytes)
      → res_link_format_str text res origin query rel ≡ some l
      → (1 ≤ length l) × (length l < link_fmt_max)
  unfolding res_link_format_str
  res_link_format_str-size res origin query rel l h =
      let (uri_ref, _, f) = bind-eq-some _ _ l (chosen _ _ l h) in
      let (iface, _, g) = bind-eq-some _ _ l f in
      let (res_type, _, k) = bind-eq-some _ _ l g in
      link_of-size res res.reps query uri_ref iface res_type l k

-- The links of the resources that have one and match the query.
unfoldable pub links : Text → Bytes → Option Bytes → Bool → List Res → List Bytes
links text origin query rel [] = []
links text origin query rel (res ∷ rest) = elim (res_link_format_str text res origin query rel) [
  | none ↦ links text origin query rel rest
  | some l ↦ l ∷ links text origin query rel rest
]

-- Byte strings with commas between them.
abbrev behind_commas : List Bytes → Bytes
behind_commas [] = []
behind_commas (l ∷ ls) = b',' ∷ (l ++ behind_commas ls)

abbrev pub commas : List Bytes → Bytes
commas [] = []
commas (l ∷ ls) = l ++ behind_commas ls

-- A string that fits EC_WKC_MAX with its NUL.
abbrev pub fitted : Bytes → Option Bytes
fitted t = if ltb (length t) wkc_max then some t else none

not_empty : (t : Bytes) → 1 ≤ length t → (length t == 0) ≡ false
not_empty t h = ground arith

fitted_long : (t u : Bytes) → wkc_max ≤ length t → fitted (t ++ u) ≡ none
fitted_long t u h = rw (le→ltb (length (t ++ u)) wkc_max (omega (arith, length-append t u)))

module _ (text : Text) (lawful : IsStrlcat text) {M : Type 0} (each : M → List Res) (origin : Bytes)
    (query : Option Bytes) (rel : Bool) where
  append_link-fitted :
      (wkc l : Bytes)
      → 1 ≤ length wkc
      → length wkc < wkc_max
      → append_link each text wkc (some l) ≡ fitted (wkc ++ (b',' ∷ l))
  unfolding append_link
  append_link-fitted wkc l h k =
      rw
        (not_empty wkc h, cat-concat text lawful wkc_max wkc ((b',' ∷ []) ∷ l ∷ []) k, append-nil l)

  build_wkc-links :
      (wkc : Bytes) (rs : List Res)
      → 1 ≤ length wkc
      → length wkc < wkc_max
      → build_wkc each text origin query rel wkc rs
        ≡ fitted (wkc ++ behind_commas (links text origin query rel rs))
  unfolding build_wkc links
  build_wkc-links wkc [] h k = rw (append-nil wkc, lt→ltb (length wkc) wkc_max k, build_wkc)
  build_wkc-links wkc (res ∷ rest) h k =
      elim (Option-cases (res_link_format_str text res origin query rel)) [
        | inl e ↦ rw (build_wkc, e, links) (build_wkc-links wkc rest h k)
        | inr (l, e) ↦
            let t = wkc ++ (b',' ∷ l) in
            let tail = behind_commas (links text origin query rel rest) in
            let long : 1 ≤ length t = omega (arith, length-append wkc (b',' ∷ l)) in
            rw (build_wkc, e, append_link-fitted wkc l h k, links)
              (elim (Bool-cases (ltb (length t) wkc_max)) [
                | inl f ↦ rw f (
                    build_wkc-links t rest long (ground arith)
                    ∙ ap fitted (append_assoc wkc (b',' ∷ l) tail))
                | inr f ↦ rw f (
                    sym (fitted_long t tail (ground arith))
                    ∙ ap fitted (append_assoc wkc (b',' ∷ l) tail))
              ])
      ]

  first_link :
      (rs : List Res)
      → build_wkc each text origin query rel [] rs
        ≡ fitted (commas (links text origin query rel rs))
  unfolding build_wkc links append_link
  first_link [] = refl
  first_link (res ∷ rest) = elim (Option-cases (res_link_format_str text res origin query rel)) [
    | inl e ↦ rw (build_wkc, e, links) (first_link rest)
    | inr (l, e) ↦
        let (long, short) = res_link_format_str-size text lawful res origin query rel l e in
        rw
          (
            build_wkc,
            e,
            links,
            cat-concat text lawful wkc_max [] (l ∷ []) (omega arith),
            append-nil l,
            lt→ltb (length l) wkc_max (omega arith),
          )
          (build_wkc-links l rest long (omega arith))
  ]

-- Where u_strlcat is libu's, ec_filesys_well_known_core returns the links of the resources of the file
-- system that match the origin and the query, in the order of the map and with a comma between each two,
-- and NULL exactly if these are 4096 bytes or more.
pub filesys_well_known_core_lem :
    (text : Text) (lawful : IsStrlcat text) {M : Type 0} (each : M → List Res) (fs : Filesys M)
    (origin : Bytes) (query : Option Bytes)
    → filesys_well_known_core each text fs origin query
      ≡ fitted (commas (links text origin query fs.rel_refs (each fs.map)))
unfolding filesys_well_known_core
filesys_well_known_core_lem text lawful each fs origin query =
    first_link text lawful each origin query fs.rel_refs (each fs.map)
