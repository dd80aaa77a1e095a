-- ===== src/Kache/Objects.antt =====
-- Objects and representations of the cache, bridge/sw/lib/kache/src/kache_obj.c.
use webthings.Common.{
  ℕ, zero, suc, Bytes, List, [], ◌∷◌, ◌++◌, Option, none, some, true, false, ltb, ◌==◌, take,
  if◌then◌else◌, Result, ok, fault, ◌>>=◌,
}
use webthings.Kache.{Ptr, after_free, KacheRep, KacheObj, Kache, obj_at, rep_at, put_obj, put_rep}
use webthings.Kache.Content.{ContentType, same_type}

-- strlen of a buffer; `none` where no NUL stands in it, so that the read runs past its end.
unfoldable pub strlen : Bytes → Option ℕ
strlen [] = none
strlen (b ∷ rest) =
    let n = strlen rest in if b == 0 then some 0 else elim n [ none ↦ none | some k ↦ some (suc k) ]

-- A copy of `sz` bytes, and a NUL, into a buffer that strlen measured.
unfoldable pub copy_sized : Bytes → ℕ → Result (Unit {0}) Bytes
unfolding strlen
copy_sized s sz = elim (strlen s) [
  | none ↦ fault
  | some k ↦ if ltb k sz then fault else ok (take sz s)
]

-- kache_add_key_val.
unfoldable pub add_key_val : KacheRep → Bytes → ℕ → Bytes → ℕ → Result (Unit {0}) KacheRep
unfolding copy_sized
add_key_val rep key key_sz val val_sz = copy_sized key key_sz >>= λ k.
    copy_sized val val_sz >>= λ v. ok (record rep { keyvalq = rep.keyvalq ++ ((k, v) ∷ []) })

-- kache_add_key_val_no_sz.
unfoldable pub add_key_val_no_sz : KacheRep → Bytes → Bytes → Result (Unit {0}) KacheRep
unfolding add_key_val
add_key_val_no_sz rep key val = elim (strlen key) [
  | none ↦ fault
  | some n ↦ elim (strlen val) [ none ↦ fault | some m ↦ add_key_val rep key n val m ]
]

-- kache_init_kache_obj with its key, and kache_init_kache_rep.
abbrev pub init_kache_obj : Bytes → KacheObj
init_kache_obj key = record { key = key; reps = []; freed = false }

abbrev pub init_kache_rep : ContentType → KacheRep
init_kache_rep mt = record {
  keyvalq = [];
  payload = Ptr.null;
  etag = Ptr.null;
  media_type = mt;
  ts = Ptr.null;
  max_age = 0;
  timer = none;
  seconds = 0;
  freed = false;
}

-- kache_add_rep, kache_remove_rep, kache_peak_rep and kache_get_rep_nth.
unfoldable pub add_rep : KacheObj → ℕ → KacheObj
add_rep obj rep = record obj { reps = obj.reps ++ (rep ∷ []) }

unfoldable pub without : List ℕ → ℕ → List ℕ
without [] rep = []
without (r ∷ rs) rep = if r == rep then rs else r ∷ without rs rep

unfoldable pub remove_rep : KacheObj → ℕ → KacheObj
unfolding without
remove_rep obj rep = record obj { reps = without obj.reps rep }

unfoldable pub rep_nth : List ℕ → ℕ → Option ℕ
rep_nth [] index = none
rep_nth (r ∷ rs) zero = some r
rep_nth (r ∷ rs) (suc index) = rep_nth rs index

unfoldable pub peak_rep : KacheObj → Option ℕ
unfolding rep_nth
peak_rep obj = rep_nth obj.reps 0

-- kache_clear_kache_rep: what the pointers lead to is given back, and they keep their values.
unfoldable pub clear_kache_rep : KacheRep → Result (Unit {0}) KacheRep
clear_kache_rep rep = after_free rep.payload >>= λ payload. after_free rep.etag >>= λ etag.
    after_free rep.ts >>= λ ts.
    ok (record rep { payload = payload; etag = etag; keyvalq = []; ts = ts })

-- kache_set_rep_timer: a timer that there is keeps its argument.
unfoldable pub set_rep_timer : KacheRep → ℕ → ℕ → KacheRep
set_rep_timer rep obj seconds = record rep {
  timer = elim rep.timer [ none ↦ some obj | some o ↦ some o ];
  seconds = seconds;
}

module _ {M : Type 0} where
  -- The loop of kache_get_rep_by_media_type, which reads each representation.
  unfoldable pub by_media_type : Kache M → List ℕ → ContentType → Result (Unit {0}) (Option ℕ)
  unfolding rep_at
  by_media_type k [] mt = ok none
  by_media_type k (a ∷ rest) mt =
      let next = by_media_type k rest mt in
      elim (rep_at k a) [
        | none ↦ fault
        | some rep ↦ if same_type rep.media_type mt then ok (some a) else next
      ]

  -- kache_free_kache_rep: the representation is cleared, and given back. kache_free_kache_rep_with_data
  -- does the same; the data is a placeholder.
  unfoldable pub free_kache_rep : Kache M → ℕ → Result (Unit {0}) (Kache M)
  unfolding rep_at put_rep clear_kache_rep
  free_kache_rep k a = elim (rep_at k a) [
    | none ↦ fault
    | some rep ↦ clear_kache_rep rep >>= λ r. ok (put_rep k a (record r { freed = true }))
  ]

  -- kache_free_kache_obj.
  unfoldable pub free_kache_obj : Kache M → ℕ → Result (Unit {0}) (Kache M)
  unfolding obj_at put_obj
  free_kache_obj k a = elim (obj_at k a) [
    | none ↦ fault
    | some obj ↦ ok (put_obj k a (record obj { freed = true }))
  ]

  -- kache_rep_foreach: TAILQ_FOREACH reads the link of a representation after `f` is done with it.
  unfoldable pub rep_foreach :
      (Kache M → ℕ → Result (Unit {0}) (Kache M)) → Kache M → List ℕ → Result (Unit {0}) (Kache M)
  unfolding rep_at
  rep_foreach f k [] = ok k
  rep_foreach f k (a ∷ rest) =
      f k a >>= λ k'. elim (rep_at k' a) [ none ↦ fault | some _ ↦ rep_foreach f k' rest ]

  -- kache_default_free_func on an object.
  unfoldable pub default_free_func : Kache M → ℕ → Result (Unit {0}) (Kache M)
  unfolding obj_at rep_foreach free_kache_rep free_kache_obj
  default_free_func k a = elim (obj_at k a) [
    | none ↦ fault
    | some obj ↦ rep_foreach free_kache_rep k obj.reps >>= λ k'. free_kache_obj k' a
  ]

  -- The walk of kache_free over the values of the map; the map is then given back.
  unfoldable pub free_all : Kache M → List ℕ → Result (Unit {0}) (Kache M)
  unfolding default_free_func
  free_all k [] = ok k
  free_all k (a ∷ rest) = default_free_func k a >>= λ k'. free_all k' rest

  unfoldable pub kache_free : (M → List ℕ) → Kache M → Result (Unit {0}) (Kache M)
  unfolding free_all
  kache_free each k = if k.free_obj then ok k else free_all k (each k.map)
