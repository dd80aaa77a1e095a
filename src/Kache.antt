-- ===== src/Kache.antt =====
-- The cache of the bridge, bridge/sw/lib/kache: its objects and the operations of src/kache.c, over a
-- hash map of libu that holds their addresses. Memory is taken to be available; what was freed stays in
-- its place, marked, and an access to it is a fault.
pub mod Content
pub mod Objects
pub mod Evcoap
pub mod Hits
pub mod Events
pub mod Dangling
pub mod Expiry
pub mod Answers
use webthings.Common.{
  ℕ, zero, suc, Bytes, List, [], ◌∷◌, ◌++◌, Option, none, some, Bool, true, false, length,
  get_elem?, if◌then◌else◌, Result, ok, err, fault,
}
use mathlib.Core.Option
use webthings.Dups.{HMap, modify}
use webthings.Kache.Content.{ContentType}

-- A pointer to memory of its own: NULL, valid, or to memory that was given back.
pub data Ptr (A : Type 0) : Type 0 where
  null : Ptr A
  valid : A → Ptr A
  dangling : Ptr A

-- u_free through a pointer, which keeps its value: NULL is no fault.
abbrev pub after_free : {A : Type 0} → Ptr A → Result (Unit {0}) (Ptr A)
after_free Ptr.null = ok Ptr.null
after_free (Ptr.valid a) = ok Ptr.dangling
after_free Ptr.dangling = fault

-- kache_rep_t: `keyvalq` are the keys with their values, `timer` the address of the object that the
-- timer was made for, and `seconds` what it was last set to.
pub record KacheRep : Type 0 where
  pub keyvalq : List (Bytes × Bytes)
  pub payload : Ptr Bytes
  pub etag : Ptr Bytes
  pub media_type : ContentType
  pub ts : Ptr ℕ
  pub max_age : ℕ
  pub timer : Option ℕ
  pub seconds : ℕ
  pub freed : Bool

-- kache_obj_t: `reps` are the addresses of its representations, in order.
pub record KacheObj : Type 0 where
  pub key : Bytes
  pub reps : List ℕ
  pub freed : Bool

-- kache_t, with the memory. `max` is the limit of the map, `custom` whether the user's comparison
-- replaces LFU, `procedure` and `free_obj` whether these functions are set, and `notified` the objects
-- that the set procedure was called with, the latest in front.
pub record Kache (M : Type 0) : Type 0 where
  pub map : M
  pub objs : List KacheObj
  pub reps : List KacheRep
  pub max : ℕ
  pub custom : Bool
  pub procedure : Bool
  pub free_obj : Bool
  pub notified : List ℕ

abbrev pub live_obj : Option KacheObj → Option KacheObj
live_obj none = none
live_obj (some o) = if o.freed then none else some o

abbrev pub live_rep : Option KacheRep → Option KacheRep
live_rep none = none
live_rep (some r) = if r.freed then none else some r

module _ {M : Type 0} where
  -- What an address leads to; `none` is an invalid access.
  unfoldable pub obj_at : Kache M → ℕ → Option KacheObj
  obj_at k a = live_obj (get_elem? k.objs a)

  unfoldable pub rep_at : Kache M → ℕ → Option KacheRep
  rep_at k a = live_rep (get_elem? k.reps a)

  unfoldable pub put_obj : Kache M → ℕ → KacheObj → Kache M
  unfolding modify
  put_obj k a o = record k { objs = modify (λ _. o) k.objs a }

  unfoldable pub put_rep : Kache M → ℕ → KacheRep → Kache M
  unfolding modify
  put_rep k a r = record k { reps = modify (λ _. r) k.reps a }

  -- kache_init with kache_init_data_structure, on the map that u_hmap_new makes: LFU, and DEFAULT_MAX.
  unfoldable pub kache_init : M → Kache M
  kache_init empty = record {
    map = empty;
    objs = [];
    reps = [];
    max = 50;
    custom = false;
    procedure = false;
    free_obj = false;
    notified = [];
  }

  -- kache_set_max_size, kache_set_free_obj_func, kache_attach_set_procedure and
  -- kache_set_custom_discard_policy, where the setters of libu succeed.
  unfoldable pub kache_set_max_size : Kache M → ℕ → Kache M
  kache_set_max_size k max_size = record k { max = max_size }

  unfoldable pub kache_set_free_obj_func : Kache M → Bool → Kache M
  kache_set_free_obj_func k free_obj = record k { free_obj = free_obj }

  unfoldable pub kache_attach_set_procedure : Kache M → Bool → Kache M
  kache_attach_set_procedure k procedure = record k { procedure = procedure }

  unfoldable pub kache_set_custom_discard_policy : Kache M → Kache M
  kache_set_custom_discard_policy k = record k { custom = true }

  module _ (hmap : HMap M Bytes ℕ) where
    -- kache_get: the address of the object.
    unfoldable pub kache_get : Kache M → Bytes → Option ℕ
    kache_get k key = hmap.get k.map key

    abbrev stored : Kache M → ℕ → Option M → Result (Kache M) (Kache M)
    stored k obj none = err k
    stored k obj (some m) =
        ok (record k { map = m; notified = if k.procedure then obj ∷ k.notified else k.notified })

    -- kache_set: the cache, and what it writes to *overwrite, if that is not NULL.
    unfoldable pub kache_set : Kache M → Bytes → ℕ → Result (Kache M) (Kache M) × Option ℕ
    kache_set k key obj = (stored k obj (hmap.put k.map key obj), hmap.get k.map key)

    abbrev deleted : Kache M → Option M → Result (Kache M) (Kache M)
    deleted k none = err k
    deleted k (some m) = ok (record k { map = m })

    -- kache_unset: the cache, and what it writes to *deleted_obj, if that is not NULL.
    unfoldable pub kache_unset : Kache M → Bytes → Result (Kache M) (Kache M) × Option ℕ
    kache_unset k key = (deleted k (hmap.del k.map key), hmap.get k.map key)
