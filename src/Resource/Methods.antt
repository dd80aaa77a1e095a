-- ===== src/Resource/Methods.antt =====
-- Which methods a resource accepts (evcoap_resource.c, evcoap_enums.c).
use webthings.Common.{ℕ, Bool, true, false, ◌+◌, ◌≡◌, if◌then◌else◌, arith}
use webthings.Enums.{Method, method_to_mask}
use webthings.Resource.{Res, resource_check_method}

-- The mask of a set of methods, as the constants of evcoap_enums.h are combined by the caller.
abbrev pub mask_of : Bool → Bool → Bool → Bool → ℕ
mask_of get post put delete =
    (if get then 1 else 0)
    + (if post then 2 else 0)
    + (if put then 4 else 0)
    + (if delete then 8 else 0)

-- Whether a method belongs to the set.
abbrev pub allowed : Bool → Bool → Bool → Bool → Method → Bool
allowed get post put delete Method.get = get
allowed get post put delete Method.post = post
allowed get post put delete Method.put = put
allowed get post put delete Method.delete = delete
allowed get post put delete _ = false

-- A resource created for any set of methods allows exactly the methods of the set.
pub resource_check_method_lem :
    (res : Res) (get post put delete : Bool) (m : Method)
    → resource_check_method (record res { methods = mask_of get post put delete }) m
      ≡ allowed get post put delete m
unfolding resource_check_method method_to_mask
resource_check_method_lem res true true true true m = ground arith
resource_check_method_lem res _ _ _ _ m = ground arith
