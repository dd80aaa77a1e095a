-- ===== src/Kache/Content.antt =====
-- The media types of the cache and those of CoAP: kache_ct_from_ecct and kache_get_ecct_from_ct of
-- bridge/sw/lib/kache/src/kache_evcoap.c.
use webthings.Common.{ℕ, ◌≡◌, ◌≢◌, ◌⊎◌, Bool, ◌==◌, ◌&&◌, if◌then◌else◌, arith}

-- kache_media_type_t and kache_media_subtype_t.
pub data MediaType : Type 0 where
  text application : MediaType

pub data MediaSubtype : Type 0 where
  xml octet_stream exi json link_format plain : MediaSubtype

-- kache_content_type_t.
pub record ContentType : Type 0 where
  pub type_of : MediaType
  pub subtype : MediaSubtype

-- The comparisons of the two enums.
abbrev pub media_num : MediaType → ℕ
media_num MediaType.text = 0
media_num MediaType.application = 1

abbrev pub subtype_num : MediaSubtype → ℕ
subtype_num MediaSubtype.xml = 0
subtype_num MediaSubtype.octet_stream = 1
subtype_num MediaSubtype.exi = 2
subtype_num MediaSubtype.json = 3
subtype_num MediaSubtype.link_format = 4
subtype_num MediaSubtype.plain = 5

abbrev pub same_type : ContentType → ContentType → Bool
same_type a b =
    (media_num a.type_of == media_num b.type_of) && (subtype_num a.subtype == subtype_num b.subtype)

abbrev application_of : MediaSubtype → ContentType
application_of s = record { type_of = MediaType.application; subtype = s }

-- kache_ct_from_ecct.
unfoldable pub ct_from_ecct : ℕ → ContentType
ct_from_ecct ct =
    if ct == 0
    then record { type_of = MediaType.text; subtype = MediaSubtype.plain }
    else (if ct == 40
        then application_of MediaSubtype.link_format
        else (if ct == 41
            then application_of MediaSubtype.xml
            else (if ct == 42
                then application_of MediaSubtype.octet_stream
                else (if ct == 47
                    then application_of MediaSubtype.exi
                    else (if ct == 50
                        then application_of MediaSubtype.json
                        else application_of MediaSubtype.xml)))))

-- kache_get_ecct_from_ct, by the two enums.
unfoldable pub ecct_of : MediaType → MediaSubtype → ℕ
ecct_of MediaType.text MediaSubtype.plain = 0
ecct_of MediaType.application MediaSubtype.link_format = 40
ecct_of MediaType.application MediaSubtype.xml = 41
ecct_of MediaType.application MediaSubtype.octet_stream = 42
ecct_of MediaType.application MediaSubtype.exi = 47
ecct_of MediaType.application MediaSubtype.json = 50
ecct_of _ _ = 41

unfoldable pub get_ecct_from_ct : ContentType → ℕ
unfolding ecct_of
get_ecct_from_ct mt = ecct_of mt.type_of mt.subtype

-- The codes that the cache has a media type for.
abbrev pub IsKnown : ℕ → Type 0
IsKnown ct = (ct ≡ 0) ⊎ (ct ≡ 40) ⊎ (ct ≡ 41) ⊎ (ct ≡ 42) ⊎ (ct ≡ 47) ⊎ (ct ≡ 50)

-- A media type comes out of the cache as it went in exactly if it is one of the six that the cache
-- knows; every other one comes out as application/xml, and is mistaken for it.
pub get_ecct_from_ct-ct_from_ecct :
    (ct : ℕ)
    → (IsKnown ct × (get_ecct_from_ct (ct_from_ecct ct) ≡ ct))
      ⊎ ((get_ecct_from_ct (ct_from_ecct ct) ≢ ct) × (ct_from_ecct ct ≡ ct_from_ecct 41))
unfolding get_ecct_from_ct ct_from_ecct
get_ecct_from_ct-ct_from_ecct ct = ground arith
