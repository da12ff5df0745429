-- ===== src/Storage/Whole.antt =====
-- A request that names every field of a storage, and one that names none.
use tezos_api_gateway.Base.{
  String, ◌≡◌, ◌∙◌, refl, ap, sym, subst, Bool, true, false, List, [], ◌∷◌, arith, inl, inr, str_eq,
  is_empty,
}
use tezos_api_gateway.Value.{Value, obj, Fields, end, field, keys}
use tezos_api_gateway.Exceptions.{Result, ok, err, Result-cases}
use tezos_api_gateway.Storage.{put, put_all, from_pairs}
use tezos_api_gateway.Storage.Response.{convert_value, convert_fields, generate_storage_response}
use tezos_api_gateway.Storage.Requested.{
  DataFields, no_fields, data_field, by_name, Libraries, named_field, convert_all, convert_storage,
}

abbrev pub names_of : List String → DataFields
names_of [] = no_fields
names_of (k ∷ ks) = data_field (by_name k) (names_of ks)

abbrev pub has_later : String → Fields → Bool
has_later k end = false
has_later k (field j v fs) = elim (str_eq k j) [ true ↦ true | false ↦ has_later k fs ]

abbrev has_earlier : String → Fields → Bool
has_earlier k end = false
has_earlier k (field j v fs) = elim (str_eq j k) [ true ↦ true | false ↦ has_earlier k fs ]

-- The keys of an object are distinct.
abbrev pub IsObject : Fields → Type 0
IsObject end = Unit
IsObject (field k v fs) = (has_later k fs ≡ false) × IsObject fs

-- What lodash says of a key of the storage that is a plain property of it.
abbrev pub FindsAll : Libraries → Value → Fields → Type 0
FindsAll lib storage end = Unit
FindsAll lib storage (field k v fs) =
    (is_empty k ≡ false)
    × (lib.has storage k ≡ true)
    × (lib.path storage k ≡ v)
    × FindsAll lib storage fs

abbrev pairs_of : Fields → List (String × Value)
pairs_of end = []
pairs_of (field k v fs) = (k, v) ∷ pairs_of fs

abbrev joined : Fields → Fields → Fields
joined end gs = gs
joined (field k v fs) gs = field k v (joined fs gs)

put-new :
    (k : String) (v : Value) (fs : Fields)
    → has_earlier k fs ≡ false
    → put k v fs ≡ joined fs (field k v end)
unfolding put
put-new k v end h = refl
put-new k v (field j u fs) h = ground (arith, put-new k v fs)

joined_assoc : (fs gs hs : Fields) → joined (joined fs gs) hs ≡ joined fs (joined gs hs)
joined_assoc end gs hs = refl
joined_assoc (field k v fs) gs hs = ap (λ r. field k v r) (joined_assoc fs gs hs)

abbrev Apart : Fields → Fields → Type 0
Apart acc end = Unit
Apart acc (field k v fs) = (has_earlier k acc ≡ false) × Apart acc fs

has_earlier-joined :
    (j : String) (k : String) (v : Value) (acc : Fields)
    → has_earlier j acc ≡ false
    → str_eq k j ≡ false
    → has_earlier j (joined acc (field k v end)) ≡ false
has_earlier-joined j k v end h d = ground arith
has_earlier-joined j k v (field i u acc) h d = ground (arith, has_earlier-joined j k v acc)

Apart-joined :
    (k : String) (v : Value) (acc fs : Fields)
    → Apart acc fs
    → has_later k fs ≡ false
    → Apart (joined acc (field k v end)) fs
Apart-joined k v acc end h d = tt
Apart-joined k v acc (field j u fs) (h, hs) d =
    (has_earlier-joined j k v acc h (ground arith), Apart-joined k v acc fs hs (ground arith))

joined_end : (fs : Fields) → joined fs end ≡ fs
joined_end end = refl
joined_end (field k v fs) = ap (λ r. field k v r) (joined_end fs)

put_all-joined :
    (fs acc : Fields) → Apart acc fs → IsObject fs → put_all (pairs_of fs) acc ≡ joined acc fs
unfolding put_all
put_all-joined end acc apart distinct = sym (joined_end acc)
put_all-joined (field k v fs) acc (new, apart) (later, distinct) =
    ap (put_all (pairs_of fs)) (put-new k v acc new)
    ∙ (put_all-joined fs (joined acc (field k v end)) (Apart-joined k v acc fs apart later) distinct
        ∙ joined_assoc acc (field k v end) fs)

Apart-end : (fs : Fields) → Apart end fs
Apart-end end = tt
Apart-end (field k v fs) = (refl, Apart-end fs)

convert_fields-inv :
    (response : Value → Result Value) (k : String) (v : Value) (fs gs : Fields)
    → convert_fields response (field k v fs) ≡ ok gs
    → (u : Value) × (hs : Fields) × (convert_fields response fs ≡ ok hs) × (field k u hs ≡ gs)
unfolding convert_fields
convert_fields-inv response k v fs gs e = elim (Result-cases (convert_value response v)) [
  | inr (x, failed) ↦ ground arith
  | inl (u, converted) ↦ elim (Result-cases (convert_fields response fs)) [
    | inr (x, failed) ↦ ground arith
    | inl (hs, rest) ↦ (u, hs, rest, ground arith)
  ]
]

-- Converted values stand under the same keys.
has_later-convert_fields :
    (response : Value → Result Value) (k : String) (fs gs : Fields)
    → convert_fields response fs ≡ ok gs
    → has_later k gs ≡ has_later k fs
unfolding convert_fields
has_later-convert_fields response k end gs e = ground arith
has_later-convert_fields response k (field j v fs) gs e =
    let (u, hs, rest, same) = convert_fields-inv response j v fs gs e in
    let kept : has_later k (field j u hs) ≡ has_later k (field j v fs) =
      ground (arith, has_later-convert_fields response k fs hs rest) in
    sym (ap (has_later k) same) ∙ kept

convert_fields-IsObject :
    (response : Value → Result Value) (fs gs : Fields)
    → convert_fields response fs ≡ ok gs
    → IsObject fs
    → IsObject gs
unfolding convert_fields
convert_fields-IsObject response end gs e h =
    let same : end ≡ gs = ground arith in subst IsObject same tt
convert_fields-IsObject response (field j v fs) gs e (h, hs) =
    let (u, rest, converted, same) = convert_fields-inv response j v fs gs e in
    subst IsObject same (
      has_later-convert_fields response j fs rest converted ∙ h,
      convert_fields-IsObject response fs rest converted hs,
    )

module _ (lib : Libraries) (storage : Value) where
  convert_all-names :
      (fs : Fields)
      → FindsAll lib storage fs
      → convert_all lib (names_of (keys fs)) storage
        ≡ (elim (convert_fields lib.instance_response fs) [
          | err e ↦ err e
          | ok gs ↦ ok (pairs_of gs)
        ])
  unfolding convert_all named_field convert_fields
  convert_all-names end h = refl
  convert_all-names (field k v fs) (named, has, path, hs) =
      ground (arith, named, has, path, convert_all-names fs hs)

-- A request that names every field of a storage answers what a request without names does, errors
-- included: each field stands there once, under its name and converted, in the order of the
-- storage. The keys of the storage are distinct texts that are not empty, and lodash must find each
-- of them as a plain property.
pub convert_storage-names :
    (lib : Libraries) (fs : Fields)
    → IsObject fs
    → FindsAll lib (obj fs) fs
    → convert_storage lib (names_of (keys fs)) (obj fs)
      ≡ generate_storage_response lib.instance_response (obj fs)
unfolding convert_storage generate_storage_response from_pairs
convert_storage-names lib fs distinct finds =
    elim (Result-cases (convert_fields lib.instance_response fs)) [
      | inr (x, failed) ↦ ground (arith, convert_all-names lib (obj fs) fs finds, failed)
      | inl (gs, converted) ↦
          let built =
            put_all-joined gs end (Apart-end gs)
              (convert_fields-IsObject lib.instance_response fs gs converted distinct) in
          ground (arith, convert_all-names lib (obj fs) fs finds, converted, built)
    ]
