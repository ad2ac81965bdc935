-- ===== src/Spnego.antt =====
-- tools/management/spnego.c: the negTokenInit that a client sends is decoded, and the
-- negTokenTarg that answers it is encoded, both over the routines of tools/asn1.c.
-- A token is a list of octets; `try_malloc` tells which sizes `g_try_malloc` grants.
pub mod Encode
pub mod Tests
use ksmbd_tools.Base.{ℕ, zero, suc, ◌+◌, ◌-◌, ◌%◌, ◌^◌, ◌==◌, if◌then◌else◌}
use ksmbd_tools.Base.{Bool, true, false, ◌&&◌, Option, none, some, List, [], ◌∷◌, ◌++◌}
use ksmbd_tools.Base.{length, take, drop, replicate}
use ksmbd_tools.Asn1.{Asn1Ctx, Header, Decoder, ◌>>=◌, return, fail, asn1_open, asn1_read}
use ksmbd_tools.Asn1.{asn1_header_decode, asn1_oid_decode, asn1_header_encode, asn1_header_len}
use ksmbd_tools.Asn1.{asn1_oid_encode}

abbrev pub spnego_oid : List ℕ
spnego_oid = 1 ∷ 3 ∷ 6 ∷ 1 ∷ 5 ∷ 5 ∷ 2 ∷ []

abbrev pub krb5_oid : List ℕ
krb5_oid = 1 ∷ 2 ∷ 840 ∷ 113554 ∷ 1 ∷ 2 ∷ 2 ∷ []

abbrev pub mskrb5_oid : List ℕ
mskrb5_oid = 1 ∷ 2 ∷ 840 ∷ 48018 ∷ 1 ∷ 2 ∷ 2 ∷ []

-- The mechanisms; SPNEGO_MAX_MECHS is their number.
pub data Mech : Type 0 where
  mskrb5 krb5 : Mech

-- `!compare_oid(...)`
pub same_oid : List ℕ → List ℕ → Bool
same_oid [] [] = true
same_oid [] (y ∷ ys) = false
same_oid (x ∷ xs) [] = false
same_oid (x ∷ xs) (y ∷ ys) = x == y && same_oid xs ys

-- `none` where `is_supported_mech` returns false
pub is_supported_mech : List ℕ → Option Mech
is_supported_mech oid =
    if same_oid oid mskrb5_oid
    then some mskrb5
    else if same_oid oid krb5_oid
    then some krb5
    else none

-- `*end`, if the header has this class, method and tag
pub decode_asn1_header : ℕ → ℕ → ℕ → Decoder (Option ℕ)
decode_asn1_header cls con tag = asn1_header_decode >>= (λ h.
    λ c. if h.cls == cls && (h.con == con && h.tag == tag) then return h.eoc c else fail c)

-- `asn1_oid_decode` up to the end of the header before it. That header is primitive, so
-- `asn1_header_decode` has set its end.
oid_until : (ℕ → Bool) → Option ℕ → Decoder (List ℕ)
oid_until try_malloc none = fail
oid_until try_malloc (some end) = asn1_oid_decode try_malloc end

expect : Bool → Decoder (Unit {0})
expect true = return tt
expect false = fail

lift : {A : Type 0} → Option A → Decoder A
lift none = fail
lift (some a) = return a

-- from the GSSAPI header up to `ctx.pointer = mech_types_end`: the mechanism, and that end
pub mech_types : (ℕ → Bool) → Decoder (Mech × Option ℕ)
mech_types try_malloc = do
  _ ← decode_asn1_header 1 1 0
  oid_end ← decode_asn1_header 0 0 6
  oid ← oid_until try_malloc oid_end
  _ ← expect (same_oid oid spnego_oid)
  _ ← decode_asn1_header 2 1 0
  _ ← decode_asn1_header 0 1 16
  _ ← decode_asn1_header 2 1 0
  mech_types_end ← decode_asn1_header 0 1 16
  mech_end ← decode_asn1_header 0 0 6
  mech_oid ← oid_until try_malloc mech_end
  mech ← lift (is_supported_mech mech_oid)
  return (mech, mech_types_end)

-- what the AP_REQ id must be: `id[0] == 1 && id[1] == 0`
is_ap_req : List ℕ → Bool
is_ap_req (x ∷ y ∷ []) = x == 1 && y == 0
is_ap_req _ = false

-- from the mechToken to the AP_REQ, which is all that is left of the buffer
pub mech_token : (ℕ → Bool) → Decoder (List ℕ)
mech_token try_malloc = do
  _ ← decode_asn1_header 2 1 2
  _ ← decode_asn1_header 0 0 4
  _ ← decode_asn1_header 1 1 0
  oid_end ← decode_asn1_header 0 0 6
  oid ← oid_until try_malloc oid_end
  _ ← expect (same_oid oid krb5_oid)
  id ← asn1_read try_malloc 2
  _ ← expect (is_ap_req id)
  λ c. return c.rest c

-- 0 with `*mech_type` and the AP_REQ, -EINVAL, or an access through a null pointer
pub data NegTokenInit : Type 0 where
  accepted : Mech → List ℕ → NegTokenInit
  einval : NegTokenInit
  null_access : NegTokenInit

-- `ctx.pointer = mech_types_end` in the token. That end is NULL where the mechTypes have an
-- indefinite length; `ctx.pointer < ctx.end` then holds, and the next octet is read through NULL.
token_at : (ℕ → Bool) → List ℕ → Mech → Option ℕ → Asn1Ctx → NegTokenInit
token_at try_malloc token mech none c = null_access
token_at try_malloc token mech (some p) c =
    elim (mech_token try_malloc (record { error = c.error; pointer = p; rest = drop p token })).0 [
      | none ↦ einval
      | some ap_req ↦ accepted mech ap_req
    ]

pub decode_neg_token_init : (ℕ → Bool) → List ℕ → NegTokenInit
decode_neg_token_init try_malloc token =
    let (r, c) = mech_types try_malloc (asn1_open token) in
    elim r [ none ↦ einval | some (mech, end) ↦ token_at try_malloc token mech end c ]

-- One call `asn1_header_encode(&buf, ..., &len)` with its result ignored: what it appends, and `len`.
header_put : ℕ → ℕ → ℕ → List ℕ × ℕ → List ℕ × ℕ
header_put cls con tag (buf, len) = elim (asn1_header_encode cls con tag len) [
  | none ↦ (buf, len)
  | some (octets, len') ↦ (buf ++ octets, len')
]

-- `memcpy(buf, src, ...); buf += len` in a blob of zeros: `len` octets further the next write
-- begins.
copy_advance : List ℕ → List ℕ × ℕ → List ℕ
copy_advance src (buf, len) = buf ++ (take len src ++ replicate (len - length src) 0)

-- the writes of `encode_negTokenTarg`, in their order
neg_token_targ_octets : ℕ → ℕ → ℕ → ℕ → List ℕ → List ℕ → List ℕ → List ℕ
neg_token_targ_octets out_len neg_result_len sup_mech_len rep_token_len sup_oid krb5_octets
      in_blob =
    let b1 = (header_put 0 1 16 (header_put 2 1 1 ([], out_len))).0 in
    let b2 = (header_put 0 0 10 (header_put 2 1 0 (b1, neg_result_len))).0 ++ (0 ∷ []) in
    let b3 = copy_advance sup_oid (header_put 0 0 6 (header_put 2 1 1 (b2, sup_mech_len))) in
    let b4 = (header_put 1 1 0 (header_put 0 0 4 (header_put 2 1 2 (b3, rep_token_len)))).0 in
    let b5 =
      copy_advance krb5_octets (header_put 0 0 6 (b4, asn1_header_len (length krb5_octets) 1)) in
    b5 ++ (2 ∷ 0 ∷ in_blob)

-- The octets written at `*out_blob`, and `*out_len`, which is the size of its allocation; the
-- object identifier is `a`, `b` and `ids`. `none` is -ENOMEM.
pub encode_neg_token_targ : (ℕ → Bool) → List ℕ → ℕ → ℕ → List ℕ → Option (List ℕ × ℕ)
encode_neg_token_targ try_malloc in_blob a b ids = elim (asn1_oid_encode try_malloc a b ids) [
  | none ↦ none
  | some sup_oid ↦ elim (asn1_oid_encode try_malloc 1 2 (drop 2 krb5_oid)) [
    | none ↦ none
    | some krb5_octets ↦
        let neg_result_len = asn1_header_len 1 2 in
        let sup_mech_len = asn1_header_len (length sup_oid) 2 in
        let rep = asn1_header_len (length krb5_octets) 1 in
        let rep_token_len = asn1_header_len ((rep + 2 + length in_blob) % 2 ^ 32) 3 in
        let out_len =
          asn1_header_len ((neg_result_len + sup_mech_len + rep_token_len) % 2 ^ 32) 2 in
        if try_malloc out_len
        then some (
          neg_token_targ_octets out_len neg_result_len sup_mech_len rep_token_len sup_oid
              krb5_octets in_blob,
          out_len,
        )
        else none
  ]
]
