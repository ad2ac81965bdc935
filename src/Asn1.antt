-- ===== src/Asn1.antt =====
-- tools/asn1.c and include/asn1.h: the BER decoder and encoder under the SPNEGO negotiation.
-- A context is the offset of `pointer` from `begin` and the octets from `pointer` to `end`;
-- an octet is a number below 256. `unsigned int` wraps at 2 ^ 32, `unsigned long` at 2 ^ 64.
-- A decoder returns `none` where the C function returns 0, beside the context it leaves.
-- `try_malloc` tells which sizes `g_try_malloc` grants.
pub mod Monad
pub mod HeaderForm
pub mod HeaderRead
pub mod HeaderRoundTrip
pub mod Tlv
pub mod OidRoundTrip
pub mod Within
pub mod Bounds
pub mod Tests
use ksmbd_tools.Base.{ℕ, zero, suc, ◌+◌, ◌-◌, ◌*◌, ◌/◌, ◌%◌, ◌^◌, ltb, leb, ◌==◌, if◌then◌else◌}
use ksmbd_tools.Base.{Bool, true, false, not, ◌&&◌, ◌||◌, Option, none, some, List, [], ◌∷◌, ◌++◌}
use ksmbd_tools.Base.{length, take, drop}

pub record Asn1Ctx : Type 0 where
  pub error : ℕ
  pub pointer : ℕ
  pub rest : List ℕ

abbrev pub err_noerror : ℕ
err_noerror = 0

abbrev pub err_dec_empty : ℕ
err_dec_empty = 2

abbrev pub err_dec_badvalue : ℕ
err_dec_badvalue = 5

-- the offset of `ctx->end`
abbrev pub end_of : Asn1Ctx → ℕ
end_of c = c.pointer + length c.rest

abbrev pub asn1_open : List ℕ → Asn1Ctx
asn1_open buf = record { error = err_noerror; pointer = 0; rest = buf }

-- a decoder: what it stores through its out-parameters, if it returns 1
abbrev pub Decoder : Type 0 → Type 0
Decoder A = Asn1Ctx → Option A × Asn1Ctx

infixl 5 ◌>>=◌
abbrev pub ◌>>=◌ : {A B : Type 0} → Decoder A → (A → Decoder B) → Decoder B
◌>>=◌ m f c = let (r, c') = m c in elim r [ none ↦ (none, c') | some a ↦ f a c' ]

abbrev pub return : {A : Type 0} → A → Decoder A
return a c = (some a, c)

abbrev pub fail : {A : Type 0} → Decoder A
fail c = (none, c)

octet_step : ℕ → ℕ → List ℕ → Option ℕ × Asn1Ctx
octet_step e p [] = (none, record { error = err_dec_empty; pointer = p; rest = [] })
octet_step e p (b ∷ bs) = (some b, record { error = e; pointer = p + 1; rest = bs })

pub asn1_octet_decode : Decoder ℕ
asn1_octet_decode c = octet_step c.error c.pointer c.rest

-- The do-while loop of `asn1_tag_decode` (w = 32) and of `asn1_subid_decode` (w = 64) over the
-- octets that are left: `v <<= 7; v |= ch & 0x7F` at w bits, while the top bit of `ch` is set.
group_loop : ℕ → ℕ → ℕ → ℕ → List ℕ → Option ℕ × Asn1Ctx
group_loop w v e p [] = (none, record { error = err_dec_empty; pointer = p; rest = [] })
group_loop w v e p (ch ∷ bs) =
    let v' = v * 128 % 2 ^ w + ch % 128 in
    let more = group_loop w v' e (p + 1) bs in
    if leb 128 ch then more else (some v', record { error = e; pointer = p + 1; rest = bs })

pub asn1_tag_decode : Decoder ℕ
asn1_tag_decode c = group_loop 32 0 c.error c.pointer c.rest

pub asn1_subid_decode : Decoder ℕ
asn1_subid_decode c = group_loop 64 0 c.error c.pointer c.rest

-- `*tag`, once it holds the low five bits
long_tag : ℕ → Decoder ℕ
long_tag tag c = if tag == 0x1F then asn1_tag_decode c else return tag c

-- class, method and tag
pub asn1_id_decode : Decoder (ℕ × ℕ × ℕ)
asn1_id_decode = do
  ch ← asn1_octet_decode
  let cls = ch / 64 % 4
  let con = ch / 32 % 2
  tag ← long_tag (ch % 32)
  return (cls, con, tag)

-- `cnt` octets of a long length, most significant first, at 32 bits
length_loop : ℕ → ℕ → Decoder ℕ
length_loop zero len = return len
length_loop (suc cnt) len =
    asn1_octet_decode >>= (λ ch. length_loop cnt (len * 256 % 2 ^ 32 + ch % 256))

-- what `*def` and `*len` hold before the length is checked
length_value : ℕ → Decoder (Bool × ℕ)
length_value ch c =
    if ch == 0x80
    then return (false, 0) c
    else if ltb ch 0x80
    then return (true, ch) c
    else (length_loop (ch % 128) 0 >>= (λ len. return (true, len))) c

-- `*len > ctx->end - ctx->pointer`
check_length : Bool → ℕ → Decoder (Bool × ℕ)
check_length def len c = if ltb (length c.rest) len then fail c else return (def, len) c

-- `*def` and `*len`; the caller has set both to 0.
pub asn1_length_decode : Decoder (Bool × ℕ)
asn1_length_decode = do ch ← asn1_octet_decode; (def, len) ← length_value ch; check_length def len

pub record Header : Type 0 where
  pub eoc : Option ℕ
  pub cls : ℕ
  pub con : ℕ
  pub tag : ℕ

-- the rest of `asn1_header_decode` once the length is read
header_result : ℕ → ℕ → ℕ → Bool → ℕ → Decoder Header
header_result cls con tag def len c =
    if con == 0 && not def
    then fail c
    else return
        (record {
          eoc = if def then some (c.pointer + len) else none;
          cls = cls;
          con = con;
          tag = tag;
        })
        c

pub asn1_header_decode : Decoder Header
asn1_header_decode = do
  (cls, con, tag) ← asn1_id_decode
  (def, len) ← asn1_length_decode
  header_result cls con tag def len

-- `while (ctx->pointer < eoc)`: the octets copied so far, `n` octets still to go
octets_loop : ℕ → List ℕ → Decoder (List ℕ)
octets_loop zero out = return out
octets_loop (suc n) out = asn1_octet_decode >>= (λ ch. octets_loop n (out ++ (ch ∷ [])))

-- `eoc - ctx->pointer` is a `size_t` where it is the size of the allocation
pub asn1_octets_decode : (ℕ → Bool) → ℕ → Decoder (List ℕ)
asn1_octets_decode try_malloc eoc c =
    if try_malloc ((2 ^ 64 + eoc - c.pointer) % 2 ^ 64)
    then octets_loop (eoc - c.pointer) [] c
    else fail c

pub asn1_read : (ℕ → Bool) → ℕ → Decoder (List ℕ)
asn1_read try_malloc len c =
    if ltb (length c.rest) len
    then (none, record c { error = err_dec_empty })
    else if try_malloc len
    then (some (take len c.rest), record c { pointer = c.pointer + len; rest = drop len c.rest })
    else fail c

abbrev first_subids : ℕ → List ℕ
first_subids s =
    if ltb s 40 then 0 ∷ s ∷ [] else if ltb s 80 then 1 ∷ (s - 40) ∷ [] else 2 ∷ (s - 80) ∷ []

-- `while (ctx->pointer < eoc)`: `room` is `size - *len`, and `*len` is the length of `out`.
oid_loop : ℕ → ℕ → List ℕ → Decoder (List ℕ)
oid_loop zero eoc out c =
    if ltb c.pointer eoc then (none, record c { error = err_dec_badvalue }) else return out c
oid_loop (suc room) eoc out c =
    let step = (asn1_subid_decode >>= (λ id. oid_loop room eoc (out ++ (id ∷ [])))) c in
    if ltb c.pointer eoc then step else return out c

pub asn1_oid_decode : (ℕ → Bool) → ℕ → Decoder (List ℕ)
asn1_oid_decode try_malloc eoc c =
    let size = (2 ^ 64 + eoc + 1 - c.pointer) % 2 ^ 32 in
    if ltb size 2 || ltb ((2 ^ 32 - 1) / 8) size
    then fail c
    else if try_malloc (size * 8)
    then (asn1_subid_decode >>= (λ subid. oid_loop (size - 2) eoc (first_subids subid))) c
    else fail c

-- One level of `asn1_header_len`: what a length of `len` takes, and the tag.
header_step : ℕ → ℕ
header_step len =
    if leb (2 ^ 24) len
    then (len + 6) % 2 ^ 32
    else if leb (2 ^ 16) len
    then len + 5
    else if leb (2 ^ 8) len
    then len + 4
    else if leb (2 ^ 7) len
    then len + 3
    else len + 2

-- for (i = 0; i < depth; i++)
pub asn1_header_len : ℕ → ℕ → ℕ
asn1_header_len payload_len zero = payload_len
asn1_header_len payload_len (suc depth) = asn1_header_len (header_step payload_len) depth

-- a length `r` on the wire: one octet, or a count and the octets, most significant first
abbrev length_octets : ℕ → ℕ → List ℕ
length_octets zero r = r % 128 ∷ []
length_octets (suc zero) r = 0x81 ∷ r % 256 ∷ []
length_octets (suc (suc zero)) r = 0x82 ∷ (r / 2 ^ 8 % 256) ∷ (r % 256) ∷ []
length_octets (suc (suc (suc zero))) r =
    0x83 ∷ (r / 2 ^ 16 % 256) ∷ (r / 2 ^ 8 % 256) ∷ (r % 256) ∷ []
length_octets (suc (suc (suc (suc _)))) r =
    0x84 ∷ (r / 2 ^ 24 % 256) ∷ (r / 2 ^ 16 % 256) ∷ (r / 2 ^ 8 % 256) ∷ (r % 256) ∷ []

-- The octets written at `*buf` and the new `*len`; `none` is -EINVAL. No subtraction wraps:
-- each one follows a test that failed on a smaller one.
pub asn1_header_encode : ℕ → ℕ → ℕ → ℕ → Option (List ℕ × ℕ)
asn1_header_encode cls con tag len =
    let first = cls % 4 * 64 + con % 2 * 32 + tag % 32 in
    let r = len - 1 in
    if ltb len 2
    then none
    else if ltb (r - 1) (2 ^ 7)
    then some (first ∷ length_octets 0 (r - 1), r - 1)
    else if ltb (r - 2) (2 ^ 8)
    then some (first ∷ length_octets 1 (r - 2), r - 2)
    else if ltb (r - 3) (2 ^ 16)
    then some (first ∷ length_octets 2 (r - 3), r - 3)
    else if ltb (r - 4) (2 ^ 24)
    then some (first ∷ length_octets 3 (r - 4), r - 4)
    else some (first ∷ length_octets 4 (r - 5), r - 5)

-- `*oid++ = 0x80 | ((id >> s) & 0x7F)` if `id >= 1 << s`
abbrev group_at : ℕ → ℕ → List ℕ → List ℕ
group_at s id out = if leb (2 ^ s) id then (128 + id / 2 ^ s % 128) ∷ out else out

subid_encode : ℕ → List ℕ
subid_encode id = group_at 28 id (group_at 21 id (group_at 14 id (group_at 7 id (id % 128 ∷ []))))

subids_encode : List ℕ → List ℕ
subids_encode [] = []
subids_encode (id ∷ ids) = subid_encode id ++ subids_encode ids

-- The octets at `*out_oid`, for the identifiers `a`, `b` and `ids`: `in_len` is at least 2 at every
-- call. `none` is -ENOMEM.
pub asn1_oid_encode : (ℕ → Bool) → ℕ → ℕ → List ℕ → Option (List ℕ)
asn1_oid_encode try_malloc a b ids =
    if try_malloc ((length ids + 2) * 5)
    then some (((40 * a + b) % 256) ∷ subids_encode ids)
    else none
