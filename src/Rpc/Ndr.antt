-- ===== src/Rpc/Ndr.antt =====
-- The NDR routines of mountd/rpc.c, over the fields of `struct ksmbd_dcerpc` that they use.
-- `payload` holds `payload_sz` octets. Every payload comes from `dcerpc_ext_alloc` or
-- `dcerpc_set_ext_payload`, which set FIXED_PAYLOAD_SZ, and nothing clears it: `try_realloc_payload`
-- is modelled for such payloads, which do not grow. A routine returns `none` where the C function
-- does not return 0, beside the state it leaves.
pub mod Monad
pub mod Octets
pub mod Writes
pub mod RoundTrip
pub mod Ends
use ksmbd_tools.Base.{ℕ, zero, suc, ◌+◌, ◌-◌, ◌*◌, ◌/◌, ◌%◌, ◌^◌, ltb, leb, ◌==◌, if◌then◌else◌}
use ksmbd_tools.Base.{
  Bool, true, false, Option, none, some, List, [], ◌∷◌, ◌++◌, length, take, drop,
}

pub record Ndr : Type 0 where
  pub little_endian : Bool
  pub align4 : Bool
  pub align8 : Bool
  pub ascii_string : Bool
  pub num_pointers : ℕ
  pub offset : ℕ
  pub payload : List ℕ

abbrev pub Action : Type 0 → Type 0
Action A = Ndr → Option A × Ndr

infixl 5 ◌>>=◌ ◌>>◌
abbrev pub ◌>>=◌ : {A B : Type 0} → Action A → (A → Action B) → Action B
◌>>=◌ m f d = let (r, d') = m d in elim r [ none ↦ (none, d') | some a ↦ f a d' ]

abbrev pub ◌>>◌ : {B : Type 0} → Action (Unit {0}) → Action B → Action B
m >> k = m >>= λ _. k

abbrev pub return : {A : Type 0} → A → Action A
return a d = (some a, d)

abbrev pub fail : {A : Type 0} → Action A
fail d = (none, d)

abbrev pub guard : Bool → Action (Unit {0})
guard true = return tt
guard false = fail

-- `dce->offset += n`, to another place, and where it is
abbrev pub skip : ℕ → Action (Unit {0})
skip n d = (some tt, record d { offset = d.offset + n })

abbrev pub seek : ℕ → Action (Unit {0})
seek o d = (some tt, record d { offset = o })

abbrev pub tell : Action ℕ
tell d = (some d.offset, d)

-- Where a read fails, what is read before it stays: the result is `b`.
abbrev pub progress : {A B : Type 0} → Action A → B → (A → Action B) → Action B
progress r b k d = let (x, d') = r d in elim x [ none ↦ (some b, d') | some a ↦ k a d' ]

-- `__ALIGN(x, n)`, for a power of two
abbrev pub align : ℕ → ℕ → ℕ
align n x = (x + (n - 1)) / n * n

abbrev pub align_offset : ℕ → Action (Unit {0})
align_offset n d = (some tt, record d { offset = align n d.offset })

unfoldable pub auto_align_offset : Action (Unit {0})
auto_align_offset d =
    if d.align8 then align_offset 8 d else if d.align4 then align_offset 4 d else return tt d

-- true is 0, false is -ENOMEM; sums of `size_t` do not wrap behind the first test
unfoldable pub try_realloc_payload : Ndr → ℕ → Bool
try_realloc_payload d data_sz =
    if ltb (2 ^ 64 - 1 - d.offset) data_sz
    then false
    else leb (d.offset + data_sz) (length d.payload)

-- `memcpy` of octets to `offset` in a payload
abbrev pub put : ℕ → List ℕ → List ℕ → List ℕ
put offset octets payload = take offset payload ++ (octets ++ drop (offset + length octets) payload)

-- the end of a write: room for the octets, the copy, and the offset behind it
unfoldable pub store : List ℕ → Action (Unit {0})
store octets d =
    if try_realloc_payload d (length octets)
    then (
      some tt,
      record d { offset = d.offset + length octets; payload = put d.offset octets d.payload },
    )
    else (none, d)

-- the end of a read, of `n` octets at `offset`
unfoldable pub fetch : ℕ → Action (List ℕ)
fetch n d =
    if ltb (length d.payload) (d.offset + n)
    then (none, d)
    else (some (take n (drop d.offset d.payload)), record d { offset = d.offset + n })

-- an integer of `n` octets, least significant first, and most significant first
unfoldable pub le_octets : ℕ → ℕ → List ℕ
le_octets zero v = []
le_octets (suc n) v = v % 256 ∷ le_octets n (v / 256)

unfoldable pub be_octets : ℕ → ℕ → List ℕ
be_octets zero v = []
be_octets (suc n) v = be_octets n (v / 256) ++ (v % 256 ∷ [])

unfoldable pub le_value : List ℕ → ℕ
le_value [] = 0
le_value (b ∷ bs) = b + 256 * le_value bs

unfoldable pub be_value : ℕ → List ℕ → ℕ
be_value v [] = v
be_value v (b ∷ bs) = be_value (v * 256 + b) bs

abbrev pub int_octets : Bool → ℕ → ℕ → List ℕ
int_octets little_endian n v = if little_endian then le_octets n v else be_octets n v

abbrev pub int_value : Bool → List ℕ → ℕ
int_value little_endian octets = if little_endian then le_value octets else be_value 0 octets

-- NDR_WRITE_INT and NDR_READ_INT, for a type of `n` octets
unfoldable pub ndr_write_int : ℕ → ℕ → Action (Unit {0})
unfolding store try_realloc_payload
ndr_write_int n v = align_offset n >> (λ d. store (int_octets d.little_endian n v) d)

unfoldable pub ndr_read_int : ℕ → Action ℕ
unfolding fetch
ndr_read_int n =
    align_offset n >> (λ d. (fetch n >>= (λ octets. return (int_value d.little_endian octets))) d)

abbrev pub ndr_write_int8 : ℕ → Action (Unit {0})
ndr_write_int8 v = ndr_write_int 1 v

abbrev pub ndr_write_int16 : ℕ → Action (Unit {0})
ndr_write_int16 v = ndr_write_int 2 v

abbrev pub ndr_write_int32 : ℕ → Action (Unit {0})
ndr_write_int32 v = ndr_write_int 4 v

abbrev pub ndr_write_int64 : ℕ → Action (Unit {0})
ndr_write_int64 v = ndr_write_int 8 v

abbrev pub ndr_read_int8 : Action ℕ
ndr_read_int8 = ndr_read_int 1

abbrev pub ndr_read_int16 : Action ℕ
ndr_read_int16 = ndr_read_int 2

abbrev pub ndr_read_int32 : Action ℕ
ndr_read_int32 = ndr_read_int 4

abbrev pub ndr_read_int64 : Action ℕ
ndr_read_int64 = ndr_read_int 8

-- NDR_WRITE_UNION and NDR_READ_UNION: the discriminant twice
unfoldable pub ndr_write_union : ℕ → ℕ → Action (Unit {0})
ndr_write_union n v = ndr_write_int n v >> ndr_write_int n v

unfoldable pub ndr_read_union_int32 : Action ℕ
ndr_read_union_int32 = do
  val1 ← ndr_read_int32
  val2 ← ndr_read_int32
  guard (val1 == val2)
  return val1

unfoldable pub ndr_write_bytes : List ℕ → Action (Unit {0})
ndr_write_bytes octets = align_offset 2 >> store octets

unfoldable pub ndr_read_bytes : ℕ → Action (List ℕ)
ndr_read_bytes n = align_offset 2 >> fetch n

-- the loops that write an array of integers, and read one
unfoldable pub write_ints : ℕ → List ℕ → Action (Unit {0})
write_ints n [] = return tt
write_ints n (v ∷ vs) = ndr_write_int n v >> write_ints n vs

unfoldable pub read_ints : ℕ → ℕ → Action (List ℕ)
read_ints n zero = return []
read_ints n (suc k) = ndr_read_int n >>= (λ v. read_ints n k >>= (λ vs. return (v ∷ vs)))
