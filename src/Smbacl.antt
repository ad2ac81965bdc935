-- ===== src/Smbacl.antt =====
-- mountd/smbacl.c and include/smbacl.h: security identifiers and the security descriptor of a user,
-- over the NDR routines of mountd/rpc.c.
-- `sub_auth` is the array of SID_MAX_SUB_AUTHORITIES entries, of which `num_subauth` count.
pub mod RoundTrip
pub mod Compare
pub mod Ace
pub mod Dacl
pub mod Descriptor
mod Tests
use ksmbd_tools.Base.{ℕ, zero, suc, ◌+◌, ◌*◌, ◌/◌, ◌%◌, ltb, leb, ◌==◌, if◌then◌else◌, not, ◌&&◌}
use ksmbd_tools.Base.{
  Bool, true, false, Option, none, some, List, [], ◌∷◌, ◌++◌, length, take, drop, replicate, str_eq,
}
use ksmbd_tools.Rpc.Ndr.{
  Action, ◌>>=◌, ◌>>◌, return, fail, guard, ndr_read_int8, ndr_write_int8, ndr_write_int16,
  ndr_write_int32, write_ints, read_ints, skip, seek, tell,
}

abbrev pub num_auths : ℕ
num_auths = 6

abbrev pub sid_max_sub_authorities : ℕ
sid_max_sub_authorities = 15

pub record Sid : Type 0 where
  pub revision : ℕ
  pub num_subauth : ℕ
  pub authority : List ℕ
  pub sub_auth : List ℕ

-- one sub-authority in an array of zeros
abbrev pub sid_of : ℕ → ℕ → ℕ → Sid
sid_of num auth sub = record {
  revision = 1;
  num_subauth = num;
  authority = 0 ∷ 0 ∷ 0 ∷ 0 ∷ 0 ∷ auth ∷ [];
  sub_auth = sub ∷ 0 ∷ 0 ∷ 0 ∷ 0 ∷ 0 ∷ 0 ∷ 0 ∷ 0 ∷ 0 ∷ 0 ∷ 0 ∷ 0 ∷ 0 ∷ 0 ∷ [];
}

abbrev pub sid_domain : Sid
sid_domain = sid_of 1 5 21

abbrev pub sid_everyone : Sid
sid_everyone = sid_of 1 1 0

abbrev pub sid_unix_users : Sid
sid_unix_users = sid_of 1 22 1

abbrev pub sid_unix_groups : Sid
sid_unix_groups = sid_of 1 22 2

abbrev pub sid_local_group : Sid
sid_local_group = sid_of 1 5 32

-- what is read goes over the sid that the caller gives
unfoldable pub smb_read_sid : Sid → Action Sid
smb_read_sid sid = do
  revision ← ndr_read_int8
  num_subauth ← ndr_read_int8
  guard (not (num_subauth == 0) && leb num_subauth sid_max_sub_authorities)
  authority ← read_ints 1 num_auths
  sub_auth ← read_ints 4 num_subauth
  return (record {
    revision = revision;
    num_subauth = num_subauth;
    authority = authority;
    sub_auth = sub_auth ++ drop num_subauth sid.sub_auth;
  })

unfoldable pub smb_write_sid : Sid → Action (Unit {0})
smb_write_sid src = do
  guard (leb src.num_subauth sid_max_sub_authorities)
  ndr_write_int8 src.revision
  ndr_write_int8 src.num_subauth
  write_ints 1 (take num_auths src.authority)
  write_ints 4 (take src.num_subauth src.sub_auth)

unfoldable pub smb_copy_sid : Sid → Sid → Sid
smb_copy_sid dst src = if ltb sid_max_sub_authorities src.num_subauth then dst else record {
  revision = src.revision;
  num_subauth = src.num_subauth;
  authority = take num_auths src.authority;
  sub_auth = take src.num_subauth src.sub_auth ++ drop src.num_subauth dst.sub_auth;
}

-- `global_conf.gen_subauth` has three entries.
unfoldable pub smb_init_domain_sid : List ℕ → Sid
smb_init_domain_sid gen_subauth = record {
  revision = 1;
  num_subauth = 4;
  authority = 0 ∷ 0 ∷ 0 ∷ 0 ∷ 0 ∷ 5 ∷ [];
  sub_auth = 21 ∷ (take 3 gen_subauth ++ replicate 11 0);
}

-- -1, 0 and 1
pub data Order : Type 0 where
  less same greater : Order

abbrev pub then_compare : Order → Order → Order
then_compare less o = less
then_compare same o = o
then_compare greater o = greater

unfoldable pub compare_int : ℕ → ℕ → Order
compare_int x y = if x == y then same else if ltb y x then greater else less

-- the first `n` entries of two arrays
unfoldable pub compare_ints : ℕ → List ℕ → List ℕ → Order
compare_ints (suc n) (x ∷ xs) (y ∷ ys) = then_compare (compare_int x y) (compare_ints n xs ys)
compare_ints _ _ _ = same

-- for two identifiers that are there; a NULL for either answers 1
unfoldable pub smb_compare_sids : Sid → Sid → Order
smb_compare_sids ctsid cwsid =
    let num =
      if ltb ctsid.num_subauth cwsid.num_subauth then ctsid.num_subauth else cwsid.num_subauth in
    then_compare (compare_int ctsid.revision cwsid.revision) (
      then_compare (compare_ints num_auths ctsid.authority cwsid.authority)
        (compare_ints num ctsid.sub_auth cwsid.sub_auth))

abbrev pub smb_access_allowed : ℕ
smb_access_allowed = 0

-- `rid`, if it is not 0, goes behind the sub-authorities.
unfoldable pub with_rid : ℕ → Sid → Option Sid
with_rid zero sid = some sid
with_rid (suc r) sid =
    if leb sid_max_sub_authorities sid.num_subauth
    then none
    else some (record sid {
      num_subauth = sid.num_subauth + 1;
      sub_auth =
          take sid.num_subauth sid.sub_auth ++ (suc r ∷ drop (sid.num_subauth + 1) sid.sub_auth);
    })

unfoldable pub ace_size : ℕ → Sid → ℕ
ace_size rid sid = 16 + sid.num_subauth * 4 + (if rid == 0 then 0 else 4)

abbrev lift : {A : Type 0} → Option A → Action A
lift none = fail
lift (some a) = return a

-- A negative value is `none`.
unfoldable pub smb_set_ace : ℕ → ℕ → Sid → Action ℕ
unfolding with_rid ace_size
smb_set_ace access_req rid rsid = do
  ndr_write_int8 smb_access_allowed
  ndr_write_int8 0
  ndr_write_int16 (ace_size rid rsid)
  ndr_write_int32 access_req
  sid ← lift (with_rid rid rsid)
  smb_write_sid sid
  return (ace_size rid rsid)

-- `owner_domain`: the three generated sub-authorities behind that of the domain
abbrev pub owner_sid : List ℕ → Sid
owner_sid gen_subauth = record sid_domain {
  num_subauth = 4;
  sub_auth = 21 ∷ (take 3 gen_subauth ++ replicate 11 0);
}

unfoldable pub set_dacl : List ℕ → ℕ → Action ℕ
set_dacl gen_subauth rid = do
  everyone ← smb_set_ace 0x0002035b 0 sid_everyone
  administrators ← smb_set_ace 0x000f07ff 544 sid_local_group
  operators ← smb_set_ace 0x000f07ff 548 sid_local_group
  owner ← smb_set_ace 0x00020044 rid (owner_sid gen_subauth)
  return (everyone + administrators + operators + owner)

-- Revision 1, SELF_RELATIVE | DACL_PRESENT, and the offsets: 20 octets; then 8 of the DACL. The size of
-- the DACL is filled in behind the entries. `*secdesclen` is the result.
unfoldable pub build_sec_desc : List ℕ → ℕ → Action ℕ
build_sec_desc gen_subauth rid = do
  ndr_write_int16 1
  ndr_write_int16 0x8004
  write_ints 4 (0 ∷ 0 ∷ 0 ∷ 20 ∷ [])
  ndr_write_int16 2
  acl_size_offset ← tell
  skip 2
  ndr_write_int32 4
  dacl ← set_dacl gen_subauth rid
  let acl_size = dacl + 8
  l_offset ← tell
  seek acl_size_offset
  ndr_write_int16 acl_size
  seek l_offset
  return (20 + acl_size)

-- `%u`: the decimal digits, of which 32 bits have ten at most
digits : ℕ → ℕ → List ℕ → List ℕ
digits zero n out = out
digits (suc fuel) n out =
    let out' = (48 + n % 10) ∷ out in
    let rest = digits fuel (n / 10) out' in if n / 10 == 0 then out' else rest

unfoldable pub decimal : ℕ → List ℕ
unfolding digits
decimal n = digits 10 n []

-- the loop of `smb_sid_to_string`: what is printed so far, while it is shorter than the buffer
unfoldable pub print_subauths : ℕ → List ℕ → List ℕ → Option (List ℕ)
print_subauths domain_len [] out = some out
print_subauths domain_len (s ∷ ss) out =
    let out' = out ++ (b'-' ∷ decimal s) in
    let rest = print_subauths domain_len ss out' in
    if leb domain_len (length out') then none else rest

unfoldable pub smb_sid_to_string : ℕ → Sid → Option (List ℕ)
smb_sid_to_string domain_len sid =
    let auth : ℕ = elim (drop 5 sid.authority) [ [] ↦ 0 | a ∷ rest ↦ a ] in
    let out = b'S' ∷ b'-' ∷ (decimal sid.revision ++ (b'-' ∷ decimal auth)) in
    if leb domain_len (length out)
    then none
    else print_subauths domain_len (take sid.num_subauth sid.sub_auth) out

pub data SidType : Type 0 where
  user group unknown : SidType

-- `ret` and `*type`: the name that is printed with its type, -ENOENT with a printed sid, or an error
pub data Named : Type 0 where
  named : SidType → List ℕ → Named
  no_entry : List ℕ → Named
  nomem : Named

abbrev same_sid : Sid → Sid → Bool
same_sid a b = elim (smb_compare_sids a b) [ same ↦ true | _ ↦ false ]

-- `snprintf(domain, domain_len, "%s", name)`
abbrev printed : ℕ → (List ℕ → Named) → List ℕ → Named
printed domain_len k name = if leb domain_len (length name) then nomem else k name

abbrev unix_user : List ℕ
unix_user = b'U' ∷ b'n' ∷ b'i' ∷ b'x' ∷ b' ' ∷ b'U' ∷ b's' ∷ b'e' ∷ b'r' ∷ []

abbrev unix_group : List ℕ
unix_group = b'U' ∷ b'n' ∷ b'i' ∷ b'x' ∷ b' ' ∷ b'G' ∷ b'r' ∷ b'o' ∷ b'u' ∷ b'p' ∷ []

-- `gethostname`, cut to its buffer, and `g_ascii_strup`, which does not fail
pub record Host : Type 0 where
  pub gethostname : Option (List ℕ)
  pub g_ascii_strup : List ℕ → List ℕ

abbrev pub domain_str_size : ℕ
domain_str_size = 257

-- `set_domain_name`; `memcmp` of the three sub-authorities behind the first
unfoldable pub set_domain_name : Host → List ℕ → ℕ → Sid → Named
set_domain_name host gen_subauth domain_len sid =
    if same_sid sid sid_domain && str_eq (take 3 (drop 1 sid.sub_auth)) (take 3 gen_subauth)
    then elim host.gethostname [
      | none ↦ nomem
      | some name ↦ printed domain_len (named user) (host.g_ascii_strup name)
    ]
    else if same_sid sid sid_unix_users
    then printed domain_len (named user) unix_user
    else if same_sid sid sid_unix_groups
    then printed domain_len (named group) unix_group
    else elim (smb_sid_to_string domain_str_size sid) [
      | none ↦ nomem
      | some text ↦
          if ltb domain_len (length text)
          then nomem
          else printed domain_len no_entry (host.g_ascii_strup text)
    ]
