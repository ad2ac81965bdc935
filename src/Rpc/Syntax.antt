-- ===== src/Rpc/Syntax.antt =====
-- The syntaxes of a DCE/RPC connection in mountd/rpc.c and include/rpc.h: what is read and written
-- of an interface, and which transfer syntaxes are known.
pub mod RoundTrip
use ksmbd_tools.Base.{ℕ, ◌==◌, if◌then◌else◌, ◌&&◌}
use ksmbd_tools.Base.{Bool, Option, none, some, List, [], ◌∷◌, str_eq}
use ksmbd_tools.Rpc.Ndr.{
  Action, ◌>>=◌, ◌>>◌, return, ndr_read_int16, ndr_read_int32, ndr_write_int16, ndr_write_int32,
  ndr_write_bytes, ndr_read_bytes,
}

-- `dcerpc_syntax` with its `dcerpc_guid`
pub record Syntax : Type 0 where
  pub time_low : ℕ
  pub time_mid : ℕ
  pub time_hi_and_version : ℕ
  pub clock_seq : List ℕ
  pub node : List ℕ
  pub ver_major : ℕ
  pub ver_minor : ℕ

unfoldable pub read_syntax : Action Syntax
read_syntax = do
  time_low ← ndr_read_int32
  time_mid ← ndr_read_int16
  time_hi_and_version ← ndr_read_int16
  clock_seq ← ndr_read_bytes 2
  node ← ndr_read_bytes 6
  ver_major ← ndr_read_int16
  ver_minor ← ndr_read_int16
  return (record {
    time_low = time_low;
    time_mid = time_mid;
    time_hi_and_version = time_hi_and_version;
    clock_seq = clock_seq;
    node = node;
    ver_major = ver_major;
    ver_minor = ver_minor;
  })

unfoldable pub write_syntax : Syntax → Action (Unit {0})
write_syntax syn = do
  ndr_write_int32 syn.time_low
  ndr_write_int16 syn.time_mid
  ndr_write_int16 syn.time_hi_and_version
  ndr_write_bytes syn.clock_seq
  ndr_write_bytes syn.node
  ndr_write_int16 syn.ver_major
  ndr_write_int16 syn.ver_minor

unfoldable pub is_dssetup_interface : Syntax → Bool
is_dssetup_interface syn =
    syn.time_low == 0x3919286a && (syn.time_mid == 0xb10c && syn.time_hi_and_version == 0x11d0)

-- whether `dcerpc_syntax_cmp` returns 0
unfoldable pub dcerpc_syntax_same : Syntax → Syntax → Bool
dcerpc_syntax_same a b =
    a.time_low == b.time_low
    && (a.time_mid == b.time_mid
        && (a.time_hi_and_version == b.time_hi_and_version
            && (str_eq a.clock_seq b.clock_seq
                && (str_eq a.node b.node
                    && (a.ver_major == b.ver_major && a.ver_minor == b.ver_minor)))))

abbrev pub ndr_syntax : Syntax
ndr_syntax = record {
  time_low = 0x8a885d04;
  time_mid = 0x1ceb;
  time_hi_and_version = 0x11c9;
  clock_seq = 0x9f ∷ 0xe8 ∷ [];
  node = 0x8 ∷ 0x0 ∷ 0x2b ∷ 0x10 ∷ 0x48 ∷ 0x60 ∷ [];
  ver_major = 2;
  ver_minor = 0;
}

abbrev pub feature_syntax : Syntax
feature_syntax = record {
  time_low = 0x6CB71C2C;
  time_mid = 0x9812;
  time_hi_and_version = 0x4540;
  clock_seq = 0 ∷ 0 ∷ [];
  node = 0 ∷ 0 ∷ 0 ∷ 0 ∷ 0 ∷ 0 ∷ [];
  ver_major = 1;
  ver_minor = 0;
}

-- `negotiate_ack_PNIO_uuid`
abbrev pub zero_syntax : Syntax
zero_syntax = record {
  time_low = 0;
  time_mid = 0;
  time_hi_and_version = 0;
  clock_seq = 0 ∷ 0 ∷ [];
  node = 0 ∷ 0 ∷ 0 ∷ 0 ∷ 0 ∷ 0 ∷ [];
  ver_major = 0;
  ver_minor = 0;
}

-- DCERPC_BIND_ACK_RES_ACCEPT, PROVIDER_REJECT and NEGOTIATE_ACK
abbrev pub res_accept : ℕ
res_accept = 0

abbrev pub res_provider_reject : ℕ
res_provider_reject = 2

abbrev pub res_negotiate_ack : ℕ
res_negotiate_ack = 3

abbrev pub known_syntaxes : List (Syntax × ℕ)
known_syntaxes = (ndr_syntax, res_accept) ∷ (feature_syntax, res_negotiate_ack) ∷ []

unfoldable pub supported_in : List (Syntax × ℕ) → Syntax → Option ℕ
supported_in [] a = none
supported_in ((b, result) ∷ known) a =
    if dcerpc_syntax_same a b then some result else supported_in known a

-- -1 is `none`.
unfoldable pub dcerpc_syntax_supported : Syntax → Option ℕ
unfolding supported_in
dcerpc_syntax_supported a = supported_in known_syntaxes a

-- the first of the transfer syntaxes that is supported, with its result
unfoldable pub chosen : List Syntax → Option (Syntax × ℕ)
chosen [] = none
chosen (s ∷ ss) = elim (dcerpc_syntax_supported s) [
  | none ↦ chosen ss
  | some result ↦ some (s, result)
]
