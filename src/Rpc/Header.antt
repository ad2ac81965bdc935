-- ===== src/Rpc/Header.antt =====
-- The headers of a DCE/RPC message in mountd/rpc.c and include/rpc.h: `dcerpc_hdr_write` and
-- `dcerpc_hdr_read`, the request's and the response's header, and `dcerpc_write_headers`.
pub mod RoundTrip
pub mod Response
use ksmbd_tools.Base.{ℕ, ◌%◌, ◌^◌, ◌==◌, if◌then◌else◌}
use ksmbd_tools.Base.{Bool, true, false, some, List, [], ◌∷◌}
use ksmbd_tools.Rpc.Ndr.{
  Action, ◌>>=◌, ◌>>◌, return, seek, tell, progress, ndr_read_int8, ndr_read_int16, ndr_read_int32,
  ndr_write_int8, ndr_write_int16, ndr_write_int32, ndr_write_bytes, ndr_read_bytes,
}

pub record Header : Type 0 where
  pub rpc_vers : ℕ
  pub rpc_vers_minor : ℕ
  pub ptype : ℕ
  pub pfc_flags : ℕ
  pub packed_drep : List ℕ
  pub frag_length : ℕ
  pub auth_length : ℕ
  pub call_id : ℕ

pub record RequestHeader : Type 0 where
  pub alloc_hint : ℕ
  pub context_id : ℕ
  pub opnum : ℕ

abbrev pub ptype_request : ℕ
ptype_request = 0

abbrev pub ptype_response : ℕ
ptype_response = 2

abbrev pub ptype_bind : ℕ
ptype_bind = 11

abbrev pub ptype_bindack : ℕ
ptype_bindack = 12

abbrev pub ptype_bindnack : ℕ
ptype_bindnack = 13

abbrev pub ptype_altcont : ℕ
ptype_altcont = 14

abbrev pub ptype_altcontresp : ℕ
ptype_altcontresp = 15

unfoldable pub dcerpc_hdr_write : Header → Action (Unit {0})
dcerpc_hdr_write hdr = do
  ndr_write_int8 hdr.rpc_vers
  ndr_write_int8 hdr.rpc_vers_minor
  ndr_write_int8 hdr.ptype
  ndr_write_int8 hdr.pfc_flags
  ndr_write_bytes hdr.packed_drep
  ndr_write_int16 hdr.frag_length
  ndr_write_int16 hdr.auth_length
  ndr_write_int32 hdr.call_id

abbrev pub is_little : List ℕ → Bool
is_little [] = false
is_little (b ∷ bs) = b == 16

-- the flags by the first octet of `packed_drep`
abbrev pub set_order : List ℕ → Action (Unit {0})
set_order drep d = (some tt, record d { align4 = true; little_endian = is_little drep })

-- the last three fields, which are stored together
abbrev pub read_lengths : Header → Action (Bool × Header)
read_lengths hdr =
    progress ndr_read_int16 (false, hdr)
      λ frag_length.
        progress ndr_read_int16 (false, hdr)
          λ auth_length.
            progress ndr_read_int32 (false, hdr)
              λ call_id. return (
                true,
                record hdr {
                  frag_length = frag_length;
                  auth_length = auth_length;
                  call_id = call_id;
                },
              )

-- Whether it returns 0, and the header that `hdr` is then.
unfoldable pub dcerpc_hdr_read : Header → Action (Bool × Header)
dcerpc_hdr_read hdr =
    progress ndr_read_int8 (false, hdr)
      λ rpc_vers.
        let hdr1 = record hdr { rpc_vers = rpc_vers } in
        progress ndr_read_int8 (false, hdr1)
          λ rpc_vers_minor.
            let hdr2 = record hdr1 { rpc_vers_minor = rpc_vers_minor } in
            progress ndr_read_int8 (false, hdr2)
              λ ptype.
                let hdr3 = record hdr2 { ptype = ptype } in
                progress ndr_read_int8 (false, hdr3)
                  λ pfc_flags.
                    let hdr4 = record hdr3 { pfc_flags = pfc_flags } in
                    progress (ndr_read_bytes 4) (false, hdr4)
                      λ packed_drep.
                        set_order packed_drep
                        >> read_lengths (record hdr4 { packed_drep = packed_drep })

unfoldable pub dcerpc_request_hdr_read : Action RequestHeader
dcerpc_request_hdr_read = do
  alloc_hint ← ndr_read_int32
  context_id ← ndr_read_int16
  opnum ← ndr_read_int16
  return (record { alloc_hint = alloc_hint; context_id = context_id; opnum = opnum })

-- `cancel_count` and `reserved`, the two octets of `opnum`, are 0.
unfoldable pub dcerpc_response_hdr_write : ℕ → ℕ → Action (Unit {0})
dcerpc_response_hdr_write alloc_hint context_id = do
  ndr_write_int32 alloc_hint
  ndr_write_int16 context_id
  ndr_write_int8 0
  ndr_write_int8 0

-- the header of a response of `n` octets, which more may follow
abbrev pub response_header : Bool → ℕ → Header → Header
response_header more_data n hdr = record hdr {
  ptype = ptype_response;
  pfc_flags = if more_data then 1 else 3;
  frag_length = n % 2 ^ 16;
}

-- in front of a response that ends at the offset
unfoldable pub dcerpc_write_headers : Bool → Header → RequestHeader → Action Header
dcerpc_write_headers more_data hdr req_hdr = do
  payload_offset ← tell
  seek 0
  dcerpc_hdr_write (response_header more_data payload_offset hdr)
  dcerpc_response_hdr_write (payload_offset % 2 ^ 32) req_hdr.context_id
  seek payload_offset
  return (response_header more_data payload_offset hdr)
