-- ===== src/Rpc/Bind.antt =====
-- The bind of a DCE/RPC connection in mountd/rpc.c: the parsing of the request
-- (`dcerpc_parse_bind_req`), and its answer (`dcerpc_bind_return`).
-- The allocations of a bind do not fail. `BindRequest` stands apart from the other members of
-- its union, and `list` is the list that the C code frees; both stay where the request is not read.
pub mod Parse
pub mod Answered
pub mod Nack
use ksmbd_tools.Base.{ℕ, zero, suc, ◌/◌, ◌%◌, ◌^◌, ◌==◌, if◌then◌else◌, not}
use ksmbd_tools.Base.{Bool, true, false, Option, none, some, List, [], ◌∷◌, length}
use ksmbd_tools.Rpc.Ndr.{
  Action, ◌>>=◌, ◌>>◌, return, guard, align_offset, auto_align_offset, seek, tell, progress,
  ndr_read_int8, ndr_read_int16, ndr_read_int32, ndr_write_int8, ndr_write_int16, ndr_write_int32,
  ndr_write_bytes, ndr_write_union,
}
use ksmbd_tools.Rpc.Header.{
  Header, ptype_bindack, ptype_bindnack, ptype_altcont, ptype_altcontresp, dcerpc_hdr_write,
}
use ksmbd_tools.Rpc.Syntax.{
  Syntax, chosen, is_dssetup_interface, known_syntaxes, read_syntax, res_accept,
  res_provider_reject, write_syntax, zero_syntax,
}

pub record Context : Type 0 where
  pub id : ℕ
  pub num_syntaxes : ℕ
  pub abstract_syntax : Syntax
  pub transfer_syntaxes : List Syntax

pub record BindRequest : Type 0 where
  pub flags : ℕ
  pub max_xmit_frag_sz : ℕ
  pub max_recv_frag_sz : ℕ
  pub assoc_group_id : ℕ
  pub num_contexts : ℕ
  pub list : List Context

-- KSMBD_RPC_OK, EBAD_FUNC, EBAD_FID, ENOMEM, EBAD_DATA, ENOTIMPLEMENTED; -EEXIST; another value
-- that a service returns
pub data Status : Type 0 where
  ok bad_func bad_fid no_memory bad_data not_implemented exist : Status
  other : ℕ → Status

unfoldable pub read_syntaxes : ℕ → Action (List Syntax)
read_syntaxes zero = return []
read_syntaxes (suc n) = read_syntax >>= (λ s. read_syntaxes n >>= (λ ss. return (s ∷ ss)))

unfoldable pub read_context : Action Context
read_context = do
  id ← ndr_read_int16
  num_syntaxes ← ndr_read_int8
  guard (not (num_syntaxes == 0))
  abstract_syntax ← read_syntax
  transfer_syntaxes ← read_syntaxes num_syntaxes
  return (record {
    id = id;
    num_syntaxes = num_syntaxes;
    abstract_syntax = abstract_syntax;
    transfer_syntaxes = transfer_syntaxes;
  })

unfoldable pub read_contexts : ℕ → Action (List Context)
read_contexts zero = return []
read_contexts (suc n) = read_context >>= (λ c. read_contexts n >>= (λ cs. return (c ∷ cs)))

unfoldable pub dcerpc_bind_req_free : BindRequest → BindRequest
dcerpc_bind_req_free hdr = record hdr { num_contexts = 0; list = [] }

-- Whether it returns 0, and the request that `hdr` is then; `flags` are those of the command.
unfoldable pub dcerpc_parse_bind_req : ℕ → BindRequest → Action (Bool × BindRequest)
unfolding dcerpc_bind_req_free
dcerpc_parse_bind_req flags hdr =
    let hdr0 = record hdr { flags = flags } in
    progress ndr_read_int16 (false, hdr0)
      λ max_xmit.
        let hdr1 = record hdr0 { max_xmit_frag_sz = max_xmit } in
        progress ndr_read_int16 (false, hdr1)
          λ max_recv.
            let hdr2 = record hdr1 { max_recv_frag_sz = max_recv } in
            progress ndr_read_int32 (false, hdr2)
              λ assoc.
                let hdr3 = record hdr2 { assoc_group_id = assoc } in
                progress ndr_read_int8 (false, hdr3)
                  λ n.
                    let hdr4 = record hdr3 { num_contexts = n; list = [] } in
                    auto_align_offset
                    >> progress (read_contexts n) (false, dcerpc_bind_req_free hdr4)
                        λ list. return (true, record hdr4 { list = list })

-- the id of the first context that binds it
unfoldable pub dssetup_context : List Context → Option ℕ → Option ℕ
dssetup_context [] id = id
dssetup_context (c ∷ cs) id =
    if is_dssetup_interface c.abstract_syntax then some c.id else dssetup_context cs id

unfoldable pub write_versions : List (Syntax × ℕ) → Action (Unit {0})
write_versions [] = return tt
write_versions ((syn, result) ∷ known) =
    ndr_write_int8 syn.ver_major >> (ndr_write_int8 syn.ver_minor >> write_versions known)

-- The end of an answer of type `ptype`: the header in front of it. What stands is the status, the
-- header, and `payload_sz` of the response where it is set.
abbrev pub Answer : Type 0
Answer = Status × Header × Option ℕ

unfoldable pub put_header : ℕ → Header → Action Answer
put_header ptype hdr = do
  payload_offset ← tell
  seek 0
  let hdr' = record hdr { ptype = ptype; pfc_flags = 3; frag_length = payload_offset % 2 ^ 16 }
  progress (dcerpc_hdr_write hdr') (bad_data, hdr', none)
      λ u. seek payload_offset >> return (ok, hdr', some payload_offset)

-- DCERPC_BIND_NAK_RSN_PROTOCOL_VERSION_NOT_SUPPORTED is 4.
unfoldable pub dcerpc_bind_nack_return : Header → Action Answer
unfolding write_versions put_header
dcerpc_bind_nack_return hdr = do
  seek 16
  ndr_write_int16 4
  ndr_write_int8 2
  auto_align_offset
  write_versions known_syntaxes
  put_header ptype_bindnack hdr

abbrev pub bit : ℕ → ℕ → Bool
bit k flags = flags / 2 ^ k % 2 == 1

-- a string behind `\PIPE\`
abbrev pipe_name : List ℕ → List ℕ
pipe_name name = b'\\' ∷ b'P' ∷ b'I' ∷ b'P' ∷ b'E' ∷ b'\\' ∷ name

unfoldable pub pipe_address : ℕ → Option (List ℕ)
pipe_address flags =
    if bit 1 flags
    then some (pipe_name (b's' ∷ b'r' ∷ b'v' ∷ b's' ∷ b'v' ∷ b'c' ∷ []))
    else if bit 2 flags
    then some (pipe_name (b'w' ∷ b'k' ∷ b's' ∷ b's' ∷ b'v' ∷ b'c' ∷ []))
    else if bit 10 flags
    then some (pipe_name (b's' ∷ b'a' ∷ b'm' ∷ b'r' ∷ []))
    else if bit 11 flags
    then some (pipe_name (b'l' ∷ b's' ∷ b'a' ∷ b'r' ∷ b'p' ∷ b'c' ∷ []))
    else none

-- `transfer_syntaxes[0]`, which is there for a context that is read
abbrev pub first_syntax : List Syntax → Syntax
first_syntax [] = zero_syntax
first_syntax (s ∷ ss) = s

abbrev pub write_result : Context → Action (Unit {0})
write_result c = elim (chosen c.transfer_syntaxes) [
  | none ↦ ndr_write_union 2 res_provider_reject >> write_syntax (first_syntax c.transfer_syntaxes)
  | some (s, result) ↦
      if result == res_accept
      then ndr_write_union 2 result >> write_syntax s
      else ndr_write_int16 result >> (ndr_write_int16 0 >> write_syntax zero_syntax)
]

unfoldable pub write_results : List Context → Action (Unit {0})
write_results [] = return tt
write_results (c ∷ cs) = write_result c >> write_results cs

abbrev pub write_address : ℕ → List ℕ → Action (Unit {0})
write_address ptype addr =
    if ptype == ptype_altcont
    then ndr_write_int16 0 >> ndr_write_int16 0
    else ndr_write_int16 (length addr) >> ndr_write_bytes addr

abbrev pub some_group : ℕ → ℕ
some_group id = if id == 0 then 0x53f0 else id

unfoldable pub dcerpc_bind_ack_return : Header → BindRequest → Action Answer
unfolding pipe_address write_results put_header
dcerpc_bind_ack_return hdr bi_req = do
  seek 16
  ndr_write_int16 bi_req.max_xmit_frag_sz
  ndr_write_int16 bi_req.max_recv_frag_sz
  ndr_write_int32 (some_group bi_req.assoc_group_id)
  elim (pipe_address bi_req.flags) [
    | none ↦ return (bad_func, hdr, none)
    | some addr ↦
        write_address hdr.ptype addr
        >> (align_offset 4
            >> (ndr_write_int8 bi_req.num_contexts
                >> (align_offset 2
                    >> (write_results bi_req.list
                        >> put_header
                            (if hdr.ptype == ptype_altcont
                              then ptype_altcontresp
                              else ptype_bindack)
                            hdr))))
  ]

-- whether a transfer syntax of any context is supported
unfoldable pub acknowledged : List Context → Bool
acknowledged [] = false
acknowledged (c ∷ cs) = elim (chosen c.transfer_syntaxes) [ none ↦ acknowledged cs | some r ↦ true ]

-- the answer, and the request that is left; a failed write is EBAD_DATA
unfoldable pub dcerpc_bind_return : Header → BindRequest → Action (Answer × BindRequest)
unfolding dcerpc_bind_req_free acknowledged
dcerpc_bind_return hdr bi_req =
    let ack = acknowledged bi_req.list in
    let left =
      if ack then record bi_req { assoc_group_id = some_group bi_req.assoc_group_id } else bi_req in
    let freed = dcerpc_bind_req_free left in
    progress (if ack then dcerpc_bind_ack_return hdr bi_req else dcerpc_bind_nack_return hdr)
      ((bad_data, hdr, none), freed) (λ answer. return (answer, freed))
