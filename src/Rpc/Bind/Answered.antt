-- ===== src/Rpc/Bind/Answered.antt =====
-- What `dcerpc_bind_return` of mountd/rpc.c answers to a bind.
use ksmbd_tools.Base.{ℕ, ◌%◌, ◌^◌, ◌≡◌, ◌≢◌, ◌==◌, if◌then◌else◌}
use ksmbd_tools.Base.{Bool, Option, none, some, List}
use ksmbd_tools.Rpc.Ndr.{Action, ◌>>◌, return, align_offset, ndr_write_int}
use ksmbd_tools.Rpc.Ndr.Ends.{Ends}
use ksmbd_tools.Rpc.Header.{Header, ptype_bindack, ptype_bindnack, ptype_altcont, ptype_altcontresp}
use ksmbd_tools.Rpc.Bind.{
  Status, BindRequest, Answer, put_header, write_address, write_results, acknowledged,
  dcerpc_bind_nack_return, dcerpc_bind_ack_return,
}

-- the type of the answer
unfoldable pub answer_type : Header → BindRequest → ℕ
answer_type hdr bi_req =
    if acknowledged bi_req.list
    then (if hdr.ptype == ptype_altcont then ptype_altcontresp else ptype_bindack)
    else ptype_bindnack

-- An answer of `n` octets has status 0 and the header of the request, but for its type, the flags of
-- the only fragment and `n` as its length; any other answer has another status.
abbrev pub Proper : ℕ → Header → Answer → Type 0
Proper t hdr (status, hdr', none) = status ≢ Status.ok
Proper t hdr (status, hdr', some n) =
    (status ≡ Status.ok)
    × (hdr' ≡ record hdr { ptype = t; pfc_flags = 3; frag_length = n % 2 ^ 16 })

ack_type : Header → ℕ
ack_type hdr = if hdr.ptype == ptype_altcont then ptype_altcontresp else ptype_bindack

-- the part behind the sizes and the group
abbrev behind_group : Header → BindRequest → Option (List ℕ) → Action Answer
behind_group hdr bi address = elim address [
  | none ↦ return (Status.bad_func, hdr, none)
  | some addr ↦
      write_address hdr.ptype addr
      >> (align_offset 4
          >> (ndr_write_int 1 bi.num_contexts
              >> (align_offset 2
                  >> (write_results bi.list
                      >> put_header
                          (if hdr.ptype == ptype_altcont then ptype_altcontresp else ptype_bindack)
                          hdr))))
]

abbrev answer_action : Header → BindRequest → Bool → Action Answer
answer_action hdr bi ack =
    if ack then dcerpc_bind_ack_return hdr bi else dcerpc_bind_nack_return hdr
