-- ===== src/Rpc/Bind/Nack.antt =====
-- The refusal of a bind in mountd/rpc.c, as its client reads it.
use ksmbd_tools.Base.{ℕ, ◌+◌, ◌^◌, ◌≤◌, ◌<◌, ◌≡◌, refl, sym, ◌∙◌, arith}
use ksmbd_tools.Base.{Bool, true, false, none, some, List, length}
use ksmbd_tools.Rpc.Ndr.{Ndr, Action, ◌>>◌, return, align, auto_align_offset, seek, ndr_write_int}
use ksmbd_tools.Rpc.Ndr.Monad.{bind-some, bind_assoc, progress-some}
use ksmbd_tools.Rpc.Ndr.Writes.{
  Mode, at, Writes, Writes-int8, Writes-int16, Writes-auto, Writes-seq, Writes-return,
}
use ksmbd_tools.Rpc.Header.{Header, ptype_bindnack, dcerpc_hdr_write, dcerpc_hdr_read}
use ksmbd_tools.Rpc.Header.RoundTrip.{WfHeader, dcerpc_hdr_read-dcerpc_hdr_write}
use ksmbd_tools.Rpc.Syntax.{known_syntaxes}
use ksmbd_tools.Rpc.Bind.{
  Status, BindRequest, Answer, write_versions, put_header, acknowledged, dcerpc_bind_nack_return,
  dcerpc_bind_req_free, dcerpc_bind_return,
}

-- what is written behind the header
abbrev reason : Action (Unit {0})
reason =
    ndr_write_int 2 4 >> (ndr_write_int 1 2 >> (auto_align_offset >> write_versions known_syntaxes))

abbrev versions_end : ℕ → ℕ
versions_end o = align 1 (align 1 (align 1 (align 1 o + 1) + 1) + 1) + 1

abbrev pub nack_header : Header → Header
nack_header hdr = record hdr { ptype = ptype_bindnack; pfc_flags = 3; frag_length = 24 }

module _ {le : Bool} where
  Writes-octet :
      (v : ℕ) (w : Action (Unit {0})) (g : ℕ → ℕ)
      → Writes le w tt g
      → Writes le (ndr_write_int 1 v >> w) tt (λ o. g (align 1 o + 1))
  Writes-octet v w g hw =
      Writes-seq (ndr_write_int 1 v) (λ _. w) tt tt (λ o. align 1 o + 1) g (Writes-int8 v) hw

  Writes-write_versions : Writes le (write_versions known_syntaxes) tt versions_end
  unfolding write_versions
  Writes-write_versions =
      Writes-octet 2 (ndr_write_int 1 0 >> (ndr_write_int 1 1 >> (ndr_write_int 1 0 >> return tt)))
        (λ o. align 1 (align 1 (align 1 o + 1) + 1) + 1)
        (Writes-octet 0 (ndr_write_int 1 1 >> (ndr_write_int 1 0 >> return tt))
          (λ o. align 1 (align 1 o + 1) + 1)
          (Writes-octet 1 (ndr_write_int 1 0 >> return tt) (λ o. align 1 o + 1)
            (Writes-octet 0 (return tt) (λ o. o) (Writes-return tt))))

  Writes-reason : Writes le reason tt (λ o. versions_end (align 4 (align 1 (align 2 o + 2) + 1)))
  Writes-reason =
      Writes-seq (ndr_write_int 2 4)
        (λ _. ndr_write_int 1 2 >> (auto_align_offset >> write_versions known_syntaxes)) tt tt
        (λ o. align 2 o + 2) (λ o. versions_end (align 4 (align 1 o + 1))) (Writes-int16 4)
        (Writes-octet 2 (auto_align_offset >> write_versions known_syntaxes)
          (λ o. versions_end (align 4 o))
          (Writes-seq auto_align_offset (λ _. write_versions known_syntaxes) tt tt (align 4)
            versions_end Writes-auto Writes-write_versions))

-- the same, with what follows
abbrev nack_steps : Action Answer → Action Answer
nack_steps last =
    ndr_write_int 2 4
    >> (ndr_write_int 1 2 >> (auto_align_offset >> (write_versions known_syntaxes >> last)))

nack_steps-reason : (last : Action Answer) (d : Ndr) → (reason >> last) d ≡ nack_steps last d
nack_steps-reason last d =
    let w1 : Action (Unit {0}) = ndr_write_int 2 4 in
    let w2 : Action (Unit {0}) = ndr_write_int 1 2 in
    let w4 : Action (Unit {0}) = write_versions known_syntaxes in
    bind_assoc w1 (λ _. w2 >> (auto_align_offset >> w4)) (λ _. last) d
    ∙ ((λ i. (w1 >> (λ c. bind_assoc w2 (λ _. auto_align_offset >> w4) (λ _. last) c i)) d)
        ∙ (λ i. (w1 >> (w2 >> (λ c. bind_assoc auto_align_offset (λ _. w4) (λ _. last) c i))) d))

nack-WfHeader : (le : Bool) (h : Header) → WfHeader le h → WfHeader le (nack_header h)
nack-WfHeader le h wf = record {
  rpc_vers_fits = wf.rpc_vers_fits;
  rpc_vers_minor_fits = wf.rpc_vers_minor_fits;
  ptype_fits = refl;
  pfc_flags_fits = refl;
  drep_size = wf.drep_size;
  drep_order = wf.drep_order;
  frag_length_fits = refl;
  auth_length_fits = wf.auth_length_fits;
  call_id_fits = wf.call_id_fits;
}

-- the nack itself
nack-runs :
    (le : Bool) (hdr h0 : Header) (d : Ndr)
    → WfHeader le hdr
    → Mode le d
    → 24 ≤ length d.payload
    → length d.payload < 2 ^ 63
    → (p : List ℕ) × (dcerpc_bind_nack_return hdr d
        ≡ (some (Status.ok, nack_header hdr, some 24), at d 24 p))
      × (dcerpc_hdr_read h0 (at d 0 p) ≡ (some (true, nack_header hdr), at d 16 p))
unfolding dcerpc_bind_nack_return put_header
nack-runs le hdr h0 d wf m room small =
    let last = put_header ptype_bindnack hdr in
    let (p1, run1, ag1) =
      (Writes-reason {le = le}).runs (at d 16 d.payload) m (omega arith) small in
    let (p, run, ag, back) =
      dcerpc_hdr_read-dcerpc_hdr_write le (nack_header hdr) h0 (at d 0 p1) (nack-WfHeader le hdr wf)
        m refl (omega (arith, ag1.0)) (omega (arith, ag1.0)) in
    let reasoned = bind-some reason (λ _. last) (at d 16 d.payload) (at d 24 p1) tt run1 in
    let headed =
      progress-some (dcerpc_hdr_write (nack_header hdr))
        (λ u. seek 24 >> return (Status.ok, nack_header hdr, some 24)) (at d 0 p1) (at d 16 p)
        (Status.bad_data, nack_header hdr, none) tt run in
    (p, sym (nack_steps-reason last (at d 16 d.payload)) ∙ (reasoned ∙ headed), back)

-- A bind none of whose transfer syntaxes is supported is refused: for a header that fits its fields and tells the
-- order of octets of the connection, and a response with room for 24 octets, the answer succeeds
-- with 24 octets, and what a client reads at their begin, over any earlier header, is the header of the request as a
-- BINDNACK of one fragment of 24 octets, so with the same `call_id`.
pub dcerpc_hdr_read-dcerpc_bind_return :
    (le : Bool) (hdr h0 : Header) (bi : BindRequest) (d : Ndr)
    → WfHeader le hdr
    → Mode le d
    → 24 ≤ length d.payload
    → length d.payload < 2 ^ 63
    → acknowledged bi.list ≡ false
    → (p : List ℕ) × (dcerpc_bind_return hdr bi d
        ≡ (some ((Status.ok, nack_header hdr, some 24), dcerpc_bind_req_free bi), at d 24 p))
      × (dcerpc_hdr_read h0 (at d 0 p) ≡ (some (true, nack_header hdr), at d 16 p))
unfolding dcerpc_bind_return
dcerpc_hdr_read-dcerpc_bind_return le hdr h0 bi d wf m room small none_supported =
    let (p, run, back) = nack-runs le hdr h0 d wf m room small in
    (
      p,
      rw none_supported (
          progress-some (dcerpc_bind_nack_return hdr)
            (λ answer. return (answer, dcerpc_bind_req_free bi)) d (at d 24 p)
            ((Status.bad_data, hdr, none), dcerpc_bind_req_free bi)
            (Status.ok, nack_header hdr, some 24) run),
      back,
    )
