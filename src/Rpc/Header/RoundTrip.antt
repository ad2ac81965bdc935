-- ===== src/Rpc/Header/RoundTrip.antt =====
-- Round trip of the header of a DCE/RPC message through `dcerpc_hdr_write` and `dcerpc_hdr_read` of
-- mountd/rpc.c.
use ksmbd_tools.Base.{ℕ, ◌+◌, ◌%◌, ◌^◌, ◌≤◌, ◌<◌, ◌≡◌, refl, sym, ap, ◌∙◌, arith}
use ksmbd_tools.Base.{Bool, true, false, some, List, length}
use mathlib.Core.Path.{subst}
use ksmbd_tools.Rpc.Ndr.{
  Ndr, Action, ◌>>◌, return, align, progress, ndr_read_int, ndr_write_int, ndr_write_bytes,
  ndr_read_bytes,
}
use ksmbd_tools.Rpc.Ndr.Monad.{bind-some}
use ksmbd_tools.Rpc.Ndr.Octets.{FitsIn}
use ksmbd_tools.Rpc.Ndr.Writes.{
  Mode, Agrees, at, Writes, Writes-int8, Writes-int16, Writes-int32, Writes-bytes, Writes-seq,
}
use ksmbd_tools.Rpc.Ndr.RoundTrip.{
  Reads, Reads-int, Reads-bytes, Reads-progress, Reads-last, written-back,
}
use ksmbd_tools.Rpc.Header.{
  Header, dcerpc_hdr_write, dcerpc_hdr_read, is_little, set_order, read_lengths,
}

-- Each field fits its type, and `packed_drep` tells the order of octets `le`.
pub record WfHeader (le : Bool) (h : Header) : Type 0 where
  pub rpc_vers_fits : FitsIn 1 h.rpc_vers
  pub rpc_vers_minor_fits : FitsIn 1 h.rpc_vers_minor
  pub ptype_fits : FitsIn 1 h.ptype
  pub pfc_flags_fits : FitsIn 1 h.pfc_flags
  pub drep_size : length h.packed_drep ≡ 4
  pub drep_order : is_little h.packed_drep ≡ le
  pub frag_length_fits : FitsIn 2 h.frag_length
  pub auth_length_fits : FitsIn 2 h.auth_length
  pub call_id_fits : FitsIn 4 h.call_id

-- the parts of the write, from the last to the first
abbrev lengths : Header → Action (Unit {0})
lengths h =
    ndr_write_int 2 h.frag_length >> (ndr_write_int 2 h.auth_length >> ndr_write_int 4 h.call_id)

abbrev lengths_end : ℕ → ℕ
lengths_end o = align 4 (align 2 (align 2 o + 2) + 2) + 4

abbrev drep_end : ℕ → ℕ
drep_end o = lengths_end (align 2 o + 4)

-- where a header ends
pub hdr_end : ℕ → ℕ
hdr_end o = drep_end (align 1 (align 1 (align 1 (align 1 o + 1) + 1) + 1) + 1)

pub hdr_end_lem : (o : ℕ) → o % 4 ≡ 0 → hdr_end o ≡ o + 16
unfolding hdr_end
hdr_end_lem o h = omega arith

abbrev from_drep : Header → Action (Unit {0})
from_drep h = ndr_write_bytes h.packed_drep >> lengths h

-- one octet, and what follows
module _ {le : Bool} (v : ℕ) (w : Action (Unit {0})) (g : ℕ → ℕ) (hw : Writes le w tt g) where
  Writes-octet : Writes le (ndr_write_int 1 v >> w) tt (λ o. g (align 1 o + 1))
  Writes-octet =
      Writes-seq (ndr_write_int 1 v) (λ _. w) tt tt (λ o. align 1 o + 1) g (Writes-int8 v) hw

  Reads-octet :
      {B : Type 0} (f : ℕ → Action B) (b0 b : B)
      → FitsIn 1 v
      → Reads le w (f v) b g
      → Reads le
          (ndr_write_int 1 v >> w)
          (progress (ndr_read_int 1) b0 f)
          b
          (λ o. g (align 1 o + 1))
  Reads-octet f b0 b fits =
      Reads-progress (ndr_write_int 1 v) w (ndr_read_int 1) v f b0 b (λ o. align 1 o + 1) g
        (Writes-int8 v) hw (Reads-int 1 v fits)

module _ {le : Bool} (h : Header) (wf : WfHeader le h) where
  Writes-lengths : Writes le (lengths h) tt lengths_end
  Writes-lengths =
      Writes-seq (ndr_write_int 2 h.frag_length)
        (λ _. ndr_write_int 2 h.auth_length >> ndr_write_int 4 h.call_id) tt tt (λ o. align 2 o + 2)
        (λ o. align 4 (align 2 o + 2) + 4) (Writes-int16 h.frag_length)
        (Writes-seq (ndr_write_int 2 h.auth_length) (λ _. ndr_write_int 4 h.call_id) tt tt
          (λ o. align 2 o + 2) (λ o. align 4 o + 4) (Writes-int16 h.auth_length)
          (Writes-int32 h.call_id))

  Writes-drep : Writes le (ndr_write_bytes h.packed_drep) tt (λ o. align 2 o + 4)
  Writes-drep =
      subst (λ (n : ℕ). Writes le (ndr_write_bytes h.packed_drep) tt (λ o. align 2 o + n))
        wf.drep_size (Writes-bytes h.packed_drep)

  Reads-drep :
      Reads le (ndr_write_bytes h.packed_drep) (ndr_read_bytes 4) h.packed_drep (λ o. align 2 o + 4)
  Reads-drep =
      subst
        (λ (n : ℕ).
          Reads le (ndr_write_bytes h.packed_drep) (ndr_read_bytes n) h.packed_drep
            (λ o. align 2 o + n))
        wf.drep_size (Reads-bytes h.packed_drep)

  module _ (h0 : Header) where
    -- `h0` with the lengths of `h`
    abbrev with_lengths : Header
    with_lengths = record h0 {
      frag_length = h.frag_length;
      auth_length = h.auth_length;
      call_id = h.call_id;
    }

    Reads-lengths : Reads le (lengths h) (read_lengths h0) (true, with_lengths) lengths_end
    Reads-lengths =
        let b : Bool × Header = (true, with_lengths) in
        Reads-progress (ndr_write_int 2 h.frag_length)
          (ndr_write_int 2 h.auth_length >> ndr_write_int 4 h.call_id) (ndr_read_int 2)
          h.frag_length
          (λ x.
            progress (ndr_read_int 2) (false, h0)
              (λ y.
                progress (ndr_read_int 4) (false, h0)
                  (λ z.
                    return (true, record h0 { frag_length = x; auth_length = y; call_id = z }))))
          (false, h0) b (λ o. align 2 o + 2) (λ o. align 4 (align 2 o + 2) + 4)
          (Writes-int16 h.frag_length)
          (Writes-seq (ndr_write_int 2 h.auth_length) (λ _. ndr_write_int 4 h.call_id) tt tt
            (λ o. align 2 o + 2) (λ o. align 4 o + 4) (Writes-int16 h.auth_length)
            (Writes-int32 h.call_id))
          (Reads-int 2 h.frag_length wf.frag_length_fits)
          (Reads-progress (ndr_write_int 2 h.auth_length) (ndr_write_int 4 h.call_id)
            (ndr_read_int 2) h.auth_length
            (λ y.
              progress (ndr_read_int 4) (false, h0)
                (λ z.
                  return (
                    true,
                    record h0 { frag_length = h.frag_length; auth_length = y; call_id = z },
                  )))
            (false, h0) b (λ o. align 2 o + 2) (λ o. align 4 o + 4) (Writes-int16 h.auth_length)
            (Writes-int32 h.call_id) (Reads-int 2 h.auth_length wf.auth_length_fits)
            (Reads-last (ndr_write_int 4 h.call_id) (ndr_read_int 4) h.call_id (λ o. align 4 o + 4)
              (λ z. return (
                true,
                record h0 { frag_length = h.frag_length; auth_length = h.auth_length; call_id = z },
              ))
              (false, h0) b (λ d. refl) (Reads-int 4 h.call_id wf.call_id_fits)))

  -- The flags that `packed_drep` asks for are those that there are.
  set_order-same : (d : Ndr) → Mode le d → set_order h.packed_drep d ≡ (some tt, d)
  set_order-same d (l, a, b) =
      let l' : is_little h.packed_drep ≡ d.little_endian = wf.drep_order ∙ sym l in
      λ i. (some tt, record d { align4 = sym a i; little_endian = l' i })

  Reads-from_drep :
      (h0 : Header)
      → Reads le
          (lengths h)
          (set_order h.packed_drep >> read_lengths h0)
          (true, with_lengths h0)
          lengths_end
  Reads-from_drep h0 d m room small q ag =
      bind-some (set_order h.packed_drep) (λ _. read_lengths h0) (at d d.offset q) (at d d.offset q)
        tt (set_order-same (at d d.offset q) m)
      ∙ Reads-lengths h0 d m room small q ag

  Writes-from_drep : Writes le (from_drep h) tt (λ o. lengths_end (align 2 o + 4))
  Writes-from_drep =
      Writes-seq (ndr_write_bytes h.packed_drep) (λ _. lengths h) tt tt (λ o. align 2 o + 4)
        lengths_end Writes-drep Writes-lengths

  pub Writes-dcerpc_hdr_write : Writes le (dcerpc_hdr_write h) tt hdr_end
  unfolding dcerpc_hdr_write hdr_end
  Writes-dcerpc_hdr_write =
      Writes-octet h.rpc_vers
        (ndr_write_int 1 h.rpc_vers_minor
          >> (ndr_write_int 1 h.ptype >> (ndr_write_int 1 h.pfc_flags >> from_drep h)))
        (λ o. drep_end (align 1 (align 1 (align 1 o + 1) + 1) + 1))
        (Writes-octet h.rpc_vers_minor
          (ndr_write_int 1 h.ptype >> (ndr_write_int 1 h.pfc_flags >> from_drep h))
          (λ o. drep_end (align 1 (align 1 o + 1) + 1))
          (Writes-octet h.ptype (ndr_write_int 1 h.pfc_flags >> from_drep h)
            (λ o. drep_end (align 1 o + 1))
            (Writes-octet h.pfc_flags (from_drep h) drep_end Writes-from_drep)))

  module _ (h0 : Header) where
    abbrev behind_flags : ℕ → ℕ → ℕ → ℕ → Action (Bool × Header)
    behind_flags a b c e =
        let h4 = record h0 { rpc_vers = a; rpc_vers_minor = b; ptype = c; pfc_flags = e } in
        progress (ndr_read_bytes 4) (false, h4)
          (λ p. set_order p >> read_lengths (record h4 { packed_drep = p }))

    Reads-behind_flags :
        Reads le
          (from_drep h)
          (behind_flags h.rpc_vers h.rpc_vers_minor h.ptype h.pfc_flags)
          (true, h)
          drep_end
    Reads-behind_flags =
        let h4 : Header = record h0 {
          rpc_vers = h.rpc_vers;
          rpc_vers_minor = h.rpc_vers_minor;
          ptype = h.ptype;
          pfc_flags = h.pfc_flags;
        } in
        Reads-progress (ndr_write_bytes h.packed_drep) (lengths h) (ndr_read_bytes 4) h.packed_drep
          (λ p. set_order p >> read_lengths (record h4 { packed_drep = p })) (false, h4) (true, h)
          (λ o. align 2 o + 4) lengths_end Writes-drep Writes-lengths Reads-drep
          (Reads-from_drep (record h4 { packed_drep = h.packed_drep }))

    pub Reads-dcerpc_hdr_read : Reads le (dcerpc_hdr_write h) (dcerpc_hdr_read h0) (true, h) hdr_end
    unfolding dcerpc_hdr_write dcerpc_hdr_read hdr_end
    Reads-dcerpc_hdr_read =
        let w3 = Writes-octet h.pfc_flags (from_drep h) drep_end Writes-from_drep in
        let w2 =
          Writes-octet h.ptype (ndr_write_int 1 h.pfc_flags >> from_drep h)
            (λ o. drep_end (align 1 o + 1)) w3 in
        let w1 =
          Writes-octet h.rpc_vers_minor
            (ndr_write_int 1 h.ptype >> (ndr_write_int 1 h.pfc_flags >> from_drep h))
            (λ o. drep_end (align 1 (align 1 o + 1) + 1)) w2 in
        Reads-octet h.rpc_vers
          (ndr_write_int 1 h.rpc_vers_minor
            >> (ndr_write_int 1 h.ptype >> (ndr_write_int 1 h.pfc_flags >> from_drep h)))
          (λ o. drep_end (align 1 (align 1 (align 1 o + 1) + 1) + 1)) w1
          (λ a.
            progress (ndr_read_int 1) (false, record h0 { rpc_vers = a })
              (λ b.
                progress (ndr_read_int 1) (false, record h0 { rpc_vers = a; rpc_vers_minor = b })
                  (λ c.
                    progress (ndr_read_int 1)
                      (false, record h0 { rpc_vers = a; rpc_vers_minor = b; ptype = c })
                      (λ e. behind_flags a b c e))))
          (false, h0) (true, h) wf.rpc_vers_fits
          (Reads-octet h.rpc_vers_minor
            (ndr_write_int 1 h.ptype >> (ndr_write_int 1 h.pfc_flags >> from_drep h))
            (λ o. drep_end (align 1 (align 1 o + 1) + 1)) w2
            (λ b.
              progress (ndr_read_int 1)
                (false, record h0 { rpc_vers = h.rpc_vers; rpc_vers_minor = b })
                (λ c.
                  progress (ndr_read_int 1)
                    (false, record h0 { rpc_vers = h.rpc_vers; rpc_vers_minor = b; ptype = c })
                    (λ e. behind_flags h.rpc_vers b c e)))
            (false, record h0 { rpc_vers = h.rpc_vers }) (true, h) wf.rpc_vers_minor_fits
            (Reads-octet h.ptype (ndr_write_int 1 h.pfc_flags >> from_drep h)
              (λ o. drep_end (align 1 o + 1)) w3
              (λ c.
                progress (ndr_read_int 1)
                  (
                    false,
                    record h0 {
                      rpc_vers = h.rpc_vers;
                      rpc_vers_minor = h.rpc_vers_minor;
                      ptype = c;
                    },
                  )
                  (λ e. behind_flags h.rpc_vers h.rpc_vers_minor c e))
              (false, record h0 { rpc_vers = h.rpc_vers; rpc_vers_minor = h.rpc_vers_minor })
              (true, h) wf.ptype_fits
              (Reads-octet h.pfc_flags (from_drep h) drep_end Writes-from_drep
                (λ e. behind_flags h.rpc_vers h.rpc_vers_minor h.ptype e)
                (
                  false,
                  record h0 {
                    rpc_vers = h.rpc_vers;
                    rpc_vers_minor = h.rpc_vers_minor;
                    ptype = h.ptype;
                  },
                )
                (true, h) wf.pfc_flags_fits Reads-behind_flags)))

-- A header that fits its fields, and whose `packed_drep` tells the order of octets in which it is
-- written, takes 16 octets at a multiple of four wherever these have room, and leaves alone what stands before
-- them. A read at the same place returns 0, makes of any earlier header that one, and ends at the same place.
pub dcerpc_hdr_read-dcerpc_hdr_write :
    (le : Bool) (h h0 : Header) (d : Ndr)
    → WfHeader le h
    → Mode le d
    → d.offset % 4 ≡ 0
    → d.offset + 16 ≤ length d.payload
    → length d.payload < 2 ^ 63
    → (p : List ℕ) × (dcerpc_hdr_write h d ≡ (some tt, at d (d.offset + 16) p))
      × Agrees d.offset p d.payload
      × (dcerpc_hdr_read h0 (at d d.offset p) ≡ (some (true, h), at d (d.offset + 16) p))
dcerpc_hdr_read-dcerpc_hdr_write le h h0 d wf m mult room small =
    let e = hdr_end_lem d.offset mult in
    let (p, run, ag, back) =
      written-back (dcerpc_hdr_write h) (dcerpc_hdr_read h0) (true, h) hdr_end
        (Writes-dcerpc_hdr_write {le = le} h wf) (Reads-dcerpc_hdr_read {le = le} h wf h0) d m
        (omega (arith, e)) small in
    (
      p,
      run ∙ ap (λ (o : ℕ). (some tt, at d o p)) e,
      ag,
      back ∙ ap (λ (o : ℕ). (some (true, h), at d o p)) e,
    )
