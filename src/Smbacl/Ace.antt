-- ===== src/Smbacl/Ace.antt =====
-- The access control entries that `smb_set_ace` and `set_dacl` of mountd/smbacl.c write.
use ksmbd_tools.Base.{ℕ, ◌+◌, ◌*◌, ◌%◌, ◌≡◌, ap, ◌∙◌, arith}
use ksmbd_tools.Base.{Bool, some}
use ksmbd_tools.Rpc.Ndr.{◌>>◌, return, align, ndr_write_int}
use ksmbd_tools.Rpc.Ndr.Writes.{
  Writes, Writes-int8, Writes-int16, Writes-int32, Writes-seq, Writes-return,
}
use ksmbd_tools.Smbacl.{Sid, with_rid, ace_size, smb_write_sid, smb_set_ace}
use ksmbd_tools.Smbacl.RoundTrip.{WfSid, sid_end, sid_end_lem, Writes-sid}

-- where an entry with `num` sub-authorities ends
pub ace_end : ℕ → ℕ → ℕ
ace_end num o = sid_end num (align 4 (align 2 (align 1 (align 1 o + 1) + 1) + 2) + 4)

pub ace_end_lem : (num o : ℕ) → o % 4 ≡ 0 → ace_end num o ≡ o + (16 + 4 * num)
unfolding ace_end
ace_end_lem num o h =
    let at8 : align 4 (align 2 (align 1 (align 1 o + 1) + 1) + 2) + 4 ≡ o + 8 = omega arith in
    ap (sid_end num) at8 ∙ (sid_end_lem num (o + 8) (omega arith) ∙ omega arith)

module _ {le : Bool} (access rid : ℕ) (rsid sid : Sid) (e : with_rid rid rsid ≡ some sid)
    (wf : WfSid sid) where
  -- The entry of a sid that has the room for its `rid`.
  pub Writes-smb_set_ace :
      Writes le (smb_set_ace access rid rsid) (ace_size rid rsid) (ace_end sid.num_subauth)
  unfolding smb_set_ace ace_end
  Writes-smb_set_ace =
      let size = ace_size rid rsid in
      rw e (
        Writes-seq (ndr_write_int 1 0)
          (λ _.
            ndr_write_int 1 0
            >> (ndr_write_int 2 size
                >> (ndr_write_int 4 access >> (smb_write_sid sid >> return size))))
          tt size (λ o. align 1 o + 1)
          (λ o. sid_end sid.num_subauth (align 4 (align 2 (align 1 o + 1) + 2) + 4)) (Writes-int8 0)
          (Writes-seq (ndr_write_int 1 0)
            (λ _.
              ndr_write_int 2 size
              >> (ndr_write_int 4 access >> (smb_write_sid sid >> return size)))
            tt size (λ o. align 1 o + 1)
            (λ o. sid_end sid.num_subauth (align 4 (align 2 o + 2) + 4)) (Writes-int8 0)
            (Writes-seq (ndr_write_int 2 size)
              (λ _. ndr_write_int 4 access >> (smb_write_sid sid >> return size)) tt size
              (λ o. align 2 o + 2) (λ o. sid_end sid.num_subauth (align 4 o + 4))
              (Writes-int16 size)
              (Writes-seq (ndr_write_int 4 access) (λ _. smb_write_sid sid >> return size) tt size
                (λ o. align 4 o + 4) (sid_end sid.num_subauth) (Writes-int32 access)
                (Writes-seq (smb_write_sid sid) (λ _. return size) tt size (sid_end sid.num_subauth)
                  (λ o. o) (Writes-sid sid wf) (Writes-return size))))))
