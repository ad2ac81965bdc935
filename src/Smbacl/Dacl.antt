-- ===== src/Smbacl/Dacl.antt =====
-- The four entries of the access control list that `set_dacl` of mountd/smbacl.c writes.
use ksmbd_tools.Base.{ℕ, zero, suc, ◌+◌, ◌*◌, ◌%◌, ◌≡◌, refl, ap, ◌∙◌, arith, ◌==◌, if◌then◌else◌}
use ksmbd_tools.Base.{Bool, some, List, [], ◌∷◌}
use mathlib.Core.Path.{subst}
use ksmbd_tools.Rpc.Ndr.{Action, ◌>>=◌, return}
use ksmbd_tools.Rpc.Ndr.Octets.{FitsIn}
use ksmbd_tools.Rpc.Ndr.Writes.{Writes, Writes-seq, Writes-return}
use ksmbd_tools.Smbacl.{
  Sid, sid_of, sid_everyone, sid_local_group, owner_sid, with_rid, ace_size, smb_set_ace, set_dacl,
}
use ksmbd_tools.Smbacl.RoundTrip.{WfSid}
use ksmbd_tools.Smbacl.Ace.{ace_end, ace_end_lem, Writes-smb_set_ace}

-- the octets of an owner with `rid`: a `rid` of 0 is left out
unfoldable pub owner_subauths : ℕ → ℕ
owner_subauths rid = if rid == 0 then 4 else 5

-- where the four entries end
pub dacl_end : ℕ → ℕ → ℕ
dacl_end rid o = ace_end (owner_subauths rid) (ace_end 2 (ace_end 2 (ace_end 1 o)))

unfoldable pub dacl_size : ℕ → ℕ
dacl_size rid = 84 + 4 * owner_subauths rid

pub dacl_end_lem : (rid o : ℕ) → o % 4 ≡ 0 → dacl_end rid o ≡ o + dacl_size rid
unfolding dacl_end dacl_size
dacl_end_lem rid o h =
    let e1 = ace_end_lem 1 o h in
    let e2 = ap (ace_end 2) e1 ∙ ace_end_lem 2 (o + (16 + 4 * 1)) (omega arith) in
    let e3 = ap (ace_end 2) e2 ∙ ace_end_lem 2 (o + (16 + 4 * 1) + (16 + 4 * 2)) (omega arith) in
    ap (ace_end (owner_subauths rid)) e3
    ∙ (ace_end_lem (owner_subauths rid) (o + (16 + 4 * 1) + (16 + 4 * 2) + (16 + 4 * 2))
          (omega arith)
        ∙ omega arith)

everyone-WfSid : WfSid sid_everyone
everyone-WfSid = omega arith

-- the sid of the local group behind which `rid` stands
local_of : ℕ → Sid
local_of rid = record (sid_of 2 5 32) {
  sub_auth = 32 ∷ rid ∷ 0 ∷ 0 ∷ 0 ∷ 0 ∷ 0 ∷ 0 ∷ 0 ∷ 0 ∷ 0 ∷ 0 ∷ 0 ∷ 0 ∷ 0 ∷ [];
}

local-WfSid : (rid : ℕ) → FitsIn 4 rid → WfSid (local_of rid)
unfolding local_of
local-WfSid rid h = omega arith

abbrev operators : Action ℕ
operators = smb_set_ace 0x000f07ff 548 sid_local_group

abbrev administrators : Action ℕ
administrators = smb_set_ace 0x000f07ff 544 sid_local_group

module _ (a b c : ℕ) (fa : FitsIn 4 a) (fb : FitsIn 4 b) (fc : FitsIn 4 c) where
  abbrev gen : List ℕ
  gen = a ∷ b ∷ c ∷ []

  owner-WfSid :
      (rid : ℕ)
      → FitsIn 4 rid
      → (sid : Sid) × (with_rid rid (owner_sid gen) ≡ some sid)
        × WfSid sid
        × (sid.num_subauth ≡ owner_subauths rid)
  unfolding with_rid owner_subauths
  owner-WfSid zero r = (owner_sid gen, refl, omega arith, refl)
  owner-WfSid (suc n) r = (
    record (owner_sid gen) {
      num_subauth = 5;
      sub_auth = 21 ∷ a ∷ b ∷ c ∷ suc n ∷ 0 ∷ 0 ∷ 0 ∷ 0 ∷ 0 ∷ 0 ∷ 0 ∷ 0 ∷ 0 ∷ 0 ∷ [];
    },
    refl,
    omega arith,
    ground arith,
  )

  ace_size_owner : (rid : ℕ) → ace_size rid (owner_sid gen) ≡ 16 + 4 * owner_subauths rid
  unfolding ace_size owner_subauths
  ace_size_owner rid = ground arith

  module _ {le : Bool} (rid : ℕ) (fr : FitsIn 4 rid) where
    Writes-owner :
        Writes le
          (smb_set_ace 0x00020044 rid (owner_sid gen))
          (16 + 4 * owner_subauths rid)
          (ace_end (owner_subauths rid))
    Writes-owner =
        let (sid, e, wf, n) = owner-WfSid rid fr in
        subst
          (λ (k : ℕ).
            Writes le (smb_set_ace 0x00020044 rid (owner_sid gen)) k (ace_end (owner_subauths rid)))
          (ace_size_owner rid)
          (subst
            (λ (k : ℕ).
              Writes le (smb_set_ace 0x00020044 rid (owner_sid gen)) (ace_size rid (owner_sid gen))
                (ace_end k))
            n (Writes-smb_set_ace 0x00020044 rid (owner_sid gen) sid e wf))

    pub Writes-set_dacl : Writes le (set_dacl gen rid) (dacl_size rid) (dacl_end rid)
    unfolding set_dacl dacl_end dacl_size with_rid local_of ace_size
    Writes-set_dacl =
        let k : ℕ = owner_subauths rid in
        let total = 20 + 24 + 24 + (16 + 4 * k) in
        subst (λ (n : ℕ). Writes le (set_dacl gen rid) n (dacl_end rid)) (omega arith)
          (Writes-seq (smb_set_ace 0x0002035b 0 sid_everyone)
            (λ e. administrators >>= (λ i. operators >>= (λ j.
              smb_set_ace 0x00020044 rid (owner_sid gen) >>= (λ o. return (e + i + j + o)))))
            20 total (ace_end 1) (λ o. ace_end k (ace_end 2 (ace_end 2 o)))
            (Writes-smb_set_ace 0x0002035b 0 sid_everyone sid_everyone refl everyone-WfSid)
            (Writes-seq administrators
              (λ i. operators >>= (λ j.
                smb_set_ace 0x00020044 rid (owner_sid gen) >>= (λ o. return (20 + i + j + o))))
              24 total (ace_end 2) (λ o. ace_end k (ace_end 2 o))
              (Writes-smb_set_ace 0x000f07ff 544 sid_local_group (local_of 544) refl
                (local-WfSid 544 (omega arith)))
              (Writes-seq operators
                (λ j.
                  smb_set_ace 0x00020044 rid (owner_sid gen) >>= (λ o. return (20 + 24 + j + o)))
                24 total (ace_end 2) (ace_end k)
                (Writes-smb_set_ace 0x000f07ff 548 sid_local_group (local_of 548) refl
                  (local-WfSid 548 (omega arith)))
                (Writes-seq (smb_set_ace 0x00020044 rid (owner_sid gen))
                  (λ o. return (20 + 24 + 24 + o)) (16 + 4 * k) total (ace_end k) (λ o. o)
                  Writes-owner (Writes-return total)))))
