-- ===== src/Smbacl/Tests.antt =====
-- Concrete security identifiers and payloads for mountd/smbacl.c, and the theorems at them.
use ksmbd_tools.Base.{
  ℕ, ◌≡◌, ◌↔◌, ◌+◌, ◌-◌, refl, arith, true, false, some, List, [], ◌∷◌, replicate, take, drop,
}
use ksmbd_tools.Rpc.Ndr.{Ndr, int_octets}
use ksmbd_tools.Rpc.Ndr.Writes.{Agrees, at}
use ksmbd_tools.Smbacl.{
  compare_int, compare_ints, sid_domain, sid_unix_users, smb_read_sid, smb_write_sid,
  smb_compare_sids, build_sec_desc, same, greater, smb_sid_to_string, decimal, print_subauths,
}
use ksmbd_tools.Smbacl.RoundTrip.{WfSid, received, smb_read_sid-smb_write_sid}
use ksmbd_tools.Smbacl.Compare.{flip, shorter, smb_compare_sids_lem}
use ksmbd_tools.Smbacl.Descriptor.{secdesclen, build_sec_desc_lem}

abbrev room : ℕ → Ndr
room n = record {
  little_endian = true;
  align4 = true;
  align8 = false;
  ascii_string = false;
  num_pointers = 1;
  offset = 4;
  payload = replicate n 7;
}

users-WfSid : WfSid sid_unix_users
users-WfSid = omega arith

domain-WfSid : WfSid sid_domain
domain-WfSid = omega arith

smb_read_sid-smb_write_sid_example :
    (p : List ℕ) × (smb_write_sid sid_domain (room 20) ≡ (some tt, at (room 20) 16 p))
    × Agrees 4 p (replicate 20 7)
    × (smb_read_sid sid_unix_users (at (room 20) 4 p)
        ≡ (some (received sid_domain sid_unix_users), at (room 20) 16 p))
smb_read_sid-smb_write_sid_example =
    smb_read_sid-smb_write_sid true sid_domain sid_unix_users (room 20) domain-WfSid
      (refl, refl, refl) refl (omega arith) (omega arith)

smb_compare_sids_lem_example :
    (smb_compare_sids sid_unix_users sid_domain ≡ flip (smb_compare_sids sid_domain sid_unix_users))
    × (smb_compare_sids sid_domain sid_unix_users ≡ same ↔ (
        (◌≡◌ {A = ℕ} 1 1)
        × (sid_domain.authority ≡ sid_unix_users.authority)
        × (take (shorter sid_domain sid_unix_users) sid_domain.sub_auth
            ≡ take (shorter sid_domain sid_unix_users) sid_unix_users.sub_auth)))
smb_compare_sids_lem_example =
    smb_compare_sids_lem sid_domain sid_unix_users domain-WfSid users-WfSid

build_sec_desc_lem_example :
    (p : List ℕ) × (build_sec_desc (1 ∷ 2 ∷ 3 ∷ []) 500 (room 140)
      ≡ (some (secdesclen 500), at (room 140) (4 + secdesclen 500) p))
    × Agrees 4 p (replicate 140 7)
    × (take 2 (drop 26 p) ≡ int_octets true 2 (secdesclen 500 - 20))
build_sec_desc_lem_example =
    build_sec_desc_lem true 1 2 3 500 (room 140) refl refl refl refl (refl, refl, refl)
      (omega arith) refl (unfold secdesclen in omega arith)

-- S-1-22-1
sid_text :
    smb_sid_to_string 257 sid_unix_users
    ≡ some (b'S' ∷ b'-' ∷ b'1' ∷ b'-' ∷ b'2' ∷ b'2' ∷ b'-' ∷ b'1' ∷ [])
unfolding smb_sid_to_string print_subauths decimal
sid_text = refl

sid_order : smb_compare_sids sid_unix_users sid_domain ≡ greater
unfolding smb_compare_sids compare_int compare_ints
sid_order = refl
