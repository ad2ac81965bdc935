-- ===== src/Asn1/Tests.antt =====
-- Runs of the routines of tools/asn1.c on concrete octets, and the theorems on them.
use ksmbd_tools.Base.{
  ℕ, ◌+◌, ◌*◌, ◌≤◌, ◌≡◌, refl, arith, leb, inl, Bool, true, some, List, [], ◌∷◌, ◌++◌, length,
}
use ksmbd_tools.Asn1.{
  end_of, asn1_open, asn1_header_decode, asn1_header_encode, asn1_header_len, asn1_oid_decode,
  asn1_oid_encode,
}
use ksmbd_tools.Asn1.HeaderRoundTrip.{Reads, header_decode-header_encode}
use ksmbd_tools.Asn1.OidRoundTrip.{oid_decode-oid_encode}
use ksmbd_tools.Asn1.Within.{Holds}
use ksmbd_tools.Asn1.Bounds.{HeaderFits, OidFits, header_decode_within, oid_decode_within}

abbrev grants : ℕ → Bool
grants n = true

-- a sequence of two octets, and one octet behind it
abbrev sequence : List ℕ
sequence = 0x30 ∷ 2 ∷ 5 ∷ 0 ∷ 7 ∷ []

-- 1.2.840
abbrev oid_octets : List ℕ
oid_octets = 0x2A ∷ 0x86 ∷ 0x48 ∷ []

header_decode-header_encode_example :
    (octets : List ℕ) × (asn1_header_encode 2 1 0 (asn1_header_len 2 1) ≡ some (octets, 2))
    × (length octets + 2 ≡ asn1_header_len 2 1)
    × Reads 2 1 0 2 0 0 octets (5 ∷ 0 ∷ [])
header_decode-header_encode_example =
    header_decode-header_encode 2 1 0 2 0 0 (5 ∷ 0 ∷ []) (omega arith) (omega arith) (omega arith)
      (omega arith) (omega arith)

oid_decode-oid_encode_example :
    (octets : List ℕ) × (asn1_oid_encode grants 1 2 (840 ∷ []) ≡ some octets)
    × (length octets ≤ (1 + 2) * 5)
    × (asn1_oid_decode grants
          (0 + length octets)
          (record { error = 0; pointer = 0; rest = octets ++ [] })
        ≡ (some (1 ∷ 2 ∷ 840 ∷ []), record { error = 0; pointer = 0 + length octets; rest = [] }))
oid_decode-oid_encode_example =
    oid_decode-oid_encode grants grants 1 2 (840 ∷ []) 0 0 [] (omega arith) (omega arith)
      (inl (omega arith)) (omega arith, tt) (omega arith) refl (λ n _ _. refl)

header_decode_within_example :
    (end_of (asn1_header_decode (asn1_open sequence)).1 ≡ end_of (asn1_open sequence))
    × (0 ≤ (asn1_header_decode (asn1_open sequence)).1.pointer)
    × Holds HeaderFits (asn1_header_decode (asn1_open sequence))
header_decode_within_example =
    header_decode_within (asn1_open sequence) (asn1_header_decode (asn1_open sequence)).1
      (asn1_header_decode (asn1_open sequence)).0 refl

-- an allocator that has 32 octets left
abbrev grants_32 : ℕ → Bool
grants_32 octets = leb octets 32

oid_decode_within_example :
    (end_of (asn1_oid_decode grants_32 3 (asn1_open oid_octets)).1 ≡ end_of (asn1_open oid_octets))
    × (0 ≤ (asn1_oid_decode grants_32 3 (asn1_open oid_octets)).1.pointer)
    × Holds (OidFits 3 2 4) (asn1_oid_decode grants_32 3 (asn1_open oid_octets))
    × Holds (λ ids c. 8 * length ids ≤ 32) (asn1_oid_decode grants_32 3 (asn1_open oid_octets))
oid_decode_within_example =
    oid_decode_within grants_32 32 3 (asn1_open oid_octets)
      (asn1_oid_decode grants_32 3 (asn1_open oid_octets)).1
      (asn1_oid_decode grants_32 3 (asn1_open oid_octets)).0 (λ octets g. grind arith) (omega arith)
      refl
