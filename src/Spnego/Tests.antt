-- ===== src/Spnego/Tests.antt =====
-- Runs of tools/management/spnego.c on concrete octets, and the theorem on them.
use ksmbd_tools.Base.{ℕ, ◌≡◌, refl, arith, Bool, true, some, List, [], ◌∷◌, length, drop}
use ksmbd_tools.Asn1.{asn1_oid_encode}
use ksmbd_tools.Spnego.{krb5_oid, encode_neg_token_targ}
use ksmbd_tools.Spnego.Encode.{neg_token_targ, encode_neg_token_targ_lem}

abbrev grants : ℕ → Bool
grants n = true

-- the answer to a client that speaks the Kerberos of MS, with a reply of two octets
encode_neg_token_targ_lem_example :
    (sup krb : List ℕ) × (asn1_oid_encode grants 1 2 (840 ∷ 48018 ∷ 1 ∷ 2 ∷ 2 ∷ []) ≡ some sup)
    × (asn1_oid_encode grants 1 2 (drop 2 krb5_oid) ≡ some krb)
    × (encode_neg_token_targ grants (9 ∷ 9 ∷ []) 1 2 (840 ∷ 48018 ∷ 1 ∷ 2 ∷ 2 ∷ [])
        ≡ some (neg_token_targ sup krb (9 ∷ 9 ∷ []), length (neg_token_targ sup krb (9 ∷ 9 ∷ []))))
encode_neg_token_targ_lem_example =
    encode_neg_token_targ_lem grants (9 ∷ 9 ∷ []) 1 2 (840 ∷ 48018 ∷ 1 ∷ 2 ∷ 2 ∷ []) (omega arith)
      (omega arith) (λ n _ _. refl)
