-- ===== src/Asn1/HeaderForm.antt =====
-- What `asn1_header_encode` of tools/asn1.c writes, in plain arithmetic.
use ksmbd_tools.Base.{ℕ, ◌+◌, ◌*◌, ◌%◌, ◌^◌, ◌<◌, ◌≡◌, arith, ltb}
use ksmbd_tools.Base.{Bool, true, false, some, List, ◌∷◌, length}
use ksmbd_tools.Asn1.{asn1_header_encode, asn1_header_len}
use ksmbd_tools.Asn1.{header_step, length_octets}

-- the form of the length that the encoder picks for a payload of `p` octets
unfoldable pub form : ℕ → ℕ
form p =
    if_form (ltb p (2 ^ 7)) 0
      (if_form (ltb p (2 ^ 8)) 1 (if_form (ltb p (2 ^ 16)) 2 (if_form (ltb p (2 ^ 24)) 3 4)))
  where
    if_form : Bool → ℕ → ℕ → ℕ
    if_form true a b = a
    if_form false a b = b

unfoldable pub first_octet : ℕ → ℕ → ℕ → ℕ
first_octet cls con tag = cls % 4 * 64 + con % 2 * 32 + tag % 32

-- the header in front of `p` octets
unfoldable pub header_octets : ℕ → ℕ → ℕ → ℕ → List ℕ
header_octets cls con tag p = first_octet cls con tag ∷ length_octets (form p) p

pub encode-header_len :
    (cls con tag p : ℕ)
    → p + 6 < 2 ^ 32
    → asn1_header_encode cls con tag (asn1_header_len p 1) ≡ some (header_octets cls con tag p, p)
unfolding form first_octet header_octets asn1_header_encode asn1_header_len header_step
encode-header_len cls con tag p h = ground arith

pub length-header_octets :
    (cls con tag p : ℕ)
    → p + 6 < 2 ^ 32
    → length (header_octets cls con tag p) + p ≡ asn1_header_len p 1
unfolding form header_octets asn1_header_len header_step
length-header_octets cls con tag p h = ground arith
