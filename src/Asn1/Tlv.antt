-- ===== src/Asn1/Tlv.antt =====
-- A value in the encoding of tools/asn1.c: a header, and the contents that it counts.
use ksmbd_tools.Base.{
  ℕ, suc, ◌+◌, ◌^◌, ◌≤◌, ◌<◌, ◌≡◌, refl, arith, List, ◌++◌, ◌∙◌, length, length-append,
}
use ksmbd_tools.Asn1.{asn1_header_len, header_step}
use ksmbd_tools.Asn1.HeaderForm.{header_octets, length-header_octets}

-- the value of a class, method and tag whose contents are `xs`
unfoldable pub tlv : ℕ → ℕ → ℕ → List ℕ → List ℕ
tlv cls con tag xs = header_octets cls con tag (length xs) ++ xs

pub length-tlv :
    (cls con tag : ℕ) (xs : List ℕ)
    → length xs + 6 < 2 ^ 32
    → length (tlv cls con tag xs) ≡ asn1_header_len (length xs) 1
unfolding tlv
length-tlv cls con tag xs h =
    length-append (header_octets cls con tag (length xs)) xs
    ∙ length-header_octets cls con tag (length xs) h

pub header_len-bounds :
    (n : ℕ) → n + 6 < 2 ^ 32 → (n + 2 ≤ asn1_header_len n 1) × (asn1_header_len n 1 ≤ n + 6)
unfolding asn1_header_len header_step
header_len-bounds n h = ground arith

-- one level more is one level outside
pub header_len-suc :
    (n depth : ℕ) → asn1_header_len n (suc depth) ≡ asn1_header_len (asn1_header_len n 1) depth
unfolding asn1_header_len
header_len-suc n depth = refl

pub length-tlv_two :
    (c k t c' k' t' : ℕ) (xs : List ℕ)
    → length xs + 12 < 2 ^ 32
    → (length (tlv c k t (tlv c' k' t' xs)) ≡ asn1_header_len (length xs) 2)
      × (asn1_header_len (length xs) 2 ≤ length xs + 12)
length-tlv_two c k t c' k' t' xs h =
    let b = header_len-bounds (length xs) (omega arith) in
    let e = length-tlv c' k' t' xs (omega arith) in
    rw (header_len-suc (length xs) 1, ← e)
      (
        length-tlv c k t (tlv c' k' t' xs) (omega (arith, e, b)),
        omega (arith, e, b, header_len-bounds (length (tlv c' k' t' xs)) (omega (arith, e, b))),
      )
