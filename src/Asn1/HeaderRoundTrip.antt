-- ===== src/Asn1/HeaderRoundTrip.antt =====
-- The header functions of tools/asn1.c: a header that is written can be read back.
use ksmbd_tools.Base.{ℕ, ◌+◌, ◌^◌, ◌≤◌, ◌<◌, ◌≡◌, arith}
use ksmbd_tools.Base.{true, Option, some, List, ◌++◌, length}
use ksmbd_tools.Base.{inl, inr, ◌==◌, Bool-cases, ap, ◌∙◌}
use ksmbd_tools.Asn1.{Asn1Ctx, Header, asn1_header_decode, asn1_header_encode, asn1_header_len}
use ksmbd_tools.Asn1.{asn1_id_decode, asn1_length_decode, length_octets}
use ksmbd_tools.Asn1.{header_result}
use ksmbd_tools.Asn1.{◌>>=◌}
use ksmbd_tools.Asn1.Monad.{bind-some}
use ksmbd_tools.Asn1.HeaderForm.{form, header_octets, encode-header_len, length-header_octets}
use ksmbd_tools.Asn1.HeaderRead.{id_decode-first, length_decode-form}

header_result_definite :
    (cls con tag len : ℕ) (c : Asn1Ctx)
    → header_result cls con tag true len c
      ≡ (some (record { eoc = some (c.pointer + len); cls = cls; con = con; tag = tag }), c)
unfolding header_result
header_result_definite cls con tag len c = elim (Bool-cases (con == 0)) [
  | inl z ↦ rw z
  | inr z ↦ rw z
]

-- where the header ends, and where its contents end
abbrev pub Reads : ℕ → ℕ → ℕ → ℕ → ℕ → ℕ → List ℕ → List ℕ → Type 0
Reads cls con tag p e q octets bs =
    asn1_header_decode (record { error = e; pointer = q; rest = octets ++ bs }) ≡ (
      some (record { eoc = some (q + length octets + p); cls = cls; con = con; tag = tag }),
      record { error = e; pointer = q + length octets; rest = bs },
    )

pub header_decode-octets :
    (cls con tag p e q : ℕ) (bs : List ℕ)
    → cls < 4
    → con < 2
    → tag < 31
    → p < 2 ^ 32
    → p ≤ length bs
    → Reads cls con tag p e q (header_octets cls con tag p) bs
unfolding asn1_header_decode header_octets
header_decode-octets cls con tag p e q bs hc hk ht hp fits =
    bind-some asn1_id_decode
      (λ (cls, con, tag). asn1_length_decode >>= (λ (def, len). header_result cls con tag def len))
      (id_decode-first cls con tag e q (length_octets (form p) p ++ bs) hc hk ht)
    ∙ bind-some asn1_length_decode (λ (def, len). header_result cls con tag def len)
        (length_decode-form p e bs (q + 1) hp fits)
    ∙ header_result_definite cls con tag p _
    ∙ ap {B = Option Header × Asn1Ctx}
        (λ t. (
          some (record { eoc = some (t + p); cls = cls; con = con; tag = tag }),
          record { error = e; pointer = t; rest = bs },
        ))
        (omega arith)

-- For every class, method and short tag and every payload of `p` octets that an `unsigned int`
-- can count with its header: `asn1_header_encode`, given the total that `asn1_header_len` computes,
-- writes a header, leaves `p` in `*len`, and header and payload make up that total.
-- `asn1_header_decode` reads the header back wherever `p` octets at least follow it: the same class,
-- method and tag, the pointer behind the header, and `eoc` behind the payload.
pub header_decode-header_encode :
    (cls con tag p e q : ℕ) (bs : List ℕ)
    → cls < 4
    → con < 2
    → tag < 31
    → p + 6 < 2 ^ 32
    → p ≤ length bs
    → (octets : List ℕ) × (asn1_header_encode cls con tag (asn1_header_len p 1) ≡ some (octets, p))
      × (length octets + p ≡ asn1_header_len p 1)
      × Reads cls con tag p e q octets bs
header_decode-header_encode cls con tag p e q bs hc hk ht hp fits = (
  header_octets cls con tag p,
  encode-header_len cls con tag p hp,
  length-header_octets cls con tag p hp,
  header_decode-octets cls con tag p e q bs hc hk ht (omega arith) fits,
)
