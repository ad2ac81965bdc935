-- ===== src/Asn1/OidRoundTrip.antt =====
-- `asn1_oid_encode` and `asn1_oid_decode` of tools/asn1.c: an identifier that is written can be read.
use ksmbd_tools.Base.{ℕ, zero, suc, ◌+◌, ◌-◌, ◌*◌, ◌/◌, ◌%◌, ◌^◌, ◌≤◌, ◌<◌, ◌≡◌, refl, arith}
use ksmbd_tools.Base.{Bool, true, Option, some, List, [], ◌∷◌, ◌++◌, length, All}
use ksmbd_tools.Base.{length-append, le→ltb, lt→ltb, ◌⊎◌, inl, inr, ◌∙◌, sym}
use ksmbd_tools.Asn1.{Asn1Ctx, asn1_subid_decode, asn1_oid_decode, asn1_oid_encode}
use ksmbd_tools.Asn1.{group_loop, subid_encode, subids_encode, oid_loop, first_subids}
use mathlib.Core.List.{append-nil, append_assoc}
use ksmbd_tools.Asn1.Monad.{bind-some}

subid_loop :
    (id e p : ℕ) (bs : List ℕ)
    → id < 2 ^ 35
    → group_loop 64 0 e p (subid_encode id ++ bs)
      ≡ (some id, record { error = e; pointer = p + length (subid_encode id); rest = bs })
unfolding group_loop subid_encode
subid_loop id e p bs h = ground arith

length-subid_encode : (id : ℕ) → (1 ≤ length (subid_encode id)) × (length (subid_encode id) ≤ 5)
unfolding subid_encode
length-subid_encode id = ground arith

length-subids_encode :
    (ids : List ℕ)
    → (length ids ≤ length (subids_encode ids)) × (length (subids_encode ids) ≤ length ids * 5)
unfolding subids_encode
length-subids_encode [] = omega arith
length-subids_encode (id ∷ ids) = omega (
  arith,
  length-append {0} (subid_encode id) (subids_encode ids),
  length-subid_encode id,
  length-subids_encode ids,
)

subid_decode-encode :
    (id e p : ℕ) (bs : List ℕ)
    → id < 2 ^ 35
    → asn1_subid_decode (record { error = e; pointer = p; rest = subid_encode id ++ bs })
      ≡ (some id, record { error = e; pointer = p + length (subid_encode id); rest = bs })
unfolding asn1_subid_decode
subid_decode-encode id e p bs h = subid_loop id e p bs h

abbrev read_value : List ℕ → ℕ → ℕ → List ℕ → Option (List ℕ) × Asn1Ctx
read_value ids e p bs = (some ids, record { error = e; pointer = p; rest = bs })

read_ext :
    (ids ids' : List ℕ) (e p p' : ℕ) (bs : List ℕ)
    → ids ≡ ids'
    → p ≡ p'
    → read_value ids e p bs ≡ read_value ids' e p' bs
read_ext ids ids' e p p' bs h k = cc

oid_loop-done :
    (room e p eoc : ℕ) (out bs : List ℕ)
    → eoc ≡ p
    → oid_loop room eoc out (record { error = e; pointer = p; rest = bs }) ≡ read_value out e p bs
unfolding oid_loop
oid_loop-done zero e p eoc out bs q = rw (le→ltb p eoc (omega arith))
oid_loop-done (suc room) e p eoc out bs q = rw (le→ltb p eoc (omega arith))

-- The loop stops exactly behind the last identifier.
oid_loop-subids :
    (room e p eoc : ℕ) (out ids bs : List ℕ)
    → All (λ id. id < 2 ^ 35) ids
    → length ids ≤ room
    → eoc ≡ p + length (subids_encode ids)
    → oid_loop room eoc out (record { error = e; pointer = p; rest = subids_encode ids ++ bs })
      ≡ read_value (out ++ ids) e eoc bs
unfolding oid_loop subids_encode
oid_loop-subids room e p eoc out [] bs h r q =
    oid_loop-done room e p eoc out bs (omega (arith, q))
    ∙ read_ext _ _ e p eoc bs (sym (append-nil out)) (omega (arith, q))
oid_loop-subids zero e p eoc out (id ∷ ids) bs h r q = absurd (omega arith)
oid_loop-subids (suc room) e p eoc out (id ∷ ids) bs (hi, h) r q =
    let n = length-append (subid_encode id) (subids_encode ids) in
    let m = length-subid_encode id in
    rw
      (append_assoc (subid_encode id) (subids_encode ids) bs, lt→ltb p eoc (omega (arith, n, m, q)))
      (bind-some asn1_subid_decode (λ id. oid_loop room eoc (out ++ (id ∷ [])))
          (subid_decode-encode id e p (subids_encode ids ++ bs) hi)
        ∙ oid_loop-subids room e _ eoc (out ++ (id ∷ [])) ids bs h (omega arith)
            (omega (arith, n, q))
        ∙ read_ext _ _ e eoc eoc bs (append_assoc out (id ∷ []) ids) refl)

first_subids_lem :
    (a b : ℕ)
    → a ≤ 2
    → 40 * a + b < 128
    → (b < 40) ⊎ (a ≡ 2)
    → first_subids (40 * a + b) ≡ a ∷ b ∷ []
first_subids_lem a b h k (inl l) = ground arith
first_subids_lem a b h k (inr e) = ground arith

first_octet_decode :
    (n e p : ℕ) (bs : List ℕ)
    → n < 128
    → asn1_subid_decode (record { error = e; pointer = p; rest = n % 256 ∷ bs })
      ≡ (some n, record { error = e; pointer = p + 1; rest = bs })
unfolding asn1_subid_decode group_loop
first_octet_decode n e p bs h = ground arith

-- For an identifier that fits one octet for its first two parts and five octets for each other
-- part, with fewer than 2 ^ 26 other parts, and an allocator that grants the array of the encoder
-- and arrays of up to five words a part and two more: `asn1_oid_encode` writes at most five octets
-- for each part, and `asn1_oid_decode` up to their end reads the identifier back and leaves the
-- pointer there, whatever follows.
pub oid_decode-oid_encode :
    (encode_malloc decode_malloc : ℕ → Bool) (a b : ℕ) (ids : List ℕ) (e q : ℕ) (bs : List ℕ)
    → a ≤ 2
    → 40 * a + b < 128
    → (b < 40) ⊎ (a ≡ 2)
    → All (λ id. id < 2 ^ 35) ids
    → length ids < 2 ^ 26
    → encode_malloc ((length ids + 2) * 5) ≡ true
    → ((n : ℕ) → 2 ≤ n → n ≤ length ids * 5 + 2 → decode_malloc (n * 8) ≡ true)
    → (octets : List ℕ) × (asn1_oid_encode encode_malloc a b ids ≡ some octets)
      × (length octets ≤ (length ids + 2) * 5)
      × (asn1_oid_decode decode_malloc
            (q + length octets)
            (record { error = e; pointer = q; rest = octets ++ bs })
          ≡ (some (a ∷ b ∷ ids), record { error = e; pointer = q + length octets; rest = bs }))
unfolding asn1_oid_encode asn1_oid_decode
oid_decode-oid_encode encode_malloc decode_malloc a b ids e q bs ha hab hb hs hl he hd =
    let n = length-subids_encode ids in
    let octets : List ℕ = ((40 * a + b) % 256) ∷ subids_encode ids in
    let size : (2 ^ 64 + (q + length octets) + 1 - q) % 2 ^ 32 ≡ length octets + 1 =
      omega (arith, n) in
    (
      octets,
      rw he,
      omega (arith, n),
      rw
          (
            size,
            le→ltb (length octets + 1) 2 (omega arith),
            le→ltb ((2 ^ 32 - 1) / 8) (length octets + 1) (omega (arith, n)),
            hd (length octets + 1) (omega arith) (omega (arith, n)),
          )
          (bind-some asn1_subid_decode
              (λ subid. oid_loop (length octets + 1 - 2) (q + length octets) (first_subids subid))
              (first_octet_decode (40 * a + b) e q (subids_encode ids ++ bs) hab)
            ∙ rw (first_subids_lem a b ha hab hb) (
                oid_loop-subids (length octets + 1 - 2) e (q + 1) (q + length octets) (a ∷ b ∷ [])
                  ids bs hs (omega (arith, n)) (omega arith))),
    )

pub oid_encode-some :
    (try_malloc : ℕ → Bool) (a b : ℕ) (ids : List ℕ)
    → try_malloc ((length ids + 2) * 5) ≡ true
    → (octets : List ℕ) × (asn1_oid_encode try_malloc a b ids ≡ some octets)
      × (length octets ≤ length ids * 5 + 1)
unfolding asn1_oid_encode
oid_encode-some try_malloc a b ids h =
    (((40 * a + b) % 256) ∷ subids_encode ids, rw h, omega (arith, length-subids_encode ids))
