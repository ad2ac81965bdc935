-- ===== src/Spnego/Encode.antt =====
-- The answer that `encode_negTokenTarg` of tools/management/spnego.c builds.
use ksmbd_tools.Base.{ℕ, ◌+◌, ◌*◌, ◌%◌, ◌^◌, ◌≤◌, ◌<◌, ◌≡◌, refl, arith, true, Bool, ap}
use ksmbd_tools.Base.{Option, some, List, [], ◌∷◌, ◌++◌, length, length-append, take, drop}
use ksmbd_tools.Asn1.{asn1_header_len, asn1_oid_encode}
use ksmbd_tools.Asn1.HeaderForm.{header_octets, encode-header_len}
use ksmbd_tools.Asn1.OidRoundTrip.{oid_encode-some}
use ksmbd_tools.Asn1.Tlv.{tlv, length-tlv, header_len-bounds, header_len-suc, length-tlv_two}
use ksmbd_tools.Spnego.{
  encode_neg_token_targ, neg_token_targ_octets, header_put, copy_advance, krb5_oid,
}
use native.Mathlib.Nat.{sub_self}
use mathlib.Core.List.{append_assoc, append-nil}

header_put-tlv :
    (cls con tag : ℕ) (buf xs : List ℕ)
    → length xs + 6 < 2 ^ 32
    → header_put cls con tag (buf, asn1_header_len (length xs) 1)
      ≡ (buf ++ header_octets cls con tag (length xs), length xs)
unfolding header_put
header_put-tlv cls con tag buf xs h = rw (encode-header_len cls con tag (length xs) h, header_put)

-- the header of a value inside another one
header_put-two :
    (c k t c' k' t' : ℕ) (buf xs : List ℕ)
    → length xs + 12 < 2 ^ 32
    → header_put c' k' t' (header_put c k t (buf, asn1_header_len (length xs) 2)) ≡ (
      (buf ++ header_octets c k t (length (tlv c' k' t' xs))) ++ header_octets c' k' t' (length xs),
      length xs,
    )
header_put-two c k t c' k' t' buf xs h =
    let b = header_len-bounds (length xs) (omega arith) in
    let e = length-tlv c' k' t' xs (omega arith) in
    rw
      (
        header_len-suc (length xs) 1,
        ← e,
        header_put-tlv c k t buf (tlv c' k' t' xs) (omega (arith, e, b)),
        e,
      )
      (header_put-tlv c' k' t' _ xs (omega arith))

take-length {ℓ} : {A : Type ℓ} (xs : List A) → take (length xs) xs ≡ xs
take-length [] = refl
take-length (x ∷ xs) = ap (λ t. x ∷ t) (take-length xs)

copy_advance-all : (src buf : List ℕ) → copy_advance src (buf, length src) ≡ buf ++ src
unfolding copy_advance
copy_advance-all src buf = rw (take-length src, sub_self (length src), append-nil src)

-- The contents of the answer, by their nesting: the result code 0, the chosen mechanism, and the
-- Kerberos reply with its identifier and the AP_REP id in front.
module _ (sup krb blob : List ℕ) where
  unfoldable pub reply : List ℕ
  reply = tlv 0 0 6 krb ++ (2 ∷ 0 ∷ blob)

  unfoldable pub reply_token : List ℕ
  reply_token = tlv 0 0 4 (tlv 1 1 0 reply)

  unfoldable pub targ_fields : List ℕ
  targ_fields =
      tlv 2 1 0 (tlv 0 0 10 (0 ∷ [])) ++ (tlv 2 1 1 (tlv 0 0 6 sup) ++ tlv 2 1 2 reply_token)

  unfoldable pub neg_token_targ : List ℕ
  neg_token_targ = tlv 2 1 1 (tlv 0 1 16 targ_fields)

  module _ (small : length sup + length krb + length blob + 100 < 2 ^ 32) where
    length-reply : length reply ≡ asn1_header_len (length krb) 1 + 2 + length blob
    unfolding reply
    length-reply =
        omega
          (arith, length-append (tlv 0 0 6 krb) (2 ∷ 0 ∷ blob), length-tlv 0 0 6 krb (omega arith))

    reply-small : length reply ≤ length krb + length blob + 8
    reply-small = omega (arith, length-reply, header_len-bounds (length krb) (omega arith))

    abbrev reply_len : ℕ
    reply_len = (asn1_header_len (length krb) 1 + 2 + length blob) % 2 ^ 32

    reply_len-eq : reply_len ≡ length reply
    reply_len-eq = omega (arith, length-reply, reply-small)

    length-mech :
        (length (tlv 2 1 1 (tlv 0 0 6 sup)) ≡ asn1_header_len (length sup) 2)
        × (asn1_header_len (length sup) 2 ≤ length sup + 12)
    length-mech = length-tlv_two 2 1 1 0 0 6 sup (omega arith)

    length-result :
        (length (tlv 2 1 0 (tlv 0 0 10 (0 ∷ []))) ≡ asn1_header_len 1 2)
        × (asn1_header_len 1 2 ≤ 13)
    length-result = length-tlv_two 2 1 0 0 0 10 (0 ∷ []) (omega arith)

    length-token :
        (length (tlv 2 1 2 reply_token) ≡ asn1_header_len (length reply) 3)
        × (asn1_header_len (length reply) 3 ≤ length krb + length blob + 26)
    unfolding reply_token
    length-token =
        let b = header_len-bounds (length reply) (omega (arith, reply-small)) in
        let e = length-tlv 1 1 0 reply (omega (arith, reply-small)) in
        let (f, g) =
          length-tlv_two 2 1 2 0 0 4 (tlv 1 1 0 reply) (omega (arith, e, b, reply-small)) in
        rw (header_len-suc (length reply) 2, ← e) (f, omega (arith, g, e, b, reply-small))

    abbrev fields_len : ℕ
    fields_len =
        (asn1_header_len 1 2 + asn1_header_len (length sup) 2 + asn1_header_len (length reply) 3)
        % 2 ^ 32

    fields_len-eq : fields_len ≡ length targ_fields
    unfolding targ_fields
    fields_len-eq =
        let (a, a') = length-result in
        let (b, b') = length-mech in
        let (c, c') = length-token in
        rw
          (
            length-append (tlv 2 1 0 (tlv 0 0 10 (0 ∷ [])))
                (tlv 2 1 1 (tlv 0 0 6 sup) ++ tlv 2 1 2 reply_token),
            length-append (tlv 2 1 1 (tlv 0 0 6 sup)) (tlv 2 1 2 reply_token),
            a,
            b,
            c,
          )
          (omega (arith, a', b', c'))

    fields-small : length targ_fields ≤ length sup + length krb + length blob + 51
    fields-small =
        let (a, a') = length-result in
        let (b, b') = length-mech in
        let (c, c') = length-token in
        unfold targ_fields in
        rw
          (
            length-append (tlv 2 1 0 (tlv 0 0 10 (0 ∷ [])))
                (tlv 2 1 1 (tlv 0 0 6 sup) ++ tlv 2 1 2 reply_token),
            length-append (tlv 2 1 1 (tlv 0 0 6 sup)) (tlv 2 1 2 reply_token),
            a,
            b,
            c,
          )
          (omega (arith, a', b', c'))

    -- the three headers of the Kerberos reply
    put_reply :
        (buf : List ℕ)
        → header_put 1 1 0
            (header_put 0 0 4 (header_put 2 1 2 (buf, asn1_header_len (length reply) 3)))
          ≡ (
            ((buf ++ header_octets 2 1 2 (length reply_token))
                  ++ header_octets 0 0 4 (length (tlv 1 1 0 reply)))
                ++ header_octets 1 1 0 (length reply),
            length reply,
          )
    unfolding reply_token
    put_reply buf =
        let b = header_len-bounds (length reply) (omega (arith, reply-small)) in
        let e = length-tlv 1 1 0 reply (omega (arith, reply-small)) in
        rw
          (
            header_len-suc (length reply) 2,
            ← e,
            header_put-two 2 1 2 0 0 4 buf (tlv 1 1 0 reply) (omega (arith, e, b, reply-small)),
            e,
          )
          (header_put-tlv 1 1 0 _ reply (omega (arith, reply-small)))

    length-tlv_inner :
        (length (tlv 0 1 16 targ_fields) ≡ asn1_header_len (length targ_fields) 1)
        × (length (tlv 0 1 16 targ_fields) + 6 < 2 ^ 32)
    length-tlv_inner =
        let e = length-tlv 0 1 16 targ_fields (omega (arith, fields-small)) in
        let b = header_len-bounds (length targ_fields) (omega (arith, fields-small)) in
        (e, omega (arith, e, b, fields-small))

    length-answer :
        (length neg_token_targ ≡ asn1_header_len (length targ_fields) 2)
        × (2 ≤ length neg_token_targ)
        × (length neg_token_targ < 2 ^ 32)
    unfolding neg_token_targ
    length-answer =
        let (e, b) = length-tlv_two 2 1 1 0 1 16 targ_fields (omega (arith, fields-small)) in
        let (i, d) = length-tlv_inner in
        (
          e,
          omega (arith, length-tlv 2 1 1 (tlv 0 1 16 targ_fields) d, header_len-bounds _ d),
          omega (arith, e, b, fields-small),
        )

    -- the headers one after the other, before they are bracketed by what they count
    flat : List ℕ
    flat =
        ((((((((((((header_octets 2 1 1 (length (tlv 0 1 16 targ_fields))
                                ++ header_octets 0 1 16 (length targ_fields))
                              ++ header_octets 2 1 0 (length (tlv 0 0 10 (0 ∷ []))))
                            ++ header_octets 0 0 10 1)
                          ++ (0 ∷ []))
                        ++ header_octets 2 1 1 (length (tlv 0 0 6 sup)))
                      ++ header_octets 0 0 6 (length sup))
                    ++ sup)
                  ++ header_octets 2 1 2 (length reply_token))
                ++ header_octets 0 0 4 (length (tlv 1 1 0 reply)))
              ++ header_octets 1 1 0 (length reply))
            ++ header_octets 0 0 6 (length krb))
          ++ krb)
        ++ (2 ∷ 0 ∷ blob)

    nested : flat ≡ neg_token_targ
    unfolding flat neg_token_targ targ_fields reply reply_token tlv
    nested = simp append_assoc

    -- Every write lands where the one before it ended, and together they are the answer.
    octets-neg_token_targ :
        neg_token_targ_octets
          (asn1_header_len (length targ_fields) 2)
          (asn1_header_len 1 2)
          (asn1_header_len (length sup) 2)
          (asn1_header_len (length reply) 3)
          sup
          krb
          blob
        ≡ neg_token_targ
    unfolding neg_token_targ_octets flat
    octets-neg_token_targ =
        rw
          (
            header_put-two 2 1 1 0 1 16 [] targ_fields (omega (arith, fields-small)),
            header_put-two 2 1 0 0 0 10 _ (0 ∷ []) (omega arith),
            header_put-two 2 1 1 0 0 6 _ sup (omega arith),
            copy_advance-all sup _,
            put_reply _,
            header_put-tlv 0 0 6 _ krb (omega arith),
            copy_advance-all krb _,
          )
          nested

encode-some :
    (try_malloc : ℕ → Bool) (blob : List ℕ) (a b : ℕ) (ids sup krb : List ℕ)
    → asn1_oid_encode try_malloc a b ids ≡ some sup
    → asn1_oid_encode try_malloc 1 2 (drop 2 krb5_oid) ≡ some krb
    → length sup + length krb + length blob + 100 < 2 ^ 32
    → ((n : ℕ) → 0 < n → n < 2 ^ 32 → try_malloc n ≡ true)
    → encode_neg_token_targ try_malloc blob a b ids
      ≡ some (neg_token_targ sup krb blob, length (neg_token_targ sup krb blob))
unfolding encode_neg_token_targ
encode-some try_malloc blob a b ids sup krb es ek small ok =
    let r = reply_len-eq sup krb blob small in
    let f = fields_len-eq sup krb blob small in
    let (n, n', n'') = length-answer sup krb blob small in
    rw
      (
        es,
        ek,
        encode_neg_token_targ,
        r,
        f,
        ← n,
        ok (length (neg_token_targ sup krb blob)) (omega (arith, n')) n'',
      )
      (ap {B = Option (List ℕ × ℕ)} (λ t. some (t, length (neg_token_targ sup krb blob)))
        (rw n (octets-neg_token_targ sup krb blob small)))

-- For any identifier of fewer than 2 ^ 26 parts and any reply of the mechanism below 2 ^ 31 octets:
-- if every allocation below 2 ^ 32 octets is granted, `encode_negTokenTarg` writes the nested values of a negTokenTarg
-- (the result 0, the mechanism, and the reply behind the Kerberos identifier and the AP_REP id),
-- and exactly as many octets as it allocated.
pub encode_neg_token_targ_lem :
    (try_malloc : ℕ → Bool) (blob : List ℕ) (a b : ℕ) (ids : List ℕ)
    → length ids < 2 ^ 26
    → length blob < 2 ^ 31
    → ((n : ℕ) → 0 < n → n < 2 ^ 32 → try_malloc n ≡ true)
    → (sup krb : List ℕ) × (asn1_oid_encode try_malloc a b ids ≡ some sup)
      × (asn1_oid_encode try_malloc 1 2 (drop 2 krb5_oid) ≡ some krb)
      × (encode_neg_token_targ try_malloc blob a b ids
          ≡ some (neg_token_targ sup krb blob, length (neg_token_targ sup krb blob)))
encode_neg_token_targ_lem try_malloc blob a b ids hi hb ok =
    let (sup, es, ls) =
      oid_encode-some try_malloc a b ids (ok ((length ids + 2) * 5) (omega arith) (omega arith)) in
    let (krb, ek, lk) =
      oid_encode-some try_malloc 1 2 (drop 2 krb5_oid) (ok 35 (omega arith) (omega arith)) in
    let small : length sup + length krb + length blob + 100 < 2 ^ 32 = omega (arith, ls, lk) in
    (sup, krb, es, ek, encode-some try_malloc blob a b ids sup krb es ek small ok)
