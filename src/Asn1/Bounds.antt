-- ===== src/Asn1/Bounds.antt =====
-- `asn1_header_decode` and `asn1_oid_decode` of tools/asn1.c and the buffer of `asn1_open`.
use ksmbd_tools.Base.{
  ℕ, zero, suc, ◌+◌, ◌-◌, ◌*◌, ◌/◌, ◌%◌, ◌^◌, ◌≤◌, ◌≡◌, refl, arith, ltb, ◌==◌, if◌then◌else◌,
}
use ksmbd_tools.Base.{
  ◌≢◌, Bool, true, false, ◌||◌, ◌&&◌, Option, none, some, List, [], ◌∷◌, ◌++◌, length,
}
use mathlib.Core.Path.{subst}
use ksmbd_tools.Base.{length-append}
use ksmbd_tools.Asn1.{
  Asn1Ctx, Header, end_of, Decoder, ◌>>=◌, return, fail, asn1_subid_decode, asn1_oid_decode,
}
use ksmbd_tools.Asn1.{asn1_id_decode, asn1_length_decode, asn1_header_decode}
use ksmbd_tools.Asn1.{err_dec_badvalue, header_result, oid_loop, first_subids}
use ksmbd_tools.Asn1.Within.{
  Holds, Meets, Any, Fits, bind-Meets, return-Meets, fail-Meets, subid_decode-Meets, if-Meets,
  id_decode-Meets, length_decode-Meets,
}

-- where the contents of a header may end, once its decoder has stopped at `c`
abbrev pub EocFits : Option ℕ → ℕ → Asn1Ctx → Type 0
EocFits none con c = con ≢ 0
EocFits (some eoc) con c = (c.pointer ≤ eoc) × (eoc ≤ end_of c)

abbrev pub HeaderFits : Header → Asn1Ctx → Type 0
HeaderFits h c = EocFits h.eoc h.con c

header_result-Meets :
    (cls con tag : ℕ) (def : Bool) (len : ℕ) (c : Asn1Ctx)
    → len ≤ length c.rest
    → Meets (header_result cls con tag def len) HeaderFits c
unfolding header_result
header_result-Meets cls con tag true len c h =
    if-Meets _ fail
      (return (record { eoc = some (c.pointer + len); cls = cls; con = con; tag = tag })) HeaderFits
      c (con == 0 && false) refl (λ _. fail-Meets HeaderFits c)
      (λ _. return-Meets _ HeaderFits c (omega arith, omega arith))
header_result-Meets cls con tag false len c h =
    if-Meets _ fail (return (record { eoc = none; cls = cls; con = con; tag = tag })) HeaderFits c
      (con == 0 && true) refl (λ _. fail-Meets HeaderFits c)
      (λ k. return-Meets _ HeaderFits c (ground arith))

header_decode-Meets : (c : Asn1Ctx) → Meets asn1_header_decode HeaderFits c
unfolding asn1_header_decode
header_decode-Meets c =
    bind-Meets asn1_id_decode
      (λ (cls, con, tag). asn1_length_decode >>= (λ (def, len). header_result cls con tag def len))
      Any HeaderFits c (id_decode-Meets c)
      (λ i c' _.
        bind-Meets asn1_length_decode (λ (def, len). header_result i.0 i.1 i.2 def len) Fits
          HeaderFits c' (length_decode-Meets c')
          (λ r c'' h. header_result-Meets i.0 i.1 i.2 r.0 r.1 c'' h))

-- `asn1_header_decode` on any octets at all: whether it succeeds or not, `end` stays and the
-- pointer never goes back, so it stays inside the buffer. Where it succeeds with a definite
-- length, `eoc` lies between the new pointer and the end of the buffer; where it succeeds with
-- none, the header is a constructed one.
pub header_decode_within :
    (c c' : Asn1Ctx) (r : Option Header)
    → asn1_header_decode c ≡ (r, c')
    → (end_of c' ≡ end_of c) × (c.pointer ≤ c'.pointer) × Holds HeaderFits (r, c')
header_decode_within c c' r e =
    let m = header_decode-Meets c in
    (
      subst (λ (x : Option Header × Asn1Ctx). end_of x.1 ≡ end_of c) e m.within.same_end,
      subst (λ (x : Option Header × Asn1Ctx). c.pointer ≤ x.1.pointer) e m.within.forward,
      subst (Holds HeaderFits) e m.holds,
    )

-- what the loop of `asn1_oid_decode` leaves: it has reached `eoc`, and the array has room
abbrev pub OidFits : ℕ → ℕ → ℕ → List ℕ → Asn1Ctx → Type 0
OidFits eoc lo hi ids c = (eoc ≤ c.pointer) × (lo ≤ length ids) × (length ids ≤ hi)

OidFits-mono :
    (eoc lo lo' hi : ℕ) (m : Decoder (List ℕ)) (c : Asn1Ctx)
    → lo ≤ lo'
    → Meets m (OidFits eoc lo' hi) c
    → Meets m (OidFits eoc lo hi) c
OidFits-mono eoc lo lo' hi m c h r = record { within = r.within; holds = weaken (m c) r.holds }
  where
    weaken :
        (r : Option (List ℕ) × Asn1Ctx) → Holds (OidFits eoc lo' hi) r → Holds (OidFits eoc lo hi) r
    weaken (none, c) k = tt
    weaken (some ids, c) (a, b, d) = (a, omega arith, d)

oid_loop-Meets :
    (room eoc hi : ℕ) (out : List ℕ) (c : Asn1Ctx)
    → length out + room ≤ hi
    → Meets (oid_loop room eoc out) (OidFits eoc (length out) hi) c
unfolding oid_loop
oid_loop-Meets zero eoc hi out c h =
    let Q = OidFits eoc (length out) hi in
    if-Meets (oid_loop zero eoc out) (λ c. (none, record c { error = err_dec_badvalue }))
      (return out) Q c (ltb c.pointer eoc) refl (λ _. record { within = omega arith; holds = tt })
      (λ k. return-Meets out Q c (ground arith, omega arith, omega arith))
oid_loop-Meets (suc room) eoc hi out c h =
    let Q = OidFits eoc (length out) hi in
    if-Meets (oid_loop (suc room) eoc out)
      (asn1_subid_decode >>= (λ id. oid_loop room eoc (out ++ (id ∷ [])))) (return out) Q c
      (ltb c.pointer eoc) refl
      (λ _.
        bind-Meets asn1_subid_decode (λ id. oid_loop room eoc (out ++ (id ∷ []))) Any Q c
          (subid_decode-Meets c)
          (λ id c' _.
            OidFits-mono eoc (length out) (length (out ++ (id ∷ []))) hi _ c'
              (omega (arith, length-append out (id ∷ [])))
              (oid_loop-Meets room eoc hi (out ++ (id ∷ [])) c'
                (omega (arith, length-append out (id ∷ []))))))
      (λ k. return-Meets out Q c (ground arith, omega arith, omega arith))

length-first_subids : (n : ℕ) → length (first_subids n) ≡ 2
length-first_subids n = ground arith

guarded_oid : (ℕ → Bool) → ℕ → ℕ → Decoder (List ℕ)
guarded_oid try_malloc size eoc c =
    if try_malloc (size * 8)
    then (asn1_subid_decode >>= (λ subid. oid_loop (size - 2) eoc (first_subids subid))) c
    else fail c

guarded_oid-Meets :
    (try_malloc : ℕ → Bool) (size hi eoc : ℕ) (c : Asn1Ctx)
    → 2 ≤ size
    → (try_malloc (size * 8) ≡ true → size ≤ hi)
    → Meets (guarded_oid try_malloc size eoc) (OidFits eoc 2 hi) c
unfolding guarded_oid
guarded_oid-Meets try_malloc size hi eoc c h k =
    let Q = OidFits eoc 2 hi in
    if-Meets (guarded_oid try_malloc size eoc)
      (asn1_subid_decode >>= (λ subid. oid_loop (size - 2) eoc (first_subids subid))) fail Q c
      (try_malloc (size * 8)) refl
      (λ granted.
        let k' : size ≤ hi = k granted in
        bind-Meets asn1_subid_decode (λ subid. oid_loop (size - 2) eoc (first_subids subid)) Any Q c
          (subid_decode-Meets c)
          (λ n c' _.
            OidFits-mono eoc 2 (length (first_subids n)) hi _ c'
              (omega (arith, length-first_subids n))
              (oid_loop-Meets (size - 2) eoc hi (first_subids n) c'
                (omega (arith, length-first_subids n)))))
      (λ _. fail-Meets Q c)

OidFits-words :
    (eoc n : ℕ) (r : Option (List ℕ) × Asn1Ctx)
    → Holds (OidFits eoc 2 (n / 8)) r
    → Holds (λ ids c. 8 * length ids ≤ n) r
OidFits-words eoc n (none, c) h = tt
OidFits-words eoc n (some ids, c) (a, b, d) = omega arith

big : (size : ℕ) → (ltb size 2 || ltb ((2 ^ 32 - 1) / 8) size) ≡ false → 2 ≤ size
big size h = ground arith

oid_decode-Meets :
    (try_malloc : ℕ → Bool) (hi eoc : ℕ) (c : Asn1Ctx)
    → (try_malloc ((2 ^ 64 + eoc + 1 - c.pointer) % 2 ^ 32 * 8) ≡ true
        → (2 ^ 64 + eoc + 1 - c.pointer) % 2 ^ 32 ≤ hi)
    → Meets (asn1_oid_decode try_malloc eoc) (OidFits eoc 2 hi) c
unfolding asn1_oid_decode guarded_oid
oid_decode-Meets try_malloc hi eoc c k =
    let size : ℕ = (2 ^ 64 + eoc + 1 - c.pointer) % 2 ^ 32 in
    if-Meets (asn1_oid_decode try_malloc eoc) fail (guarded_oid try_malloc size eoc)
      (OidFits eoc 2 hi) c (ltb size 2 || ltb ((2 ^ 32 - 1) / 8) size) refl (λ _. fail-Meets _ c)
      (λ b. guarded_oid-Meets try_malloc size hi eoc c (big size b) k)

-- `asn1_oid_decode` on any octets, with `eoc` not before the pointer: whether it succeeds or not,
-- `end` stays and the pointer never goes back. Where it succeeds, it has read up to `eoc`, and the
-- two or more parts that it stored are at most `eoc - pointer + 1`, and where the allocator grants
-- no more than `n` octets they fit these as words of 8 octets.
pub oid_decode_within :
    (try_malloc : ℕ → Bool) (n eoc : ℕ) (c c' : Asn1Ctx) (r : Option (List ℕ))
    → ((octets : ℕ) → try_malloc octets ≡ true → octets ≤ n)
    → c.pointer ≤ eoc
    → asn1_oid_decode try_malloc eoc c ≡ (r, c')
    → (end_of c' ≡ end_of c)
      × (c.pointer ≤ c'.pointer)
      × Holds (OidFits eoc 2 (eoc - c.pointer + 1)) (r, c')
      × Holds (λ ids c. 8 * length ids ≤ n) (r, c')
oid_decode_within try_malloc n eoc c c' r grant h e =
    let size : ℕ = (2 ^ 64 + eoc + 1 - c.pointer) % 2 ^ 32 in
    let m = oid_decode-Meets try_malloc (eoc - c.pointer + 1) eoc c (λ _. omega arith) in
    let words =
      oid_decode-Meets try_malloc (n / 8) eoc c
        (λ g. let room = grant (size * 8) g in omega arith) in
    (
      subst (λ (x : Option (List ℕ) × Asn1Ctx). end_of x.1 ≡ end_of c) e m.within.same_end,
      subst (λ (x : Option (List ℕ) × Asn1Ctx). c.pointer ≤ x.1.pointer) e m.within.forward,
      subst (Holds (OidFits eoc 2 (eoc - c.pointer + 1))) e m.holds,
      subst (Holds (λ ids c. 8 * length ids ≤ n)) e
          (OidFits-words eoc n (asn1_oid_decode try_malloc eoc c) words.holds),
    )
