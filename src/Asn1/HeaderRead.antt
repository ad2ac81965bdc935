-- ===== src/Asn1/HeaderRead.antt =====
-- The identifier and length octets of tools/asn1.c, read back one by one.
use ksmbd_tools.Base.{ℕ, zero, suc, ◌+◌, ◌/◌, ◌%◌, ◌^◌, ◌≤◌, ◌<◌, ◌≡◌, refl, arith}
use ksmbd_tools.Base.{Bool, true, Option, some, List, ◌∷◌, ◌++◌, length}
use ksmbd_tools.Base.{drop, ==_ne, le→ltb, lt→ltb, ◌⊎◌, inl, inr, ap, ◌∙◌}
use ksmbd_tools.Asn1.{Asn1Ctx}
use ksmbd_tools.Asn1.{asn1_id_decode, asn1_length_decode, asn1_octet_decode, length_octets}
use ksmbd_tools.Asn1.{length_value, long_tag, octet_step, length_loop, check_length}
use ksmbd_tools.Asn1.{return, ◌>>=◌}
use native.Mathlib.Nat.{mod-eq_of_lt}
use ksmbd_tools.Asn1.Monad.{bind-some}
use ksmbd_tools.Asn1.HeaderForm.{form, first_octet}

long_tag_short : (tag : ℕ) (c : Asn1Ctx) → tag < 31 → long_tag tag c ≡ (some tag, c)
unfolding long_tag
long_tag_short tag c h = ground arith

first_octet_bits :
    (cls con tag : ℕ)
    → cls < 4
    → con < 2
    → tag < 31
    → (first_octet cls con tag / 64 % 4 ≡ cls)
      × (first_octet cls con tag / 32 % 2 ≡ con)
      × (first_octet cls con tag % 32 ≡ tag)
unfolding first_octet
first_octet_bits cls con tag hc hk ht = omega arith

pub id_decode-first :
    (cls con tag e q : ℕ) (bs : List ℕ)
    → cls < 4
    → con < 2
    → tag < 31
    → asn1_id_decode (record { error = e; pointer = q; rest = first_octet cls con tag ∷ bs })
      ≡ (some (cls, con, tag), record { error = e; pointer = q + 1; rest = bs })
unfolding asn1_id_decode asn1_octet_decode octet_step
id_decode-first cls con tag e q bs hc hk ht =
    let (e1, e2, e3) = first_octet_bits cls con tag hc hk ht in
    rw (e1, e2, e3) (bind-some (long_tag tag) (λ t. return (cls, con, t)) (long_tag_short tag _ ht))

module _ (p e : ℕ) (bs : List ℕ) where
  abbrev pub after : ℕ → Asn1Ctx
  after q = record { error = e; pointer = q; rest = bs }

  -- the octets behind the first one of form `cnt`
  abbrev at_value : ℕ → ℕ → Asn1Ctx
  at_value cnt q = record { error = e; pointer = q; rest = drop 1 (length_octets cnt p) ++ bs }

  length_value_short : (q : ℕ) → p < 2 ^ 7 → length_value p (after q) ≡ (some (true, p), after q)
  unfolding length_value
  length_value_short q h = rw (==_ne p 0x80 (omega arith), lt→ltb p _ h)

  length_loop1 : (q : ℕ) → p < 2 ^ 8 → length_loop 1 0 (at_value 1 q) ≡ (some p, after (q + 1))
  unfolding length_loop asn1_octet_decode octet_step
  length_loop1 q h = ground arith

  length_loop2 : (q : ℕ) → p < 2 ^ 16 → length_loop 2 0 (at_value 2 q) ≡ (some p, after (q + 1 + 1))
  unfolding length_loop asn1_octet_decode octet_step
  length_loop2 q h = ground arith

  length_loop3 :
      (q : ℕ) → p < 2 ^ 24 → length_loop 3 0 (at_value 3 q) ≡ (some p, after (q + 1 + 1 + 1))
  unfolding length_loop asn1_octet_decode octet_step
  length_loop3 q h = ground arith

  length_loop4 :
      (q : ℕ) → p < 2 ^ 32 → length_loop 4 0 (at_value 4 q) ≡ (some p, after (q + 1 + 1 + 1 + 1))
  unfolding length_loop asn1_octet_decode octet_step
  length_loop4 q h = ground arith

  length_value_long :
      (ch : ℕ) (c : Asn1Ctx) (q : ℕ)
      → 0x80 < ch
      → length_loop (ch % 128) 0 c ≡ (some p, after q)
      → length_value ch c ≡ (some (true, p), after q)
  unfolding length_value
  length_value_long ch c q h l =
      rw (==_ne ch 0x80 (omega arith), le→ltb ch 0x80 (omega arith))
        (bind-some (length_loop (ch % 128) 0) (λ len. return (true, len)) l)

  -- the context in front of the length
  abbrev pub at_length : ℕ → ℕ → Asn1Ctx
  at_length cnt q = record { error = e; pointer = q; rest = length_octets cnt p ++ bs }

  check_length_fits :
      (q : ℕ) → p ≤ length bs → check_length true p (after q) ≡ (some (true, p), after q)
  unfolding check_length
  check_length_fits q h = rw (le→ltb (length bs) p h)

  length_decode-value :
      (c c' : Asn1Ctx) (ch q : ℕ)
      → p ≤ length bs
      → asn1_octet_decode c ≡ (some ch, c')
      → length_value ch c' ≡ (some (true, p), after q)
      → asn1_length_decode c ≡ (some (true, p), after q)
  unfolding asn1_length_decode
  length_decode-value c c' ch q fits o v =
      bind-some asn1_octet_decode (λ ch. length_value ch >>= (λ (def, len). check_length def len)) o
      ∙ bind-some (length_value ch) (λ (def, len). check_length def len) v
      ∙ check_length_fits q fits

  -- a long form: its first octet, and what the loop makes of the others
  long_read :
      (c c' : Asn1Ctx) (ch q : ℕ)
      → p ≤ length bs
      → 0x80 < ch
      → asn1_octet_decode c ≡ (some ch, c')
      → length_loop (ch % 128) 0 c' ≡ (some p, after q)
      → asn1_length_decode c ≡ (some (true, p), after q)
  long_read c c' ch q fits h o l =
      length_decode-value c c' ch q fits o (length_value_long ch c' q h l)

  -- The form is the shortest of the five that holds `p`.
  form_cases :
      p < 2 ^ 32
      → ((form p ≡ 0) × (p < 2 ^ 7))
        ⊎ ((form p ≡ 1) × (p < 2 ^ 8))
        ⊎ ((form p ≡ 2) × (p < 2 ^ 16))
        ⊎ ((form p ≡ 3) × (p < 2 ^ 24))
        ⊎ ((form p ≡ 4) × (p < 2 ^ 32))
  unfolding form
  form_cases h = ground arith

  abbrev pub LengthRead : ℕ → ℕ → Type 0
  LengthRead cnt q =
      asn1_length_decode (at_length cnt q)
      ≡ (some (true, p), after (q + length (length_octets cnt p)))

  move :
      (q q' : ℕ) (c : Asn1Ctx)
      → q ≡ q'
      → asn1_length_decode c ≡ (some (true, p), after q)
      → asn1_length_decode c ≡ (some (true, p), after q')
  move q q' c h r = r ∙ ap {B = Option (Bool × ℕ) × Asn1Ctx} (λ t. (some (true, p), after t)) h

  long_form :
      (cnt q q' : ℕ)
      → p ≤ length bs
      → asn1_octet_decode (at_length cnt q) ≡ (some (128 + cnt), at_value cnt (q + 1))
      → 0 < cnt
      → (128 + cnt) % 128 ≡ cnt
      → length_loop cnt 0 (at_value cnt (q + 1)) ≡ (some p, after q')
      → q' ≡ q + length (length_octets cnt p)
      → LengthRead cnt q
  long_form cnt q q' fits o h m l e =
      move q' _ _ e (long_read _ _ (128 + cnt) q' fits (omega arith) o (rw m l))

  form0_first : (q : ℕ) → asn1_octet_decode (at_length 0 q) ≡ (some (p % 128), after (q + 1))
  unfolding asn1_octet_decode octet_step
  form0_first q = refl

  long_first :
      (k q : ℕ)
      → k < 4
      → asn1_octet_decode (at_length (suc k) q) ≡ (some (128 + suc k), at_value (suc k) (q + 1))
  unfolding asn1_octet_decode octet_step
  long_first zero q h = refl
  long_first (suc zero) q h = refl
  long_first (suc (suc zero)) q h = refl
  long_first (suc (suc (suc zero))) q h = refl
  long_first (suc (suc (suc (suc k)))) q h = absurd (omega arith)

  length_decode-form0 : (q : ℕ) → p < 2 ^ 7 → p ≤ length bs → LengthRead 0 q
  length_decode-form0 q a fits = move (q + 1) _ _ (omega arith) (
      length_decode-value _ _ (p % 128) (q + 1) fits (form0_first q)
        (rw (mod-eq_of_lt a) (length_value_short (q + 1) a)))

  pub length_decode-form : (q : ℕ) → p < 2 ^ 32 → p ≤ length bs → LengthRead (form p) q
  length_decode-form q h fits = elim (form_cases h) [
    | inl (f, a) ↦ rw f (length_decode-form0 q a fits)
    | inr (inl (f, a)) ↦ rw f (
        long_form 1 q _ fits (long_first 0 q (omega arith)) (omega arith) refl
          (length_loop1 (q + 1) a) (omega arith))
    | inr (inr (inl (f, a))) ↦ rw f (
        long_form 2 q _ fits (long_first 1 q (omega arith)) (omega arith) refl
          (length_loop2 (q + 1) a) (omega arith))
    | inr (inr (inr (inl (f, a)))) ↦ rw f (
        long_form 3 q _ fits (long_first 2 q (omega arith)) (omega arith) refl
          (length_loop3 (q + 1) a) (omega arith))
    | inr (inr (inr (inr (f, a)))) ↦ rw f (
        long_form 4 q _ fits (long_first 3 q (omega arith)) (omega arith) refl
          (length_loop4 (q + 1) a) (omega arith))
  ]
