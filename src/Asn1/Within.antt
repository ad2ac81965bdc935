-- ===== src/Asn1/Within.antt =====
-- The decoders of tools/asn1.c and the end of the buffer: the rules for sequences and branches of
-- decoders, and the decoders up to the length of a header.
use ksmbd_tools.Base.{
  ℕ, zero, suc, ◌+◌, ◌*◌, ◌/◌, ◌%◌, ◌^◌, ◌≤◌, ◌≡◌, refl, arith, ltb, leb, ◌==◌, if◌then◌else◌,
}
use ksmbd_tools.Base.{Bool, true, false, Option, none, some, List, [], ◌∷◌, length}
use mathlib.Core.Path.{subst}
use ksmbd_tools.Base.{inl, inr, Bool-cases, sym}
use ksmbd_tools.Asn1.{
  Asn1Ctx, end_of, Decoder, ◌>>=◌, return, fail, asn1_subid_decode, asn1_octet_decode,
}
use ksmbd_tools.Asn1.{asn1_tag_decode, asn1_id_decode, asn1_length_decode}
use ksmbd_tools.Asn1.{group_loop, octet_step, long_tag, length_loop, length_value, check_length}

-- from one context to another: the end stays, and the pointer does not go back
pub record Within (c c' : Asn1Ctx) : Type 0 where
  pub same_end : end_of c' ≡ end_of c
  pub forward : c.pointer ≤ c'.pointer

abbrev pub Holds : {A : Type 0} → (A → Asn1Ctx → Type 0) → Option A × Asn1Ctx → Type 0
Holds Q (none, c) = Unit
Holds Q (some a, c) = Q a c

-- Whatever it returns, a decoder stays in the buffer; where it returns a value, `Q` holds.
pub record Meets {A : Type 0} (m : Decoder A) (Q : A → Asn1Ctx → Type 0) (c : Asn1Ctx)
    : Type 0 where
  pub within : Within c (m c).1
  pub holds : Holds Q (m c)

abbrev pub Any : {A : Type 0} → A → Asn1Ctx → Type 0
Any a c = Unit {0}

pub Within-refl : (c : Asn1Ctx) → Within c c
Within-refl c = omega arith

pub Within-trans : {a b c : Asn1Ctx} → Within a b → Within b c → Within a c
Within-trans h k = omega arith

pub bind-Meets :
    {A B : Type 0} (m : Decoder A) (f : A → Decoder B) (Q : A → Asn1Ctx → Type 0)
    (R : B → Asn1Ctx → Type 0) (c : Asn1Ctx)
    → Meets m Q c
    → ((a : A) (c' : Asn1Ctx) → Q a c' → Meets (f a) R c')
    → Meets (m >>= f) R c
bind-Meets {A} {B} m f Q R c h k =
    let (w, r) = go (m c) h.within h.holds in record { within = w; holds = r }
  where
    rest : Option A × Asn1Ctx → Option B × Asn1Ctx
    rest r = elim r.0 as (λ x. Option B × Asn1Ctx) [ none ↦ (none, r.1) | some a ↦ f a r.1 ]

    go :
        (r : Option A × Asn1Ctx) → Within c r.1 → Holds Q r → Within c (rest r).1 × Holds R (rest r)
    go (none, c') w h = (w, tt)
    go (some a, c') w h = (Within-trans w (k a c' h).within, (k a c' h).holds)

octet_step-Meets :
    (e p : ℕ) (bs : List ℕ)
    → Within (record { error = e; pointer = p; rest = bs }) (octet_step e p bs).1
      × Holds Any (octet_step e p bs)
unfolding octet_step
octet_step-Meets e p [] = (omega arith, tt)
octet_step-Meets e p (b ∷ bs) = (omega arith, tt)

pub octet_decode-Meets : (c : Asn1Ctx) → Meets asn1_octet_decode Any c
unfolding asn1_octet_decode
octet_decode-Meets c =
    let (w, h) = octet_step-Meets c.error c.pointer c.rest in record { within = w; holds = h }

group_loop-Meets :
    (w v e p : ℕ) (bs : List ℕ)
    → Within (record { error = e; pointer = p; rest = bs }) (group_loop w v e p bs).1
      × Holds Any (group_loop w v e p bs)
unfolding group_loop
group_loop-Meets w v e p [] = (omega arith, tt)
group_loop-Meets w v e p (ch ∷ bs) =
    let (i, h) = group_loop-Meets w (v * 128 % 2 ^ w + ch % 128) e (p + 1) bs in
    elim (Bool-cases (leb 128 ch)) [
      | inl more ↦ rw more (Within-trans (omega arith) i, h)
      | inr last ↦ rw last (omega arith, tt)
    ]

pub return-Meets :
    {A : Type 0} (a : A) (Q : A → Asn1Ctx → Type 0) (c : Asn1Ctx) → Q a c → Meets (return a) Q c
return-Meets a Q c q = record { within = Within-refl c; holds = q }

pub fail-Meets : {A : Type 0} (Q : A → Asn1Ctx → Type 0) (c : Asn1Ctx) → Meets (fail {A = A}) Q c
fail-Meets Q c = record { within = Within-refl c; holds = tt }

pub subid_decode-Meets : (c : Asn1Ctx) → Meets asn1_subid_decode Any c
unfolding asn1_subid_decode
subid_decode-Meets c =
    let (w, h) = group_loop-Meets 64 0 c.error c.pointer c.rest in record { within = w; holds = h }

tag_decode-Meets : (c : Asn1Ctx) → Meets asn1_tag_decode Any c
unfolding asn1_tag_decode
tag_decode-Meets c =
    let (w, h) = group_loop-Meets 32 0 c.error c.pointer c.rest in record { within = w; holds = h }

-- A branch of a decoder is taken whole.
pub if-Meets :
    {A : Type 0} (m x y : Decoder A) (Q : A → Asn1Ctx → Type 0) (c : Asn1Ctx) (b : Bool)
    → m c ≡ (if b then x c else y c)
    → (b ≡ true → Meets x Q c)
    → (b ≡ false → Meets y Q c)
    → Meets m Q c
if-Meets m x y Q c true e h k = record {
  within = rw e (h refl).within;
  holds = subst (Holds Q) (sym e) (h refl).holds;
}
if-Meets m x y Q c false e h k = record {
  within = rw e (k refl).within;
  holds = subst (Holds Q) (sym e) (k refl).holds;
}

long_tag-Meets : (tag : ℕ) (c : Asn1Ctx) → Meets (long_tag tag) Any c
unfolding long_tag
long_tag-Meets tag c =
    if-Meets (long_tag tag) asn1_tag_decode (return tag) Any c (tag == 0x1F) refl
      (λ _. tag_decode-Meets c) (λ _. return-Meets tag Any c tt)

pub id_decode-Meets : (c : Asn1Ctx) → Meets asn1_id_decode Any c
unfolding asn1_id_decode
id_decode-Meets c =
    bind-Meets asn1_octet_decode
      (λ ch. long_tag (ch % 32) >>= (λ tag. return (ch / 64 % 4, ch / 32 % 2, tag))) Any Any c
      (octet_decode-Meets c)
      (λ ch c' _.
        bind-Meets (long_tag (ch % 32)) (λ tag. return (ch / 64 % 4, ch / 32 % 2, tag)) Any Any c'
          (long_tag-Meets (ch % 32) c')
          (λ tag c'' _. return-Meets (ch / 64 % 4, ch / 32 % 2, tag) Any c'' tt))

length_loop-Meets : (cnt len : ℕ) (c : Asn1Ctx) → Meets (length_loop cnt len) Any c
unfolding length_loop
length_loop-Meets zero len c = return-Meets len Any c tt
length_loop-Meets (suc cnt) len c =
    bind-Meets asn1_octet_decode _ Any Any c (octet_decode-Meets c)
      (λ ch c' _. length_loop-Meets cnt (len * 256 % 2 ^ 32 + ch % 256) c')

long_length-Meets :
    (ch : ℕ) (c : Asn1Ctx)
    → Meets {A = Bool × ℕ} (length_loop (ch % 128) 0 >>= (λ len. return (true, len))) Any c
long_length-Meets ch c =
    bind-Meets (length_loop (ch % 128) 0) (λ len. return (true, len)) Any Any c
      (length_loop-Meets (ch % 128) 0 c) (λ len c' _. return-Meets (true, len) Any c' tt)

short_or_long : ℕ → Decoder (Bool × ℕ)
short_or_long ch c =
    if ltb ch 0x80
    then return (true, ch) c
    else (length_loop (ch % 128) 0 >>= (λ len. return (true, len))) c

short_or_long-Meets : (ch : ℕ) (c : Asn1Ctx) → Meets (short_or_long ch) Any c
unfolding short_or_long
short_or_long-Meets ch c =
    if-Meets (short_or_long ch) (return (true, ch))
      (length_loop (ch % 128) 0 >>= (λ len. return (true, len))) Any c (ltb ch 0x80) refl
      (λ _. return-Meets (true, ch) Any c tt) (λ _. long_length-Meets ch c)

length_value-Meets : (ch : ℕ) (c : Asn1Ctx) → Meets (length_value ch) Any c
unfolding length_value short_or_long
length_value-Meets ch c =
    if-Meets (length_value ch) (return (false, 0)) (short_or_long ch) Any c (ch == 0x80) refl
      (λ _. return-Meets (false, 0) Any c tt) (λ _. short_or_long-Meets ch c)

abbrev pub Fits : Bool × ℕ → Asn1Ctx → Type 0
Fits r c = r.1 ≤ length c.rest

check_length-Meets : (def : Bool) (len : ℕ) (c : Asn1Ctx) → Meets (check_length def len) Fits c
unfolding check_length
check_length-Meets def len c =
    if-Meets (check_length def len) fail (return (def, len)) Fits c (ltb (length c.rest) len) refl
      (λ _. fail-Meets Fits c) (λ h. return-Meets (def, len) Fits c (ground arith))

pub length_decode-Meets : (c : Asn1Ctx) → Meets asn1_length_decode Fits c
unfolding asn1_length_decode
length_decode-Meets c =
    bind-Meets asn1_octet_decode (λ ch. length_value ch >>= (λ (def, len). check_length def len))
      Any Fits c (octet_decode-Meets c)
      (λ ch c' _.
        bind-Meets (length_value ch) (λ (def, len). check_length def len) Any Fits c'
          (length_value-Meets ch c') (λ r c'' _. check_length-Meets r.0 r.1 c''))
