-- ===== src/Asn1/Monad.antt =====
-- Rules for the sequence of two decoders, for proofs that keep the decoders of tools/asn1.c shut.
use ksmbd_tools.Base.{◌≡◌, ap, Option, none, some}
use ksmbd_tools.Asn1.{Asn1Ctx, Decoder, ◌>>=◌}

pub bind-some :
    {A B : Type 0} (m : Decoder A) (f : A → Decoder B) {c c' : Asn1Ctx} {a : A}
    → m c ≡ (some a, c')
    → (m >>= f) c ≡ f a c'
bind-some {A} {B} m f e =
    ap {A = Option A × Asn1Ctx} (λ r. elim r.0 [ none ↦ (none, r.1) | some a ↦ f a r.1 ]) e

pub bind-none :
    {A B : Type 0} (m : Decoder A) (f : A → Decoder B) {c c' : Asn1Ctx}
    → m c ≡ (none, c')
    → (m >>= f) c ≡ (none, c')
bind-none {A} {B} m f e =
    ap {A = Option A × Asn1Ctx} (λ r. elim r.0 [ none ↦ (none, r.1) | some a ↦ f a r.1 ]) e
