-- ===== src/Rpc/Ndr/Monad.antt =====
-- One step of a sequence of NDR routines of mountd/rpc.c.
use ksmbd_tools.Base.{◌≡◌, refl, Option, none, some, ap, ◌∙◌, length}
use ksmbd_tools.Rpc.Ndr.{Ndr, Action, ◌>>=◌, progress}

module _ {A B : Type 0} (m : Action A) (f : A → Action B) (d d' : Ndr) where
  continue : Option A × Ndr → Option B × Ndr
  continue r = elim r.0 as (λ x. Option B × Ndr) [ none ↦ (none, r.1) | some a ↦ f a r.1 ]

  pub bind-some : (a : A) → m d ≡ (some a, d') → (m >>= f) d ≡ f a d'
  unfolding continue
  bind-some a e = ap continue e

  pub progress-some : (b : B) (a : A) → m d ≡ (some a, d') → progress m b f d ≡ f a d'
  progress-some b a e =
      ap
        (λ (r : Option A × Ndr). elim r.0 as (λ x. Option B × Ndr) [
          | none ↦ (some b, r.1)
          | some a ↦ f a r.1
        ])
        e

  pub bind-none : m d ≡ (none, d') → (m >>= f) d ≡ (none, d')
  unfolding continue
  bind-none e = ap continue e

  -- the payload keeps its size if both parts keep it
  pub bind-keeps :
      (r : Option A × Ndr)
      → m d ≡ r
      → length r.1.payload ≡ length d.payload
      → ((a : A) (c : Ndr) → length (f a c).1.payload ≡ length c.payload)
      → length ((m >>= f) d).1.payload ≡ length d.payload
  unfolding continue
  bind-keeps (none, c) e h k = ap (λ (r : Option A × Ndr). length (continue r).1.payload) e ∙ h
  bind-keeps (some a, c) e h k =
      ap (λ (r : Option A × Ndr). length (continue r).1.payload) e ∙ (k a c ∙ h)

module _ {A B C : Type 0} (m : Action A) (f : A → Action B) (g : B → Action C) (d : Ndr) where
  after : Option A × Ndr → Option C × Ndr
  after r = elim r.0 as (λ x. Option C × Ndr) [ none ↦ (none, r.1) | some a ↦ (f a >>= g) r.1 ]

  before : Option A × Ndr → Option C × Ndr
  before r = continue (m >>= f) g d d (continue m f d d r)

  before-after : (r : Option A × Ndr) → before r ≡ after r
  unfolding before after continue
  before-after (none, c) = refl
  before-after (some a, c) = refl

  pub bind_assoc : ((m >>= f) >>= g) d ≡ (m >>= (λ a. f a >>= g)) d
  unfolding before after continue
  bind_assoc = before-after (m d)
