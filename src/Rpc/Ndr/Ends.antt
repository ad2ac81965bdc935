-- ===== src/Rpc/Ndr/Ends.antt =====
-- What a sequence of NDR routines of mountd/rpc.c returns, wherever it returns.
use ksmbd_tools.Base.{◌≡◌, Option, none, some, Bool, true, false, refl, sym, Bool-cases, inl, inr}
use mathlib.Core.Path.{subst}
use ksmbd_tools.Rpc.Ndr.Monad.{bind-some}
use ksmbd_tools.Rpc.Ndr.{Ndr, Action, ◌>>=◌, ◌>>◌, guard, progress, align, auto_align_offset}

-- `E` where there is no result
abbrev pub Holds : {A : Type 0} → Type 0 → (A → Type 0) → Option A → Type 0
Holds E P none = E
Holds E P (some a) = P a

-- A result has `P`; and there is one, besides.
abbrev pub Ends : {A : Type 0} → Action A → (A → Type 0) → Type 0
Ends m P = (d : Ndr) → Holds (Unit {0}) P (m d).0

abbrev pub Returns : {A : Type 0} → Action A → (A → Type 0) → Type 0
Returns m P = (d : Ndr) → Holds ⊥ P (m d).0

pub Ends-any : {A : Type 0} (m : Action A) → Ends m (λ a. Unit {0})
Ends-any m d = elim (m d).0 as (λ x. Holds (Unit {0}) (λ a. Unit {0}) x) [ none ↦ tt | some a ↦ tt ]

module _ {A B : Type 0} (m : Action A) (f : A → Action B) (P : A → Type 0) (Q : B → Type 0)
    (hm : Ends m P) (hf : (a : A) → P a → Ends (f a) Q) where
  bind-Holds :
      (r : Option A × Ndr)
      → Holds (Unit {0}) P r.0
      → Holds
          (Unit {0})
          Q
          (elim r.0 as (λ x. Option B × Ndr) [ none ↦ (none, r.1) | some a ↦ f a r.1 ]).0
  bind-Holds (none, d) h = tt
  bind-Holds (some a, d) h = hf a h d

  pub Ends-bind : Ends (m >>= f) Q
  Ends-bind d = bind-Holds (m d) (hm d)

module _ {A B : Type 0} (E : Type 0) (m : Action A) (f : A → Action B) (P : A → Type 0)
    (Q : B → Type 0) (hm : Ends m P) (hf : (a : A) → P a → (d : Ndr) → Holds E Q (f a d).0) where
  progress-Holds :
      (b : B)
      → Q b
      → (r : Option A × Ndr) → Holds (Unit {0}) P r.0
      → Holds E Q (elim r.0 as (λ x. Option B × Ndr) [ none ↦ (some b, r.1) | some a ↦ f a r.1 ]).0
  progress-Holds b q (none, d) h = q
  progress-Holds b q (some a, d) h = hf a h d

  progress-gives : (b : B) → Q b → (d : Ndr) → Holds E Q (progress m b f d).0
  progress-gives b q d = progress-Holds b q (m d) (hm d)

module _ {A B : Type 0} (m : Action A) (f : A → Action B) (Q : B → Type 0)
    (hf : (a : A) → Ends (f a) Q) where
  -- where nothing of the first result is needed
  pub Ends-then : Ends (m >>= f) Q
  Ends-then = Ends-bind m f (λ a. Unit {0}) Q (Ends-any m) (λ a h. hf a)

module _ {A B : Type 0} (m : Action A) (f : A → Action B) (Q : B → Type 0) where
  pub Ends-progress : (b : B) → Q b → ((a : A) → Ends (f a) Q) → Ends (progress m b f) Q
  Ends-progress b q hf =
      progress-gives (Unit {0}) m f (λ a. Unit {0}) Q (Ends-any m) (λ a h. hf a) b q

  -- A read that may stop returns, if the rest does.
  pub Returns-progress : (b : B) → Q b → ((a : A) → Returns (f a) Q) → Returns (progress m b f) Q
  Returns-progress b q hf = progress-gives ⊥ m f (λ a. Unit {0}) Q (Ends-any m) (λ a h. hf a) b q

  pub Returns-progress_of :
      (P : A → Type 0) (b : B)
      → Ends m P
      → Q b
      → ((a : A) → P a → Returns (f a) Q)
      → Returns (progress m b f) Q
  Returns-progress_of P b hm q hf = progress-gives ⊥ m f P Q hm hf b q

auto-some : (d : Ndr) → (x : Ndr) × (auto_align_offset d ≡ (some tt, x))
unfolding auto_align_offset
auto-some d = elim (Bool-cases d.align8) [
  | inl e ↦ (record d { offset = align 8 d.offset }, simp e refl)
  | inr e ↦ elim (Bool-cases d.align4) [
    | inl f ↦ (record d { offset = align 4 d.offset }, simp (e, f) refl)
    | inr f ↦ (d, simp (e, f) refl)
  ]
]

pub Returns-auto :
    {B : Type 0} (k : Action B) (Q : B → Type 0) → Returns k Q → Returns (auto_align_offset >> k) Q
Returns-auto {B} k Q h d =
    let (x, e) = auto-some d in
    subst (λ (r : Option B × Ndr). Holds ⊥ Q r.0)
      (sym (bind-some auto_align_offset (λ _. k) d x tt e)) (h x)

pub Ends-guard : (b : Bool) → Ends (guard b) (λ u. b ≡ true)
Ends-guard true d = λ i. true
Ends-guard false d = tt
