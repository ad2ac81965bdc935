-- ===== src/Base/Table.antt =====
-- C strings as lists of octets, and the GLib hash tables that are keyed by them or by numbers, as
-- association lists with one entry for a key.
use Prim.Native.Nat.{ℕ, ◌+◌, ◌%◌, ◌^◌, ◌-◌}
use mathlib.Core.Path.{◌≡◌, refl, ap}
use mathlib.Core.Logic.{inl, inr}
use mathlib.Core.Bool.{Bool, true, false, ◌&&◌, ◌||◌}
use mathlib.Core.List.{List, [], ◌∷◌}
use mathlib.Core.Option.{Option, none, some}
use native.Mathlib.Omega.{arith}
use ksmbd_tools.Base.Tests.{◌==◌, if◌then◌else◌, Bool-cases}

-- `!strcmp(a, b)`
unfoldable pub str_eq : List ℕ → List ℕ → Bool
str_eq [] [] = true
str_eq [] (y ∷ ys) = false
str_eq (x ∷ xs) [] = false
str_eq (x ∷ xs) (y ∷ ys) = x == y && str_eq xs ys

pub str_eq_refl : (s : List ℕ) → str_eq s s ≡ true
unfolding str_eq
str_eq_refl [] = refl
str_eq_refl (x ∷ xs) = ground (arith, str_eq_refl xs)

pub eq-of_str_eq : (s t : List ℕ) → str_eq s t ≡ true → s ≡ t
unfolding str_eq
eq-of_str_eq [] [] h = refl
eq-of_str_eq [] (y ∷ ys) h = cc
eq-of_str_eq (x ∷ xs) [] h = cc
eq-of_str_eq (x ∷ xs) (y ∷ ys) h = ground (arith, eq-of_str_eq xs ys)

-- the string in a buffer: up to the first NUL, if there is one
unfoldable pub c_string : List ℕ → List ℕ
c_string [] = []
c_string (b ∷ bs) = if b == 0 then [] else b ∷ c_string bs

-- `strnlen(s, sizeof s) < sizeof s`
unfoldable pub terminated : List ℕ → Bool
terminated [] = false
terminated (b ∷ bs) = b == 0 || terminated bs

unfoldable pub str_mem : List ℕ → List (List ℕ) → Bool
str_mem k [] = false
str_mem k (x ∷ xs) = str_eq k x || str_mem k xs

module _ {ℓ} {V : Type ℓ} where
  unfoldable pub find : List ℕ → List (List ℕ × V) → Option V
  find k [] = none
  find k ((j, v) ∷ t) = if str_eq k j then some v else find k t

  -- the entry of `k`, if there is one, with another value
  unfoldable pub update : List ℕ → (V → V) → List (List ℕ × V) → List (List ℕ × V)
  update k f [] = []
  update k f ((j, v) ∷ t) = if str_eq k j then (j, f v) ∷ t else (j, v) ∷ update k f t

  unfoldable pub remove : List ℕ → List (List ℕ × V) → List (List ℕ × V)
  remove k [] = []
  remove k ((j, v) ∷ t) = if str_eq k j then t else (j, v) ∷ remove k t

  pub find-update_self :
      (k : List ℕ) (f : V → V) (t : List (List ℕ × V)) (v : V)
      → find k t ≡ some v
      → find k (update k f t) ≡ some (f v)
  unfolding find update
  find-update_self k f [] v h = cc
  find-update_self k f ((j, w) ∷ t) v h = ground (arith, find-update_self k f t v)

  pub update-update :
      (k : List ℕ) (f g : V → V) (t : List (List ℕ × V))
      → update k g (update k f t) ≡ update k (λ v. g (f v)) t
  unfolding update
  update-update k f g [] = refl
  update-update k f g ((j, w) ∷ t) = elim (Bool-cases (str_eq k j)) [
    | inl e ↦ rw (e, e)
    | inr e ↦ rw (e, e) (ap (λ r. (j, w) ∷ r) (update-update k f g t))
  ]

  -- Only the value that is there matters.
  pub update-ext :
      (k : List ℕ) (f g : V → V) (t : List (List ℕ × V)) (v : V)
      → find k t ≡ some v
      → f v ≡ g v
      → update k f t ≡ update k g t
  unfolding find update
  update-ext k f g [] v h e = refl
  update-ext k f g ((j, w) ∷ t) v h e = ground (arith, update-ext k f g t v)

  -- A change that gives back the value that is there changes nothing.
  pub update-same :
      (k : List ℕ) (f : V → V) (t : List (List ℕ × V)) (v : V)
      → find k t ≡ some v
      → f v ≡ v
      → update k f t ≡ t
  unfolding find update
  update-same k f [] v h e = refl
  update-same k f ((j, w) ∷ t) v h e = ground (arith, update-same k f t v)

-- An `int` counter, as a bit pattern of 32 bits: `++` and `--` wrap.
abbrev pub inc : ℕ → ℕ
inc n = (n + 1) % 2 ^ 32

abbrev pub dec : ℕ → ℕ
dec n = (n + (2 ^ 32 - 1)) % 2 ^ 32
