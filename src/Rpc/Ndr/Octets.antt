-- ===== src/Rpc/Ndr/Octets.antt =====
-- Integers and payloads as octets, for the NDR routines of mountd/rpc.c.
use ksmbd_tools.Base.{ℕ, zero, suc, ◌+◌, ◌*◌, ◌/◌, ◌%◌, ◌≤◌, ◌≡◌, refl, sym, ap, ◌∙◌, arith}
use ksmbd_tools.Base.{
  Bool, true, false, List, [], ◌∷◌, ◌++◌, length, take, drop, length-append, length-take,
  length-drop, take-length_append,
}
use ksmbd_tools.Rpc.Ndr.{put, le_octets, be_octets, le_value, be_value, int_octets, int_value}

-- `v` has no more than `n` octets
abbrev pub FitsIn : ℕ → ℕ → Type 0
FitsIn zero v = v ≡ 0
FitsIn (suc n) v = FitsIn n (v / 256)

pub le_value-le_octets : (n v : ℕ) → FitsIn n v → le_value (le_octets n v) ≡ v
unfolding le_octets le_value
le_value-le_octets zero v h = sym h
le_value-le_octets (suc n) v h = omega (arith, le_value-le_octets n (v / 256) h)

be_value-append :
    (a : ℕ) (bs : List ℕ) (b : ℕ) → be_value a (bs ++ (b ∷ [])) ≡ be_value a bs * 256 + b
unfolding be_value
be_value-append a [] b = refl
be_value-append a (c ∷ bs) b = be_value-append (a * 256 + c) bs b

be_value-be_octets : (n v : ℕ) → FitsIn n v → be_value 0 (be_octets n v) ≡ v
unfolding be_octets
be_value-be_octets zero v h = unfold be_value in sym h
be_value-be_octets (suc n) v h =
    be_value-append 0 (be_octets n (v / 256)) (v % 256)
    ∙ omega (arith, be_value-be_octets n (v / 256) h)

pub length-le_octets : (n v : ℕ) → length (le_octets n v) ≡ n
unfolding le_octets
length-le_octets zero v = refl
length-le_octets (suc n) v = omega (arith, length-le_octets n (v / 256))

length-be_octets : (n v : ℕ) → length (be_octets n v) ≡ n
unfolding be_octets
length-be_octets zero v = refl
length-be_octets (suc n) v =
    omega
      (arith, length-append (be_octets n (v / 256)) (v % 256 ∷ []), length-be_octets n (v / 256))

pub length-int_octets : (le : Bool) (n v : ℕ) → length (int_octets le n v) ≡ n
length-int_octets true n v = length-le_octets n v
length-int_octets false n v = length-be_octets n v

-- An integer is read as it was written, in either order of octets.
pub int_value-int_octets : (le : Bool) (n v : ℕ) → FitsIn n v → int_value le (int_octets le n v) ≡ v
int_value-int_octets true n v h = le_value-le_octets n v h
int_value-int_octets false n v h = be_value-be_octets n v h

module _ {A : Type 0} where
  pub take-take : (m n : ℕ) (xs : List A) → m ≤ n → take m (take n xs) ≡ take m xs
  take-take zero n xs h = refl
  take-take (suc m) zero xs h = absurd (omega arith)
  take-take (suc m) (suc n) [] h = refl
  take-take (suc m) (suc n) (x ∷ xs) h = ap (λ t. x ∷ t) (take-take m n xs (omega arith))

  pub take-drop : (o k m : ℕ) (xs : List A) → m ≡ o + k → take k (drop o xs) ≡ drop o (take m xs)
  take-drop zero k m xs e = ap (λ i. take i xs) (omega arith)
  take-drop (suc o) k zero xs e = absurd (omega arith)
  take-drop (suc o) zero (suc m) [] e = refl
  take-drop (suc o) (suc k) (suc m) [] e = refl
  take-drop (suc o) k (suc m) (x ∷ xs) e = take-drop o k m xs (omega arith)

  pub take-append : (n : ℕ) (xs ys : List A) → n ≤ length xs → take n (xs ++ ys) ≡ take n xs
  take-append zero xs ys h = refl
  take-append (suc n) [] ys h = absurd (omega arith)
  take-append (suc n) (x ∷ xs) ys h = ap (λ t. x ∷ t) (take-append n xs ys (omega arith))

  pub drop-append : (n : ℕ) (xs ys : List A) → n ≡ length xs → drop n (xs ++ ys) ≡ ys
  drop-append zero [] ys h = refl
  drop-append zero (x ∷ xs) ys h = absurd (omega arith)
  drop-append (suc n) [] ys h = absurd (omega arith)
  drop-append (suc n) (x ∷ xs) ys h = drop-append n xs ys (omega arith)

module _ (o : ℕ) (bs p : List ℕ) (room : o + length bs ≤ length p) where
  length_front : length (take o p) ≡ o
  length_front = length-take o p ∙ omega arith

  pub length-put : length (put o bs p) ≡ length p
  length-put = omega (
    arith,
    length_front,
    length-append (take o p) (bs ++ drop (o + length bs) p),
    length-append bs (drop (o + length bs) p),
    length-drop (o + length bs) p,
  )

  -- what stands before the copy stays
  pub take-put : (n : ℕ) → n ≤ o → take n (put o bs p) ≡ take n p
  take-put n h =
      take-append n (take o p) (bs ++ drop (o + length bs) p) (omega (arith, length_front))
      ∙ take-take n o p h

  -- the copy is what stands there
  pub drop-put : take (length bs) (drop o (put o bs p)) ≡ bs
  drop-put =
      ap (take (length bs))
        (drop-append o (take o p) (bs ++ drop (o + length bs) p) (sym length_front))
      ∙ take-length_append bs (drop (o + length bs) p)
