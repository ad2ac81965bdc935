-- ===== src/Share/Hosts/Prefix.antt =====
-- The comparison of address prefixes in `match_host_cidr` of tools/management/share.c.
use ksmbd_tools.Base.{
  ℕ, zero, suc, ◌+◌, ◌-◌, ◌*◌, ◌%◌, ◌/◌, ◌^◌, ◌<◌, ◌≡◌, refl, sym, ap, ◌∙◌, arith, ◌==◌,
  if◌then◌else◌, ◌↔◌, ==_iff,
}
use ksmbd_tools.Base.{Bool, true, false, List, [], ◌∷◌, length, take, All}
use Prim.Native.Nat.{bit_and}
use mathlib.Core.Path.{subst}
use ksmbd_tools.Share.Hosts.{prefix_mask, compare_from, same_prefix}

-- the bits of an address, most significant first
pub bits : List ℕ → List ℕ
bits [] = []
bits (x ∷ xs) =
    (x / 128 % 2)
    ∷ (x / 64 % 2)
    ∷ (x / 32 % 2)
    ∷ (x / 16 % 2)
    ∷ (x / 8 % 2)
    ∷ (x / 4 % 2)
    ∷ (x / 2 % 2)
    ∷ (x % 2)
    ∷ bits xs

abbrev pub IsByte : ℕ → Type 0
IsByte x = x < 256

module _ (f g : ℕ → ℕ) where
  agree_below : ℕ → Bool
  agree_below zero = true
  agree_below (suc n) = if f n == g n then agree_below n else false

  agree_below→eq : (n : ℕ) → agree_below n ≡ true → (i : ℕ) → i < n → f i ≡ g i
  unfolding agree_below
  agree_below→eq zero e i h = absurd (omega arith)
  agree_below→eq (suc n) e i h = ground (arith, agree_below→eq n (ground arith) i)

abbrev Masked : ℕ → Type 0
Masked b = (x : ℕ) → x < 256 → bit_and x (prefix_mask b) ≡ x / 2 ^ (8 - b) * 2 ^ (8 - b)

mask_table : (b : ℕ) → b < 8 → Masked b
unfolding agree_below
mask_table zero h = agree_below→eq _ _ 256 refl
mask_table (suc zero) h = agree_below→eq _ _ 256 refl
mask_table (suc (suc zero)) h = agree_below→eq _ _ 256 refl
mask_table (suc (suc (suc zero))) h = agree_below→eq _ _ 256 refl
mask_table (suc (suc (suc (suc zero)))) h = agree_below→eq _ _ 256 refl
mask_table (suc (suc (suc (suc (suc zero))))) h = agree_below→eq _ _ 256 refl
mask_table (suc (suc (suc (suc (suc (suc zero)))))) h = agree_below→eq _ _ 256 refl
mask_table (suc (suc (suc (suc (suc (suc (suc zero))))))) h = agree_below→eq _ _ 256 refl
mask_table (suc (suc (suc (suc (suc (suc (suc (suc n)))))))) h = absurd (omega arith)

-- `bits` bits and `n` octets, counted one by one
abbrev bit_count : ℕ → ℕ → ℕ
bit_count zero bits = bits
bit_count (suc n) bits = suc (suc (suc (suc (suc (suc (suc (suc (bit_count n bits))))))))

octet_bits :
    (x y : ℕ) (xs ys : List ℕ) (n : ℕ)
    → x < 256
    → y < 256
    → take (suc (suc (suc (suc (suc (suc (suc (suc n)))))))) (bits (x ∷ xs))
      ≡ take (suc (suc (suc (suc (suc (suc (suc (suc n)))))))) (bits (y ∷ ys))
    → (x ≡ y) × (take n (bits xs) ≡ take n (bits ys))
unfolding bits
octet_bits x y xs ys n hx hy e = ground arith

abbrev TopBits : ℕ → Type 0
TopBits r =
    (x y : ℕ) (xs ys : List ℕ)
    → x < 256
    → y < 256
    → x / 2 ^ (8 - r) ≡ y / 2 ^ (8 - r)
    → take r (bits (x ∷ xs)) ≡ take r (bits (y ∷ ys))

abbrev TopBitsBack : ℕ → Type 0
TopBitsBack r =
    (x y : ℕ) (xs ys : List ℕ)
    → x < 256
    → y < 256
    → take r (bits (x ∷ xs)) ≡ take r (bits (y ∷ ys))
    → x / 2 ^ (8 - r) ≡ y / 2 ^ (8 - r)

top_bits : (r : ℕ) → r < 8 → TopBits r
unfolding bits
top_bits zero h x y xs ys hx hy e = ground arith
top_bits (suc zero) h x y xs ys hx hy e = ground arith
top_bits (suc (suc zero)) h x y xs ys hx hy e = ground arith
top_bits (suc (suc (suc zero))) h x y xs ys hx hy e = ground arith
top_bits (suc (suc (suc (suc zero)))) h x y xs ys hx hy e = ground arith
top_bits (suc (suc (suc (suc (suc zero))))) h x y xs ys hx hy e = ground arith
top_bits (suc (suc (suc (suc (suc (suc zero)))))) h x y xs ys hx hy e = ground arith
top_bits (suc (suc (suc (suc (suc (suc (suc zero))))))) h x y xs ys hx hy e = ground arith
top_bits (suc (suc (suc (suc (suc (suc (suc (suc n)))))))) h x y xs ys hx hy e =
    absurd (omega arith)

top_bits_back : (r : ℕ) → r < 8 → TopBitsBack r
unfolding bits
top_bits_back zero h x y xs ys hx hy e = ground arith
top_bits_back (suc zero) h x y xs ys hx hy e = ground arith
top_bits_back (suc (suc zero)) h x y xs ys hx hy e = ground arith
top_bits_back (suc (suc (suc zero))) h x y xs ys hx hy e = ground arith
top_bits_back (suc (suc (suc (suc zero)))) h x y xs ys hx hy e = ground arith
top_bits_back (suc (suc (suc (suc (suc zero))))) h x y xs ys hx hy e = ground arith
top_bits_back (suc (suc (suc (suc (suc (suc zero)))))) h x y xs ys hx hy e = ground arith
top_bits_back (suc (suc (suc (suc (suc (suc (suc zero))))))) h x y xs ys hx hy e = ground arith
top_bits_back (suc (suc (suc (suc (suc (suc (suc (suc n)))))))) h x y xs ys hx hy e =
    absurd (omega arith)

mask_bits :
    (b x y : ℕ)
    → b < 8
    → x < 256
    → y < 256
    → bit_and x (prefix_mask b) ≡ bit_and y (prefix_mask b)
    → x / 2 ^ (8 - b) ≡ y / 2 ^ (8 - b)
mask_bits zero x y h hx hy e = omega (arith, mask_table zero h x hx, mask_table zero h y hy)
mask_bits (suc zero) x y h hx hy e =
    omega (arith, mask_table (suc zero) h x hx, mask_table (suc zero) h y hy)
mask_bits (suc (suc zero)) x y h hx hy e =
    omega (arith, mask_table (suc (suc zero)) h x hx, mask_table (suc (suc zero)) h y hy)
mask_bits (suc (suc (suc zero))) x y h hx hy e =
    omega
      (arith, mask_table (suc (suc (suc zero))) h x hx, mask_table (suc (suc (suc zero))) h y hy)
mask_bits (suc (suc (suc (suc zero)))) x y h hx hy e = omega (
  arith,
  mask_table (suc (suc (suc (suc zero)))) h x hx,
  mask_table (suc (suc (suc (suc zero)))) h y hy,
)
mask_bits (suc (suc (suc (suc (suc zero))))) x y h hx hy e = omega (
  arith,
  mask_table (suc (suc (suc (suc (suc zero))))) h x hx,
  mask_table (suc (suc (suc (suc (suc zero))))) h y hy,
)
mask_bits (suc (suc (suc (suc (suc (suc zero)))))) x y h hx hy e = omega (
  arith,
  mask_table (suc (suc (suc (suc (suc (suc zero)))))) h x hx,
  mask_table (suc (suc (suc (suc (suc (suc zero)))))) h y hy,
)
mask_bits (suc (suc (suc (suc (suc (suc (suc zero))))))) x y h hx hy e = omega (
  arith,
  mask_table (suc (suc (suc (suc (suc (suc (suc zero))))))) h x hx,
  mask_table (suc (suc (suc (suc (suc (suc (suc zero))))))) h y hy,
)
mask_bits (suc (suc (suc (suc (suc (suc (suc (suc n)))))))) x y h hx hy e = absurd (omega arith)

-- One octet more is eight bits more.
octet_more :
    (x y : ℕ) (xs ys : List ℕ) (n : ℕ)
    → x ≡ y
    → take n (bits xs) ≡ take n (bits ys)
    → take (suc (suc (suc (suc (suc (suc (suc (suc n)))))))) (bits (x ∷ xs))
      ≡ take (suc (suc (suc (suc (suc (suc (suc (suc n)))))))) (bits (y ∷ ys))
unfolding bits
octet_more x y xs ys n d e = cc

compare_from→bits :
    (n r : ℕ) (net host : List ℕ)
    → r < 8
    → All IsByte net
    → All IsByte host
    → length net ≡ length host
    → compare_from n r net host ≡ true
    → take (bit_count n r) (bits net) ≡ take (bit_count n r) (bits host)
unfolding compare_from
compare_from→bits (suc n) r [] [] hr bn bh l e = refl
compare_from→bits (suc n) r (x ∷ xs) (y ∷ ys) hr (bx, bxs) (by, bys) l e =
    octet_more x y xs ys (bit_count n r) (ground arith)
      (compare_from→bits n r xs ys hr bxs bys (omega arith) (ground arith))
compare_from→bits zero zero net host hr bn bh l e = refl
compare_from→bits zero (suc r) [] [] hr bn bh l e = refl
compare_from→bits zero (suc r) (x ∷ xs) (y ∷ ys) hr (bx, bxs) (by, bys) l e =
    top_bits (suc r) hr x y xs ys bx by (mask_bits (suc r) x y hr bx by ((==_iff _ _).0 e))
compare_from→bits _ _ [] (y ∷ ys) hr bn bh l e = absurd (omega arith)
compare_from→bits _ _ (x ∷ xs) [] hr bn bh l e = absurd (omega arith)

bits→compare_from :
    (n r : ℕ) (net host : List ℕ)
    → r < 8
    → All IsByte net
    → All IsByte host
    → length net ≡ length host
    → take (bit_count n r) (bits net) ≡ take (bit_count n r) (bits host)
    → compare_from n r net host ≡ true
unfolding compare_from
bits→compare_from (suc n) r [] [] hr bn bh l e = refl
bits→compare_from (suc n) r (x ∷ xs) (y ∷ ys) hr (bx, bxs) (by, bys) l e =
    let (d, t) = octet_bits x y xs ys (bit_count n r) bx by e in
    let rest = bits→compare_from n r xs ys hr bxs bys (omega arith) t in ground (arith, rest)
bits→compare_from zero zero net host hr bn bh l e = refl
bits→compare_from zero (suc r) [] [] hr bn bh l e = refl
bits→compare_from zero (suc r) (x ∷ xs) (y ∷ ys) hr (bx, bxs) (by, bys) l e =
    let d = top_bits_back (suc r) hr x y xs ys bx by e in
    (==_iff _ _).1 (
      mask_table (suc r) hr x bx
      ∙ ap (λ q. q * 2 ^ (8 - suc r)) d
      ∙ sym (mask_table (suc r) hr y by))
bits→compare_from _ _ [] (y ∷ ys) hr bn bh l e = absurd (omega arith)
bits→compare_from _ _ (x ∷ xs) [] hr bn bh l e = absurd (omega arith)

bit_count_lem : (n r : ℕ) → bit_count n r ≡ 8 * n + r
bit_count_lem zero r = omega arith
bit_count_lem (suc n) r = omega (arith, bit_count_lem n r)

-- The comparison of `prefix_len` bits of two addresses of the same length holds exactly where the
-- first `prefix_len` bits of the two are the same, for octets and any length.
pub same_prefix_lem :
    (prefix_len : ℕ) (net host : List ℕ)
    → All IsByte net
    → All IsByte host
    → length net ≡ length host
    → same_prefix prefix_len net host ≡ true
      ↔ take prefix_len (bits net) ≡ take prefix_len (bits host)
unfolding same_prefix
same_prefix_lem prefix_len net host bn bh l =
    let count : bit_count (prefix_len / 8) (prefix_len % 8) ≡ prefix_len =
      bit_count_lem (prefix_len / 8) (prefix_len % 8) ∙ omega arith in
    (
      λ e.
          subst (λ k. take k (bits net) ≡ take k (bits host)) count
            (compare_from→bits (prefix_len / 8) (prefix_len % 8) net host (omega arith) bn bh l e),
      λ e.
          bits→compare_from (prefix_len / 8) (prefix_len % 8) net host (omega arith) bn bh l
            (subst (λ k. take k (bits net) ≡ take k (bits host)) (sym count) e),
    )
