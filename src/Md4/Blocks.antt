-- ===== src/Md4/Blocks.antt =====
-- The compression of whole blocks, for adduser/md4_hash.c, as a function of the message alone.
use ksmbd_tools.Base.{
  ℕ, zero, suc, ◌+◌, ◌*◌, ◌≤◌, ◌≡◌, refl, sym, ap, ◌∙◌, arith, List, [], ◌∷◌, ◌++◌, length, take,
  drop, length-take, length-drop, take-append-drop,
}
use ksmbd_tools.Rpc.Ndr.{put}
use ksmbd_tools.Rpc.Ndr.Octets.{take-append}
use ksmbd_tools.Md4.{Hash, md4_transform_helper, update_loop}

-- `n` blocks of 64 octets
unfoldable pub compress : ℕ → Hash → List ℕ → Hash
compress zero h m = h
compress (suc n) h m = compress n (md4_transform_helper h (take 64 m)) (drop 64 m)

module _ {A : Type 0} where
  pub append_nil : (xs : List A) → xs ++ [] ≡ xs
  append_nil [] = refl
  append_nil (x ∷ xs) = ap (λ t. x ∷ t) (append_nil xs)

  pub append_assoc : (xs ys zs : List A) → (xs ++ ys) ++ zs ≡ xs ++ (ys ++ zs)
  append_assoc [] ys zs = refl
  append_assoc (x ∷ xs) ys zs = ap (λ t. x ∷ t) (append_assoc xs ys zs)

  pub drop_all : (n : ℕ) (xs : List A) → length xs ≤ n → drop n xs ≡ []
  drop_all zero [] h = refl
  drop_all zero (x ∷ xs) h = absurd (omega arith)
  drop_all (suc n) [] h = refl
  drop_all (suc n) (x ∷ xs) h = drop_all n xs (omega arith)

  pub drop-append_short :
      (n : ℕ) (xs ys : List A) → n ≤ length xs → drop n (xs ++ ys) ≡ drop n xs ++ ys
  drop-append_short zero xs ys h = refl
  drop-append_short (suc n) [] ys h = absurd (omega arith)
  drop-append_short (suc n) (x ∷ xs) ys h = drop-append_short n xs ys (omega arith)

  pub drop-drop : (m n k : ℕ) (xs : List A) → m + n ≡ k → drop n (drop m xs) ≡ drop k xs
  drop-drop zero n k xs e = let f : n ≡ k = omega arith in ap (λ (i : ℕ). drop i xs) f
  drop-drop (suc m) n k [] e = drop_all n [] (omega arith) ∙ sym (drop_all k [] (omega arith))
  drop-drop (suc m) n zero (x ∷ xs) e = absurd (omega arith)
  drop-drop (suc m) n (suc k) (x ∷ xs) e = drop-drop m n k xs (omega arith)

-- The blocks of a front, and then the others.
pub compress-append :
    (n k : ℕ) (h : Hash) (p q : List ℕ)
    → length p ≡ 64 * n
    → compress (n + k) h (p ++ q) ≡ compress k (compress n h p) q
unfolding compress
compress-append zero k h [] q e =
    let f : 0 + k ≡ k = omega arith in ap (λ (i : ℕ). compress i h q) f
compress-append zero k h (x ∷ p) q e = absurd (omega arith)
compress-append (suc n) k h p q e =
    let a : take 64 (p ++ q) ≡ take 64 p = take-append 64 p q (omega arith) in
    let b : drop 64 (p ++ q) ≡ drop 64 p ++ q = drop-append_short 64 p q (omega arith) in
    let c : suc n + k ≡ suc (n + k) = omega arith in
    ap (λ i. compress i h (p ++ q)) c
    ∙ (ap (λ (t : List ℕ). compress (n + k) (md4_transform_helper h t) (drop 64 (p ++ q))) a
        ∙ (ap (λ (t : List ℕ). compress (n + k) (md4_transform_helper h (take 64 p)) t) b
            ∙ compress-append n k (md4_transform_helper h (take 64 p)) (drop 64 p) q
                (length-drop 64 p ∙ omega arith)))

-- a buffer that is filled from its begin
pub put-whole : (xs b : List ℕ) → length b ≤ length xs → put 0 xs b ≡ xs
put-whole xs b h = ap (λ t. xs ++ t) (drop_all (0 + length xs) b (omega arith)) ∙ append_nil xs

-- The loop compresses its blocks, whatever the buffer holds.
pub update_loop-compress :
    (n : ℕ) (h : Hash) (b x : List ℕ)
    → length b ≡ 64
    → 64 * n ≤ length x
    → (b' : List ℕ) × (update_loop n h b x ≡ (compress n h x, b', drop (64 * n) x))
      × (length b' ≡ 64)
unfolding update_loop compress
update_loop-compress zero h b x e k = (b, refl, e)
update_loop-compress (suc n) h b x e k =
    let front : length (take 64 x) ≡ 64 = length-take 64 x ∙ omega arith in
    let whole : put 0 (take 64 x) b ≡ take 64 x = put-whole (take 64 x) b (omega (arith, front)) in
    let (b', run, l) =
      update_loop-compress n (md4_transform_helper h (take 64 x)) (take 64 x) (drop 64 x) front
        (omega (arith, length-drop 64 x)) in
    (
      b',
      ap (λ (t : List ℕ). update_loop n (md4_transform_helper h t) t (drop 64 x)) whole
          ∙ (run
              ∙ ap
                  (λ (t : List ℕ).
                    (compress n (md4_transform_helper h (take 64 x)) (drop 64 x), b', t))
                  (drop-drop 64 (64 * n) (64 * suc n) x (omega arith))),
      l,
    )

take_all : {A : Type 0} (n : ℕ) (xs : List A) → length xs ≡ n → take n xs ≡ xs
take_all zero [] h = refl
take_all zero (x ∷ xs) h = absurd (omega arith)
take_all (suc n) [] h = refl
take_all (suc n) (x ∷ xs) h = ap (λ t. x ∷ t) (take_all n xs (omega arith))

-- one block
pub compress_one :
    (h : Hash) (f : List ℕ) → length f ≡ 64 → compress 1 h f ≡ md4_transform_helper h f
unfolding compress
compress_one h f e = ap (md4_transform_helper h) (take_all 64 f e)

-- Only the blocks matter.
pub compress-take :
    (k : ℕ) (h : Hash) (y : List ℕ)
    → 64 * k ≤ length y
    → compress k h (take (64 * k) y) ≡ compress k h y
unfolding compress
compress-take k h y room =
    let size : length (take (64 * k) y) ≡ 64 * k = length-take (64 * k) y ∙ omega arith in
    let e : k + 0 ≡ k = omega arith in
    sym (compress-append k 0 h (take (64 * k) y) (drop (64 * k) y) size)
    ∙ (ap (λ (i : ℕ). compress i h (take (64 * k) y ++ drop (64 * k) y)) e
        ∙ ap (compress k h) (take-append-drop (64 * k) y))
