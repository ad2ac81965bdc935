-- ===== src/Md4/Digest.antt =====
-- The digest of adduser/md4_hash.c and that of RFC 1320: the message, its padding, the blocks.
use ksmbd_tools.Base.{
  ℕ, zero, suc, ◌+◌, ◌-◌, ◌*◌, ◌/◌, ◌%◌, ◌^◌, ◌≤◌, ◌<◌, ◌≡◌, refl, sym, ap, ◌∙◌, arith, ltb, true,
  false, List, [], ◌∷◌, ◌++◌, length, take, drop, replicate, length-append, length-drop, Bool-cases,
  inl, inr,
}
use ksmbd_tools.Rpc.Ndr.{put, le_octets, le_value}
use ksmbd_tools.Rpc.Ndr.Octets.{FitsIn, take-append, le_value-le_octets, length-le_octets}
use ksmbd_tools.Md4.{
  Hash, Md4Ctx, initial_hash, md4_transform, md4_transform_helper, md4_init, md4_final, words_of,
  last_words, hash_octets,
}
use ksmbd_tools.Md4.Blocks.{
  compress, compress-append, compress_one, append_nil, append_assoc, drop_all, drop-append_short,
}
use ksmbd_tools.Md4.Stream.{
  Represents, put_behind, update_all, joined, init-Represents, update_all-Represents,
}

-- the number of bits, in two words
abbrev pub bit_count : ℕ → List ℕ
bit_count n = le_octets 4 (n * 8 % 2 ^ 32) ++ le_octets 4 (n / 2 ^ 29 % 2 ^ 32)

-- 0x80, zeros up to 56 modulo 64, and the number of bits
unfoldable pub padding : ℕ → List ℕ
padding n = 0x80 ∷ (replicate ((119 - n % 64) % 64) 0 ++ bit_count n)

-- the digest of RFC 1320 over `md4_transform`
unfoldable pub md4 : List ℕ → List ℕ
md4 m =
    let padded = m ++ padding (length m) in
    hash_octets (compress (length padded / 64) initial_hash padded)

length-replicate : {A : Type 0} (n : ℕ) (x : A) → length (replicate n x) ≡ n
length-replicate zero x = refl
length-replicate (suc n) x = ap suc (length-replicate n x)

replicate-add :
    {A : Type 0} (m n k : ℕ) (x : A) → m + n ≡ k → replicate k x ≡ replicate m x ++ replicate n x
replicate-add zero n k x e = let f : k ≡ n = omega arith in ap (λ (i : ℕ). replicate i x) f
replicate-add (suc m) n zero x e = absurd (omega arith)
replicate-add (suc m) n (suc k) x e = ap (λ t. x ∷ t) (replicate-add m n k x (omega arith))

words_of-append :
    (n j i : ℕ) (p q : List ℕ)
    → length p ≡ 4 * n
    → n + j ≡ i
    → words_of i (p ++ q) ≡ words_of n p ++ words_of j q
unfolding words_of
words_of-append zero j i [] q h e = let f : i ≡ j = omega arith in ap (λ (k : ℕ). words_of k q) f
words_of-append zero j i (x ∷ p) q h e = absurd (omega arith)
words_of-append (suc n) j zero p q h e = absurd (omega arith)
words_of-append (suc n) j (suc i) p q h e =
    let a : take 4 (p ++ q) ≡ take 4 p = take-append 4 p q (omega arith) in
    let b : drop 4 (p ++ q) ≡ drop 4 p ++ q = drop-append_short 4 p q (omega arith) in
    ap (λ (t : List ℕ). le_value t ∷ words_of i (drop 4 (p ++ q))) a
    ∙ ap (λ (t : List ℕ). le_value (take 4 p) ∷ t)
        (ap (words_of i) b
          ∙ words_of-append n j i (drop 4 p) q (length-drop 4 p ∙ omega arith) (omega arith))

-- the words of a front, whatever follows
words_of-front : (n : ℕ) (p q : List ℕ) → length p ≡ 4 * n → words_of n (p ++ q) ≡ words_of n p
unfolding words_of
words_of-front n p q h = words_of-append n 0 n p q h (omega arith) ∙ append_nil (words_of n p)

fits : (v : ℕ) → FitsIn 4 (v % 2 ^ 32)
fits v = omega arith

words_of-bit_count : (n : ℕ) → words_of 2 (bit_count n) ≡ n * 8 % 2 ^ 32 ∷ n / 2 ^ 29 % 2 ^ 32 ∷ []
unfolding words_of le_octets
words_of-bit_count n =
    ap (λ (v : ℕ). v ∷ le_value (le_octets 4 (n / 2 ^ 29 % 2 ^ 32)) ∷ [])
      (le_value-le_octets 4 (n * 8 % 2 ^ 32) (fits (n * 8)))
    ∙ ap (λ (v : ℕ). n * 8 % 2 ^ 32 ∷ v ∷ [])
        (le_value-le_octets 4 (n / 2 ^ 29 % 2 ^ 32) (fits (n / 2 ^ 29)))

length-bit_count : (n : ℕ) → length (bit_count n) ≡ 8
length-bit_count n =
    length-append (le_octets 4 (n * 8 % 2 ^ 32)) (le_octets 4 (n / 2 ^ 29 % 2 ^ 32))
    ∙ omega (arith, length-le_octets 4 (n * 8 % 2 ^ 32), length-le_octets 4 (n / 2 ^ 29 % 2 ^ 32))

-- the two branches of the end
module _ (ctx : Md4Ctx) where
  abbrev offset : ℕ
  offset = ctx.byte_count % 64

  abbrev marked : List ℕ
  marked = put offset (0x80 ∷ []) ctx.block

  final_short :
      ltb 55 offset ≡ false
      → md4_final ctx
        ≡ hash_octets (
            md4_transform ctx.hash
              (last_words ctx.byte_count (put (offset + 1) (replicate (55 - offset) 0) marked)))
  unfolding md4_final
  final_short e = rw (e, md4_final) refl

  final_long :
      ltb 55 offset ≡ true
      → md4_final ctx
        ≡ hash_octets (
            md4_transform
              (md4_transform_helper ctx.hash (put (offset + 1) (replicate (63 - offset) 0) marked))
              (last_words ctx.byte_count
                (put 0 (replicate 56 0) (put (offset + 1) (replicate (63 - offset) 0) marked))))
  unfolding md4_final
  final_long e = rw (e, md4_final) refl

-- the last block, of 56 octets and the number of bits
last_block :
    (h : Hash) (n : ℕ) (p t : List ℕ)
    → length p ≡ 56
    → compress 1 h (p ++ bit_count n) ≡ md4_transform h (last_words n (p ++ t))
unfolding md4_transform_helper
last_block h n p t e =
    compress_one h (p ++ bit_count n)
      (length-append p (bit_count n) ∙ omega (arith, length-bit_count n))
    ∙ ap (md4_transform h) (
        words_of-append 14 2 16 p (bit_count n) e refl
        ∙ (ap (λ (w : List ℕ). words_of 14 p ++ w) (words_of-bit_count n)
            ∙ ap (λ (w : List ℕ). w ++ (n * 8 % 2 ^ 32 ∷ n / 2 ^ 29 % 2 ^ 32 ∷ []))
                (sym (words_of-front 14 p t e))))

split : (p y z q : List ℕ) → (p ++ (y ++ z)) ++ q ≡ (p ++ y) ++ (z ++ q)
split p y z q = simp append_assoc refl

shape : (p r z q : List ℕ) → (p ++ r) ++ (0x80 ∷ (z ++ q)) ≡ p ++ (((r ++ (0x80 ∷ [])) ++ z) ++ q)
shape p r z q = simp append_assoc refl

module _ (ctx : Md4Ctx) (m : List ℕ) (rep : Represents ctx m) where
  abbrev r : ℕ
  r = length rep.rest

  abbrev begun : List ℕ
  begun = rep.rest ++ (0x80 ∷ [])

  begun_size : length begun ≡ r + 1
  begun_size = length-append rep.rest (0x80 ∷ []) ∙ omega arith

  length_m : length m ≡ 64 * rep.blocks + r
  length_m =
      ap length rep.message ∙ (length-append rep.front rep.rest ∙ omega (arith, rep.front_size))

  offset_lem : offset ctx ≡ r
  offset_lem = omega (arith, rep.counted, length_m, rep.rest_size)

  -- the buffer with the mark and `n` zeros
  zeroed :
      (n : ℕ)
      → put (r + 1) (replicate n 0) (put r (0x80 ∷ []) ctx.block)
        ≡ (begun ++ replicate n 0)
          ++ drop (r + 1 + n) (begun ++ drop (r + 1) (rep.rest ++ rep.tail))
  zeroed n =
      let rest_of : List ℕ = drop (r + 1) (rep.rest ++ rep.tail) in
      let mark : put r (0x80 ∷ []) ctx.block ≡ begun ++ rest_of =
        ap (λ (t : List ℕ). put r (0x80 ∷ []) t) rep.buffered
        ∙ put_behind rep.rest rep.tail (0x80 ∷ []) in
      ap (put (r + 1) (replicate n 0)) mark
      ∙ (ap (λ (o : ℕ). put o (replicate n 0) (begun ++ rest_of)) (sym begun_size)
          ∙ (put_behind begun rest_of (replicate n 0)
              ∙ (ap
                    (λ (o : ℕ).
                      (begun ++ replicate n 0)
                      ++ drop (o + length (replicate {A = ℕ} n 0)) (begun ++ rest_of))
                    begun_size
                  ∙ ap (λ (k : ℕ). (begun ++ replicate n 0) ++ drop (r + 1 + k) (begun ++ rest_of))
                      (length-replicate n 0))))

  -- the padded message: whole blocks in front
  padded_lem :
      (z : ℕ)
      → (119 - length m % 64) % 64 ≡ z
      → m ++ padding (length m) ≡ rep.front ++ ((begun ++ replicate z 0) ++ bit_count (length m))
  unfolding padding
  padded_lem z e =
      ap (λ (k : ℕ). m ++ (0x80 ∷ (replicate k 0 ++ bit_count (length m)))) e
      ∙ (ap (λ (t : List ℕ). t ++ (0x80 ∷ (replicate z 0 ++ bit_count (length m)))) rep.message
          ∙ shape rep.front rep.rest (replicate z 0) (bit_count (length m)))

  -- the reference, with `j` blocks behind the whole ones
  md4_lem :
      (z j : ℕ)
      → (119 - length m % 64) % 64 ≡ z
      → r + 1 + z + 8 ≡ 64 * j
      → md4 m ≡ hash_octets (compress j ctx.hash ((begun ++ replicate z 0) ++ bit_count (length m)))
  unfolding md4
  md4_lem z j e size =
      let g : List ℕ = (begun ++ replicate z 0) ++ bit_count (length m) in
      let g_size : length g ≡ 64 * j =
        length-append (begun ++ replicate z 0) (bit_count (length m))
        ∙ omega (
          arith,
          length-append begun (replicate z 0),
          begun_size,
          length-replicate {A = ℕ} z 0,
          length-bit_count (length m),
        ) in
      let n : length (rep.front ++ g) / 64 ≡ rep.blocks + j =
        omega (arith, length-append rep.front g, g_size, rep.front_size) in
      ap (λ (p : List ℕ). hash_octets (compress (length p / 64) initial_hash p)) (padded_lem z e)
      ∙ (ap (λ (i : ℕ). hash_octets (compress i initial_hash (rep.front ++ g))) n
          ∙ ap hash_octets (
              compress-append rep.blocks j initial_hash rep.front g rep.front_size
              ∙ ap (λ (h : Hash). compress j h g) (sym rep.hashed)))

  -- the end, as one function of the place of the mark, the buffer behind it and the count
  short_final : length rep.rest ≤ 55 → md4_final ctx ≡ md4 m
  short_final h =
      let z : ℕ = 55 - r in
      let t : List ℕ = drop (r + 1 + z) (begun ++ drop (r + 1) (rep.rest ++ rep.tail)) in
      let p : List ℕ = begun ++ replicate z 0 in
      let p_size : length p ≡ 56 =
        length-append begun (replicate z 0)
        ∙ omega (arith, begun_size, length-replicate {A = ℕ} z 0) in
      let fits : ltb 55 (offset ctx) ≡ false = ground (arith, offset_lem) in
      final_short ctx fits
      ∙ (ap
            (λ (o : ℕ). hash_octets (
              md4_transform ctx.hash (
                last_words ctx.byte_count
                  (put (o + 1) (replicate (55 - o) 0) (put o (0x80 ∷ []) ctx.block)))))
            offset_lem
          ∙ (ap (λ (b : List ℕ). hash_octets (md4_transform ctx.hash (last_words ctx.byte_count b)))
                (zeroed z)
              ∙ (ap (λ (n : ℕ). hash_octets (md4_transform ctx.hash (last_words n (p ++ t))))
                    rep.counted
                  ∙ (ap hash_octets (sym (last_block ctx.hash (length m) p t p_size))
                      ∙ sym (md4_lem z 1 (omega (arith, length_m, rep.rest_size)) (omega arith))))))

  long_final : 56 ≤ length rep.rest → md4_final ctx ≡ md4 m
  long_final h =
      let k : ℕ = 63 - r in
      let full : List ℕ = begun ++ replicate k 0 in
      let zeros : List ℕ = replicate 56 0 in
      let count : List ℕ = bit_count (length m) in
      let full_size : length full ≡ 64 =
        length-append begun (replicate k 0)
        ∙ omega (arith, begun_size, length-replicate {A = ℕ} k 0, rep.rest_size) in
      let over : length (begun ++ drop (r + 1) (rep.rest ++ rep.tail)) ≤ r + 1 + k = omega (
        arith,
        length-append begun (drop (r + 1) (rep.rest ++ rep.tail)),
        begun_size,
        length-drop (r + 1) (rep.rest ++ rep.tail),
        ap length rep.buffered,
        rep.block_size,
      ) in
      let buffer : put (r + 1) (replicate k 0) (put r (0x80 ∷ []) ctx.block) ≡ full =
        zeroed k
        ∙ (ap (λ (t : List ℕ). full ++ t)
              (drop_all (r + 1 + k) (begun ++ drop (r + 1) (rep.rest ++ rep.tail)) over)
            ∙ append_nil full) in
      let fits : ltb 55 (offset ctx) ≡ true = ground (arith, offset_lem) in
      let ended : List ℕ → ℕ → List ℕ = λ (b : List ℕ) (n : ℕ).
        hash_octets
          (md4_transform (md4_transform_helper ctx.hash b) (last_words n (put 0 zeros b))) in
      let spec : compress 2 ctx.hash ((begun ++ replicate (119 - r) 0) ++ count)
          ≡ compress 1 (md4_transform_helper ctx.hash full) (zeros ++ count) =
        ap (λ (t : List ℕ). compress 2 ctx.hash ((begun ++ t) ++ count))
          (replicate-add k 56 (119 - r) 0 (omega (arith, rep.rest_size)))
        ∙ (ap (compress 2 ctx.hash) (split begun (replicate k 0) zeros count)
            ∙ (compress-append 1 1 ctx.hash full (zeros ++ count) full_size
                ∙ ap (λ (g : Hash). compress 1 g (zeros ++ count))
                    (compress_one ctx.hash full full_size))) in
      final_long ctx fits
      ∙ (ap
            (λ (o : ℕ).
              ended (put (o + 1) (replicate (63 - o) 0) (put o (0x80 ∷ []) ctx.block))
                ctx.byte_count)
            offset_lem
          ∙ (ap (λ (b : List ℕ). ended b ctx.byte_count) buffer
              ∙ (ap (λ (n : ℕ). ended full n) rep.counted
                  ∙ (ap hash_octets (
                        sym (
                          last_block (md4_transform_helper ctx.hash full) (length m) zeros
                            (drop 56 full) refl)
                        ∙ sym spec)
                      ∙ sym (
                          md4_lem (119 - r) 2 (omega (arith, length_m, rep.rest_size))
                            (omega (arith, rep.rest_size)))))))

  final_lem : md4_final ctx ≡ md4 m
  final_lem = elim (Bool-cases (ltb (length rep.rest) 56)) [
    | inl e ↦ short_final (ground arith)
    | inr e ↦ long_final (ground arith)
  ]

-- Whatever the buffer of 64 octets holds at first and however a message of less than 2 ^ 64 octets is cut
-- into pieces, `md4_init`, `md4_update` with each piece in order and `md4_final` give the digest `md4` of the
-- whole message: with 0x80, zeros up to 56 octets modulo 64 and the number of bits behind it, it is
-- compressed from the initial hash, one block of 64 octets after another.
pub md4_final-md4_update :
    (xs : List (List ℕ)) (b : List ℕ)
    → length b ≡ 64
    → length (joined xs) < 2 ^ 64
    → md4_final (update_all (md4_init b) xs) ≡ md4 (joined xs)
md4_final-md4_update xs b size small =
    final_lem (update_all (md4_init b) xs) (joined xs)
      (update_all-Represents xs (md4_init b) [] (init-Represents b size) (omega arith))
