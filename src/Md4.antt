-- ===== src/Md4.antt =====
-- adduser/md4_hash.c: MD4 over a buffer of one block. `block` is the buffer's 64 octets; its words are
-- read as little-endian, as `le32_to_cpu_array` has them on any machine. `ROUND1` to `ROUND3` are
-- one step with the function and the constant of the round; the names of the four variables turn
-- by one place with each step, as the lines of `md4_transform` name them. A piece of `md4_update` has
-- less than 2 ^ 32 octets, as its length has to.
pub mod Blocks
pub mod Stream
pub mod Digest
mod Tests
use Prim.Native.Nat.{bit_and, bit_or, bit_xor}
use ksmbd_tools.Base.{
  ℕ, zero, suc, ◌+◌, ◌-◌, ◌*◌, ◌/◌, ◌%◌, ◌^◌, ltb, if◌then◌else◌, List, [], ◌∷◌, ◌++◌, length, take,
  drop, replicate,
}
use ksmbd_tools.Rpc.Ndr.{put, le_octets, le_value}

-- the four variables
pub record Hash : Type 0 where
  pub a : ℕ
  pub b : ℕ
  pub c : ℕ
  pub d : ℕ

pub record Md4Ctx : Type 0 where
  pub hash : Hash
  pub block : List ℕ
  pub byte_count : ℕ

unfoldable pub lshift : ℕ → ℕ → ℕ
lshift x s = bit_or (x % 2 ^ 32 * 2 ^ s % 2 ^ 32) (x % 2 ^ 32 / 2 ^ (32 - s))

unfoldable pub round_f : ℕ → ℕ → ℕ → ℕ
round_f x y z = bit_or (bit_and x y) (bit_and (2 ^ 32 - 1 - x) z)

unfoldable pub round_g : ℕ → ℕ → ℕ → ℕ
round_g x y z = bit_or (bit_or (bit_and x y) (bit_and x z)) (bit_and y z)

unfoldable pub round_h : ℕ → ℕ → ℕ → ℕ
round_h x y z = bit_xor (bit_xor x y) z

-- the word of an index
unfoldable pub word_at : ℕ → List ℕ → ℕ
word_at i [] = 0
word_at zero (w ∷ ws) = w
word_at (suc i) (w ∷ ws) = word_at i ws

unfoldable pub md4_step : (ℕ → ℕ → ℕ → ℕ) → ℕ → ℕ → ℕ → Hash → Hash
unfolding lshift
md4_step f constant k s h = record {
  a = h.d;
  b = lshift ((h.a + f h.b h.c h.d + k + constant) % 2 ^ 32) s;
  c = h.b;
  d = h.c;
}

-- the steps of a round, each with the index of its word and its shift
unfoldable pub md4_round : (ℕ → ℕ → ℕ → ℕ) → ℕ → List ℕ → List (ℕ × ℕ) → Hash → Hash
unfolding md4_step word_at
md4_round f constant words [] h = h
md4_round f constant words ((i, s) ∷ steps) h =
    md4_round f constant words steps (md4_step f constant (word_at i words) s h)

abbrev steps1 : List (ℕ × ℕ)
steps1 =
    (0, 3)
    ∷ (1, 7)
    ∷ (2, 11)
    ∷ (3, 19)
    ∷ (4, 3)
    ∷ (5, 7)
    ∷ (6, 11)
    ∷ (7, 19)
    ∷ (8, 3)
    ∷ (9, 7)
    ∷ (10, 11)
    ∷ (11, 19)
    ∷ (12, 3)
    ∷ (13, 7)
    ∷ (14, 11)
    ∷ (15, 19)
    ∷ []

abbrev steps2 : List (ℕ × ℕ)
steps2 =
    (0, 3)
    ∷ (4, 5)
    ∷ (8, 9)
    ∷ (12, 13)
    ∷ (1, 3)
    ∷ (5, 5)
    ∷ (9, 9)
    ∷ (13, 13)
    ∷ (2, 3)
    ∷ (6, 5)
    ∷ (10, 9)
    ∷ (14, 13)
    ∷ (3, 3)
    ∷ (7, 5)
    ∷ (11, 9)
    ∷ (15, 13)
    ∷ []

abbrev steps3 : List (ℕ × ℕ)
steps3 =
    (0, 3)
    ∷ (8, 9)
    ∷ (4, 11)
    ∷ (12, 15)
    ∷ (2, 3)
    ∷ (10, 9)
    ∷ (6, 11)
    ∷ (14, 15)
    ∷ (1, 3)
    ∷ (9, 9)
    ∷ (5, 11)
    ∷ (13, 15)
    ∷ (3, 3)
    ∷ (11, 9)
    ∷ (7, 11)
    ∷ (15, 15)
    ∷ []

unfoldable pub md4_transform : Hash → List ℕ → Hash
unfolding md4_round round_f round_g round_h
md4_transform h words =
    let h1 = md4_round round_f 0 words steps1 h in
    let h2 = md4_round round_g 0x5A827999 words steps2 h1 in
    let h3 = md4_round round_h 0x6ED9EBA1 words steps3 h2 in
    record {
      a = (h.a + h3.a) % 2 ^ 32;
      b = (h.b + h3.b) % 2 ^ 32;
      c = (h.c + h3.c) % 2 ^ 32;
      d = (h.d + h3.d) % 2 ^ 32;
    }

-- the first `n` words of a buffer
unfoldable pub words_of : ℕ → List ℕ → List ℕ
words_of zero block = []
words_of (suc n) block = le_value (take 4 block) ∷ words_of n (drop 4 block)

unfoldable pub md4_transform_helper : Hash → List ℕ → Hash
unfolding md4_transform words_of le_value
md4_transform_helper h block = md4_transform h (words_of 16 block)

abbrev pub initial_hash : Hash
initial_hash = record { a = 0x67452301; b = 0xefcdab89; c = 0x98badcfe; d = 0x10325476 }

-- the block stays as it is
unfoldable pub md4_init : List ℕ → Md4Ctx
md4_init block = record { hash = initial_hash; block = block; byte_count = 0 }

-- `n` rounds of the loop: the hash, the buffer and the octets that are left
unfoldable pub update_loop : ℕ → Hash → List ℕ → List ℕ → Hash × List ℕ × List ℕ
unfolding md4_transform_helper
update_loop zero h block octets = (h, block, octets)
update_loop (suc n) h block octets =
    let block' = put 0 (take 64 octets) block in
    update_loop n (md4_transform_helper h block') block' (drop 64 octets)

-- The loop runs while 64 octets are left, so as many times as 64 goes into them.
unfoldable pub md4_update : Md4Ctx → List ℕ → Md4Ctx
unfolding update_loop md4_transform_helper
md4_update ctx octets =
    let avail = 64 - ctx.byte_count % 64 in
    let byte_count = (ctx.byte_count + length octets) % 2 ^ 64 in
    let filled = put (64 - avail) (take avail octets) ctx.block in
    let (h, block, rest) =
      update_loop ((length octets - avail) / 64) (md4_transform_helper ctx.hash filled) filled
        (drop avail octets) in
    if ltb (length octets) avail
    then record {
      hash = ctx.hash;
      block = put (64 - avail) octets ctx.block;
      byte_count = byte_count;
    }
    else record { hash = h; block = put 0 rest block; byte_count = byte_count }

-- behind the padding: the number of bits in the last two words
abbrev last_words : ℕ → List ℕ → List ℕ
last_words byte_count block =
    words_of 14 block ++ (byte_count * 8 % 2 ^ 32 ∷ byte_count / 2 ^ 29 % 2 ^ 32 ∷ [])

abbrev hash_octets : Hash → List ℕ
hash_octets h = le_octets 4 h.a ++ (le_octets 4 h.b ++ (le_octets 4 h.c ++ le_octets 4 h.d))

-- `padding` is negative where fewer than 8 octets are free behind 0x80.
unfoldable pub md4_final : Md4Ctx → List ℕ
unfolding md4_transform md4_transform_helper words_of le_value
md4_final ctx =
    let offset = ctx.byte_count % 64 in
    let marked = put offset (0x80 ∷ []) ctx.block in
    let full = put (offset + 1) (replicate (63 - offset) 0) marked in
    if ltb 55 offset
    then hash_octets (
        md4_transform (md4_transform_helper ctx.hash full)
          (last_words ctx.byte_count (put 0 (replicate 56 0) full)))
    else hash_octets (
        md4_transform ctx.hash
          (last_words ctx.byte_count (put (offset + 1) (replicate (55 - offset) 0) marked)))
