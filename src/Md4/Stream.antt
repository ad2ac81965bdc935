-- ===== src/Md4/Stream.antt =====
-- A message that is hashed in pieces: `md4_update` and `md4_final` of adduser/md4_hash.c.
use ksmbd_tools.Base.{
  ℕ, ◌+◌, ◌-◌, ◌*◌, ◌/◌, ◌%◌, ◌^◌, ◌≤◌, ◌<◌, ◌≡◌, refl, sym, ap, ◌∙◌, arith, ltb, true, false, List,
  [], ◌∷◌, ◌++◌, length, take, drop, length-append, length-take, length-drop, take-append-drop,
  Bool-cases, inl, inr,
}
use mathlib.Core.Path.{subst}
use ksmbd_tools.Rpc.Ndr.{put}
use ksmbd_tools.Rpc.Ndr.Octets.{take-append, length-put}
use ksmbd_tools.Md4.{
  Hash, Md4Ctx, initial_hash, md4_transform_helper, md4_init, md4_update, update_loop,
}
use ksmbd_tools.Md4.Blocks.{
  compress, compress-append, append_nil, append_assoc, drop_all, update_loop-compress, compress_one,
  compress-take,
}

-- The context has taken in `m`: the hash is that of its whole blocks, the buffer begins with the
-- octets behind them, and the count is the length.
pub record Represents (ctx : Md4Ctx) (m : List ℕ) : Type 0 where
  pub blocks : ℕ
  pub front : List ℕ
  pub rest : List ℕ
  pub tail : List ℕ
  pub message : m ≡ front ++ rest
  pub front_size : length front ≡ 64 * blocks
  pub rest_size : length rest < 64
  pub hashed : ctx.hash ≡ compress blocks initial_hash front
  pub buffered : ctx.block ≡ rest ++ tail
  pub block_size : length ctx.block ≡ 64
  pub counted : ctx.byte_count ≡ length m

-- octets behind those that a buffer begins with
pub put_behind :
    (r t x : List ℕ) → put (length r) x (r ++ t) ≡ (r ++ x) ++ drop (length r + length x) (r ++ t)
put_behind r t x =
    ap (λ (u : List ℕ). u ++ (x ++ drop (length r + length x) (r ++ t)))
      (take-append (length r) r t (omega arith) ∙ take_all r)
    ∙ sym (append_assoc r x (drop (length r + length x) (r ++ t)))
  where
    take_all : (r : List ℕ) → take (length r) r ≡ r
    take_all [] = refl
    take_all (y ∷ r) = ap (λ t. y ∷ t) (take_all r)

regroup : (p r u v w : List ℕ) → (p ++ r) ++ (u ++ (v ++ w)) ≡ (p ++ ((r ++ u) ++ v)) ++ w
regroup p r u v w = simp append_assoc refl

-- the two branches of the update
module _ (ctx : Md4Ctx) (x : List ℕ) where
  abbrev avail : ℕ
  avail = 64 - ctx.byte_count % 64

  abbrev filled : List ℕ
  filled = put (64 - avail) (take avail x) ctx.block

  abbrev looped : Hash × List ℕ × List ℕ
  looped =
      update_loop ((length x - avail) / 64) (md4_transform_helper ctx.hash filled) filled
        (drop avail x)

  update_short :
      ltb (length x) avail ≡ true
      → md4_update ctx x ≡ record {
        hash = ctx.hash;
        block = put (64 - avail) x ctx.block;
        byte_count = (ctx.byte_count + length x) % 2 ^ 64;
      }
  unfolding md4_update
  update_short e = rw (e, md4_update) refl

  update_long :
      ltb (length x) avail ≡ false
      → md4_update ctx x ≡ record {
        hash = looped.0;
        block = put 0 looped.2 looped.1;
        byte_count = (ctx.byte_count + length x) % 2 ^ 64;
      }
  unfolding md4_update
  update_long e = rw (e, md4_update) refl

module _ (ctx : Md4Ctx) (m x : List ℕ) (rep : Represents ctx m)
    (small : length m + length x < 2 ^ 64) where
  sizes : length m ≡ 64 * rep.blocks + length rep.rest
  sizes = ap length rep.message ∙ (length-append rep.front rep.rest ∙ omega (arith, rep.front_size))

  avail_lem : 64 - ctx.byte_count % 64 ≡ 64 - length rep.rest
  avail_lem = omega (arith, rep.counted, sizes, rep.rest_size)

  count_lem : (ctx.byte_count + length x) % 2 ^ 64 ≡ length (m ++ x)
  count_lem = omega (arith, rep.counted, length-append m x)

  module _ (room : length x < 64 - length rep.rest) where
    short_lem : md4_update ctx x ≡ record {
      hash = ctx.hash;
      block = put (length rep.rest) x ctx.block;
      byte_count = length (m ++ x);
    }
    short_lem =
        let fits : ltb (length x) (64 - ctx.byte_count % 64) ≡ true = ground (arith, avail_lem) in
        let e : 64 - (64 - ctx.byte_count % 64) ≡ length rep.rest =
          omega (arith, avail_lem, rep.rest_size) in
        update_short ctx x fits
        ∙ (ap
              (λ (o : ℕ). record {
                hash = ctx.hash;
                block = put o x ctx.block;
                byte_count = (ctx.byte_count + length x) % 2 ^ 64;
              })
              e
            ∙ ap
                (λ (n : ℕ). record {
                  hash = ctx.hash;
                  block = put (length rep.rest) x ctx.block;
                  byte_count = n;
                })
                count_lem)

    short-Represents : Represents (md4_update ctx x) (m ++ x)
    short-Represents =
        subst (λ (c : Md4Ctx). Represents c (m ++ x)) (sym short_lem)
          (record {
            blocks = rep.blocks;
            front = rep.front;
            rest = rep.rest ++ x;
            tail = drop (length rep.rest + length x) (rep.rest ++ rep.tail);
            message = ap (λ (t : List ℕ). t ++ x) rep.message ∙ append_assoc rep.front rep.rest x;
            front_size = rep.front_size;
            rest_size = omega (arith, length-append rep.rest x);
            hashed = rep.hashed;
            buffered =
                ap (λ (t : List ℕ). put (length rep.rest) x t) rep.buffered
                ∙ put_behind rep.rest rep.tail x;
            block_size =
                length-put (length rep.rest) x ctx.block (omega (arith, rep.block_size))
                ∙ rep.block_size;
            counted = refl;
          })

  module _ (room : 64 - length rep.rest ≤ length x) where
    abbrev a : ℕ
    a = 64 - length rep.rest

    abbrev y : List ℕ
    y = drop a x

    abbrev k : ℕ
    k = (length x - a) / 64

    -- the block that becomes full
    abbrev f : List ℕ
    f = rep.rest ++ take a x

    y_size : length y ≡ length x - a
    y_size = length-drop a x

    f_size : length f ≡ 64
    f_size = length-append rep.rest (take a x) ∙ omega (arith, length-take a x, rep.rest_size)

    filled_lem : put (length rep.rest) (take a x) ctx.block ≡ f
    filled_lem =
        let over : length (rep.rest ++ rep.tail) ≤ length rep.rest + length (take a x) =
          omega (arith, ap length rep.buffered, rep.block_size, length-take a x, rep.rest_size) in
        ap (λ (t : List ℕ). put (length rep.rest) (take a x) t) rep.buffered
        ∙ (put_behind rep.rest rep.tail (take a x)
            ∙ (ap (λ (t : List ℕ). f ++ t)
                  (drop_all (length rep.rest + length (take a x)) (rep.rest ++ rep.tail) over)
                ∙ append_nil f))

    hashed_lem :
        compress k (md4_transform_helper ctx.hash f) y
        ≡ compress (rep.blocks + (1 + k)) initial_hash (rep.front ++ (f ++ take (64 * k) y))
    hashed_lem =
        let h : Hash = compress rep.blocks initial_hash rep.front in
        sym (
          compress-append rep.blocks (1 + k) initial_hash rep.front (f ++ take (64 * k) y)
            rep.front_size
          ∙ (compress-append 1 k h f (take (64 * k) y) f_size
              ∙ (ap (λ (g : Hash). compress k g (take (64 * k) y)) (compress_one h f f_size)
                  ∙ (compress-take k (md4_transform_helper h f) y (omega (arith, y_size))
                      ∙ ap (λ (g : Hash). compress k (md4_transform_helper g f) y)
                          (sym rep.hashed)))))

    message_lem : m ++ x ≡ (rep.front ++ (f ++ take (64 * k) y)) ++ drop (64 * k) y
    message_lem =
        let pieces : x ≡ take a x ++ (take (64 * k) y ++ drop (64 * k) y) =
          sym (take-append-drop a x)
          ∙ ap (λ (t : List ℕ). take a x ++ t) (sym (take-append-drop (64 * k) y)) in
        ap (λ (t : List ℕ). t ++ x) rep.message
        ∙ (ap (λ (t : List ℕ). (rep.front ++ rep.rest) ++ t) pieces
            ∙ regroup rep.front rep.rest (take a x) (take (64 * k) y) (drop (64 * k) y))

    long_lem :
        (b' : List ℕ) × (md4_update ctx x ≡ record {
          hash = compress k (md4_transform_helper ctx.hash f) y;
          block = put 0 (drop (64 * k) y) b';
          byte_count = length (m ++ x);
        })
        × (length b' ≡ 64)
    long_lem =
        let full : ltb (length x) (64 - ctx.byte_count % 64) ≡ false = ground (arith, avail_lem) in
        let e : 64 - a ≡ length rep.rest = omega (arith, rep.rest_size) in
        let (b', run, size) =
          update_loop-compress k (md4_transform_helper ctx.hash f) f y f_size
            (omega (arith, y_size)) in
        let loop : looped ctx x
            ≡ (compress k (md4_transform_helper ctx.hash f) y, b', drop (64 * k) y) =
          ap
            (λ (i : ℕ).
              update_loop ((length x - i) / 64)
                (md4_transform_helper ctx.hash (put (64 - i) (take i x) ctx.block))
                (put (64 - i) (take i x) ctx.block) (drop i x))
            avail_lem
          ∙ (ap
                (λ (o : ℕ).
                  update_loop k (md4_transform_helper ctx.hash (put o (take a x) ctx.block))
                    (put o (take a x) ctx.block) y)
                e
              ∙ (ap (λ (t : List ℕ). update_loop k (md4_transform_helper ctx.hash t) t y) filled_lem
                  ∙ run)) in
        (
          b',
          update_long ctx x full
              ∙ (ap
                    (λ (l : Hash × List ℕ × List ℕ). record {
                      hash = l.0;
                      block = put 0 l.2 l.1;
                      byte_count = (ctx.byte_count + length x) % 2 ^ 64;
                    })
                    loop
                  ∙ ap
                      (λ (n : ℕ). record {
                        hash = compress k (md4_transform_helper ctx.hash f) y;
                        block = put 0 (drop (64 * k) y) b';
                        byte_count = n;
                      })
                      count_lem),
          size,
        )

    long-Represents : Represents (md4_update ctx x) (m ++ x)
    long-Represents =
        let (b', updated, size) = long_lem in
        let whole : length (take (64 * k) y) ≡ 64 * k =
          length-take (64 * k) y ∙ omega (arith, y_size) in
        let left : length (drop (64 * k) y) < 64 = omega (arith, length-drop (64 * k) y, y_size) in
        subst (λ (c : Md4Ctx). Represents c (m ++ x)) (sym updated)
          (record {
            blocks = rep.blocks + (1 + k);
            front = rep.front ++ (f ++ take (64 * k) y);
            rest = drop (64 * k) y;
            tail = drop (0 + length (drop (64 * k) y)) b';
            message = message_lem;
            front_size =
                length-append rep.front (f ++ take (64 * k) y)
                ∙ omega (arith, rep.front_size, length-append f (take (64 * k) y), f_size, whole);
            rest_size = left;
            hashed = hashed_lem;
            buffered = refl;
            block_size = length-put 0 (drop (64 * k) y) b' (omega (arith, size, left)) ∙ size;
            counted = refl;
          })

  update-Represents : Represents (md4_update ctx x) (m ++ x)
  update-Represents = elim (Bool-cases (ltb (length x) (64 - length rep.rest))) [
    | inl e ↦ short-Represents (ground arith)
    | inr e ↦ long-Represents (ground arith)
  ]

-- A context that has taken in nothing.
pub init-Represents : (b : List ℕ) → length b ≡ 64 → Represents (md4_init b) []
unfolding md4_init compress
init-Represents b e = record {
  blocks = 0;
  front = [];
  rest = [];
  tail = b;
  message = refl;
  front_size = refl;
  rest_size = omega arith;
  hashed = refl;
  buffered = refl;
  block_size = e;
  counted = refl;
}

-- the updates with one piece after another, and the pieces in one
unfoldable pub update_all : Md4Ctx → List (List ℕ) → Md4Ctx
update_all ctx [] = ctx
update_all ctx (x ∷ xs) = update_all (md4_update ctx x) xs

unfoldable pub joined : List (List ℕ) → List ℕ
joined [] = []
joined (x ∷ xs) = x ++ joined xs

-- A context that has taken in `m`, updated with pieces of any sizes, has taken in `m` and the pieces in order, as long
-- as they are less than 2 ^ 64 octets together: its hash is that of the whole blocks of 64 octets, its buffer begins
-- with the fewer than 64 octets behind them, and its count is the length. So the cuts do not matter.
pub update_all-Represents :
    (xs : List (List ℕ)) (ctx : Md4Ctx) (m : List ℕ)
    → Represents ctx m
    → length m + length (joined xs) < 2 ^ 64
    → Represents (update_all ctx xs) (m ++ joined xs)
unfolding update_all joined
update_all-Represents [] ctx m rep small = subst (Represents ctx) (sym (append_nil m)) rep
update_all-Represents (x ∷ xs) ctx m rep small =
    let sum = length-append x (joined xs) in
    subst (Represents (update_all (md4_update ctx x) xs)) (append_assoc m x (joined xs)) (
      update_all-Represents xs (md4_update ctx x) (m ++ x)
        (update-Represents ctx m x rep (omega (arith, sum)))
        (omega (arith, sum, length-append m x)))
