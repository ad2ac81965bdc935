-- ===== src/Rpc/Ndr/Writes.antt =====
-- Sequences of NDR writes of mountd/rpc.c: where they end, what they leave alone, and that they
-- succeed where there is room.
use ksmbd_tools.Base.{ℕ, zero, suc, ◌+◌, ◌^◌, ◌≤◌, ◌<◌, ◌≡◌, refl, sym, ap, ◌∙◌, arith}
use ksmbd_tools.Base.{Bool, true, false, some, List, [], ◌∷◌, length, take}
use ksmbd_tools.Rpc.Ndr.{
  Ndr, Action, ◌>>=◌, ◌>>◌, return, align, align_offset, auto_align_offset, try_realloc_payload,
  put, store, int_octets, ndr_write_int, ndr_write_bytes, write_ints,
}
use ksmbd_tools.Rpc.Ndr.Monad.{bind-some}
use ksmbd_tools.Rpc.Ndr.Octets.{length-int_octets, take-take, length-put, take-put}

-- the flags of a dce of a pipe; the order of octets is the client's
abbrev pub Mode : Bool → Ndr → Type 0
Mode le d = (d.little_endian ≡ le) × (d.align4 ≡ true) × (d.align8 ≡ false)

-- the same up to `n`
abbrev pub Agrees : ℕ → List ℕ → List ℕ → Type 0
Agrees n p q = (length p ≡ length q) × (take n p ≡ take n q)

pub Agrees-less : (m n : ℕ) (p q : List ℕ) → m ≤ n → Agrees n p q → Agrees m p q
Agrees-less m n p q h (l, t) = (l, sym (take-take m n p h) ∙ (ap (take m) t ∙ take-take m n q h))

-- the state at another offset and with another payload
abbrev pub at : Ndr → ℕ → List ℕ → Ndr
at d o p = record d { offset = o; payload = p }

-- where `k` integers of `n` octets end
unfoldable pub ends : ℕ → ℕ → ℕ → ℕ
ends n zero o = o
ends n (suc k) o = ends n k (align n o + n)

-- Whatever it returns, a routine leaves the payload with the size that it has.
abbrev pub Keeps : {A : Type 0} → Action A → Type 0
Keeps w = (d : Ndr) → length (w d).1.payload ≡ length d.payload

-- A write ends at `e` of the offset that it begins at. It succeeds with `a` where the payload reaches
-- that far, and leaves alone what stands before it.
pub record Writes {A : Type 0} (le : Bool) (w : Action A) (a : A) (e : ℕ → ℕ) : Type 0 where
  pub forward : (o : ℕ) → o ≤ e o
  pub runs :
      (d : Ndr)
      → Mode le d
      → e d.offset ≤ length d.payload
      → length d.payload < 2 ^ 63
      → (p : List ℕ) × (w d ≡ (some a, at d (e d.offset) p)) × Agrees d.offset p d.payload

pub store-Keeps : (octets : List ℕ) → Keeps (store octets)
unfolding store try_realloc_payload
store-Keeps octets d = ground (arith, length-put d.offset octets d.payload)

pub store-runs :
    (octets : List ℕ) (d : Ndr)
    → d.offset + length octets ≤ length d.payload
    → length d.payload < 2 ^ 63
    → store octets d ≡ (some tt, at d (d.offset + length octets) (put d.offset octets d.payload))
unfolding store try_realloc_payload
store-runs octets d h k = ground arith

pub auto-cases : {le : Bool} (d : Ndr) → Mode le d → auto_align_offset d ≡ align_offset 4 d
unfolding auto_align_offset
auto-cases d (l, a, b) = rw (b, a)

pub auto-Keeps : Keeps auto_align_offset
unfolding auto_align_offset
auto-Keeps d = ground arith

module _ {le : Bool} where
  pub Writes-return : {A : Type 0} (a : A) → Writes le (return a) a (λ o. o)
  Writes-return a = record {
    forward = λ o. omega arith;
    runs = λ d m h k. (d.payload, refl, (refl, refl));
  }

  pub Writes-align : (n : ℕ) → ((o : ℕ) → o ≤ align n o) → Writes le (align_offset n) tt (align n)
  Writes-align n fw = record { forward = fw; runs = λ d m h k. (d.payload, refl, (refl, refl)) }

  pub Writes-auto : Writes le auto_align_offset tt (align 4)
  Writes-auto = record {
    forward = λ o. omega arith;
    runs = λ d m h k. (d.payload, auto-cases d m, (refl, refl));
  }

  -- octets behind an alignment
  Writes-store :
      (n : ℕ) (fw : (o : ℕ) → o ≤ align n o) (f : Bool → List ℕ) (size : ℕ)
      → ((b : Bool) → length (f b) ≡ size)
      → Writes le (align_offset n >> (λ d. store (f d.little_endian) d)) tt (λ o. align n o + size)
  Writes-store n fw f size len = record {
    forward = λ o. omega (arith, fw o);
    runs = λ d m h k.
        let l = len d.little_endian in
        let room : align n d.offset + length (f d.little_endian) ≤ length d.payload =
          omega (arith, l) in
        (
          put (align n d.offset) (f d.little_endian) d.payload,
          store-runs (f d.little_endian) (at d (align n d.offset) d.payload) room k
              ∙ ap
                  (λ i. (
                    some tt,
                    at d (align n d.offset + i)
                        (put (align n d.offset) (f d.little_endian) d.payload),
                  ))
                  l,
          (
            length-put (align n d.offset) (f d.little_endian) d.payload room,
            take-put (align n d.offset) (f d.little_endian) d.payload room d.offset (fw d.offset),
          ),
        );
  }

  pub Writes-int :
      (n v : ℕ) → ((o : ℕ) → o ≤ align n o) → Writes le (ndr_write_int n v) tt (λ o. align n o + n)
  unfolding ndr_write_int
  Writes-int n v fw = Writes-store n fw (λ b. int_octets b n v) n (λ b. length-int_octets b n v)

  pub Writes-int8 : (v : ℕ) → Writes le (ndr_write_int 1 v) tt (λ o. align 1 o + 1)
  Writes-int8 v = Writes-int 1 v (λ o. omega arith)

  pub Writes-int16 : (v : ℕ) → Writes le (ndr_write_int 2 v) tt (λ o. align 2 o + 2)
  Writes-int16 v = Writes-int 2 v (λ o. omega arith)

  pub Writes-int32 : (v : ℕ) → Writes le (ndr_write_int 4 v) tt (λ o. align 4 o + 4)
  Writes-int32 v = Writes-int 4 v (λ o. omega arith)

  pub Writes-bytes :
      (octets : List ℕ) → Writes le (ndr_write_bytes octets) tt (λ o. align 2 o + length octets)
  unfolding ndr_write_bytes
  Writes-bytes octets = Writes-store 2 (λ o. omega arith) (λ b. octets) (length octets) (λ b. refl)

  module _ {A B : Type 0} (v : Action A) (w : A → Action B) (a : A) (b : B) (e f : ℕ → ℕ)
      (hv : Writes le v a e) (hw : Writes le (w a) b f) where
    -- One write and then another.
    pub Writes-seq : Writes le (v >>= w) b (λ o. f (e o))
    Writes-seq = record {
      forward = λ o. omega (arith, hv.forward o, hw.forward (e o));
      runs = λ d m h k.
          let (p, q, (l, t)) = hv.runs d m (omega (arith, hw.forward (e d.offset))) k in
          let (p', q', (l', t')) = hw.runs (at d (e d.offset) p) m (omega arith) (omega arith) in
          (
            p',
            bind-some v w d (at d (e d.offset) p) a q ∙ q',
            (l' ∙ l, (Agrees-less d.offset (e d.offset) p' p (hv.forward d.offset) (l', t')).1 ∙ t),
          );
    }

  -- an integer of each type
  pub Writes-ints :
      (n : ℕ)
      → ((o : ℕ) → o ≤ align n o)
      → (vs : List ℕ) → Writes le (write_ints n vs) tt (ends n (length vs))
  unfolding write_ints ends
  Writes-ints n fw [] = Writes-return tt
  Writes-ints n fw (v ∷ vs) =
      Writes-seq (ndr_write_int n v) (λ _. write_ints n vs) tt tt (λ o. align n o + n)
        (ends n (length vs)) (Writes-int n v fw) (Writes-ints n fw vs)

int-Keeps : (n v : ℕ) → Keeps (ndr_write_int n v)
unfolding ndr_write_int store
int-Keeps n v d = store-Keeps (int_octets d.little_endian n v) (at d (align n d.offset) d.payload)

bytes-Keeps : (octets : List ℕ) → Keeps (ndr_write_bytes octets)
unfolding ndr_write_bytes store
bytes-Keeps octets d = store-Keeps octets (at d (align 2 d.offset) d.payload)
