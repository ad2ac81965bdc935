-- ===== src/Rpc/Ndr/RoundTrip.antt =====
-- What the NDR writes of mountd/rpc.c put down is what its reads get back.
use ksmbd_tools.Base.{ℕ, ◌+◌, ◌^◌, ◌≤◌, ◌<◌, ◌≡◌, refl, sym, ap, ◌∙◌, arith}
use ksmbd_tools.Base.{Bool, Option, some, List, [], ◌∷◌, length, take, drop, All}
use mathlib.Core.Path.{subst}
use ksmbd_tools.Rpc.Ndr.{
  Ndr, Action, ◌>>=◌, ◌>>◌, progress, return, align, align_offset, auto_align_offset, put, store,
  fetch, int_octets, int_value, ndr_write_int, ndr_read_int, ndr_write_bytes, ndr_read_bytes,
  write_ints, read_ints,
}
use ksmbd_tools.Rpc.Ndr.Monad.{bind-some, progress-some}
use ksmbd_tools.Rpc.Ndr.Octets.{
  FitsIn, length-int_octets, int_value-int_octets, take-drop, drop-put, length-put,
}
use ksmbd_tools.Rpc.Ndr.Writes.{
  Mode, Agrees, Agrees-less, at, Writes, store-runs, auto-cases, ends, Writes-int, Writes-ints,
}

-- `r` reads `a` back from any payload that is as `w` has left it, up to the end of the write.
abbrev pub Reads : {A : Type 0} → Bool → Action (Unit {0}) → Action A → A → (ℕ → ℕ) → Type 0
Reads le w r a e =
    (d : Ndr)
    → Mode le d
    → e d.offset ≤ length d.payload
    → length d.payload < 2 ^ 63
    → (q : List ℕ) → Agrees (e d.offset) q (w d).1.payload
    → r (at d d.offset q) ≡ (some a, at d (e d.offset) q)

pub fetch-put :
    (o n : ℕ) (bs p q : List ℕ) (d : Ndr)
    → length bs ≡ n
    → o + n ≤ length p
    → Agrees (o + n) q (put o bs p)
    → length (put o bs p) ≡ length p
    → fetch n (at d o q) ≡ (some bs, at d (o + n) q)
unfolding fetch
fetch-put o n bs p q d len room (l, t) same =
    let back : take n (drop o q) ≡ bs =
      take-drop o n (o + n) q refl
      ∙ (ap (drop o) t
          ∙ (sym (take-drop o n (o + n) (put o bs p) refl)
              ∙ (ap (λ i. take i (drop o (put o bs p))) (sym len)
                  ∙ drop-put o bs p (omega arith)))) in
    rw back (ground arith)

store-fetch :
    (o n : ℕ) (bs q : List ℕ) (d : Ndr)
    → length bs ≡ n
    → o + n ≤ length d.payload
    → length d.payload < 2 ^ 63
    → Agrees (o + n) q (store bs (at d o d.payload)).1.payload
    → fetch n (at d o q) ≡ (some bs, at d (o + n) q)
store-fetch o n bs q d len room small ag =
    let fits : o + length bs ≤ length d.payload = omega (arith, len) in
    let stored = store-runs bs (at d o d.payload) fits small in
    fetch-put o n bs d.payload q d len room
      (subst (λ (x : Option (Unit {0}) × Ndr). Agrees (o + n) q x.1.payload) stored ag)
      (length-put o bs d.payload fits)

module _ {le : Bool} where
  pub Reads-int :
      (n v : ℕ) → FitsIn n v → Reads le (ndr_write_int n v) (ndr_read_int n) v (λ o. align n o + n)
  unfolding ndr_write_int ndr_read_int store fetch
  Reads-int n v fits d m h k q ag =
      let o : ℕ = align n d.offset in
      let octets : List ℕ = int_octets d.little_endian n v in
      let len = length-int_octets d.little_endian n v in
      let back = store-fetch o n octets q d len h k ag in
      bind-some (fetch n) (λ octets. return (int_value d.little_endian octets)) (at d o q)
        (at d (o + n) q) octets back
      ∙ ap (λ i. (some i, at d (o + n) q)) (int_value-int_octets d.little_endian n v fits)

  pub Reads-bytes :
      (octets : List ℕ)
      → Reads le
          (ndr_write_bytes octets)
          (ndr_read_bytes (length octets))
          octets
          (λ o. align 2 o + length octets)
  unfolding ndr_write_bytes ndr_read_bytes store fetch
  Reads-bytes octets d m h k q ag =
      store-fetch (align 2 d.offset) (length octets) octets q d refl h k ag

  pub Reads-align : (n : ℕ) → Reads le (align_offset n) (align_offset n) tt (align n)
  Reads-align n d m h k q ag = refl

  pub Reads-auto : Reads le auto_align_offset auto_align_offset tt (align 4)
  Reads-auto d m h k q ag = auto-cases (at d d.offset q) m

  -- what follows a read only makes `b` of it
  pub Reads-then :
      {A B : Type 0} (w : Action (Unit {0})) (r : Action A) (a : A) (e : ℕ → ℕ) (f : A → Action B)
      (b : B)
      → ((d : Ndr) → f a d ≡ (some b, d))
      → Reads le w r a e
      → Reads le w (r >>= f) b e
  Reads-then w r a e f b g hr d m h k q ag =
      bind-some r f (at d d.offset q) (at d (e d.offset) q) a (hr d m h k q ag)
      ∙ g (at d (e d.offset) q)

  -- One write and then another; a read that goes on where the first part has been read.
  Reads-on :
      {A B : Type 0} (v w : Action (Unit {0})) (r : Action A) (a : A) (c f : Action B) (b : B)
      (e g : ℕ → ℕ)
      → ((d d' : Ndr) → r d ≡ (some a, d') → c d ≡ f d')
      → Writes le v tt e
      → Writes le w tt g
      → Reads le v r a e
      → Reads le w f b g
      → Reads le (v >> w) c b (λ o. g (e o))
  Reads-on v w r a c f b e g on hv hw hr hf d m h k q ag =
      let room : e d.offset ≤ length d.payload = omega (arith, hw.forward (e d.offset)) in
      let (p, run, (l, t)) = hv.runs d m room k in
      let d1 : Ndr = at d (e d.offset) p in
      let (p', run', (l', t')) = hw.runs d1 m (omega arith) (omega arith) in
      let both : (v >> w) d ≡ w d1 = bind-some v (λ _. w) d d1 tt run in
      let ag' : Agrees (g (e d.offset)) q (w d1).1.payload =
        subst (λ (x : Option (Unit {0}) × Ndr). Agrees (g (e d.offset)) q x.1.payload) both ag in
      let ag'' : Agrees (g (e d.offset)) q p' =
        subst (λ (x : Option (Unit {0}) × Ndr). Agrees (g (e d.offset)) q x.1.payload) run' ag' in
      let (l2, t2) =
        Agrees-less (e d.offset) (g (e d.offset)) q p' (hw.forward (e d.offset)) ag'' in
      let agv : Agrees (e d.offset) q (v d).1.payload =
        subst (λ (x : Option (Unit {0}) × Ndr). Agrees (e d.offset) q x.1.payload) (sym run)
          (l2 ∙ l', t2 ∙ t') in
      on (at d d.offset q) (at d (e d.offset) q) (hr d m room k q agv)
      ∙ hf d1 m (omega arith) (omega arith) q ag'

  pub Reads-seq :
      {A B : Type 0} (v w : Action (Unit {0})) (r : Action A) (a : A) (f : A → Action B) (b : B)
      (e g : ℕ → ℕ)
      → Writes le v tt e
      → Writes le w tt g
      → Reads le v r a e
      → Reads le w (f a) b g
      → Reads le (v >> w) (r >>= f) b (λ o. g (e o))
  Reads-seq v w r a f b e g =
      Reads-on v w r a (r >>= f) (f a) b e g (λ d d' h. bind-some r f d d' a h)

  pub Reads-progress :
      {A B : Type 0} (v w : Action (Unit {0})) (r : Action A) (a : A) (f : A → Action B) (b0 b : B)
      (e g : ℕ → ℕ)
      → Writes le v tt e
      → Writes le w tt g
      → Reads le v r a e
      → Reads le w (f a) b g
      → Reads le (v >> w) (progress r b0 f) b (λ o. g (e o))
  Reads-progress v w r a f b0 b e g =
      Reads-on v w r a (progress r b0 f) (f a) b e g (λ d d' h. progress-some r f d d' b0 a h)

  -- the last read
  pub Reads-last :
      {A B : Type 0} (w : Action (Unit {0})) (r : Action A) (a : A) (e : ℕ → ℕ) (f : A → Action B)
      (b0 b : B)
      → ((d : Ndr) → f a d ≡ (some b, d))
      → Reads le w r a e
      → Reads le w (progress r b0 f) b e
  Reads-last w r a e f b0 b g hr d m h k q ag =
      progress-some r f (at d d.offset q) (at d (e d.offset) q) b0 a (hr d m h k q ag)
      ∙ g (at d (e d.offset) q)

  pub Reads-return : {A : Type 0} (a : A) → Reads le (return tt) (return a) a (λ o. o)
  Reads-return a d m h k q ag = refl

  pub Reads-ints :
      (n : ℕ)
      → ((o : ℕ) → o ≤ align n o)
      → (vs : List ℕ) → All (FitsIn n) vs
      → Reads le (write_ints n vs) (read_ints n (length vs)) vs (ends n (length vs))
  unfolding write_ints read_ints ends
  Reads-ints n fw [] fits = Reads-return []
  Reads-ints n fw (v ∷ vs) (f, fs) =
      Reads-seq (ndr_write_int n v) (write_ints n vs) (ndr_read_int n) v
        (λ v. read_ints n (length vs) >>= (λ vs. return (v ∷ vs))) (v ∷ vs) (λ o. align n o + n)
        (ends n (length vs)) (Writes-int n v fw) (Writes-ints n fw vs) (Reads-int n v f)
        (Reads-then (write_ints n vs) (read_ints n (length vs)) vs (ends n (length vs))
          (λ vs. return (v ∷ vs)) (v ∷ vs) (λ d. refl) (Reads-ints n fw vs fs))

  -- a write and a read, at one place
  pub written-back :
      {A : Type 0} (w : Action (Unit {0})) (r : Action A) (a : A) (e : ℕ → ℕ)
      → Writes le w tt e
      → Reads le w r a e
      → (d : Ndr) → Mode le d
      → e d.offset ≤ length d.payload
      → length d.payload < 2 ^ 63
      → (p : List ℕ) × (w d ≡ (some tt, at d (e d.offset) p))
        × Agrees d.offset p d.payload
        × (r (at d d.offset p) ≡ (some a, at d (e d.offset) p))
  written-back w r a e hw hr d m room small =
      let (p, run, ag) = hw.runs d m room small in
      let same : Agrees (e d.offset) p (w d).1.payload =
        subst (λ (x : Option (Unit {0}) × Ndr). Agrees (e d.offset) p x.1.payload) (sym run)
          (refl, refl) in
      (p, run, ag, hr d m room small p same)
