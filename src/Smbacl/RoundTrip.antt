-- ===== src/Smbacl/RoundTrip.antt =====
-- Round trip of a security identifier through `smb_write_sid` and `smb_read_sid` of mountd/smbacl.c.
use ksmbd_tools.Base.{
  ℕ, zero, suc, ◌+◌, ◌*◌, ◌%◌, ◌^◌, ◌≤◌, ◌<◌, ◌≡◌, refl, ap, ◌∙◌, arith, leb, ◌==◌, not, ◌&&◌,
}
use ksmbd_tools.Base.{Bool, true, some, List, [], ◌∷◌, ◌++◌, length, take, drop, All}
use mathlib.Core.Path.{subst}
use ksmbd_tools.Rpc.Ndr.{
  Ndr, Action, ◌>>=◌, ◌>>◌, return, guard, align, ndr_read_int, ndr_write_int, write_ints,
  read_ints,
}
use ksmbd_tools.Rpc.Ndr.Octets.{FitsIn}
use ksmbd_tools.Rpc.Ndr.Writes.{
  Mode, Agrees, at, ends, Writes, Writes-int8, Writes-ints, Writes-seq,
}
use ksmbd_tools.Rpc.Ndr.RoundTrip.{
  Reads, Reads-int, Reads-ints, Reads-seq, Reads-then, written-back,
}
use ksmbd_tools.Smbacl.{Sid, num_auths, sid_max_sub_authorities, smb_read_sid, smb_write_sid}

-- The arrays have their sizes, the entries fit their types, and between 1 and 15 sub-authorities count.
pub record WfSid (sid : Sid) : Type 0 where
  pub some_subauth : 1 ≤ sid.num_subauth
  pub few_subauth : sid.num_subauth ≤ sid_max_sub_authorities
  pub revision_fits : FitsIn 1 sid.revision
  pub authority_size : length sid.authority ≡ num_auths
  pub authority_fits : All (FitsIn 1) sid.authority
  pub sub_auth_size : length sid.sub_auth ≡ sid_max_sub_authorities
  pub sub_auth_fits : All (FitsIn 4) sid.sub_auth

length-take_short : {A : Type 0} (n : ℕ) (xs : List A) → n ≤ length xs → length (take n xs) ≡ n
length-take_short zero xs h = refl
length-take_short (suc n) [] h = omega arith
length-take_short (suc n) (x ∷ xs) h = ap suc (length-take_short n xs (omega arith))

pub take-length : {A : Type 0} (n : ℕ) (xs : List A) → length xs ≡ n → take n xs ≡ xs
take-length zero [] h = refl
take-length zero (x ∷ xs) h = cc
take-length (suc n) [] h = ground arith
take-length (suc n) (x ∷ xs) h = ap (λ l. x ∷ l) (take-length n xs (omega arith))

All-take : {A : Type 0} (P : A → Type 0) (n : ℕ) (xs : List A) → All P xs → All P (take n xs)
All-take P zero xs h = tt
All-take P (suc n) [] h = tt
All-take P (suc n) (x ∷ xs) (h, hs) = (h, All-take P n xs hs)

-- Integers of one octet need no alignment, those of four none behind a multiple of four.
pub ends-octets : (k o : ℕ) → ends 1 k o ≡ o + k
unfolding ends
ends-octets zero o = omega arith
ends-octets (suc k) o = ends-octets k (align 1 o + 1) ∙ omega arith

pub ends-words : (k o : ℕ) → o % 4 ≡ 0 → ends 4 k o ≡ o + 4 * k
unfolding ends
ends-words zero o h = omega arith
ends-words (suc k) o h = ends-words k (align 4 o + 4) (omega arith) ∙ omega arith

-- where the write of a sid ends
pub sid_end : ℕ → ℕ → ℕ
sid_end num o = ends 4 num (ends 1 6 (align 1 (align 1 o + 1) + 1))

pub sid_end_lem : (num o : ℕ) → o % 4 ≡ 0 → sid_end num o ≡ o + (8 + 4 * num)
unfolding sid_end
sid_end_lem num o h =
    let e : ends 1 6 (align 1 (align 1 o + 1) + 1) ≡ o + 8 =
      ends-octets 6 (align 1 (align 1 o + 1) + 1) ∙ omega arith in
    ap (ends 4 num) e ∙ (ends-words num (o + 8) (omega arith) ∙ omega arith)

module _ (sid : Sid) (wf : WfSid sid) where
  authority_end : length (take num_auths sid.authority) ≡ 6
  authority_end = length-take_short num_auths sid.authority (omega (arith, wf.authority_size))

  subauth_end : length (take sid.num_subauth sid.sub_auth) ≡ sid.num_subauth
  subauth_end =
      length-take_short sid.num_subauth sid.sub_auth
        (omega (arith, wf.sub_auth_size, wf.few_subauth))

  few : leb sid.num_subauth sid_max_sub_authorities ≡ true
  few = ground (arith, wf.few_subauth)

-- the octets of the authority, and the words behind them
abbrev octets : Sid → Action (Unit {0})
octets sid = write_ints 1 (take num_auths sid.authority)

abbrev words : Sid → Action (Unit {0})
words sid = write_ints 4 (take sid.num_subauth sid.sub_auth)

-- what a reader of `sid` into `sid'` has then: the sub-authorities that do not count are those it had
abbrev pub finish : Sid → Sid → List ℕ → List ℕ → Sid
finish sid sid' xs ys = record {
  revision = sid.revision;
  num_subauth = sid.num_subauth;
  authority = xs;
  sub_auth = ys ++ drop sid.num_subauth sid'.sub_auth;
}

abbrev pub received : Sid → Sid → Sid
received sid sid' = finish sid sid' sid.authority (take sid.num_subauth sid.sub_auth)

-- the rest of `smb_read_sid`, behind the revision
abbrev behind_revision : ℕ → Sid → ℕ → Action Sid
behind_revision r sid' n =
    guard (not (n == 0) && leb n sid_max_sub_authorities)
    >> (read_ints 1 6 >>= (λ xs. read_ints 4 n >>= (λ ys. return (record {
      revision = r;
      num_subauth = n;
      authority = xs;
      sub_auth = ys ++ drop n sid'.sub_auth;
    }))))

-- an array whose length is known by another name
Writes-counted :
    {le : Bool} (n : ℕ)
    → ((o : ℕ) → o ≤ align n o)
    → (k : ℕ) (vs : List ℕ) → length vs ≡ k
    → Writes le (write_ints n vs) tt (ends n k)
Writes-counted {le} n fw k vs e =
    subst (λ (i : ℕ). Writes le (write_ints n vs) tt (ends n i)) e (Writes-ints n fw vs)

Reads-counted :
    {le : Bool} (n : ℕ)
    → ((o : ℕ) → o ≤ align n o)
    → (k : ℕ) (vs : List ℕ) → length vs ≡ k
    → All (FitsIn n) vs
    → Reads le (write_ints n vs) (read_ints n k) vs (ends n k)
Reads-counted {le} n fw k vs e fits =
    subst (λ (i : ℕ). Reads le (write_ints n vs) (read_ints n i) vs (ends n i)) e
      (Reads-ints n fw vs fits)

module _ {le : Bool} (sid : Sid) (wf : WfSid sid) where
  Writes-octets : Writes le (octets sid) tt (ends 1 6)
  Writes-octets =
      Writes-counted 1 (λ o. omega arith) 6 (take num_auths sid.authority) (authority_end sid wf)

  Writes-words : Writes le (words sid) tt (ends 4 sid.num_subauth)
  Writes-words =
      Writes-counted 4 (λ o. omega arith) sid.num_subauth (take sid.num_subauth sid.sub_auth)
        (subauth_end sid wf)

  Writes-numbered :
      Writes le
        (ndr_write_int 1 sid.num_subauth >> ((octets sid) >> (words sid)))
        tt
        (λ o. ends 4 sid.num_subauth (ends 1 6 (align 1 o + 1)))
  Writes-numbered =
      Writes-seq (ndr_write_int 1 sid.num_subauth) (λ _. (octets sid) >> (words sid)) tt tt
        (λ o. align 1 o + 1) (λ o. ends 4 sid.num_subauth (ends 1 6 o))
        (Writes-int8 sid.num_subauth)
        (Writes-seq (octets sid) (λ _. (words sid)) tt tt (ends 1 6) (ends 4 sid.num_subauth)
          Writes-octets Writes-words)

  pub Writes-sid : Writes le (smb_write_sid sid) tt (sid_end sid.num_subauth)
  unfolding smb_write_sid sid_end
  Writes-sid = rw (few sid wf) (
      Writes-seq (ndr_write_int 1 sid.revision)
        (λ _. ndr_write_int 1 sid.num_subauth >> ((octets sid) >> (words sid))) tt tt
        (λ o. align 1 o + 1) (λ o. ends 4 sid.num_subauth (ends 1 6 (align 1 o + 1)))
        (Writes-int8 sid.revision) Writes-numbered)

  module _ (sid' : Sid) where
    Reads-arrays :
        Reads le
          ((octets sid) >> (words sid))
          (read_ints 1 6
            >>= (λ xs. read_ints 4 sid.num_subauth >>= (λ ys. return (finish sid sid' xs ys))))
          (received sid sid')
          (λ o. ends 4 sid.num_subauth (ends 1 6 o))
    Reads-arrays =
        let whole : take num_auths sid.authority ≡ sid.authority =
          take-length num_auths sid.authority wf.authority_size in
        Reads-seq (octets sid) (words sid) (read_ints 1 6) (take num_auths sid.authority)
          (λ xs. read_ints 4 sid.num_subauth >>= (λ ys. return (finish sid sid' xs ys)))
          (received sid sid') (ends 1 6) (ends 4 sid.num_subauth) Writes-octets Writes-words
          (Reads-counted 1 (λ o. omega arith) 6 (take num_auths sid.authority)
            (authority_end sid wf) (All-take (FitsIn 1) num_auths sid.authority wf.authority_fits))
          (Reads-then (words sid) (read_ints 4 sid.num_subauth) (take sid.num_subauth sid.sub_auth)
            (ends 4 sid.num_subauth)
            (λ ys. return (finish sid sid' (take num_auths sid.authority) ys)) (received sid sid')
            (λ d.
              ap (λ xs. (some (finish sid sid' xs (take sid.num_subauth sid.sub_auth)), d)) whole)
            (Reads-counted 4 (λ o. omega arith) sid.num_subauth (take sid.num_subauth sid.sub_auth)
              (subauth_end sid wf)
              (All-take (FitsIn 4) sid.num_subauth sid.sub_auth wf.sub_auth_fits)))

    Reads-numbered :
        Reads le
          (ndr_write_int 1 sid.num_subauth >> (octets sid >> words sid))
          (ndr_read_int 1 >>= behind_revision sid.revision sid')
          (received sid sid')
          (λ o. ends 4 sid.num_subauth (ends 1 6 (align 1 o + 1)))
    Reads-numbered =
        let some_few : not (sid.num_subauth == 0) && leb sid.num_subauth sid_max_sub_authorities
            ≡ true =
          ground (arith, wf.some_subauth, wf.few_subauth) in
        Reads-seq (ndr_write_int 1 sid.num_subauth) (octets sid >> words sid) (ndr_read_int 1)
          sid.num_subauth (behind_revision sid.revision sid') (received sid sid')
          (λ o. align 1 o + 1) (λ o. ends 4 sid.num_subauth (ends 1 6 o))
          (Writes-int8 sid.num_subauth)
          (Writes-seq (octets sid) (λ _. words sid) tt tt (ends 1 6) (ends 4 sid.num_subauth)
            Writes-octets Writes-words)
          (Reads-int 1 sid.num_subauth (omega (arith, wf.few_subauth))) (rw some_few Reads-arrays)

    pub Reads-sid :
        Reads le
          (smb_write_sid sid)
          (smb_read_sid sid')
          (received sid sid')
          (sid_end sid.num_subauth)
    unfolding smb_write_sid smb_read_sid sid_end
    Reads-sid = rw (few sid wf) (
        Reads-seq (ndr_write_int 1 sid.revision)
          (ndr_write_int 1 sid.num_subauth >> (octets sid >> words sid)) (ndr_read_int 1)
          sid.revision (λ r. ndr_read_int 1 >>= behind_revision r sid') (received sid sid')
          (λ o. align 1 o + 1) (λ o. ends 4 sid.num_subauth (ends 1 6 (align 1 o + 1)))
          (Writes-int8 sid.revision) Writes-numbered (Reads-int 1 sid.revision wf.revision_fits)
          Reads-numbered)

-- A well-formed sid is written at a multiple of four, in either order of octets, wherever 8 octets
-- and 4 for each sub-authority that counts have room. It takes just those octets, and leaves alone what stands
-- before them. A read at the same place gives back the revision, the authority and the
-- sub-authorities that count, and ends at the same place.
pub smb_read_sid-smb_write_sid :
    (le : Bool) (sid sid' : Sid) (d : Ndr)
    → WfSid sid
    → Mode le d
    → d.offset % 4 ≡ 0
    → d.offset + (8 + 4 * sid.num_subauth) ≤ length d.payload
    → length d.payload < 2 ^ 63
    → (p : List ℕ) × (smb_write_sid sid d
        ≡ (some tt, at d (d.offset + (8 + 4 * sid.num_subauth)) p))
      × Agrees d.offset p d.payload
      × (smb_read_sid sid' (at d d.offset p)
          ≡ (some (received sid sid'), at d (d.offset + (8 + 4 * sid.num_subauth)) p))
smb_read_sid-smb_write_sid le sid sid' d wf m mult room small =
    let e : sid_end sid.num_subauth d.offset ≡ d.offset + (8 + 4 * sid.num_subauth) =
      sid_end_lem sid.num_subauth d.offset mult in
    let room' : sid_end sid.num_subauth d.offset ≤ length d.payload = omega (arith, e) in
    let (p, run, ag, back) =
      written-back (smb_write_sid sid) (smb_read_sid sid') (received sid sid')
        (sid_end sid.num_subauth) (Writes-sid {le = le} sid wf) (Reads-sid {le = le} sid wf sid') d
        m room' small in
    (
      p,
      run ∙ ap (λ o. (some tt, at d o p)) e,
      ag,
      back ∙ ap (λ o. (some (received sid sid'), at d o p)) e,
    )
