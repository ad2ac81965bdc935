-- ===== src/Smbacl/Compare.antt =====
-- The order of security identifiers: `smb_compare_sids` of mountd/smbacl.c.
use ksmbd_tools.Base.{ℕ, zero, suc, ◌≤◌, ◌≡◌, refl, sym, ap, ◌∙◌, arith, ltb, if◌then◌else◌}
use ksmbd_tools.Base.{◌↔◌, List, [], ◌∷◌, length, take}
use ksmbd_tools.Smbacl.RoundTrip.{WfSid, take-length}
use ksmbd_tools.Smbacl.{
  Sid, num_auths, Order, less, same, greater, then_compare, compare_int, compare_ints,
  smb_compare_sids,
}

abbrev pub flip : Order → Order
flip less = greater
flip same = same
flip greater = less

flip-then_compare : (o p : Order) → then_compare (flip o) (flip p) ≡ flip (then_compare o p)
flip-then_compare less p = refl
flip-then_compare same p = refl
flip-then_compare greater p = refl

flip-compare_int : (x y : ℕ) → compare_int y x ≡ flip (compare_int x y)
unfolding compare_int
flip-compare_int x y = ground arith

flip-compare_ints : (n : ℕ) (xs ys : List ℕ) → compare_ints n ys xs ≡ flip (compare_ints n xs ys)
unfolding compare_ints
flip-compare_ints zero [] ys = refl
flip-compare_ints zero (x ∷ xs) ys = refl
flip-compare_ints (suc n) [] [] = refl
flip-compare_ints (suc n) [] (y ∷ ys) = refl
flip-compare_ints (suc n) (x ∷ xs) [] = refl
flip-compare_ints (suc n) (x ∷ xs) (y ∷ ys) =
    rw (flip-compare_int x y, flip-compare_ints n xs ys)
      (flip-then_compare (compare_int x y) (compare_ints n xs ys))

compare_int-same : (x y : ℕ) → compare_int x y ≡ same → x ≡ y
unfolding compare_int
compare_int-same x y h = ground arith

then_compare-same : (o p : Order) → then_compare o p ≡ same → (o ≡ same) × (p ≡ same)
then_compare-same less p h = cc
then_compare-same same p h = (refl, h)
then_compare-same greater p h = cc

then_compare-same_of : (o p : Order) → o ≡ same → p ≡ same → then_compare o p ≡ same
then_compare-same_of o p h k = rw h k

same-compare_int : (x y : ℕ) → x ≡ y → compare_int x y ≡ same
unfolding compare_int
same-compare_int x y h = ground arith

-- Equal as far as they are compared.
compare_ints-same :
    (n : ℕ) (xs ys : List ℕ)
    → n ≤ length xs
    → n ≤ length ys
    → compare_ints n xs ys ≡ same
    → take n xs ≡ take n ys
unfolding compare_ints
compare_ints-same zero xs ys h k e = refl
compare_ints-same (suc n) [] ys h k e = ground arith
compare_ints-same (suc n) (x ∷ xs) [] h k e = ground arith
compare_ints-same (suc n) (x ∷ xs) (y ∷ ys) h k e =
    let (e1, e2) = then_compare-same (compare_int x y) (compare_ints n xs ys) e in
    rw (compare_int-same x y e1, compare_ints-same n xs ys (omega arith) (omega arith) e2) refl

same-compare_ints : (n : ℕ) (xs ys : List ℕ) → take n xs ≡ take n ys → compare_ints n xs ys ≡ same
unfolding compare_ints
same-compare_ints zero [] ys e = refl
same-compare_ints zero (x ∷ xs) ys e = refl
same-compare_ints (suc n) [] [] e = refl
same-compare_ints (suc n) [] (y ∷ ys) e = refl
same-compare_ints (suc n) (x ∷ xs) [] e = refl
same-compare_ints (suc n) (x ∷ xs) (y ∷ ys) e =
    then_compare-same_of (compare_int x y) (compare_ints n xs ys) (same-compare_int x y (cc))
      (same-compare_ints n xs ys (cc))

same_of_take :
    (n : ℕ) (xs ys : List ℕ) → length xs ≡ n → length ys ≡ n → take n xs ≡ take n ys → xs ≡ ys
same_of_take n xs ys h k e = sym (take-length n xs h) ∙ (e ∙ take-length n ys k)

-- how many sub-authorities are compared
unfoldable pub shorter : Sid → Sid → ℕ
shorter a b = if ltb a.num_subauth b.num_subauth then a.num_subauth else b.num_subauth

shorter_comm : (a b : Sid) → shorter b a ≡ shorter a b
unfolding shorter
shorter_comm a b = ground arith

shorter_le : (a b : Sid) → (shorter a b ≤ a.num_subauth) × (shorter a b ≤ b.num_subauth)
unfolding shorter
shorter_le a b = (ground arith, ground arith)

module _ (a b : Sid) where
  flip-smb_compare_sids : smb_compare_sids b a ≡ flip (smb_compare_sids a b)
  unfolding smb_compare_sids shorter
  flip-smb_compare_sids =
      let subs = compare_ints (shorter a b) a.sub_auth b.sub_auth in
      rw
        (
          shorter_comm a b,
          flip-compare_int a.revision b.revision,
          flip-compare_ints num_auths a.authority b.authority,
          flip-compare_ints (shorter a b) a.sub_auth b.sub_auth,
          flip-then_compare (compare_ints num_auths a.authority b.authority) subs,
        )
        (flip-then_compare (compare_int a.revision b.revision)
          (then_compare (compare_ints num_auths a.authority b.authority) subs))

  module _ (wa : WfSid a) (wb : WfSid b) where
    abbrev Alike : Type 0
    Alike =
        (a.revision ≡ b.revision)
        × (a.authority ≡ b.authority)
        × (take (shorter a b) a.sub_auth ≡ take (shorter a b) b.sub_auth)

    alike_of_same : smb_compare_sids a b ≡ same → Alike
    unfolding smb_compare_sids shorter
    alike_of_same h =
        let (e1, h') =
          then_compare-same (compare_int a.revision b.revision)
            (then_compare (compare_ints num_auths a.authority b.authority)
              (compare_ints (shorter a b) a.sub_auth b.sub_auth))
            h in
        let (e2, e3) =
          then_compare-same (compare_ints num_auths a.authority b.authority)
            (compare_ints (shorter a b) a.sub_auth b.sub_auth) h' in
        (
          compare_int-same a.revision b.revision e1,
          same_of_take num_auths a.authority b.authority wa.authority_size wb.authority_size (
              compare_ints-same num_auths a.authority b.authority (omega (arith, wa.authority_size))
                (omega (arith, wb.authority_size)) e2),
          compare_ints-same (shorter a b) a.sub_auth b.sub_auth
              (omega (arith, (shorter_le a b).0, wa.sub_auth_size, wa.few_subauth))
              (omega (arith, (shorter_le a b).1, wb.sub_auth_size, wb.few_subauth)) e3,
        )

    same_of_alike : Alike → smb_compare_sids a b ≡ same
    unfolding smb_compare_sids shorter
    same_of_alike (r, u, t) =
        then_compare-same_of (compare_int a.revision b.revision)
          (then_compare (compare_ints num_auths a.authority b.authority)
            (compare_ints (shorter a b) a.sub_auth b.sub_auth))
          (same-compare_int a.revision b.revision r)
          (then_compare-same_of (compare_ints num_auths a.authority b.authority)
            (compare_ints (shorter a b) a.sub_auth b.sub_auth)
            (same-compare_ints num_auths a.authority b.authority (ap (take num_auths) u))
            (same-compare_ints (shorter a b) a.sub_auth b.sub_auth t))

-- Two sids in the other order compare the other way round. Where their arrays have their sizes and at most 15
-- sub-authorities count, they are the same exactly when they have one revision, one authority, and one
-- sub-authority at each place that counts in both: the one with more is not greater for them.
pub smb_compare_sids_lem :
    (a b : Sid)
    → WfSid a
    → WfSid b
    → (smb_compare_sids b a ≡ flip (smb_compare_sids a b))
      × (smb_compare_sids a b ≡ same ↔ (
          (a.revision ≡ b.revision)
          × (a.authority ≡ b.authority)
          × (take (shorter a b) a.sub_auth ≡ take (shorter a b) b.sub_auth)))
smb_compare_sids_lem a b wa wb =
    (flip-smb_compare_sids a b, (alike_of_same a b wa wb, same_of_alike a b wa wb))
