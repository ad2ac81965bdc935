-- ===== src/Smbacl/Descriptor.antt =====
-- The security descriptor that `build_sec_desc` of mountd/smbacl.c writes.
use ksmbd_tools.Base.{
  ℕ, ◌+◌, ◌-◌, ◌%◌, ◌^◌, ◌≤◌, ◌<◌, ◌≡◌, sym, ap, ◌∙◌, arith, ◌==◌, if◌then◌else◌,
}
use ksmbd_tools.Base.{Bool, some, List, [], ◌∷◌, length, take, drop}
use ksmbd_tools.Rpc.Ndr.{
  Ndr, Action, ◌>>=◌, ◌>>◌, return, align, ndr_write_int, write_ints, int_octets, put, store, skip,
  seek, tell,
}
use ksmbd_tools.Rpc.Ndr.Monad.{bind-some, bind_assoc}
use ksmbd_tools.Rpc.Ndr.Octets.{FitsIn, length-int_octets, length-put, take-put, drop-put}
use ksmbd_tools.Rpc.Ndr.Writes.{
  Mode, Agrees, Agrees-less, at, ends, Writes, store-runs, Writes-int16, Writes-int32, Writes-ints,
  Writes-seq,
}
use ksmbd_tools.Smbacl.{set_dacl, build_sec_desc}
use ksmbd_tools.Smbacl.RoundTrip.{ends-words}
use ksmbd_tools.Smbacl.Dacl.{owner_subauths, dacl_end, dacl_end_lem, dacl_size, Writes-set_dacl}

-- the five fields before the size of the list
fixed_fields : Action (Unit {0})
fixed_fields =
    ndr_write_int 2 1
    >> (ndr_write_int 2 0x8004 >> (write_ints 4 (0 ∷ 0 ∷ 0 ∷ 20 ∷ []) >> ndr_write_int 2 2))

fields_end : ℕ → ℕ
fields_end o = align 2 (ends 4 4 (align 2 (align 2 o + 2) + 2)) + 2

Writes-fixed_fields : {le : Bool} → Writes le fixed_fields tt fields_end
unfolding fixed_fields fields_end
Writes-fixed_fields =
    Writes-seq (ndr_write_int 2 1)
      (λ _. ndr_write_int 2 0x8004 >> (write_ints 4 (0 ∷ 0 ∷ 0 ∷ 20 ∷ []) >> ndr_write_int 2 2)) tt
      tt (λ o. align 2 o + 2) (λ o. align 2 (ends 4 4 (align 2 o + 2)) + 2) (Writes-int16 1)
      (Writes-seq (ndr_write_int 2 0x8004)
        (λ _. write_ints 4 (0 ∷ 0 ∷ 0 ∷ 20 ∷ []) >> ndr_write_int 2 2) tt tt (λ o. align 2 o + 2)
        (λ o. align 2 (ends 4 4 o) + 2) (Writes-int16 0x8004)
        (Writes-seq (write_ints 4 (0 ∷ 0 ∷ 0 ∷ 20 ∷ [])) (λ _. ndr_write_int 2 2) tt tt (ends 4 4)
          (λ o. align 2 o + 2) (Writes-ints 4 (λ o. omega arith) (0 ∷ 0 ∷ 0 ∷ 20 ∷ []))
          (Writes-int16 2)))

fields_end_lem : (o : ℕ) → o % 4 ≡ 0 → fields_end o ≡ o + 22
unfolding fields_end
fields_end_lem o h =
    let e : ends 4 4 (align 2 (align 2 o + 2) + 2) ≡ o + 20 =
      ends-words 4 (align 2 (align 2 o + 2) + 2) (omega arith) ∙ omega arith in
    ap (λ i. align 2 i + 2) e ∙ omega arith

-- the rest: the size of the list is left out first
sized_list : List ℕ → ℕ → Action ℕ
sized_list gen rid = tell >>= (λ o.
    skip 2
    >> (ndr_write_int 4 4
        >> (set_dacl gen rid >>= (λ dacl. tell >>= (λ l.
            seek o >> (ndr_write_int 2 (dacl + 8) >> (seek l >> return (20 + (dacl + 8)))))))))

build_sec_desc-parts :
    (gen : List ℕ) (rid : ℕ) (d : Ndr)
    → (fixed_fields >> sized_list gen rid) d ≡ build_sec_desc gen rid d
unfolding build_sec_desc fixed_fields sized_list
build_sec_desc-parts gen rid d =
    let w1 : Action (Unit {0}) = ndr_write_int 2 1 in
    let w2 : Action (Unit {0}) = ndr_write_int 2 0x8004 in
    let w3 : Action (Unit {0}) = write_ints 4 (0 ∷ 0 ∷ 0 ∷ 20 ∷ []) in
    let w4 : Action (Unit {0}) = ndr_write_int 2 2 in
    let t : Action ℕ = sized_list gen rid in
    bind_assoc w1 (λ _. w2 >> (w3 >> w4)) (λ _. t) d
    ∙ ((λ i. (w1 >> (λ c. bind_assoc w2 (λ _. w3 >> w4) (λ _. t) c i)) d)
        ∙ (λ i. (w1 >> (w2 >> (λ c. bind_assoc w3 (λ _. w4) (λ _. t) c i))) d))

-- an integer of 16 bits in its place
patch :
    (le : Bool) (v : ℕ) (d : Ndr)
    → Mode le d
    → d.offset % 2 ≡ 0
    → d.offset + 2 ≤ length d.payload
    → length d.payload < 2 ^ 63
    → (p : List ℕ) × (ndr_write_int 2 v d ≡ (some tt, at d (d.offset + 2) p))
      × Agrees d.offset p d.payload
      × (take 2 (drop d.offset p) ≡ int_octets le 2 v)
unfolding ndr_write_int store
patch le v d (l, m, m') even room small =
    let bs : List ℕ = int_octets d.little_endian 2 v in
    let len : length bs ≡ 2 = length-int_octets d.little_endian 2 v in
    let e : align 2 d.offset ≡ d.offset = omega arith in
    let fits : d.offset + length bs ≤ length d.payload = omega (arith, len) in
    (
      put d.offset bs d.payload,
      ap (λ (o : ℕ). store bs (at d o d.payload)) e
          ∙ (store-runs bs d fits small
              ∙ ap (λ (n : ℕ). (some tt, at d (d.offset + n) (put d.offset bs d.payload))) len),
      (
        length-put d.offset bs d.payload fits,
        take-put d.offset bs d.payload fits d.offset (omega arith),
      ),
      ap (λ (n : ℕ). take n (drop d.offset (put d.offset bs d.payload))) (sym len)
          ∙ (drop-put d.offset bs d.payload (omega arith) ∙ ap (λ (b : Bool). int_octets b 2 v) l),
    )

-- The size, put into its place behind the list, changes nothing else.
fill-runs :
    (le : Bool) (gen : List ℕ) (rid size mid end : ℕ) (d : Ndr) (p1 p2 : List ℕ)
    → Mode le d
    → d.offset % 2 ≡ 0
    → d.offset + 2 ≤ mid
    → mid ≤ length d.payload
    → length d.payload < 2 ^ 63
    → ndr_write_int 4 4 (at d (d.offset + 2) d.payload) ≡ (some tt, at d mid p1)
    → Agrees (d.offset + 2) p1 d.payload
    → set_dacl gen rid (at d mid p1) ≡ (some size, at d end p2)
    → Agrees mid p2 p1
    → (p : List ℕ) × (sized_list gen rid d ≡ (some (20 + (size + 8)), at d end p))
      × Agrees d.offset p d.payload
      × (take 2 (drop d.offset p) ≡ int_octets le 2 (size + 8))
unfolding sized_list
fill-runs le gen rid size mid end d p1 p2 m even less room small run1 ag1 run2 ag2 =
    let o : ℕ = d.offset in
    let (p3, run3, ag3, size3) =
      patch le (size + 8) (at d o p2) m even (omega (arith, ag1.0, ag2.0))
        (omega (arith, ag1.0, ag2.0)) in
    let fill : ℕ → Action ℕ = λ (n : ℕ).
      tell >>= (λ l. seek o >> (ndr_write_int 2 (n + 8) >> (seek l >> return (20 + (n + 8))))) in
    let counted =
      bind-some (ndr_write_int 4 4) (λ _. set_dacl gen rid >>= fill) (at d (o + 2) d.payload)
        (at d mid p1) tt run1 in
    let listed = bind-some (set_dacl gen rid) fill (at d mid p1) (at d end p2) size run2 in
    let filled : fill size (at d end p2) ≡ (some (20 + (size + 8)), at d end p3) =
      bind-some (ndr_write_int 2 (size + 8)) (λ _. seek end >> return (20 + (size + 8))) (at d o p2)
        (at d (o + 2) p3) tt run3 in
    let ag1' = Agrees-less o (o + 2) p1 d.payload (omega arith) ag1 in
    let ag2' = Agrees-less o mid p2 p1 (omega arith) ag2 in
    (p3, counted ∙ (listed ∙ filled), (ag3.0 ∙ (ag2'.0 ∙ ag1'.0), ag3.1 ∙ (ag2'.1 ∙ ag1'.1)), size3)

module _ (le : Bool) (a b c rid : ℕ) (fa : FitsIn 4 a) (fb : FitsIn 4 b) (fc : FitsIn 4 c)
    (fr : FitsIn 4 rid) (d : Ndr) (m : Mode le d) (small : length d.payload < 2 ^ 63) where
  sized_list-runs :
      d.offset % 4 ≡ 2
      → d.offset + (6 + dacl_size rid) ≤ length d.payload
      → (p : List ℕ) × (sized_list (a ∷ b ∷ c ∷ []) rid d
          ≡ (some (20 + (dacl_size rid + 8)), at d (d.offset + (6 + dacl_size rid)) p))
        × Agrees d.offset p d.payload
        × (take 2 (drop d.offset p) ≡ int_octets le 2 (dacl_size rid + 8))
  sized_list-runs mult room =
      let o : ℕ = d.offset in
      let e4 : align 4 (o + 2) + 4 ≡ o + 6 = omega arith in
      let e5 : dacl_end rid (align 4 (o + 2) + 4) ≡ o + (6 + dacl_size rid) =
        ap (dacl_end rid) e4 ∙ (dacl_end_lem rid (o + 6) (omega arith) ∙ omega arith) in
      let (p1, run1, ag1) =
        (Writes-int32 {le = le} 4).runs (at d (o + 2) d.payload) m (omega (arith, e4)) small in
      let (p2, run2, ag2) =
        (Writes-set_dacl a b c fa fb fc {le = le} rid fr).runs (at d (align 4 (o + 2) + 4) p1) m
          (omega (arith, e5, ag1.0)) (omega (arith, ag1.0)) in
      let (p, run, ag, size) =
        fill-runs le (a ∷ b ∷ c ∷ []) rid (dacl_size rid) (align 4 (o + 2) + 4)
          (dacl_end rid (align 4 (o + 2) + 4)) d p1 p2 m (omega arith) (omega arith)
          (omega (arith, e4)) small run1 ag1 run2 ag2 in
      (p, run ∙ ap (λ (i : ℕ). (some (20 + (dacl_size rid + 8)), at d i p)) e5, ag, size)

-- the octets of a descriptor: a `rid` of 0 is left out
unfoldable pub secdesclen : ℕ → ℕ
secdesclen rid = if rid == 0 then 128 else 132

secdesclen_lem : (rid : ℕ) → 20 + (dacl_size rid + 8) ≡ secdesclen rid
unfolding secdesclen dacl_size owner_subauths
secdesclen_lem rid = ground arith

-- At a multiple of four with room for 132 octets (128 for the `rid` 0), in either order of octets and for any
-- generated sub-authorities and `rid` of 32 bits, a descriptor is written with success. Its length
-- is that number, the offset moves by it, what stands before it is left alone, and the size of the
-- access control list, at octet 22, is the length less the 20 octets before the list.
pub build_sec_desc_lem :
    (le : Bool) (a b c rid : ℕ) (d : Ndr)
    → FitsIn 4 a
    → FitsIn 4 b
    → FitsIn 4 c
    → FitsIn 4 rid
    → Mode le d
    → length d.payload < 2 ^ 63
    → d.offset % 4 ≡ 0
    → d.offset + secdesclen rid ≤ length d.payload
    → (p : List ℕ) × (build_sec_desc (a ∷ b ∷ c ∷ []) rid d
        ≡ (some (secdesclen rid), at d (d.offset + secdesclen rid) p))
      × Agrees d.offset p d.payload
      × (take 2 (drop (d.offset + 22) p) ≡ int_octets le 2 (secdesclen rid - 20))
build_sec_desc_lem le a b c rid d fa fb fc fr m small mult room =
    let gen : List ℕ = a ∷ b ∷ c ∷ [] in
    let total = secdesclen_lem rid in
    let e : fields_end d.offset ≡ d.offset + 22 = fields_end_lem d.offset mult in
    let (p1, run1, ag1) =
      (Writes-fixed_fields {le = le}).runs d m (omega (arith, e, total)) small in
    let (p, run2, ag2, size) =
      sized_list-runs le a b c rid fa fb fc fr (at d (d.offset + 22) p1) m (omega (arith, ag1.0))
        (omega arith) (omega (arith, total, ag1.0)) in
    let ag2' = Agrees-less d.offset (d.offset + 22) p p1 (omega arith) ag2 in
    let front : fixed_fields d ≡ (some tt, at d (d.offset + 22) p1) =
      run1 ∙ ap (λ (i : ℕ). (some tt, at d i p1)) e in
    let end : d.offset + 22 + (6 + dacl_size rid) ≡ d.offset + secdesclen rid =
      omega (arith, total) in
    (
      p,
      sym (build_sec_desc-parts gen rid d)
          ∙ (bind-some fixed_fields (λ _. sized_list gen rid) d (at d (d.offset + 22) p1) tt front
              ∙ (run2
                  ∙ (ap (λ (n : ℕ). (some n, at d (d.offset + 22 + (6 + dacl_size rid)) p)) total
                      ∙ ap (λ (i : ℕ). (some (secdesclen rid), at d i p)) end))),
      (ag2'.0 ∙ ag1.0, ag2'.1 ∙ ag1.1),
      size ∙ ap (int_octets le 2) (omega (arith, total)),
    )
