-- ===== src/Rpc/Syntax/RoundTrip.antt =====
-- Round trip of an interface's syntax through `__dcerpc_write_syntax` and `__dcerpc_read_syntax` of
-- mountd/rpc.c.
use ksmbd_tools.Base.{ℕ, ◌+◌, ◌%◌, ◌^◌, ◌≤◌, ◌<◌, ◌≡◌, refl, ap, ◌∙◌, arith}
use ksmbd_tools.Base.{Bool, some, List, length}
use mathlib.Core.Path.{subst}
use ksmbd_tools.Rpc.Ndr.{
  Ndr, Action, ◌>>=◌, ◌>>◌, return, align, ndr_read_int, ndr_write_int, ndr_write_bytes,
  ndr_read_bytes,
}
use ksmbd_tools.Rpc.Ndr.Octets.{FitsIn}
use ksmbd_tools.Rpc.Ndr.Writes.{
  Mode, Agrees, at, Writes, Writes-int, Writes-int16, Writes-bytes, Writes-seq,
}
use ksmbd_tools.Rpc.Ndr.RoundTrip.{
  Reads, Reads-int, Reads-bytes, Reads-seq, Reads-then, written-back,
}
use ksmbd_tools.Rpc.Syntax.{Syntax, read_syntax, write_syntax}

pub record WfSyntax (s : Syntax) : Type 0 where
  pub time_low_fits : FitsIn 4 s.time_low
  pub time_mid_fits : FitsIn 2 s.time_mid
  pub time_hi_fits : FitsIn 2 s.time_hi_and_version
  pub clock_seq_size : length s.clock_seq ≡ 2
  pub node_size : length s.node ≡ 6
  pub ver_major_fits : FitsIn 2 s.ver_major
  pub ver_minor_fits : FitsIn 2 s.ver_minor

-- octets whose number is known by another name
module _ {le : Bool} (n : ℕ) (bs : List ℕ) (e : length bs ≡ n) where
  Writes-octets : Writes le (ndr_write_bytes bs) tt (λ o. align 2 o + n)
  Writes-octets =
      subst (λ (i : ℕ). Writes le (ndr_write_bytes bs) tt (λ o. align 2 o + i)) e (Writes-bytes bs)

  Reads-octets : Reads le (ndr_write_bytes bs) (ndr_read_bytes n) bs (λ o. align 2 o + n)
  Reads-octets =
      subst (λ (i : ℕ). Reads le (ndr_write_bytes bs) (ndr_read_bytes i) bs (λ o. align 2 o + i)) e
        (Reads-bytes bs)

-- an integer, and what follows
module _ {le : Bool} (n : ℕ) (fw : (o : ℕ) → o ≤ align n o) (v : ℕ) (w : Action (Unit {0}))
    (g : ℕ → ℕ) (hw : Writes le w tt g) where
  Writes-next : Writes le (ndr_write_int n v >> w) tt (λ o. g (align n o + n))
  Writes-next =
      Writes-seq (ndr_write_int n v) (λ _. w) tt tt (λ o. align n o + n) g (Writes-int n v fw) hw

  Reads-next :
      {B : Type 0} (f : ℕ → Action B) (b : B)
      → FitsIn n v
      → Reads le w (f v) b g
      → Reads le (ndr_write_int n v >> w) (ndr_read_int n >>= f) b (λ o. g (align n o + n))
  Reads-next f b fits =
      Reads-seq (ndr_write_int n v) w (ndr_read_int n) v f b (λ o. align n o + n) g
        (Writes-int n v fw) hw (Reads-int n v fits)

-- where a syntax ends
pub syntax_end : ℕ → ℕ
syntax_end o =
    align 2 (align 2 (align 2 (align 2 (align 2 (align 2 (align 4 o + 4) + 2) + 2) + 2) + 6) + 2)
    + 2

syntax_end_lem : (o : ℕ) → o % 4 ≡ 0 → syntax_end o ≡ o + 20
unfolding syntax_end
syntax_end_lem o h = omega arith

-- the parts of the write, from the last to the first
abbrev versions : Syntax → Action (Unit {0})
versions s = ndr_write_int 2 s.ver_major >> ndr_write_int 2 s.ver_minor

abbrev nodes : Syntax → Action (Unit {0})
nodes s = ndr_write_bytes s.clock_seq >> (ndr_write_bytes s.node >> versions s)

abbrev times : Syntax → Action (Unit {0})
times s = ndr_write_int 2 s.time_mid >> (ndr_write_int 2 s.time_hi_and_version >> nodes s)

abbrev versions_end : ℕ → ℕ
versions_end o = align 2 (align 2 o + 2) + 2

abbrev nodes_end : ℕ → ℕ
nodes_end o = versions_end (align 2 (align 2 o + 2) + 6)

abbrev times_end : ℕ → ℕ
times_end o = nodes_end (align 2 (align 2 o + 2) + 2)

even : (o : ℕ) → o ≤ align 2 o
even o = omega arith

-- the read, from its last part to its first
abbrev made : ℕ → ℕ → ℕ → List ℕ → List ℕ → ℕ → ℕ → Syntax
made a b c e n v u = record {
  time_low = a;
  time_mid = b;
  time_hi_and_version = c;
  clock_seq = e;
  node = n;
  ver_major = v;
  ver_minor = u;
}

abbrev read_nodes : ℕ → ℕ → ℕ → Action Syntax
read_nodes a b c = ndr_read_bytes 2 >>= (λ e.
    ndr_read_bytes 6
    >>= (λ n. ndr_read_int 2 >>= (λ v. ndr_read_int 2 >>= (λ u. return (made a b c e n v u)))))

module _ {le : Bool} (s : Syntax) (wf : WfSyntax s) where
  Writes-versions : Writes le (versions s) tt versions_end
  Writes-versions =
      Writes-next 2 even s.ver_major (ndr_write_int 2 s.ver_minor) (λ o. align 2 o + 2)
        (Writes-int16 s.ver_minor)

  Writes-node :
      Writes le (ndr_write_bytes s.node >> versions s) tt (λ o. versions_end (align 2 o + 6))
  Writes-node =
      Writes-seq (ndr_write_bytes s.node) (λ _. versions s) tt tt (λ o. align 2 o + 6) versions_end
        (Writes-octets 6 s.node wf.node_size) Writes-versions

  Writes-nodes : Writes le (nodes s) tt nodes_end
  Writes-nodes =
      Writes-seq (ndr_write_bytes s.clock_seq) (λ _. ndr_write_bytes s.node >> versions s) tt tt
        (λ o. align 2 o + 2) (λ o. versions_end (align 2 o + 6))
        (Writes-octets 2 s.clock_seq wf.clock_seq_size) Writes-node

  Writes-hi :
      Writes le
        (ndr_write_int 2 s.time_hi_and_version >> nodes s)
        tt
        (λ o. nodes_end (align 2 o + 2))
  Writes-hi = Writes-next 2 even s.time_hi_and_version (nodes s) nodes_end Writes-nodes

  Writes-times : Writes le (times s) tt times_end
  Writes-times =
      Writes-next 2 even s.time_mid (ndr_write_int 2 s.time_hi_and_version >> nodes s)
        (λ o. nodes_end (align 2 o + 2)) Writes-hi

  pub Writes-syntax : Writes le (write_syntax s) tt syntax_end
  unfolding write_syntax syntax_end
  Writes-syntax = Writes-next 4 (λ o. omega arith) s.time_low (times s) times_end Writes-times

  Reads-versions :
      Reads le
        (versions s)
        (ndr_read_int 2 >>= (λ v. ndr_read_int 2 >>= (λ u.
          return (made s.time_low s.time_mid s.time_hi_and_version s.clock_seq s.node v u))))
        s
        versions_end
  Reads-versions =
      Reads-next 2 even s.ver_major (ndr_write_int 2 s.ver_minor) (λ o. align 2 o + 2)
        (Writes-int16 s.ver_minor)
        (λ v. ndr_read_int 2 >>= (λ u.
          return (made s.time_low s.time_mid s.time_hi_and_version s.clock_seq s.node v u)))
        s wf.ver_major_fits
        (Reads-then (ndr_write_int 2 s.ver_minor) (ndr_read_int 2) s.ver_minor (λ o. align 2 o + 2)
          (λ u.
            return
              (made s.time_low s.time_mid s.time_hi_and_version s.clock_seq s.node s.ver_major u))
          s (λ d. refl) (Reads-int 2 s.ver_minor wf.ver_minor_fits))

  Reads-nodes :
      Reads le (nodes s) (read_nodes s.time_low s.time_mid s.time_hi_and_version) s nodes_end
  Reads-nodes =
      Reads-seq (ndr_write_bytes s.clock_seq) (ndr_write_bytes s.node >> versions s)
        (ndr_read_bytes 2) s.clock_seq
        (λ e. ndr_read_bytes 6 >>= (λ n. ndr_read_int 2 >>= (λ v.
          ndr_read_int 2
          >>= (λ u. return (made s.time_low s.time_mid s.time_hi_and_version e n v u)))))
        s (λ o. align 2 o + 2) (λ o. versions_end (align 2 o + 6))
        (Writes-octets 2 s.clock_seq wf.clock_seq_size) Writes-node
        (Reads-octets 2 s.clock_seq wf.clock_seq_size)
        (Reads-seq (ndr_write_bytes s.node) (versions s) (ndr_read_bytes 6) s.node
          (λ n. ndr_read_int 2 >>= (λ v.
            ndr_read_int 2
            >>= (λ u. return (made s.time_low s.time_mid s.time_hi_and_version s.clock_seq n v u))))
          s (λ o. align 2 o + 6) versions_end (Writes-octets 6 s.node wf.node_size) Writes-versions
          (Reads-octets 6 s.node wf.node_size) Reads-versions)

  pub Reads-syntax : Reads le (write_syntax s) read_syntax s syntax_end
  unfolding write_syntax read_syntax syntax_end
  Reads-syntax =
      Reads-next 4 (λ o. omega arith) s.time_low (times s) times_end Writes-times
        (λ a. ndr_read_int 2 >>= (λ b. ndr_read_int 2 >>= (λ c. read_nodes a b c))) s
        wf.time_low_fits
        (Reads-next 2 even s.time_mid (ndr_write_int 2 s.time_hi_and_version >> nodes s)
          (λ o. nodes_end (align 2 o + 2)) Writes-hi
          (λ b. ndr_read_int 2 >>= (λ c. read_nodes s.time_low b c)) s wf.time_mid_fits
          (Reads-next 2 even s.time_hi_and_version (nodes s) nodes_end Writes-nodes
            (λ c. read_nodes s.time_low s.time_mid c) s wf.time_hi_fits Reads-nodes))

-- A syntax that fits its fields takes 20 octets at a multiple of four wherever these have room, in either
-- order of octets, and leaves alone what stands before them. A read at the same place gives it back and ends
-- at the same place.
pub read_syntax-write_syntax :
    (le : Bool) (s : Syntax) (d : Ndr)
    → WfSyntax s
    → Mode le d
    → d.offset % 4 ≡ 0
    → d.offset + 20 ≤ length d.payload
    → length d.payload < 2 ^ 63
    → (p : List ℕ) × (write_syntax s d ≡ (some tt, at d (d.offset + 20) p))
      × Agrees d.offset p d.payload
      × (read_syntax (at d d.offset p) ≡ (some s, at d (d.offset + 20) p))
read_syntax-write_syntax le s d wf m mult room small =
    let e = syntax_end_lem d.offset mult in
    let (p, run, ag, back) =
      written-back (write_syntax s) read_syntax s syntax_end (Writes-syntax {le = le} s wf)
        (Reads-syntax {le = le} s wf) d m (omega (arith, e)) small in
    (
      p,
      run ∙ ap (λ (o : ℕ). (some tt, at d o p)) e,
      ag,
      back ∙ ap (λ (o : ℕ). (some s, at d o p)) e,
    )
