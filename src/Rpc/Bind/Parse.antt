-- ===== src/Rpc/Bind/Parse.antt =====
-- What a bind that is read holds: `dcerpc_parse_bind_req` of mountd/rpc.c.
use ksmbd_tools.Base.{ℕ, zero, suc, ◌≤◌, ◌≡◌, ◌⊎◌, inl, inr, refl, ap, arith, ◌==◌, not}
use ksmbd_tools.Base.{Bool, true, false, [], ◌∷◌, length, All}
use ksmbd_tools.Rpc.Ndr.{
  Action, ◌>>=◌, ◌>>◌, return, guard, auto_align_offset, progress, ndr_read_int,
}
use ksmbd_tools.Rpc.Ndr.Ends.{
  Ends, Returns, Ends-bind, Ends-then, Ends-guard, Returns-progress, Returns-progress_of,
  Returns-auto,
}
use ksmbd_tools.Rpc.Syntax.{read_syntax}
use ksmbd_tools.Rpc.Bind.{
  Context, BindRequest, read_syntaxes, read_context, read_contexts, dcerpc_parse_bind_req,
  dcerpc_bind_req_free,
}

-- as many transfer syntaxes as it says, and at least one
abbrev pub IsWhole : Context → Type 0
IsWhole c = (length c.transfer_syntaxes ≡ c.num_syntaxes) × (1 ≤ c.num_syntaxes)

abbrev pub Whole : BindRequest → Type 0
Whole b = (length b.list ≡ b.num_contexts) × All IsWhole b.list

Ends-read_syntaxes : (n : ℕ) → Ends (read_syntaxes n) (λ l. length l ≡ n)
unfolding read_syntaxes
Ends-read_syntaxes zero = λ d. refl
Ends-read_syntaxes (suc n) =
    Ends-then read_syntax (λ s. read_syntaxes n >>= (λ ss. return (s ∷ ss))) (λ l. length l ≡ suc n)
      (λ s.
        Ends-bind (read_syntaxes n) (λ ss. return (s ∷ ss)) (λ l. length l ≡ n)
          (λ l. length l ≡ suc n) (Ends-read_syntaxes n) (λ l h d. ap suc h))

Ends-read_context : Ends read_context IsWhole
unfolding read_context
Ends-read_context =
    Ends-then (ndr_read_int 2)
      (λ id. ndr_read_int 1 >>= (λ n.
        guard (not (n == 0))
        >> (read_syntax >>= (λ s. read_syntaxes n >>= (λ ts.
            return (record {
              id = id;
              num_syntaxes = n;
              abstract_syntax = s;
              transfer_syntaxes = ts;
            }))))))
      IsWhole
      (λ id.
        Ends-then (ndr_read_int 1)
          (λ n.
            guard (not (n == 0))
            >> (read_syntax >>= (λ s. read_syntaxes n >>= (λ ts. return (record {
              id = id;
              num_syntaxes = n;
              abstract_syntax = s;
              transfer_syntaxes = ts;
            })))))
          IsWhole
          (λ n.
            Ends-bind (guard (not (n == 0)))
              (λ u. read_syntax >>= (λ s. read_syntaxes n >>= (λ ts. return (record {
                id = id;
                num_syntaxes = n;
                abstract_syntax = s;
                transfer_syntaxes = ts;
              }))))
              (λ u. not (n == 0) ≡ true) IsWhole (Ends-guard (not (n == 0)))
              (λ u some_syntax.
                Ends-then read_syntax
                  (λ s. read_syntaxes n >>= (λ ts. return (record {
                    id = id;
                    num_syntaxes = n;
                    abstract_syntax = s;
                    transfer_syntaxes = ts;
                  })))
                  IsWhole
                  (λ s.
                    Ends-bind (read_syntaxes n)
                      (λ ts. return (record {
                        id = id;
                        num_syntaxes = n;
                        abstract_syntax = s;
                        transfer_syntaxes = ts;
                      }))
                      (λ ts. length ts ≡ n) IsWhole (Ends-read_syntaxes n)
                      (λ ts h d. (h, ground arith))))))

Ends-read_contexts : (n : ℕ) → Ends (read_contexts n) (λ l. (length l ≡ n) × All IsWhole l)
unfolding read_contexts
Ends-read_contexts zero = λ d. (refl, tt)
Ends-read_contexts (suc n) =
    Ends-bind read_context (λ c. read_contexts n >>= (λ cs. return (c ∷ cs))) IsWhole
      (λ l. (length l ≡ suc n) × All IsWhole l) Ends-read_context
      (λ c h.
        Ends-bind (read_contexts n) (λ cs. return (c ∷ cs)) (λ l. (length l ≡ n) × All IsWhole l)
          (λ l. (length l ≡ suc n) × All IsWhole l) (Ends-read_contexts n)
          (λ l k d. (ap suc k.0, (h, k.1))))

-- What is left of `h`: a whole request with these flags, or one with no context, or with those that `h` has.
abbrev pub Left : ℕ → BindRequest → Bool × BindRequest → Type 0
Left flags h (true, b) = Whole b × (b.flags ≡ flags)
Left flags h (false, b) =
    ((b.num_contexts ≡ 0) × (b.list ≡ [])) ⊎ ((b.num_contexts ≡ h.num_contexts) × (b.list ≡ h.list))

-- the rest of the parsing, from the end
abbrev listed : BindRequest → ℕ → Action (Bool × BindRequest)
listed b n =
    progress (read_contexts n) (false, record b { num_contexts = 0; list = [] })
      (λ l. return (true, record b { num_contexts = n; list = l }))

abbrev after_count : BindRequest → ℕ → Action (Bool × BindRequest)
after_count b n = auto_align_offset >> listed b n

abbrev after_assoc : BindRequest → Action (Bool × BindRequest)
after_assoc b = progress (ndr_read_int 1) (false, b) (after_count b)

abbrev after_recv : BindRequest → Action (Bool × BindRequest)
after_recv b =
    progress (ndr_read_int 4) (false, b) (λ z. after_assoc (record b { assoc_group_id = z }))

abbrev after_xmit : BindRequest → Action (Bool × BindRequest)
after_xmit b =
    progress (ndr_read_int 2) (false, b) (λ y. after_recv (record b { max_recv_frag_sz = y }))

Returns-after_count :
    (flags : ℕ) (h b : BindRequest) (n : ℕ)
    → b.flags ≡ flags
    → Returns (after_count b n) (Left flags h)
Returns-after_count flags h b n e = Returns-auto (listed b n) (Left flags h) (
    Returns-progress_of (read_contexts n)
      (λ l. return (true, record b { num_contexts = n; list = l })) (Left flags h)
      (λ l. (length l ≡ n) × All IsWhole l) (false, record b { num_contexts = 0; list = [] })
      (Ends-read_contexts n) (inl (refl, refl)) (λ l w d. (w, e)))

-- The reading of a bind always comes to an end. Where it succeeds, the request has as many contexts as it says, each
-- context has as many transfer syntaxes as it says and at least one, and the flags are those of the
-- command. Where it fails, the request has no context, or those that it had before.
pub Returns-dcerpc_parse_bind_req :
    (flags : ℕ) (h : BindRequest) → Returns (dcerpc_parse_bind_req flags h) (Left flags h)
unfolding dcerpc_parse_bind_req dcerpc_bind_req_free
Returns-dcerpc_parse_bind_req flags h =
    let h0 : BindRequest = record h { flags = flags } in
    let stays : Left flags h (false, h) = inr (refl, refl) in
    Returns-progress (ndr_read_int 2) (λ x. after_xmit (record h0 { max_xmit_frag_sz = x }))
      (Left flags h) (false, h0) stays
      (λ x.
        Returns-progress (ndr_read_int 2)
          (λ y. after_recv (record h0 { max_xmit_frag_sz = x; max_recv_frag_sz = y }))
          (Left flags h) (false, record h0 { max_xmit_frag_sz = x }) stays
          (λ y.
            Returns-progress (ndr_read_int 4)
              (λ z.
                after_assoc
                  (record h0 { max_xmit_frag_sz = x; max_recv_frag_sz = y; assoc_group_id = z }))
              (Left flags h) (false, record h0 { max_xmit_frag_sz = x; max_recv_frag_sz = y }) stays
              (λ z.
                Returns-progress (ndr_read_int 1)
                  (λ n.
                    after_count
                      (record h0 { max_xmit_frag_sz = x; max_recv_frag_sz = y; assoc_group_id = z })
                      n)
                  (Left flags h)
                  (
                    false,
                    record h0 { max_xmit_frag_sz = x; max_recv_frag_sz = y; assoc_group_id = z },
                  )
                  stays
                  (λ n.
                    Returns-after_count flags h
                      (record h0 { max_xmit_frag_sz = x; max_recv_frag_sz = y; assoc_group_id = z })
                      n refl))))
