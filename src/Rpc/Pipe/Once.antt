-- ===== src/Rpc/Pipe/Once.antt =====
-- A request that is written to a pipe of mountd/rpc.c is answered once, but where the answer itself sets
-- RETURN_READY again.
use ksmbd_tools.Base.{
  ℕ, ◌≡◌, ◌≢◌, inl, inr, refl, sym, ◌∙◌, ap, arith, ◌==◌, true, false, some, List, [], ◌∷◌, All,
  ltb, length, Bool-cases, Option-cases,
}
use mathlib.Core.Path.{subst}
use ksmbd_tools.Rpc.Bind.{Status, dcerpc_bind_return}
use ksmbd_tools.Rpc.Pipe.{
  Pipe, Dce, is_bind, bind_reply, dcerpc_set_ext_payload, Command, Services, Reply, nothing,
  rpc_pipe_lookup, set_pipe, rpc_write_request, rpc_read_request, rpc_ioctl_request, ioctl_read,
  consume, consumed, is_ok, invoke, answer,
}
use ksmbd_tools.Rpc.Pipe.Table.{lookup-set_same}
use ksmbd_tools.Rpc.Pipe.Branches.{
  write_ready, write_there, read_taken, read_early, read_there, ioctl_short, ioctl_absent,
  ioctl_there,
}
use ksmbd_tools.Rpc.Pipe.Wf.{lookup-cases}
use ksmbd_tools.Rpc.Pipe.Isolated.{
  Request, open_pipe, close_pipe, write_pipe, read_pipe, ioctl_pipe, handle_of, serve, serve_all,
  serve-Kept,
}

-- a read, or a request on another handle
abbrev pub IsQuiet : ℕ → Request → Type 0
IsQuiet id (open_pipe c) = id ≢ c.handle
IsQuiet id (close_pipe c) = id ≢ c.handle
IsQuiet id (write_pipe c) = id ≢ c.handle
IsQuiet id (read_pipe c resp) = Unit {0}
IsQuiet id (ioctl_pipe c resp) = id ≢ c.handle

module _ {State : Type 0} where
  -- no reply waits
  abbrev Silent : ℕ → List (ℕ × Pipe State) → Type 0
  Silent id t = (q : Pipe State) × (rpc_pipe_lookup id t ≡ some q) × (q.return_ready ≡ false)

  Silent-set :
      (id : ℕ) (p q : Pipe State) (t : List (ℕ × Pipe State))
      → rpc_pipe_lookup id t ≡ some p
      → q.return_ready ≡ false
      → Silent id (set_pipe id q t)
  Silent-set id p q t e f = (q, lookup-set_same id p q t e, f)

module _ {State : Type 0} (services : Services State) where
  -- A read that does not set RETURN_READY again leaves no reply.
  read-Silent :
      (c : Command) (resp : List ℕ) (t : List (ℕ × Pipe State)) (p : Pipe State)
      → rpc_pipe_lookup c.handle t ≡ some p
      → (p.return_ready ≡ true → (answer services c resp p.dce).1 ≡ false)
      → Silent c.handle (rpc_read_request services c resp t).1
  read-Silent c resp t p e last = elim (Bool-cases p.ioctl_reply_consumed) [
    | inl r ↦
        subst (λ (r : Reply × List (ℕ × Pipe State)). Silent c.handle r.1)
          (sym (read_taken services c t resp p e r))
          (Silent-set c.handle p (record p { return_ready = false }) t e refl)
    | inr r ↦ elim (Bool-cases p.return_ready) [
      | inl q ↦
          subst (λ (r : Reply × List (ℕ × Pipe State)). Silent c.handle r.1)
            (sym (read_there services c t resp p e r q))
            (Silent-set c.handle p
              (record p {
                return_ready = (answer services c resp p.dce).1;
                dce = (answer services c resp p.dce).2;
              })
              t e (last q))
      | inr q ↦
          subst (λ (r : Reply × List (ℕ × Pipe State)). Silent c.handle r.1)
            (sym (read_early services c t resp p e r q)) (p, e, q)
    ]
  ]

  nothing-Silent :
      (c : Command) (resp : List ℕ) (t : List (ℕ × Pipe State))
      → Silent c.handle t
      → (rpc_read_request services c resp t).0 ≡ nothing services Status.ok resp
  nothing-Silent c resp t (p, e, f) = elim (Bool-cases p.ioctl_reply_consumed) [
    | inl r ↦ ap (λ (r : Reply × List (ℕ × Pipe State)). r.0) (read_taken services c t resp p e r)
    | inr r ↦ ap (λ (r : Reply × List (ℕ × Pipe State)). r.0) (read_early services c t resp p e r f)
  ]

  other-Silent :
      (id : ℕ) (r : Request) (t : List (ℕ × Pipe State))
      → id ≢ handle_of r
      → Silent id t
      → Silent id (serve services r t)
  other-Silent id r t h (q, e, f) = (q, (serve-Kept services r t).1 id h ∙ e, f)

  serve-Silent :
      (id : ℕ) (r : Request) (t : List (ℕ × Pipe State))
      → IsQuiet id r
      → Silent id t
      → Silent id (serve services r t)
  unfolding serve
  serve-Silent id (open_pipe c) t h s = other-Silent id (open_pipe c) t h s
  serve-Silent id (close_pipe c) t h s = other-Silent id (close_pipe c) t h s
  serve-Silent id (write_pipe c) t h s = other-Silent id (write_pipe c) t h s
  serve-Silent id (ioctl_pipe c resp) t h s = other-Silent id (ioctl_pipe c resp) t h s
  serve-Silent id (read_pipe c resp) t h s = elim (Bool-cases (id == c.handle)) [
    | inl e ↦
        let same : id ≡ c.handle = ground arith in
        subst (λ (i : ℕ). Silent i (rpc_read_request services c resp t).1) (sym same)
          (let (q, f, g) = s in
            read-Silent c resp t q (ap (λ (i : ℕ). rpc_pipe_lookup i t) (sym same) ∙ f)
              (λ r. absurd (ground arith)))
    | inr e ↦ other-Silent id (read_pipe c resp) t (ground arith) s
  ]

  serve_all-Silent :
      (id : ℕ) (rs : List Request) (t : List (ℕ × Pipe State))
      → All (IsQuiet id) rs
      → Silent id t
      → Silent id (serve_all services rs t)
  unfolding serve_all
  serve_all-Silent id [] t h s = s
  serve_all-Silent id (r ∷ rs) t (h, hs) s =
      serve_all-Silent id rs (serve services r t) hs (serve-Silent id r t h s)

  bind_reply-last : (dce : Dce State) → (bind_reply services dce).1 ≡ false
  unfolding bind_reply
  bind_reply-last dce = elim (Option-cases (dcerpc_bind_return dce.hdr dce.bi_req dce.ndr).0) [
    | inl e ↦ rw (bind_reply, e) refl
    | inr (a, e) ↦ rw (bind_reply, e) refl
  ]

  -- The answer to a bind does not set RETURN_READY again.
  pub answer-last :
      (c : Command) (resp : List ℕ) (dce : Dce State)
      → is_bind dce.hdr.ptype ≡ true
      → (answer services c resp dce).1 ≡ false
  unfolding answer
  answer-last c resp dce e =
      rw (e, answer) (bind_reply-last (record dce { ndr = dcerpc_set_ext_payload resp dce.ndr }))

  -- Behind a read of an open pipe whose answer does not set RETURN_READY again, and then any reads
  -- and any requests on other handles, a read of the same handle has status OK, sets no size and
  -- leaves its buffer as it is.
  pub nothing-rpc_read_request :
      (c c' : Command) (resp resp' : List ℕ) (rs : List Request) (t : List (ℕ × Pipe State))
      (p : Pipe State)
      → rpc_pipe_lookup c.handle t ≡ some p
      → (answer services c resp p.dce).1 ≡ false
      → c'.handle ≡ c.handle
      → All (IsQuiet c.handle) rs
      → (rpc_read_request services c' resp'
          (serve_all services rs (rpc_read_request services c resp t).1)).0
        ≡ nothing services Status.ok resp'
  nothing-rpc_read_request c c' resp resp' rs t p e last same quiet =
      let t' : List (ℕ × Pipe State) =
        serve_all services rs (rpc_read_request services c resp t).1 in
      nothing-Silent c' resp' t' (
        subst (λ (i : ℕ). Silent i t') (sym same)
          (serve_all-Silent c.handle rs (rpc_read_request services c resp t).1 quiet
            (read-Silent c resp t p e (λ r. last))))

  abbrev Taken : ℕ → Reply × List (ℕ × Pipe State) → Type 0
  Taken id r = is_ok r.0.status ≡ true → Silent id r.1

  refused_ok :
      (id : ℕ) (reply : Reply) (t : List (ℕ × Pipe State))
      → is_ok reply.status ≡ false
      → Taken id (reply, t)
  refused_ok id reply t e h = elim (wrong e h) [ ]
    where
      wrong : is_ok reply.status ≡ false → is_ok reply.status ≡ true → ⊥
      wrong e h = cc

  consume-Taken :
      (id : ℕ) (reply : Reply) (t : List (ℕ × Pipe State)) (p : Pipe State)
      → rpc_pipe_lookup id t ≡ some p
      → Taken id (consume services id (reply, t))
  consume-Taken id reply t p e = elim (Bool-cases (is_ok reply.status)) [
    | inl o ↦ rw (o, e) (λ h. Silent-set id p (consumed services p) t e refl)
    | inr o ↦ rw o (refused_ok id reply t o)
  ]

  read_stays :
      (c : Command) (resp : List ℕ) (t : List (ℕ × Pipe State)) (p : Pipe State)
      → rpc_pipe_lookup c.handle t ≡ some p
      → (q : Pipe State) × (rpc_pipe_lookup c.handle (rpc_read_request services c resp t).1
          ≡ some q)
  read_stays c resp t p e = elim (Bool-cases p.ioctl_reply_consumed) [
    | inl r ↦
        let q : Pipe State = record p { return_ready = false } in
        rw (read_taken services c t resp p e r) (q, lookup-set_same c.handle p q t e)
    | inr r ↦ elim (Bool-cases p.return_ready) [
      | inl f ↦
          let q : Pipe State = record p {
            return_ready = (answer services c resp p.dce).1;
            dce = (answer services c resp p.dce).2;
          } in
          rw (read_there services c t resp p e r f) (q, lookup-set_same c.handle p q t e)
      | inr f ↦ rw (read_early services c t resp p e r f) (p, e)
    ]
  ]

  ioctl_read-Taken :
      (c : Command) (resp : List ℕ) (status : Status) (t : List (ℕ × Pipe State)) (p : Pipe State)
      → rpc_pipe_lookup c.handle t ≡ some p
      → Taken c.handle (ioctl_read services c resp (status, t))
  ioctl_read-Taken c resp status t p e = elim (Bool-cases (is_ok status)) [
    | inl o ↦
        let (q, f) = read_stays c resp t p e in
        rw o (
          consume-Taken c.handle (rpc_read_request services c resp t).0
            (rpc_read_request services c resp t).1 q f)
    | inr o ↦ rw o (refused_ok c.handle (nothing services status resp) t o)
  ]

  write_stays :
      (c : Command) (t : List (ℕ × Pipe State)) (p : Pipe State)
      → rpc_pipe_lookup c.handle t ≡ some p
      → (q : Pipe State) × (rpc_pipe_lookup c.handle (rpc_write_request services c t).1 ≡ some q)
  write_stays c t p e = elim (Bool-cases p.return_ready) [
    | inl r ↦ (
      p,
      subst (λ (x : Status × List (ℕ × Pipe State)). rpc_pipe_lookup c.handle x.1 ≡ some p)
          (sym (write_ready services c t p e r)) e,
    )
    | inr r ↦
        let q : Pipe State = record p {
          ioctl_reply_consumed = false;
          return_ready = true;
          dce = (invoke services c p.dce).1;
        } in
        (
          q,
          subst (λ (x : Status × List (ℕ × Pipe State)). rpc_pipe_lookup c.handle x.1 ≡ some q)
              (sym (write_there services c t p e r)) (lookup-set_same c.handle p q t e),
        )
  ]

  ioctl-Taken :
      (c : Command) (resp : List ℕ) (t : List (ℕ × Pipe State))
      → Taken c.handle (rpc_ioctl_request services c resp t)
  ioctl-Taken c resp t = elim (Bool-cases (ltb (length c.payload) 16)) [
    | inl s ↦
        subst (Taken c.handle) (sym (ioctl_short services c t resp s))
          (refused_ok c.handle (nothing services Status.bad_data resp) t refl)
    | inr s ↦ elim (lookup-cases c.handle t) [
      | inl e ↦
          subst (Taken c.handle) (sym (ioctl_absent services c t resp s e))
            (refused_ok c.handle (nothing services Status.bad_fid resp) t refl)
      | inr (p, e) ↦
          let (q, f) = write_stays c t p e in
          subst (Taken c.handle) (sym (ioctl_there services c t resp p s e)) (
            ioctl_read-Taken c resp (rpc_write_request services c t).0
              (rpc_write_request services c t).1 q f)
    ]
  ]

  -- Behind an ioctl whose status is OK, and then any reads and any requests on other handles, a
  -- read of the same handle has status OK, sets no size and leaves its buffer as it is: the reply
  -- that the ioctl brought back is not made again.
  pub nothing-rpc_ioctl_request :
      (c c' : Command) (resp resp' : List ℕ) (rs : List Request) (t : List (ℕ × Pipe State))
      → is_ok (rpc_ioctl_request services c resp t).0.status ≡ true
      → c'.handle ≡ c.handle
      → All (IsQuiet c.handle) rs
      → (rpc_read_request services c' resp'
          (serve_all services rs (rpc_ioctl_request services c resp t).1)).0
        ≡ nothing services Status.ok resp'
  nothing-rpc_ioctl_request c c' resp resp' rs t o same quiet =
      let t' : List (ℕ × Pipe State) =
        serve_all services rs (rpc_ioctl_request services c resp t).1 in
      nothing-Silent c' resp' t' (
        subst (λ (i : ℕ). Silent i t') (sym same)
          (serve_all-Silent c.handle rs (rpc_ioctl_request services c resp t).1 quiet
            (ioctl-Taken c resp t o)))
