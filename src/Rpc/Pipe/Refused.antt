-- ===== src/Rpc/Pipe/Refused.antt =====
-- From the open of a pipe of mountd/rpc.c to its close, and to a bind that is refused.
use ksmbd_tools.Base.{
  ℕ, ◌^◌, ◌≡◌, ◌≤◌, ◌<◌, refl, ◌∙◌, ap, arith, Bool, true, false, Option, none, some, List, ◌∷◌,
  length,
}
use ksmbd_tools.Base.{◌==◌, if◌then◌else◌}
use ksmbd_tools.Rpc.Pipe.{no_pipe, set_pipe, remove_pipe}
use ksmbd_tools.Rpc.Ndr.{Ndr}
use ksmbd_tools.Rpc.Ndr.Writes.{Mode, at}
use ksmbd_tools.Rpc.Header.{Header, dcerpc_hdr_read}
use ksmbd_tools.Rpc.Header.RoundTrip.{WfHeader}
use ksmbd_tools.Rpc.Bind.{
  Status, BindRequest, acknowledged, dcerpc_bind_return, dcerpc_bind_req_free,
}
use ksmbd_tools.Rpc.Bind.Nack.{nack_header, dcerpc_hdr_read-dcerpc_bind_return}
use ksmbd_tools.Rpc.Pipe.{
  Pipe, Command, Dce, Services, Reply, is_bind, rpc_pipe_lookup, rpc_pipe_free, new_pipe,
  rpc_open_request, rpc_close_request, rpc_read_request, dcerpc_set_ext_payload, bind_reply, answer,
}
use ksmbd_tools.Rpc.Pipe.Branches.{open_new, open_there, close_there, read_there}

module _ {State : Type 0} (services : Services State) where
  first_lookup :
      (id : ℕ) (p : Pipe State) (t : List (ℕ × Pipe State))
      → rpc_pipe_lookup id ((id, p) ∷ t) ≡ some p
  unfolding rpc_pipe_lookup
  first_lookup id p t = ground arith

  first_free :
      (id : ℕ) (p : Pipe State) (t : List (ℕ × Pipe State))
      → rpc_pipe_free id p ((id, p) ∷ t)
        ≡ (if id == no_pipe then (id, record p { freed = true }) ∷ t else t)
  unfolding rpc_pipe_free remove_pipe set_pipe
  first_free id p t = ground arith

  -- An open of a free handle succeeds, another open of it is refused and changes nothing, and a
  -- close by any command with the handle succeeds and gives back the table that there was, but for
  -- the handle 2 ^ 32 - 1, whose pipe is freed and stays in the table.
  pub rpc_close_request-rpc_open_request :
      (c c' : Command) (t : List (ℕ × Pipe State))
      → rpc_pipe_lookup c.handle t ≡ none
      → c'.handle ≡ c.handle
      → (rpc_open_request services c t ≡ (Status.ok, (c.handle, new_pipe services c.payload) ∷ t))
        × (rpc_open_request services c' ((c.handle, new_pipe services c.payload) ∷ t)
            ≡ (Status.exist, (c.handle, new_pipe services c.payload) ∷ t))
        × (rpc_close_request services c' ((c.handle, new_pipe services c.payload) ∷ t) ≡ (
          Status.ok,
          if c.handle == no_pipe
              then (c.handle, record (new_pipe services c.payload) { freed = true }) ∷ t
              else t,
        ))
  rpc_close_request-rpc_open_request c c' t free same =
      let p : Pipe State = new_pipe services c.payload in
      let t' : List (ℕ × Pipe State) = (c.handle, p) ∷ t in
      let found : rpc_pipe_lookup c'.handle t' ≡ some p =
        ap (λ (i : ℕ). rpc_pipe_lookup i t') same ∙ first_lookup c.handle p t in
      (
        open_new services c t free,
        open_there services c' t' p found,
        close_there services c' t' p found
            ∙ ap (λ (x : List (ℕ × Pipe State)). (Status.ok, x))
                (ap (λ (i : ℕ). rpc_pipe_free i p t') same ∙ first_free c.handle p t),
      )

  answer-bind :
      (c : Command) (resp : List ℕ) (dce : Dce State)
      → is_bind dce.hdr.ptype ≡ true
      → answer services c resp dce
        ≡ bind_reply services (record dce { ndr = dcerpc_set_ext_payload resp dce.ndr })
  unfolding answer
  answer-bind c resp dce e = rw (e, answer) refl

  bind_reply-some :
      (dce : Dce State) (ndr : Ndr) (status : Status) (hdr : Header) (sz : Option ℕ)
      (bi : BindRequest)
      → dcerpc_bind_return dce.hdr dce.bi_req dce.ndr ≡ (some ((status, hdr, sz), bi), ndr)
      → (bind_reply services dce).0
        ≡ record { status = status; payload = ndr.payload; payload_sz = sz }
  unfolding bind_reply
  bind_reply-some dce ndr status hdr sz bi e =
      rw (e, bind_reply)
        (ap
          (λ (r : Option ((Status × Header × Option ℕ) × BindRequest) × Ndr). record {
            status = status;
            payload = r.1.payload;
            payload_sz = sz;
          })
          e)

  -- A pipe with a bind that waits, none of whose transfer syntaxes is supported, in a connection of
  -- either order of octets that its header tells: a read into a buffer of at least 24 octets has
  -- status OK and size 24, and what stands at the begin of its payload reads, over any earlier
  -- header, as the header of the bind, made a BINDNACK of one fragment of 24 octets.
  pub rpc_read_request-nack :
      (le : Bool) (c : Command) (resp : List ℕ) (t : List (ℕ × Pipe State)) (p : Pipe State)
      (h0 : Header)
      → rpc_pipe_lookup c.handle t ≡ some p
      → p.ioctl_reply_consumed ≡ false
      → p.return_ready ≡ true
      → is_bind p.dce.hdr.ptype ≡ true
      → acknowledged p.dce.bi_req.list ≡ false
      → WfHeader le p.dce.hdr
      → Mode le p.dce.ndr
      → 24 ≤ length resp
      → length resp < 2 ^ 63
      → (payload : List ℕ) × ((rpc_read_request services c resp t).0
          ≡ record { status = Status.ok; payload = payload; payload_sz = some 24 })
        × (dcerpc_hdr_read h0 (at (dcerpc_set_ext_payload resp p.dce.ndr) 0 payload) ≡ (
          some (true, nack_header p.dce.hdr),
          at (dcerpc_set_ext_payload resp p.dce.ndr) 16 payload,
        ))
  rpc_read_request-nack le c resp t p h0 found untaken ready bind unsupported wf m room small =
      let d : Ndr = dcerpc_set_ext_payload resp p.dce.ndr in
      let (payload, run, back) =
        dcerpc_hdr_read-dcerpc_bind_return le p.dce.hdr h0 p.dce.bi_req d wf m room small
          unsupported in
      (
        payload,
        ap (λ (r : Reply × List (ℕ × Pipe State)). r.0)
              (read_there services c t resp p found untaken ready)
            ∙ (ap (λ (r : Reply × Bool × Dce State). r.0) (answer-bind c resp p.dce bind)
                ∙ bind_reply-some (record p.dce { ndr = d }) (at d 24 payload) Status.ok
                    (nack_header p.dce.hdr) (some 24) (dcerpc_bind_req_free p.dce.bi_req) run),
        back,
      )
