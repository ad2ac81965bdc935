-- ===== src/Rpc/Pipe/Branches.antt =====
-- The branches of the requests on the pipes of mountd/rpc.c, as equations.
use ksmbd_tools.Base.{ℕ, ◌≡◌, arith, true, false, none, some, List, ◌∷◌, ltb, length}
use ksmbd_tools.Rpc.Bind.{Status}
use ksmbd_tools.Rpc.Pipe.{
  Pipe, Command, Services, nothing, rpc_pipe_lookup, set_pipe, rpc_pipe_free, rpc_open_request,
  rpc_close_request, rpc_write_request, rpc_read_request, rpc_ioctl_request, ioctl_read, new_pipe,
  invoke, answer,
}

module _ {State : Type 0} (services : Services State) (c : Command)
    (t : List (ℕ × Pipe State)) where
  pub open_there :
      (p : Pipe State)
      → rpc_pipe_lookup c.handle t ≡ some p
      → rpc_open_request services c t ≡ (Status.exist, t)
  unfolding rpc_open_request
  open_there p e = ground arith

  pub open_new :
      rpc_pipe_lookup c.handle t ≡ none
      → rpc_open_request services c t ≡ (Status.ok, (c.handle, new_pipe services c.payload) ∷ t)
  unfolding rpc_open_request
  open_new e = ground arith

  pub close_there :
      (p : Pipe State)
      → rpc_pipe_lookup c.handle t ≡ some p
      → rpc_close_request services c t ≡ (Status.ok, rpc_pipe_free c.handle p t)
  unfolding rpc_close_request
  close_there p e = ground arith

  pub close_absent :
      rpc_pipe_lookup c.handle t ≡ none → rpc_close_request services c t ≡ (Status.bad_fid, t)
  unfolding rpc_close_request
  close_absent e = ground arith

  pub write_absent :
      rpc_pipe_lookup c.handle t ≡ none → rpc_write_request services c t ≡ (Status.no_memory, t)
  unfolding rpc_write_request
  write_absent e = ground arith

  pub write_ready :
      (p : Pipe State)
      → rpc_pipe_lookup c.handle t ≡ some p
      → p.return_ready ≡ true
      → rpc_write_request services c t ≡ (Status.ok, t)
  unfolding rpc_write_request
  write_ready p e r = ground arith

  pub write_there :
      (p : Pipe State)
      → rpc_pipe_lookup c.handle t ≡ some p
      → p.return_ready ≡ false
      → rpc_write_request services c t ≡ (
        (invoke services c p.dce).0,
        set_pipe c.handle
            (record p {
              ioctl_reply_consumed = false;
              return_ready = true;
              dce = (invoke services c p.dce).1;
            })
            t,
      )
  unfolding rpc_write_request
  write_there p e r = ground arith

  module _ (resp : List ℕ) where
    pub read_absent :
        rpc_pipe_lookup c.handle t ≡ none
        → rpc_read_request services c resp t ≡ (nothing services Status.bad_fid resp, t)
    unfolding rpc_read_request
    read_absent e = ground arith

    pub read_taken :
        (p : Pipe State)
        → rpc_pipe_lookup c.handle t ≡ some p
        → p.ioctl_reply_consumed ≡ true
        → rpc_read_request services c resp t ≡ (
          nothing services Status.ok resp,
          set_pipe c.handle (record p { return_ready = false }) t,
        )
    unfolding rpc_read_request
    read_taken p e r = ground arith

    pub read_early :
        (p : Pipe State)
        → rpc_pipe_lookup c.handle t ≡ some p
        → p.ioctl_reply_consumed ≡ false
        → p.return_ready ≡ false
        → rpc_read_request services c resp t ≡ (nothing services Status.ok resp, t)
    unfolding rpc_read_request
    read_early p e r q = ground arith

    pub read_there :
        (p : Pipe State)
        → rpc_pipe_lookup c.handle t ≡ some p
        → p.ioctl_reply_consumed ≡ false
        → p.return_ready ≡ true
        → rpc_read_request services c resp t ≡ (
          (answer services c resp p.dce).0,
          set_pipe c.handle
              (record p {
                return_ready = (answer services c resp p.dce).1;
                dce = (answer services c resp p.dce).2;
              })
              t,
        )
    unfolding rpc_read_request
    read_there p e r q = ground arith

    pub ioctl_short :
        ltb (length c.payload) 16 ≡ true
        → rpc_ioctl_request services c resp t ≡ (nothing services Status.bad_data resp, t)
    unfolding rpc_ioctl_request
    ioctl_short e = ground arith

    pub ioctl_absent :
        ltb (length c.payload) 16 ≡ false
        → rpc_pipe_lookup c.handle t ≡ none
        → rpc_ioctl_request services c resp t ≡ (nothing services Status.bad_fid resp, t)
    unfolding rpc_ioctl_request
    ioctl_absent e h = ground arith

    pub ioctl_there :
        (p : Pipe State)
        → ltb (length c.payload) 16 ≡ false
        → rpc_pipe_lookup c.handle t ≡ some p
        → rpc_ioctl_request services c resp t
          ≡ ioctl_read services c resp (rpc_write_request services c t)
    unfolding rpc_ioctl_request
    ioctl_there p e h = ground arith
