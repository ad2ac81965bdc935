-- ===== src/Rpc/Pipe/Isolated.antt =====
-- Sequences of requests on the pipes of mountd/rpc.c: they keep the invariant of the table, and
-- requests on one handle leave the pipes of the others alone.
use ksmbd_tools.Base.{
  ℕ, ◌≡◌, ◌≢◌, refl, sym, ◌∙◌, true, false, List, [], ◌∷◌, All, ltb, length, Bool-cases, inl, inr,
}
use mathlib.Core.Path.{subst}
use ksmbd_tools.Rpc.Bind.{Status}
use ksmbd_tools.Rpc.Pipe.{
  Pipe, Command, Services, Reply, rpc_pipe_lookup, no_pipe, rpc_open_request, rpc_close_request,
  rpc_write_request, rpc_read_request, rpc_ioctl_request, ioctl_read, consume, consumed, is_ok,
  new_pipe, invoke, answer,
}
use ksmbd_tools.Rpc.Pipe.Table.{lookup-free_other, free-remove}
use ksmbd_tools.Rpc.Pipe.Branches.{
  open_there, open_new, close_there, close_absent, write_absent, write_ready, write_there,
  read_absent, read_taken, read_early, read_there, ioctl_short, ioctl_absent, ioctl_there,
}
use ksmbd_tools.Rpc.Pipe.Wf.{
  WfPipes, lookup-cases, WfPipes-remove, lookup-added, Steady, Steady-same, Steady-set, Steady-then,
}

-- a request, with the buffer of its response
pub data Request : Type 0 where
  open_pipe : Command → Request
  close_pipe : Command → Request
  write_pipe : Command → Request
  read_pipe : Command → List ℕ → Request
  ioctl_pipe : Command → List ℕ → Request

abbrev pub handle_of : Request → ℕ
handle_of (open_pipe c) = c.handle
handle_of (close_pipe c) = c.handle
handle_of (write_pipe c) = c.handle
handle_of (read_pipe c resp) = c.handle
handle_of (ioctl_pipe c resp) = c.handle

-- The close of a handle frees its pipe and takes it out of the table, unless it is 2 ^ 32 - 1.
abbrev pub Frees : Request → Type 0
Frees (close_pipe c) = c.handle ≢ no_pipe
Frees (open_pipe c) = Unit {0}
Frees (write_pipe c) = Unit {0}
Frees (read_pipe c resp) = Unit {0}
Frees (ioctl_pipe c resp) = Unit {0}

module _ {State : Type 0} (services : Services State) where
  -- the table behind a request
  unfoldable pub serve : Request → List (ℕ × Pipe State) → List (ℕ × Pipe State)
  serve (open_pipe c) t = (rpc_open_request services c t).1
  serve (close_pipe c) t = (rpc_close_request services c t).1
  serve (write_pipe c) t = (rpc_write_request services c t).1
  serve (read_pipe c resp) t = (rpc_read_request services c resp t).1
  serve (ioctl_pipe c resp) t = (rpc_ioctl_request services c resp t).1

  unfoldable pub serve_all : List Request → List (ℕ × Pipe State) → List (ℕ × Pipe State)
  serve_all [] t = t
  serve_all (r ∷ rs) t = serve_all rs (serve r t)

module _ {State : Type 0} (services : Services State) (c : Command)
    (t : List (ℕ × Pipe State)) where
  open-Steady : Steady c.handle t (rpc_open_request services c t).1
  unfolding new_pipe
  open-Steady = elim (lookup-cases c.handle t) [
    | inl e ↦
        let new : Pipe State = new_pipe services c.payload in
        subst (λ (r : Status × List (ℕ × Pipe State)). Steady c.handle t r.1)
          (sym (open_new services c t e))
          (λ w. (e, refl, λ h. refl, w), λ i h. lookup-added i c.handle new t h)
    | inr (p, e) ↦
        subst (λ (r : Status × List (ℕ × Pipe State)). Steady c.handle t r.1)
          (sym (open_there services c t p e)) (Steady-same c.handle t)
  ]

  close-Kept :
      (c.handle ≢ no_pipe → WfPipes t → WfPipes (rpc_close_request services c t).1)
      × ((i : ℕ)
          → i ≢ c.handle
          → rpc_pipe_lookup i (rpc_close_request services c t).1 ≡ rpc_pipe_lookup i t)
  close-Kept = elim (lookup-cases c.handle t) [
    | inl e ↦ rw (close_absent services c t e) (λ k w. w, λ i h. refl)
    | inr (p, e) ↦ rw (close_there services c t p e) (
      λ k w. subst WfPipes (sym (free-remove c.handle p t k)) (WfPipes-remove c.handle t w),
      λ i h. lookup-free_other i c.handle p t h,
    )
  ]

  pub write-Steady : Steady c.handle t (rpc_write_request services c t).1
  write-Steady = elim (lookup-cases c.handle t) [
    | inl e ↦
        subst (λ (r : Status × List (ℕ × Pipe State)). Steady c.handle t r.1)
          (sym (write_absent services c t e)) (Steady-same c.handle t)
    | inr (p, e) ↦ elim (Bool-cases p.return_ready) [
      | inl r ↦
          subst (λ (r : Status × List (ℕ × Pipe State)). Steady c.handle t r.1)
            (sym (write_ready services c t p e r)) (Steady-same c.handle t)
      | inr r ↦
          let q : Pipe State = record p {
            ioctl_reply_consumed = false;
            return_ready = true;
            dce = (invoke services c p.dce).1;
          } in
          subst (λ (r : Status × List (ℕ × Pipe State)). Steady c.handle t r.1)
            (sym (write_there services c t p e r)) (Steady-set c.handle p q t e refl (λ h. cc))
    ]
  ]

  read-Steady : (resp : List ℕ) → Steady c.handle t (rpc_read_request services c resp t).1
  read-Steady resp = elim (lookup-cases c.handle t) [
    | inl e ↦
        subst (λ (r : Reply × List (ℕ × Pipe State)). Steady c.handle t r.1)
          (sym (read_absent services c t resp e)) (Steady-same c.handle t)
    | inr (p, e) ↦ elim (Bool-cases p.ioctl_reply_consumed) [
      | inl r ↦
          subst (λ (r : Reply × List (ℕ × Pipe State)). Steady c.handle t r.1)
            (sym (read_taken services c t resp p e r))
            (Steady-set c.handle p (record p { return_ready = false }) t e refl (λ h. refl))
      | inr r ↦ elim (Bool-cases p.return_ready) [
        | inl q ↦
            subst (λ (r : Reply × List (ℕ × Pipe State)). Steady c.handle t r.1)
              (sym (read_there services c t resp p e r q))
              (Steady-set c.handle p
                (record p {
                  return_ready = (answer services c resp p.dce).1;
                  dce = (answer services c resp p.dce).2;
                })
                t e refl (λ h. cc))
        | inr q ↦
            subst (λ (r : Reply × List (ℕ × Pipe State)). Steady c.handle t r.1)
              (sym (read_early services c t resp p e r q)) (Steady-same c.handle t)
      ]
    ]
  ]

module _ {State : Type 0} (services : Services State) where
  consume-Steady :
      (id : ℕ) (reply : Reply) (t : List (ℕ × Pipe State))
      → Steady id t (consume services id (reply, t)).1
  consume-Steady id reply t = elim (Bool-cases (is_ok reply.status)) [
    | inl e ↦ elim (lookup-cases id t) [
      | inl f ↦ rw (e, f) (Steady-same id t)
      | inr (p, f) ↦ rw (e, f) (Steady-set id p (consumed services p) t f refl (λ h. refl))
    ]
    | inr e ↦ rw e (Steady-same id t)
  ]

  ioctl_read-Steady :
      (c : Command) (resp : List ℕ) (status : Status) (t : List (ℕ × Pipe State))
      → Steady c.handle t (ioctl_read services c resp (status, t)).1
  ioctl_read-Steady c resp status t = elim (Bool-cases (is_ok status)) [
    | inl e ↦
        let (reply, t') = rpc_read_request services c resp t in
        rw e (
          Steady-then c.handle t t' (consume services c.handle (reply, t')).1
            (read-Steady services c t resp) (consume-Steady c.handle reply t'))
    | inr e ↦ rw e (Steady-same c.handle t)
  ]

  ioctl-Steady :
      (c : Command) (resp : List ℕ) (t : List (ℕ × Pipe State))
      → Steady c.handle t (rpc_ioctl_request services c resp t).1
  ioctl-Steady c resp t = elim (Bool-cases (ltb (length c.payload) 16)) [
    | inl s ↦
        subst (λ (r : Reply × List (ℕ × Pipe State)). Steady c.handle t r.1)
          (sym (ioctl_short services c t resp s)) (Steady-same c.handle t)
    | inr s ↦ elim (lookup-cases c.handle t) [
      | inl e ↦
          subst (λ (r : Reply × List (ℕ × Pipe State)). Steady c.handle t r.1)
            (sym (ioctl_absent services c t resp s e)) (Steady-same c.handle t)
      | inr (p, e) ↦
          let (status, t') = rpc_write_request services c t in
          subst (λ (r : Reply × List (ℕ × Pipe State)). Steady c.handle t r.1)
            (sym (ioctl_there services c t resp p s e))
            (Steady-then c.handle t t' (ioctl_read services c resp (status, t')).1
              (write-Steady services c t) (ioctl_read-Steady c resp status t'))
    ]
  ]

  pub serve-Kept :
      (r : Request) (t : List (ℕ × Pipe State))
      → (Frees r → WfPipes t → WfPipes (serve services r t))
        × ((i : ℕ) → i ≢ handle_of r → rpc_pipe_lookup i (serve services r t) ≡ rpc_pipe_lookup i t)
  unfolding serve
  serve-Kept (open_pipe c) t = let (w, o) = open-Steady services c t in (λ f. w, o)
  serve-Kept (close_pipe c) t = close-Kept services c t
  serve-Kept (write_pipe c) t = let (w, o) = write-Steady services c t in (λ f. w, o)
  serve-Kept (read_pipe c resp) t = let (w, o) = read-Steady services c t resp in (λ f. w, o)
  serve-Kept (ioctl_pipe c resp) t = let (w, o) = ioctl-Steady c resp t in (λ f. w, o)

  -- Any sequence of open, close, write, read and ioctl requests, none of which closes the handle 2
  -- ^ 32 - 1, keeps the table of pipes well formed: each handle stands once, with a pipe that is
  -- not freed, and no reply waits on a pipe whose reply an ioctl has taken. Whatever the services
  -- do, the pipe of a handle that none of the requests names is found as before, or not found as
  -- before.
  pub serve_all-WfPipes :
      (rs : List Request) (t : List (ℕ × Pipe State))
      → All Frees rs
      → WfPipes t
      → WfPipes (serve_all services rs t)
        × ((i : ℕ)
            → All (λ r. i ≢ handle_of r) rs
            → rpc_pipe_lookup i (serve_all services rs t) ≡ rpc_pipe_lookup i t)
  unfolding serve_all
  serve_all-WfPipes [] t f w = (w, λ i h. refl)
  serve_all-WfPipes (r ∷ rs) t (f, fs) w =
      let (wf, other) = serve-Kept r t in
      let (wf', others) = serve_all-WfPipes rs (serve services r t) fs (wf f w) in
      (wf', λ i h. others i h.1 ∙ other i h.0)
