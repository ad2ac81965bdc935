-- ===== src/Rpc/Pipe/Wf.antt =====
-- The invariant of the table of pipes of mountd/rpc.c, and what keeps it: a pipe that is set, and
-- one that is taken out.
use ksmbd_tools.Base.{
  ℕ, ◌≡◌, ◌≢◌, refl, ◌∙◌, arith, ◌==◌, true, false, none, some, List, [], ◌∷◌, Bool-cases, inl, inr,
  ◌⊎◌, Option-cases,
}
use ksmbd_tools.Rpc.Pipe.{Pipe, rpc_pipe_lookup, set_pipe, remove_pipe}
use ksmbd_tools.Rpc.Pipe.Table.{lookup-set_other}

module _ {State : Type 0} where
  -- Each handle stands once, with a pipe that is not freed, and no reply waits on a pipe whose
  -- reply an ioctl has taken.
  abbrev pub WfPipes : List (ℕ × Pipe State) → Type 0
  WfPipes [] = Unit {0}
  WfPipes ((k, p) ∷ t) =
      (rpc_pipe_lookup k t ≡ none)
      × (p.freed ≡ false)
      × (p.ioctl_reply_consumed ≡ true → p.return_ready ≡ false)
      × WfPipes t

  pub lookup-cases :
      (id : ℕ) (t : List (ℕ × Pipe State))
      → (rpc_pipe_lookup id t ≡ none) ⊎ ((p : Pipe State) × (rpc_pipe_lookup id t ≡ some p))
  lookup-cases id t = Option-cases (rpc_pipe_lookup id t)

  none-set :
      (i id : ℕ) (q : Pipe State) (t : List (ℕ × Pipe State))
      → rpc_pipe_lookup i t ≡ none
      → rpc_pipe_lookup i (set_pipe id q t) ≡ none
  unfolding rpc_pipe_lookup set_pipe
  none-set i id q [] h = refl
  none-set i id q ((k, r) ∷ t) h = ground (arith, none-set i id q t)

  none-remove :
      (i id : ℕ) (t : List (ℕ × Pipe State))
      → rpc_pipe_lookup i t ≡ none
      → rpc_pipe_lookup i (remove_pipe id t) ≡ none
  unfolding rpc_pipe_lookup remove_pipe
  none-remove i id [] h = refl
  none-remove i id ((k, r) ∷ t) h = ground (arith, none-remove i id t)

  WfPipes-set :
      (id : ℕ) (q : Pipe State) (t : List (ℕ × Pipe State))
      → q.freed ≡ false
      → (q.ioctl_reply_consumed ≡ true → q.return_ready ≡ false)
      → WfPipes t
      → WfPipes (set_pipe id q t)
  unfolding set_pipe
  WfPipes-set id q [] f h w = tt
  WfPipes-set id q ((k, r) ∷ t) f h (a, l, b, w) = elim (Bool-cases (k == id)) [
    | inl e ↦ rw e (a, f, h, w)
    | inr e ↦ rw e (none-set k id q t a, l, b, WfPipes-set id q t f h w)
  ]

  pub WfPipes-remove : (id : ℕ) (t : List (ℕ × Pipe State)) → WfPipes t → WfPipes (remove_pipe id t)
  unfolding remove_pipe
  WfPipes-remove id [] w = tt
  WfPipes-remove id ((k, r) ∷ t) (a, l, b, w) = elim (Bool-cases (k == id)) [
    | inl e ↦ rw e w
    | inr e ↦ rw e (none-remove k id t a, l, b, WfPipes-remove id t w)
  ]

  lookup-WfPipes :
      (id : ℕ) (p : Pipe State) (t : List (ℕ × Pipe State))
      → WfPipes t
      → rpc_pipe_lookup id t ≡ some p
      → p.freed ≡ false
  unfolding rpc_pipe_lookup
  lookup-WfPipes id p [] w h = cc
  lookup-WfPipes id p ((k, r) ∷ t) (a, l, b, w) h = ground (arith, lookup-WfPipes id p t w)

  pub lookup-added :
      (i id : ℕ) (q : Pipe State) (t : List (ℕ × Pipe State))
      → i ≢ id
      → rpc_pipe_lookup i ((id, q) ∷ t) ≡ rpc_pipe_lookup i t
  unfolding rpc_pipe_lookup
  lookup-added i id q t h = ground arith

  -- the invariant stays, and so do the other pipes
  abbrev pub Steady : ℕ → List (ℕ × Pipe State) → List (ℕ × Pipe State) → Type 0
  Steady id t t' =
      (WfPipes t → WfPipes t') × ((i : ℕ) → i ≢ id → rpc_pipe_lookup i t' ≡ rpc_pipe_lookup i t)

  pub Steady-same : (id : ℕ) (t : List (ℕ × Pipe State)) → Steady id t t
  Steady-same id t = (λ w. w, λ i h. refl)

  pub Steady-set :
      (id : ℕ) (p q : Pipe State) (t : List (ℕ × Pipe State))
      → rpc_pipe_lookup id t ≡ some p
      → q.freed ≡ p.freed
      → (q.ioctl_reply_consumed ≡ true → q.return_ready ≡ false)
      → Steady id t (set_pipe id q t)
  Steady-set id p q t e f h = (
    λ w. WfPipes-set id q t (f ∙ lookup-WfPipes id p t w e) h w,
    λ i k. lookup-set_other i id q t k,
  )

  pub Steady-then :
      (id : ℕ) (t t' t'' : List (ℕ × Pipe State))
      → Steady id t t'
      → Steady id t' t''
      → Steady id t t''
  Steady-then id t t' t'' (a, b) (c, d) = (λ w. c (a w), λ i h. d i h ∙ b i h)
