-- ===== src/Rpc/Pipe/Table.antt =====
-- The table of pipes of mountd/rpc.c.
use ksmbd_tools.Base.{ℕ, ◌≡◌, ◌≢◌, refl, arith, true, some, List, [], ◌∷◌}
use ksmbd_tools.Rpc.Pipe.{Pipe, no_pipe, rpc_pipe_lookup, set_pipe, rpc_pipe_free, remove_pipe}

module _ {State : Type 0} where
  pub lookup-set_same :
      (id : ℕ) (p q : Pipe State) (t : List (ℕ × Pipe State))
      → rpc_pipe_lookup id t ≡ some p
      → rpc_pipe_lookup id (set_pipe id q t) ≡ some q
  unfolding rpc_pipe_lookup set_pipe
  lookup-set_same id p q [] h = cc
  lookup-set_same id p q ((k, r) ∷ t) h = ground (arith, lookup-set_same id p q t)

  pub lookup-set_other :
      (i id : ℕ) (q : Pipe State) (t : List (ℕ × Pipe State))
      → i ≢ id
      → rpc_pipe_lookup i (set_pipe id q t) ≡ rpc_pipe_lookup i t
  unfolding rpc_pipe_lookup set_pipe
  lookup-set_other i id q [] h = refl
  lookup-set_other i id q ((k, r) ∷ t) h = ground (arith, lookup-set_other i id q t)

  pub lookup-remove_other :
      (i id : ℕ) (t : List (ℕ × Pipe State))
      → i ≢ id
      → rpc_pipe_lookup i (remove_pipe id t) ≡ rpc_pipe_lookup i t
  unfolding rpc_pipe_lookup remove_pipe
  lookup-remove_other i id [] h = refl
  lookup-remove_other i id ((k, r) ∷ t) h = ground (arith, lookup-remove_other i id t)

  pub lookup-free_other :
      (i id : ℕ) (p : Pipe State) (t : List (ℕ × Pipe State))
      → i ≢ id
      → rpc_pipe_lookup i (rpc_pipe_free id p t) ≡ rpc_pipe_lookup i t
  unfolding rpc_pipe_free
  lookup-free_other i id p t h =
      ground
        (arith, lookup-remove_other i id t, lookup-set_other i id (record p { freed = true }) t)

  pub free-remove :
      (id : ℕ) (p : Pipe State) (t : List (ℕ × Pipe State))
      → id ≢ no_pipe
      → rpc_pipe_free id p t ≡ remove_pipe id t
  unfolding rpc_pipe_free
  free-remove id p t h = ground arith
