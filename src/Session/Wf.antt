-- ===== src/Session/Wf.antt =====
-- The invariant of the table of sessions of tools/management/session.c: every session counts its
-- tree connections, has one at least, and is the only one of its id.
use ksmbd_tools.Base.{ℕ, ◌+◌, ◌^◌, ◌<◌, ◌≡◌, refl, sym, ◌∙◌, arith, ◌==◌}
use ksmbd_tools.Base.{
  true, false, Option, none, some, List, [], ◌∷◌, ◌++◌, length, All, Bool-cases, inl, inr,
}
use ksmbd_tools.Session.{Session, find_session, update_session, remove_session}
use mathlib.Core.Path.{subst}

abbrev pub Counted : Session → Type 0
Counted s =
    (s.ref_counter ≡ length s.tree_conns) × (0 < s.ref_counter) × (s.ref_counter + 1 < 2 ^ 32)

abbrev pub Distinct : List Session → Type 0
Distinct [] = Unit
Distinct (s ∷ ss) = (find_session s.id ss ≡ none) × Distinct ss

abbrev pub SessionsWf : List Session → Type 0
SessionsWf ss = All Counted ss × Distinct ss

pub find-Counted :
    (id : ℕ) (ss : List Session) (s : Session)
    → All Counted ss
    → find_session id ss ≡ some s
    → Counted s
unfolding find_session
find-Counted id [] s wf f = cc
find-Counted id (t ∷ ss) s (c, cs) f = ground (arith, find-Counted id ss s cs)

find-head :
    (id : ℕ) (t s : Session) (ss : List Session)
    → (id == t.id) ≡ true
    → find_session id (t ∷ ss) ≡ some s
    → t ≡ s
unfolding find_session
find-head id t s ss e h = ground arith

find-tail :
    (id : ℕ) (t : Session) (ss : List Session) (o : Option Session)
    → (id == t.id) ≡ false
    → find_session id (t ∷ ss) ≡ o
    → find_session id ss ≡ o
unfolding find_session
find-tail id t ss o e h = sym (rw e refl) ∙ h

find-remove_none :
    (k id : ℕ) (ss : List Session)
    → find_session k ss ≡ none
    → find_session k (remove_session id ss) ≡ none
unfolding find_session remove_session
find-remove_none k id [] h = refl
find-remove_none k id (t ∷ ss) h = ground (arith, find-remove_none k id ss)

pub find-append_none :
    (k : ℕ) (s : Session) (ss : List Session)
    → find_session k ss ≡ none
    → (k == s.id) ≡ false
    → find_session k (ss ++ (s ∷ [])) ≡ none
unfolding find_session
find-append_none k s [] h e = ground arith
find-append_none k s (t ∷ ss) h e = ground (arith, find-append_none k s ss)

absent-head :
    (id : ℕ) (t : Session) (ss : List Session)
    → find_session id (t ∷ ss) ≡ none
    → (id == t.id) ≡ false
unfolding find_session
absent-head id t ss h = ground arith

module _ (id : ℕ) (f : Session → Session) (keeps : (s : Session) → (f s).id ≡ s.id) where
  pub find-update_self :
      (ss : List Session) (s : Session)
      → find_session id ss ≡ some s
      → find_session id (update_session id f ss) ≡ some (f s)
  unfolding find_session update_session
  find-update_self [] s h = cc
  find-update_self (t ∷ ss) s h = ground (arith, keeps t, find-update_self ss s)

  find-update_none :
      (k : ℕ) (ss : List Session)
      → find_session k ss ≡ none
      → find_session k (update_session id f ss) ≡ none
  unfolding find_session update_session
  find-update_none k [] h = refl
  find-update_none k (t ∷ ss) h = ground (arith, keeps t, find-update_none k ss)

  pub update-update :
      (g : Session → Session) (ss : List Session)
      → update_session id g (update_session id f ss) ≡ update_session id (λ s. g (f s)) ss
  unfolding update_session
  update-update g [] = refl
  update-update g (t ∷ ss) = ground (arith, keeps t, update-update g ss)

  pub remove-update :
      (ss : List Session) → remove_session id (update_session id f ss) ≡ remove_session id ss
  unfolding update_session remove_session
  remove-update [] = refl
  remove-update (t ∷ ss) = ground (arith, keeps t, remove-update ss)

  pub update-SessionsWf :
      (ss : List Session) (s : Session)
      → SessionsWf ss
      → find_session id ss ≡ some s
      → Counted (f s)
      → SessionsWf (update_session id f ss)
  unfolding find_session update_session
  update-SessionsWf [] s wf h c = wf
  update-SessionsWf (t ∷ ss) s ((ct, cs), (d, ds)) h c = elim (Bool-cases (id == t.id)) [
    | inl e ↦ rw e (
      (subst (λ r. Counted (f r)) (sym (find-head id t s ss e h)) c, cs),
      (subst (λ i. find_session i ss ≡ none) (sym (keeps t)) d, ds),
    )
    | inr e ↦
        let (cs', ds') = update-SessionsWf ss s (cs, ds) (find-tail id t ss (some s) e h) c in
        rw e ((ct, cs'), (find-update_none t.id ss d, ds'))
  ]

pub update-ext :
    (id : ℕ) (f g : Session → Session) (ss : List Session) (s : Session)
    → find_session id ss ≡ some s
    → f s ≡ g s
    → update_session id f ss ≡ update_session id g ss
unfolding find_session update_session
update-ext id f g [] s h e = refl
update-ext id f g (t ∷ ss) s h e = ground (arith, update-ext id f g ss s)

pub update-same :
    (id : ℕ) (f : Session → Session) (ss : List Session) (s : Session)
    → find_session id ss ≡ some s
    → f s ≡ s
    → update_session id f ss ≡ ss
unfolding find_session update_session
update-same id f [] s h e = refl
update-same id f (t ∷ ss) s h e = ground (arith, update-same id f ss s)

pub remove-SessionsWf :
    (id : ℕ) (ss : List Session) → SessionsWf ss → SessionsWf (remove_session id ss)
unfolding remove_session
remove-SessionsWf id [] wf = wf
remove-SessionsWf id (t ∷ ss) ((ct, cs), (d, ds)) = elim (Bool-cases (id == t.id)) [
  | inl e ↦ rw e (cs, ds)
  | inr e ↦
      let (cs', ds') = remove-SessionsWf id ss (cs, ds) in
      rw e ((ct, cs'), (find-remove_none t.id id ss d, ds'))
]

pub append-SessionsWf :
    (s : Session) (ss : List Session)
    → SessionsWf ss
    → Counted s
    → find_session s.id ss ≡ none
    → SessionsWf (ss ++ (s ∷ []))
unfolding find_session
append-SessionsWf s [] wf c n = ((c, tt), (refl, tt))
append-SessionsWf s (t ∷ ss) ((ct, cs), (d, ds)) c n =
    let apart = absent-head s.id t ss n in
    let (cs', ds') = append-SessionsWf s ss (cs, ds) c (find-tail s.id t ss none apart n) in
    ((ct, cs'), (find-append_none t.id s ss d (ground arith), ds'))

pub length-update :
    (id : ℕ) (f : Session → Session) (ss : List Session)
    → length (update_session id f ss) ≡ length ss
unfolding update_session
length-update id f [] = refl
length-update id f (t ∷ ss) = ground (arith, length-update id f ss)

pub length-remove :
    (id : ℕ) (ss : List Session) (s : Session)
    → find_session id ss ≡ some s
    → length (remove_session id ss) + 1 ≡ length ss
unfolding remove_session find_session
length-remove id [] s h = cc
length-remove id (t ∷ ss) s h = ground (arith, length-remove id ss s)
