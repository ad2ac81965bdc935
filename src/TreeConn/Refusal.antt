-- ===== src/TreeConn/Refusal.antt =====
-- The stages of `tcm_handle_tree_connect` of tools/management/tree_conn.c on their way to
-- `out_error`: which world they come with, and which user is put.
use ksmbd_tools.Base.{ℕ, ◌-◌, ◌≡◌, refl, sym, ap, ◌∙◌, arith, ltb, ◌&&◌}
use ksmbd_tools.Base.{true, false, Option, none, some, List, Option-cases, Bool-cases, inl, inr}
use ksmbd_tools.Base.{find, update, inc}
use ksmbd_tools.Share.{Share}
use ksmbd_tools.Session.{World}
use ksmbd_tools.Share.{shm_lookup_users_map}
use ksmbd_tools.Session.{ConnFlags, find_session, sm_check_sessions_capacity}
use ksmbd_tools.Session.Wf.{SessionsWf, find-Counted}
use ksmbd_tools.Session.Steps.{check-some, check-none}
use ksmbd_tools.User.{User}
use ksmbd_tools.TreeConn.Policy.{known}
use ksmbd_tools.TreeConn.Answer.{known-lookup_name, unknown-lookup_name}
use ksmbd_tools.User.Login.Refine.{Live, lookup-some, lookup-none}
use ksmbd_tools.Share.Hosts.{Libc}
use ksmbd_tools.Base.{c_string, ◌⊎◌}
use ksmbd_tools.TreeConn.{
  TreeConf, connect_share, host_refused, guest_refused, guest_or_account, account_login,
  share_conn_flags, reset_login, TreeRequest, Jump, bind, out_error, user_lists,
}

-- a jump to `out_error` puts this user, and comes from this world
abbrev pub RefusesWith : Jump → Option (List ℕ) → World → Type 0
RefusesWith (bind flags user v) user' w = Unit {0}
RefusesWith (out_error status user v) user' w = (user ≡ user') × (v ≡ w)

check-refused :
    (id : ℕ) (w : World)
    → SessionsWf w.sessions
    → (sm_check_sessions_capacity id w).0 ≡ false
    → (sm_check_sessions_capacity id w).1 ≡ w
check-refused id w wf e = elim (Option-cases (find_session id w.sessions)) [
  | inl f ↦ elim (Bool-cases (ltb w.sessions_cap 1)) [
    | inl full ↦ rw (check-none id w f, full) refl
    | inr room ↦
        let taken : World = record w { sessions_cap = w.sessions_cap - 1 } in
        let checked : sm_check_sessions_capacity id w ≡ (true, taken) =
          check-none id w f ∙ rw room refl in
        let clash : true ≡ false = sym (ap (λ r. r.0) checked) ∙ e in cc
  ]
  | inr (s, f) ↦ rw (check-some id w s f (find-Counted id w.sessions s wf.0 f)) refl
]

user_lists-refused :
    (req : TreeRequest) (s : Share) (flags : ConnFlags) (account : List ℕ) (w : World)
    → SessionsWf w.sessions
    → RefusesWith (user_lists req s flags account w) (some account) w
unfolding user_lists shm_lookup_users_map
user_lists-refused req s flags account w wf =
    let c = check-refused req.session_id w wf in ground arith

-- the world whose user of this name was looked up and logged in
abbrev pub logged_in : List ℕ → World → World
logged_in account w = record w {
  users =
      update account reset_login
        (update account (λ v. record v { ref_count = inc v.ref_count }) w.users);
}

-- A stage refuses before the account is looked up, or after.
abbrev pub Refuses : Jump → TreeRequest → World → Type 0
Refuses j req w =
    RefusesWith j none w
    ⊎ ((u : User) × (find (c_string req.account) w.users ≡ some u)
        × RefusesWith j (some (c_string req.account)) (logged_in (c_string req.account) w))

module _ (libc : Libc) (conf : TreeConf) (req : TreeRequest) (s : Share) (w : World)
    (live : Live w.users) (wf : SessionsWf w.sessions) where
  account_login-refused : (flags : ConnFlags) → Refuses (account_login req s flags w) req w
  unfolding account_login
  account_login-refused flags = elim (Option-cases (find (c_string req.account) w.users)) [
    | inl f ↦
        let l = lookup-none (c_string req.account) w.users f in
        inl (rw (account_login, l, l) (refl, refl))
    | inr (u, f) ↦
        let l =
          lookup-some (c_string req.account) w.users u f (live (c_string req.account) u f).0 in
        inr (
          u,
          f,
          rw (account_login, l, l)
              (user_lists-refused req s _ (c_string req.account)
                (logged_in (c_string req.account) w) wf),
        )
  ]

  guest-refused : Refuses (guest_or_account conf req s w) req w
  unfolding guest_or_account
  guest-refused = elim (Bool-cases (req.guest_flag && s.flags.guest_ok)) [
    | inr e ↦ rw (guest_or_account, e) (account_login-refused (share_conn_flags s))
    | inl e ↦ elim (Bool-cases (known s.guest_account w.users)) [
      | inl k ↦
          let (name, l) = known-lookup_name w.users live s.guest_account k in
          inl (rw (guest_or_account, e, l) tt)
      | inr k ↦
          let l = unknown-lookup_name w.users live s.guest_account k in
          elim (Bool-cases (known conf.guest_account w.users)) [
            | inl k' ↦
                let (name, l') = known-lookup_name w.users live conf.guest_account k' in
                inl (rw (guest_or_account, e, l, l, l') tt)
            | inr k' ↦
                let l' = unknown-lookup_name w.users live conf.guest_account k' in
                rw (guest_or_account, e, l, l, l', l, l')
                  (account_login-refused (share_conn_flags s))
          ]
    ]
  ]

  pub share-refused : Refuses (connect_share libc conf req s w) req w
  unfolding connect_share
  share-refused = elim (Bool-cases (host_refused libc s (c_string req.peer_addr))) [
    | inl h ↦ inl (rw (connect_share, h) (refl, refl))
    | inr h ↦ elim (Bool-cases (guest_refused conf req s)) [
      | inl g ↦ inl (rw (connect_share, h, g) (refl, refl))
      | inr g ↦ rw (connect_share, h, g) guest-refused
    ]
  ]
