-- ===== src/TreeConn/Answer.antt =====
-- The stages of `tcm_handle_tree_connect` of tools/management/tree_conn.c against the policy, one by
-- one.
use ksmbd_tools.Base.{ℕ, ◌≡◌, refl, sym, ap, arith, if◌then◌else◌, ◌&&◌, ◌||◌}
use ksmbd_tools.Base.{true, false, Option, none, some, List, Option-cases, Bool-cases, inl, inr}
use ksmbd_tools.Base.{c_string, update, find, inc}
use mathlib.Core.Path.{subst}
use ksmbd_tools.User.{Users}
use ksmbd_tools.User.Login.Refine.{Live, lookup-some, lookup-none}
use ksmbd_tools.Share.{Share, shm_lookup_users_map}
use ksmbd_tools.Share.Hosts.{Libc}
use ksmbd_tools.TreeConn.Admitted.{host_refused_lem, guest_refused_lem}
use ksmbd_tools.Session.{
  TreeConn, ConnFlags, World, Session, find_session, sm_check_sessions_capacity,
}
use ksmbd_tools.Session.Wf.{SessionsWf, find-Counted}
use ksmbd_tools.Session.Steps.{check-some, check-none}
use ksmbd_tools.Session.Capacity.{connect-total}
use ksmbd_tools.TreeConn.{
  TreeConf, TreeRequest, tree_ok, Jump, bind, out_error, share_conn_flags, user_lists, reset_login,
  account_login, lookup_name, guest_or_account, connect_share, release, clear_update, land,
}
use ksmbd_tools.TreeConn.Policy.{
  Answer, room_for, lists_policy, known, host_admitted, guest_admitted, account_policy,
  share_policy,
}

unfoldable pub answer_of : Jump → Answer
answer_of (bind flags user w) = (tree_ok, some flags)
answer_of (out_error status user w) = (status, none)

unfoldable pub sessions_of : Jump → List Session
sessions_of (bind flags user w) = w.sessions
sessions_of (out_error status user w) = w.sessions

-- What a stage of the code makes of the world `w`: an answer, and the sessions as they were.
abbrev pub Answers : Jump → Answer → World → Type 0
Answers j a w = (answer_of j ≡ a) × (sessions_of j ≡ w.sessions)

check-room :
    (id : ℕ) (w : World)
    → SessionsWf w.sessions
    → ((sm_check_sessions_capacity id w).0 ≡ room_for id w)
      × ((sm_check_sessions_capacity id w).1.sessions ≡ w.sessions)
unfolding room_for
check-room id w wf = elim (Option-cases (find_session id w.sessions)) [
  | inl f ↦ rw (check-none id w f, room_for, f) (ground arith)
  | inr (s, f) ↦
      rw (check-some id w s f (find-Counted id w.sessions s wf.0 f), room_for, f) (refl, refl)
]

module _ (req : TreeRequest) (s : Share) where
  user_lists-answer :
      (flags : ConnFlags) (account : List ℕ) (w : World)
      → SessionsWf w.sessions
      → Answers
          (user_lists req s flags account w)
          (lists_policy s flags account (room_for req.session_id w))
          w
  unfolding user_lists lists_policy shm_lookup_users_map answer_of sessions_of
  user_lists-answer flags account w wf =
      let (room, same) = check-room req.session_id w wf in ground arith

  account_login-answer :
      (w : World)
      → Live w.users
      → SessionsWf w.sessions
      → Answers (account_login req s (share_conn_flags s) w) (account_policy req s w) w
  unfolding account_login account_policy answer_of sessions_of
  account_login-answer w live wf = elim (Option-cases (find (c_string req.account) w.users)) [
    | inl f ↦
        rw (account_login, lookup-none (c_string req.account) w.users f, account_policy, f)
          (refl, refl)
    | inr (u, f) ↦
        let account = c_string req.account in
        let flags : ConnFlags =
          if u.guest_account
          then record (share_conn_flags s) { guest_account = true }
          else share_conn_flags s in
        let w' : World = record w {
          users =
              update account reset_login
                (update account (λ v. record v { ref_count = inc v.ref_count }) w.users);
        } in
        rw
          (
            account_login,
            lookup-some account w.users u f (live account u f).0,
            lookup-some account w.users u f (live account u f).0,
            account_policy,
            f,
          )
          (unfold room_for in user_lists-answer flags account w' wf)
  ]

module _ (users : Users) (live : Live users) where
  pub unknown-lookup_name :
      (o : Option (List ℕ)) → known o users ≡ false → lookup_name o users ≡ (none, users)
  unfolding lookup_name
  unknown-lookup_name none k = refl
  unknown-lookup_name (some name) k = elim (Option-cases (find name users)) [
    | inl f ↦ rw (lookup_name, lookup-none name users f, lookup-none name users f) refl
    | inr (u, f) ↦ ground arith
  ]

  pub known-lookup_name :
      (o : Option (List ℕ))
      → known o users ≡ true
      → (name : List ℕ) × ((lookup_name o users).0 ≡ some name)
  unfolding lookup_name
  known-lookup_name none k = cc
  known-lookup_name (some name) k = elim (Option-cases (find name users)) [
    | inl f ↦ ground arith
    | inr (u, f) ↦ (name, rw (lookup_name, lookup-some name users u f (live name u f).0) refl)
  ]

-- the guest accounts, where one is asked for
guest_policy : TreeConf → TreeRequest → Share → World → Answer
guest_policy conf req s w =
    if (req.guest_flag && s.flags.guest_ok)
      && (known s.guest_account w.users || known conf.guest_account w.users)
    then (tree_ok, some (record (share_conn_flags s) { guest_account = true }))
    else account_policy req s w

module _ (libc : Libc) (conf : TreeConf) (req : TreeRequest) (s : Share) (w : World)
    (live : Live w.users) (wf : SessionsWf w.sessions) where
  guest-answer : Answers (guest_or_account conf req s w) (guest_policy conf req s w) w
  unfolding guest_or_account guest_policy answer_of sessions_of
  guest-answer = elim (Bool-cases (req.guest_flag && s.flags.guest_ok)) [
    | inr e ↦ rw (guest_or_account, e) (account_login-answer req s w live wf)
    | inl e ↦ elim (Bool-cases (known s.guest_account w.users)) [
      | inl k ↦
          let (name, l) = known-lookup_name w.users live s.guest_account k in
          rw (guest_or_account, guest_policy, e, k, l) (refl, refl)
      | inr k ↦
          let l = unknown-lookup_name w.users live s.guest_account k in
          elim (Bool-cases (known conf.guest_account w.users)) [
            | inl k' ↦
                let (name, l') = known-lookup_name w.users live conf.guest_account k' in
                rw (guest_or_account, guest_policy, e, k, k', l, l, l') (refl, refl)
            | inr k' ↦
                let l' = unknown-lookup_name w.users live conf.guest_account k' in
                rw (guest_or_account, guest_policy, e, k, k', l, l, l', l, l')
                  (account_login-answer req s w live wf)
          ]
    ]
  ]

  pub share-answer : Answers (connect_share libc conf req s w) (share_policy libc conf req s w) w
  unfolding connect_share share_policy answer_of sessions_of
  share-answer =
      let host = host_refused_lem libc s (c_string req.peer_addr) in
      let guest = guest_refused_lem conf req s in
      elim (Bool-cases (host_admitted libc s (c_string req.peer_addr))) [
        | inr h ↦ rw (connect_share, share_policy, host, h) (refl, refl)
        | inl h ↦ elim (Bool-cases (guest_admitted conf req s)) [
          | inr g ↦ rw (connect_share, share_policy, host, guest, h, g) (refl, refl)
          | inl g ↦
              rw (connect_share, share_policy, host, guest, h, g)
                (unfold guest_policy in guest-answer)
        ]
      ]

-- The labels at the end give the answer of the jump to them.
unfoldable pub Lands : TreeRequest → List ℕ → Jump → Answer → Type 0
Lands req key j a = (w' : World) × (land req key j ≡ some (a.0, a.1, w'))

pub land-answer :
    (req : TreeRequest) (key : List ℕ) (j : Jump) (a : Answer) (w : World)
    → SessionsWf w.sessions
    → Answers j a w
    → Lands req key j a
unfolding Lands land answer_of sessions_of
land-answer req key (out_error status user v) a w wf (e, same) =
    (release key user v, ap (λ (b : Answer). some (b.0, b.1, release key user v)) e)
land-answer req key (bind flags user v) a w wf (e, same) =
    let conn : TreeConn = record { id = req.connect_id; share = some key; flags = flags } in
    let (v', q) = connect-total req.session_id user conn v (subst SessionsWf (sym same) wf) in
    let v'' : World = record v' { shares = update key clear_update v'.shares } in
    (v'', rw (land, q) (ap (λ (b : Answer). some (b.0, b.1, v'')) e))
