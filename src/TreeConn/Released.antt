-- ===== src/TreeConn/Released.antt =====
-- What a refused `tcm_handle_tree_connect` of tools/management/tree_conn.c gives back.
use ksmbd_tools.Base.{
  ℕ, ◌+◌, ◌^◌, ◌<◌, ◌≡◌, ◌≢◌, refl, sym, ap, ◌∙◌, arith, leb, ◌==◌, ==_ne, not, ◌&&◌,
}
use ksmbd_tools.Base.{Option, none, some, List, Option-cases, Bool-cases, inl, inr}
use ksmbd_tools.Base.{
  find, update, inc, dec, find-update_self, update-update, update-same, update-ext,
}
use ksmbd_tools.User.{Users, put_ksmbd_user}
use ksmbd_tools.Share.{Share, Shares, put_ksmbd_share, shm_close_connection}
use ksmbd_tools.Session.{World}
use ksmbd_tools.Session.{ConnFlags}
use ksmbd_tools.Session.Wf.{SessionsWf}
use ksmbd_tools.User.{User}
use ksmbd_tools.User.Login.Refine.{Live}
use ksmbd_tools.Share.Hosts.{Libc}
use ksmbd_tools.Base.{c_string, ◌⊎◌}
use mathlib.Core.Path.{subst}
use ksmbd_tools.Base.{terminated}
use ksmbd_tools.User.Login.{is_never}
use ksmbd_tools.TreeConn.{tcm_handle_tree_connect, too_many_conns}
use ksmbd_tools.TreeConn.Refine.{lookup-no_share, lookup-share, open-full, open-free}
use ksmbd_tools.Session.{TreeConn, sm_handle_tree_connect}
use ksmbd_tools.TreeConn.{
  TreeStatus, TreeResult, land, TreeConf, connect_share, reset_login, TreeRequest, Jump, bind,
  out_error, release,
}
use ksmbd_tools.TreeConn.Refusal.{logged_in, Refuses, share-refused}

-- a share as it is looked up, and as a connection is opened on it
abbrev held : Share → Share
held s = record s { ref_count = inc s.ref_count }

abbrev joined : Share → Share
joined s = record s { ref_count = inc s.ref_count; num_connections = s.num_connections + 1 }

abbrev put_once : Share → Share
put_once s = record s { ref_count = dec s.ref_count }

close-joined : (s : Share) → shm_close_connection (joined s) ≡ held s
unfolding shm_close_connection
close-joined s = ground arith

module _ (key : List ℕ) (s : Share) (w : World) (f : find key w.shares ≡ some s)
    (lo : 0 < s.ref_count) (hi : s.ref_count + 1 < 2 ^ 32) where
  -- the table with the share looked up, and a connection open on it
  abbrev pub opened_shares : Shares
  opened_shares = update key (λ _. joined s) (update key held w.shares)

  closed_shares : update key shm_close_connection opened_shares ≡ update key (λ _. held s) w.shares
  closed_shares =
      ap (update key shm_close_connection) (update-update key held (λ _. joined s) w.shares)
      ∙ (update-update key (λ _. joined s) shm_close_connection w.shares
          ∙ update-ext key _ (λ _. held s) w.shares s f (close-joined s))

  -- `put_ksmbd_share` then gives the table back, and frees nothing.
  pub put-closed :
      (users : Users)
      → put_ksmbd_share key (update key shm_close_connection opened_shares, users)
        ≡ (w.shares, users)
  unfolding put_ksmbd_share
  put-closed users =
      let keep : dec (inc s.ref_count) ≡ s.ref_count = omega arith in
      rw
        (
          put_ksmbd_share,
          closed_shares,
          find-update_self key (λ _. held s) w.shares s f,
          keep,
          ==_ne s.ref_count 0 (omega arith),
          closed_shares,
          update-update key (λ _. held s) put_once w.shares,
        )
        (ap (λ t. (t, users))
          (update-same key (λ _. put_once (held s)) w.shares s f
            (ap (λ n. record s { ref_count = n }) keep)))

-- What a refusal leaves: the shares, the sessions and the capacity as they were, and the users too,
-- but that the account may count as logged in.
pub record Untouched (req : TreeRequest) (w w' : World) : Type 0 where
  pub same_shares : w'.shares ≡ w.shares
  pub same_sessions : w'.sessions ≡ w.sessions
  pub same_cap : w'.sessions_cap ≡ w.sessions_cap
  pub same_users :
      (w'.users ≡ w.users) ⊎ (w'.users ≡ update (c_string req.account) reset_login w.users)

result_world : World → Option TreeResult → World
result_world w none = w
result_world w (some (status, flags, w')) = w'

result_flags : Option TreeResult → Option ConnFlags
result_flags none = none
result_flags (some (status, flags, w')) = flags

result_status : Option TreeResult → TreeStatus
result_status none = TreeStatus.tree_ok
result_status (some (status, flags, w')) = status

module _ (req : TreeRequest) (key : List ℕ) (s : Share) (w : World) (f : find key w.shares ≡ some s)
    (lo : 0 < s.ref_count) (hi : s.ref_count + 1 < 2 ^ 32) where
  abbrev opened : World
  opened = record w { shares = opened_shares key s w f lo hi }

  release-none : Untouched req w (release key none opened)
  unfolding release
  release-none =
      let p = put-closed key s w f lo hi w.users in
      record {
        same_shares = ap (λ t. t.0) p;
        same_sessions = refl;
        same_cap = refl;
        same_users = inl (ap (λ t. t.1) p);
      }

  put-logged_in :
      (account : List ℕ) (users : Users) (u : User)
      → find account users ≡ some u
      → 0 < u.ref_count
      → u.ref_count + 1 < 2 ^ 32
      → put_ksmbd_user account (
          update account reset_login
            (update account (λ v. record v { ref_count = inc v.ref_count }) users))
        ≡ update account reset_login users
  unfolding put_ksmbd_user
  put-logged_in account users u g lo hi =
      let account_in : User → User = λ v. record v { ref_count = inc v.ref_count } in
      let keep : dec (inc u.ref_count) ≡ u.ref_count = omega arith in
      rw
        (
          put_ksmbd_user,
          update-update account account_in reset_login users,
          find-update_self account (λ v. reset_login (account_in v)) users u g,
          keep,
          ==_ne u.ref_count 0 (omega arith),
          update-update account account_in reset_login users,
          update-update account (λ v. reset_login (account_in v))
              (λ v. record v { ref_count = dec v.ref_count }) users,
        )
        (update-ext account _ reset_login users u g
          (ap (λ n. record (reset_login u) { ref_count = n }) keep))

  release-some :
      (u : User)
      → find (c_string req.account) w.users ≡ some u
      → 0 < u.ref_count
      → u.ref_count + 1 < 2 ^ 32
      → Untouched req w
          (release key (some (c_string req.account)) (logged_in (c_string req.account) opened))
  unfolding release
  release-some u g lo' hi' =
      let p = put-closed key s w f lo hi (logged_in (c_string req.account) w).users in
      record {
        same_shares = ap (λ t. t.0) p;
        same_sessions = refl;
        same_cap = refl;
        same_users = inr (
            ap (λ t. put_ksmbd_user (c_string req.account) t.1) p
            ∙ put-logged_in (c_string req.account) w.users u g lo' hi');
      }

  land-refused :
      (j : Jump) (status : TreeStatus) (w' : World)
      → Live w.users
      → Refuses j req opened
      → land req key j ≡ some (status, none, w')
      → Untouched req w w'
  unfolding land result_world result_flags
  land-refused (bind flags user v) status w' live r e =
      let conn : TreeConn = record { id = req.connect_id; share = some key; flags = flags } in
      elim (Option-cases (sm_handle_tree_connect req.session_id user conn v)) [
        | inl n ↦ let clash = rw (land, n) at e in cc
        | inr (v', q) ↦
            let e' = rw (land, q) at e in let clash : some flags ≡ none = ap result_flags e' in cc
      ]
  land-refused (out_error st user v) status w' live (inl (u, q)) e =
      let same : release key user v ≡ w' = ap (result_world w) e in
      subst (Untouched req w) same (rw (u, q) release-none)
  land-refused (out_error st user v) status w' live (inr (a, g, (u, q))) e =
      let (lo', hi') = live (c_string req.account) a g in
      let same : release key user v ≡ w' = ap (result_world w) e in
      subst (Untouched req w) same (rw (u, q) (release-some a g lo' hi'))

-- no share is being dropped, and no counter is about to wrap
abbrev pub Steady : Shares → Type 0
Steady shares =
    (key : List ℕ) (s : Share)
    → find key shares ≡ some s
    → (0 < s.ref_count) × (s.ref_count + 1 < 2 ^ 32)

Untouched-refl : (req : TreeRequest) (w : World) → Untouched req w w
Untouched-refl req w = record {
  same_shares = refl;
  same_sessions = refl;
  same_cap = refl;
  same_users = inl refl;
}

-- A `tcm_handle_tree_connect` that is refused, other than for too many connections, where no user
-- and no share is being dropped or at the end of its counter and the table of sessions is well
-- formed: every reference and the connection that it took are given back. The shares, the sessions
-- and the capacity are as before, and so are the users, but that the account may count as logged
-- in.
pub tree_connect-refused :
    (libc : Libc) (fold : List ℕ → List ℕ) (conf : TreeConf) (req : TreeRequest)
    (status : TreeStatus) (w w' : World)
    → Live w.users
    → Steady w.shares
    → SessionsWf w.sessions
    → tcm_handle_tree_connect libc fold conf req w ≡ some (status, none, w')
    → status ≢ too_many_conns
    → Untouched req w w'
unfolding tcm_handle_tree_connect result_world result_status land
tree_connect-refused libc fold conf req status w w' live steady wf e other =
    let key : List ℕ = fold (c_string req.share) in
    elim (Bool-cases
      (not (terminated req.share && (terminated req.account && terminated req.peer_addr)))) [
        | inl t ↦
            subst (Untouched req w) (ap (result_world w) (rw (tcm_handle_tree_connect, t) at e))
              (Untouched-refl req w)
        | inr t ↦ elim (Bool-cases (is_never conf.map_to_guest && req.bad_password)) [
          | inl b ↦
              subst (Untouched req w)
                (ap (result_world w) (rw (tcm_handle_tree_connect, t, b) at e))
                (Untouched-refl req w)
          | inr b ↦ elim (Option-cases (find key w.shares)) [
            | inl f ↦
                let l = lookup-no_share key w.shares f in
                subst (Untouched req w)
                  (ap (result_world w) (rw (tcm_handle_tree_connect, t, b, l, l) at e))
                  (Untouched-refl req w)
            | inr (s, f) ↦
                let (lo, hi) = steady key s f in
                let l = lookup-share key w.shares s f lo in
                elim (Bool-cases
                  (not (s.max_connections == 0) && leb s.max_connections s.num_connections)) [
                    | inl full ↦
                        let o = open-full s full in
                        let same : too_many_conns ≡ status =
                          ap result_status (rw (tcm_handle_tree_connect, t, b, l, o) at e) in
                        absurd (other (sym same))
                    | inr free ↦
                        let o = open-free s free in
                        land-refused req key s w f lo hi
                          (connect_share libc conf req (held s) (opened req key s w f lo hi)) status
                          w' live
                          (share-refused libc conf req (held s) (opened req key s w f lo hi) live
                            wf)
                          (rw (tcm_handle_tree_connect, t, b, l, o, l) at e)
                  ]
          ]
        ]
      ]
