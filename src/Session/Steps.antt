-- ===== src/Session/Steps.antt =====
-- What the operations of tools/management/session.c do to a table of sessions that is well formed.
use ksmbd_tools.Base.{ℕ, ◌≢◌, ◌+◌, ◌-◌, ◌≡◌, refl, ap, ◌∙◌, arith, ltb, if◌then◌else◌, ==_ne}
use ksmbd_tools.Base.{Bool, true, false, none, some, List, [], ◌∷◌, ◌++◌, inc, dec}
use ksmbd_tools.Session.{
  Session, TreeConn, World, find_session, update_session, remove_session, sm_lookup_session,
  put_session, sm_remove_session, kill_ksmbd_session, sm_handle_tree_connect,
  sm_check_sessions_capacity, sm_handle_tree_disconnect, tcm_tree_conn_free, new_ksmbd_session,
  add_tree_conn,
}
use ksmbd_tools.Session.{find_tree_conn, remove_tree_conn, is_nil, drop_tree_conn}
use ksmbd_tools.Session.Wf.{
  Counted, find-update_self, update-update, update-ext, update-same, remove-update,
}

-- the session with one reference more
abbrev pub held : Session → Session
held s = record s { ref_counter = inc s.ref_counter }

-- and with one tree connection more
abbrev pub joined : TreeConn → Session → Session
joined conn s = record s {
  tree_conns = s.tree_conns ++ (conn ∷ []);
  ref_counter = inc s.ref_counter;
}

-- the session without the first connection of this id
abbrev pub left : ℕ → Session → Session
left id s = record s {
  tree_conns = remove_tree_conn id s.tree_conns;
  ref_counter = dec s.ref_counter;
}

-- and with one reference less
abbrev pub released : Session → Session
released s = record s { ref_counter = dec s.ref_counter }

module _ (id : ℕ) (w : World) (s : Session) (f : find_session id w.sessions ≡ some s) where
  put-keep :
      dec s.ref_counter ≢ 0
      → put_session id w ≡ record w { sessions = update_session id released w.sessions }
  unfolding put_session
  put-keep n = rw (put_session, f, ==_ne (dec s.ref_counter) 0 n)

  put-last :
      dec s.ref_counter ≡ 0
      → (put_session id w).sessions ≡ remove_session id w.sessions
        × (put_session id w).sessions_cap ≡ w.sessions_cap
  unfolding put_session sm_remove_session kill_ksmbd_session
  put-last z = rw (put_session, f, z) (remove-update id released (λ t. refl) w.sessions, refl)

module _ (id : ℕ) (w : World) where
  pub lookup-none :
      find_session id w.sessions ≡ none → sm_lookup_session id w.sessions ≡ (none, w.sessions)
  unfolding sm_lookup_session
  lookup-none f = rw (f, sm_lookup_session)

  module _ (s : Session) (f : find_session id w.sessions ≡ some s) (c : Counted s) where
    pub lookup-some :
        sm_lookup_session id w.sessions ≡ (some (held s), update_session id held w.sessions)
    unfolding sm_lookup_session
    lookup-some = rw (f, sm_lookup_session, ==_ne s.ref_counter 0 (omega arith))

    -- A lookup and a put give the table back.
    pub put-lookup : put_session id (record w { sessions = update_session id held w.sessions }) ≡ w
    unfolding put_session
    put-lookup =
        let keep : dec (inc s.ref_counter) ≡ s.ref_counter = omega arith in
        rw
          (
            put_session,
            find-update_self id held (λ t. refl) w.sessions s f,
            keep,
            ==_ne s.ref_counter 0 (omega arith),
            update-update id held (λ t. refl) released w.sessions,
          )
          (ap (λ ss. record w { sessions = ss })
            (update-same id (λ t. released (held t)) w.sessions s f
              (ap (λ n. record s { ref_counter = n }) keep)))

    pub connect-some :
        (user : List ℕ) (conn : TreeConn)
        → sm_handle_tree_connect id user conn w
          ≡ some (record w { sessions = update_session id (joined conn) w.sessions })
    unfolding sm_handle_tree_connect add_tree_conn
    connect-some user conn = rw (
      sm_handle_tree_connect,
      lookup-some,
      lookup-some,
      update-update id held (λ t. refl) (add_tree_conn conn) w.sessions,
    )

    pub check-some : sm_check_sessions_capacity id w ≡ (true, w)
    unfolding sm_check_sessions_capacity
    check-some = rw (sm_check_sessions_capacity, lookup-some, lookup-some, put-lookup)

    pub disconnect-absent :
        (k : ℕ) → find_tree_conn k s.tree_conns ≡ none → sm_handle_tree_disconnect id k w ≡ w
    unfolding sm_handle_tree_disconnect
    disconnect-absent k n = rw (sm_handle_tree_disconnect, lookup-some, n, lookup-some, put-lookup)

    module _ (k : ℕ) (conn : TreeConn) (h : find_tree_conn k s.tree_conns ≡ some conn) where
      -- the world that the last `put_session` is given
      abbrev left_world : Bool → World
      left_world last = record {
        users = (tcm_tree_conn_free conn (w.shares, w.users)).1;
        shares = (tcm_tree_conn_free conn (w.shares, w.users)).0;
        sessions = update_session id (λ t. drop_tree_conn k (held t)) w.sessions;
        sessions_cap = if last then w.sessions_cap + 1 else w.sessions_cap;
      }

      disconnect-put :
          (last : Bool)
          → is_nil (remove_tree_conn k s.tree_conns) ≡ last
          → sm_handle_tree_disconnect id k w ≡ put_session id (left_world last)
      unfolding sm_handle_tree_disconnect
      disconnect-put last e =
          rw
            (
              sm_handle_tree_disconnect,
              lookup-some,
              h,
              lookup-some,
              e,
              update-update id held (λ t. refl) (drop_tree_conn k) w.sessions,
            )
            refl

      found_left :
          find_session id (update_session id (λ t. drop_tree_conn k (held t)) w.sessions)
          ≡ some (drop_tree_conn k (held s))
      unfolding drop_tree_conn
      found_left = find-update_self id (λ t. drop_tree_conn k (held t)) (λ t. refl) w.sessions s f

      pub disconnect-more :
          is_nil (remove_tree_conn k s.tree_conns) ≡ false
          → s.ref_counter ≢ 1
          → (sm_handle_tree_disconnect id k w).sessions ≡ update_session id (left k) w.sessions
            × (sm_handle_tree_disconnect id k w).sessions_cap ≡ w.sessions_cap
      unfolding drop_tree_conn
      disconnect-more more keep =
          let fewer : dec (dec (inc s.ref_counter)) ≡ dec s.ref_counter = omega arith in
          rw
            (
              disconnect-put false more,
              put-keep id (left_world false) (drop_tree_conn k (held s)) found_left (omega arith),
            )
            (
              update-update id (λ t. drop_tree_conn k (held t)) (λ t. refl) released w.sessions
                  ∙ update-ext id _ (left k) w.sessions s f
                      (ap (λ n. record (left k s) { ref_counter = n }) fewer),
              refl,
            )

      pub disconnect-last :
          is_nil (remove_tree_conn k s.tree_conns) ≡ true
          → s.ref_counter ≡ 1
          → (sm_handle_tree_disconnect id k w).sessions ≡ remove_session id w.sessions
            × (sm_handle_tree_disconnect id k w).sessions_cap ≡ w.sessions_cap + 1
      unfolding drop_tree_conn
      disconnect-last last one =
          let (ss, cap) =
            put-last id (left_world true) (drop_tree_conn k (held s)) found_left (omega arith) in
          rw (disconnect-put true last)
            (ss ∙ remove-update id (λ t. drop_tree_conn k (held t)) (λ t. refl) w.sessions, cap)

  pub connect-none :
      find_session id w.sessions ≡ none
      → (user : List ℕ) (conn : TreeConn)
      → sm_handle_tree_connect id user conn w
        ≡ some (record w {
          sessions =
              w.sessions
              ++ (record { id = id; user = user; tree_conns = conn ∷ []; ref_counter = 1 } ∷ []);
        })
  unfolding sm_handle_tree_connect new_ksmbd_session
  connect-none f user conn = rw (sm_handle_tree_connect, lookup-none f, f)

  pub disconnect-none :
      (k : ℕ) → find_session id w.sessions ≡ none → sm_handle_tree_disconnect id k w ≡ w
  unfolding sm_handle_tree_disconnect
  disconnect-none k f = rw (sm_handle_tree_disconnect, lookup-none f)

  pub check-none :
      find_session id w.sessions ≡ none
      → sm_check_sessions_capacity id w ≡ (
          if ltb w.sessions_cap 1
          then (false, w)
          else (true, record w { sessions_cap = w.sessions_cap - 1 }))
  unfolding sm_check_sessions_capacity
  check-none f = rw (sm_check_sessions_capacity, lookup-none f)
