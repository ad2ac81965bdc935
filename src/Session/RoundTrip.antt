-- ===== src/Session/RoundTrip.antt =====
-- A tree connection that is bound to a session and taken away again, in
-- tools/management/session.c.
use ksmbd_tools.Base.{ℕ, ◌+◌, ◌^◌, ◌<◌, ◌≡◌, refl, sym, ap, ◌∙◌, arith}
use ksmbd_tools.Base.{
  false, Option, none, some, List, [], ◌∷◌, ◌++◌, length, length-append, Option-cases, inl, inr,
  inc, dec,
}
use ksmbd_tools.Session.{
  Session, TreeConn, World, find_session, update_session, remove_session, sm_handle_tree_connect,
  sm_handle_tree_disconnect,
}
use ksmbd_tools.Session.{find_tree_conn, remove_tree_conn, is_nil}
use ksmbd_tools.Session.Wf.{
  Counted, SessionsWf, find-Counted, find-update_self, update-update, update-same,
}
use ksmbd_tools.Session.Steps.{
  joined, left, connect-some, connect-none, disconnect-more, disconnect-last,
}
use ksmbd_tools.Session.Capacity.{Room}

remove-append :
    (conn : TreeConn) (cs : List TreeConn)
    → find_tree_conn conn.id cs ≡ none
    → (find_tree_conn conn.id (cs ++ (conn ∷ [])) ≡ some conn)
      × (remove_tree_conn conn.id (cs ++ (conn ∷ [])) ≡ cs)
unfolding find_tree_conn remove_tree_conn
remove-append conn [] h = ground arith
remove-append conn (c ∷ cs) h = ground (arith, remove-append conn cs)

find-append_self :
    (s : Session) (ss : List Session)
    → find_session s.id ss ≡ none
    → (find_session s.id (ss ++ (s ∷ [])) ≡ some s) × (remove_session s.id (ss ++ (s ∷ [])) ≡ ss)
unfolding find_session remove_session
find-append_self s [] h = ground arith
find-append_self s (t ∷ ss) h = ground (arith, find-append_self s ss)

positive-is_nil : (cs : List TreeConn) → 0 < length cs → is_nil cs ≡ false
positive-is_nil [] h = absurd (omega arith)
positive-is_nil (c ∷ cs) h = refl

-- the sessions after a disconnect of what was just connected
after : ℕ → ℕ → Option World → List Session
after id k none = []
after id k (some w) = (sm_handle_tree_disconnect id k w).sessions

module _ (id : ℕ) (user : List ℕ) (conn : TreeConn) (w : World) where
  new_session :
      find_session id w.sessions ≡ none
      → after id conn.id (sm_handle_tree_connect id user conn w) ≡ w.sessions
  unfolding after
  new_session f =
      let s : Session = record { id = id; user = user; tree_conns = conn ∷ []; ref_counter = 1 } in
      let w' : World = record w { sessions = w.sessions ++ (s ∷ []) } in
      let (f', r) = find-append_self s w.sessions f in
      let (h, last) = remove-append conn [] (unfold find_tree_conn in refl) in
      rw (connect-none id w f user conn) (
        (disconnect-last id w' s f' (refl, omega arith, omega arith) conn.id conn h (ap is_nil last)
          refl).0
        ∙ r)

  old_session :
      (s : Session)
      → find_session id w.sessions ≡ some s
      → Counted s
      → s.ref_counter + 2 < 2 ^ 32
      → find_tree_conn conn.id s.tree_conns ≡ none
      → after id conn.id (sm_handle_tree_connect id user conn w) ≡ w.sessions
  unfolding after
  old_session s f c room new =
      let w' : World = record w { sessions = update_session id (joined conn) w.sessions } in
      let f' = find-update_self id (joined conn) (λ t. refl) w.sessions s f in
      let (h, kept) = remove-append conn s.tree_conns new in
      let len = length-append s.tree_conns (conn ∷ []) in
      let more = ap is_nil kept ∙ positive-is_nil s.tree_conns (omega arith) in
      let back : dec (inc s.ref_counter) ≡ s.ref_counter = omega arith in
      rw (connect-some id w s f c user conn) (
        (disconnect-more id w' (joined conn s) f' (omega arith, omega arith, omega arith) conn.id
          conn h more (omega arith)).0
        ∙ update-update id (joined conn) (λ t. refl) (left conn.id) w.sessions
        ∙ update-same id (λ t. left conn.id (joined conn t)) w.sessions s f
            (ap (λ cs. record s { tree_conns = cs; ref_counter = dec (inc s.ref_counter) }) kept
              ∙ ap (λ n. record s { ref_counter = n }) back))

-- A connection of a new id that is bound to a session and disconnected again leaves the table of
-- sessions as it was, whether or not the session was there, in a well-formed table whose session of
-- this id has room for a reference more.
pub disconnect-connect :
    (id : ℕ) (user : List ℕ) (conn : TreeConn) (w w' : World)
    → SessionsWf w.sessions
    → Room id w.sessions
    → ((s : Session)
        → find_session id w.sessions ≡ some s
        → find_tree_conn conn.id s.tree_conns ≡ none)
    → sm_handle_tree_connect id user conn w ≡ some w'
    → (sm_handle_tree_disconnect id conn.id w').sessions ≡ w.sessions
unfolding after
disconnect-connect id user conn w w' (counted, d) room new e =
    ap (after id conn.id) (sym e) ∙ elim (Option-cases (find_session id w.sessions)) [
      | inl f ↦ new_session id user conn w f
      | inr (s, f) ↦
          old_session id user conn w s f (find-Counted id w.sessions s counted f) (room s f)
            (new s f)
    ]
