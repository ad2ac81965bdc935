-- ===== src/Session.antt =====
-- tools/management/session.c and include/management/session.h, and `tcm_tree_conn_free` of
-- tools/management/tree_conn.c: the table of sessions, the tree connections of each, and the
-- capacity for new sessions.
-- `sessions_table` is a list of sessions with at most one for an id; a pointer to a session is its
-- id, one to a user or a share the key of its table. An allocation does not fail. `sessions_cap` is
-- positive after the configuration is read, and a request takes one of it only where it is.
pub mod Wf
pub mod Steps
pub mod Capacity
pub mod RoundTrip
pub mod Tests
use ksmbd_tools.Base.{ℕ, ◌+◌, ◌-◌, ltb, ◌==◌, if◌then◌else◌}
use ksmbd_tools.Base.{Bool, true, false, Option, none, some, List, [], ◌∷◌, ◌++◌}
use ksmbd_tools.Base.{update, inc, dec}
use ksmbd_tools.User.{Users, put_ksmbd_user}
use ksmbd_tools.Share.{Shares, shm_close_connection, put_ksmbd_share}

pub record ConnFlags : Type 0 where
  pub writable : Bool
  pub read_only : Bool
  pub update_flag : Bool
  pub guest_account : Bool
  pub admin_account : Bool

-- `share` is `none` where the pointer is NULL.
pub record TreeConn : Type 0 where
  pub id : ℕ
  pub share : Option (List ℕ)
  pub flags : ConnFlags

pub record Session : Type 0 where
  pub id : ℕ
  pub user : List ℕ
  pub tree_conns : List TreeConn
  pub ref_counter : ℕ

-- the tables of the daemon
pub record World : Type 0 where
  pub users : Users
  pub shares : Shares
  pub sessions : List Session
  pub sessions_cap : ℕ

-- `__sm_lookup_session`
unfoldable pub find_session : ℕ → List Session → Option Session
find_session id [] = none
find_session id (s ∷ ss) = if id == s.id then some s else find_session id ss

-- the session of this id, with other fields
unfoldable pub update_session : ℕ → (Session → Session) → List Session → List Session
update_session id f [] = []
update_session id f (s ∷ ss) = if id == s.id then f s ∷ ss else s ∷ update_session id f ss

unfoldable pub remove_session : ℕ → List Session → List Session
remove_session id [] = []
remove_session id (s ∷ ss) = if id == s.id then ss else s ∷ remove_session id ss

-- `tcm_tree_conn_free`: a connection to a share is closed, and the reference to it let go.
unfoldable pub tcm_tree_conn_free : TreeConn → Shares × Users → Shares × Users
tcm_tree_conn_free conn (shares, users) = elim conn.share [
  | none ↦ (shares, users)
  | some key ↦ put_ksmbd_share key (update key shm_close_connection shares, users)
]

free_tree_conns : List TreeConn → Shares × Users → Shares × Users
free_tree_conns [] tables = tables
free_tree_conns (c ∷ cs) tables = free_tree_conns cs (tcm_tree_conn_free c tables)

-- `kill_ksmbd_session`: its tree connections are freed, and its user let go.
unfoldable pub kill_ksmbd_session : Session → Shares × Users → Shares × Users
unfolding free_tree_conns
kill_ksmbd_session s tables =
    let (shares, users) = free_tree_conns s.tree_conns tables in
    (shares, put_ksmbd_user s.user users)

-- `__get_session` and `sm_lookup_session`: a session that is being dropped is not handed out.
unfoldable pub sm_lookup_session : ℕ → List Session → Option Session × List Session
sm_lookup_session id sessions = elim (find_session id sessions) [
  | none ↦ (none, sessions)
  | some s ↦ if s.ref_counter == 0 then (none, sessions) else (
    some (record s { ref_counter = inc s.ref_counter }),
    update_session id (λ t. record t { ref_counter = inc t.ref_counter }) sessions,
  )
]

-- `__sm_remove_session`
unfoldable pub sm_remove_session : ℕ → Session → World → World
sm_remove_session id s w =
    let (shares, users) = kill_ksmbd_session s (w.shares, w.users) in
    record w { sessions = remove_session id w.sessions; shares = shares; users = users }

-- `__put_session` on the session of this id
unfoldable pub put_session : ℕ → World → World
put_session id w = elim (find_session id w.sessions) [
  | none ↦ w
  | some s ↦
      let s' = record s { ref_counter = dec s.ref_counter } in
      let w' = record w {
        sessions = update_session id (λ t. record t { ref_counter = dec t.ref_counter }) w.sessions;
      } in
      if dec s.ref_counter == 0 then sm_remove_session id s' w' else w'
]

new_ksmbd_session : ℕ → List ℕ → TreeConn → Session
new_ksmbd_session id user conn = record {
  id = id;
  user = user;
  tree_conns = conn ∷ [];
  ref_counter = 1;
}

add_tree_conn : TreeConn → Session → Session
add_tree_conn conn s = record s { tree_conns = s.tree_conns ++ (conn ∷ []) }

-- `sm_handle_tree_connect`, undisturbed by another thread. `none` is an id whose session is in the
-- table and is being dropped: the insertion then fails, and the table is left with a freed session.
unfoldable pub sm_handle_tree_connect : ℕ → List ℕ → TreeConn → World → Option World
unfolding new_ksmbd_session add_tree_conn
sm_handle_tree_connect id user conn w =
    let (found, sessions) = sm_lookup_session id w.sessions in
    elim found [
      | some _ ↦ some (record w { sessions = update_session id (add_tree_conn conn) sessions })
      | none ↦ elim (find_session id w.sessions) [
        | some _ ↦ none
        | none ↦ some (record w { sessions = w.sessions ++ (new_ksmbd_session id user conn ∷ []) })
      ]
    ]

-- `sm_check_sessions_capacity`: true is 0, false is -EINVAL.
unfoldable pub sm_check_sessions_capacity : ℕ → World → Bool × World
sm_check_sessions_capacity id w =
    let (found, sessions) = sm_lookup_session id w.sessions in
    elim found [
      | some _ ↦ (true, put_session id (record w { sessions = sessions }))
      | none ↦
          if ltb w.sessions_cap 1
          then (false, w)
          else (true, record w { sessions_cap = w.sessions_cap - 1 })
    ]

unfoldable pub find_tree_conn : ℕ → List TreeConn → Option TreeConn
find_tree_conn id [] = none
find_tree_conn id (c ∷ cs) = if c.id == id then some c else find_tree_conn id cs

-- `g_list_remove` of the connection that was found
unfoldable pub remove_tree_conn : ℕ → List TreeConn → List TreeConn
remove_tree_conn id [] = []
remove_tree_conn id (c ∷ cs) = if c.id == id then cs else c ∷ remove_tree_conn id cs

drop_tree_conn : ℕ → Session → Session
drop_tree_conn id s = record s {
  tree_conns = remove_tree_conn id s.tree_conns;
  ref_counter = dec s.ref_counter;
}

abbrev pub is_nil : List TreeConn → Bool
is_nil [] = true
is_nil (c ∷ cs) = false

-- `sm_handle_tree_disconnect`; it always returns 0.
unfoldable pub sm_handle_tree_disconnect : ℕ → ℕ → World → World
unfolding drop_tree_conn
sm_handle_tree_disconnect sess_id tree_conn_id w =
    let (found, sessions) = sm_lookup_session sess_id w.sessions in
    elim found [
      | none ↦ w
      | some s ↦ elim (find_tree_conn tree_conn_id s.tree_conns) [
        | none ↦ put_session sess_id (record w { sessions = sessions })
        | some conn ↦
            let (shares, users) = tcm_tree_conn_free conn (w.shares, w.users) in
            let last = is_nil (remove_tree_conn tree_conn_id s.tree_conns) in
            put_session sess_id (record {
              users = users;
              shares = shares;
              sessions = update_session sess_id (drop_tree_conn tree_conn_id) sessions;
              sessions_cap = if last then w.sessions_cap + 1 else w.sessions_cap;
            })
      ]
    ]
