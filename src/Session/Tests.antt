-- ===== src/Session/Tests.antt =====
-- A concrete table of sessions, and the theorems on tools/management/session.c.
use ksmbd_tools.Base.{ℕ, ◌+◌, ◌≡◌, refl, arith, true, false, none, some, [], ◌∷◌, length}
use ksmbd_tools.Session.{
  TreeConn, Session, World, find_session, find_tree_conn, sm_handle_tree_connect,
  sm_check_sessions_capacity, sm_handle_tree_disconnect, sm_lookup_session,
}
use ksmbd_tools.Session.Wf.{SessionsWf}
use ksmbd_tools.Session.Capacity.{
  Room, disconnect-SessionsWf, disconnect-capacity, connect-SessionsWf, connect-capacity,
}
use ksmbd_tools.Session.RoundTrip.{disconnect-connect}
use ksmbd_tools.User.Tests.{users}
use ksmbd_tools.Share.Tests.{docs}

abbrev conn_at : ℕ → TreeConn
conn_at n = record {
  id = n;
  share = some (b'd' ∷ []);
  flags = record {
    writable = true;
    read_only = false;
    update_flag = false;
    guest_account = false;
    admin_account = false;
  };
}

abbrev session : Session
session = record {
  id = 7;
  user = b'b' ∷ [];
  tree_conns = conn_at 1 ∷ conn_at 2 ∷ [];
  ref_counter = 2;
}

-- one session with two tree connections
abbrev pub world : World
world = record {
  users = users;
  shares = (b'd' ∷ [], docs) ∷ [];
  sessions = session ∷ [];
  sessions_cap = 3;
}

pub world-SessionsWf : SessionsWf world.sessions
unfolding find_session
world-SessionsWf = (((refl, omega arith, omega arith), tt), (refl, tt))

world-Room : (id : ℕ) → Room id world.sessions
unfolding find_session
world-Room id s f = ground arith

disconnect-SessionsWf_example : SessionsWf (sm_handle_tree_disconnect 7 2 world).sessions
disconnect-SessionsWf_example = disconnect-SessionsWf 7 2 world world-SessionsWf

disconnect-capacity_example :
    (sm_handle_tree_disconnect 7 2 world).sessions_cap
      + length (sm_handle_tree_disconnect 7 2 world).sessions
    ≡ 3 + length world.sessions
disconnect-capacity_example = disconnect-capacity 7 2 world world-SessionsWf

connect-SessionsWf_example :
    (w' : World) × (sm_handle_tree_connect 8 (b'b' ∷ []) (conn_at 3) world ≡ some w')
    × SessionsWf w'.sessions
connect-SessionsWf_example =
    connect-SessionsWf 8 (b'b' ∷ []) (conn_at 3) world world-SessionsWf (world-Room 8)

-- the world after session 8 is opened
abbrev opened : World
opened = record {
  users = users;
  shares = (b'd' ∷ [], docs) ∷ [];
  sessions =
      session
      ∷ record { id = 8; user = b'b' ∷ []; tree_conns = conn_at 3 ∷ []; ref_counter = 1 }
      ∷ [];
  sessions_cap = 2;
}

connect-capacity_example : opened.sessions_cap + length opened.sessions ≡ 3 + length world.sessions
unfolding sm_check_sessions_capacity sm_lookup_session find_session sm_handle_tree_connect
connect-capacity_example =
    connect-capacity 8 (b'b' ∷ []) (conn_at 3) world opened world-SessionsWf (refl, refl)

no_session :
    (s : Session) → find_session 8 world.sessions ≡ some s → find_tree_conn 3 s.tree_conns ≡ none
unfolding find_session
no_session s f = cc

disconnect-connect_example :
    (sm_handle_tree_disconnect 8 3 (record opened { sessions_cap = 3 })).sessions ≡ world.sessions
unfolding sm_lookup_session find_session sm_handle_tree_connect
disconnect-connect_example =
    disconnect-connect 8 (b'b' ∷ []) (conn_at 3) world (record opened { sessions_cap = 3 })
      world-SessionsWf (world-Room 8) no_session refl
