-- ===== src/TreeConn/Tests.antt =====
-- A concrete connect, and the theorems on tools/management/tree_conn.c.
use ksmbd_tools.Base.{
  ℕ, refl, arith, true, false, Option, none, some, List, [], ◌∷◌, find, c_string, str_eq,
  terminated, str_mem, update,
}
use ksmbd_tools.User.Tests.{users, All-Live}
use ksmbd_tools.User.Login.{never}
use ksmbd_tools.Share.{Share, shm_lookup_share, shm_open_connection, shm_lookup_users_map}
use ksmbd_tools.User.{usm_lookup_user, get_ksmbd_user}
use ksmbd_tools.Share.Hosts.{Libc, shm_lookup_hosts_map}
use ksmbd_tools.Session.{
  ConnFlags, World, sm_handle_tree_connect, sm_lookup_session, find_session, update_session,
}
use ksmbd_tools.Session.Tests.{world, world-SessionsWf}
use ksmbd_tools.TreeConn.{
  TreeResult, host_refused, guest_refused, user_lists, account_login, guest_or_account,
  connect_share, land, clear_update, TreeConf, TreeRequest, tcm_handle_tree_connect,
}
use ksmbd_tools.TreeConn.{no_user}
use ksmbd_tools.TreeConn.Released.{Steady, Untouched, tree_connect-refused}

-- no address is parsed
abbrev libc : Libc
libc = record { strtol = λ _. none; inet_pton4 = λ _. none; inet_pton6 = λ _. none }

abbrev same : List ℕ → List ℕ
same s = s

abbrev conf : TreeConf
conf = record { map_to_guest = never; restrict_anon = 0; guest_account = none }

-- bob, who has session 7, asks for the share
abbrev request : TreeRequest
request = record {
  account = b'b' ∷ 0 ∷ [];
  guest_flag = false;
  bad_password = false;
  session_id = 7;
  connect_id = 9;
  share = b'd' ∷ 0 ∷ [];
  peer_addr = b'1' ∷ 0 ∷ [];
}

abbrev granted_flags : ConnFlags
granted_flags = record {
  writable = true;
  read_only = false;
  update_flag = true;
  guest_account = false;
  admin_account = false;
}

world_of : Option TreeResult → World
world_of none = world
world_of (some (status, flags, w')) = w'

-- alice, whom the table does not have
abbrev stranger : TreeRequest
stranger = record request { account = b'a' ∷ 0 ∷ [] }

world-Steady : Steady world.shares
unfolding find
world-Steady key s f = ground arith

tree_connect-refused_example :
    Untouched stranger world (world_of (tcm_handle_tree_connect libc same conf stranger world))
unfolding find str_eq c_string terminated world_of shm_lookup_share shm_open_connection
    shm_lookup_hosts_map shm_lookup_users_map str_mem host_refused guest_refused user_lists
    account_login guest_or_account connect_share land clear_update tcm_handle_tree_connect
    usm_lookup_user get_ksmbd_user update sm_handle_tree_connect sm_lookup_session find_session
    update_session
tree_connect-refused_example =
    tree_connect-refused libc same conf stranger no_user world
      (world_of (tcm_handle_tree_connect libc same conf stranger world))
      (All-Live users ((omega arith, omega arith), tt)) world-Steady world-SessionsWf refl (λ e. cc)
