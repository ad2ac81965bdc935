-- ===== src/TreeConn/Policy.antt =====
-- Who is let in by `tcm_handle_tree_connect` of tools/management/tree_conn.c: its answer, by the
-- tables alone, without the state that the code passes through. It follows the code where
-- ksmbd.conf.5.in, ksmbdctl.8.in and ksmbd.conf.example do not: they say that `hosts deny` has
-- precedence over `hosts allow`, and in the code the list of denied hosts counts only on a share
-- that has no list of allowed ones.
use ksmbd_tools.Base.{ℕ, leb, ◌==◌, if◌then◌else◌, not, ◌&&◌, ◌||◌}
use ksmbd_tools.Base.{Bool, true, false, Option, none, some, List}
use ksmbd_tools.Base.{c_string, terminated, find, str_mem}
use ksmbd_tools.User.{Users}
use ksmbd_tools.User.Login.{is_never}
use ksmbd_tools.Share.{Share}
use ksmbd_tools.Share.Hosts.{Libc}
use ksmbd_tools.Share.Hosts.Listed.{host_listed}
use ksmbd_tools.Session.{ConnFlags, World, find_session}
use ksmbd_tools.TreeConn.{
  TreeConf, TreeRequest, TreeStatus, tree_ok, error, no_share, no_user, invalid_user, host_denied,
  too_many_conns, too_many_sessions, share_conn_flags,
}

-- the status, and the flags where it is OK
abbrev pub Answer : Type 0
Answer = TreeStatus × Option ConnFlags

abbrev pub listed : Option (List (List ℕ)) → List ℕ → Bool
listed none name = false
listed (some names) name = str_mem name names

-- a list that is there, and does not have the name
abbrev pub shut_out : Option (List (List ℕ)) → List ℕ → Bool
shut_out none name = false
shut_out (some names) name = not (str_mem name names)

-- the session is open, or there is capacity for it
unfoldable pub room_for : ℕ → World → Bool
room_for id w = elim (find_session id w.sessions) [ none ↦ leb 1 w.sessions_cap | some _ ↦ true ]

-- the lists of users, the first that names the account first
unfoldable pub lists_policy : Share → ConnFlags → List ℕ → Bool → Answer
lists_policy s flags account room =
    if listed s.admin_users account
    then (tree_ok, some (record flags { admin_account = true }))
    else if listed s.invalid_users account
    then (invalid_user, none)
    else if listed s.read_list account
    then (tree_ok, some (record flags { read_only = true; writable = false }))
    else if listed s.write_list account
    then (tree_ok, some (record flags { writable = true }))
    else if listed s.valid_users account
    then (tree_ok, some flags)
    else if shut_out s.valid_users account
    then (invalid_user, none)
    else if room
    then (tree_ok, some flags)
    else (too_many_sessions, none)

abbrev pub known : Option (List ℕ) → Users → Bool
known none users = false
known (some name) users = elim (find name users) [ none ↦ false | some _ ↦ true ]

unfoldable pub account_policy : TreeRequest → Share → World → Answer
account_policy req s w = elim (find (c_string req.account) w.users) [
  | none ↦ (no_user, none)
  | some u ↦
      lists_policy s
        (if u.guest_account
          then record (share_conn_flags s) { guest_account = true }
          else share_conn_flags s)
        (c_string req.account) (room_for req.session_id w)
]

-- Allowed hosts first: with a list of them the client has to be on it, and may then be on the list
-- of the denied ones too; without one it must not be on that list.
unfoldable pub host_admitted : Libc → Share → List ℕ → Bool
host_admitted libc s addr = elim s.hosts_allow_map [
  | some patterns ↦ host_listed libc addr (some patterns)
  | none ↦ not (host_listed libc addr s.hosts_deny_map)
]

-- A session of the guest account needs a share that takes guests, and is not a pipe where anonymous
-- sessions are restricted.
unfoldable pub guest_admitted : TreeConf → TreeRequest → Share → Bool
guest_admitted conf req s =
    if req.guest_flag
    then s.flags.guest_ok && not (s.flags.pipe && leb 1 conf.restrict_anon)
    else true

unfoldable pub share_policy : Libc → TreeConf → TreeRequest → Share → World → Answer
share_policy libc conf req s w =
    if not (host_admitted libc s (c_string req.peer_addr))
    then (host_denied, none)
    else if not (guest_admitted conf req s)
    then (error, none)
    else if (req.guest_flag && s.flags.guest_ok)
        && (known s.guest_account w.users || known conf.guest_account w.users)
    then (tree_ok, some (record (share_conn_flags s) { guest_account = true }))
    else account_policy req s w

unfoldable pub tree_policy : Libc → (List ℕ → List ℕ) → TreeConf → TreeRequest → World → Answer
tree_policy libc fold conf req w =
    if not (terminated req.share && (terminated req.account && terminated req.peer_addr))
    then (error, none)
    else if is_never conf.map_to_guest && req.bad_password
    then (invalid_user, none)
    else elim (find (fold (c_string req.share)) w.shares) [
      | none ↦ (no_share, none)
      | some s ↦
          if not (s.max_connections == 0) && leb s.max_connections s.num_connections
          then (too_many_conns, none)
          else share_policy libc conf req s w
    ]
