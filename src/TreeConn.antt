-- ===== src/TreeConn.antt =====
-- `tcm_handle_tree_connect` of tools/management/tree_conn.c and include/management/tree_conn.h: who
-- may connect to which share, and what the connection may do.
-- The `goto`s are values: `bind` with the flags and the user that are bound, `out_error` with the
-- status and the user that is let go. `fold` stands for GLib's case folding of a share's name.
pub mod Policy
pub mod Admitted
pub mod Answer
pub mod Refine
pub mod Granted
pub mod Refusal
pub mod Released
pub mod Tests
use ksmbd_tools.Base.{ℕ, leb, if◌then◌else◌, not, ◌&&◌, ◌||◌}
use ksmbd_tools.Base.{Bool, true, false, Option, none, some, List, []}
use ksmbd_tools.Base.{c_string, terminated, update}
use ksmbd_tools.User.{User, Users, usm_lookup_user, put_ksmbd_user}
use ksmbd_tools.User.Login.{MapToGuest, is_never}
use ksmbd_tools.Share.{
  Share, Shares, Lookup, found, enoent, einval, shm_lookup_share, shm_open_connection,
  shm_close_connection, put_ksmbd_share, shm_lookup_users_map,
}
use ksmbd_tools.Share.Hosts.{Libc, shm_lookup_hosts_map}
use ksmbd_tools.Session.{
  ConnFlags, TreeConn, World, tcm_tree_conn_free, sm_handle_tree_connect,
  sm_check_sessions_capacity, sm_handle_tree_disconnect,
}

-- the fields of `global_conf` that a connect reads
pub record TreeConf : Type 0 where
  pub map_to_guest : MapToGuest
  pub restrict_anon : ℕ
  pub guest_account : Option (List ℕ)

-- `account_flags` holds GUEST_ACCOUNT and BAD_PASSWORD.
pub record TreeRequest : Type 0 where
  pub account : List ℕ
  pub guest_flag : Bool
  pub bad_password : Bool
  pub session_id : ℕ
  pub connect_id : ℕ
  pub share : List ℕ
  pub peer_addr : List ℕ

pub data TreeStatus : Type 0 where
  tree_ok error no_share no_user invalid_user host_denied too_many_conns too_many_sessions :
      TreeStatus

pub data Jump : Type 0 where
  bind : ConnFlags → List ℕ → World → Jump
  out_error : TreeStatus → Option (List ℕ) → World → Jump

-- the flags of the share, before any user is known
abbrev pub share_conn_flags : Share → ConnFlags
share_conn_flags s = record {
  writable = s.flags.writeable;
  read_only = s.flags.readonly;
  update_flag = s.flags.update_flag;
  guest_account = false;
  admin_account = false;
}

-- the allowed hosts, else the denied ones
unfoldable pub host_refused : Libc → Share → List ℕ → Bool
host_refused libc s peer_addr = elim (shm_lookup_hosts_map libc s.hosts_allow_map peer_addr) [
  | found ↦ false
  | enoent ↦ true
  | einval ↦ elim (shm_lookup_hosts_map libc s.hosts_deny_map peer_addr) [
    | found ↦ true
    | _ ↦ false
  ]
]

-- a session of the guest account that the share does not take
unfoldable pub guest_refused : TreeConf → TreeRequest → Share → Bool
guest_refused conf req s =
    leb 1 conf.restrict_anon && (req.guest_flag && (not s.flags.guest_ok || s.flags.pipe))
    || req.guest_flag && not s.flags.guest_ok

-- the lists of users of the share, then the capacity for sessions
unfoldable pub user_lists : TreeRequest → Share → ConnFlags → List ℕ → World → Jump
user_lists req s flags account w = elim (shm_lookup_users_map s.admin_users account) [
  | found ↦ bind (record flags { admin_account = true }) account w
  | _ ↦ elim (shm_lookup_users_map s.invalid_users account) [
    | found ↦ out_error invalid_user (some account) w
    | _ ↦ elim (shm_lookup_users_map s.read_list account) [
      | found ↦ bind (record flags { read_only = true; writable = false }) account w
      | _ ↦ elim (shm_lookup_users_map s.write_list account) [
        | found ↦ bind (record flags { writable = true }) account w
        | _ ↦ elim (shm_lookup_users_map s.valid_users account) [
          | found ↦ bind flags account w
          | enoent ↦ out_error invalid_user (some account) w
          | einval ↦
              let (room, w') = sm_check_sessions_capacity req.session_id w in
              if room then bind flags account w' else out_error too_many_sessions (some account) w'
        ]
      ]
    ]
  ]
]

-- the user counts as logged in
abbrev pub reset_login : User → User
reset_login u = record u { failed_login_count = 0; delay_session = false }

unfoldable pub account_login : TreeRequest → Share → ConnFlags → World → Jump
account_login req s flags w =
    let account = c_string req.account in
    let (user, users) = usm_lookup_user account w.users in
    elim user [
      | none ↦ out_error no_user none (record w { users = users })
      | some u ↦
          user_lists req s
            (if u.guest_account then record flags { guest_account = true } else flags) account
            (record w { users = update account reset_login users })
    ]

-- `usm_lookup_user`, also of NULL
pub lookup_name : Option (List ℕ) → Users → Option (List ℕ) × Users
lookup_name none users = (none, users)
lookup_name (some name) users =
    let (user, users') = usm_lookup_user name users in
    elim user [ none ↦ (none, users') | some u ↦ (some name, users') ]

-- the guest account of the share, that of the configuration, else the account of the request
unfoldable pub guest_or_account : TreeConf → TreeRequest → Share → World → Jump
unfolding lookup_name
guest_or_account conf req s w =
    let flags = share_conn_flags s in
    let (guest, users) = lookup_name s.guest_account w.users in
    let (guest', users') = lookup_name conf.guest_account users in
    if req.guest_flag && s.flags.guest_ok
    then elim guest [
      | some name ↦ bind (record flags { guest_account = true }) name (record w { users = users })
      | none ↦ elim guest' [
        | some name ↦
            bind (record flags { guest_account = true }) name (record w { users = users' })
        | none ↦ account_login req s flags (record w { users = users' })
      ]
    ]
    else account_login req s flags w

-- from the open connection on
unfoldable pub connect_share : Libc → TreeConf → TreeRequest → Share → World → Jump
connect_share libc conf req s w =
    if host_refused libc s (c_string req.peer_addr)
    then out_error host_denied none w
    else if guest_refused conf req s
    then out_error error none w
    else guest_or_account conf req s w

-- the label `out_error`, with the connection not bound to the share
unfoldable pub release : List ℕ → Option (List ℕ) → World → World
release key user w =
    let (shares, users) = put_ksmbd_share key (update key shm_close_connection w.shares, w.users) in
    record w {
      shares = shares;
      users = elim user [ none ↦ users | some name ↦ put_ksmbd_user name users ];
    }

-- `resp->status` and `resp->connection_flags`, with the flags where the status is OK
abbrev pub TreeResult : Type 0
TreeResult = TreeStatus × Option ConnFlags × World

unfoldable pub clear_update : Share → Share
clear_update s = record s {
  flags = record {
    writeable = s.flags.writeable;
    readonly = s.flags.readonly;
    guest_ok = s.flags.guest_ok;
    pipe = s.flags.pipe;
    update_flag = false;
  };
}

-- the labels `bind` and `out_error`; `none` as in `sm_handle_tree_connect`
unfoldable pub land : TreeRequest → List ℕ → Jump → Option TreeResult
land req key (out_error status user w) = some (status, none, release key user w)
land req key (bind flags user w) =
    let conn : TreeConn = record { id = req.connect_id; share = some key; flags = flags } in
    elim (sm_handle_tree_connect req.session_id user conn w) [
      | none ↦ none
      | some w' ↦
          some (tree_ok, some flags, record w' { shares = update key clear_update w'.shares })
    ]

-- `tcm_handle_tree_connect`. The return value is 0 where the status is OK, else -EINVAL. A share
-- that refuses a further connection is released all the same.
unfoldable pub tcm_handle_tree_connect :
    Libc → (List ℕ → List ℕ) → TreeConf → TreeRequest → World → Option TreeResult
tcm_handle_tree_connect libc fold conf req w =
    let key = fold (c_string req.share) in
    let (share, shares) = shm_lookup_share key w.shares in
    if not (terminated req.share && (terminated req.account && terminated req.peer_addr))
    then some (error, none, w)
    else if is_never conf.map_to_guest && req.bad_password
    then some (invalid_user, none, w)
    else elim share [
      | none ↦ some (no_share, none, record w { shares = shares })
      | some s ↦
          let (opened, s') = shm_open_connection s in
          let w' = record w { shares = update key (λ _. s') shares } in
          if opened
          then land req key (connect_share libc conf req s w')
          else land req key (out_error too_many_conns none w')
    ]

-- `tcm_handle_tree_disconnect`
pub tcm_handle_tree_disconnect : ℕ → ℕ → World → World
tcm_handle_tree_disconnect sess_id tree_conn_id w = sm_handle_tree_disconnect sess_id tree_conn_id w
