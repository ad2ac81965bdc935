-- ===== src/TreeConn/Granted.antt =====
-- What a granted `tcm_handle_tree_connect` of tools/management/tree_conn.c says of the account.
use ksmbd_tools.Base.{ℕ, ◌≡◌, not, ◌&&◌, ◌||◌}
use ksmbd_tools.Base.{Bool, true, Option, none, some, List}
use ksmbd_tools.Base.{c_string, find}
use ksmbd_tools.User.{User}
use ksmbd_tools.Share.{Share}
use ksmbd_tools.Share.Hosts.{Libc}
use ksmbd_tools.Session.{ConnFlags, World}
use ksmbd_tools.TreeConn.{TreeRequest, TreeStatus, TreeResult}
use ksmbd_tools.TreeConn.Policy.{Answer, listed, shut_out, host_admitted}

-- An administrator; else someone who is not on the invalid list, and is on a list that lets him in,
-- or there is no list of valid users.
pub permitted : Share → List ℕ → Bool
permitted s account =
    listed s.admin_users account
    || (not (listed s.invalid_users account)
        && (listed s.read_list account
            || (listed s.write_list account
                || (listed s.valid_users account || not (shut_out s.valid_users account)))))

-- Who may write: on a share that is writeable, all but those on the read list, who may if they are
-- administrators; else those on the write list.
pub may_write : Share → List ℕ → Bool
may_write s account =
    (s.flags.writeable && (listed s.admin_users account || not (listed s.read_list account)))
    || (listed s.write_list account && not (listed s.read_list account))

-- what a grant says of a share and its client
pub Grant : Libc → TreeRequest → ConnFlags → World → Share → Type 0
Grant libc req flags w s =
    (host_admitted libc s (c_string req.peer_addr) ≡ true)
    × ((u : User) × (find (c_string req.account) w.users ≡ some u))
    × (permitted s (c_string req.account) ≡ true)
    × (flags.writable ≡ true → may_write s (c_string req.account) ≡ true)

answer : Option TreeResult → Answer
answer none = (TreeStatus.error, none)
answer (some (status, flags, w)) = (status, flags)
