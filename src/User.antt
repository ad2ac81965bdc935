-- ===== src/User.antt =====
-- tools/management/user.c and include/management/user.h: the table of users, their reference
-- counts, and the login and logout requests of the kernel.
-- `users_table` is an association list from names to users; a pointer to a user is its name, and
-- `kill_ksmbd_user` is its removal. An `int` counter is a bit pattern of 32 bits. Of `flags` the
-- program sets GUEST_ACCOUNT and DELAY_SESSION. What stands outside the repository is a parameter:
-- `getpwnam`, `getgrouplist`, the base64 and UTF-8 routines of GLib.
pub mod Login
pub mod Logout
pub mod Groups
pub mod Tests
use ksmbd_tools.Base.{
  ℕ, zero, suc, ◌+◌, ◌-◌, ◌%◌, ◌/◌, ◌^◌, ltb, leb, ◌==◌, if◌then◌else◌, not, ◌&&◌,
}
use ksmbd_tools.Base.{◌||◌, Bool, true, false, Option, none, some, List, [], ◌∷◌, length, take}
use ksmbd_tools.Base.{str_eq, c_string, terminated, find, update, remove, inc, dec}

pub record User : Type 0 where
  pub pass : List ℕ
  pub uid : ℕ
  pub gid : ℕ
  pub sgid : List ℕ
  pub ref_count : ℕ
  pub guest_account : Bool
  pub delay_session : Bool
  pub freeing : Bool
  pub failed_login_count : ℕ

abbrev pub Users : Type 0
Users = List (List ℕ × User)

-- sizes of the `account` and `hash` buffers of the requests
abbrev pub max_account_name_sz : ℕ
max_account_name_sz = 256

abbrev pub max_hash_sz : ℕ
max_hash_sz = 18

-- -EINVAL, -ENOENT, -ENOMEM, -ENOSPC, or 0
pub data Ret : Type 0 where
  ok einval enoent enomem enospc : Ret

-- `get_ksmbd_user`: a user that is being dropped is not handed out.
unfoldable pub get_ksmbd_user : List ℕ → User → Users → Option User × Users
get_ksmbd_user name u users = if u.ref_count == 0 then (none, users) else (
  some (record u { ref_count = inc u.ref_count }),
  update name (λ v. record v { ref_count = inc v.ref_count }) users,
)

unfoldable pub usm_lookup_user : List ℕ → Users → Option User × Users
unfolding get_ksmbd_user
usm_lookup_user name users = elim (find name users) [
  | none ↦ (none, users)
  | some u ↦ get_ksmbd_user name u users
]

-- `usm_remove_user`: a user in the state FREEING is taken out of the table by its caller.
unfoldable pub usm_remove_user : List ℕ → Users → Users
usm_remove_user name users = remove name users

-- `put_ksmbd_user` on the user of this name
unfoldable pub put_ksmbd_user : List ℕ → Users → Users
unfolding usm_remove_user
put_ksmbd_user name users =
    let users' = update name (λ v. record v { ref_count = dec v.ref_count }) users in
    elim (find name users) [
      | none ↦ users
      | some u ↦ if dec u.ref_count == 0 then usm_remove_user name users' else users'
    ]

-- `(__u16)-1`
abbrev pub invalid_gid : ℕ
invalid_gid = 0xFFFF

-- The loop of `new_ksmbd_user` over `sgid`: where an entry is dropped, the next one takes its place
-- and is stepped over.
unfoldable pub drop_invalid : List ℕ → List ℕ
drop_invalid [] = []
drop_invalid (g ∷ []) = if g == invalid_gid then [] else g ∷ []
drop_invalid (g ∷ h ∷ gs) =
    if g == invalid_gid then h ∷ drop_invalid gs else g ∷ drop_invalid (h ∷ gs)

pub record Accounts : Type 0 where
  pub getpwnam : List ℕ → Option (ℕ × ℕ)
  pub getgrouplist : List ℕ → List ℕ
  pub base64_decode : List ℕ → Option (List ℕ)
  pub utf8_validate : List ℕ → Bool

fresh_user : List ℕ → ℕ → ℕ → List ℕ → User
fresh_user pass uid gid sgid = record {
  pass = pass;
  uid = uid;
  gid = gid;
  sgid = sgid;
  ref_count = 1;
  guest_account = false;
  delay_session = false;
  freeing = false;
  failed_login_count = 0;
}

-- What `new_ksmbd_user` makes of a name and an encoded password. `none` is NULL.
unfoldable pub new_ksmbd_user : Accounts → List ℕ → List ℕ → Option User
unfolding drop_invalid fresh_user
new_ksmbd_user a name pwd = elim (a.base64_decode pwd) [
  | none ↦ none
  | some pass ↦ if ltb (2 ^ 31 - 1) (length pass) then none else elim (a.getpwnam name) [
    | none ↦ some (fresh_user pass invalid_gid invalid_gid [])
    | some (uid, gid) ↦ some (fresh_user pass uid gid (drop_invalid (a.getgrouplist name)))
  ]
]

-- A name that is taken keeps its user, and the call returns 0.
unfoldable pub usm_add_new_user : Accounts → List ℕ → List ℕ → Users → Ret × Users
unfolding new_ksmbd_user
usm_add_new_user a name pwd users = elim (new_ksmbd_user a name pwd) [
  | none ↦ (enomem, users)
  | some user ↦ elim (find name users) [ some _ ↦ (ok, users) | none ↦ (ok, (name, user) ∷ users) ]
]

-- `g_strdup("NULL")`
abbrev pub no_password : List ℕ
no_password = b'N' ∷ b'U' ∷ b'L' ∷ b'L' ∷ []

unfoldable pub usm_add_guest_account : Accounts → List ℕ → Users → Ret × Users
unfolding usm_add_new_user usm_lookup_user put_ksmbd_user
usm_add_guest_account a name users =
    let (ret, users1) = usm_add_new_user a name no_password users in
    elim ret [
      | ok ↦
          let (user, users2) = usm_lookup_user name users1 in
          elim user [
            | none ↦ (einval, users2)
            | some _ ↦ (
              ok,
              put_ksmbd_user name (update name (λ v. record v { guest_account = true }) users2),
            )
          ]
      | e ↦ (e, users1)
    ]

-- `usm_update_user_password` on a user; a password that does not decode changes nothing.
unfoldable pub usm_update_user_password : Accounts → List ℕ → List ℕ → Users → Users
usm_update_user_password a name pwd users = elim (a.base64_decode pwd) [
  | none ↦ users
  | some pass ↦ update name (λ v. record v { pass = pass }) users
]

-- `cp_printable` of include/config_parser.h
abbrev cp_printable : ℕ → Bool
cp_printable c = leb 0x20 c && not (c == 0x7F) || c == 9

-- the loop of `usm_user_name` over its octets
name_octets : List ℕ → Bool
name_octets [] = true
name_octets (c ∷ cs) = (cp_printable c && not (c == b':')) && name_octets cs

-- `usm_user_name` on the octets from `name` to `p`
unfoldable pub usm_user_name : Accounts → List ℕ → Bool
unfolding name_octets
usm_user_name a name =
    ltb 0 (length name)
    && (ltb (length name) max_account_name_sz && (a.utf8_validate name && name_octets name))
