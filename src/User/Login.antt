-- ===== src/User/Login.antt =====
-- `usm_handle_login_request` and `usm_handle_login_request_ext` of tools/management/user.c.
pub mod Refine
use ksmbd_tools.Base.{ℕ, ◌+◌, ◌^◌, ◌<◌, ◌≡◌, refl, arith, ltb, leb, if◌then◌else◌, not, ◌&&◌}
use ksmbd_tools.Base.{
  ◌||◌, Bool, true, false, Option, none, some, List, [], ◌∷◌, length, Option-cases, inl, inr,
  Bool-cases, ap,
}
use ksmbd_tools.Base.{
  ==_ne, c_string, terminated, find, update, inc, dec, update-update, update-same, find-update_self,
}
use mathlib.Core.Option
use ksmbd_tools.User.{
  User, Users, Ret, usm_lookup_user, put_ksmbd_user, get_ksmbd_user, max_hash_sz,
  max_account_name_sz,
}

pub data MapToGuest : Type 0 where
  never bad_user bad_password bad_uid : MapToGuest

abbrev pub is_never : MapToGuest → Bool
is_never never = true
is_never _ = false

abbrev pub is_bad_user : MapToGuest → Bool
is_bad_user bad_user = true
is_bad_user _ = false

-- the fields of `global_conf` that a login reads
pub record LoginConf : Type 0 where
  pub map_to_guest : MapToGuest
  pub guest_account : List ℕ

pub record LoginRequest : Type 0 where
  pub account : List ℕ
  pub ignore_map_to_guest : Bool

-- `resp->status`: INVALID, BAD_USER alone, or OK with the flags of the user and EXTENSION
pub data LoginStatus : Type 0 where
  invalid : LoginStatus
  bad : LoginStatus
  granted : Bool → Bool → Bool → LoginStatus

-- The strings are what is copied into the zeroed buffers; `hash_sz` is the length of `hash`.
pub record LoginResponse : Type 0 where
  pub status : LoginStatus
  pub uid : ℕ
  pub gid : ℕ
  pub hash : List ℕ
  pub account : List ℕ

abbrev pub no_response : LoginStatus → LoginResponse
no_response s = record { status = s; uid = 0; gid = 0; hash = []; account = [] }

-- `none` is -ENOSPC
pub usm_copy_user_passhash : User → Option (List ℕ)
usm_copy_user_passhash u =
    if u.guest_account
    then some []
    else if leb (length u.pass) max_hash_sz
    then some u.pass
    else none

pub usm_copy_user_account : List ℕ → User → Option (List ℕ)
usm_copy_user_account name u =
    if u.guest_account
    then some []
    else if leb (length name) max_account_name_sz
    then some name
    else none

-- `__handle_login_request` for the user of this name
pub handle_login : List ℕ → User → LoginResponse
handle_login name u =
    let status = granted u.guest_account u.delay_session (ltb 0 (length u.sgid)) in
    elim (usm_copy_user_passhash u) [
      | none ↦ record { status = invalid; uid = u.uid; gid = u.gid; hash = []; account = [] }
      | some hash ↦ elim (usm_copy_user_account name u) [
        | none ↦ record { status = invalid; uid = u.uid; gid = u.gid; hash = hash; account = [] }
        | some account ↦ record {
          status = status;
          uid = u.uid;
          gid = u.gid;
          hash = hash;
          account = account;
        }
      ]
    ]

abbrev pub is_empty : List ℕ → Bool
is_empty [] = true
is_empty (b ∷ bs) = false

-- a user that was looked up is answered for, and let go
pub answer : List ℕ → Option User → Users → Option (LoginResponse × Users)
answer name none users = none
answer name (some u) users = some (handle_login name u, put_ksmbd_user name users)

-- the second lookup, for the guest account
pub guest_login : LoginConf → Bool → Users → Ret × LoginResponse × Users
guest_login conf asked users =
    let (user, users') = usm_lookup_user conf.guest_account users in
    if asked
    then elim (answer conf.guest_account user users') [
      | none ↦ (Ret.ok, no_response bad, users')
      | some (resp, users'') ↦ (Ret.ok, resp, users'')
    ]
    else (Ret.ok, no_response bad, users)

pub usm_handle_login_request : LoginConf → LoginRequest → Users → Ret × LoginResponse × Users
unfolding guest_login answer
usm_handle_login_request conf req users =
    let account = c_string req.account in
    let null_session = is_empty account in
    let (user, users') = usm_lookup_user account users in
    let guest = guest_login conf (null_session || is_bad_user conf.map_to_guest) in
    if not (terminated req.account)
    then (Ret.einval, no_response invalid, users)
    else if null_session
    then guest users
    else elim (answer account user users') [
      | some (resp, users'') ↦ (Ret.ok, resp, users'')
      | none ↦
          if req.ignore_map_to_guest || is_never conf.map_to_guest
          then (Ret.ok, no_response bad, users')
          else guest users'
    ]

-- Who answers a login, by the table alone: the account, else the guest account where the request
-- and the configuration allow it.
pub login_user : LoginConf → LoginRequest → Users → Option (List ℕ × User)
login_user conf req users =
    let account = c_string req.account in
    let guest = Option.map (λ u. (conf.guest_account, u)) (find conf.guest_account users) in
    if is_empty account then guest else elim (find account users) [
      | some u ↦ some (account, u)
      | none ↦ if not req.ignore_map_to_guest && is_bad_user conf.map_to_guest then guest else none
    ]

pub login_spec : LoginConf → LoginRequest → Users → Ret × LoginResponse
unfolding login_user
login_spec conf req users =
    if not (terminated req.account)
    then (Ret.einval, no_response invalid)
    else elim (login_user conf req users) [
      | none ↦ (Ret.ok, no_response bad)
      | some (name, u) ↦ (Ret.ok, handle_login name u)
    ]
