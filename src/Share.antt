-- ===== src/Share.antt =====
-- tools/management/share.c and include/management/share.h: the table of shares, their reference
-- and connection counts, the lists of users and hosts of a share, and the share configuration
-- that is sent to the kernel.
-- `shares_table` is an association list by the folded name; a pointer to a share is that key. A map
-- of users or hosts is the list of its keys, or `none` where the pointer is NULL. Parameters stand
-- for GLib's case folding and for `strtol` and `inet_pton` of libc.
pub mod Hosts
pub mod Connections
pub mod Tests
use ksmbd_tools.Base.{
  ℕ, ◌+◌, ◌-◌, ◌*◌, ◌%◌, ◌/◌, ◌^◌, ltb, leb, ◌==◌, if◌then◌else◌, not, ◌&&◌, ◌||◌,
}
use ksmbd_tools.Base.{Bool, true, false, Option, none, some, List, [], ◌∷◌, ◌++◌, length}
use ksmbd_tools.Base.{find, update, remove, inc, dec, str_mem}
use ksmbd_tools.User.{Users, put_ksmbd_user}

-- the flags that the daemon itself reads
pub record ShareFlags : Type 0 where
  pub writeable : Bool
  pub readonly : Bool
  pub guest_ok : Bool
  pub pipe : Bool
  pub update_flag : Bool

pub record Share : Type 0 where
  pub name : List ℕ
  pub path : Option (List ℕ)
  pub max_connections : ℕ
  pub num_connections : ℕ
  pub ref_count : ℕ
  pub flags : ShareFlags
  pub veto_list : List ℕ
  pub guest_account : Option (List ℕ)
  pub admin_users : Option (List (List ℕ))
  pub valid_users : Option (List (List ℕ))
  pub invalid_users : Option (List (List ℕ))
  pub read_list : Option (List (List ℕ))
  pub write_list : Option (List (List ℕ))
  pub hosts_allow_map : Option (List (List ℕ))
  pub hosts_deny_map : Option (List (List ℕ))

abbrev pub Shares : Type 0
Shares = List (List ℕ × Share)

-- 0, -ENOENT or -EINVAL
pub data Lookup : Type 0 where
  found enoent einval : Lookup

-- `get_ksmbd_share` and `shm_lookup_share` by the folded name
unfoldable pub shm_lookup_share : List ℕ → Shares → Option Share × Shares
shm_lookup_share key shares = elim (find key shares) [
  | none ↦ (none, shares)
  | some s ↦ if s.ref_count == 0 then (none, shares) else (
    some (record s { ref_count = inc s.ref_count }),
    update key (λ t. record t { ref_count = inc t.ref_count }) shares,
  )
]

put_users : List (List ℕ) → Users → Users
put_users [] users = users
put_users (u ∷ us) users = put_users us (put_ksmbd_user u users)

free_user_map : Option (List (List ℕ)) → Users → Users
free_user_map none users = users
free_user_map (some names) users = put_users names users

-- `kill_ksmbd_share`: the users of its maps are let go
unfoldable pub kill_ksmbd_share : Share → Users → Users
unfolding free_user_map put_users
kill_ksmbd_share s users = free_user_map s.write_list (
    free_user_map s.read_list (
      free_user_map s.invalid_users
        (free_user_map s.valid_users (free_user_map s.admin_users users))))

-- `put_ksmbd_share` on the share of this key
unfoldable pub put_ksmbd_share : List ℕ → Shares × Users → Shares × Users
unfolding kill_ksmbd_share
put_ksmbd_share key (shares, users) =
    let shares' = update key (λ t. record t { ref_count = dec t.ref_count }) shares in
    elim (find key shares) [
      | none ↦ (shares, users)
      | some s ↦
          if dec s.ref_count == 0
          then (remove key shares', kill_ksmbd_share s users)
          else (shares', users)
    ]

-- `shm_open_connection` on a share: 0, or -EINVAL with the share as it was
unfoldable pub shm_open_connection : Share → Bool × Share
shm_open_connection s =
    if not (s.max_connections == 0) && leb s.max_connections s.num_connections
    then (false, s)
    else (true, record s { num_connections = s.num_connections + 1 })

unfoldable pub shm_close_connection : Share → Share
shm_close_connection s =
    if ltb 0 s.num_connections then record s { num_connections = s.num_connections - 1 } else s

-- `shm_lookup_users_map` in one of the five maps
unfoldable pub shm_lookup_users_map : Option (List (List ℕ)) → List ℕ → Lookup
shm_lookup_users_map none name = einval
shm_lookup_users_map (some names) name = if str_mem name names then found else enoent

-- `shm_share_config_payload_size`: `none` is -EINVAL or -EOVERFLOW. The veto list is counted with its
-- delimiter, the path with its NUL and behind the root directory, if there is one.
unfoldable pub shm_share_config_payload_size : Option (List ℕ) → Option Share → Option ℕ
shm_share_config_payload_size root_dir none = some 0
shm_share_config_payload_size root_dir (some s) =
    let root : ℕ = elim root_dir [ none ↦ 0 | some r ↦ length r ] in
    let veto = if ltb 0 (length s.veto_list) then length s.veto_list + 1 else 0 in
    if s.flags.pipe then some 0 else elim s.path [
      | none ↦ none
      | some path ↦
          let sz = veto + (length path + 1 + root) in
          if length path == 0 then none else if ltb (2 ^ 31 - 1) sz then none else some sz
    ]

-- The payload that `shm_handle_share_config_request` writes into `payload_sz` octets: the veto list
-- and its delimiter, the root directory and the path, with its NUL. `none` is -EINVAL; a pipe has no
-- payload. The response's other fields, copies of the share's, are left out.
unfoldable pub share_config_payload : Option (List ℕ) → ℕ → Option Share → Option (List ℕ)
share_config_payload root_dir payload_sz none = none
share_config_payload root_dir payload_sz (some s) =
    let root : List ℕ = elim root_dir [ none ↦ [] | some r ↦ r ] in
    let veto = if ltb 0 (length s.veto_list) then s.veto_list ++ (0 ∷ []) else [] in
    if s.flags.pipe then some [] else elim s.path [
      | none ↦ none
      | some path ↦
          if payload_sz == 0
          then none
          else if ltb payload_sz (length veto)
          then none
          else if leb payload_sz (length veto)
          then none
          else if leb (payload_sz - length veto) (length (root ++ path))
          then none
          else some (veto ++ ((root ++ path) ++ (0 ∷ [])))
    ]
