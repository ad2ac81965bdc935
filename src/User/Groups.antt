-- ===== src/User/Groups.antt =====
-- The supplementary groups of a user, from `usm_handle_login_request_ext` of
-- tools/management/user.c to the message with them: `login_request_ext` of mountd/worker.c and
-- `ipc_msg_alloc` of mountd/ipc.c.
use ksmbd_tools.Base.{
  ℕ, ◌+◌, ◌-◌, ◌*◌, ◌/◌, ◌%◌, ◌^◌, ◌≤◌, ◌<◌, ◌≡◌, ◌≢◌, refl, arith, ltb, ◌==◌, if◌then◌else◌, not,
}
use ksmbd_tools.Base.{
  Bool, true, false, Option, none, some, List, [], length, take, c_string, terminated, find, ==_ne,
}
use ksmbd_tools.Base.{Bool-cases, inl, inr, leb}
use ksmbd_tools.User.{User, Users, Ret, usm_lookup_user, put_ksmbd_user}
use ksmbd_tools.User.Login.Refine.{lookup-some, put-get}

-- (KSMBD_IPC_MAX_MESSAGE_SIZE - sizeof(struct ksmbd_login_response_ext)) / sizeof(gid_t)
abbrev pub max_ngroups : ℕ
max_ngroups = (4096 - 136) / 4

cap_groups : ℕ → List ℕ → List ℕ
cap_groups max sgid = if ltb max (length sgid) then take max sgid else sgid

-- `resp->ngroups` is the length of the groups that are copied to the payload. The count of a user
-- is the length of its list, so it is not negative.
pub usm_handle_login_request_ext : List ℕ → Users → Ret × List ℕ × Users
usm_handle_login_request_ext account_buffer users =
    let account = c_string account_buffer in
    let (user, users') = usm_lookup_user account users in
    if not (terminated account_buffer)
    then (Ret.einval, [], users)
    else if length account == 0
    then (Ret.ok, [], users)
    else elim user [
      | none ↦ (Ret.ok, [], users')
      | some u ↦ (Ret.ok, cap_groups max_ngroups u.sgid, put_ksmbd_user account users')
    ]

-- what a message may be on the wire, its header and one octet more included
abbrev ipc_max_message_size : ℕ
ipc_max_message_size = 4096

-- The size of the payload of the new message. `sizeof(struct ksmbd_ipc_msg)` is 8; `g_try_malloc0`
-- is a parameter.
ipc_msg_alloc : (ℕ → Bool) → ℕ → Option ℕ
ipc_msg_alloc try_malloc sz =
    let msg_sz = sz + 8 + 1 in
    if ltb (2 ^ 64 - 1 - 8 - 1) sz
    then none
    else if ltb ipc_max_message_size msg_sz
    then none
    else if try_malloc msg_sz
    then some sz
    else none

-- the bit pattern of the `int`
login_response_payload_sz : List ℕ → Users → ℕ × Users
login_response_payload_sz account_buffer users =
    let account = c_string account_buffer in
    let (user, users') = usm_lookup_user account users in
    if not (terminated account_buffer)
    then (0, users)
    else if length account == 0
    then (0, users)
    else elim user [
      | none ↦ (0, users')
      | some u ↦ (4 * length u.sgid % 2 ^ 32, put_ksmbd_user account users')
    ]

-- an `int` as a `size_t`
extended : ℕ → ℕ
extended n = if ltb n (2 ^ 31) then n else n + (2 ^ 64 - 2 ^ 32)

-- `sizeof(struct ksmbd_login_request)`
abbrev login_request_sz : ℕ
login_request_sz = 324

-- the groups of an answer that is sent, with the octets that there are for them behind its head of
-- 136
pub record GroupsAnswer : Type 0 where
  pub room : ℕ
  pub groups : List ℕ

-- `sz` is the size that the message of the request announces.
pub login_request_ext : (ℕ → Bool) → ℕ → List ℕ → Users → Option GroupsAnswer × Users
login_request_ext try_malloc sz account_buffer users =
    let (payload_sz, users') = login_response_payload_sz account_buffer users in
    elim (ipc_msg_alloc try_malloc ((136 + extended payload_sz) % 2 ^ 64)) [
      | none ↦ (none, users')
      | some size ↦
          let (ret, groups, users'') = usm_handle_login_request_ext account_buffer users' in
          if ltb sz login_request_sz
          then (some (record { room = size - 136; groups = [] }), users')
          else (some (record { room = size - 136; groups = groups }), users'')
    ]

module _ (account_buffer : List ℕ) (users : Users) (u : User) (t : terminated account_buffer ≡ true)
    (named : length (c_string account_buffer) ≢ 0)
    (f : find (c_string account_buffer) users ≡ some u) (lo : 0 < u.ref_count)
    (hi : u.ref_count + 1 < 2 ^ 32) where
  abbrev account : List ℕ
  account = c_string account_buffer

  payload_sz-some :
      4 * length u.sgid < 2 ^ 32
      → login_response_payload_sz account_buffer users ≡ (4 * length u.sgid, users)
  unfolding login_response_payload_sz
  payload_sz-some small =
      let found = lookup-some account users u f lo in
      let back = put-get account users u f lo hi in
      let size : 4 * length u.sgid % 2 ^ 32 ≡ 4 * length u.sgid = omega arith in
      rw (login_response_payload_sz, t, found, found, ==_ne (length account) 0 named, back, size)
        refl

  groups-some :
      length u.sgid ≤ 990
      → usm_handle_login_request_ext account_buffer users ≡ (Ret.ok, u.sgid, users)
  unfolding usm_handle_login_request_ext cap_groups
  groups-some small =
      let found = lookup-some account users u f lo in
      let back = put-get account users u f lo hi in
      let whole : ltb max_ngroups (length u.sgid) ≡ false = ground arith in
      rw
        (usm_handle_login_request_ext, t, found, found, ==_ne (length account) 0 named, back, whole)
        refl

  module _ (try_malloc : ℕ → Bool) (n : ℕ) (small : n < 2 ^ 31) where
    alloc-fits :
        ((octets : ℕ) → octets ≤ 4096 → try_malloc octets ≡ true)
        → n ≤ 3951
        → ipc_msg_alloc try_malloc ((136 + extended n) % 2 ^ 64) ≡ some (136 + n)
    unfolding ipc_msg_alloc extended
    alloc-fits grant h = ground (arith, grant (136 + n + 9))

    alloc-too_large : 3951 < n → ipc_msg_alloc try_malloc ((136 + extended n) % 2 ^ 64) ≡ none
    unfolding ipc_msg_alloc extended
    alloc-too_large h = ground arith

  -- A request of full size for the groups of a user, whose name in it is terminated and not empty, and
  -- who is there, is not being dropped, has a counter that is not about to wrap and fewer than 2 ^ 29
  -- groups, with an allocator that grants 4096 octets: with 987 groups or fewer all of them are sent, in
  -- a message that has just the room for them; with more there is no answer. Either way the table of
  -- users stays as it is.
  pub login_request_ext_lem :
      (try_malloc : ℕ → Bool) (sz : ℕ)
      → ((octets : ℕ) → octets ≤ 4096 → try_malloc octets ≡ true)
      → login_request_sz ≤ sz
      → length u.sgid < 2 ^ 29
      → login_request_ext try_malloc sz account_buffer users ≡ (
          if leb (length u.sgid) 987
          then (some (record { room = 4 * length u.sgid; groups = u.sgid }), users)
          else (none, users))
  unfolding login_request_ext
  login_request_ext_lem try_malloc sz grant long small =
      let payload = payload_sz-some (omega arith) in
      let n : ℕ = 4 * length u.sgid in
      let whole : ltb sz login_request_sz ≡ false = ground arith in
      let room : 136 + n - 136 ≡ n = omega arith in
      elim (Bool-cases (leb (length u.sgid) 987)) [
        | inl h ↦
            let few : n ≤ 3951 = grind arith in
            rw
              (
                login_request_ext,
                payload,
                alloc-fits try_malloc n (omega arith) grant few,
                payload,
                groups-some (omega arith),
                whole,
                room,
                h,
              )
              refl
        | inr h ↦
            let many : 3951 < n = grind arith in
            rw
              (
                login_request_ext,
                payload,
                alloc-too_large try_malloc n (omega arith) many,
                payload,
                h,
              )
              refl
      ]
