-- ===== src/User/Tests.antt =====
-- A concrete table of users, and the theorems on the logins and logouts of tools/management/user.c.
use ksmbd_tools.Base.{
  ℕ, ◌+◌, ◌*◌, ◌^◌, ◌<◌, ◌≡◌, refl, arith, leb, if◌then◌else◌, true, false, none, some, List, [],
  ◌∷◌, length, All, find, str_eq, c_string, terminated,
}
use ksmbd_tools.User.{User, Users}
use ksmbd_tools.User.Login.{bad_user, LoginConf, LoginRequest, usm_handle_login_request, login_spec}
use ksmbd_tools.User.Login.Refine.{Live, login_refines}
use ksmbd_tools.User.Groups.{login_request_ext, login_request_ext_lem}
use ksmbd_tools.User.Logout.{usm_handle_logout_request, logout, logouts, Counted, logouts_delay}

abbrev IsLive : List ℕ × User → Type 0
IsLive (name, u) = (0 < u.ref_count) × (u.ref_count + 1 < 2 ^ 32)

pub All-Live : (users : Users) → All IsLive users → Live users
unfolding find
All-Live [] h name u f = cc
All-Live ((k, v) ∷ users) (hv, hs) name u f = ground (arith, All-Live users hs name u)

abbrev pub bob : User
bob = record {
  pass = 1 ∷ 2 ∷ [];
  uid = 1000;
  gid = 1000;
  sgid = 1000 ∷ 27 ∷ [];
  ref_count = 1;
  guest_account = false;
  delay_session = false;
  freeing = false;
  failed_login_count = 0;
}

abbrev pub users : Users
users = (b'b' ∷ [], bob) ∷ []

abbrev conf : LoginConf
conf = record { map_to_guest = bad_user; guest_account = b'n' ∷ [] }

abbrev request : LoginRequest
request = record { account = b'b' ∷ 0 ∷ []; ignore_map_to_guest = false }

login_refines_example :
    usm_handle_login_request conf request users
    ≡ ((login_spec conf request users).0, (login_spec conf request users).1, users)
login_refines_example =
    login_refines conf request users (All-Live users ((omega arith, omega arith), tt))

logouts_delay_example :
    (v : User) × (find (c_string (b'b' ∷ 0 ∷ [])) (logouts 11 (logout (b'b' ∷ 0 ∷ []) true) users)
      ≡ some v)
    × Counted 11 bob v
    × (v.ref_count ≡ 1)
    × (find
          (c_string (b'b' ∷ 0 ∷ []))
          (usm_handle_logout_request
            (logout (b'b' ∷ 0 ∷ []) false)
            (logouts 11 (logout (b'b' ∷ 0 ∷ []) true) users)).1
        ≡ some (record v { failed_login_count = 0; delay_session = false }))
unfolding terminated find str_eq c_string
logouts_delay_example =
    logouts_delay 11 (b'b' ∷ 0 ∷ []) users bob refl refl (omega arith) (omega arith) (omega arith)

login_request_ext_lem_example : login_request_ext (λ octets. true) 324 (b'b' ∷ 0 ∷ []) users ≡ (
    if leb (length bob.sgid) 987
    then (some (record { room = 4 * length bob.sgid; groups = bob.sgid }), users)
    else (none, users))
unfolding terminated find str_eq c_string
login_request_ext_lem_example =
    login_request_ext_lem (b'b' ∷ 0 ∷ []) users bob refl (omega arith) refl (omega arith)
      (omega arith) (λ octets. true) 324 (λ octets h. refl) (omega arith) (omega arith)
