-- ===== src/User/Login/Refine.antt =====
-- `usm_handle_login_request` of tools/management/user.c against its specification.
use ksmbd_tools.Base.{ℕ, ◌+◌, ◌^◌, ◌<◌, ◌≡◌, refl, arith, if◌then◌else◌}
use ksmbd_tools.Base.{
  ◌||◌, Bool, true, false, none, some, List, Option-cases, inl, inr, Bool-cases, ap,
}
use ksmbd_tools.Base.{
  ==_ne, c_string, terminated, find, update, inc, dec, update-update, update-same, find-update_self,
}
use mathlib.Core.Option
use ksmbd_tools.User.{User, Users, Ret, usm_lookup_user, put_ksmbd_user, get_ksmbd_user}
use ksmbd_tools.User.Login.{
  is_never, is_bad_user, LoginConf, LoginRequest, no_response, usm_copy_user_passhash,
  usm_copy_user_account, handle_login, is_empty, answer, guest_login, usm_handle_login_request,
  login_user, login_spec,
}
use ksmbd_tools.User.Login.{bad}

-- no user is being dropped, and no counter is about to wrap
abbrev pub Live : Users → Type 0
Live users =
    (name : List ℕ) (u : User)
    → find name users ≡ some u
    → (0 < u.ref_count) × (u.ref_count + 1 < 2 ^ 32)

-- A lookup and a put give the table back.
pub put-get :
    (name : List ℕ) (users : Users) (u : User)
    → find name users ≡ some u
    → 0 < u.ref_count
    → u.ref_count + 1 < 2 ^ 32
    → put_ksmbd_user name (update name (λ v. record v { ref_count = inc v.ref_count }) users)
      ≡ users
unfolding put_ksmbd_user
put-get name users u f lo hi =
    let keep : dec (inc u.ref_count) ≡ u.ref_count = omega arith in
    rw
      (
        put_ksmbd_user,
        find-update_self name (λ v. record v { ref_count = inc v.ref_count }) users u f,
        keep,
        ==_ne u.ref_count 0 (omega arith),
        update-update name (λ v. record v { ref_count = inc v.ref_count })
            (λ v. record v { ref_count = dec v.ref_count }) users,
      )
      (update-same name (λ v. record v { ref_count = dec (inc v.ref_count) }) users u f
        (ap (λ n. record u { ref_count = n }) keep))

-- What a lookup of a live user gives.
pub lookup-some :
    (name : List ℕ) (users : Users) (u : User)
    → find name users ≡ some u
    → 0 < u.ref_count
    → usm_lookup_user name users ≡ (
      some (record u { ref_count = inc u.ref_count }),
      update name (λ v. record v { ref_count = inc v.ref_count }) users,
    )
unfolding usm_lookup_user get_ksmbd_user
lookup-some name users u f lo =
    rw (f, usm_lookup_user, get_ksmbd_user, ==_ne u.ref_count 0 (omega arith))

pub lookup-none :
    (name : List ℕ) (users : Users)
    → find name users ≡ none
    → usm_lookup_user name users ≡ (none, users)
unfolding usm_lookup_user
lookup-none name users f = rw (f, usm_lookup_user)

-- A login by a user that is looked up and let go.
answer-lookup :
    (name : List ℕ) (users : Users)
    → Live users
    → (let (user, users') = usm_lookup_user name users in answer name user users')
      ≡ Option.map (λ u. (handle_login name u, users)) (find name users)
unfolding answer handle_login usm_copy_user_account usm_copy_user_passhash
answer-lookup name users live = elim (Option-cases (find name users)) [
  | inl f ↦ rw (lookup-none name users f, f)
  | inr (u, f) ↦
      let (lo, hi) = live name u f in
      rw (lookup-some name users u f lo, put-get name users u f lo hi, f)
]

guest_login_lem :
    (conf : LoginConf) (asked : Bool) (users : Users)
    → Live users
    → guest_login conf asked users ≡ (
      Ret.ok,
      elim (if asked then find conf.guest_account users else none) [
        | none ↦ no_response bad
        | some u ↦ handle_login conf.guest_account u
      ],
      users,
    )
unfolding guest_login answer
guest_login_lem conf false users live = refl
guest_login_lem conf true users live = elim (Option-cases (find conf.guest_account users)) [
  | inl f ↦ ground (arith, lookup-none conf.guest_account users f)
  | inr (u, f) ↦
      let (lo, hi) = live conf.guest_account u f in
      rw
        (lookup-some conf.guest_account users u f lo, put-get conf.guest_account users u f lo hi, f)
        (unfold handle_login usm_copy_user_account usm_copy_user_passhash in refl)
]

-- the outcome for an account that the table has, and for one that it lacks
login_known :
    (conf : LoginConf) (req : LoginRequest) (users : Users) (u : User)
    → Live users
    → terminated req.account ≡ true
    → is_empty (c_string req.account) ≡ false
    → find (c_string req.account) users ≡ some u
    → usm_handle_login_request conf req users
      ≡ (Ret.ok, handle_login (c_string req.account) u, users)
unfolding usm_handle_login_request answer
login_known conf req users u live t e f =
    let (lo, hi) = live (c_string req.account) u f in
    rw
      (
        t,
        e,
        lookup-some (c_string req.account) users u f lo,
        put-get (c_string req.account) users u f lo hi,
      )
      (unfold handle_login usm_copy_user_account usm_copy_user_passhash in refl)

login_unknown :
    (conf : LoginConf) (req : LoginRequest) (users : Users)
    → Live users
    → terminated req.account ≡ true
    → is_empty (c_string req.account) ≡ false
    → find (c_string req.account) users ≡ none
    → usm_handle_login_request conf req users ≡ (
        if req.ignore_map_to_guest || is_never conf.map_to_guest
        then (Ret.ok, no_response bad, users)
        else guest_login conf (is_bad_user conf.map_to_guest) users)
unfolding usm_handle_login_request answer
login_unknown conf req users live t e f = ground (arith, lookup-none (c_string req.account) users f)

abbrev Refines : LoginConf → LoginRequest → Users → Type 0
Refines conf req users =
    usm_handle_login_request conf req users
    ≡ ((login_spec conf req users).0, (login_spec conf req users).1, users)

module _ (conf : LoginConf) (req : LoginRequest) (users : Users) (live : Live users) where
  Refines-malformed : terminated req.account ≡ false → Refines conf req users
  unfolding usm_handle_login_request login_spec
  Refines-malformed t = rw t

  module _ (t : terminated req.account ≡ true) where
    Refines-null : is_empty (c_string req.account) ≡ true → Refines conf req users
    unfolding usm_handle_login_request login_spec login_user
    Refines-null e = rw (t, e, guest_login_lem conf true users live) (ground arith)

    module _ (e : is_empty (c_string req.account) ≡ false) where
      Refines-known :
          (u : User) → find (c_string req.account) users ≡ some u → Refines conf req users
      unfolding login_spec login_user
      Refines-known u f = rw (login_known conf req users u live t e f, t, e, f)

      Refines-unknown : find (c_string req.account) users ≡ none → Refines conf req users
      unfolding login_spec login_user
      Refines-unknown f =
          rw
            (
              login_unknown conf req users live t e f,
              guest_login_lem conf (is_bad_user conf.map_to_guest) users live,
              t,
              e,
              f,
            )
            (ground arith)

-- `usm_handle_login_request`, for a table in which no user is being dropped and no counter is
-- about to wrap: it answers as `login_spec` says. A malformed account is refused. Else the account's user answers, if there is
-- one; the guest account answers an empty account, and an unknown one if the configuration maps
-- bad users to it and the request does not forbid that; no one else gets more than BAD_USER. Every
-- reference that was taken is given back: the table of users is the same after as before.
pub login_refines :
    (conf : LoginConf) (req : LoginRequest) (users : Users)
    → Live users
    → usm_handle_login_request conf req users
      ≡ ((login_spec conf req users).0, (login_spec conf req users).1, users)
login_refines conf req users live = elim (Bool-cases (terminated req.account)) [
  | inr t ↦ Refines-malformed conf req users live t
  | inl t ↦ elim (Bool-cases (is_empty (c_string req.account))) [
    | inl e ↦ Refines-null conf req users live t e
    | inr e ↦ elim (Option-cases (find (c_string req.account) users)) [
      | inl f ↦ Refines-unknown conf req users live t e f
      | inr (u, f) ↦ Refines-known conf req users live t e u f
    ]
  ]
]
