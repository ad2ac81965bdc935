-- ===== src/User/Logout.antt =====
-- `usm_handle_logout_request` of tools/management/user.c: the count of failed logins that delays a
-- session.
use ksmbd_tools.Base.{ℕ, zero, suc, ◌+◌, ◌^◌, ◌≤◌, ◌<◌, ◌≡◌, refl, arith, ltb, if◌then◌else◌, not}
use ksmbd_tools.Base.{◌||◌, Bool, true, false, Option, none, some, List, ◌∙◌, sym}
use native.Mathlib.Decide.{dec_lt}
use mathlib.Core.Path.{subst}
use mathlib.Core.Bool.{or-true}
use ksmbd_tools.Base.{
  lt→ltb, le→ltb, update-ext, c_string, terminated, find, update, inc, dec, ==_ne, update-update,
  find-update_self,
}
use ksmbd_tools.User.Login.Refine.{lookup-some}
use Prim.Native.Nat.{min}
use ksmbd_tools.User.{User, Users, Ret, usm_lookup_user, put_ksmbd_user}

pub record LogoutRequest : Type 0 where
  pub account : List ℕ
  pub bad_password : Bool

-- what a logout does to the user, under its lock
pub count_login : Bool → User → User
count_login bad u =
    if bad
    then if ltb u.failed_login_count 10
      then record u { failed_login_count = u.failed_login_count + 1 }
      else record u { delay_session = true }
    else record u { failed_login_count = 0; delay_session = false }

pub usm_handle_logout_request : LogoutRequest → Users → Ret × Users
usm_handle_logout_request req users =
    let account = c_string req.account in
    let (user, users') = usm_lookup_user account users in
    if not (terminated req.account) then (Ret.einval, users) else elim user [
      | none ↦ (Ret.enoent, users')
      | some _ ↦
          (Ret.ok, put_ksmbd_user account (update account (count_login req.bad_password) users'))
    ]

-- `n` logouts in a row of one account, all with this flag
pub logouts : ℕ → LogoutRequest → Users → Users
logouts zero req users = users
logouts (suc n) req users = logouts n req (usm_handle_logout_request req users).1

abbrev up : User → User
up u = record u { ref_count = inc u.ref_count }

abbrev down : User → User
down u = record u { ref_count = dec u.ref_count }

count_login-ref_count : (bad : Bool) (u : User) → (count_login bad u).ref_count ≡ u.ref_count
unfolding count_login
count_login-ref_count bad u = ground arith

down-count-up :
    (bad : Bool) (u : User)
    → u.ref_count + 1 < 2 ^ 32
    → down (count_login bad (up u)) ≡ count_login bad u
unfolding count_login
down-count-up bad u h =
    let e : dec (inc u.ref_count) ≡ u.ref_count = omega arith in ground (arith, e)

-- to change a user between a lookup and a put is to change it
put-count-get :
    (name : List ℕ) (bad : Bool) (users : Users) (u : User)
    → find name users ≡ some u
    → 0 < u.ref_count
    → u.ref_count + 1 < 2 ^ 32
    → put_ksmbd_user name (update name (count_login bad) (update name up users))
      ≡ update name (count_login bad) users
unfolding put_ksmbd_user
put-count-get name bad users u f lo hi =
    let e1 = find-update_self name up users u f in
    let e2 = find-update_self name (count_login bad) (update name up users) (up u) e1 in
    let keep : dec (inc u.ref_count) ≡ u.ref_count = omega arith in
    rw
      (
        put_ksmbd_user,
        e2,
        count_login-ref_count bad (up u),
        keep,
        ==_ne u.ref_count 0 (omega arith),
        update-update name (count_login bad) down (update name up users),
        update-update name up (λ v. down (count_login bad v)) users,
      )
      (update-ext name (λ v. down (count_login bad (up v))) (count_login bad) users u f
        (down-count-up bad u hi))

pub logout-some :
    (req : LogoutRequest) (users : Users) (u : User)
    → terminated req.account ≡ true
    → find (c_string req.account) users ≡ some u
    → 0 < u.ref_count
    → u.ref_count + 1 < 2 ^ 32
    → usm_handle_logout_request req users
      ≡ (Ret.ok, update (c_string req.account) (count_login req.bad_password) users)
unfolding usm_handle_logout_request
logout-some req users u t f lo hi =
    let found = lookup-some (c_string req.account) users u f lo in
    rw (t, found, found, put-count-get (c_string req.account) req.bad_password users u f lo hi)

-- the user that `n` logouts of this kind leave
count_logins : ℕ → Bool → User → User
count_logins zero bad u = u
count_logins (suc n) bad u = count_logins n bad (count_login bad u)

logouts-count :
    (n : ℕ) (req : LogoutRequest) (users : Users) (u : User)
    → terminated req.account ≡ true
    → find (c_string req.account) users ≡ some u
    → 0 < u.ref_count
    → u.ref_count + 1 < 2 ^ 32
    → find (c_string req.account) (logouts n req users) ≡ some (count_logins n req.bad_password u)
unfolding logouts count_logins
logouts-count zero req users u t f lo hi = f
logouts-count (suc n) req users u t f lo hi =
    let k = count_login-ref_count req.bad_password u in
    rw (logout-some req users u t f lo hi) (
      logouts-count n req _ (count_login req.bad_password u) t
        (find-update_self (c_string req.account) (count_login req.bad_password) users u f) (rw k lo)
        (rw k hi))

below :
    (u : User)
    → u.failed_login_count < 10
    → count_login true u ≡ record u { failed_login_count = u.failed_login_count + 1 }
unfolding count_login
below u h = rw (lt→ltb u.failed_login_count 10 h)

at_limit :
    (u : User) → 10 ≤ u.failed_login_count → count_login true u ≡ record u { delay_session = true }
unfolding count_login
at_limit u h = rw (le→ltb u.failed_login_count 10 h)

abbrev pub Counted : ℕ → User → User → Type 0
Counted n u v =
    (v.failed_login_count ≡ min 10 (u.failed_login_count + n))
    × (v.delay_session ≡ (u.delay_session || ltb 10 (u.failed_login_count + n)))

one_more :
    (n : ℕ) (u w v : User)
    → w.failed_login_count ≡ u.failed_login_count + 1
    → w.delay_session ≡ u.delay_session
    → Counted n w v
    → Counted (suc n) u v
one_more n u w v e d (c, k) =
    let m : w.failed_login_count + n ≡ u.failed_login_count + suc n = omega arith in
    (rw m at c, rw (d, m) at k)

one_late :
    (n : ℕ) (u w v : User)
    → 10 ≤ u.failed_login_count
    → w.failed_login_count ≡ u.failed_login_count
    → w.delay_session ≡ true
    → Counted n w v
    → Counted (suc n) u v
one_late n u w v h e d (c, k) = (
  omega arith,
  k
      ∙ rw (d, lt→ltb 10 (u.failed_login_count + suc n) (omega arith))
          (sym (or-true u.delay_session)),
)

count_logins-bad :
    (n : ℕ) (u : User) → u.failed_login_count ≤ 10 → Counted n u (count_logins n true u)
unfolding count_logins
count_logins-bad zero u h = ground arith
count_logins-bad (suc n) u h = elim (dec_lt u.failed_login_count 10) [
  | yes l ↦
      let more = record u { failed_login_count = u.failed_login_count + 1 } in
      subst (λ w. Counted (suc n) u (count_logins n true w)) (sym (below u l))
        (one_more n u more (count_logins n true more) refl refl
          (count_logins-bad n more (omega arith)))
  | no l ↦
      let late = record u { delay_session = true } in
      subst (λ w. Counted (suc n) u (count_logins n true w)) (sym (at_limit u (omega arith)))
        (one_late n u late (count_logins n true late) (omega arith) refl refl
          (count_logins-bad n late h))
]

abbrev pub logout : List ℕ → Bool → LogoutRequest
logout account bad = record { account = account; bad_password = bad }

count_logins-ref_count :
    (n : ℕ) (bad : Bool) (u : User) → (count_logins n bad u).ref_count ≡ u.ref_count
unfolding count_logins
count_logins-ref_count zero bad u = refl
count_logins-ref_count (suc n) bad u =
    count_logins-ref_count n bad (count_login bad u) ∙ count_login-ref_count bad u

good_login :
    (v : User)
    → ◌≡◌ {A = Option User}
        (some (count_login false v))
        (some (record v { failed_login_count = 0; delay_session = false }))
unfolding count_login
good_login v = refl

-- A user whose count of failed logins is ten at most, after `n` logouts in a row with a bad
-- password: the count is theirs and the old one together, ten at most, and the session is delayed
-- exactly if it was before or the eleventh bad login has come. One logout with a good password
-- after that sets the count to 0 and ends the delay. The user's references are all given back.
pub logouts_delay :
    (n : ℕ) (account : List ℕ) (users : Users) (u : User)
    → terminated account ≡ true
    → find (c_string account) users ≡ some u
    → 0 < u.ref_count
    → u.ref_count + 1 < 2 ^ 32
    → u.failed_login_count ≤ 10
    → (v : User) × (find (c_string account) (logouts n (logout account true) users) ≡ some v)
      × Counted n u v
      × (v.ref_count ≡ u.ref_count)
      × (find
            (c_string account)
            (usm_handle_logout_request
              (logout account false)
              (logouts n (logout account true) users)).1
          ≡ some (record v { failed_login_count = 0; delay_session = false }))
logouts_delay n account users u t f lo hi c =
    let v = count_logins n true u in
    let e = logouts-count n (logout account true) users u t f lo hi in
    let r = count_logins-ref_count n true u in
    (
      v,
      e,
      count_logins-bad n u c,
      r,
      rw
          (logout-some (logout account false) (logouts n (logout account true) users) v t e
            (rw r lo) (rw r hi))
          (find-update_self (c_string account) (count_login false) _ v e ∙ good_login v),
    )
