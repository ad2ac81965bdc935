-- ===== src/TreeConn/Admitted.antt =====
-- The tests of the client's address and of the guest account in `tcm_handle_tree_connect` of
-- tools/management/tree_conn.c against the policy.
use ksmbd_tools.Base.{ℕ, ◌≡◌, refl, arith, not}
use ksmbd_tools.Base.{some, List, Option-cases, Bool-cases, inl, inr}
use ksmbd_tools.Share.{Share}
use ksmbd_tools.Share.Hosts.{Libc}
use ksmbd_tools.Share.Hosts.Listed.{host_listed, lookup-listed, lookup-not_listed, lookup-no_list}
use ksmbd_tools.TreeConn.{TreeConf, TreeRequest, host_refused, guest_refused}
use ksmbd_tools.TreeConn.Policy.{host_admitted, guest_admitted}

-- The clients whose address the code refuses are those that are not admitted.
pub host_refused_lem :
    (libc : Libc) (s : Share) (addr : List ℕ)
    → host_refused libc s addr ≡ not (host_admitted libc s addr)
unfolding host_refused host_admitted host_listed
host_refused_lem libc s addr = elim (Option-cases s.hosts_allow_map) [
  | inr (ps, e) ↦ elim (Bool-cases (host_listed libc addr (some ps))) [
    | inl h ↦ rw (host_refused, host_admitted, e, lookup-listed libc addr ps h, h) refl
    | inr h ↦ rw (host_refused, host_admitted, e, lookup-not_listed libc addr ps h, h) refl
  ]
  | inl e ↦ elim (Option-cases s.hosts_deny_map) [
    | inl d ↦
        rw (host_refused, host_admitted, e, lookup-no_list libc addr, d, lookup-no_list libc addr)
          refl
    | inr (ps, d) ↦ elim (Bool-cases (host_listed libc addr (some ps))) [
      | inl h ↦
          rw
            (
              host_refused,
              host_admitted,
              e,
              lookup-no_list libc addr,
              d,
              lookup-listed libc addr ps h,
              h,
            )
            refl
      | inr h ↦
          rw
            (
              host_refused,
              host_admitted,
              e,
              lookup-no_list libc addr,
              d,
              lookup-not_listed libc addr ps h,
              h,
            )
            refl
    ]
  ]
]

pub guest_refused_lem :
    (conf : TreeConf) (req : TreeRequest) (s : Share)
    → guest_refused conf req s ≡ not (guest_admitted conf req s)
unfolding guest_refused guest_admitted
guest_refused_lem conf req s = ground arith
