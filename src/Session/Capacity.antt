-- ===== src/Session/Capacity.antt =====
-- Sessions and the capacity for them, over connects and disconnects, in
-- tools/management/session.c.
use ksmbd_tools.Base.{ℕ, ◌+◌, ◌-◌, ◌^◌, ◌<◌, ◌≡◌, refl, sym, ap, ◌∙◌, arith, ltb}
use ksmbd_tools.Base.{
  true, false, Option, none, some, List, [], ◌∷◌, length, length-append, Option-cases, Bool-cases,
  inl, inr,
}
use ksmbd_tools.Session.{
  Session, TreeConn, World, find_session, update_session, remove_session, sm_handle_tree_connect,
  sm_check_sessions_capacity, sm_handle_tree_disconnect,
}
use ksmbd_tools.Session.{find_tree_conn, remove_tree_conn, is_nil}
use ksmbd_tools.Session.Wf.{
  Counted, SessionsWf, find-Counted, update-SessionsWf, remove-SessionsWf, append-SessionsWf,
  length-update, length-remove,
}
use ksmbd_tools.Session.Steps.{
  joined, left, connect-some, connect-none, check-some, check-none, disconnect-none,
  disconnect-absent, disconnect-more, disconnect-last,
}

length-remove_tree_conn :
    (k : ℕ) (cs : List TreeConn) (c : TreeConn)
    → find_tree_conn k cs ≡ some c
    → length (remove_tree_conn k cs) + 1 ≡ length cs
unfolding find_tree_conn remove_tree_conn
length-remove_tree_conn k [] c h = cc
length-remove_tree_conn k (d ∷ cs) c h = ground (arith, length-remove_tree_conn k cs c)

is_nil-length : (cs : List TreeConn) → is_nil cs ≡ true → length cs ≡ 0
is_nil-length [] h = refl
is_nil-length (c ∷ cs) h = cc

is_nil-positive : (cs : List TreeConn) → is_nil cs ≡ false → 0 < length cs
is_nil-positive [] h = cc
is_nil-positive (c ∷ cs) h = omega arith

-- What a disconnect may do to the sessions and the capacity.
pub data Disconnected (id k : ℕ) (w w' : World) : Type 0 where
  kept : w'.sessions ≡ w.sessions → w'.sessions_cap ≡ w.sessions_cap → Disconnected id k w w'
  fewer :
      (s : Session)
      → find_session id w.sessions ≡ some s
      → Counted (left k s)
      → w'.sessions ≡ update_session id (left k) w.sessions
      → w'.sessions_cap ≡ w.sessions_cap
      → Disconnected id k w w'
  gone :
      (s : Session)
      → find_session id w.sessions ≡ some s
      → w'.sessions ≡ remove_session id w.sessions
      → w'.sessions_cap ≡ w.sessions_cap + 1
      → Disconnected id k w w'

pub disconnect-cases :
    (id k : ℕ) (w : World)
    → SessionsWf w.sessions
    → Disconnected id k w (sm_handle_tree_disconnect id k w)
disconnect-cases id k w (counted, d) = elim (Option-cases (find_session id w.sessions)) [
  | inl f ↦ rw (disconnect-none id w k f) (kept refl refl)
  | inr (s, f) ↦
      let c = find-Counted id w.sessions s counted f in
      elim (Option-cases (find_tree_conn k s.tree_conns)) [
        | inl n ↦ rw (disconnect-absent id w s f c k n) (kept refl refl)
        | inr (conn, h) ↦
            let len = length-remove_tree_conn k s.tree_conns conn h in
            elim (Bool-cases (is_nil (remove_tree_conn k s.tree_conns))) [
              | inl last ↦
                  let one : s.ref_counter ≡ 1 =
                    omega (arith, is_nil-length (remove_tree_conn k s.tree_conns) last) in
                  let (ss, cap) = disconnect-last id w s f c k conn h last one in gone s f ss cap
              | inr more ↦
                  let some_left = is_nil-positive (remove_tree_conn k s.tree_conns) more in
                  let (ss, cap) = disconnect-more id w s f c k conn h more (omega arith) in
                  fewer s f (omega arith, omega arith, omega arith) ss cap
            ]
      ]
]

-- A disconnect keeps the table of sessions well formed: every session counts its tree connections,
-- which are one at least, and no two have the same id.
pub disconnect-SessionsWf :
    (id k : ℕ) (w : World)
    → SessionsWf w.sessions
    → SessionsWf (sm_handle_tree_disconnect id k w).sessions
disconnect-SessionsWf id k w wf = elim (disconnect-cases id k w wf) [
  | kept e cap ↦ rw e wf
  | fewer s f c e cap ↦ rw e (update-SessionsWf id (left k) (λ t. refl) w.sessions s wf f c)
  | gone s f e cap ↦ rw e (remove-SessionsWf id w.sessions wf)
]

-- The capacity that is left and the sessions that are open: in a well-formed table, a disconnect
-- keeps their sum, whether or not it closes a session.
pub disconnect-capacity :
    (id k : ℕ) (w : World)
    → SessionsWf w.sessions
    → (sm_handle_tree_disconnect id k w).sessions_cap
        + length (sm_handle_tree_disconnect id k w).sessions
      ≡ w.sessions_cap + length w.sessions
disconnect-capacity id k w wf = elim (disconnect-cases id k w wf) [
  | kept e cap ↦ rw (e, cap) refl
  | fewer s f c e cap ↦
      rw (e, cap) (ap (λ n. w.sessions_cap + n) (length-update id (left k) w.sessions))
  | gone s f e cap ↦ rw (e, cap) (omega (arith, length-remove id w.sessions s f))
]

abbrev pub Room : ℕ → List Session → Type 0
Room id ss = (s : Session) → find_session id ss ≡ some s → s.ref_counter + 2 < 2 ^ 32

-- A connect never fails in a table that is well formed.
pub connect-total :
    (id : ℕ) (user : List ℕ) (conn : TreeConn) (w : World)
    → SessionsWf w.sessions
    → (w' : World) × (sm_handle_tree_connect id user conn w ≡ some w')
connect-total id user conn w wf = elim (Option-cases (find_session id w.sessions)) [
  | inl f ↦ (_, connect-none id w f user conn)
  | inr (s, f) ↦ (_, connect-some id w s f (find-Counted id w.sessions s wf.0 f) user conn)
]

joined-Counted :
    (conn : TreeConn) (s : Session)
    → Counted s
    → s.ref_counter + 2 < 2 ^ 32
    → Counted (joined conn s)
joined-Counted conn s c r =
    let len = length-append s.tree_conns (conn ∷ []) in (omega arith, omega arith, omega arith)

-- In a well-formed table, whose session of this id has room for a reference more, a connect succeeds,
-- and the table is well formed after it.
pub connect-SessionsWf :
    (id : ℕ) (user : List ℕ) (conn : TreeConn) (w : World)
    → SessionsWf w.sessions
    → Room id w.sessions
    → (w' : World) × (sm_handle_tree_connect id user conn w ≡ some w') × SessionsWf w'.sessions
connect-SessionsWf id user conn w wf room = elim (Option-cases (find_session id w.sessions)) [
  | inl f ↦ (
    _,
    connect-none id w f user conn,
    append-SessionsWf _ w.sessions wf (refl, omega arith, omega arith) f,
  )
  | inr (s, f) ↦
      let c = find-Counted id w.sessions s wf.0 f in
      (
        _,
        connect-some id w s f c user conn,
        update-SessionsWf id (joined conn) (λ t. refl) w.sessions s wf f
            (joined-Counted conn s c (room s f)),
      )
]

-- `w'` is what a capacity check and a connect make of `w`, if both succeed.
abbrev pub Admits : ℕ → List ℕ → TreeConn → World → World → Type 0
Admits id user conn w w' =
    ((sm_check_sessions_capacity id w).0 ≡ true)
    × (sm_handle_tree_connect id user conn (sm_check_sessions_capacity id w).1 ≡ some w')

used_and_free : Option World → ℕ
used_and_free none = 0
used_and_free (some w) = w.sessions_cap + length w.sessions

-- A connect that passes the capacity check keeps the sum of the capacity that is left and the
-- sessions that are open, in a well-formed table.
pub connect-capacity :
    (id : ℕ) (user : List ℕ) (conn : TreeConn) (w w' : World)
    → SessionsWf w.sessions
    → Admits id user conn w w'
    → w'.sessions_cap + length w'.sessions ≡ w.sessions_cap + length w.sessions
unfolding used_and_free
connect-capacity id user conn w w' (counted, d) (pass, e) =
    elim (Option-cases (find_session id w.sessions)) [
      | inl f ↦ elim (Bool-cases (ltb w.sessions_cap 1)) [
        | inl full ↦
            let checked : sm_check_sessions_capacity id w ≡ (false, w) =
              check-none id w f ∙ rw full refl in
            let clash : false ≡ true = sym (ap (λ r. r.0) checked) ∙ pass in cc
        | inr room ↦
            let taken : World = record w { sessions_cap = w.sessions_cap - 1 } in
            let checked : sm_check_sessions_capacity id w ≡ (true, taken) =
              check-none id w f ∙ rw room refl in
            let w'_is : some _ ≡ some w' =
              sym (connect-none id taken f user conn)
              ∙ (ap (λ r. sm_handle_tree_connect id user conn r.1) (sym checked) ∙ e) in
            let one_more =
              length-append w.sessions
                (record { id = id; user = user; tree_conns = conn ∷ []; ref_counter = 1 } ∷ []) in
            sym (ap used_and_free w'_is) ∙ ground (arith, one_more)
      ]
      | inr (s, f) ↦
          let c = find-Counted id w.sessions s counted f in
          let w'_is : some _ ≡ some w' =
            sym (connect-some id w s f c user conn)
            ∙ (ap (λ r. sm_handle_tree_connect id user conn r.1) (sym (check-some id w s f c))
                ∙ e) in
          sym (ap used_and_free w'_is)
          ∙ ap (λ n. w.sessions_cap + n) (length-update id (joined conn) w.sessions)
    ]
