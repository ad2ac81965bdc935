-- ===== src/Share/Connections.antt =====
-- The size of the configuration of a share in tools/management/share.c.
use ksmbd_tools.Base.{ℕ, ◌+◌, ◌<◌, ◌≡◌, ◌≢◌, Option-cases, inl, inr, arith, ltb, if◌then◌else◌}
use ksmbd_tools.Base.{Option, none, some, List, [], ◌∷◌, ◌++◌, length, length-append}
use ksmbd_tools.Share.{Share, shm_share_config_payload_size, share_config_payload}

-- the veto list with its delimiter
abbrev veto_part : Share → List ℕ
veto_part s = if ltb 0 (length s.veto_list) then s.veto_list ++ (0 ∷ []) else []

length-veto_part :
    (s : Share)
    → length (veto_part s) ≡ (if ltb 0 (length s.veto_list) then length s.veto_list + 1 else 0)
length-veto_part s = ground (arith, length-append s.veto_list (0 ∷ []))

module _ (s : Share) (n : ℕ) (path : List ℕ) (f : s.path ≡ some path) (pos : 0 < n) where
  payload_none :
      shm_share_config_payload_size none (some s) ≡ some n
      → (share_config_payload none n (some s) ≡ some (veto_part s ++ (path ++ (0 ∷ []))))
        × (length (veto_part s ++ (path ++ (0 ∷ []))) ≡ n)
  unfolding shm_share_config_payload_size share_config_payload
  payload_none e =
      let l1 = length-append (veto_part s) (path ++ (0 ∷ [])) in
      let l2 = length-append path (0 ∷ []) in let l3 = length-veto_part s in ground arith

  payload_some :
      (root : List ℕ)
      → shm_share_config_payload_size (some root) (some s) ≡ some n
      → (share_config_payload (some root) n (some s)
          ≡ some (veto_part s ++ ((root ++ path) ++ (0 ∷ []))))
        × (length (veto_part s ++ ((root ++ path) ++ (0 ∷ []))) ≡ n)
  unfolding shm_share_config_payload_size share_config_payload
  payload_some root e =
      let l1 = length-append (veto_part s) ((root ++ path) ++ (0 ∷ [])) in
      let l2 = length-append (root ++ path) (0 ∷ []) in
      let l3 = length-veto_part s in let l4 = length-append root path in ground arith

no_path :
    (root_dir : Option (List ℕ)) (s : Share) (n : ℕ)
    → s.path ≡ none
    → 0 < n
    → shm_share_config_payload_size root_dir (some s) ≢ some n
unfolding shm_share_config_payload_size
no_path root_dir s n f pos e = ground arith

-- The size that `shm_share_config_payload_size` announces, where it is not 0, is the size of the
-- payload that `shm_handle_share_config_request` then writes into a buffer of that size, and the
-- payload is written.
pub payload-size :
    (root_dir : Option (List ℕ)) (s : Share) (n : ℕ)
    → shm_share_config_payload_size root_dir (some s) ≡ some n
    → 0 < n
    → (p : List ℕ) × (share_config_payload root_dir n (some s) ≡ some p) × (length p ≡ n)
payload-size none s n e pos = elim (Option-cases s.path) [
  | inl f ↦ absurd (no_path none s n f pos e)
  | inr (path, f) ↦ let (written, size) = payload_none s n path f pos e in (_, written, size)
]
payload-size (some root) s n e pos = elim (Option-cases s.path) [
  | inl f ↦ absurd (no_path (some root) s n f pos e)
  | inr (path, f) ↦ let (written, size) = payload_some s n path f pos root e in (_, written, size)
]
