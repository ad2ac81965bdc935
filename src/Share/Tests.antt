-- ===== src/Share/Tests.antt =====
-- A concrete share, and the theorems on tools/management/share.c.
use ksmbd_tools.Base.{
  ℕ, ◌≡◌, ◌↔◌, refl, arith, true, false, none, some, List, [], ◌∷◌, length, take,
}
use ksmbd_tools.Share.{ShareFlags, Share, shm_share_config_payload_size, share_config_payload}
use ksmbd_tools.Share.Hosts.{same_prefix}
use ksmbd_tools.Share.Hosts.Prefix.{bits, same_prefix_lem}
use ksmbd_tools.Share.Connections.{payload-size}

abbrev pub disk : ShareFlags
disk = record {
  writeable = true;
  readonly = false;
  guest_ok = false;
  pipe = false;
  update_flag = true;
}

abbrev pub docs : Share
docs = record {
  name = b'd' ∷ [];
  path = some (b'/' ∷ b'd' ∷ []);
  max_connections = 2;
  num_connections = 0;
  ref_count = 1;
  flags = disk;
  veto_list = b'x' ∷ [];
  guest_account = none;
  admin_users = none;
  valid_users = some ((b'b' ∷ []) ∷ []);
  invalid_users = none;
  read_list = none;
  write_list = none;
  hosts_allow_map = none;
  hosts_deny_map = none;
}

-- 10.1.2.3 in 10.1.0.0/16
same_prefix_lem_example :
    same_prefix 16 (10 ∷ 1 ∷ 0 ∷ 0 ∷ []) (10 ∷ 1 ∷ 2 ∷ 3 ∷ []) ≡ true
    ↔ take 16 (bits (10 ∷ 1 ∷ 0 ∷ 0 ∷ [])) ≡ take 16 (bits (10 ∷ 1 ∷ 2 ∷ 3 ∷ []))
same_prefix_lem_example =
    same_prefix_lem 16 (10 ∷ 1 ∷ 0 ∷ 0 ∷ []) (10 ∷ 1 ∷ 2 ∷ 3 ∷ [])
      (omega arith, (omega arith, (omega arith, (omega arith, tt))))
      (omega arith, (omega arith, (omega arith, (omega arith, tt)))) refl

-- one pattern with its delimiter, then the path with its NUL
payload-size_example :
    (p : List ℕ) × (share_config_payload none 5 (some docs) ≡ some p) × (length p ≡ 5)
unfolding shm_share_config_payload_size
payload-size_example = payload-size none docs 5 refl (omega arith)
