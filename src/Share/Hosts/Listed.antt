-- ===== src/Share/Hosts/Listed.antt =====
-- A list of hosts of tools/management/share.c as the set of the addresses that it names.
use ksmbd_tools.Base.{ℕ, ◌≡◌, refl, arith, Bool, true, false, Option, none, some, List, [], ◌∷◌}
use ksmbd_tools.Base.{if◌then◌else◌}
use ksmbd_tools.Share.{found, enoent, einval}
use ksmbd_tools.Share.Hosts.{Libc, match_host_cidr, any_match, shm_lookup_hosts_map}

module _ (libc : Libc) (addr : List ℕ) where
  abbrev names : List (List ℕ) → Bool
  names [] = false
  names (p ∷ ps) = if match_host_cidr libc p addr then true else names ps

  -- whether the list is there and names the address
  unfoldable pub host_listed : Option (List (List ℕ)) → Bool
  host_listed none = false
  host_listed (some ps) = names ps

  any_match-names : (ps : List (List ℕ)) → any_match libc addr ps ≡ names ps
  unfolding any_match
  any_match-names [] = refl
  any_match-names (p ∷ ps) = ground (arith, any_match-names ps)

  -- The three answers of the look-up, by whether the list is there and whether it names the address.
  pub lookup-listed :
      (ps : List (List ℕ))
      → host_listed (some ps) ≡ true
      → shm_lookup_hosts_map libc (some ps) addr ≡ found
  unfolding host_listed shm_lookup_hosts_map
  lookup-listed ps h = ground (arith, any_match-names ps)

  pub lookup-not_listed :
      (ps : List (List ℕ))
      → host_listed (some ps) ≡ false
      → shm_lookup_hosts_map libc (some ps) addr ≡ enoent
  unfolding host_listed shm_lookup_hosts_map
  lookup-not_listed ps h = ground (arith, any_match-names ps)

  pub lookup-no_list : shm_lookup_hosts_map libc none addr ≡ einval
  unfolding shm_lookup_hosts_map
  lookup-no_list = refl
