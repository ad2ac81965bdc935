-- ===== src/Share/Hosts.antt =====
-- The lists of hosts in tools/management/share.c: `match_host_cidr` and `shm_lookup_hosts_map`.
pub mod Prefix
pub mod Listed
use ksmbd_tools.Base.{
  ℕ, zero, suc, ◌+◌, ◌-◌, ◌*◌, ◌%◌, ◌/◌, ◌^◌, ◌≤◌, ◌<◌, ◌≡◌, refl, arith, ltb, leb, ◌==◌,
  if◌then◌else◌, not, ◌&&◌, ◌||◌,
}
use ksmbd_tools.Base.{
  Bool, true, false, Option, none, some, List, [], ◌∷◌, ◌++◌, length, take, drop, All, get_elem?,
}
use Prim.Native.Nat.{bit_and}
use ksmbd_tools.Base.{str_eq}
use ksmbd_tools.Share.{Share, Lookup, found, enoent, einval}

-- the `int` that `strtol(s, &endp, 10)` puts into `prefix_len`, where it leaves nothing unread and
-- no error and this is not negative (for a negative one the code compares the strings too); and
-- `inet_pton` for IPv4 and IPv6, with 4 and 16 octets
pub record Libc : Type 0 where
  pub strtol : List ℕ → Option ℕ
  pub inet_pton4 : List ℕ → Option (List ℕ)
  pub inet_pton6 : List ℕ → Option (List ℕ)

abbrev split_slash : List ℕ → Option (List ℕ × List ℕ)
split_slash [] = none
split_slash (c ∷ cs) =
    if c == b'/'
    then some ([], cs)
    else elim (split_slash cs) [ none ↦ none | some (net, rest) ↦ some (c ∷ net, rest) ]

has_colon : List ℕ → Bool
has_colon [] = false
has_colon (c ∷ cs) = c == b':' || has_colon cs

-- `(unsigned char)(0xFF << (8 - remaining_bits))`
abbrev pub prefix_mask : ℕ → ℕ
prefix_mask bits = 256 - 2 ^ (8 - bits)

-- `n` whole octets, then `bits` bits of the octet behind them under the mask
pub compare_from : ℕ → ℕ → List ℕ → List ℕ → Bool
compare_from (suc n) bits (x ∷ xs) (y ∷ ys) = x == y && compare_from n bits xs ys
compare_from zero (suc bits) (x ∷ xs) (y ∷ ys) =
    bit_and x (prefix_mask (suc bits)) == bit_and y (prefix_mask (suc bits))
compare_from _ _ _ _ = true

-- the comparison of `prefix_len` bits of two addresses of one family
pub same_prefix : ℕ → List ℕ → List ℕ → Bool
unfolding compare_from
same_prefix prefix_len net host = compare_from (prefix_len / 8) (prefix_len % 8) net host

-- both addresses by one `inet_pton`, and a prefix no longer than they are; else the fallback
compare_addresses : Bool → ℕ → ℕ → Option (List ℕ) → Option (List ℕ) → Bool
compare_addresses exact addr_len prefix_len none host = exact
compare_addresses exact addr_len prefix_len (some net) none = exact
compare_addresses exact addr_len prefix_len (some net) (some host) =
    if ltb (addr_len * 8) prefix_len then exact else same_prefix prefix_len net host

pub match_host_cidr : Libc → List ℕ → List ℕ → Bool
match_host_cidr libc pattern addr =
    let exact = str_eq pattern addr in
    elim (split_slash pattern) [
      | none ↦ exact
      | some (network_str, rest) ↦
          if length network_str == 0 || leb 47 (length network_str)
          then exact
          else elim (libc.strtol rest) [
            | none ↦ exact
            | some prefix_len ↦
                if has_colon network_str
                then compare_addresses exact 16 prefix_len (libc.inet_pton6 network_str)
                    (libc.inet_pton6 addr)
                else compare_addresses exact 4 prefix_len (libc.inet_pton4 network_str)
                    (libc.inet_pton4 addr)
          ]
    ]

pub any_match : Libc → List ℕ → List (List ℕ) → Bool
any_match libc host [] = false
any_match libc host (p ∷ ps) = match_host_cidr libc p host || any_match libc host ps

unfoldable pub shm_lookup_hosts_map : Libc → Option (List (List ℕ)) → List ℕ → Lookup
unfolding any_match
shm_lookup_hosts_map libc none host = einval
shm_lookup_hosts_map libc (some patterns) host =
    if any_match libc host patterns then found else enoent
