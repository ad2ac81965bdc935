-- ===== src/TreeConn/Refine.antt =====
-- `tcm_handle_tree_connect` of tools/management/tree_conn.c against its policy.
use ksmbd_tools.Base.{ℕ, ◌+◌, ◌<◌, ◌≡◌, refl, arith, leb, ◌==◌, not, ◌&&◌, ==_ne}
use ksmbd_tools.Base.{Bool, true, false, none, some, List}
use ksmbd_tools.Base.{c_string, terminated, update, find, inc}
use ksmbd_tools.Share.{Share, Shares, shm_lookup_share, shm_open_connection}
use ksmbd_tools.Share.Hosts.{Libc}
use ksmbd_tools.Session.{World}
use ksmbd_tools.TreeConn.{TreeConf, TreeRequest, tcm_handle_tree_connect}
use ksmbd_tools.TreeConn.Policy.{tree_policy}

-- no share is being dropped
abbrev pub LiveShares : Shares → Type 0
LiveShares shares = (key : List ℕ) (s : Share) → find key shares ≡ some s → 0 < s.ref_count

abbrev pub counted_in : Share → Share
counted_in s = record s { ref_count = inc s.ref_count }

pub lookup-share :
    (key : List ℕ) (shares : Shares) (s : Share)
    → find key shares ≡ some s
    → 0 < s.ref_count
    → shm_lookup_share key shares ≡ (some (counted_in s), update key counted_in shares)
unfolding shm_lookup_share
lookup-share key shares s f lo = rw (shm_lookup_share, f, ==_ne s.ref_count 0 (omega arith))

pub lookup-no_share :
    (key : List ℕ) (shares : Shares)
    → find key shares ≡ none
    → shm_lookup_share key shares ≡ (none, shares)
unfolding shm_lookup_share
lookup-no_share key shares f = rw (shm_lookup_share, f)

pub open-full :
    (s : Share)
    → (not (s.max_connections == 0) && leb s.max_connections s.num_connections) ≡ true
    → shm_open_connection (counted_in s) ≡ (false, counted_in s)
unfolding shm_open_connection
open-full s e = rw e refl

pub open-free :
    (s : Share)
    → (not (s.max_connections == 0) && leb s.max_connections s.num_connections) ≡ false
    → shm_open_connection (counted_in s)
      ≡ (true, record (counted_in s) { num_connections = s.num_connections + 1 })
unfolding shm_open_connection
open-free s e = rw e refl

-- the code returns the answer of the policy
abbrev Follows : Libc → (List ℕ → List ℕ) → TreeConf → TreeRequest → World → Type 0
Follows libc fold conf req w =
    (w' : World) × (tcm_handle_tree_connect libc fold conf req w
      ≡ some ((tree_policy libc fold conf req w).0, (tree_policy libc fold conf req w).1, w'))

abbrev malformed : TreeRequest → Bool
malformed req = not (terminated req.share && (terminated req.account && terminated req.peer_addr))

module _ (libc : Libc) (fold : List ℕ → List ℕ) (conf : TreeConf) (req : TreeRequest)
    (w : World) where
  abbrev key : List ℕ
  key = fold (c_string req.share)
