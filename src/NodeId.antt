-- ===== src/NodeId.antt =====
-- src/nodeid.c: node ids, without their parser.
use robotraconteurlite.Prelude.{ℕ, Bool, true, List, take, replicate, bytes_eq, bytes_eq_iff, ◌≡◌}
use robotraconteurlite.Status.{Status, success}

-- `struct robotraconteurlite_nodeid` is a list of 16 bytes.
abbrev pub zero_nodeid : List ℕ
zero_nodeid = replicate 16 0

pub nodeid_equal : List ℕ → List ℕ → Bool
nodeid_equal a b = bytes_eq a b

unfoldable pub nodeid_isany : List ℕ → Bool
nodeid_isany a = bytes_eq a zero_nodeid

-- `robotraconteurlite_nodeid_reset` and `robotraconteurlite_nodeid_copy_to`.
unfoldable pub nodeid_reset : List ℕ → Status × List ℕ
nodeid_reset a = (success, zero_nodeid)

unfoldable pub nodeid_copy_to : List ℕ → List ℕ → Status × List ℕ
nodeid_copy_to src dst = (success, take 16 src)

-- Only the id of any node is one.
pub nodeid_isany_lem : (id : List ℕ) → nodeid_isany id ≡ true → id ≡ zero_nodeid
unfolding nodeid_isany
nodeid_isany_lem id h = (bytes_eq_iff id zero_nodeid).0 h
