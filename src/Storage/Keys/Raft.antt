-- ===== src/Storage/Keys/Raft.antt =====
-- The seven kinds of keys that the raft storage uses, and how their names compare.
use robustmq_geek.Prelude.{ℕ, ◌≡◌, ◌↔◌, refl, Bool, true, false, arith, Text}
use robustmq_geek.Prelude.{is_utf8, is_utf8_ascii, decimal, decimal-AllAscii}
use robustmq_geek.Prelude.{eq_bytes, eq_bytes-decimal, eq_bytes_iff, ◌==◌}
use robustmq_geek.Storage.Keys.{
  key_name_by_first_index, key_name_by_last_index, key_name_by_hard_state, key_name_by_conf_state,
  key_name_by_entry, key_name_uncommit, key_name_snapshot,
}

pub data RaftKey : Type 0 where
  first_index last_index hard_state conf_state uncommit snapshot : RaftKey
  entry : ℕ → RaftKey

unfoldable pub name : RaftKey → Text
name first_index = key_name_by_first_index
name last_index = key_name_by_last_index
name hard_state = key_name_by_hard_state
name conf_state = key_name_by_conf_state
name uncommit = key_name_uncommit
name snapshot = key_name_snapshot
name (entry idx) = key_name_by_entry idx

abbrev pub same : RaftKey → RaftKey → Bool
same first_index first_index = true
same last_index last_index = true
same hard_state hard_state = true
same conf_state conf_state = true
same uncommit uncommit = true
same snapshot snapshot = true
same (entry i) (entry j) = i == j
same _ _ = false

pub same_iff : (j k : RaftKey) → (same j k ≡ true) ↔ (j ≡ k)
same_iff first_index k = ground arith
same_iff last_index k = ground arith
same_iff hard_state k = ground arith
same_iff conf_state k = ground arith
same_iff uncommit k = ground arith
same_iff snapshot k = ground arith
same_iff (entry i) k = ground arith

-- Two names are the same text exactly when the keys are the same.
pub eq_bytes-name : (j k : RaftKey) → eq_bytes (name j) (name k) ≡ same j k
unfolding name eq_bytes key_name_by_first_index key_name_by_last_index key_name_by_hard_state
    key_name_by_conf_state key_name_by_entry key_name_uncommit key_name_snapshot
eq_bytes-name first_index first_index = refl
eq_bytes-name first_index _ = refl
eq_bytes-name last_index last_index = refl
eq_bytes-name last_index _ = refl
eq_bytes-name hard_state hard_state = refl
eq_bytes-name hard_state _ = refl
eq_bytes-name conf_state conf_state = refl
eq_bytes-name conf_state _ = refl
eq_bytes-name uncommit uncommit = refl
eq_bytes-name uncommit _ = refl
eq_bytes-name snapshot snapshot = refl
eq_bytes-name snapshot _ = refl
eq_bytes-name (entry i) (entry j) = eq_bytes-decimal i j
eq_bytes-name (entry i) _ = refl

-- The names of two raft keys are equal only if the keys are: no two entries, and no entry and
-- other record, share a place in the database.
pub name-injective : (j k : RaftKey) → name j ≡ name k → j ≡ k
name-injective j k p =
    (same_iff j k).0 (rw (← eq_bytes-name j k) ((eq_bytes_iff (name j) (name k)).1 p))

pub is_utf8-name : (k : RaftKey) → is_utf8 (name k) ≡ true
unfolding name is_utf8 key_name_by_first_index key_name_by_last_index key_name_by_hard_state
    key_name_by_conf_state key_name_by_entry key_name_uncommit key_name_snapshot
is_utf8-name first_index = refl
is_utf8-name last_index = refl
is_utf8-name hard_state = refl
is_utf8-name conf_state = refl
is_utf8-name uncommit = refl
is_utf8-name snapshot = refl
is_utf8-name (entry i) = is_utf8_ascii (decimal i) (decimal-AllAscii i)
