-- ===== src/OpenRaft/LogStore.antt =====
-- placement-center/src/openraft/store/log_store.rs: `LogStore`, by its database.
pub mod View
pub mod Append
pub mod Saved
pub mod Removal
pub mod State
pub mod Ordered
pub mod Range
use robustmq_geek.Prelude.{
  ℕ, ◌^◌, ◌-◌, ◌==◌, Bool, true, ◌&&◌, Option, none, some, List, [], ◌∷◌, Bytes, Text, codes,
  Result, ok, err, add_one, leb, ltb, Action, done, ◌>>=◌, ◌>>◌, pure, panic, within, gets, modify,
  unwrap, unwrap_some, question, map_err, ok_of, if◌then◌else◌,
}
use robustmq_geek.Common.Errors.{Fault}
use robustmq_geek.External.Rocksdb.{Rocksdb}
use robustmq_geek.External.Formats.{Json}
use robustmq_geek.External.OpenRaft.{
  LogId, Vote, LogState, StorageError, Wal, Ranges, ErrorSubject, ErrorVerb, store_subject,
  vote_subject, write_verb, read_error, write_error, write_vote, write_logs, new_error,
}
use robustmq_geek.OpenRaft.Types.{Entry}
use robustmq_geek.OpenRaft.Keys.{id_to_bin, bin_to_id}

pub record LogFormats : Type 0 where
  pub json_log_id : Json LogId
  pub json_committed : Json (Option LogId)
  pub json_vote : Json Vote
  pub json_entry : Json Entry

-- The column families, by their names.
abbrev pub store : Text
store = codes "_raft_store"

abbrev pub logs : Text
logs = codes "_raft_logs"

-- A database, and the callbacks that were told that their entries are written.
pub record LogStore (Db : Type 0) : Type 0 where
  pub db : Db
  pub completed : List ℕ

pub data Bound : Type 0 where
  included excluded : ℕ → Bound
  unbounded : Bound

-- `range.contains(id)`
abbrev pub above : Bound → ℕ → Bool
above (included x) id = leb x id
above (excluded x) id = ltb x id
above unbounded id = true

abbrev pub below : Bound → ℕ → Bool
below (included x) id = leb id x
below (excluded x) id = ltb id x
below unbounded id = true

abbrev pub contains : Bound × Bound → ℕ → Bool
contains (start, end) id = above start id && below end id

abbrev pub first_id : Bound → ℕ
first_id (included x) = x
first_id (excluded x) = add_one x
first_id unbounded = 0

-- A value that does not parse counts as none.
abbrev pub parsed : {A : Type 0} → Json A → Option Bytes → Option A
parsed json (some v) = ok_of (json.from_slice v)
parsed json none = none

module _ ⦃R : Rocksdb⦄ ⦃W : Wal R⦄ ⦃S : Ranges R⦄ ⦃F : LogFormats⦄ where
  unfoldable pub flush : ErrorSubject → ErrorVerb → Action R.Db (Result StorageError (Unit {0}))
  flush subject verb = gets (λ d. map_err (new_error subject verb) (W.flush_wal d))

  -- `put_cf`, with the error that a failure becomes.
  abbrev pub put :
      (Fault → StorageError) → Text → Bytes → Bytes → Action R.Db (Result StorageError (Unit {0}))
  put wrap cf key value d =
      let (result, d') = R.put_cf d cf key value in done (map_err wrap result) d'

  abbrev pub delete_range : Text → Bytes → Bytes → Action R.Db (Result StorageError (Unit {0}))
  delete_range cf from to d =
      let (result, d') = S.delete_range_cf d cf from to in done (map_err write_logs result) d'

  unfoldable pub get_last_purged_ : Action R.Db (Result StorageError (Option LogId))
  get_last_purged_ = do
    found ← gets (λ d. R.get_cf d store (codes "last_purged_log_id"))
    pure (elim found [ ok v ↦ ok (parsed F.json_log_id v) | err e ↦ err (read_error e) ])

  unfoldable pub set_last_purged_ : LogId → Action R.Db (Result StorageError (Unit {0}))
  unfolding flush
  set_last_purged_ log_id = do
    json ← unwrap (F.json_log_id.to_vec log_id)
    question (put write_error store (codes "last_purged_log_id") json)
        (λ _. flush store_subject write_verb)

  unfoldable pub set_committed_ : Option LogId → Action R.Db (Result StorageError (Unit {0}))
  unfolding flush
  set_committed_ committed = do
    json ← unwrap (F.json_committed.to_vec committed)
    question (put write_error store (codes "committed") json) (λ _. flush store_subject write_verb)

  unfoldable pub get_committed_ : Action R.Db (Result StorageError (Option LogId))
  get_committed_ = do
    found ← gets (λ d. R.get_cf d store (codes "committed"))
    pure (elim found [ ok v ↦ ok (parsed F.json_log_id v) | err e ↦ err (read_error e) ])

  unfoldable pub set_vote_ : Vote → Action R.Db (Result StorageError (Unit {0}))
  unfolding flush
  set_vote_ vote = do
    json ← unwrap (F.json_vote.to_vec vote)
    question (put write_vote store (codes "vote") json) (λ _. flush vote_subject write_verb)

  unfoldable pub get_vote_ : Action R.Db (Result StorageError (Option Vote))
  get_vote_ = do
    found ← gets (λ d. R.get_cf d store (codes "vote"))
    pure (elim found [ ok v ↦ ok (parsed F.json_vote v) | err e ↦ err (write_vote e) ])

  -- The items of the iterator, up to the first one whose id is out of the range. An entry that does
  -- not parse fails the assertion that it has the index of its key.
  unfoldable pub take_entries :
      Bound × Bound → List (Result Fault (Bytes × Bytes)) → Action R.Db (List Entry)
  take_entries range [] = pure []
  take_entries range (item ∷ items) = do
    key_value ← unwrap item
    id ← unwrap_some (bin_to_id key_value.0)
    entry ← unwrap (F.json_entry.from_slice key_value.1)
    let rest = do entries ← take_entries range items; pure (entry ∷ entries)
    if id == entry.log_id.index then (if contains range id then rest else pure []) else panic

  unfoldable pub try_get_log_entries :
      Bound × Bound → Action R.Db (Result StorageError (List Entry))
  unfolding take_entries
  try_get_log_entries range = do
    items ← gets (λ d. S.iterator_from d logs (id_to_bin (first_id range.0)))
    entries ← take_entries range items
    pure (ok entries)

  abbrev pub read_vote : Action R.Db (Result StorageError (Option Vote))
  read_vote = get_vote_

  -- The log id of the last entry, if it parses.
  unfoldable pub last_entry : Option (Result Fault (Bytes × Bytes)) → Action R.Db (Option LogId)
  last_entry none = pure none
  last_entry (some item) = do
    key_value ← unwrap item
    pure
        (elim (F.json_entry.from_slice key_value.1) [ ok entry ↦ some entry.log_id | err e ↦ none ])

  abbrev pub log_state : Option LogId → Option LogId → LogState
  log_state none last_purged_log_id = record {
    last_purged_log_id = last_purged_log_id;
    last_log_id = last_purged_log_id;
  }
  log_state (some x) last_purged_log_id = record {
    last_purged_log_id = last_purged_log_id;
    last_log_id = some x;
  }

  unfoldable pub get_log_state : Action R.Db (Result StorageError LogState)
  unfolding last_entry
  get_log_state = do
    item ← gets (λ d. S.iterator_end d logs)
    last ← last_entry item
    question get_last_purged_ (λ last_purged. pure (ok (log_state last last_purged)))

  abbrev pub save_committed : Option LogId → Action R.Db (Result StorageError (Unit {0}))
  save_committed committed = set_committed_ committed

  abbrev pub read_committed : Action R.Db (Result StorageError (Option LogId))
  read_committed = get_committed_

  abbrev pub save_vote : Vote → Action R.Db (Result StorageError (Unit {0}))
  save_vote vote = set_vote_ vote

  -- One turn of the loop of `append`.
  unfoldable pub append_entry : Entry → Action R.Db (Result StorageError (Unit {0}))
  append_entry entry = do
    let id = id_to_bin entry.log_id.index
    back ← unwrap_some (bin_to_id id)
    let written =
        elim (F.json_entry.to_vec entry) as (λ _. Action R.Db (Result StorageError (Unit {0}))) [
          | ok json ↦ put write_logs logs id json
          | err e ↦ pure (err (write_logs e))
        ]
    if back == entry.log_id.index then written else panic

  unfoldable pub append_entries : List Entry → Action R.Db (Result StorageError (Unit {0}))
  unfolding append_entry
  append_entries [] = pure (ok tt)
  append_entries (entry ∷ entries) = question (append_entry entry) (λ _. append_entries entries)

  unfoldable pub append : List Entry → ℕ → Action (LogStore R.Db) (Result StorageError (Unit {0}))
  unfolding append_entries
  append entries callback =
      question (within (λ s. s.db) (λ d s. record s { db = d }) (append_entries entries))
        (λ _. do modify (λ s. record s { completed = callback ∷ s.completed }); pure (ok tt))

  unfoldable pub truncate : LogId → Action R.Db (Result StorageError (Unit {0}))
  truncate log_id = delete_range logs (id_to_bin log_id.index) (id_to_bin 0xffffffffffffffff)

  unfoldable pub purge : LogId → Action R.Db (Result StorageError (Unit {0}))
  unfolding set_last_purged_
  purge log_id =
      question (set_last_purged_ log_id)
        λ _. delete_range logs (id_to_bin 0) (id_to_bin (add_one log_id.index))
