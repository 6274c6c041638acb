-- ===== src/Tests/LogStore.antt =====
-- Formats of the log store, and its theorems at concrete inputs.
use robustmq_geek.Prelude.{
  ℕ, ◌==◌, ◌^◌, ◌-◌, ◌<◌, ◌≡◌, ◌⊎◌, refl, ap, Option, none, some, List, [], ◌∷◌, Text, Bytes, codes,
  ok, eq_bytes, ◌&&◌, done, arith, if◌then◌else◌,
}
use robustmq_geek.External.OpenRaft.{LogId, LogState, Membership, Vote}
use robustmq_geek.OpenRaft.Types.{Entry, EntryPayload, blank, normal, membership, set, delete}
use robustmq_geek.Tests.Memory.{Call, find, find-nil, memory, memory-IsDatabase}
use robustmq_geek.Tests.Coders.{Coder, number, pair, via, json, json-IsJson, bad_data}
use robustmq_geek.OpenRaft.LogStore.Ordered.{entry_at, IsOrdered}
use robustmq_geek.OpenRaft.LogStore.Range.{try_get_log_entries_lem}
use robustmq_geek.Tests.Coders.Optional.{present, option, written-some, parse-none}
use robustmq_geek.OpenRaft.Keys.{id_to_bin}
use robustmq_geek.OpenRaft.LogStore.{
  LogFormats, store, logs, parsed, append, truncate, purge, get_log_state, try_get_log_entries,
  included, excluded, contains, save_vote, read_vote, save_committed, read_committed,
}
use robustmq_geek.OpenRaft.LogStore.View.{AreLogFormats, LogView, Represents}
use robustmq_geek.OpenRaft.LogStore.Append.{with_entries, append_lem}
use robustmq_geek.OpenRaft.LogStore.Saved.{save-read}
use robustmq_geek.OpenRaft.LogStore.Removal.{without, truncate-purge}
use robustmq_geek.OpenRaft.LogStore.State.{IsLast, get_log_state_lem}
use robustmq_geek.Tests.Formats.{from_bool, to_bool, to_bool-from_bool}
use robustmq_geek.Tests.OpenRaft.{
  wal, wal-IsWal, at, log_id_coder, membership_coder, numbers, nodes,
}
use robustmq_geek.Tests.Memory.Iterators.{ranges, ranges-AreRanges}

abbrev vote_coder : Coder Vote
vote_coder =
    via (λ v. (v.leader_id.term, (v.leader_id.node_id, from_bool v.committed)))
      (λ p. record {
        leader_id = record { term = p.0; node_id = p.1.0 };
        committed = to_bool p.1.1;
      })
      (λ v.
        ap (λ c. record { leader_id = v.leader_id; committed = c }) (to_bool-from_bool v.committed))
      (pair number (pair number number))

-- The kind of a payload, with the key, the value and the membership that it has.
abbrev from_payload : EntryPayload → ℕ × (Text × (Text × Membership))
from_payload blank = (0, ([], ([], nodes)))
from_payload (normal (set k v)) = (1, (k, (v, nodes)))
from_payload (normal (delete k)) = (2, (k, ([], nodes)))
from_payload (membership m) = (3, ([], ([], m)))

abbrev to_payload : ℕ × (Text × (Text × Membership)) → EntryPayload
to_payload (n, (k, (v, m))) =
    if n == 0
    then blank
    else if n == 1
    then normal (set k v)
    else if n == 2
    then normal (delete k)
    else membership m

to_payload-from_payload : (p : EntryPayload) → to_payload (from_payload p) ≡ p
to_payload-from_payload blank = refl
to_payload-from_payload (normal (set k v)) = refl
to_payload-from_payload (normal (delete k)) = refl
to_payload-from_payload (membership m) = refl

abbrev entry_coder : Coder Entry
entry_coder =
    via (λ e. (e.log_id, from_payload e.payload))
      (λ p. record { log_id = p.0; payload = to_payload p.1 })
      (λ e. ap (λ x. record { log_id = e.log_id; payload = x }) (to_payload-from_payload e.payload))
      (pair log_id_coder (pair number (pair numbers (pair numbers membership_coder))))

instance abbrev log_formats : LogFormats
log_formats = record {
  json_log_id = json (present log_id_coder);
  json_committed = json (option log_id_coder);
  json_vote = json vote_coder;
  json_entry = json entry_coder;
}

instance abbrev log_formats-AreLogFormats : AreLogFormats log_formats
log_formats-AreLogFormats = record {
  log_id = json-IsJson (present log_id_coder);
  committed = json-IsJson (option log_id_coder);
  vote = json-IsJson vote_coder;
  entry = json-IsJson entry_coder;
  committed-some = λ id. written-some log_id_coder id;
  committed-none = (bad_data, parse-none log_id_coder);
}

-- A database with nothing in it.
abbrev nothing : LogView
nothing = record { log = λ i. none; purged = none; committed = none; vote = none }

nothing-Represents : Represents [] nothing
nothing-Represents = record {
  fine = refl;
  found = λ i h. find-nil logs (id_to_bin i);
  keyed = λ k n. elim (n (find-nil logs k)) [ ];
  own = λ i e p. cc;
  purged = ap (parsed log_formats.json_log_id) (find-nil store (codes "last_purged_log_id"));
  committed = ap (parsed log_formats.json_log_id) (find-nil store (codes "committed"));
  vote = ap (parsed log_formats.json_vote) (find-nil store (codes "vote"));
}

abbrev two : List Entry
two =
    record { log_id = at 3; payload = normal (set (codes "a") (codes "1")) }
    ∷ record { log_id = at 4; payload = blank }
    ∷ []

append_lem_example :
    (d : List Call) × (append two 7 (record { db = []; completed = [] })
      ≡ done (ok tt) (record { db = d; completed = 7 ∷ [] }))
    × Represents d (record nothing { log = with_entries two nothing.log })
append_lem_example =
    append_lem two 7 (record { db = []; completed = [] }) nothing nothing-Represents
      (omega arith, (omega arith, tt))

abbrev stored :
    (d : List Call) × (append two 7 (record { db = []; completed = [] })
      ≡ done (ok tt) (record { db = d; completed = 7 ∷ [] }))
    × Represents d (record nothing { log = with_entries two nothing.log })
stored =
    append_lem two 7 (record { db = []; completed = [] }) nothing nothing-Represents
      (omega arith, (omega arith, tt))

abbrev filled : List Call
filled = stored.0

truncate-purge_example :
    ((d : List Call) × (truncate (at 4) filled ≡ done (ok tt) d)
      × Represents d
          (record nothing { log = without 4 (2 ^ 64 - 1) (with_entries two nothing.log) }))
    × ((d : List Call) × (purge (at 4) filled ≡ done (ok tt) d)
        × Represents d (record nothing {
          log = without 0 5 (with_entries two nothing.log);
          purged = some (at 4);
        }))
truncate-purge_example =
    truncate-purge (at 4) filled (record nothing { log = with_entries two nothing.log }) stored.2
      (omega arith)

get_log_state_lem_example :
    (state : LogState) × (get_log_state filled ≡ done (ok state) filled)
    × (state.last_purged_log_id ≡ none)
    × ((((i : ℕ) → i < 2 ^ 64 → with_entries two nothing.log i ≡ none) × (state.last_log_id ≡ none))
        ⊎ ((e : Entry) × IsLast (with_entries two nothing.log) e
            × (state.last_log_id ≡ some e.log_id)))
get_log_state_lem_example =
    get_log_state_lem filled (record nothing { log = with_entries two nothing.log }) stored.2

save-read_example :
    ((x : Vote)
      → (d : List Call) × (save_vote x filled ≡ done (ok tt) d)
        × (read_vote d ≡ done (ok (some x)) d)
        × (read_committed d ≡ done (ok none) d)
        × Represents d (record nothing { log = with_entries two nothing.log; vote = some x })
        × ((cf : Text) (k : Bytes)
            → find d cf k ≡ (
                if eq_bytes cf (codes "_raft_store") && eq_bytes k (codes "vote")
                then some (log_formats-AreLogFormats.vote.written x)
                else find filled cf k)))
    × ((c : Option LogId)
        → (d : List Call) × (save_committed c filled ≡ done (ok tt) d)
          × (read_committed d ≡ done (ok c) d)
          × (read_vote d ≡ done (ok none) d)
          × Represents d (record nothing { log = with_entries two nothing.log; committed = c })
          × ((cf : Text) (k : Bytes)
              → find d cf k ≡ (
                  if eq_bytes cf (codes "_raft_store") && eq_bytes k (codes "committed")
                  then some (log_formats-AreLogFormats.committed.written c)
                  else find filled cf k)))
save-read_example =
    save-read filled (record nothing { log = with_entries two nothing.log }) stored.2

try_get_log_entries_lem_example :
    (es : List Entry) × (try_get_log_entries (included 3, excluded 4) filled ≡ done (ok es) filled)
    × IsOrdered es
    × ((i : ℕ)
        → i < 2 ^ 64
        → entry_at i es
          ≡ (if contains (included 3, excluded 4) i then with_entries two nothing.log i else none))
try_get_log_entries_lem_example =
    try_get_log_entries_lem (included 3, excluded 4) filled
      (record nothing { log = with_entries two nothing.log }) stored.2 (omega arith)
