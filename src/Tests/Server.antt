-- ===== src/Tests/Server.antt =====
-- A network whose first call fails, and the theorems on the client and the services at concrete
-- inputs.
use mathlib.Core.Option.{get_or}
use robustmq_geek.Prelude.{List, eq_bytes}
use robustmq_geek.Prelude.{
  ℕ, ◌+◌, ◌==◌, ◌≡◌, refl, false, none, some, [], ◌∷◌, Text, codes, Result, ok, err, done,
  if◌then◌else◌,
}
use robustmq_geek.Common.Errors.{Status, other_status}
use robustmq_geek.Protocol.Kv.{CommonReply}
use robustmq_geek.Protocol.Kv.{SetRequest, DeleteRequest, common_reply}
use robustmq_geek.Storage.Kv as KvStorage
use robustmq_geek.Storage.Kv.RoundTrip.{get_of_missing}
use robustmq_geek.Storage.Rocksdb.{cf_cluster}
use robustmq_geek.Storage.Kv.History.{setting, perform, latest}
use robustmq_geek.Raft.Node.{default_node}
use robustmq_geek.Raft.Metadata.{RaftGroupMetadata, starting}
use robustmq_geek.Raft.Metadata as Metadata
use robustmq_geek.Raft.Apply.{RaftTask}
use robustmq_geek.Raft.Proposal.{answered, elapsed, success}
use robustmq_geek.External.RawNode.{leader, StateRole}
use robustmq_geek.Clients.Pool.{Network, ClientPool}
use robustmq_geek.Clients.Calls.{ClientFormats, kv}
use robustmq_geek.Clients.Calls as Calls
use robustmq_geek.Clients.Retry.{
  retry_call, first_success, interface_call, retry_call-first_success,
}
use robustmq_geek.Server.Kv.{GrpcKvServices, ServiceFormats, set, delete, get}
use robustmq_geek.Server.Kv.Replies.{set-proposes, get-after_writes}
use robustmq_geek.Server.KvNew as KvNew
use robustmq_geek.Server.KvNew.{ClientWrite}
use robustmq_geek.Server.KvNew.Written.{
  Replicated, Change, of_set, of_delete, carry_out, seen, Ensures, Follows, carry_out-Follows,
}
use robustmq_geek.External.TreeMap.{Items}
use robustmq_geek.OpenRaft.Types.{AppRequestData, Entry, normal}
use robustmq_geek.OpenRaft.StateMachine.{apply_each, unapplied}
use robustmq_geek.OpenRaft.StateMachine.Proposed.{Holds, IsOf, HasRequest, Asks}
use robustmq_geek.Tests.Memory.{memory, memory-IsDatabase, find-nil}
use robustmq_geek.Tests.Coders.{
  Coder, number, list, via, proto, bincode, bincode-IsBincode, bad_data,
}
use robustmq_geek.Tests.Formats.{
  kv_formats, kv_formats-AreKvFormats, storage_data, set_request, delete_request, from_bool,
}

-- The world counts the calls, of which the first one fails.
instance abbrev pub network : Network
network = record {
  World = ℕ;
  kv_connection = λ addr w. done (ok tt) w;
  openraft_connection = λ addr w. done (ok tt) w;
  set = λ c r w. done (if w == 0 then err (other_status bad_data) else ok common_reply) (w + 1);
  get = λ c r w. done (ok (record { value = [] })) w;
  delete = λ c r w. done (ok common_reply) w;
  exists = λ c r w. done (ok (record { flag = false })) w;
  vote = λ c r w. done (ok (record { value = [] })) w;
  append = λ c r w. done (ok (record { value = [] })) w;
  snapshot = λ c r w. done (ok (record { value = [] })) w;
}

abbrev text : Coder Text
text = list number

instance abbrev pub client_formats : ClientFormats
client_formats = record {
  set_request = proto set_request;
  get_request = proto (via (λ r. r.key) (λ k. record { key = k }) (λ r. refl) text);
  delete_request = proto delete_request;
  exists_request = proto (via (λ r. r.key) (λ k. record { key = k }) (λ r. refl) text);
  common_reply = record { encode_to_vec = λ r. []; decode = λ bytes. ok common_reply };
  get_reply = proto (via (λ r. r.value) (λ v. record { value = v }) (λ r. refl) text);
  exists_reply = record {
    encode_to_vec = λ r. from_bool r.flag ∷ [];
    decode = λ bytes. err bad_data;
  };
  vote_request = proto (via (λ r. r.value) (λ v. record { value = v }) (λ r. refl) text);
  vote_reply = proto (via (λ r. r.value) (λ v. record { value = v }) (λ r. refl) text);
  append_request = proto (via (λ r. r.value) (λ v. record { value = v }) (λ r. refl) text);
  append_reply = proto (via (λ r. r.value) (λ v. record { value = v }) (λ r. refl) text);
  snapshot_request = proto (via (λ r. r.value) (λ v. record { value = v }) (λ r. refl) text);
  snapshot_reply = proto (via (λ r. r.value) (λ v. record { value = v }) (λ r. refl) text);
}

instance abbrev pub service_formats : ServiceFormats
service_formats = record {
  bincode_storage_data = bincode storage_data;
  show_status = λ s. codes "s";
}

-- A raft task that counts the messages and leaves the second one without an answer in time.
instance abbrev pub task : RaftTask
task = record {
  Message = ℕ;
  World = ℕ;
  exchange = λ m w. done (if w == 0 then answered success else elapsed) (w + 1);
}

abbrev pools : ClientPool ℕ
pools = record { kv_service_pools = []; openraft_service_pools = []; network = 0 }

abbrev pub pair_request : SetRequest
pair_request = record { key = codes "a"; value = codes "1" }

abbrev first_addr : Text
first_addr = codes "h:1"

retry_call-first_success_example :
    retry_call kv Calls.set
      (first_addr ∷ codes "h:2" ∷ [])
      (set_request.encode pair_request [])
      pools
    ≡ first_success
        (λ a. interface_call kv Calls.set a (set_request.encode pair_request []))
        (codes "h:2")
        (first_addr ∷ codes "h:2" ∷ first_addr ∷ [])
        pools
retry_call-first_success_example =
    retry_call-first_success kv Calls.set first_addr (codes "h:2" ∷ [])
      (set_request.encode pair_request []) pools

abbrev group : StateRole → RaftGroupMetadata
group role = record {
  local = default_node;
  leader = some (record default_node { node_inner_addr = first_addr });
  raft_role = role;
  state = starting;
  peers = [];
}

abbrev services : StateRole → GrpcKvServices network.World task.World memory.Db
services role = record {
  client_poll = pools;
  placement_center_storage = 0;
  rocksdb_engine_handler = [];
  placement_cluster = group role;
}

abbrev pub key_request : DeleteRequest
key_request = record { key = codes "a" }

set-proposes_example :
    (set pair_request (services leader)
      ≡ done (some (ok common_reply)) (record (services leader) { placement_center_storage = 1 }))
    × (delete key_request (services leader)
        ≡ done (some (ok common_reply)) (record (services leader) { placement_center_storage = 1 }))
unfolding Metadata.is_leader
set-proposes_example =
    set-proposes (bincode-IsBincode storage_data) pair_request key_request (services leader)
      (answered success) (answered success) 1 1 refl refl refl refl refl

abbrev after : GrpcKvServices network.World task.World memory.Db
after = record (services leader) {
  rocksdb_engine_handler = perform (setting (codes "a") (codes "1") 7 ∷ []) [];
}

get-after_writes_example :
    get (record { key = codes "a" }) after
    ≡ done
        (ok (record {
          value = get_or (latest (codes "a") (setting (codes "a") (codes "1") 7 ∷ []) none) [];
        }))
        after
get-after_writes_example =
    get-after_writes (setting (codes "a") (codes "1") 7 ∷ []) (record { key = codes "a" })
      (services leader) none refl before refl
  where
    before : KvStorage.get (codes "a") [] ≡ ok none
    before = get_of_missing [] (codes "a") refl (find-nil cf_cluster (codes "a"))

-- An openraft node of its own, which applies every write at once.
abbrev holding : AppRequestData → Entry
holding req = record {
  log_id = record { leader_id = record { term = 1; node_id = 1 }; index = 1 };
  payload = normal req;
}

instance abbrev writer : ClientWrite
writer = record {
  World = Items;
  client_write = λ req w. done (ok tt) (apply_each (holding req ∷ []) (unapplied, w)).1.1;
}

abbrev writer_Replicated : Replicated writer
unfolding Holds IsOf HasRequest Ensures Asks
writer_Replicated = record {
  machine = λ w. unapplied;
  kvs = λ w. w;
  client_write-ends = λ req w. (
    ok tt,
    (apply_each (holding req ∷ []) (unapplied, w)).1.1,
    holding req ∷ [],
    refl,
    (refl, tt),
    tt,
    refl,
  );
}

abbrev node : KvNew.Services Items memory.Db
node = record { raft_node = []; rocksdb_engine_handler = [] }

abbrev changes : List Change
changes = of_set pair_request ∷ of_delete (record { key = codes "a" }) ∷ []

carry_out-Follows_example :
    (replies : List (Result Status CommonReply)) × (w' : Items) × (carry_out changes node
      ≡ done replies (record node { raft_node = w' }))
    × ((j : Text)
        → eq_bytes j (codes "k1") ≡ false
        → seen writer_Replicated j w' ≡ seen writer_Replicated j [])
    × Follows changes replies
        (seen writer_Replicated (codes "k1") [])
        (seen writer_Replicated (codes "k1") w')
carry_out-Follows_example = carry_out-Follows writer_Replicated changes node
