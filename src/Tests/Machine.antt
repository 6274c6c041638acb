-- ===== src/Tests/Machine.antt =====
-- A node that does nothing, and the theorems on the raft machine at concrete inputs.
use robustmq_geek.Prelude.{
  ℕ, ◌+◌, ◌≡◌, refl, true, false, none, some, List, [], ◌∷◌, ◌++◌, Text, codes, ok, done, panicked,
  arith, decimal,
}
use robustmq_geek.Prelude.Dict.{insert, lookup}
use robustmq_geek.External.Raft.{Entry, default_snapshot, default_conf_state}
use robustmq_geek.External.RawNode.{
  RawNode, ConfChangeType, add_node, remove_node, add_learner_node, follower,
}
use robustmq_geek.External.Toml.{Toml, IsToml}
use robustmq_geek.Storage.Raft.{Storage}
use robustmq_geek.Storage.Raft.View.{Represents}
use robustmq_geek.Raft.Proposal.{new_storage_data, kv_set, answered, success}
use robustmq_geek.Raft.Node.{BrokerNode, default_node}
use robustmq_geek.Raft.Metadata.{RaftGroupMetadata, leader_addr, leader_alive, starting}
use robustmq_geek.Raft.Metadata.Start as Start
use robustmq_geek.Common.Config.{PlacementCenterConfig}
use robustmq_geek.Raft.Metadata.Start.{peer_of, peer_of-quotes}
use robustmq_geek.Raft.Machine.{Machine, MachineFormats, propose, transfer_leader}
use robustmq_geek.Raft.Machine.Waiting.{times_waiting, times_settled, IsDistinct}
use robustmq_geek.Raft.Machine.Committed.{handle_committed_entry, handle_committed_entries}
use robustmq_geek.Raft.Machine.Persist.{on_ready}
use robustmq_geek.Raft.Machine.Loop.{Turn, arrived, timed_out, goes_on, new, run, take_turn}
use robustmq_geek.Raft.Machine.Entries.{
  committed, commits, answering, handle_committed_entries-panics, handle_committed_entry_lem,
}
use robustmq_geek.Raft.Machine.Accounts.Received.{times_delivered}
use robustmq_geek.Raft.Machine.Accounts.Totals.{held-run, leader_addr-run}
use robustmq_geek.Tests.Memory.{memory, memory-IsDatabase}
use robustmq_geek.Tests.Coders.{Coder, number, pair, list, via, proto, bincode, bincode-IsBincode}
use robustmq_geek.Tests.Formats.{
  kv_formats, raft_formats, raft_formats-AreRaftFormats, route_formats, route_formats-FirstBytes,
}
use robustmq_geek.Tests.Storage.{start, one_entry, after_append, loaded, entry_at}

-- It takes every proposal and never has anything ready; the node itself counts the calls.
instance abbrev idle : RawNode Storage
idle = record {
  Node = ℕ;
  Message = ℕ;
  get_to = λ m. m;
  role = λ n. follower;
  new = λ c s. done (ok 0) s;
  propose = λ context bytes n s. done (ok tt, n + 1) s;
  propose_conf_change = λ context change n s. done (ok tt, n + 1) s;
  step = λ m n s. done (ok tt, n + 1) s;
  transfer_leader = λ id n s. done (tt, n + 1) s;
  tick = λ n s. done (true, n) s;
  has_ready = λ n s. done (false, n) s;
  ready = λ n s.
      done
        (
          record {
            messages = [];
            snapshot = default_snapshot;
            entries = [];
            committed_entries = [];
            hs = none;
            persisted_messages = [];
          },
          n,
        )
        s;
  advance =
      λ r n s. done (record { commit_index = none; messages = []; committed_entries = [] }, n) s;
  advance_apply = λ n s. done (tt, n) s;
  apply_conf_change = λ c n s. done (ok default_conf_state, n) s;
}

abbrev numbers : Coder (List ℕ)
numbers = list number

abbrev node_coder : Coder BrokerNode
node_coder =
    via
      (λ n. (
        n.cluster_name,
        (n.cluster_type, (n.node_id, (n.node_ip, (n.node_inner_addr, (n.extend, n.create_time))))),
      ))
      (λ p. record {
        cluster_name = p.0;
        cluster_type = p.1.0;
        node_id = p.1.1.0;
        node_ip = p.1.1.1.0;
        node_inner_addr = p.1.1.1.1.0;
        extend = p.1.1.1.1.1.0;
        create_time = p.1.1.1.1.1.1;
      })
      (λ n. refl)
      (pair numbers
        (pair numbers (pair number (pair numbers (pair numbers (pair numbers number))))))

abbrev from_kind : ConfChangeType → ℕ
from_kind add_node = 0
from_kind remove_node = 1
from_kind add_learner_node = 2

instance abbrev machine_formats : MachineFormats idle.Message
machine_formats = record {
  bincode_seq = bincode number;
  bincode_node = bincode node_coder;
  proto_message = proto number;
  proto_conf_change = record {
    encode_to_vec = λ c. from_kind c.change_type ∷ c.node_id ∷ c.context;
    decode = λ bytes. ok (record { change_type = remove_node; node_id = 1; context = bytes });
  };
}

-- Two nodes of a configuration.
instance abbrev toml : Toml
toml = record { Value = Text; as_str = λ v. some v; to_string = λ v. b'"' ∷ v ++ b'"' ∷ [] }

abbrev config : PlacementCenterConfig Text
config = record {
  cluster_name = codes "c";
  addr = codes "h";
  node_id = 1;
  grpc_port = 9;
  nodes = (codes "1", codes "h:9") ∷ [];
  http_port = 8;
  data_path = codes "d";
  log = record { log_config = codes "l"; log_path = codes "p" };
}

abbrev cluster : RaftGroupMetadata
cluster = record {
  local = record default_node {
    cluster_type = codes "PlacementCenter";
    cluster_name = codes "c";
    node_inner_addr = codes "h:9";
    node_ip = codes "h";
    node_id = 1;
  };
  leader = none;
  raft_role = follower;
  state = starting;
  peers =
      (
        1,
        record default_node {
          cluster_type = codes "PlacementCenter";
          cluster_name = codes "c";
          node_inner_addr = b'"' ∷ b'h' ∷ b':' ∷ b'9' ∷ b'"' ∷ [];
          node_ip = codes "h";
          node_id = 1;
        },
      )
      ∷ [];
}

new_test : Start.new config ≡ some cluster
unfolding Start.new Start.peer_of Start.split_once decimal insert
new_test = refl

-- Every text is plain for the values above.
abbrev Plain : Text → Type 0
Plain text = Unit {0}

toml-IsToml : IsToml toml Plain
toml-IsToml = record { to_string-as_str = λ v text e ok_text. ground arith }

abbrev quoted : BrokerNode
quoted = record default_node {
  cluster_type = codes "PlacementCenter";
  cluster_name = codes "c";
  node_inner_addr = b'"' ∷ b'h' ∷ b':' ∷ b'9' ∷ b'"' ∷ [];
  node_ip = codes "h";
  node_id = 1;
}

peer_of_test : peer_of config (codes "1", codes "h:9") ≡ some quoted
unfolding peer_of Start.split_once
peer_of_test = refl

abbrev turns : List (Turn ℕ)
turns =
    record {
      stop = none;
      received = arrived (propose (1 ∷ []) 7);
      heartbeat_passed = false;
      clock = λ e. 5;
    }
    ∷ record {
      stop = none;
      received = arrived (transfer_leader 2 8);
      heartbeat_passed = true;
      clock = λ e. 5;
    }
    ∷ record { stop = none; received = timed_out; heartbeat_passed = false; clock = λ e. 5 }
    ∷ []

abbrev first : Machine
first = record {
  placement_cluster = cluster;
  seqnum = 1;
  resp_channel = [];
  entry_num = 1;
  raft_storage = start;
  raft_node = 0;
  settled = [];
  spawned = [];
}

abbrev last : Machine
last = record first {
  seqnum = 2;
  resp_channel = (1, 7) ∷ [];
  raft_node = 2;
  settled = (8, answered success) ∷ [];
}

run_test : run turns (new cluster start 0) ≡ done goes_on last
unfolding run take_turn new on_ready insert
run_test = refl

held-run_example :
    ((j : ℕ)
      → times_waiting j last.resp_channel + times_settled j last.settled ≡ times_delivered j turns)
    × IsDistinct last.resp_channel
held-run_example = held-run turns cluster start 0 last refl (omega arith) run_test

leader_addr-run_example :
    (leader_addr last.placement_cluster ≡ []) × (leader_alive last.placement_cluster ≡ false)
leader_addr-run_example =
    leader_addr-run config cluster turns start 0 last new_test (omega arith) run_test

-- An entry with data of a proposal, and one without data.
abbrev proposal : Entry
proposal = record (entry_at 4 1) {
  bytes = route_formats-FirstBytes.bincode.packed (new_storage_data kv_set (10 ∷ 1 ∷ []));
}

handle_committed_entries-panics_example :
    handle_committed_entries (λ e. 5) (proposal ∷ []) last ≡ panicked last
handle_committed_entries-panics_example =
    handle_committed_entries-panics route_formats-FirstBytes (λ e. 5)
      (new_storage_data kv_set (10 ∷ 1 ∷ [])) proposal [] last refl refl

abbrev blank : Entry
blank = record (entry_at 4 1) { bytes = []; context = 1 ∷ [] }

abbrev waiting : ℕ → Machine
waiting entry_num = record last { raft_storage = after_append; entry_num = entry_num }

waits : lookup 1 last.resp_channel ≡ some 7
unfolding lookup
waits = refl

handle_committed_entry_lem_example :
    (db : memory.Db) × (handle_committed_entry (λ e. 5) blank (waiting 1)
      ≡ done tt (answering 1 7 (commits 1 db (waiting 1).raft_storage) (waiting 1)))
    × Represents db (committed 1 (entry_at 4 1) after_append one_entry)
handle_committed_entry_lem_example =
    handle_committed_entry_lem (bincode-IsBincode number) (λ e. 5) blank (entry_at 4 1) 1 7
      one_entry (waiting 1) loaded.1 refl refl refl waits refl
