-- ===== src/Lib.antt =====
-- The placement center of RobustMQ: the metadata service of the message queue, a replicated
-- key-value store over RocksDB. A write reaches a node as a gRPC request; a follower forwards it
-- through the placement client, and a leader proposes it to the raft machine, which has the node of
-- the `raft` crate put it in the log, stores the log through the raft log storage, routes committed
-- entries to the key-value store and answers the waiting request. A second key-value service stands
-- over the `openraft` crate, whose nodes call each other through the same client, and a state
-- machine of its own, which an HTTP server reads.
--
-- Which file models which part (paths from the repository's root):
--   Storage.Keys        src/placement-center/src/storage/keys.rs: the names of all database keys,
--                       function by function; Keys.Raft names the kinds of raft keys.
--   Storage.Rocksdb     storage/rocksdb.rs: `RocksDBEngine`, an engine being its database;
--                       Rocksdb.Open has `new` and the options.
--   Storage.Engine      storage/engine.rs and `StorageDataWrap` of storage/mod.rs.
--   Storage.Kv          storage/kv.rs: `KvStorage`.
--   Storage.Raft        storage/raft.rs: `RaftMachineStorage`, with Raft.Log (`append`,
--                       `commmit_index`, `entrys`) and Raft.Snapshots (`create_snapshot`,
--                       `snapshot`, `apply_snapshot`, `write_all`, `new` as `load` on `fresh`).
--                       Raft.View is the abstract specification: a record of optional values and
--                       a map of entries that a database represents; Raft.Access, Append,
--                       ReadBack, Commit, Compaction and Restore prove the methods against it;
--                       Contents says what a snapshot's data hold, Merge what they make of a
--                       database that they are laid over.
--   Raft.RocksdbStorage raft/storage.rs: `RaftRocksDBStorage`, which the `raft` crate reads by.
--   Raft.Proposal       raft/apply.rs: the data of a proposal and the wait for its answer; Raft.Apply
--                       has the methods that send a message to the machine.
--   Raft.Route          raft/route.rs: `DataRoute`, from committed data to the key-value store.
--   Raft.Node, Raft.Metadata
--                       raft/node.rs and raft/metadata.rs: `BrokerNode` and `RaftGroupMetadata`;
--                       Metadata.Start reads the configuration (`new`).
--   Raft.Machine        raft/machine.rs: `RaftMachine`. Committed has `handle_committed_entries`,
--                       Persist `on_ready`, Loop `run`, `new` and `new_node`. A turn of the loop is
--                       what the channels and the clock gave it, and a run is a list of turns. The
--                       senders that were answered or dropped and the messages that were sent are
--                       kept in lists of the state. Waiting and Accounts follow the one-shot senders
--                       through every call; Entries is about committed entries.
--   Raft.Peers          raft/peer.rs: `PeersManager`; Peers.Sent says which messages are sent.
--   Protocol            src/protocol/src/kv.rs and openraft.rs: the messages of the services.
--   Clients             src/clients/src: Pool the connection pools (poll.rs), Calls the calls of the
--                       services, Retry `retry_call`, Placement the functions that the services use,
--                       Manager how a connection is made.
--   Server              server/grpc: Kv, KvNew, Raft and OpenRaft for services_kv.rs,
--                       services_kv_new.rs, services_raft.rs and services_openraft.rs;
--                       KvNew.Written sets the changes of clients against the replicated map.
--   OpenRaft.StateMachine
--                       openraft/store/state_machine_store.rs: `StateMachineStore`;
--                       OpenRaft.Types has its data. `Shared` is what clones share through an `Arc`.
--                       Applied gives an account of a log apart from the code, Proposed one of
--                       entries with one request, Restored is about snapshots.
--   OpenRaft.Keys, OpenRaft.LogStore
--                       openraft/store/mod.rs (`id_to_bin`, `bin_to_id`) and log_store.rs: `LogStore`.
--                       LogStore.View is its abstract specification, a map of entries with the
--                       saved ids and the vote; Append, Range with Ordered, Saved, Removal
--                       and State prove against it.
--   OpenRaft.Node, OpenRaft.Nodes
--                       openraft/raft_node.rs: `Node`, the nodes of the configuration and
--                       `start_openraft_node`.
--   OpenRaft.Network    openraft/network and openraft/error.rs: `NetworkConnection`; Network.Remote
--                       sets its calls against the handlers of the other end.
--   Server.Http         server/http and src/common/base/src/http_response.rs: the handlers, their
--                       replies, the paths and the table of routes; Http.Replies has what a client
--                       reads.
--   Start               lib.rs: `start_server`, with `create_raft_node` of openraft/raft_node.rs and
--                       `new_storage` of openraft/store/mod.rs. Start.Idle follows a started
--                       server through requests.
--   Common.Errors, Common.Tools, Common.Config, Common.Log
--                       src/common/base/src: errors.rs, tools.rs, config/placement_center.rs and
--                       log/placement_center.rs.
--   External            the interfaces of the crates `rocksdb`, `serde_json`, `prost`, `bincode`,
--                       `raft`, `toml` and `openraft`: the calls as parameters, their documented
--                       behaviour as laws.
--   Prelude             byte strings, decimal numerals, dictionaries, results and actions, and
--                       rules for what holds at the end of a run.
--   Tests               a database in memory and formats that meet the laws, and the theorems at
--                       concrete inputs over them.
--
-- How code becomes definitions. A method that writes is an action on a state: it returns a value
-- and a new state, or panics with what it had written by then. A `String` and a `Vec<u8>` are lists
-- of bytes. `u64` is a natural number, and `x + 1` wraps at 2^64 as in a release build. A `HashMap`
-- is the list of its entries in iteration order. A lock that a method holds for its whole body is
-- the atomicity of one action. The clock, the database and the formats are arguments. The laws of a
-- database are those of one that meets no I/O error; the definitions have the error branches.
-- The fuel of `read_prefix` counts the rounds of its loop, and `none` is a loop still running.
-- `retry_call` has fuel for four rounds, after which its loop has ended in every case. The network
-- and the task of the machine are worlds that the calls of a service change.
--
-- Not modelled: the serving of requests and the run of tasks, which are axum, tonic and tokio; the
-- generated clients and servers of the protocol; the pools of connections, which are those of mobc;
-- the pauses between attempts; the command line; and what the program prints and logs.
pub mod Prelude
pub mod Common
pub mod External
pub mod Storage
pub mod Protocol
pub mod Raft
pub mod OpenRaft
pub mod Clients
pub mod Server
pub mod Start
pub mod Tests
