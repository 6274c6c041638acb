-- ===== src/OpenRaft/Types.antt =====
-- The data of the openraft state machine: the requests and replies of
-- placement-center/src/openraft/route/mod.rs, `StoredSnapshot` of openraft/store/mod.rs and the
-- fields of `StateMachineStore`. An `EntryPayload` and an `Entry` are those of the crate.
use robustmq_geek.Prelude.{ℕ, Option, Bytes, Text}
use robustmq_geek.External.Formats.{Json}
use robustmq_geek.External.TreeMap.{Items}
use robustmq_geek.External.OpenRaft.{LeaderId, LogId, Membership, StoredMembership, SnapshotMeta}

pub data AppRequestData : Type 0 where
  set : Text → Text → AppRequestData
  delete : Text → AppRequestData

pub record AppResponseData : Type 0 where
  pub value : Option Text

pub data EntryPayload : Type 0 where
  blank : EntryPayload
  normal : AppRequestData → EntryPayload
  membership : Membership → EntryPayload

pub record Entry : Type 0 where
  pub log_id : LogId
  pub payload : EntryPayload

pub record StoredSnapshot : Type 0 where
  pub meta : SnapshotMeta
  pub bytes : Bytes

-- The fields that a clone of the store copies. Its map and its database are behind an `Arc`, and
-- stand in `Shared`.
pub record StateMachineStore : Type 0 where
  pub last_applied_log_id : Option LogId
  pub last_membership : StoredMembership
  pub snapshot_idx : ℕ

pub record SnapshotFormats : Type 0 where
  pub json_kvs : Json Items
  pub json_snapshot : Json StoredSnapshot
  pub show_leader_id : LeaderId → Text

pub record Shared (Db : Type 0) : Type 0 where
  pub kvs : Items
  pub db : Db
