-- ===== src/Tests/Formats.antt =====
-- Concrete formats for the storage and the route, with the documented behaviour.
use robustmq_geek.Prelude.{
  ap, ltb, ℕ, ◌≡◌, ◌<◌, refl, Bool, true, false, List, [], ◌∷◌, Bytes, Result, err, ◌==◌,
  if◌then◌else◌, arith,
}
use robustmq_geek.Common.Errors.{Fault}
use robustmq_geek.External.Raft.{
  HardState, ConfState, Entry, EntryType, entry_normal, entry_conf_change, entry_conf_change_v2,
  Snapshot,
}
use robustmq_geek.Storage.Engine.{StorageDataWrap}
use robustmq_geek.Storage.Kv.{KvFormats, AreKvFormats}
use robustmq_geek.Storage.Raft.{RaftFormats}
use robustmq_geek.Storage.Raft.View.{AreRaftFormats}
use robustmq_geek.Raft.Proposal.{StorageData, StorageDataType, kv_set, kv_delete}
use robustmq_geek.Protocol.Kv.{SetRequest, DeleteRequest}
use robustmq_geek.Raft.Route.{variant_index, RouteFormats, FirstBytes}
use robustmq_geek.Tests.Coders.{
  Coder, number, pair, list, via, json, json-IsJson, proto, proto-IsProto, bincode,
  bincode-IsBincode, bad_data, unpack,
}

abbrev numbers : Coder (List ℕ)
numbers = list number

abbrev wrap : Coder StorageDataWrap
wrap =
    via (λ w. (w.bytes, w.create_time)) (λ (b, t). record { bytes = b; create_time = t })
      (λ w. refl) (pair numbers number)

abbrev hard : Coder HardState
hard =
    via (λ h. (h.term, (h.vote, h.commit)))
      (λ p. record { term = p.0; vote = p.1.0; commit = p.1.1 }) (λ h. refl)
      (pair number (pair number number))

abbrev pub from_bool : Bool → ℕ
from_bool true = 1
from_bool false = 0

abbrev pub to_bool : ℕ → Bool
to_bool n = n == 1

pub to_bool-from_bool : (b : Bool) → to_bool (from_bool b) ≡ b
to_bool-from_bool true = refl
to_bool-from_bool false = refl

abbrev flag : Coder Bool
flag = via from_bool to_bool to_bool-from_bool number

abbrev conf : Coder ConfState
conf =
    via (λ c. (c.voters, (c.learners, (c.voters_outgoing, (c.learners_next, c.auto_leave)))))
      (λ p. record {
        voters = p.0;
        learners = p.1.0;
        voters_outgoing = p.1.1.0;
        learners_next = p.1.1.1.0;
        auto_leave = p.1.1.1.1;
      })
      (λ c. refl) (pair numbers (pair numbers (pair numbers (pair numbers flag))))

abbrev from_kind : EntryType → ℕ
from_kind entry_normal = 0
from_kind entry_conf_change = 1
from_kind entry_conf_change_v2 = 2

abbrev to_kind : ℕ → EntryType
to_kind n =
    if n == 0 then entry_normal else if n == 1 then entry_conf_change else entry_conf_change_v2

pub to_kind-from_kind : (t : EntryType) → to_kind (from_kind t) ≡ t
to_kind-from_kind entry_normal = refl
to_kind-from_kind entry_conf_change = refl
to_kind-from_kind entry_conf_change_v2 = refl

abbrev entry : Coder Entry
entry =
    via (λ e. (e.entry_type, (e.term, (e.index, (e.bytes, e.context)))))
      (λ p. record {
        entry_type = p.0;
        term = p.1.0;
        index = p.1.1.0;
        bytes = p.1.1.1.0;
        context = p.1.1.1.1;
      })
      (λ e. refl)
      (pair (via from_kind to_kind to_kind-from_kind number)
        (pair number (pair number (pair numbers numbers))))

abbrev snapshot : Coder Snapshot
snapshot =
    via (λ s. (s.bytes, (s.metadata.conf_state, (s.metadata.index, s.metadata.term))))
      (λ p. record {
        bytes = p.0;
        metadata = record { conf_state = p.1.0; index = p.1.1.0; term = p.1.1.1 };
      })
      (λ s. refl) (pair numbers (pair conf (pair number number)))

instance abbrev pub kv_formats : KvFormats
kv_formats = record { json_string = json numbers; json_wrap = json wrap }

instance abbrev pub kv_formats-AreKvFormats : AreKvFormats kv_formats
kv_formats-AreKvFormats = record { string = json-IsJson numbers; wrap = json-IsJson wrap }

instance abbrev pub raft_formats : RaftFormats
raft_formats = record {
  json_bytes = json numbers;
  json_u64 = json number;
  proto_hard_state = proto hard;
  proto_conf_state = proto conf;
  proto_entry = proto entry;
  proto_snapshot = proto snapshot;
  bincode_uncommit = bincode (list (pair number number));
  bincode_all = bincode (list (pair numbers (list (list (pair numbers numbers)))));
}

instance abbrev pub raft_formats-AreRaftFormats : AreRaftFormats raft_formats
raft_formats-AreRaftFormats = record {
  bytes = json-IsJson numbers;
  u64 = json-IsJson number;
  hard = proto-IsProto hard;
  conf = proto-IsProto conf;
  entry = proto-IsProto entry;
  snapshot = proto-IsProto snapshot;
  uncommit = bincode-IsBincode (list (pair number number));
  all = bincode-IsBincode (list (pair numbers (list (list (pair numbers numbers)))));
}

abbrev to_type : ℕ → StorageDataType
to_type n = if n == 0 then kv_set else kv_delete

pub to_type-variant_index : (t : StorageDataType) → to_type (variant_index t) ≡ t
to_type-variant_index kv_set = refl
to_type-variant_index kv_delete = refl

pub storage_data_back :
    (sd : StorageData)
    → ◌≡◌ {A = StorageData}
        (record { data_type = to_type (variant_index sd.data_type); value = sd.value })
        sd
storage_data_back sd =
    ap (λ t. record { data_type = t; value = sd.value }) (to_type-variant_index sd.data_type)

abbrev pub storage_data : Coder StorageData
storage_data =
    via (λ sd. (variant_index sd.data_type, sd.value))
      (λ (t, v). record { data_type = to_type t; value = v }) storage_data_back
      (pair number numbers)

-- A message whose bytes begin with the tag of field 1, and whose decoder refuses field number 0.
abbrev tagged : {A : Type 0} → Coder A → Bytes → Result Fault A
tagged a [] = err bad_data
tagged a (b ∷ bytes) = if ltb b 8 then err bad_data else unpack a bytes

pub tagged-refuses :
    {A : Type 0} (a : Coder A) (b : ℕ) (bytes : Bytes) → b < 8 → tagged a (b ∷ bytes) ≡ err bad_data
tagged-refuses a b bytes h = ground arith

abbrev pub set_request : Coder SetRequest
set_request =
    via (λ r. (r.key, r.value)) (λ (k, v). record { key = k; value = v }) (λ r. refl)
      (pair numbers numbers)

abbrev pub delete_request : Coder DeleteRequest
delete_request = via (λ r. r.key) (λ k. record { key = k }) (λ r. refl) numbers

instance abbrev pub route_formats : RouteFormats
route_formats = record {
  bincode_storage_data = bincode storage_data;
  proto_set = record {
    encode_to_vec = λ r. 10 ∷ set_request.encode r [];
    decode = tagged set_request;
  };
  proto_delete = record {
    encode_to_vec = λ r. 10 ∷ delete_request.encode r [];
    decode = tagged delete_request;
  };
}

abbrev pub route_formats-FirstBytes : FirstBytes route_formats
route_formats-FirstBytes = record {
  bincode = bincode-IsBincode storage_data;
  variant = λ sd. (_, refl);
  set_tag = λ b bytes h. (bad_data, tagged-refuses set_request b bytes h);
  delete_tag = λ b bytes h. (bad_data, tagged-refuses delete_request b bytes h);
}
