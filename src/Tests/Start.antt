-- ===== src/Tests/Start.antt =====
-- A database that keeps the names of its families, and the start of a server, at concrete inputs.
use mathlib.Core.Path.{subst}
use robustmq_geek.Prelude.{
  ℕ, ◌+◌, ◌≡◌, ◌⊎◌, refl, ap, true, false, Bool, Option, none, some, List, [], ◌∷◌, ◌++◌, Text,
  codes, Result, ok, err, done, panicked, Run, if◌then◌else◌, eq_bytes, eq_bytes_iff,
}
use robustmq_geek.Common.Errors.{Fault}
use robustmq_geek.Common.Tools.{Files, read_file}
use robustmq_geek.Common.Config.{
  ConfigFields, ConfigFile, Process, completed, init_placement_center_conf_by_path,
  placement_center_conf,
}
use robustmq_geek.Common.Config.Once.{Says, init-once}
use robustmq_geek.External.Rocksdb.{Rocksdb}
use robustmq_geek.External.Opening.{Options, Opening, IsOpening, is_among}
use robustmq_geek.Storage.Rocksdb.{cf_cluster}
use robustmq_geek.Storage.Rocksdb.Open as RocksdbEngine
use robustmq_geek.Storage.Rocksdb.Open.{new-has_cluster}
use robustmq_geek.Raft.Peers.{PeerClients, PeerMessage, start}
use robustmq_geek.Raft.Peers.Sent.{
  Peers, succeeded, messages, before_failing, all_pass, start-before_failing,
}
use robustmq_geek.Tests.Coders.{bad_data}

instance abbrev pub named : Rocksdb
named = record {
  Db = List Text;
  put_cf = λ d cf k v. (ok tt, d);
  get_cf = λ d cf k. ok none;
  delete_cf = λ d cf k. (ok tt, d);
  key_may_exist_cf = λ d cf k. true;
  iterate = λ d cf from. [];
}

-- The disk counts the databases that were made.
instance abbrev pub opening : Opening named
opening = record {
  Disk = ℕ;
  exists = λ path disk. false;
  open_db = λ opts path disk. done (ok []) (disk + 1);
  list_cf = λ opts path disk. ok (codes "default" ∷ []);
  open_cf = λ opts path families disk. done (ok families) disk;
  create_cf = λ d name opts. (ok tt, name ∷ d);
}

opened-families :
    (opts : Options) (path : Text) (families : List Text) (disk disk' : ℕ) (db : List Text)
    (name : Text)
    → opening.open_cf opts path families disk ≡ done (ok db) disk'
    → is_among name families ≡ true
    → is_among name db ≡ true
opened-families opts path families disk disk' db name p there =
    subst (λ d. is_among name d ≡ true) (ap opened_in p) there
  where
    opened_in : Run ℕ (Result Fault (List Text)) → List Text
    opened_in (done (ok d) i) = d
    opened_in (done (err e) i) = []
    opened_in (panicked i) = []

abbrev opening-IsOpening : IsOpening opening
opening-IsOpening = record {
  has_family = is_among;
  open_cf-has_family = opened-families;
  create_cf-creates = λ db name opts p. rw ((eq_bytes_iff name name).1 refl) refl;
}

-- Files that hold one configuration at every path, which leaves out the ports of the service.
instance abbrev pub files : Files
files = record {
  World = ℕ;
  exists = λ path w. true;
  create_dir_all = λ path w. done (ok tt) w;
  read_to_string = λ path w. ok (codes "x");
}

abbrev fields : ConfigFields Text
fields = record {
  cluster_name = codes "c";
  addr = codes "h";
  node_id = none;
  grpc_port = none;
  nodes = (codes "1", codes "h:9") ∷ [];
  http_port = 8;
  data_path = codes "d";
  log = record { log_config = codes "l"; log_path = codes "p" };
}

instance abbrev config_file : ConfigFile Text
config_file = record { from_str = λ text. ok fields }

abbrev before : Process Text ℕ
before = record { conf = none; files = 0 }

abbrev pub after : Process Text ℕ
after = record { conf = some (completed fields); files = 0 }

init-once_example :
    ((none ≡ some (completed fields)) ⊎ Says (codes "a") 0 (completed fields))
    × (placement_center_conf after ≡ done (completed fields) after)
    × (init_placement_center_conf_by_path (codes "b") (record after { files = 7 })
        ≡ done (completed fields) (record after { files = 7 }))
unfolding init_placement_center_conf_by_path read_file
init-once_example = init-once (codes "a") (codes "b") before after 7 (completed fields) refl

new-has_cluster_example : is_among cf_cluster (cf_cluster ∷ codes "default" ∷ []) ≡ true
unfolding RocksdbEngine.new eq_bytes
new-has_cluster_example =
    new-has_cluster opening-IsOpening (completed fields) 0 1 (cf_cluster ∷ codes "default" ∷ [])
      refl

-- A peer at one address only.
instance abbrev clients : PeerClients
clients = record {
  World = List (Text × Text);
  connect = λ url w. done (if eq_bytes url (codes "http://h:1") then ok tt else err bad_data) w;
  send_raft_message = λ url bytes w. done (ok tt) (w ++ (url, bytes) ∷ []);
}

abbrev at_one : Peers clients
at_one = record {
  reached = λ url. eq_bytes url (codes "http://h:1");
  sent = λ w. w;
  connect-ends = λ url w. (_, w, refl, ends (eq_bytes url (codes "http://h:1")), refl);
  send-ends = λ url bytes w. (ok tt, _, refl, refl);
}
  where
    ends : (b : Bool) → succeeded {E = Fault} (if b then ok tt else err bad_data) ≡ b
    ends true = refl
    ends false = refl

abbrev to : Text → Text → PeerMessage
to addr text = record { to = addr; payload = text }

abbrev channel : List (Option PeerMessage)
channel =
    some (to (codes "h:1") (codes "a"))
    ∷ none
    ∷ some (to (codes "h:2") (codes "b"))
    ∷ some (to (codes "h:1") (codes "c"))
    ∷ []

start-before_failing_example :
    (w : List (Text × Text)) × (w ≡ (codes "http://h:1", codes "a") ∷ [])
    × (start channel [] ≡ panicked w)
unfolding eq_bytes messages before_failing all_pass
start-before_failing_example = start-before_failing at_one channel []
