-- ===== src/Tests/Http.antt =====
-- The HTTP server's replies, at concrete inputs.
use robustmq_geek.Prelude.{ℕ, ◌+◌, ◌≡◌, refl, true, [], ◌∷◌, Text, codes, ok, err, done}
use robustmq_geek.External.Rocksdb.{find_item}
use robustmq_geek.External.TreeMap.{Items}
use robustmq_geek.OpenRaft.Types.{AppRequestData, StateMachineStore}
use robustmq_geek.OpenRaft.StateMachine.{apply, unapplied}
use robustmq_geek.OpenRaft.StateMachine.Applied.{value_after, replies_to}
use robustmq_geek.Server.Http.{
  Response, RaftHandle, ReplyFormats, HttpServerState, fixed_node, add_leadrner, change_membership,
  init, set, kv_get,
}
use robustmq_geek.Server.Http.Replies.{Follows, handlers-follow, kv_get-apply}
use robustmq_geek.Tests.Memory.{memory}
use robustmq_geek.Tests.OpenRaft.{wal, formats, entries, empty}
use robustmq_geek.Tests.Coders.{Coder, number, pair, list, via, json, json-IsJson, bad_data}
use robustmq_geek.Tests.Coders.Optional.{option}

-- A handle that refuses to initialize a cluster, and counts the other calls.
instance abbrev handle : RaftHandle
handle = record {
  World = ℕ;
  ClientWriteResponse = ℕ;
  RaftMetrics = ℕ;
  add_learner = λ id node blocking w. done (ok id) (w + 1);
  change_membership = λ ids retain w. done (ok 0) (w + 1);
  initialize = λ nodes w. done (err bad_data) w;
  metrics = λ w. w;
  client_write = λ request w. done (ok w) (w + 1);
}

abbrev response : {T : Type 0} → Coder T → Coder (Response T)
response t =
    via (λ r. (r.code, r.value)) (λ p. record { code = p.0; value = p.1 }) (λ r. refl)
      (pair number t)

abbrev unit : Coder (Unit {0})
unit = via (λ u. 0) (λ n. tt) (λ u. refl) number

instance abbrev reply_formats : ReplyFormats handle
reply_formats = record {
  json_object = json (response (list number));
  json_write = json (response number);
  json_unit = json (response unit);
  json_metrics = record {
    to_string = λ r. ok [];
    from_str = λ text. err bad_data;
    to_vec = λ r. ok [];
    from_slice = λ bytes. err bad_data;
    debug = λ r. [];
  };
  json_value = json (response (option (list number)));
  json_error = json (response (list number));
}

abbrev server : HttpServerState ℕ
server = record { raft_node = 5; kvs = [] }

handlers-follow_example :
    Follows reply_formats.json_write server
      (handle.add_learner 3 fixed_node true 5)
      (add_leadrner server)
    × Follows reply_formats.json_write server
        (handle.change_membership (3 ∷ []) true 5)
        (change_membership server)
    × Follows reply_formats.json_unit server
        (handle.initialize ((3, fixed_node) ∷ []) 5)
        (init server)
    × Follows reply_formats.json_write server
        (handle.client_write (AppRequestData.set (codes "k1") (codes "v1")) 5)
        (set server)
handlers-follow_example =
    handlers-follow (json-IsJson (response number)) (json-IsJson (response unit))
      (json-IsJson (response (list number))) server

kv_get-apply_example :
    (kvs : Items) × (sm : StateMachineStore) × (text : Text) × (apply entries unapplied empty
      ≡ done (ok (replies_to entries), sm) (record empty { kvs = kvs }))
    × (kv_get (record server { kvs = kvs }) ≡ done text (record server { kvs = kvs }))
    × (reply_formats.json_value.from_str text
        ≡ ok (record {
          code = 0;
          value = value_after (codes "k1") entries (find_item (codes "k1") empty.kvs);
        }))
kv_get-apply_example =
    kv_get-apply (json-IsJson (response (option (list number)))) entries unapplied empty server
