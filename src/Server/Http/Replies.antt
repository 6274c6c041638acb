-- ===== src/Server/Http/Replies.antt =====
-- What a client reads in the replies of the HTTP server.
use robustmq_geek.Prelude.{
  ◌≡◌, refl, Option, List, Text, codes, Result, ok, err, done, Run, continue, restored, panicked,
  [], ◌∷◌, true,
}
use robustmq_geek.Common.Errors.{Fault}
use robustmq_geek.External.Formats.{Json, IsJson}
use robustmq_geek.External.Rocksdb.{Rocksdb, find_item}
use robustmq_geek.External.OpenRaft.{Wal}
use robustmq_geek.External.TreeMap.{Items}
use robustmq_geek.OpenRaft.Types.{AppRequestData, Entry, StateMachineStore, Shared, SnapshotFormats}
use robustmq_geek.OpenRaft.StateMachine.{apply}
use robustmq_geek.OpenRaft.StateMachine.Applied.{
  value_after, apply_lem, replies_to, last_log_id, membership_after,
}
use robustmq_geek.OpenRaft.Nodes.{insert_node}
use robustmq_geek.Server.Http.{
  Response, RaftHandle, ReplyFormats, State, replied, success_response, error_response, fixed_node,
  add_leadrner, change_membership, init, set, kv_get,
}

module _ ⦃H : RaftHandle⦄ ⦃F : ReplyFormats H⦄ where
  -- A text that says how a call ended: the code 0 with what it returned, or 100 with the error.
  pub Tells : {T : Type 0} → Json (Response T) → Result Fault T → Text → Type 0
  Tells json (ok value) text = json.from_str text ≡ ok (record { code = 0; value = value })
  Tells json (err e) text =
      F.json_error.from_str text ≡ ok (record { code = 100; value = e.display })

  -- How a handler ends whose call ends in one way: in the state that the call left, with a text
  -- that says how the call ended.
  pub Follows :
      {T : Type 0}
      → Json (Response T)
      → State
      → Run H.World (Result Fault T)
      → Run State Text
      → Type 0
  Follows json s (done r w) run =
      (text : Text) × (run ≡ done text (record s { raft_node = w })) × Tells json r text
  Follows json s (panicked w) run = run ≡ panicked (record s { raft_node = w })

  replied-Follows :
      {T : Type 0} {json : Json (Response T)} (I : IsJson json) (E : IsJson F.json_error)
      (s : State) (run : Run H.World (Result Fault T))
      → Follows json s run
          (continue (restored (λ w t. record t { raft_node = w }) s run) (replied json))
  unfolding Follows Tells success_response error_response
  replied-Follows {T} I E s (done (ok value) w) =
      let reply : Response T = record { code = 0; value = value } in
      (I.written reply, rw (replied, I.to_string-written reply) refl, I.from_str-written reply)
  replied-Follows I E s (done (err e) w) =
      let reply : Response Text = record { code = 100; value = e.display } in
      (E.written reply, rw (replied, E.to_string-written reply) refl, E.from_str-written reply)
  replied-Follows I E s (panicked w) = refl

  -- The handlers that add the learner, change the membership, initialize the cluster and write "v1"
  -- under "k1" reply, where replies serialise and read back, however the call of openraft returns, in the state that it leaves, with a text
  -- from which a client reads the code 0 and what the call returned, or the code 100 and the text
  -- of its error.
  pub handlers-follow :
      (I : IsJson F.json_write) (U : IsJson F.json_unit) (E : IsJson F.json_error) (s : State)
      → Follows F.json_write s (H.add_learner 3 fixed_node true s.raft_node) (add_leadrner s)
        × Follows F.json_write s
            (H.change_membership (3 ∷ []) true s.raft_node)
            (change_membership s)
        × Follows F.json_unit s (H.initialize ((3, fixed_node) ∷ []) s.raft_node) (init s)
        × Follows F.json_write s
            (H.client_write (AppRequestData.set (codes "k1") (codes "v1")) s.raft_node)
            (set s)
  unfolding add_leadrner change_membership init set insert_node
  handlers-follow I U E s = (
    replied-Follows I E s (H.add_learner 3 fixed_node true s.raft_node),
    replied-Follows I E s (H.change_membership (3 ∷ []) true s.raft_node),
    replied-Follows U E s (H.initialize ((3, fixed_node) ∷ []) s.raft_node),
    replied-Follows I E s
        (H.client_write (AppRequestData.set (codes "k1") (codes "v1")) s.raft_node),
  )

  -- Once the state machine has applied entries, the reply of `kv_get`, if such replies serialise and
  -- read back, has the code 0 and the value that the last entry to write "k1" gave it: none where
  -- that deleted it, and the earlier value where no entry writes it.
  pub kv_get-apply :
      ⦃R : Rocksdb⦄ ⦃W : Wal R⦄ ⦃G : SnapshotFormats⦄ (V : IsJson F.json_value)
      (entries : List Entry) (sm : StateMachineStore) (shared : Shared R.Db) (s : State)
      → (kvs : Items) × (sm' : StateMachineStore) × (text : Text) × (apply entries sm shared
          ≡ done (ok (replies_to entries), sm') (record shared { kvs = kvs }))
        × (kv_get (record s { kvs = kvs }) ≡ done text (record s { kvs = kvs }))
        × (F.json_value.from_str text
            ≡ ok (record {
              code = 0;
              value = value_after (codes "k1") entries (find_item (codes "k1") shared.kvs);
            }))
  unfolding kv_get success_response
  kv_get-apply V entries sm shared s =
      let (kvs, applied, finds) = apply_lem entries sm shared in
      let reply : Response (Option Text) = record {
        code = 0;
        value = value_after (codes "k1") entries (find_item (codes "k1") shared.kvs);
      } in
      (
        kvs,
        record sm {
          last_applied_log_id = last_log_id entries sm.last_applied_log_id;
          last_membership = membership_after entries sm.last_membership;
        },
        V.written reply,
        applied,
        rw (finds (codes "k1"), V.to_string-written reply) refl,
        V.from_str-written reply,
      )
