-- ===== src/Server/Kv/Replies.antt =====
-- What the key-value service replies: refusals, proposals, forwarded calls and reads.
use mathlib.Core.Option
use mathlib.Core.Option.{get_or}
use robustmq_geek.Prelude.{
  ◌≡◌, refl, ap, true, false, Option, none, some, List, [], ◌∷◌, ◌||◌, Bytes, Text, codes, Result,
  ok, done, is_empty, Action, ◌>>=◌, pure,
}
use robustmq_geek.Common.Errors.{Status, raft_log_commit_timeout}
use robustmq_geek.External.Rocksdb.{Rocksdb, IsDatabase}
use robustmq_geek.External.Formats.{IsBincode}
use robustmq_geek.Protocol.Kv.{SetRequest, GetRequest, DeleteRequest, CommonReply, common_reply}
use robustmq_geek.Storage.Kv.{KvFormats, AreKvFormats}
use robustmq_geek.Storage.Kv as KvStorage
use robustmq_geek.Storage.Kv.History.{Write, perform, latest, get-perform}
use robustmq_geek.Raft.Proposal.{
  Waited, answered, dropped, elapsed, kv_set, kv_delete, new_storage_data,
  apply_raft_status_machine_message,
}
use robustmq_geek.Raft.Metadata as Metadata
use robustmq_geek.Raft.Machine.{propose}
use robustmq_geek.Raft.Apply.{RaftTask, apply_propose_message}
use robustmq_geek.Clients.Pool.{Network}
use robustmq_geek.Clients.Calls.{ClientFormats, kv}
use robustmq_geek.Clients.Calls as Calls
use robustmq_geek.Clients.Retry.{interface_call, first_success, retry_call-first_success}
use robustmq_geek.Clients.Placement.{placement_call, decoded}
use robustmq_geek.Server.Kv.{
  ServiceFormats, Services, refuse, applied, get_reply, with_pools, set, delete, get, is_leader,
  leader_addr, or_status,
}

module _ ⦃R : Rocksdb⦄ ⦃N : Network⦄ ⦃T : RaftTask⦄ ⦃K : KvFormats⦄ ⦃F : ClientFormats⦄
    ⦃S : ServiceFormats⦄ where
  -- The reply to a proposal, by the way in which the wait for it ends.
  abbrev pub replied : Text → Waited → Result Status CommonReply
  replied action (answered _) = ok common_reply
  replied action dropped = ok common_reply
  replied action elapsed = refuse (raft_log_commit_timeout action)

  applied-message :
      (action : Text) (rx : Waited)
      → applied (apply_raft_status_machine_message action rx) ≡ replied action rx
  unfolding apply_raft_status_machine_message
  applied-message action (answered _) = refl
  applied-message action dropped = refl
  applied-message action elapsed = refl

  -- On a leader, `set` of a key and a value that are not empty, and `delete` of a key that is not
  -- empty, hand the raft machine one proposal, of the serialised request under its kind, and change
  -- nothing else. They reply with success for an answer of either kind and for a channel that was
  -- dropped, and with a refusal for a timeout.
  pub set-proposes :
      (B : IsBincode S.bincode_storage_data) (req : SetRequest) (del : DeleteRequest) (s : Services)
      (rx rx' : Waited) (w w' : T.World)
      → Metadata.is_leader s.placement_cluster ≡ true
      → (is_empty req.key || is_empty req.value) ≡ false
      → is_empty del.key ≡ false
      → T.exchange
          (propose (B.packed (new_storage_data kv_set (F.set_request.encode_to_vec req))))
          s.placement_center_storage
        ≡ done rx w
      → T.exchange
          (propose (B.packed (new_storage_data kv_delete (F.delete_request.encode_to_vec del))))
          s.placement_center_storage
        ≡ done rx' w'
      → (set req s
          ≡ done (some (replied (codes "set") rx)) (record s { placement_center_storage = w }))
        × (delete del s
            ≡ done
                (some (replied (codes "delete") rx'))
                (record s { placement_center_storage = w' }))
  unfolding set delete apply_propose_message is_leader
  set-proposes B req del s rx rx' w w' leads full keyed sent sent' =
      let sd = new_storage_data kv_set (F.set_request.encode_to_vec req) in
      let sd' = new_storage_data kv_delete (F.delete_request.encode_to_vec del) in
      (
        rw (full, leads, B.serialize-packed sd, sent)
            (ap (λ r. done (some r) (record s { placement_center_storage = w }))
              (applied-message (codes "set") rx)),
        rw (keyed, leads, B.serialize-packed sd', sent')
            (ap (λ r. done (some r) (record s { placement_center_storage = w' }))
              (applied-message (codes "delete") rx')),
      )

  -- What a node that does not lead makes of a request: at most four attempts at one address.
  abbrev pub forwarded :
      Calls.PlacementCenterInterface
      → Text
      → Bytes
      → Action Services (Option (Result Status CommonReply))
  forwarded interface addr request = do
    reply ← with_pools (do
      result ←
          first_success (λ a. interface_call kv interface a request) addr (addr ∷ addr ∷ addr ∷ [])
      pure (Option.map (decoded F.common_reply) result))
    pure (Option.map or_status reply)

  -- On a node that does not lead, `set` and `delete` with nothing empty are tried up to four times
  -- at the address that the node has for the leader, until an attempt succeeds; the reply is that
  -- of the first success, or a refusal with the last error, and the call always ends.
  pub set-forwards :
      (req : SetRequest) (del : DeleteRequest) (s : Services)
      → Metadata.is_leader s.placement_cluster ≡ false
      → (is_empty req.key || is_empty req.value) ≡ false
      → is_empty del.key ≡ false
      → (set req s
          ≡ forwarded Calls.set
              (Metadata.leader_addr s.placement_cluster)
              (F.set_request.encode_to_vec req)
              s)
        × (delete del s
            ≡ forwarded Calls.delete
                (Metadata.leader_addr s.placement_cluster)
                (F.delete_request.encode_to_vec del)
                s)
  unfolding set delete placement_call is_leader leader_addr
  set-forwards req del s follows full keyed =
      let addr = Metadata.leader_addr s.placement_cluster in
      (
        rw (
          full,
          follows,
          retry_call-first_success kv Calls.set addr [] (F.set_request.encode_to_vec req)
              s.client_poll,
        ),
        rw (
          keyed,
          follows,
          retry_call-first_success kv Calls.delete addr [] (F.delete_request.encode_to_vec del)
              s.client_poll,
        ),
      )

  -- On a database without I/O errors, if the store gives what a key maps to, then after any
  -- sequence of writes to the store `get` of the key replies with what the last write of it left,
  -- and with the empty text if that is nothing.
  pub get-after_writes :
      ⦃D : IsDatabase R⦄ ⦃L : AreKvFormats K⦄ (writes : List Write) (req : GetRequest)
      (s : Services) (old : Option Text)
      → D.healthy s.rocksdb_engine_handler ≡ true
      → KvStorage.get req.key s.rocksdb_engine_handler ≡ ok old
      → is_empty req.key ≡ false
      → get req (record s { rocksdb_engine_handler = perform writes s.rocksdb_engine_handler })
        ≡ done
            (ok (record { value = get_or (latest req.key writes old) [] }))
            (record s { rocksdb_engine_handler = perform writes s.rocksdb_engine_handler })
  unfolding get
  get-after_writes writes req s old fine before full =
      rw (full, get-perform writes s.rocksdb_engine_handler req.key old fine before)
        (shown (latest req.key writes old))
    where
      shown :
          (o : Option Text)
          → done
              (get_reply (ok o))
              (record s { rocksdb_engine_handler = perform writes s.rocksdb_engine_handler })
            ≡ done
                (ok (record { value = get_or o [] }))
                (record s { rocksdb_engine_handler = perform writes s.rocksdb_engine_handler })
      shown none = refl
      shown (some text) = refl
