-- ===== src/Raft/Machine/Accounts/Answered.antt =====
-- Committed entries settle waiting senders, and keep the accounts.
use robustmq_geek.Prelude.{ℕ, ◌≡◌, refl, Option, none, some, List, [], ◌∷◌}
use robustmq_geek.Prelude.{
  Bytes, Result, ok, err, Action, ◌>>=◌, ◌>>◌, pure, gets, modify, arith, is_empty,
}
use robustmq_geek.Prelude.Dict
use robustmq_geek.Prelude.Dict.{Dict, lookup}
use robustmq_geek.Prelude.Outcomes.{Ensures, Keeps, Keeps->>=, Keeps-if}
use robustmq_geek.Common.Errors.{Fault}
use robustmq_geek.External.Rocksdb.{Rocksdb}
use robustmq_geek.External.Raft.{Entry}
use robustmq_geek.External.RawNode.{RawNode}
use robustmq_geek.Storage.Kv.{KvFormats}
use robustmq_geek.Storage.Raft.{RaftFormats, Storage}
use robustmq_geek.Raft.RocksdbStorage as Store
use robustmq_geek.Raft.Proposal.{answered, success}
use robustmq_geek.Raft.Route.{RouteFormats}
use robustmq_geek.Raft.Machine.{MachineFormats, Machine, settle}
use robustmq_geek.Raft.Machine.Waiting.{
  remove-KeysBelow, remove-IsDistinct, times_waiting-remove, times_waiting-remove-none,
}
use robustmq_geek.Raft.Machine.Committed.{answer, handle_committed_entry, handle_committed_entries}
use robustmq_geek.Raft.Machine.Persist.{}
use robustmq_geek.Raft.Machine.Accounts.{Accounts, Balanced, in_store-On}
use robustmq_geek.Raft.Machine.Accounts.Calls.{create_snapshot-On, handle_data-On}

module _ ⦃R : Rocksdb⦄ ⦃N : RawNode Storage⦄ ⦃K : KvFormats⦄ ⦃F : RaftFormats⦄ ⦃G : RouteFormats⦄
    ⦃C : MachineFormats N.Message⦄ where
  module _ (total : ℕ → ℕ) (bound : ℕ) where
    abbrev B : Machine → Type 0
    B = Balanced total bound

    answered-Balanced :
        (seq : ℕ) (o : Option ℕ) (s : Machine)
        → lookup seq s.resp_channel ≡ o
        → B s
        → Ensures
            (λ _. B)
            ((elim o as (λ _. Action Machine (Unit {0})) [
              | some chan ↦ settle chan (answered success)
              | none ↦ pure tt
            ])
              (record s { resp_channel = Dict.remove seq s.resp_channel }))
    answered-Balanced seq none s e h = record {
      small = h.small;
      below = remove-KeysBelow s.seqnum seq s.resp_channel h.below;
      distinct = remove-IsDistinct seq s.resp_channel h.distinct;
      held = λ j. omega (arith, times_waiting-remove-none j seq s.resp_channel e, h.held j);
      led = h.led;
    }
    answered-Balanced seq (some chan) s e h = record {
      small = h.small;
      below = remove-KeysBelow s.seqnum seq s.resp_channel h.below;
      distinct = remove-IsDistinct seq s.resp_channel h.distinct;
      held =
          λ j. omega (arith, times_waiting-remove j seq chan s.resp_channel h.distinct e, h.held j);
      led = h.led;
    }

    answer-Balanced : (context : Bytes) → Keeps B (answer context)
    unfolding answer
    answer-Balanced context = by_seq (C.bincode_seq.deserialize context)
      where
        by_seq :
            (r : Result Fault ℕ)
            → Keeps B (elim r [
              | ok seq ↦ do
                waiting ← gets (λ s. Dict.lookup seq s.resp_channel)
                modify (λ s. record s { resp_channel = Dict.remove seq s.resp_channel })
                elim waiting [ some chan ↦ settle chan (answered success) | none ↦ pure tt ]
              | err e ↦ pure tt
            ])
        by_seq (ok seq) s h = answered-Balanced seq (lookup seq s.resp_channel) s refl h
        by_seq (err e) s h = h

    handle_committed_entry-Balanced :
        (clock : Entry → ℕ) (entry : Entry) → Keeps B (handle_committed_entry clock entry)
    unfolding handle_committed_entry
    handle_committed_entry-Balanced clock entry =
        Keeps->>= B _ _
          (Keeps-if B (is_empty entry.bytes) _ _ (λ s h. h)
            (handle_data-On (Accounts total bound) clock entry.entry_type entry))
          λ _.
            Keeps->>= B _ _ (in_store-On (Accounts total bound) (Store.commmit_index entry.index))
              λ _.
                Keeps->>= B _ _ (answer-Balanced entry.context)
                  λ _. create_snapshot-On (Accounts total bound)

    pub handle_committed_entries-Balanced :
        (clock : Entry → ℕ) (entries : List Entry)
        → Keeps B (handle_committed_entries clock entries)
    unfolding handle_committed_entries
    handle_committed_entries-Balanced clock [] s h = h
    handle_committed_entries-Balanced clock (entry ∷ entries) s h =
        Keeps->>= B _ _ (handle_committed_entry-Balanced clock entry)
          (λ _. handle_committed_entries-Balanced clock entries) s h
