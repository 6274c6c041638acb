-- ===== src/Raft/Machine/Accounts/Received.antt =====
-- Each message adds its sender to the accounts.
use robustmq_geek.Prelude.{ℕ, suc, ◌+◌, ◌<◌, ◌^◌, ◌≡◌, Option, none, List, [], ◌∷◌}
use robustmq_geek.Prelude.{
  Bytes, Result, ok, err, Action, ◌>>=◌, unwrap, add_one, arith, Bool-cases, inl, inr,
}
use robustmq_geek.Prelude.Dict.{Dict, lookup}
use robustmq_geek.Prelude.Outcomes.{Ensures, Leads, Leads->>=, Keeps-unwrap, Ensures-weaken}
use robustmq_geek.Common.Errors.{Fault}
use robustmq_geek.External.Rocksdb.{Rocksdb}
use robustmq_geek.External.RawNode.{RawNode}
use robustmq_geek.Storage.Kv.{KvFormats}
use robustmq_geek.Storage.Raft.{RaftFormats, Storage}
use robustmq_geek.Raft.Proposal.{Waited, answered, dropped, success}
use robustmq_geek.Raft.Route.{RouteFormats}
use robustmq_geek.Raft.Node.{BrokerNode}
use robustmq_geek.Raft.Machine.{
  MachineFormats, Machine, RaftMessage, conf_change, raft, transfer_leader, propose, Chan, in_node,
  settle,
}
use robustmq_geek.Raft.Machine.Waiting.{
  hits, lookup-KeysBelow, KeysBelow-suc, insert-KeysBelow, insert-IsDistinct, times_waiting-insert,
}
use robustmq_geek.Raft.Machine.Persist.{}
use robustmq_geek.Raft.Machine.Loop.{
  Received, arrived, closed, timed_out, Turn, Flow, goes_on, breaks, next_seq, wait_or_drop,
  handle_message, receive, take_turn, stopped,
}
use robustmq_geek.Raft.Machine.Accounts.{Accounts, Accounts-eq, On, Balanced, in_node-On}
use robustmq_geek.Raft.Machine.Accounts.Turns.{after_message-Balanced}

abbrev pub chan_of : {Message : Type 0} → RaftMessage Message → Chan
chan_of (conf_change _ chan) = chan
chan_of (raft _ chan) = chan
chan_of (transfer_leader _ chan) = chan
chan_of (propose _ chan) = chan

-- How often a sender is received in a turn, and in the turns.
abbrev pub times_received : {Message : Type 0} → ℕ → Received Message → ℕ
times_received j (arrived msg) = hits j (chan_of msg)
times_received j closed = 0
times_received j timed_out = 0

abbrev pub times_delivered : {Message : Type 0} → ℕ → List (Turn Message) → ℕ
times_delivered j [] = 0
times_delivered j (turn ∷ turns) = times_received j turn.received + times_delivered j turns

module _ ⦃R : Rocksdb⦄ ⦃N : RawNode Storage⦄ ⦃K : KvFormats⦄ ⦃F : RaftFormats⦄ ⦃G : RouteFormats⦄
    ⦃C : MachineFormats N.Message⦄ where
  -- The accounts, and a sequence number that is given out and under which nobody waits.
  abbrev Reserved : (ℕ → ℕ) → ℕ → ℕ → ℕ → Dict ℕ → List (ℕ × Waited) → Option BrokerNode → Type 0
  Reserved total bound seq n waiting settled leader =
      Accounts total bound n waiting settled leader × (lookup seq waiting ≡ none) × (seq < n)

  module _ (total : ℕ → ℕ) (bound : ℕ) (fits : suc bound < 2 ^ 64) where
    abbrev B : Machine → Type 0
    B = Balanced total bound

    next_seq-Reserved : Leads B (λ seq. On (Reserved total (suc bound) seq)) next_seq
    unfolding next_seq
    next_seq-Reserved s h =
        let e : add_one s.seqnum ≡ suc s.seqnum = omega (arith, h.small, fits) in
        rw e (
          record {
            small = omega (arith, h.small);
            below = KeysBelow-suc s.seqnum s.resp_channel h.below;
            distinct = h.distinct;
            held = h.held;
            led = h.led;
          },
          lookup-KeysBelow s.seqnum s.resp_channel h.below,
          omega arith,
        )

    abbrev Added : Chan → Machine → Type 0
    Added chan = Balanced (λ j. hits j chan + total j) (suc bound)

    wait_or_drop-Added :
        (seq : ℕ) (chan : Chan) (r : Result Fault (Unit {0})) (s : Machine)
        → On (Reserved total (suc bound) seq) s
        → Ensures (λ _. Added chan) (wait_or_drop seq chan r s)
    wait_or_drop-Added seq chan (ok _) s (h, free, lt) = record {
      small = h.small;
      below = insert-KeysBelow s.seqnum seq chan s.resp_channel lt h.below;
      distinct = insert-IsDistinct seq chan s.resp_channel h.distinct;
      held = λ j. omega (arith, times_waiting-insert j seq chan s.resp_channel free, h.held j);
      led = h.led;
    }
    wait_or_drop-Added seq chan (err e) s (h, free, lt) = record {
      small = h.small;
      below = h.below;
      distinct = h.distinct;
      held = λ j. omega (arith, h.held j);
      led = h.led;
    }

    settle-Added : (chan : Chan) (end : Waited) → Leads B (λ _. Added chan) (settle chan end)
    settle-Added chan end s h = record {
      small = omega (arith, h.small);
      below = h.below;
      distinct = h.distinct;
      held = λ j. omega (arith, h.held j);
      led = h.led;
    }

    -- The two kinds of message that are proposed take a sequence number first.
    proposed-Added :
        (chan : Chan) (call : Bytes → N.Node → Action Storage (Result Fault (Unit {0}) × N.Node))
        → Leads B
            (λ _. Added chan)
            (do
              seq ← next_seq
              context ← unwrap (C.bincode_seq.serialize seq)
              result ← in_node (call context)
              wait_or_drop seq chan result)
    proposed-Added chan call =
        Leads->>= B (λ seq. On (Reserved total (suc bound) seq)) (λ _. Added chan) next_seq _
          next_seq-Reserved
          λ seq.
            let Q = Reserved total (suc bound) seq in
            Leads->>= (On Q) (λ _. On Q) (λ _. Added chan) _ _
              (Keeps-unwrap (On Q) (C.bincode_seq.serialize seq))
              λ context.
                Leads->>= (On Q) (λ _. On Q) (λ _. Added chan) _ _ (in_node-On Q (call context))
                  λ result. wait_or_drop-Added seq chan result

    handle_message-Added :
        (msg : RaftMessage N.Message) → Leads B (λ _. Added (chan_of msg)) (handle_message msg)
    unfolding handle_message
    handle_message-Added (conf_change change chan) s h =
        proposed-Added chan (λ context. N.propose_conf_change context change) s h
    handle_message-Added (raft message chan) s h =
        Leads->>= B (λ _. B) (λ _. Added chan) _ _
          (in_node-On (Accounts total bound) (N.step message)) replied s h
      where
        replied :
            (r : Result Fault (Unit {0}))
            → Leads B
                (λ _. Added chan)
                (elim r as (λ _. Action Machine (Unit {0})) [
                  | ok _ ↦ settle chan (answered success)
                  | err e ↦ settle chan dropped
                ])
        replied (ok _) = settle-Added chan (answered success)
        replied (err e) = settle-Added chan dropped
    handle_message-Added (transfer_leader node_id chan) s h =
        Leads->>= B (λ _. B) (λ _. Added chan) _ _
          (in_node-On (Accounts total bound) (N.transfer_leader node_id))
          (λ _. settle-Added chan (answered success)) s h
    handle_message-Added (propose bytes chan) s h =
        proposed-Added chan (λ context. N.propose context bytes) s h

    abbrev pub After : Received N.Message → Machine → Type 0
    After received = Balanced (λ j. times_received j received + total j) (suc bound)

    unchanged-After : (s : Machine) → B s → Balanced (λ j. 0 + total j) (suc bound) s
    unchanged-After s h =
        Accounts-eq total (λ j. 0 + total j) bound (suc bound) (λ j. omega arith) (omega arith) h

    receive-After :
        (turn : Turn N.Message) (received : Received N.Message)
        → Leads B (λ _. After received) (receive turn received)
    unfolding receive
    receive-After turn (arrived msg) s h =
        Leads->>= B (λ _. Added (chan_of msg)) (λ _. Added (chan_of msg)) _ _
          (handle_message-Added msg)
          (λ _. after_message-Balanced (λ j. hits j (chan_of msg) + total j) (suc bound) turn) s h
    receive-After turn closed s h = unchanged-After s h
    receive-After turn timed_out s h =
        after_message-Balanced (λ j. 0 + total j) (suc bound) turn s (unchanged-After s h)

    abbrev pub IfGoesOn : Received N.Message → Flow → Machine → Type 0
    IfGoesOn received goes_on s = After received s
    IfGoesOn received breaks s = Unit

    weaken :
        (received : Received N.Message) (flow : Flow) (s : Machine)
        → After received s
        → IfGoesOn received flow s
    weaken received goes_on s h = h
    weaken received breaks s h = tt

    pub take_turn-After :
        (turn : Turn N.Message) → Leads B (IfGoesOn turn.received) (take_turn turn)
    unfolding take_turn
    take_turn-After turn s h = elim (Bool-cases (stopped turn.stop)) [
      | inl stop ↦ rw stop tt
      | inr on ↦ rw on (
          Ensures-weaken (λ _. After turn.received) (IfGoesOn turn.received)
            (receive turn turn.received s) (weaken turn.received)
            (receive-After turn turn.received s h))
    ]
