-- ===== src/Raft/Machine/Accounts/Totals.antt =====
-- The accounts hold after any turns of the loop.
use mathlib.Core.Path.{subst}
use robustmq_geek.Prelude.{
  ℕ, suc, ◌+◌, ◌<◌, ◌^◌, ◌≡◌, refl, false, none, some, List, [], ◌∷◌, length,
}
use robustmq_geek.Prelude.{done, Action, pure, arith}
use robustmq_geek.Prelude.Outcomes.{Ensures, Leads, Leads->>=, Ensures-weaken}
use robustmq_geek.External.Rocksdb.{Rocksdb}
use robustmq_geek.External.RawNode.{RawNode}
use robustmq_geek.Storage.Kv.{KvFormats}
use robustmq_geek.Storage.Raft.{RaftFormats, Storage}
use robustmq_geek.Raft.Route.{RouteFormats}
use robustmq_geek.Raft.Metadata.{RaftGroupMetadata}
use robustmq_geek.Raft.Machine.{MachineFormats, Machine}
use robustmq_geek.Raft.Machine.Waiting.{times_waiting, times_settled, IsDistinct}
use robustmq_geek.Raft.Machine.Persist.{}
use robustmq_geek.Raft.Machine.Loop.{Turn, Flow, goes_on, breaks, new, take_turn, run}
use robustmq_geek.Raft.Machine.Accounts.{Accounts-eq, Balanced}
use robustmq_geek.External.Toml.{Toml}
use robustmq_geek.Raft.Metadata.{leader_addr, leader_alive}
use robustmq_geek.Raft.Metadata.Start as Start
use robustmq_geek.Common.Config.{PlacementCenterConfig}
use robustmq_geek.Raft.Metadata.Start.{new-leader}
use robustmq_geek.Raft.Machine.Accounts.Received.{
  times_received, times_delivered, IfGoesOn, take_turn-After,
}

module _ ⦃R : Rocksdb⦄ ⦃N : RawNode Storage⦄ ⦃K : KvFormats⦄ ⦃F : RaftFormats⦄ ⦃G : RouteFormats⦄
    ⦃C : MachineFormats N.Message⦄ where
  abbrev IfThrough : (ℕ → ℕ) → ℕ → List (Turn N.Message) → Flow → Machine → Type 0
  IfThrough total bound turns goes_on s =
      (b : ℕ) × Balanced (λ j. times_delivered j turns + total j) b s
  IfThrough total bound turns breaks s = Unit

  module _ (turn : Turn N.Message) (turns : List (Turn N.Message)) (total : ℕ → ℕ) (bound : ℕ) where
    abbrev later : ℕ → ℕ
    later j = times_received j turn.received + total j

    regroup :
        (flow : Flow) (s : Machine)
        → IfThrough later (suc bound) turns flow s
        → IfThrough total bound (turn ∷ turns) flow s
    regroup goes_on s (b, h) = (
      b,
      Accounts-eq (λ j. times_delivered j turns + later j)
          (λ j. times_delivered j (turn ∷ turns) + total j) b b (λ j. omega arith) (omega arith) h,
    )
    regroup breaks s h = tt

    onward :
        (fits : suc bound < 2 ^ 64)
        → Leads (Balanced later (suc bound)) (IfThrough later (suc bound) turns) (run turns)
        → (flow : Flow) (s : Machine) → IfGoesOn total bound fits turn.received flow s
        → Ensures (IfThrough total bound (turn ∷ turns)) (
            (elim flow as (λ _. Action Machine Flow) [ goes_on ↦ run turns | breaks ↦ pure breaks ])
              s)
    onward fits rest goes_on s h =
        Ensures-weaken (IfThrough later (suc bound) turns) (IfThrough total bound (turn ∷ turns))
          (run turns s) regroup (rest s h)
    onward fits rest breaks s h = tt

  run-Accounts :
      (turns : List (Turn N.Message)) (total : ℕ → ℕ) (bound : ℕ)
      → bound + length turns < 2 ^ 64
      → Leads (Balanced total bound) (IfThrough total bound turns) (run turns)
  unfolding run
  run-Accounts [] total bound fits s h =
      (bound, Accounts-eq total (λ j. 0 + total j) bound bound (λ j. omega arith) (omega arith) h)
  run-Accounts (turn ∷ turns) total bound fits s h =
      let room : suc bound < 2 ^ 64 = omega (arith, fits) in
      Leads->>= (Balanced total bound) (IfGoesOn total bound room turn.received)
        (IfThrough total bound (turn ∷ turns)) (take_turn turn) _
        (take_turn-After total bound room turn)
        (onward turn turns total bound room (
          run-Accounts turns (λ j. times_received j turn.received + total j) (suc bound)
            (omega (arith, fits))))
        s h

  new-Balanced :
      (cluster : RaftGroupMetadata) (storage : Storage) (node : N.Node)
      → cluster.leader ≡ none
      → Balanced (λ _. 0) 1 (new cluster storage node)
  unfolding new times_waiting
  new-Balanced cluster storage node led = record {
    small = omega arith;
    below = tt;
    distinct = tt;
    held = λ j. refl;
    led = led;
  }

  through :
      (turns : List (Turn N.Message)) (cluster : RaftGroupMetadata) (storage : Storage)
      (node : N.Node) (s : Machine)
      → cluster.leader ≡ none
      → 1 + length turns < 2 ^ 64
      → run turns (new cluster storage node) ≡ done goes_on s
      → (b : ℕ) × Balanced (λ j. times_delivered j turns + 0) b s
  through turns cluster storage node s led fits e = subst (Ensures (IfThrough (λ _. 0) 1 turns)) e (
      run-Accounts turns (λ _. 0) 1 fits (new cluster storage node)
        (new-Balanced cluster storage node led))

  -- After a new machine that knows of no leader has gone through fewer than 2^64 - 1 turns,
  -- whatever the messages, the node and the database do, every one-shot sender is, as often as it
  -- was received, in the table of waiting senders or settled by an answer or by being dropped, and
  -- no sequence number stands in the table twice.
  pub held-run :
      (turns : List (Turn N.Message)) (cluster : RaftGroupMetadata) (storage : Storage)
      (node : N.Node) (s : Machine)
      → cluster.leader ≡ none
      → 1 + length turns < 2 ^ 64
      → run turns (new cluster storage node) ≡ done goes_on s
      → ((j : ℕ)
          → times_waiting j s.resp_channel + times_settled j s.settled ≡ times_delivered j turns)
        × IsDistinct s.resp_channel
  held-run turns cluster storage node s led fits e =
      let (b, h) = through turns cluster storage node s led fits e in
      (λ j. omega (arith, h.held j), h.distinct)

  -- A machine that starts from the metadata of a configuration never learns of a leader: after
  -- fewer than 2^64 - 1 turns the leader's address is empty and no leader is alive, whatever role
  -- the node has taken.
  pub leader_addr-run :
      ⦃T : Toml⦄ (config : PlacementCenterConfig T.Value) (cluster : RaftGroupMetadata)
      (turns : List (Turn N.Message)) (storage : Storage) (node : N.Node) (s : Machine)
      → Start.new config ≡ some cluster
      → 1 + length turns < 2 ^ 64
      → run turns (new cluster storage node) ≡ done goes_on s
      → (leader_addr s.placement_cluster ≡ []) × (leader_alive s.placement_cluster ≡ false)
  unfolding leader_addr leader_alive
  leader_addr-run config cluster turns storage node s started fits e =
      let (b, h) =
        through turns cluster storage node s (new-leader config cluster started) fits e in
      (rw h.led, rw h.led)
