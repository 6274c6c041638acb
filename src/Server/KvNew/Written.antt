-- ===== src/Server/KvNew/Written.antt =====
-- What the changes that clients ask of `GrpcKvServices` over openraft make of the map of the state
-- machine that openraft replicates, and of the store that the service reads.
use mathlib.Core.Path.{subst}
use robustmq_geek.Prelude.{
  ◌≡◌, ◌∙◌, ◌⊎◌, refl, ap, sym, false, ◌||◌, Option, none, some, List, [], ◌∷◌, Text, codes, Result,
  ok, err, done, Action, ◌>>=◌, pure, is_empty, eq_bytes, Bool-cases, inl, inr,
}
use robustmq_geek.Common.Errors.{Fault, Status, parameter_cannot_be_null}
use robustmq_geek.External.Rocksdb.{Rocksdb, find_item}
use robustmq_geek.External.TreeMap.{Items}
use robustmq_geek.Protocol.Kv.{SetRequest, DeleteRequest, CommonReply}
use robustmq_geek.Storage.Kv.{KvFormats}
use robustmq_geek.OpenRaft.Types.{AppRequestData, Entry, StateMachineStore, set, delete}
use robustmq_geek.OpenRaft.StateMachine.{apply_each}
use robustmq_geek.OpenRaft.StateMachine.Applied.{value_after, find-apply_each}
use robustmq_geek.OpenRaft.StateMachine.Proposed.{
  Holds, HasRequest, key_of, value_of, value_after-other, value_after-own, value_after-Settles,
}
use robustmq_geek.Server.Kv.{ServiceFormats, refuse}
use robustmq_geek.Server.KvNew as KvNew
use robustmq_geek.Server.KvNew.{ClientWrite, Node, written}

unfoldable pub Ensures : Result Fault (Unit {0}) → List Entry → Type 0
Ensures (ok _) entries = HasRequest entries
Ensures (err e) entries = Unit

-- The end of a write: openraft has applied entries that hold it, if any, to the state machine, and
-- after a success one at least.
pub record Replicated (C : ClientWrite) : Type 0 where
  pub machine : C.World → StateMachineStore
  pub kvs : C.World → Items
  pub client_write-ends :
      (req : AppRequestData) (w : C.World)
      → (r : Result Fault (Unit {0})) × (w' : C.World) × (entries : List Entry) × (C.client_write
            req w
          ≡ done r w')
        × Holds req entries
        × Ensures r entries
        × (kvs w' ≡ (apply_each entries (machine w, kvs w)).1.1)

-- A change that a client asks for.
pub data Change : Type 0 where
  of_set : SetRequest → Change
  of_delete : DeleteRequest → Change

-- What a change leaves under "k1".
unfoldable pub left_by : Change → Option Text
left_by (of_set req) = some (codes "v1")
left_by (of_delete req) = none

-- What was under "k1" before a change with its reply, and what is there after it.
unfoldable pub After : Change → Result Status CommonReply → Option Text → Option Text → Type 0
After c (ok reply) old new = new ≡ left_by c
After c (err status) old new = (new ≡ old) ⊎ (new ≡ left_by c)

unfoldable pub Follows :
    List Change → List (Result Status CommonReply) → Option Text → Option Text → Type 0
Follows [] [] old new = new ≡ old
Follows (c ∷ changes) (reply ∷ replies) old new =
    (mid : Option Text) × After c reply old mid × Follows changes replies mid new
Follows [] (reply ∷ replies) old new = ⊥
Follows (c ∷ changes) [] old new = ⊥

module _ ⦃R : Rocksdb⦄ ⦃C : ClientWrite⦄ ⦃K : KvFormats⦄ ⦃S : ServiceFormats⦄ where
  pub change : Change → Action Node (Result Status CommonReply)
  change (of_set req) = KvNew.set req
  change (of_delete req) = KvNew.delete req

  -- The changes one after the other, whatever the replies, which it returns.
  pub carry_out : List Change → Action Node (List (Result Status CommonReply))
  carry_out [] = pure []
  carry_out (c ∷ changes) = do reply ← change c; replies ← carry_out changes; pure (reply ∷ replies)

  module _ (H : Replicated C) where
    abbrev pub seen : Text → C.World → Option Text
    seen j w = find_item j (H.kvs w)

    -- Every key but "k1" has its value.
    abbrev pub Keeps : C.World → C.World → Type 0
    Keeps w w' = (j : Text) → eq_bytes j (codes "k1") ≡ false → seen j w' ≡ seen j w

    -- A write of what a change leaves under "k1", with the reply made from its end.
    abbrev Writes : Change → AppRequestData → C.World → Type 0
    Writes c req w =
        (r : Result Fault (Unit {0})) × (w' : C.World) × (C.client_write req w ≡ done r w')
        × Keeps w w'
        × After c (written r) (seen (codes "k1") w) (seen (codes "k1") w')

    client_write-After :
        (c : Change) (req : AppRequestData) (r : Result Fault (Unit {0})) (entries : List Entry)
        (old : Option Text)
        → key_of req ≡ codes "k1"
        → value_of req ≡ left_by c
        → Holds req entries
        → Ensures r entries
        → After c (written r) old (value_after (codes "k1") entries old)
    unfolding After Ensures
    client_write-After c req (ok u) entries old at_k1 leaves holds has =
        ap (λ k. value_after k entries old) (sym at_k1)
        ∙ value_after-own req entries old holds has
        ∙ leaves
    client_write-After c req (err e) entries old at_k1 leaves holds has =
        elim (value_after-Settles req entries (codes "k1") old holds) [
          | inl same ↦ inl same
          | inr new ↦ inr (new ∙ leaves)
        ]

    client_write-Writes :
        (c : Change) (req : AppRequestData) (w : C.World)
        → key_of req ≡ codes "k1"
        → value_of req ≡ left_by c
        → Writes c req w
    client_write-Writes c req w at_k1 leaves =
        let (r, w', entries, p, holds, has, ends) = H.client_write-ends req w in
        let after : (j : Text) → seen j w' ≡ value_after j entries (seen j w) =
          λ j. ap (find_item j) ends ∙ find-apply_each entries (H.machine w) (H.kvs w) j in
        (
          r,
          w',
          p,
          λ j other.
              after j
              ∙ value_after-other req entries j (seen j w) holds (ap (eq_bytes j) at_k1 ∙ other),
          subst (After c (written r) (seen (codes "k1") w)) (sym (after (codes "k1")))
              (client_write-After c req r entries (seen (codes "k1") w) at_k1 leaves holds has),
        )

    unfoldable Ends : Change → Node → Type 0
    Ends c s =
        (reply : Result Status CommonReply) × (w' : C.World) × (change c s
          ≡ done reply (record s { raft_node = w' }))
        × Keeps s.raft_node w'
        × After c reply (seen (codes "k1") s.raft_node) (seen (codes "k1") w')

    change_lem : (c : Change) (s : Node) → Ends c s
    unfolding KvNew.set KvNew.delete Ends change left_by
    change_lem (of_set req) s = elim (Bool-cases (is_empty req.key || is_empty req.value)) [
      | inl empty ↦
          let why = parameter_cannot_be_null (codes "key or value") in
          (refuse why, s.raft_node, rw empty refl, λ j other. refl, unfold After in inl refl)
      | inr full ↦
          let (r, w', p, keeps, after) =
            client_write-Writes (of_set req) (set (codes "k1") (codes "v1")) s.raft_node refl
              refl in
          (written r, w', rw full (rw p refl), keeps, after)
    ]
    change_lem (of_delete req) s = elim (Bool-cases (is_empty req.key)) [
      | inl empty ↦
          let why = parameter_cannot_be_null (codes "key") in
          (refuse why, s.raft_node, rw empty refl, λ j other. refl, unfold After in inl refl)
      | inr full ↦
          let (r, w', p, keeps, after) =
            client_write-Writes (of_delete req) (delete (codes "k1")) s.raft_node refl refl in
          (written r, w', rw full (rw p refl), keeps, after)
    ]

    -- Whatever keys and values clients set and delete, in any order, if every write of openraft ends
    -- with entries applied that hold it and no other request, after a success one such entry at
    -- least: the changes end with a reply each, and the store that `get` and `exists` read is not
    -- changed by any of them. In the map of the state machine every key but "k1" keeps its value.
    -- Under "k1", each `set` with the reply of success leaves "v1" and each such `delete` nothing;
    -- one with an error as reply leaves that or what was there.
    pub carry_out-Follows :
        (changes : List Change) (s : Node)
        → (replies : List (Result Status CommonReply)) × (w' : C.World) × (carry_out changes s
            ≡ done replies (record s { raft_node = w' }))
          × ((j : Text) → eq_bytes j (codes "k1") ≡ false → seen j w' ≡ seen j s.raft_node)
          × Follows changes replies (seen (codes "k1") s.raft_node) (seen (codes "k1") w')
    unfolding carry_out Ends Follows
    carry_out-Follows [] s = ([], s.raft_node, refl, λ j other. refl, refl)
    carry_out-Follows (c ∷ changes) s =
        let (reply, w1, p1, keeps1, after) = change_lem c s in
        let (replies, w2, p2, keeps2, follows) =
          carry_out-Follows changes (record s { raft_node = w1 }) in
        (
          reply ∷ replies,
          w2,
          rw p1 (rw p2 refl),
          λ j other. keeps2 j other ∙ keeps1 j other,
          (seen (codes "k1") w1, after, follows),
        )
