-- ===== src/OpenRaft/Nodes/Initial.antt =====
-- Which node initializes the cluster: the one with the least id in the configuration.
use mathlib.Core.Path.{subst}
use robustmq_geek.OpenRaft.Node.{Node}
use robustmq_geek.Prelude.{
  ℕ, ◌≡◌, ◌∙◌, ◌⊎◌, refl, sym, ap, inl, inr, Bool, true, false, none, some, List, [], ◌∷◌, Text,
  pure, ◌==◌, done, is_empty, if◌then◌else◌, arith, Option-cases,
}
use robustmq_geek.External.Toml.{Toml}
use robustmq_geek.Common.Config.{PlacementCenterConfig}
use robustmq_geek.Raft.Metadata.Start.{parse_u64}
use robustmq_geek.OpenRaft.Nodes.Least.{
  lower, least, ids_of, AtLeast, first_of-sort, least-insert_node, AtLeast-lower, lower-cases,
}
use robustmq_geek.OpenRaft.Nodes.{
  NodeMap, insert_node, calc_init_node, nodes_of, RaftStart, initialize_once, start_openraft_node,
  unquoted,
}

some-injective : {A : Type 0} {a b : A} → some a ≡ some b → a ≡ b
some-injective p = cc

true-false : true ≡ false → ⊥
true-false q = cc

if-app :
    {A B : Type 0} (c : Bool) (f g : A → B) (x : A)
    → (if c then f else g) x ≡ (if c then f x else g x)
if-app true f g x = refl
if-app false f g x = refl

none-some : {A : Type 0} {a : A} → none ≡ some a → ⊥
none-some q = cc

module _ ⦃T : Toml⦄ where
  -- An id stands in the table of nodes.
  abbrev pub Among : ℕ → List (Text × T.Value) → Type 0
  Among i [] = ⊥
  Among i ((node_id, _) ∷ entries) = (parse_u64 node_id ≡ some i) ⊎ Among i entries

  -- No id of the table is lower.
  abbrev pub NoneBelow : ℕ → List (Text × T.Value) → Type 0
  NoneBelow i [] = Unit
  NoneBelow i ((node_id, _) ∷ entries) = AtLeast i (parse_u64 node_id) × NoneBelow i entries

  nodes_of-fails :
      (node_id : Text) (addr : T.Value) (entries : List (Text × T.Value)) (before : NodeMap)
      → parse_u64 node_id ≡ none
      → nodes_of ((node_id, addr) ∷ entries) before ≡ none
  unfolding nodes_of
  nodes_of-fails node_id addr entries before fails = rw (fails, nodes_of) refl

  abbrev node_of : ℕ → T.Value → Node
  node_of k addr = record { node_id = k; rpc_addr = unquoted (T.to_string addr) }

  nodes_of-parses :
      (node_id : Text) (addr : T.Value) (entries : List (Text × T.Value)) (before : NodeMap) (k : ℕ)
      → parse_u64 node_id ≡ some k
      → nodes_of ((node_id, addr) ∷ entries) before
        ≡ nodes_of entries (insert_node k (node_of k addr) before)
  unfolding nodes_of
  nodes_of-parses node_id addr entries before k parses = rw (parses, nodes_of) refl

  abbrev FromOrAmong : ℕ → NodeMap → List (Text × T.Value) → Type 0
  FromOrAmong i before entries = (least (ids_of before) ≡ some i) ⊎ Among i entries

  least-nodes_of :
      (i : ℕ) (entries : List (Text × T.Value)) (before nodes : NodeMap)
      → nodes_of entries before ≡ some nodes
      → least (ids_of nodes) ≡ some i
      → AtLeast i (least (ids_of before)) × NoneBelow i entries × FromOrAmong i before entries
  unfolding nodes_of
  least-nodes_of i [] before nodes p l =
      let q = ap (λ x. least (ids_of x)) (some-injective p) ∙ l in
      (subst (AtLeast i) (sym q) (omega arith), tt, inl q)
  least-nodes_of i ((node_id, addr) ∷ entries) before nodes p l =
      elim (Option-cases (parse_u64 node_id)) [
        | inl fails ↦
            elim (none-some (sym (nodes_of-fails node_id addr entries before fails) ∙ p)) [ ]
        | inr (k, parses) ↦
            let after = insert_node k (node_of k addr) before in
            let (above, below, from) =
              least-nodes_of i entries after nodes
                (sym (nodes_of-parses node_id addr entries before k parses) ∙ p) l in
            joined i k entries before node_id parses
              (subst (AtLeast i) (least-insert_node k (node_of k addr) before) above) below
              (elim from [
                | inl q ↦ inl (sym (least-insert_node k (node_of k addr) before) ∙ q)
                | inr there ↦ inr there
              ])
      ]
    where
      joined :
          (i k : ℕ) (entries : List (Text × T.Value)) (before : NodeMap) (node_id : Text)
          → parse_u64 node_id ≡ some k
          → AtLeast i (some (lower k (least (ids_of before))))
          → NoneBelow i entries
          → (some (lower k (least (ids_of before))) ≡ some i) ⊎ Among i entries
          → AtLeast i (least (ids_of before))
            × (AtLeast i (parse_u64 node_id) × NoneBelow i entries)
            × ((least (ids_of before) ≡ some i) ⊎ ((parse_u64 node_id ≡ some i) ⊎ Among i entries))
      joined i k entries before node_id parses above below from =
          let (low, rest) = AtLeast-lower i k (least (ids_of before)) above in
          (
            rest,
            (subst (AtLeast i) (sym parses) low, below),
            elim from [
              | inl q ↦ elim (lower-cases k (least (ids_of before))) [
                | inl here ↦ inr (inl (parses ∙ ap some (sym here) ∙ q))
                | inr there ↦ inl (there ∙ q)
              ]
              | inr there ↦ inr (inr there)
            ],
          )

  -- Some node is among those of a table that is not empty.
  nodes_of-none :
      (entries : List (Text × T.Value)) (before nodes : NodeMap)
      → nodes_of entries before ≡ some nodes
      → least (ids_of nodes) ≡ none
      → (least (ids_of before) ≡ none) × (is_empty entries ≡ true)
  unfolding nodes_of
  nodes_of-none [] before nodes p l = (ap (λ x. least (ids_of x)) (some-injective p) ∙ l, refl)
  nodes_of-none ((node_id, addr) ∷ entries) before nodes p l =
      elim (Option-cases (parse_u64 node_id)) [
        | inl fails ↦
            elim (none-some (sym (nodes_of-fails node_id addr entries before fails) ∙ p)) [ ]
        | inr (k, parses) ↦
            let (missing, _) =
              nodes_of-none entries (insert_node k (node_of k addr) before) nodes
                (sym (nodes_of-parses node_id addr entries before k parses) ∙ p) l in
            elim (none-some (sym missing ∙ least-insert_node k (node_of k addr) before)) [ ]
      ]

  -- Of the nodes that start with one table of nodes, not empty and with ids that parse, only the one with the least id of the table
  -- may initialize the cluster: it asks whether the cluster is initialized and initializes it if it
  -- is not, with all the nodes of the table; every other one does nothing.
  pub start_openraft_node-initial :
      ⦃R : RaftStart⦄ (conf : PlacementCenterConfig T.Value) (nodes : NodeMap) (w : R.World)
      → is_empty conf.nodes ≡ false
      → nodes_of conf.nodes [] ≡ some nodes
      → (i : ℕ) × Among i conf.nodes
        × NoneBelow i conf.nodes
        × (start_openraft_node conf w
            ≡ (if i == conf.node_id then initialize_once nodes w else done tt w))
  unfolding start_openraft_node calc_init_node least
  start_openraft_node-initial conf nodes w full p = elim (Option-cases (least (ids_of nodes))) [
    | inl nothing ↦
        elim (true-false (sym (nodes_of-none conf.nodes [] nodes p nothing).1 ∙ full)) [ ]
    | inr (i, l) ↦
        let (_, below, from) = least-nodes_of i conf.nodes [] nodes p l in
        (
          i,
          elim from [ inl q ↦ elim (none-some q) [ ] | inr there ↦ there ],
          below,
          rw (p, first_of-sort (ids_of nodes) ∙ l)
              (if-app (i == conf.node_id) (initialize_once nodes) (pure tt) w),
        )
  ]
