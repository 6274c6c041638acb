-- ===== src/Raft/Peers/Sent.antt =====
-- Which messages `PeersManager` sends when some of the peers cannot be reached.
use mathlib.Core.List.{map, append-nil, append_assoc}
use robustmq_geek.Prelude.{
  Bool, true, false, ◌≡◌, ◌∙◌, refl, sym, ap, Option, none, some, List, [], ◌∷◌, ◌++◌, Bytes, Text,
  Result, ok, err, done, panicked, if◌then◌else◌, ◌&&◌, Bool-cases, inl, inr, bind-done,
}
use robustmq_geek.Common.Errors.{Fault, Status}
use robustmq_geek.Raft.Peers.{PeerMessage, PeerClients, endpoint, deliver, start}

abbrev pub succeeded : {E A : Type 0} → Result E A → Bool
succeeded (ok _) = true
succeeded (err _) = false

-- Peers of which each can be reached, or cannot, the whole time. A connection sends nothing; a call
-- ends, in one way or the other, and is then among those that were made.
pub record Peers (C : PeerClients) : Type 0 where
  pub reached : Text → Bool
  pub sent : C.World → List (Text × Bytes)
  pub connect-ends :
      (url : Text) (w : C.World)
      → (r : Result Fault (Unit {0})) × (w' : C.World) × (C.connect url w ≡ done r w')
        × (succeeded r ≡ reached url)
        × (sent w' ≡ sent w)
  pub send-ends :
      (url : Text) (bytes : Bytes) (w : C.World)
      → (r : Result Status (Unit {0})) × (w' : C.World) × (C.send_raft_message url bytes w
          ≡ done r w')
        × (sent w' ≡ sent w ++ (url, bytes) ∷ [])

-- The messages that the channel gave.
unfoldable pub messages : List (Option PeerMessage) → List PeerMessage
messages [] = []
messages (some m ∷ received) = m ∷ messages received
messages (none ∷ received) = messages received

abbrev pub call : PeerMessage → Text × Bytes
call m = (endpoint m, m.payload)

-- The elements before the first that fails a test, and whether none does.
unfoldable pub before_failing : {A : Type 0} → (A → Bool) → List A → List A
before_failing test [] = []
before_failing test (x ∷ xs) = let rest = before_failing test xs in if test x then x ∷ rest else []

unfoldable pub all_pass : {A : Type 0} → (A → Bool) → List A → Bool
all_pass test [] = true
all_pass test (x ∷ xs) = test x && all_pass test xs

module _ ⦃C : PeerClients⦄ (P : Peers C) where
  abbrev pub can_reach : PeerMessage → Bool
  can_reach m = P.reached (endpoint m)

  -- A message to a peer that can be reached, and one to a peer that cannot.
  unfoldable Delivers : PeerMessage → C.World → Type 0
  Delivers m w =
      (w' : C.World) × (P.sent w' ≡ P.sent w ++ (if can_reach m then call m ∷ [] else []))
      × (deliver m w ≡ (if can_reach m then done tt w' else panicked w'))

  deliver_connected :
      (m : PeerMessage) (w w1 : C.World) (r : Result Fault (Unit {0}))
      → C.connect (endpoint m) w ≡ done r w1
      → succeeded r ≡ can_reach m
      → P.sent w1 ≡ P.sent w
      → Delivers m w
  unfolding deliver Delivers
  deliver_connected m w w1 (ok u) p reached same =
      let (r2, w2, p2, same2) = P.send-ends (endpoint m) m.payload w1 in
      rw (sym reached) (w2, same2 ∙ ap (λ l. l ++ call m ∷ []) same, rw p (rw p2 refl))
  deliver_connected m w w1 (err e) p reached same =
      rw (sym reached) (w1, same ∙ sym (append-nil (P.sent w)), rw p refl)

  deliver_lem : (m : PeerMessage) (w : C.World) → Delivers m w
  deliver_lem m w =
      let (r, w1, p, reached, same) = P.connect-ends (endpoint m) w in
      deliver_connected m w w1 r p reached same

  -- If each peer can be reached, or cannot, the whole time, and every connection and every call ends:
  -- of the messages that it receives, `start` makes the calls for those before the first one whose
  -- peer cannot be reached, in order and each once, whatever the peers answer. If all peers can be
  -- reached it goes on to the end; if not it panics, and of the messages after that one none is
  -- sent, to whichever peer.
  pub start-before_failing :
      (received : List (Option PeerMessage)) (w : C.World)
      → (w' : C.World) × (P.sent w'
          ≡ P.sent w ++ map call (before_failing can_reach (messages received)))
        × (start received w
            ≡ (if all_pass can_reach (messages received) then done tt w' else panicked w'))
  unfolding start messages before_failing all_pass Delivers
  start-before_failing [] w = (w, sym (append-nil (P.sent w)), refl)
  start-before_failing (none ∷ received) w = start-before_failing received w
  start-before_failing (some m ∷ received) w =
      let (w1, s1, p1) = deliver_lem m w in
      elim (Bool-cases (can_reach m)) [
        | inl can ↦
            let (w2, s2, p2) = start-before_failing received w1 in
            rw can (
              w2,
              s2
                  ∙ ap (λ l. l ++ map call (before_failing can_reach (messages received)))
                      (rw can at s1)
                  ∙ append_assoc (P.sent w) (call m ∷ [])
                      (map call (before_failing can_reach (messages received))),
              bind-done (deliver m) (λ _. start received) (rw can at p1) ∙ p2,
            )
        | inr cannot ↦ rw cannot (w1, (rw cannot at s1), rw (rw cannot at p1) refl)
      ]
