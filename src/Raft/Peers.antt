-- ===== src/Raft/Peers.antt =====
-- placement-center/src/raft/peer.rs: `PeersManager`, which sends the messages of the raft machine to
-- the other nodes.
pub mod Sent
use robustmq_geek.Prelude.{
  ◌≡◌, ◌∙◌, refl, Option, none, some, List, [], ◌∷◌, ◌++◌, Bytes, Text, codes, Result, err, done,
  panicked, Action, ◌>>=◌, ◌>>◌, pure, unwrap, bind-done, continue_congr, bind_assoc, sym,
}
use robustmq_geek.Common.Errors.{Fault, Status}

pub record PeerMessage : Type 0 where
  pub to : Text
  pub payload : Bytes

-- The client of the service, by the endpoint that it is connected to.
pub record PeerClients : Type 1 where
  pub World : Type 0
  pub connect : Text → Action World (Result Fault (Unit {0}))
  pub send_raft_message : Text → Bytes → Action World (Result Status (Unit {0}))

abbrev pub endpoint : PeerMessage → Text
endpoint m = codes "http://" ++ m.to

module _ ⦃C : PeerClients⦄ where
  -- An error of the call is written to the log only.
  unfoldable pub deliver : PeerMessage → Action C.World (Unit {0})
  deliver m = do
    connected ← C.connect (endpoint m)
    unwrap connected
    result ← C.send_raft_message (endpoint m) m.payload
    pure tt

  -- The turns of the loop over what `recv` gives, of which a closed channel gives nothing for ever.
  unfoldable pub start : List (Option PeerMessage) → Action C.World (Unit {0})
  unfolding deliver
  start [] = pure tt
  start (some m ∷ received) = deliver m >> start received
  start (none ∷ received) = start received
