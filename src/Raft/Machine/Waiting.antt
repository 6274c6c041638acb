-- ===== src/Raft/Machine/Waiting.antt =====
-- The table of senders that wait for their entries: how often a sender is in it, and the sequence
-- numbers under which it has any.
use robustmq_geek.Prelude.{
  ℕ, suc, ◌+◌, ◌<◌, ◌≡◌, refl, none, some, List, [], ◌∷◌, ◌==◌, if◌then◌else◌, arith,
}
use robustmq_geek.Prelude.Dict.{Dict, lookup, insert, remove, lookup-insert, lookup-remove}
use robustmq_geek.Raft.Proposal.{Waited}

-- 1 if the two are the same, and 0 if not.
abbrev pub hits : ℕ → ℕ → ℕ
hits j c = if j == c then 1 else 0

unfoldable pub times_waiting : ℕ → Dict ℕ → ℕ
times_waiting j [] = 0
times_waiting j ((k, c) ∷ d) = hits j c + times_waiting j d

abbrev pub times_settled : ℕ → List (ℕ × Waited) → ℕ
times_settled j [] = 0
times_settled j ((c, _) ∷ l) = hits j c + times_settled j l

abbrev pub KeysBelow : ℕ → Dict ℕ → Type 0
KeysBelow n [] = Unit
KeysBelow n ((k, _) ∷ d) = (k < n) × KeysBelow n d

abbrev pub IsDistinct : Dict ℕ → Type 0
IsDistinct [] = Unit
IsDistinct ((k, _) ∷ d) = (lookup k d ≡ none) × IsDistinct d

pub KeysBelow-suc : (n : ℕ) (d : Dict ℕ) → KeysBelow n d → KeysBelow (suc n) d
KeysBelow-suc n [] h = tt
KeysBelow-suc n ((k, c) ∷ d) h = (omega arith, KeysBelow-suc n d h.1)

pub lookup-KeysBelow : (n : ℕ) (d : Dict ℕ) → KeysBelow n d → lookup n d ≡ none
unfolding lookup
lookup-KeysBelow n [] h = refl
lookup-KeysBelow n ((k, c) ∷ d) h = ground (arith, lookup-KeysBelow n d h.1)

pub insert-KeysBelow : (n k c : ℕ) (d : Dict ℕ) → k < n → KeysBelow n d → KeysBelow n (insert k c d)
unfolding insert
insert-KeysBelow n k c [] lt h = (lt, tt)
insert-KeysBelow n k c ((j, x) ∷ d) lt h = ground (arith, insert-KeysBelow n k c d lt h.1)

pub remove-KeysBelow : (n k : ℕ) (d : Dict ℕ) → KeysBelow n d → KeysBelow n (remove k d)
unfolding remove
remove-KeysBelow n k [] h = tt
remove-KeysBelow n k ((j, x) ∷ d) h = ground (arith, remove-KeysBelow n k d h.1)

pub insert-IsDistinct : (k c : ℕ) (d : Dict ℕ) → IsDistinct d → IsDistinct (insert k c d)
unfolding insert lookup
insert-IsDistinct k c [] h = (refl, tt)
insert-IsDistinct k c ((j, x) ∷ d) h =
    ground (arith, insert-IsDistinct k c d h.1, lookup-insert j k c d)

pub remove-IsDistinct : (k : ℕ) (d : Dict ℕ) → IsDistinct d → IsDistinct (remove k d)
unfolding remove
remove-IsDistinct k [] h = tt
remove-IsDistinct k ((j, x) ∷ d) h = ground (arith, remove-IsDistinct k d h.1, lookup-remove j k d)

pub times_waiting-insert :
    (j k c : ℕ) (d : Dict ℕ)
    → lookup k d ≡ none
    → times_waiting j (insert k c d) ≡ hits j c + times_waiting j d
unfolding times_waiting insert lookup
times_waiting-insert j k c [] h = refl
times_waiting-insert j k c ((i, x) ∷ d) h = ground (arith, times_waiting-insert j k c d)

pub times_waiting-remove-none :
    (j k : ℕ) (d : Dict ℕ) → lookup k d ≡ none → times_waiting j (remove k d) ≡ times_waiting j d
unfolding times_waiting remove lookup
times_waiting-remove-none j k [] h = refl
times_waiting-remove-none j k ((i, x) ∷ d) h = ground (arith, times_waiting-remove-none j k d)

pub times_waiting-remove :
    (j k c : ℕ) (d : Dict ℕ)
    → IsDistinct d
    → lookup k d ≡ some c
    → hits j c + times_waiting j (remove k d) ≡ times_waiting j d
unfolding times_waiting remove lookup
times_waiting-remove j k c [] u h = cc
times_waiting-remove j k c ((i, x) ∷ d) u h =
    ground (arith, times_waiting-remove j k c d, times_waiting-remove-none j k d)
