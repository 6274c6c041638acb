-- ===== src/Prelude/Outcomes.antt =====
-- Statements about the runs that return: a condition on the value and the state at the end.
use mathlib.Core.Bool.{Bool, true, false}
use robustmq_geek.Prelude.Tests.{if◌then◌else◌}
use robustmq_geek.Prelude.Results.{
  Result, ok, err, Run, done, panicked, Action, continue, ◌>>=◌, unwrap,
}

-- If the run returns, the condition holds.
abbrev pub Ensures {ℓ} : {S A : Type ℓ} → (A → S → Type 0) → Run S A → Type 0
Ensures Q (done a s) = Q a s
Ensures Q (panicked s) = Unit

-- From a state with the first condition a returning run leads to one with the second.
abbrev pub Leads {ℓ} : {S A : Type ℓ} → (S → Type 0) → (A → S → Type 0) → Action S A → Type ℓ
Leads {S} P Q m = (s : S) → P s → Ensures Q (m s)

abbrev pub Keeps {ℓ} : {S A : Type ℓ} → (S → Type 0) → Action S A → Type ℓ
Keeps P m = Leads P (λ _. P) m

module _ {ℓ} {S A B : Type ℓ} where
  pub Ensures-continue :
      (Q : A → S → Type 0) (Q' : B → S → Type 0) (r : Run S A) (f : A → Action S B)
      → Ensures Q r
      → ((a : A) (s : S) → Q a s → Ensures Q' (f a s))
      → Ensures Q' (continue r f)
  Ensures-continue Q Q' (done a s) f h k = k a s h
  Ensures-continue Q Q' (panicked s) f h k = tt

  pub Leads->>= :
      (P : S → Type 0) (Q : A → S → Type 0) (Q' : B → S → Type 0) (m : Action S A)
      (f : A → Action S B)
      → Leads P Q m
      → ((a : A) (s : S) → Q a s → Ensures Q' (f a s))
      → Leads P Q' (m >>= f)
  Leads->>= P Q Q' m f h k s p = Ensures-continue Q Q' (m s) f (h s p) k

  pub Keeps->>= :
      (P : S → Type 0) (m : Action S A) (f : A → Action S B)
      → Keeps P m
      → ((a : A) → Keeps P (f a))
      → Keeps P (m >>= f)
  Keeps->>= P m f h k = Leads->>= P (λ _. P) (λ _. P) m f h k

pub Ensures-weaken {ℓ} :
    {S A : Type ℓ} (Q Q' : A → S → Type 0) (r : Run S A)
    → ((a : A) (s : S) → Q a s → Q' a s)
    → Ensures Q r
    → Ensures Q' r
Ensures-weaken Q Q' (done a s) f h = f a s h
Ensures-weaken Q Q' (panicked s) f h = tt

module _ {ℓ} {S A : Type ℓ} (P : S → Type 0) where
  pub Keeps-if :
      (b : Bool) (m n : Action S A) → Keeps P m → Keeps P n → Keeps P (if b then m else n)
  Keeps-if true m n h k = h
  Keeps-if false m n h k = k

  pub Keeps-unwrap : {E : Type ℓ} (r : Result E A) → Keeps P (unwrap {S = S} r)
  Keeps-unwrap (ok a) s p = p
  Keeps-unwrap (err e) s p = tt
