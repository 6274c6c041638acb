-- ===== src/Prelude/Results.antt =====
-- What a Rust call comes to: `Result`, and a run over a state that returns or panics.
use mathlib.Core.Path.{◌≡◌, refl, ap}
use mathlib.Core.Logic.{◌⊎◌, inl, inr}
use mathlib.Core.Bool.{Bool, false}
use mathlib.Core.Option.{Option, none, some}
use robustmq_geek.Prelude.Tests.{if◌then◌else◌}

pub data Result {ℓ κ} (E : Type κ) (A : Type ℓ) : Type (ℓ ⊔ κ) where
  ok : A → Result E A
  err : E → Result E A

-- A call over a state that it changes in place. A panic leaves what was written before it, since
-- what was written to the disk stays there.
pub data Run {ℓ} (S A : Type ℓ) : Type ℓ where
  done : A → S → Run S A
  panicked : S → Run S A

abbrev pub Action {ℓ} : Type ℓ → Type ℓ → Type ℓ
Action S A = S → Run S A

abbrev pub continue {ℓ} : {S A B : Type ℓ} → Run S A → (A → Action S B) → Run S B
continue (done a s) f = f a s
continue (panicked s) f = panicked s

infixl 5 ◌>>=◌ ◌>>◌
abbrev pub ◌>>=◌ {ℓ} : {S A B : Type ℓ} → Action S A → (A → Action S B) → Action S B
◌>>=◌ m f s = continue (m s) f

abbrev pub ◌>>◌ {ℓ} : {S A B : Type ℓ} → Action S A → Action S B → Action S B
m >> k = m >>= λ _. k

abbrev pub pure {ℓ} : {S A : Type ℓ} → A → Action S A
pure a s = done a s

abbrev pub panic {ℓ} : {S A : Type ℓ} → Action S A
panic s = panicked s

abbrev pub gets {ℓ} : {S A : Type ℓ} → (S → A) → Action S A
gets f s = done (f s) s

abbrev pub modify : {S : Type 0} → (S → S) → Action S (Unit {0})
modify f s = done tt (f s)

-- `.unwrap()`
abbrev pub unwrap {ℓ} : {S A E : Type ℓ} → Result E A → Action S A
unwrap (ok a) s = done a s
unwrap (err e) s = panicked s

abbrev pub unwrap_some {ℓ} : {S A : Type ℓ} → Option A → Action S A
unwrap_some (some a) s = done a s
unwrap_some none s = panicked s

abbrev pub restored {ℓ} : {S T A : Type ℓ} → (T → S → S) → S → Run T A → Run S A
restored put s (done a t) = done a (put t s)
restored put s (panicked t) = panicked (put t s)

-- An action on a part of the state.
abbrev pub within {ℓ} : {S T A : Type ℓ} → (S → T) → (T → S → S) → Action T A → Action S A
within get put m s = restored put s (m (get s))

-- The operator `?` after a call, before the rest of the body.
abbrev pub question {ℓ} :
    {S A B E : Type ℓ} → Action S (Result E A) → (A → Action S (Result E B)) → Action S (Result E B)
question m f = m >>= λ r. elim r [ ok a ↦ f a | err e ↦ pure (err e) ]

-- `.map_err(f)`
abbrev pub map_err {ℓ} : {E F A : Type ℓ} → (E → F) → Result E A → Result F A
map_err f (ok a) = ok a
map_err f (err e) = err (f e)

-- `.ok()`
abbrev pub ok_of {ℓ} : {E A : Type ℓ} → Result E A → Option A
ok_of (ok a) = some a
ok_of (err e) = none

pub Result-cases {ℓ κ} :
    {E : Type κ} {A : Type ℓ} (r : Result E A) → ((a : A) × (r ≡ ok a)) ⊎ ((e : E) × (r ≡ err e))
Result-cases (ok a) = inl (a, refl)
Result-cases (err e) = inr (e, refl)

pub panicked-done {ℓ} : {S A : Type ℓ} {a : A} {s t : S} → panicked s ≡ done a t → ⊥
panicked-done p = cc

pub done-injective {ℓ} :
    {S A : Type ℓ} {a b : A} {s t : S} → done a s ≡ done b t → (a ≡ b) × (s ≡ t)
done-injective p = (cc, cc)

-- A run that begins with a call that returns goes on from there.
pub bind-done {ℓ} :
    {S A B : Type ℓ} (m : Action S A) (f : A → Action S B) {s s' : S} {a : A}
    → m s ≡ done a s'
    → (m >>= f) s ≡ f a s'
bind-done m f p = ap (λ r. continue r f) p

pub question-ok {ℓ} :
    {S A B E : Type ℓ} (m : Action S (Result E A)) (f : A → Action S (Result E B)) {s s' : S}
    {a : A}
    → m s ≡ done (ok a) s'
    → question m f s ≡ f a s'
question-ok m f p = ap (λ r. continue r (λ x. elim x [ ok a ↦ f a | err e ↦ pure (err e) ])) p

-- A run of two calls that returns is one in which both do.
pub continue-returns {ℓ} :
    {S A B : Type ℓ} (r : Run S A) (f : A → Action S B) (b : B) (s : S)
    → continue r f ≡ done b s
    → (a : A) × (s' : S) × (r ≡ done a s') × (f a s' ≡ done b s)
continue-returns (done a s') f b s p = (a, s', refl, p)
continue-returns (panicked s') f b s p = elim (panicked-done p) [ ]

pub unwrap-returns {ℓ} :
    {S A E : Type ℓ} (r : Result E A) (a : A) (s s' : S)
    → unwrap r s ≡ done a s'
    → (r ≡ ok a) × (s ≡ s')
unwrap-returns (ok b) a s s' p = (ap ok (done-injective p).0, (done-injective p).1)
unwrap-returns (err e) a s s' p = elim (panicked-done p) [ ]

pub unwrap_some-returns {ℓ} :
    {S A : Type ℓ} (o : Option A) (a : A) (s s' : S)
    → unwrap_some o s ≡ done a s'
    → (o ≡ some a) × (s ≡ s')
unwrap_some-returns (some b) a s s' p = (ap some (done-injective p).0, (done-injective p).1)
unwrap_some-returns none a s s' p = elim (panicked-done p) [ ]

pub bind_assoc {ℓ} :
    {S A B D : Type ℓ} (r : Run S A) (f : A → Action S B) (g : B → Action S D)
    → continue (continue r f) g ≡ continue r (λ a. f a >>= g)
bind_assoc (done a s) f g = refl
bind_assoc (panicked s) f g = refl

pub bind-panicked {ℓ} :
    {S A B : Type ℓ} (m : Action S A) (f : A → Action S B) {s s' : S}
    → m s ≡ panicked s'
    → (m >>= f) s ≡ panicked s'
bind-panicked m f p = ap (λ r. continue r f) p

pub if-false {ℓ} :
    {S A : Type ℓ} (b : Bool) (m n : Action S A) (s : S) → b ≡ false → (if b then m else n) s ≡ n s
if-false b m n s h = rw h

-- Two ways to go on that agree wherever a run may return make the same of it.
pub continue_congr {ℓ} :
    {S A B : Type ℓ} (r : Run S A) (f g : A → Action S B)
    → ((a : A) (s : S) → f a s ≡ g a s)
    → continue r f ≡ continue r g
continue_congr (done a s) f g h = h a s
continue_congr (panicked s) f g h = refl
