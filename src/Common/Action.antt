-- ===== src/Common/Action.antt =====
-- What a handler does: it takes the state, and returns an outcome and the state that it leaves. An
-- error leaves what was written before it; only a transaction of the store is undone.
use mathlib.Core.Bool.{Bool, true, false}
use yet_another_memory_bank.Common.Tests.{if◌then◌else◌}
use yet_another_memory_bank.Common.Results.{Error, Outcome, ok, err, committed, database, Ensures}

abbrev pub Action : Type 0 → Type 0 → Type 0
Action S A = S → Outcome A × S

module _ {S A : Type 0} where
  unfoldable pub pure : A → Action S A
  pure a s = (ok a, s)

  unfoldable pub raise : Error → Action S A
  raise e s = (err e, s)

  -- a query that may fail
  unfoldable pub query : (S → Outcome A) → Action S A
  query f s = (f s, s)

  unfoldable pub gets : (S → A) → Action S A
  gets f s = (ok (f s), s)

  -- the end of a transaction that returns a value beside the new state
  abbrev pub settle : S → Outcome (A × S) → Outcome A × S
  settle s (ok r) = (ok r.0, r.1)
  settle s (err e) = (err e, s)

  unfoldable pub transact : (S → Outcome (A × S)) → Action S A
  transact f s = settle s (f s)

module _ {S : Type 0} where
  abbrev pub settle_ : S → Outcome S → Outcome (Unit {0}) × S
  settle_ s (ok s') = (ok tt, s')
  settle_ s (err e) = (err e, s)

  unfoldable pub transact_ : (S → Outcome S) → Action S (Unit {0})
  transact_ f s = settle_ s (f s)

  unfoldable pub modify : (S → S) → Action S (Unit {0})
  modify f s = (ok tt, f s)

  unfoldable pub require : Bool → Error → Action S (Unit {0})
  require true e s = (ok tt, s)
  require false e s = (err e, s)

-- what follows an outcome
abbrev pub proceed : {S A B : Type 0} → (A → Action S B) → Outcome A → S → Outcome B × S
proceed f (ok a) s = f a s
proceed f (err e) s = (err e, s)

infixl 5 ◌>>=◌ ◌>>◌
unfoldable pub ◌>>=◌ : {S A B : Type 0} → Action S A → (A → Action S B) → Action S B
◌>>=◌ m f s = proceed f (m s).0 (m s).1

unfoldable pub ◌>>◌ : {S B : Type 0} → Action S (Unit {0}) → Action S B → Action S B
unfolding ◌>>=◌
m >> k = m >>= λ _. k

-- `if err != nil { return …, e }`: any error becomes `e`
abbrev pub blame : {A : Type 0} → Error → Outcome A → Outcome A
blame e (ok a) = ok a
blame e (err x) = err e

-- What the action keeps, whether it fails or not.
pub record Keeps {ℓ} {S A : Type 0} (P : S → Type ℓ) (m : Action S A) : Type ℓ where
  pub apply : (s : S) → P s → P (m s).1

module _ {ℓ} {S : Type 0} (P : S → Type ℓ) where
  proceed-keeps :
      {A B : Type 0} (f : A → Action S B)
      → ((a : A) → Keeps P (f a))
      → (r : Outcome A) (s : S) → P s
      → P (proceed f r s).1
  proceed-keeps f k (ok a) s v = (k a).apply s v
  proceed-keeps f k (err e) s v = v

  require-keeps : (b : Bool) (e : Error) (s : S) → P s → P (require b e s).1
  unfolding require
  require-keeps true e s v = v
  require-keeps false e s v = v

  settle-keeps :
      {A : Type 0} (s : S) (r : Outcome (A × S)) → P (committed s (database r)) → P (settle s r).1
  settle-keeps s (ok r) v = v
  settle-keeps s (err e) v = v

  settle_-keeps : (s : S) (r : Outcome S) → P (committed s r) → P (settle_ s r).1
  settle_-keeps s (ok r) v = v
  settle_-keeps s (err e) v = v

module _ {ℓ} {S : Type 0} {P : S → Type ℓ} where
  pub Keeps-bind :
      {A B : Type 0} {m : Action S A} {f : A → Action S B}
      → Keeps P m
      → ((a : A) → Keeps P (f a))
      → Keeps P (m >>= f)
  unfolding ◌>>=◌
  Keeps-bind {m = m} {f = f} h k = record {
    apply = λ s v. proceed-keeps P f k (m s).0 (m s).1 (h.apply s v);
  }

  pub Keeps-then :
      {B : Type 0} {m : Action S (Unit {0})} {n : Action S B}
      → Keeps P m
      → Keeps P n
      → Keeps P (m >> n)
  unfolding ◌>>◌
  Keeps-then h k = Keeps-bind h (λ a. k)

  pub Keeps-if :
      {A : Type 0} (b : Bool) {m n : Action S A}
      → Keeps P m
      → Keeps P n
      → Keeps P (if b then m else n)
  Keeps-if true h k = h
  Keeps-if false h k = k

  pub Keeps-pure : {A : Type 0} (a : A) → Keeps P (pure {S = S} a)
  unfolding pure
  Keeps-pure a = record { apply = λ s v. v }

  pub Keeps-raise : {A : Type 0} (e : Error) → Keeps P (raise {S = S} {A = A} e)
  unfolding raise
  Keeps-raise e = record { apply = λ s v. v }

  pub Keeps-query : {A : Type 0} (f : S → Outcome A) → Keeps P (query f)
  unfolding query
  Keeps-query f = record { apply = λ s v. v }

  pub Keeps-gets : {A : Type 0} (f : S → A) → Keeps P (gets f)
  unfolding gets
  Keeps-gets f = record { apply = λ s v. v }

  pub Keeps-require : (b : Bool) (e : Error) → Keeps P (require {S = S} b e)
  unfolding require
  Keeps-require b e = record { apply = require-keeps P b e }

  pub Keeps-transact :
      {A : Type 0} (f : S → Outcome (A × S))
      → ((s : S) → P s → P (committed s (database (f s))))
      → Keeps P (transact f)
  unfolding transact
  Keeps-transact f h = record { apply = λ s v. settle-keeps P s (f s) (h s v) }

  pub Keeps-transact_ :
      (f : S → Outcome S) → ((s : S) → P s → P (committed s (f s))) → Keeps P (transact_ f)
  unfolding transact_
  Keeps-transact_ f h = record { apply = λ s v. settle_-keeps P s (f s) (h s v) }

  pub Keeps-modify : (f : S → S) → ((s : S) → P s → P (f s)) → Keeps P (modify f)
  unfolding modify
  Keeps-modify f h = record { apply = h }

-- What holds of the value and of the state after an action that does not fail.
abbrev pub After {ℓ} : {S A : Type 0} → (A → S → Type ℓ) → Outcome A × S → Type ℓ
After Q r = Ensures (λ a. Q a r.1) r.0

After-proceed {ℓ κ} :
    {S A B : Type 0} (Q : A → S → Type ℓ) (R : B → S → Type κ) (f : A → Action S B) (o : Outcome A)
    (s : S)
    → Ensures (λ a. Q a s) o
    → ((a : A) (s' : S) → Q a s' → After R (f a s'))
    → After R (proceed f o s)
After-proceed Q R f (ok a) s h k = k a s h
After-proceed Q R f (err e) s h k = tt

pub After-bind {ℓ κ} :
    {S A B : Type 0} (Q : A → S → Type ℓ) (R : B → S → Type κ) (m : Action S A) (f : A → Action S B)
    (s : S)
    → After Q (m s)
    → ((a : A) (s' : S) → Q a s' → After R (f a s'))
    → After R ((m >>= f) s)
unfolding ◌>>=◌
After-bind Q R m f s h k = After-proceed Q R f (m s).0 (m s).1 h k

-- A run that fails has no value, whatever is said of it.
pub After-and {ℓ κ} :
    {S A : Type 0} (P : S → Type ℓ) (Q : A → S → Type κ) (o : Outcome A) (s : S)
    → P s
    → After Q (o, s)
    → After (λ a s'. P s' × Q a s') (o, s)
After-and P Q (ok a) s p h = (p, h)
After-and P Q (err e) s p h = tt

pub ruleset keeps = (
  Keeps-bind, Keeps-then, Keeps-if, Keeps-pure, Keeps-raise, Keeps-query, Keeps-gets, Keeps-require,
)
