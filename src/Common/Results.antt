-- ===== src/Common/Results.antt =====
-- A Go result `(value, error)`: one of the two is meant. `do` blocks stand for `if err != nil`.
use mathlib.Core.Bool.{Bool, true, false}
use mathlib.Core.Path.{◌≡◌, refl, ◌∙◌}

-- The errors that the modelled code makes or passes on, by their cause.
pub data Error : Type 0 where
  id_required not_found bad_supersession : Error
  foreign_key unique_key : Error
  no_model no_vector wrong_dim wrong_length bad_encoding : Error
  fts5_unavailable embed_failed circuit_open no_url : Error
  bad_request method_not_allowed unauthorized : Error
  bad_json bad_argument bad_migration : Error
  unknown_name not_ready : Error

pub data Outcome {ℓ} (A : Type ℓ) : Type ℓ where
  ok : A → Outcome A
  err : Error → Outcome A

infixl 5 ◌>>=◌ ◌>>◌
abbrev pub ◌>>=◌ {ℓ κ} : {A : Type ℓ} {B : Type κ} → Outcome A → (A → Outcome B) → Outcome B
ok a >>= f = f a
err e >>= f = err e

abbrev pub ◌>>◌ {ℓ} : {B : Type ℓ} → Outcome (Unit {0}) → Outcome B → Outcome B
m >> k = m >>= λ _. k

-- `if !b { return err }`
abbrev pub guard : Bool → Error → Outcome (Unit {0})
guard true e = ok tt
guard false e = err e

-- What holds of the value, if there is one.
abbrev pub Ensures {ℓ κ} : {A : Type ℓ} → (A → Type κ) → Outcome A → Type κ
Ensures P (ok a) = P a
Ensures P (err e) = Unit

-- The state after a transaction: an error rolls it back.
abbrev pub committed {ℓ} : {S : Type ℓ} → S → Outcome S → S
committed s (ok s') = s'
committed s (err e) = s

pub Ensures-bind {ℓ κ μ ν} :
    {A : Type ℓ} {B : Type κ} (P : A → Type μ) (Q : B → Type ν) (m : Outcome A) (f : A → Outcome B)
    → Ensures P m
    → ((a : A) → P a → Ensures Q (f a))
    → Ensures Q (m >>= f)
Ensures-bind P Q (ok a) f h k = k a h
Ensures-bind P Q (err e) f h k = tt

pub committed-Ensures {ℓ κ} :
    {S : Type ℓ} (P : S → Type κ) (s : S) (r : Outcome S) → P s → Ensures P r → P (committed s r)
committed-Ensures P s (ok s') h k = k
committed-Ensures P s (err e) h k = h

-- The database of a result that has a value beside it.
abbrev pub database {ℓ κ} : {A : Type ℓ} {S : Type κ} → Outcome (A × S) → Outcome S
database (ok (a, s)) = ok s
database (err e) = err e

pub Ensures-imp {ℓ κ μ} :
    {A : Type ℓ} (P : A → Type κ) (Q : A → Type μ) (m : Outcome A)
    → ((a : A) → P a → Q a)
    → Ensures P m
    → Ensures Q m
Ensures-imp P Q (ok a) f h = f a h
Ensures-imp P Q (err e) f h = tt

-- What holds of every value of an outcome holds of its value.
pub Ensures-all {ℓ κ} :
    {A : Type ℓ} (P : A → Type κ) (m : Outcome A) → ((a : A) → P a) → Ensures P m
Ensures-all P (ok a) f = f a
Ensures-all P (err e) f = tt

-- What holds of the value that an outcome has.
pub Ensures-value {ℓ κ} :
    {A : Type ℓ} (P : A → Type κ) (m : Outcome A) → ((a : A) → m ≡ ok a → P a) → Ensures P m
Ensures-value P (ok a) f = f a refl
Ensures-value P (err e) f = tt

pub Ensures-and {ℓ κ μ} :
    {A : Type ℓ} (P : A → Type κ) (Q : A → Type μ) (m : Outcome A)
    → Ensures P m
    → Ensures Q m
    → Ensures (λ a. P a × Q a) m
Ensures-and P Q (ok a) h k = (h, k)
Ensures-and P Q (err e) h k = tt

abbrev pub is_ok {ℓ} : {A : Type ℓ} → Outcome A → Bool
is_ok (ok a) = true
is_ok (err e) = false

-- A chain that fails nowhere after its first step.
pub is_ok-bind_eq {ℓ κ μ} :
    {A : Type ℓ} {B : Type κ} (P : A → Type μ) (m : Outcome A) (f : A → Outcome B)
    → Ensures P m
    → ((a : A) → P a → is_ok (f a) ≡ true)
    → is_ok (m >>= f) ≡ is_ok m
is_ok-bind_eq P (ok a) f h k = k a h
is_ok-bind_eq P (err x) f h k = refl

pub is_ok-bind {ℓ κ μ} :
    {A : Type ℓ} {B : Type κ} (P : A → Type μ) (m : Outcome A) (f : A → Outcome B)
    → is_ok m ≡ true
    → Ensures P m
    → ((a : A) → P a → is_ok (f a) ≡ true)
    → is_ok (m >>= f) ≡ true
is_ok-bind P m f e h k = is_ok-bind_eq P m f h k ∙ e

-- What a transaction that returns a value leaves.
pub committed-database {ℓ κ μ} :
    {A : Type ℓ} {S : Type κ} (P : S → Type μ) (s : S) (m : Outcome (A × S))
    → P s
    → Ensures (λ r. P r.1) m
    → P (committed s (database m))
committed-database P s (ok r) h k = k
committed-database P s (err e) h k = h
