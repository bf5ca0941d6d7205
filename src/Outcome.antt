-- ===== src/Outcome.antt =====
-- Calls that may end without a result: by an exception, by std::terminate, by reading out of range.
use kist_data_collector.Common.{◌≡◌, refl, subst, Option, none, some}

-- What follows a call is done only if there is a result.
infixl 5 ◌>>=◌
abbrev pub ◌>>=◌ {ℓ κ} : {A : Type ℓ} {B : Type κ} → Option A → (A → Option B) → Option B
none >>= f = none
some a >>= f = f a

-- There is a result, and the predicate holds of it.
unfoldable pub Holds {ℓ} : {A : Type ℓ} → (A → Type 0) → Option A → Type 0
Holds Q none = ⊥
Holds Q (some a) = Q a

pub Holds-bind {ℓ κ} :
    {A : Type ℓ} {B : Type κ} (Q : A → Type 0) (S : B → Type 0) (f : A → Option B) (o : Option A)
    → Holds Q o
    → ((a : A) → Q a → Holds S (f a))
    → Holds S (o >>= f)
unfolding Holds
Holds-bind Q S f none h k = elim h [ ]
Holds-bind Q S f (some a) h k = k a h

pub Holds-get {ℓ} :
    {A : Type ℓ} (Q : A → Type 0) (o : Option A) → Holds Q o → (a : A) × (o ≡ some a) × Q a
unfolding Holds
Holds-get Q none h = elim h [ ]
Holds-get Q (some a) h = (a, refl, h)

-- The predicate holds of the result, if there is one.
unfoldable pub Only {ℓ} : {A : Type ℓ} → (A → Type 0) → Option A → Type 0
Only Q none = Unit {0}
Only Q (some a) = Q a

pub Only-bind {ℓ κ} :
    {A : Type ℓ} {B : Type κ} (Q : A → Type 0) (S : B → Type 0) (f : A → Option B) (o : Option A)
    → Only Q o
    → ((a : A) → Q a → Only S (f a))
    → Only S (o >>= f)
unfolding Only
Only-bind Q S f none h k = tt
Only-bind Q S f (some a) h k = k a h

pub Only-any {ℓ κ} :
    {A : Type ℓ} {B : Type κ} (S : B → Type 0) (f : A → Option B) (o : Option A)
    → ((a : A) → Only S (f a))
    → Only S (o >>= f)
unfolding Only
Only-any S f none k = tt
Only-any S f (some a) k = k a

pub Only-some {ℓ} : {A : Type ℓ} (Q : A → Type 0) (a : A) → Q a → Only Q (some a)
unfolding Only
Only-some Q a h = h

pub Only-weaken {ℓ} :
    {A : Type ℓ} (Q S : A → Type 0) (o : Option A) → ((a : A) → Q a → S a) → Only Q o → Only S o
unfolding Only
Only-weaken Q S none k h = tt
Only-weaken Q S (some a) k h = k a h

pub Only-get {ℓ} :
    {A : Type ℓ} (Q : A → Type 0) (o : Option A) {a : A} → Only Q o → o ≡ some a → Q a
unfolding Only
Only-get Q o h e = subst (Only Q) e h
