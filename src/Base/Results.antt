-- ===== src/Base/Results.antt =====
-- What a piece of C code comes to: a value, `exit(status)`, undefined behaviour (an access out of
-- range, a dangling pointer), or no end within the rounds that a loop was given.
use Prim.Native.Nat.{ℕ}
use mathlib.Core.Path.{◌≡◌, refl}
use mathlib.Core.Logic.{◌≢◌}
use mathlib.Core.Bool.{Bool, true, false}
use mathlib.Core.Option.{Option, none, some}

pub data Res {ℓ} (A : Type ℓ) : Type ℓ where
  ok : A → Res A
  exit : ℕ → Res A
  fault : Res A
  running : Res A

infixl 5 ◌>>◌
module _ {ℓ κ} {A : Type ℓ} {B : Type κ} where
  infixl 5 ◌>>=◌
  abbrev pub ◌>>=◌ : Res A → (A → Res B) → Res B
  running >>= next = running
  fault >>= next = fault
  exit status >>= next = exit status
  ok x >>= next = next x

abbrev pub ◌>>◌ {κ} : {B : Type κ} → Res (Unit {0}) → Res B → Res B
first >> second = first >>= λ _. second

-- An access that is undefined behaviour unless the test holds.
abbrev pub within : Bool → Res (Unit {0})
within true = ok tt
within false = fault

abbrev pub or_fault {ℓ} : {A : Type ℓ} → Option A → Res A
or_fault none = fault
or_fault (some a) = ok a

-- A `do` block that came to a value took its first step.
module _ {ℓ κ} {A : Type ℓ} {B : Type κ} where
  pub >>=-eq-ok :
      (r : Res A) (next : A → Res B) {out : B}
      → (r >>= next) ≡ ok out
      → (x : A) × (r ≡ ok x) × (next x ≡ ok out)
  >>=-eq-ok running next came = cc
  >>=-eq-ok fault next came = cc
  >>=-eq-ok (exit status) next came = cc
  >>=-eq-ok (ok x) next came = (x, refl, came)

pub ok-injective {ℓ} : {A : Type ℓ} {a b : A} → ◌≡◌ {A = Res A} (ok a) (ok b) → a ≡ b
ok-injective h = cc

pub within-eq-ok : (b : Bool) {u : Unit {0}} → within b ≡ ok u → b ≡ true
within-eq-ok true h = refl
within-eq-ok false h = cc

pub or_fault-eq-ok {ℓ} : {A : Type ℓ} (o : Option A) {a : A} → or_fault o ≡ ok a → o ≡ some a
or_fault-eq-ok none h = absurd (cc)
or_fault-eq-ok (some b) h = cc

-- What ends.
abbrev pub Ends {ℓ} : {A : Type ℓ} → Res A → Type ℓ
Ends m = m ≢ running

pub >>=-Ends {ℓ} :
    {A B : Type ℓ} (m : Res A) (f : A → Res B)
    → Ends m
    → ((a : A) → m ≡ ok a → Ends (f a))
    → Ends (m >>= f)
>>=-Ends (ok a) f hm hf = hf a refl
>>=-Ends (exit s) f hm hf = λ e. cc
>>=-Ends fault f hm hf = λ e. cc
>>=-Ends running f hm hf = absurd (hm refl)

pub within-Ends : (b : Bool) → Ends (within b)
within-Ends true = λ e. cc
within-Ends false = λ e. cc

pub or_fault-Ends {ℓ} : {A : Type ℓ} (o : Option A) → Ends (or_fault o)
or_fault-Ends none = λ e. cc
or_fault-Ends (some a) = λ e. cc

pub ok-Ends {ℓ} : {A : Type ℓ} (a : A) → Ends (ok a)
ok-Ends a = λ e. cc
