-- ===== src/Prelude/Faults.antt =====
-- What a piece of C code may do: return a value, or go wrong. A read or write outside an array, the
-- use of a pointer that was never set, and an external function that does not return are faults.
use Prim.Native.Nat.{ℕ}
use mathlib.Core.Path.{◌≡◌, refl, subst}
use mathlib.Core.Bool.{Bool, true, false}
use hexheld_emu.Prelude.Tests.{ltb, ◌==◌, if◌then◌else◌}

pub data Fault : Type 0 where
  out_of_bounds unset_pointer no_return : Fault

pub data Outcome {ℓ} (A : Type ℓ) : Type ℓ where
  ok : A → Outcome A
  fault : Fault → Outcome A

infixl 5 ◌>>=◌ ◌>>◌
abbrev pub ◌>>=◌ {ℓ κ} : {A : Type ℓ} {B : Type κ} → Outcome A → (A → Outcome B) → Outcome B
ok a >>= f = f a
fault e >>= f = fault e

abbrev pub ◌>>◌ {ℓ} : {B : Type ℓ} → Outcome (Unit {0}) → Outcome B → Outcome B
m >> k = m >>= λ _. k

-- The postcondition `P` holds of every value that is returned; a fault returns none.
abbrev pub Ensures {ℓ κ} : {A : Type ℓ} → (A → Type κ) → Outcome A → Type κ
Ensures P (ok a) = P a
Ensures P (fault e) = Unit

-- The code returns a value, and `P` holds of it.
abbrev pub Returns {ℓ} : {A : Type ℓ} → (A → Type 0) → Outcome A → Type 0
Returns P (ok a) = P a
Returns P (fault e) = ⊥

-- A C array of `size` elements: a function of the index, read under a bounds check.
abbrev pub load {ℓ} : {A : Type ℓ} → ℕ → (ℕ → A) → ℕ → Outcome A
load size a i = if ltb i size then ok (a i) else fault out_of_bounds

abbrev pub update {ℓ} : {A : Type ℓ} → (ℕ → A) → ℕ → A → ℕ → A
update a i v j = if i == j then v else a j

pub Returns-bind {ℓ κ} :
    {A : Type ℓ} {B : Type κ} (P : A → Type 0) (Q : B → Type 0) (m : Outcome A) (f : A → Outcome B)
    → Returns P m
    → ((a : A) → P a → Returns Q (f a))
    → Returns Q (m >>= f)
Returns-bind P Q (ok a) f h k = k a h
Returns-bind P Q (fault e) f h k = elim h [ ]

-- A sequence of steps may be grouped in either way.
pub >>=_assoc {ℓ κ μ} :
    {A : Type ℓ} {B : Type κ} {C : Type μ} (m : Outcome A) (f : A → Outcome B) (g : B → Outcome C)
    → (m >>= f >>= g) ≡ (m >>= λ a. f a >>= g)
>>=_assoc (ok a) f g = refl
>>=_assoc (fault e) f g = refl

pub Returns-weaken {ℓ} :
    {A : Type ℓ} (P Q : A → Type 0) (m : Outcome A)
    → Returns P m
    → ((a : A) → P a → Q a)
    → Returns Q m
Returns-weaken P Q (ok a) h k = k a h
Returns-weaken P Q (fault e) h k = elim h [ ]

pub Ensures-bind {ℓ κ} :
    {A : Type ℓ} {B : Type κ} (P : A → Type 0) (Q : B → Type 0) (m : Outcome A) (f : A → Outcome B)
    → Ensures P m
    → ((a : A) → P a → Ensures Q (f a))
    → Ensures Q (m >>= f)
Ensures-bind P Q (ok a) f h k = k a h
Ensures-bind P Q (fault e) f h k = tt

pub Ensures-weaken {ℓ} :
    {A : Type ℓ} (P Q : A → Type 0) (m : Outcome A)
    → Ensures P m
    → ((a : A) → P a → Q a)
    → Ensures Q m
Ensures-weaken P Q (ok a) h k = k a h
Ensures-weaken P Q (fault e) h k = tt

pub Ensures-ok {ℓ} :
    {A : Type ℓ} (P : A → Type 0) (m : Outcome A) (a : A) → Ensures P m → m ≡ ok a → P a
Ensures-ok P m a e h = subst (λ x. Ensures P x) h e

-- Steps that keep a relation to where they start from, one after another; and a step under a test.
module _ {ℓ} {A : Type ℓ} (R : A → A → Type 0) where
  pub Ensures-chain :
      (join : (a b c : A) → R a b → R b c → R a c) (a : A) (m : Outcome A) (f : A → Outcome A)
      → Ensures (R a) m
      → ((b : A) → Ensures (R b) (f b))
      → Ensures (R a) (m >>= f)
  Ensures-chain join a m f h k =
      Ensures-bind (R a) (R a) m f h
        λ b r. Ensures-weaken (R b) (R a) (f b) (k b) λ c q. join a b c r q

  pub Ensures-branch :
      (b : Bool) (a : A) (m n : Outcome A)
      → Ensures (R a) m
      → Ensures (R a) n
      → Ensures (R a) (if b then m else n)
  Ensures-branch true a m n h k = h
  Ensures-branch false a m n h k = k
