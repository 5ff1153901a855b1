-- ===== src/Prelude/Panic.antt =====
-- Code that may stop the kernel: `none` stands for a failed `assert`, a `panic`, an access outside
-- a block of memory, or a signed overflow, after none of which the source goes on.
use Prim.Native.Nat.{ℕ, ◌^◌}
use mathlib.Core.Path.{◌≡◌, refl}
use mathlib.Core.Bool.{Bool, true, false}
use mathlib.Core.Option.{Option, none, some}

infixl 5 ◌>>=◌ ◌>>◌
abbrev pub ◌>>=◌ {ℓ κ} : {A : Type ℓ} {B : Type κ} → Option A → (A → Option B) → Option B
none >>= f = none
some a >>= f = f a

abbrev pub ◌>>◌ {ℓ} : {B : Type ℓ} → Option (Unit {0}) → Option B → Option B
m >> k = m >>= λ _. k

-- `assert(test)` of lib.h
abbrev pub assert : Bool → Option (Unit {0})
assert true = some tt
assert false = none

-- An assert that holds goes on.
pub assert-true {ℓ} :
    {A : Type ℓ} (test : Bool) (k : Option A) → test ≡ true → (assert test >> k) ≡ k
assert-true true k h = refl
assert-true false k h = cc

-- one past the largest `int`, and the number of values of `u_int32_t`
abbrev pub int_limit : ℕ
int_limit = 2 ^ 31

abbrev pub word_mod : ℕ
word_mod = 2 ^ 32
