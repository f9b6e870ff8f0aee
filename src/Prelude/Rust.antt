-- ===== src/Prelude/Rust.antt =====
-- What running Rust code can come to, and the two build switches that the code reads.
use Prim.Native.Nat.{ℕ, ◌+◌, ◌-◌, ◌*◌, ◌%◌}
use Prim.Native.String.{String}
use mathlib.Core.Bool.{Bool, true, not, ◌&&◌}
use mathlib.Core.Path.{◌≡◌, refl}
use mathlib.Core.Logic.{◌⊎◌, inl, inr}
use mathlib.Core.Option.{Option, none, some}
use native.Mathlib.Omega.{arith}
use xdp_rs.Prelude.Tests.{ltb, leb, if◌then◌else◌}

-- `panic` is a Rust panic, `fault` is undefined behaviour (a null or dangling pointer is read or
-- written), `hang` is a loop of the model that ran out of rounds.
pub data Run {ℓ} (A : Type ℓ) : Type ℓ where
  done : A → Run A
  panic fault hang : Run A

infixl 5 ◌>>=◌ ◌>>◌
abbrev pub ◌>>=◌ {ℓ κ} : {A : Type ℓ} {B : Type κ} → Run A → (A → Run B) → Run B
done a >>= f = f a
panic >>= f = panic
fault >>= f = fault
hang >>= f = hang

abbrev pub ◌>>◌ {ℓ} : {B : Type ℓ} → Run (Unit {0}) → Run B → Run B
m >> k = m >>= λ _. k

-- `Result<A, E>` of Rust.
pub data Result {ℓ κ} (A : Type ℓ) (E : Type κ) : Type (ℓ ⊔ κ) where
  ok : A → Result A E
  err : E → Result A E

-- `io::Error`: an error number of the system, a message, also one of the kind `NotFound`, or a message that
-- shows another error.
pub data IoError : Type 0 where
  os : ℕ → IoError
  not_found : String → IoError
  other : String → IoError
  context : String → IoError → IoError

-- `debug`: debug assertions and overflow checks are compiled in. `checks`: the feature
-- `no_safety_checks` is off.
pub record Build : Type 0 where
  pub debug : Bool
  pub checks : Bool

-- `debug_assert!(c)`
abbrev pub debug_assert : Build → Bool → Run (Unit {0})
debug_assert b c = if b.debug && not c then panic else done tt

-- `#[cfg(not(feature = "no_safety_checks"))] assert!(c)`
abbrev pub safety_assert : Build → Bool → Run (Unit {0})
safety_assert b c = if b.checks && not c then panic else done tt

-- `x + y`, `x - y` and `x * y` on unsigned integers below `m`: a debug build panics on overflow,
-- a release build wraps.
abbrev pub add_word : Build → ℕ → ℕ → ℕ → Run ℕ
add_word b m x y = if b.debug && leb m (x + y) then panic else done ((x + y) % m)

abbrev pub sub_word : Build → ℕ → ℕ → ℕ → Run ℕ
sub_word b m x y = if b.debug && ltb x y then panic else done ((x + m - y) % m)

abbrev pub mul_word : Build → ℕ → ℕ → ℕ → Run ℕ
mul_word b m x y = if b.debug && leb m (x * y) then panic else done ((x * y) % m)

-- A read through a pointer, `none` where it dangles.
abbrev pub deref {ℓ} : {A : Type ℓ} → Option A → Run A
deref none = fault
deref (some a) = done a

pub done-injective {ℓ} : {A : Type ℓ} {a b : A} → done a ≡ done b → a ≡ b
done-injective h = cc

-- Inversion of a bind that returns.
pub >>=-eq-done {ℓ κ} :
    {A : Type ℓ} {B : Type κ} (x : Run A) (f : A → Run B) {b : B}
    → (x >>= f) ≡ done b
    → (a : A) × (x ≡ done a) × (f a ≡ done b)
>>=-eq-done (done a) f e = (a, refl, e)
>>=-eq-done panic f e = cc
>>=-eq-done fault f e = cc
>>=-eq-done hang f e = cc

pub Result-cases {ℓ κ} :
    {A : Type ℓ} {E : Type κ} (r : Result A E) → ((a : A) × (r ≡ ok a)) ⊎ ((e : E) × (r ≡ err e))
Result-cases (ok a) = inl (a, refl)
Result-cases (err e) = inr (e, refl)

pub debug_assert-true : (b : Build) → debug_assert b true ≡ done tt
debug_assert-true b = ground arith
