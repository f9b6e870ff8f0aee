-- ===== src/Prelude/Words.antt =====
-- 32-bit and 64-bit words as native numbers, and masking by a power of two less one.
use Prim.Native.Nat.{digits, bit_and-bitwise, ◌∣◌}
use Prim.Native.Nat.add
use native.Mathlib.Nat.{
  mod-eq_of_lt, mod-mod_of_dvd, one-le-pow, pow-succ', dvd_refl, dvd_trans, dvd-mul_left,
  pow-le-pow_right,
}
use xdp_rs.Prelude.{
  ℕ, zero, suc, ◌+◌, ◌-◌, ◌*◌, ◌/◌, ◌%◌, ◌^◌, ◌≤◌, ◌<◌, min, bit_and, ◌≡◌, ap, ◌∙◌, arith, Build,
  done, add_word, sub_word, mul_word,
}

abbrev pub u16_mod : ℕ
u16_mod = 0x10000

abbrev pub u32_mod : ℕ
u32_mod = 2 ^ 32

abbrev pub u64_mod : ℕ
u64_mod = 2 ^ 64

-- `x as u32`
abbrev pub as_u32 : ℕ → ℕ
as_u32 x = x % u32_mod

abbrev pub wrapping_add : ℕ → ℕ → ℕ
wrapping_add a b = (a + b) % u32_mod

abbrev pub wrapping_sub : ℕ → ℕ → ℕ
wrapping_sub a b = (a + u32_mod - b) % u32_mod

pub pow_pos : (k : ℕ) → 0 < 2 ^ k
pow_pos k = one-le-pow k 2 (omega arith)

mod_split : (a p : ℕ) → 0 < p → a % (2 * p) ≡ (a / 2 % p) * 2 + a % 2
mod_split a p h = grind arith

mask_half : (k : ℕ) → (2 ^ suc k - 1) / 2 ≡ 2 ^ k - 1
mask_half k = omega (arith, pow-succ' 2 k, pow_pos k)

-- Reading `a` digit by digit against a mask of `k` ones, with at least as many rounds as `a`.
pub masked : (rounds k a : ℕ) → a ≤ rounds → digits (λ _. zero) min rounds a (2 ^ k - 1) ≡ a % 2 ^ k
masked zero k zero h = omega (arith, pow_pos k)
masked zero k (suc a) h = absurd (omega arith)
masked (suc r) k zero h = omega (arith, pow_pos k)
masked (suc r) zero (suc a) h = omega (arith, masked r zero (suc a / 2) (omega arith))
masked (suc r) (suc k) (suc a) h =
    let half = mask_half k in
    rw half (
      omega (
        arith,
        masked r k (suc a / 2) (omega arith),
        mod_split (suc a) (2 ^ k) (pow_pos k),
        ap (λ (t : ℕ). suc a % t) (pow-succ' 2 k),
        pow-succ' 2 k,
        pow_pos k,
      ))

-- The mask of `k` ones keeps the remainder modulo `2 ^ k`.
pub bit_and-mask : (k a : ℕ) → bit_and a (2 ^ k - 1) ≡ a % 2 ^ k
bit_and-mask k a = bit_and-bitwise a (2 ^ k - 1) ∙ masked a k a (omega arith)

pow-dvd-add : (k n : ℕ) → 2 ^ k ∣ 2 ^ (n + k)
pow-dvd-add k zero = rw add.zero (dvd_refl (2 ^ k))
pow-dvd-add k (suc n) =
    rw (add.suc n k, pow-succ' 2 (n + k))
      (dvd_trans (2 ^ k) (pow-dvd-add k n) (dvd-mul_left (2 ^ (n + k)) 2))

pow-dvd : (k n : ℕ) → k ≤ n → 2 ^ k ∣ 2 ^ n
pow-dvd k n h = let e : n ≡ n - k + k = omega arith in rw e (pow-dvd-add k (n - k))

-- Wrapping at 32 bits does not change a slot of a ring of at most `2 ^ 32` entries.
pub wrap-mod : (k a : ℕ) → k ≤ 32 → a % u32_mod % 2 ^ k ≡ a % 2 ^ k
wrap-mod k a h = mod-mod_of_dvd (2 ^ k) a (pow-dvd k 32 h)

pub pow-le_u32 : (k : ℕ) → k ≤ 32 → 2 ^ k ≤ u32_mod
pow-le_u32 k h = pow-le-pow_right {n = 2} (omega arith) {i = k} {j = 32} h

-- `k ≤ 31` leaves room for one more.
pub pow-lt_u32 : (k : ℕ) → k ≤ 31 → 2 ^ k < u32_mod
pow-lt_u32 k h =
    let p : 2 ^ k ≤ 2 ^ 31 = pow-le-pow_right {n = 2} (omega arith) {i = k} {j = 31} h in
    omega arith

-- Arithmetic that stays in range is exact in every build.
pub add_word_fits : (b : Build) (m x y : ℕ) → x + y < m → add_word b m x y ≡ done (x + y)
add_word_fits b m x y h = rw (mod-eq_of_lt h) (ground arith)

pub sub_word_fits : (b : Build) (m x y : ℕ) → y ≤ x → x < m → sub_word b m x y ≡ done (x - y)
sub_word_fits b m x y h l = let e : (x + m - y) % m ≡ x - y = grind arith in rw e (ground arith)

pub mul_word_fits : (b : Build) (m x y : ℕ) → x * y < m → mul_word b m x y ≡ done (x * y)
mul_word_fits b m x y h = rw (mod-eq_of_lt h) (ground arith)
