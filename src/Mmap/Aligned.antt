-- ===== src/Mmap/Aligned.antt =====
-- The size that `OwnedMmap::mmap` asks for.
use Prim.Native.Nat.{digits, bit_and-bitwise}
use native.Mathlib.Nat.{mul-mod_left, mod-add-div', mod-lt, mod-eq_of_lt, pow-succ'}
use xdp_rs.Prelude.{
  ℕ, zero, suc, ◌+◌, ◌-◌, ◌*◌, ◌/◌, ◌%◌, ◌^◌, ◌≤◌, ◌<◌, ◌≡◌, min, ap, ◌∙◌, arith, Bool, true, false,
  Option, Build, done, Result, ok, IoError,
}
use xdp_rs.Prelude.Words.{u64_mod, pow_pos, add_word_fits, sub_word_fits, masked}
use xdp_rs.Mmap.{HugePageInfo, use_huge, bit_not, page_size, aligned, owned, mmap}

div_split : (a q : ℕ) → 0 < q → a / (2 * q) ≡ a / 2 / q
div_split a q h = grind arith

zero_div_mul : (q : ℕ) → 0 ≡ 0 / q * q
zero_div_mul q = grind arith

whole : (a q : ℕ) → 0 < q → a / (2 * q) * (2 * q) ≡ a / 2 / q * q * 2
whole a q h = rw (div_split a q h) (grind arith)

double : (m p : ℕ) → m * 2 ^ suc p ≡ m * 2 ^ p * 2
double m p = rw (pow-succ' 2 p) (grind arith)

-- Reading `a` digit by digit against `w` ones followed by `p` zeros.
masked_high :
    (rounds p w a : ℕ)
    → a ≤ rounds
    → a < 2 ^ w * 2 ^ p
    → digits (λ _. zero) min rounds a ((2 ^ w - 1) * 2 ^ p) ≡ a / 2 ^ p * 2 ^ p
masked_high zero p w zero h l = zero_div_mul (2 ^ p)
masked_high zero p w (suc a) h l = absurd (omega arith)
masked_high (suc r) p w zero h l = zero_div_mul (2 ^ p)
masked_high (suc r) zero w (suc a) h l =
    let plain : (2 ^ w - 1) * 2 ^ 0 ≡ 2 ^ w - 1 = omega arith in
    ap (λ (t : ℕ). digits (λ _. zero) min (suc r) (suc a) t) plain
    ∙ (masked (suc r) w (suc a) h ∙ (mod-eq_of_lt (omega arith) ∙ omega arith))
masked_high (suc r) (suc p) w (suc a) h l =
    let mask : (2 ^ w - 1) * 2 ^ suc p ≡ (2 ^ w - 1) * 2 ^ p * 2 = double (2 ^ w - 1) p in
    let half : (2 ^ w - 1) * 2 ^ p * 2 / 2 ≡ (2 ^ w - 1) * 2 ^ p = omega arith in
    let even : (2 ^ w - 1) * 2 ^ p * 2 % 2 ≡ 0 = omega arith in
    rw (mask, half, even, pow-succ' 2 p)
      (omega (
        arith,
        masked_high r p w (suc a / 2) (omega arith) (omega (arith, l, double (2 ^ w) p)),
        whole (suc a) (2 ^ p) (pow_pos p),
      ))

split_pow : (a c : ℕ) → 2 ^ (a + c) ≡ 2 ^ a * 2 ^ c
split_pow zero c = let e : 0 + c ≡ c = omega arith in rw e (omega arith)
split_pow (suc a) c =
    let e : suc a + c ≡ suc (a + c) = omega arith in
    rw (e, pow-succ' 2 (a + c), pow-succ' 2 a, split_pow a c) (grind arith)

word_split : (p : ℕ) → p ≤ 64 → 2 ^ (64 - p) * 2 ^ p ≡ u64_mod
word_split p h = let e : 64 - p + p ≡ 64 = omega arith in rw (← split_pow (64 - p) p, e)

less_one : (m q : ℕ) → (m - 1) * q ≡ m * q - q
less_one zero q = grind arith
less_one (suc m) q =
    let step : suc m * q ≡ m * q + q = grind arith in
    let back : suc m - 1 ≡ m = omega arith in rw (back, step) (omega arith)

-- The bits of a page mask.
high_bits : (p : ℕ) → p ≤ 64 → bit_not (2 ^ p - 1) ≡ (2 ^ (64 - p) - 1) * 2 ^ p
high_bits p h = omega (arith, less_one (2 ^ (64 - p)) (2 ^ p), word_split p h, pow_pos p)

aligned_lem :
    (b : Build) (size p : ℕ)
    → p ≤ 63
    → size + 2 ^ p < u64_mod
    → aligned b size (2 ^ p) ≡ done ((size + 2 ^ p - 1) / 2 ^ p * 2 ^ p)
unfolding aligned
aligned_lem b size p h fits = rw (
  add_word_fits b u64_mod size (2 ^ p) fits,
  sub_word_fits b u64_mod (size + 2 ^ p) 1 (omega (arith, pow_pos p)) fits,
  sub_word_fits b u64_mod (2 ^ p) 1 (pow_pos p) (omega arith),
  high_bits p (omega arith),
  bit_and-bitwise (size + 2 ^ p - 1) ((2 ^ (64 - p) - 1) * 2 ^ p),
  masked_high (size + 2 ^ p - 1) p (64 - p) (size + 2 ^ p - 1) (omega arith)
      (omega (arith, word_split p (omega arith))),
)

-- `OwnedMmap::mmap` with a standard page size of `2 ^ p` bytes, where the use of huge pages is settled
-- (by the argument, or else by the reported numbers): in every build it asks the system for the least
-- multiple of the page size that holds `size` bytes, standard or huge, and gives the area with this
-- size, or the system's error. The size and a page fit in 64 bits.
pub mmap_lem :
    (p : ℕ) (map : ℕ → Bool → Result ℕ IoError) (b : Build) (size : ℕ) (huge_page : Option Bool)
    (info : Result HugePageInfo IoError) (huge_tlb : Bool)
    → p ≤ 63
    → use_huge huge_page info ≡ ok huge_tlb
    → size + page_size (2 ^ p) huge_tlb < u64_mod
    → (n : ℕ) × (mmap (2 ^ p) map b size huge_page info
        ≡ done (owned (2 ^ p) map n (map n huge_tlb)))
      × (size ≤ n)
      × (n < size + page_size (2 ^ p) huge_tlb)
      × (n % page_size (2 ^ p) huge_tlb ≡ 0)
unfolding mmap
mmap_lem p map b size huge_page info false small settled fits = (
  (size + 2 ^ p - 1) / 2 ^ p * 2 ^ p,
  rw (settled, aligned_lem b size p small fits),
  omega (arith, pages, left),
  omega (arith, pages, left, pow_pos p),
  mul-mod_left ((size + 2 ^ p - 1) / 2 ^ p) (2 ^ p),
)
  where
    pages : (size + 2 ^ p - 1) % 2 ^ p + (size + 2 ^ p - 1) / 2 ^ p * 2 ^ p ≡ size + 2 ^ p - 1
    pages = mod-add-div' (size + 2 ^ p - 1) (2 ^ p)

    left : (size + 2 ^ p - 1) % 2 ^ p < 2 ^ p
    left = mod-lt (size + 2 ^ p - 1) (pow_pos p)
mmap_lem p map b size huge_page info true small settled fits = (
  (size + 2 ^ 21 - 1) / 2 ^ 21 * 2 ^ 21,
  rw (settled, aligned_lem b size 21 (omega arith) fits),
  omega arith,
  omega arith,
  mul-mod_left ((size + 2 ^ 21 - 1) / 2 ^ 21) (2 ^ 21),
)
