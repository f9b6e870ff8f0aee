-- ===== src/Socket/Ownership/Window.antt =====
-- The entries of a run of slots of a ring, and how often an address stands in a list.
use native.Mathlib.Nat.{mod-lt, mod-eq_of_lt, mod-eq-sub-mod, mod-add-mod, add-zero, zero-add}
use native.Mathlib.Decide.{dec_lt}
use xdp_rs.Prelude.{
  ℕ, zero, suc, sym, ◌-◌, ◌+◌, ◌%◌, ◌^◌, ◌≤◌, ◌<◌, ◌≡◌, ◌≢◌, refl, ap, arith, List, [], ◌∷◌, ◌++◌,
  ◌==◌, Bool, true, false, length,
}
use xdp_rs.Prelude.Words.{pow_pos}

abbrev one_if : Bool → ℕ
one_if true = 1
one_if false = 0

-- How often a frame's address stands in a list.
abbrev pub times : ℕ → List ℕ → ℕ
times frame [] = 0
times frame (first ∷ others) = times frame others + one_if (first == frame)

pub times-append :
    (frame : ℕ) (front back : List ℕ)
    → times frame front + times frame back ≡ times frame (front ++ back)
times-append frame [] back = omega arith
times-append frame (first ∷ others) back =
    let tail = times-append frame others back in omega (arith, tail)

-- The `n` entries from index `p` on, going round after `2 ^ k` slots; `e` reads a slot.
unfoldable pub window : ℕ → (ℕ → ℕ) → ℕ → ℕ → List ℕ
window k e p zero = []
window k e p (suc n) = e (p % 2 ^ k) ∷ window k e (p + 1) n

module _ (k : ℕ) where
  pub length-window : (e : ℕ → ℕ) (p n : ℕ) → length (window k e p n) ≡ n
  unfolding window
  length-window e p zero = refl
  length-window e p (suc n) = ap suc (length-window e (p + 1) n)

  pub window_congr :
      (e e' : ℕ → ℕ) (p n : ℕ)
      → ((j : ℕ) → j < n → e ((p + j) % 2 ^ k) ≡ e' ((p + j) % 2 ^ k))
      → window k e p n ≡ window k e' p n
  unfolding window
  window_congr e e' p zero h = refl
  window_congr e e' p (suc n) h =
      let first : e (p % 2 ^ k) ≡ e' (p % 2 ^ k) = rw add-zero at (h 0 (omega arith)) in
      let shift : (j : ℕ) → p + suc j ≡ p + 1 + j = λ j. omega arith in
      rw (first, window_congr e e' (p + 1) n (λ j hj. rw (shift j) at (h (suc j) (omega arith))))

  pub window-mod :
      (e : ℕ → ℕ) (p p' n : ℕ) → p % 2 ^ k ≡ p' % 2 ^ k → window k e p n ≡ window k e p' n
  unfolding window
  window-mod e p p' zero h = refl
  window-mod e p p' (suc n) h = rw (h, window-mod e (p + 1) (p' + 1) n next)
    where
      next : (p + 1) % 2 ^ k ≡ (p' + 1) % 2 ^ k
      next = rw (← mod-add-mod p (2 ^ k) 1, h) (mod-add-mod p' (2 ^ k) 1)

  -- A run is its first entries, then the others.
  pub window_split :
      (e : ℕ → ℕ) (p n m : ℕ) → window k e p (n + m) ≡ window k e p n ++ window k e (p + n) m
  unfolding window
  window_split e p zero m = rw (add-zero, zero-add) refl
  window_split e p (suc n) m =
      let s : suc n + m ≡ suc (n + m) = omega arith in
      let q : p + suc n ≡ p + 1 + n = omega arith in rw (s, q, window_split e (p + 1) n m) refl

  pub times-window_split :
      (e : ℕ → ℕ) (a p n m : ℕ)
      → times a (window k e p (n + m)) ≡ times a (window k e p n) + times a (window k e (p + n) m)
  unfolding window
  times-window_split e a p zero m = rw (add-zero, zero-add) (omega arith)
  times-window_split e a p (suc n) m =
      let s : suc n + m ≡ suc (n + m) = omega arith in
      let q : p + suc n ≡ p + 1 + n = omega arith in
      rw (s, q) (omega (arith, times-window_split e a (p + 1) n m))

  -- Each entry of the run is counted.
  pub times-window_self :
      (e : ℕ → ℕ) (a p n j : ℕ) → j < n → e ((p + j) % 2 ^ k) ≡ a → 1 ≤ times a (window k e p n)
  unfolding window
  times-window_self e a p zero j h q = absurd (omega arith)
  times-window_self e a p (suc n) zero h q = let q' = rw add-zero at q in ground arith
  times-window_self e a p (suc n) (suc j) h q =
      let s : p + suc j ≡ p + 1 + j = omega arith in
      omega (arith, times-window_self e a (p + 1) n j (omega arith) (rw s at q))

-- Fewer than `2 ^ k` steps round the ring do not come back to the same slot.
pub slots_differ : (k p i j : ℕ) → i < j → j < 2 ^ k → (p + i) % 2 ^ k ≢ (p + j) % 2 ^ k
slots_differ k p i j h l e = elim (dec_lt (x + d) m) [
  | yes inside ↦ omega (arith, moved, mod-eq_of_lt inside)
  | no past ↦ omega (
    arith,
    moved,
    mod-lt (p + i) (pow_pos k),
    mod-eq-sub-mod {n = x + d} {m = m} (omega arith),
    mod-eq_of_lt {n = x + d - m} {m = m} (omega (arith, mod-lt (p + i) (pow_pos k))),
  )
]
  where
    m : ℕ
    m = 2 ^ k

    x : ℕ
    x = (p + i) % 2 ^ k

    d : ℕ
    d = j - i

    moved : (x + d) % m ≡ x
    moved = let s : p + j ≡ p + i + d = omega arith in sym (rw (mod-add-mod (p + i) m d, ← s) e)
