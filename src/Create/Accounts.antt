-- ===== src/Create/Accounts.antt =====
-- Computations that keep account of what the process holds, and how they compose.
use xdp_rs.Prelude.{
  ◌≡◌, refl, sym, ap, ◌∙◌, List, ◌∷◌, Run, done, panic, fault, hang, Result, ok, err, IoError,
  length,
}
use xdp_rs.Libc.{Libc}
use xdp_rs.Mmap.Owned.{scoped, leave}
use xdp_rs.System.{
  Call, Resource, Process, Sys, ◌>>=◌, run, pure, logged, acquired, after_run, then_sys,
}
use xdp_rs.Create.Balance.{held, IsReal, base, more, Above-trans, Kept, released, Returns}

module _ (c : Libc) where
  pub record IsBalanced {A : Type 0} (m : Sys A) : Type 0 where
    pub keeps : (p : Process) → held p.log ≡ p.live → Returns (λ r q. Kept c p.live q) (m p)

  -- An error leaves what was held before.
  abbrev pub Left : {A : Type 0} → List Resource → Result A IoError → Process → Type 0
  Left old (ok a) q = Kept c old q
  Left old (err e) q = (held q.log ≡ old) × (q.live ≡ old)

  pub record IsClosed {A : Type 0} (m : Sys A) : Type 0 where
    pub leaves : (p : Process) → held p.log ≡ p.live → Returns (Left p.live) (m p)

  same-Kept : {p : Process} → held p.log ≡ p.live → Kept c p.live p
  same-Kept h = record { account = h; above = base }

  Left-Kept :
      {A : Type 0} {old : List Resource} (r : Result A IoError) (q : Process)
      → Left old r q
      → Kept c old q
  Left-Kept (ok a) q k = k
  Left-Kept {old = old} (err e) q (log, live) = record {
    account = log ∙ sym live;
    above = rw live base;
  }

  closed-Returns :
      {A : Type 0} (old : List Resource) (x : Run (Result A IoError × Process))
      → Returns (Left old) x
      → Returns (λ r q. Kept c old q) x
  closed-Returns old (done (r, q)) l = Left-Kept r q l
  closed-Returns old panic l = tt
  closed-Returns old fault l = tt
  closed-Returns old hang l = tt

  pub closed-IsBalanced : {A : Type 0} {m : Sys A} → IsClosed m → IsBalanced m
  closed-IsBalanced {m = m} closed = record {
    keeps = λ p h. closed-Returns p.live (m p) (closed.leaves p h);
  }

  pub pure-IsBalanced : {A : Type 0} (a : A) → IsBalanced (pure a)
  pure-IsBalanced a = record { keeps = λ p h. same-Kept h }

  run-Returns :
      {A : Type 0} (x : Run A) (p : Process)
      → held p.log ≡ p.live
      → Returns {A = A} (λ r q. Kept c p.live q) (after_run (λ a. done (ok a, p)) x)
  run-Returns (done a) p h = same-Kept h
  run-Returns panic p h = tt
  run-Returns fault p h = tt
  run-Returns hang p h = tt

  pub run-IsBalanced : {A : Type 0} (x : Run A) → IsBalanced (run x)
  run-IsBalanced x = record { keeps = run-Returns x }

  pub logged-Returns :
      {A : Type 0} (call : Call) (r : Result A IoError) (p : Process)
      → ((log : List Call) → held (call ∷ log) ≡ held log)
      → held p.log ≡ p.live
      → Returns (λ r q. Kept c p.live q) (logged call r p)
  logged-Returns call (ok a) p neutral h = record { account = neutral p.log ∙ h; above = base }
  logged-Returns call (err e) p neutral h = same-Kept h

  pub acquired-Returns :
      {A : Type 0} (call : A → Call) (res : A → Resource) (r : Result A IoError) (p : Process)
      → ((a : A) (log : List Call) → held (call a ∷ log) ≡ res a ∷ held log)
      → ((a : A) → r ≡ ok a → IsReal c (res a))
      → held p.log ≡ p.live
      → Returns (λ r q. Kept c p.live q) (acquired call res r p)
  acquired-Returns call res (ok a) p takes real h = record {
    account = takes a p.log ∙ ap (λ l. res a ∷ l) h;
    above = more (real a refl) base;
  }
  acquired-Returns call res (err e) p takes real h = same-Kept h

  raised :
      {A : Type 0} {old : List Resource} {q : Process}
      → Kept c old q
      → (x : Run (Result A IoError × Process)) → Returns (λ r q'. Kept c q.live q') x
      → Returns (λ r q'. Kept c old q') x
  raised first (done (r, q')) then = record {
    account = then.account;
    above = Above-trans c first.above then.above;
  }
  raised first panic then = tt
  raised first fault then = tt
  raised first hang then = tt

  then-Returns :
      {A B : Type 0} (old : List Resource) (f : A → Sys B) (x : Run (Result A IoError × Process))
      → ((a : A) → IsBalanced (f a))
      → Returns (λ r q. Kept c old q) x
      → Returns (λ r q. Kept c old q) (after_run (then_sys f) x)
  then-Returns old f (done (ok a, q)) balanced first =
      raised first (f a q) ((balanced a).keeps q first.account)
  then-Returns old f (done (err e, q)) balanced first = first
  then-Returns old f panic balanced first = tt
  then-Returns old f fault balanced first = tt
  then-Returns old f hang balanced first = tt

  pub bind-IsBalanced :
      {A B : Type 0} {m : Sys A} {f : A → Sys B}
      → IsBalanced m
      → ((a : A) → IsBalanced (f a))
      → IsBalanced (m >>= f)
  bind-IsBalanced {m = m} {f = f} x y = record {
    keeps = λ p h. then-Returns p.live f (m p) y (x.keeps p h);
  }

  leave-Returns :
      {A : Type 0} (old : List Resource) (x : Run (Result A IoError × Process))
      → Returns (λ r q. Kept c old q) x
      → Returns (Left old) (after_run (leave c (length old)) x)
  leave-Returns old (done (ok a, q)) first = first
  leave-Returns old (done (err e, q)) first = released c q.log first.above first.account
  leave-Returns old panic first = tt
  leave-Returns old fault first = tt
  leave-Returns old hang first = tt

  pub scoped-IsClosed : {A : Type 0} {m : Sys A} → IsBalanced m → IsClosed (scoped c m)
  scoped-IsClosed {m = m} x = record { leaves = λ p h. leave-Returns p.live (m p) (x.keeps p h) }
