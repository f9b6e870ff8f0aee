-- ===== src/System.antt =====
-- The operating system as the sources meet it: the calls that took effect, in order, and what the
-- process holds. Neither the kernel nor the crate libc is part of the repository, so the replies are a
-- parameter.
use Prim.Native.String.{String}
use xdp_rs.Prelude.{
  ℕ, Bool, List, ◌∷◌, Run, done, panic, fault, hang, Result, ok, err, IoError, os, context,
}
use xdp_rs.Ring.{XdpDesc}

-- The calls, by what they are given and, where they make something, what it is.
pub data Call : Type 0 where
  socket : ℕ → Call
  map_umem : ℕ → ℕ → Call
  register_umem : ℕ → ℕ → ℕ → ℕ → Call
  set_ring_size : ℕ → ℕ → ℕ → Call
  get_offsets : ℕ → Call
  map_ring : ℕ → ℕ → ℕ → ℕ → Call
  bind : ℕ → ℕ → ℕ → ℕ → Call
  unmap : ℕ → ℕ → Call
  close : ℕ → Call

-- `libc::xdp_ring_offset` and `libc::xdp_mmap_offsets`
pub record RingOffset : Type 0 where
  pub producer : ℕ
  pub consumer : ℕ
  pub desc : ℕ
  pub flags : ℕ

pub record MmapOffsets : Type 0 where
  pub rx : RingOffset
  pub tx : RingOffset
  pub fr : RingOffset
  pub cr : RingOffset

-- A mapped ring: its address, and what stands at the offsets.
pub record Area (T : Type 0) : Type 0 where
  pub ptr : ℕ
  pub producer : ℕ
  pub consumer : ℕ
  pub desc : List T
  pub flags : ℕ

-- What each call comes to, after the calls so far: what it gives, or the error number.
pub record Kernel : Type 0 where
  pub page_size : ℕ
  pub open_socket : List Call → Result ℕ ℕ
  pub map_memory : List Call → ℕ → Bool → Result ℕ ℕ
  pub register : List Call → ℕ → ℕ → ℕ → ℕ → Result (Unit {0}) ℕ
  pub set_size : List Call → ℕ → ℕ → ℕ → Result (Unit {0}) ℕ
  pub offsets : List Call → ℕ → Result MmapOffsets ℕ
  pub map_descs : List Call → ℕ → ℕ → ℕ → RingOffset → Result (Area XdpDesc) ℕ
  pub map_addrs : List Call → ℕ → ℕ → ℕ → RingOffset → Result (Area ℕ) ℕ
  pub bind : List Call → ℕ → ℕ → ℕ → ℕ → Result (Unit {0}) ℕ

-- What a process has to give back.
pub data Resource : Type 0 where
  area : ℕ → ℕ → Resource
  descriptor : ℕ → Resource

-- The calls that took effect, and what is held, newest first.
pub record Process : Type 0 where
  pub log : List Call
  pub live : List Resource

-- A computation that calls the system and may fail.
abbrev pub Sys : Type 0 → Type 0
Sys A = Process → Run (Result A IoError × Process)

abbrev pub then_sys :
    {A B : Type 0} → (A → Sys B) → Result A IoError × Process → Run (Result B IoError × Process)
then_sys f (ok a, p) = f a p
then_sys f (err e, p) = done (err e, p)

abbrev pub after_run : {A B : Type 0} → (A → Run B) → Run A → Run B
after_run f (done a) = f a
after_run f panic = panic
after_run f fault = fault
after_run f hang = hang

infixl 5 ◌>>=◌ ◌>>◌
abbrev pub ◌>>=◌ : {A B : Type 0} → Sys A → (A → Sys B) → Sys B
◌>>=◌ m f p = after_run (then_sys f) (m p)

abbrev pub ◌>>◌ : {A B : Type 0} → Sys A → Sys B → Sys B
m >> n = m >>= λ _. n

abbrev pub pure : {A : Type 0} → A → Sys A
pure a p = done (ok a, p)

-- Code that calls nothing and cannot fail with an error.
abbrev pub run : {A : Type 0} → Run A → Sys A
run m p = after_run (λ a. done (ok a, p)) m

-- `io::Error::last_os_error()`
abbrev pub last_os_error : {A : Type 0} → Result A ℕ → Result A IoError
last_os_error (ok a) = ok a
last_os_error (err e) = err (os e)

-- `map_err` with a message in front of the error
abbrev pub map_err : {A : Type 0} → String → Result A IoError → Result A IoError
map_err message (ok a) = ok a
map_err message (err e) = err (context message e)

-- A call that makes nothing: it is logged if it succeeds.
abbrev pub logged : {A : Type 0} → Call → Result A IoError → Sys A
logged c (ok a) p = done (ok a, record p { log = c ∷ p.log })
logged c (err e) p = done (err e, p)

-- A call that makes something, and what it makes.
abbrev pub acquired : {A : Type 0} → (A → Call) → (A → Resource) → Result A IoError → Sys A
acquired c r (ok a) p = done (ok a, record { log = c a ∷ p.log; live = r a ∷ p.live })
acquired c r (err e) p = done (err e, p)
