-- ===== src/Socket/Send.antt =====
-- xdp-socket/src/send.rs. The bytes of the UMEM are a function of the offset from its start.
use xdp_rs.Prelude.{
  ℕ, ◌+◌, ◌-◌, Option, none, some, List, [], ◌∷◌, Build, Run, done, panic, ◌>>=◌, Result, ok, err,
  add_word, length, leb, ◌==◌, if◌then◌else◌,
}
use xdp_rs.Prelude.Words.{u64_mod}
use xdp_rs.Libc.{Libc}
use xdp_rs.Ring.Descs.{Slice}
use xdp_rs.Socket.{TxSocket, RingError, io}
use xdp_rs.Socket.Commit.{tx_commit_}
use xdp_rs.Socket.Peek.{tx_peek}
use xdp_rs.Socket.Kick.{Reply}
use xdp_rs.Socket.Poll.{poll_wait}

abbrev pub Bytes : Type 0
Bytes = List ℕ

-- The UMEM with `bs` written from offset `at` on.
unfoldable pub write : ℕ → Bytes → (ℕ → ℕ) → ℕ → ℕ
write start [] mem i = mem i
write start (x ∷ bs) mem i = if i == start then x else write (start + 1) bs mem i

-- `buf[lo..hi]`, which panics when the range leaves the slice.
abbrev pub sub_slice : Slice → ℕ → ℕ → Run Slice
sub_slice buf lo hi =
    if leb lo hi
    then if leb hi buf.len then done (record { start = buf.start + lo; len = hi - lo }) else panic
    else panic

-- `copy_from_slice`, which panics unless the lengths agree.
abbrev pub copy_from_slice : Slice → Bytes → (ℕ → ℕ) → Run (ℕ → ℕ)
copy_from_slice buf bs mem = if buf.len == length bs then done (write buf.start bs mem) else panic

abbrev pub header_len : Option Bytes → ℕ
header_len none = 0
header_len (some h) = length h

abbrev pub copy_header : Slice → Option Bytes → (ℕ → ℕ) → Run (ℕ → ℕ)
copy_header buf none mem = done mem
copy_header buf (some bs) mem = do head ← sub_slice buf 0 (length bs); copy_from_slice head bs mem

abbrev pub Sent : Type 0
Sent = Result (Unit {0}) RingError × TxSocket × (ℕ → ℕ)

-- What `send` does with the buffer that `peek` gave.
abbrev pub fill_and_commit :
    Build → Bytes → Option Bytes → (ℕ → ℕ) → Result Slice RingError × TxSocket → Run Sent
fill_and_commit b payload header mem (err e, s) = done (err e, s, mem)
fill_and_commit b payload header mem (ok buf, s) = do
  mem' ← copy_header buf header mem
  tail ← sub_slice buf (header_len header) buf.len
  mem'' ← copy_from_slice tail payload mem'
  committed ← tx_commit_ b s 1
  done (committed.0, committed.1, mem'')

-- `SendExt::send`
unfoldable pub send : Build → TxSocket → (ℕ → ℕ) → Bytes → Option Bytes → Run Sent
send b s mem payload header = do
  buf_len ← add_word b u64_mod (length payload) (header_len header)
  peeked ← tx_peek b s buf_len
  fill_and_commit b payload header mem peeked

module _ (c : Libc) (sendto : ℕ → Reply) (poll : ℕ → Result ℕ ℕ) where
  -- What comes back, with the number of calls of `poll` in front.
  abbrev pub wait_sent : ℕ → Sent → Run (ℕ × Sent)
  wait_sent fuel (err e, s, mem) = done (0, (err e, s, mem))
  wait_sent fuel (ok _, s, mem) = do
    waited ← poll_wait c sendto poll fuel s none
    elim (waited.0) [
      | ok _ ↦ done (waited.1, (ok tt, s, mem))
      | err e ↦ done (waited.1, (err (io e), s, mem))
    ]

  -- `SendExt::send_blocking`
  unfoldable pub send_blocking :
      Build → ℕ → TxSocket → (ℕ → ℕ) → Bytes → Option Bytes → Run (ℕ × Sent)
  send_blocking b fuel s mem payload header = do
    sent ← send b s mem payload header
    wait_sent fuel sent
