-- ===== src/Packet.antt =====
-- xdp-util/src/packet.rs: the writer that captures the headers made by the crate etherparse.
pub mod Captured
pub mod Header
mod Tests
use xdp_rs.Prelude.{
  ℕ, zero, suc, ◌+◌, ◌-◌, min, List, [], ◌∷◌, Build, Run, done, panic, ◌>>=◌, add_word, sub_word,
  length, ltb, leb, set, if◌then◌else◌,
}
use xdp_rs.Prelude.Words.{u64_mod}

-- `HdrWrite`: the array of 42 bytes and the position.
pub record HdrWrite : Type 0 where
  pub hdr : List ℕ
  pub at : ℕ

-- `dst[at..at + len].copy_from_slice(&src[..len])`, byte by byte.
unfoldable pub copy : ℕ → ℕ → List ℕ → List ℕ → List ℕ
copy at zero src dst = dst
copy at (suc len) [] dst = dst
copy at (suc len) (x ∷ src) dst = copy (at + 1) len src (set dst at x)

-- The new position, and the number of bytes that the call reports.
unfoldable pub write : Build → HdrWrite → List ℕ → Run (ℕ × HdrWrite)
write b w buf =
    let len = min (length buf) (42 - w.at) in
    let hdr = if ltb w.at 42 then copy w.at len buf w.hdr else w.hdr in
    do at ← add_word b u64_mod w.at (length buf); done (length buf, record { hdr = hdr; at = at })
