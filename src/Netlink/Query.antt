-- ===== src/Netlink/Query.antt =====
-- `netlink` in xdp-util/src/netlink.rs, from the socket to the results. The crate netlink-sys is not part
-- of the repository: what its calls come to is a parameter.
use xdp_rs.Prelude.{
  ℕ, ◌≡◌, refl, arith, List, [], Option, Run, done, Result, ok, err, IoError, other, length, ◌==◌,
  if◌then◌else◌, Bool-cases, inl, inr,
}
use xdp_rs.Netlink.{loop}
use xdp_rs.Netlink.Messages.{loop_ends}

-- `Socket::new`, `bind`, `send`, which gives the number of bytes after_send, and `recv_from_full`.
pub record NetlinkSocket : Type 0 where
  pub new : Result (Unit {0}) IoError
  pub bind : Result (Unit {0}) IoError
  pub send : List ℕ → Result ℕ IoError
  pub recv_from_full : Result (List ℕ) IoError

module _ {M R : Type 0} (deserialize : List ℕ → Result M IoError) (msg_len : M → ℕ)
    (f : M → Result (Option R) IoError) (socket : NetlinkSocket) where
  -- The loop runs on the bytes of one receive, with a round for each byte.
  abbrev pub read_reply : Result (List ℕ) IoError → Run (Result (List R) IoError)
  read_reply (err e) = done (err e)
  read_reply (ok recv_buf) = loop deserialize msg_len f (length recv_buf) recv_buf []

  abbrev pub after_send : List ℕ → Result ℕ IoError → Run (Result (List R) IoError)
  after_send send_buf (err e) = done (err e)
  after_send send_buf (ok n) =
      if n == length send_buf
      then read_reply socket.recv_from_full
      else done (err (other "Failed to send request"))

  abbrev pub after_bind : List ℕ → Result (Unit {0}) IoError → Run (Result (List R) IoError)
  after_bind send_buf (err e) = done (err e)
  after_bind send_buf (ok _) = after_send send_buf (socket.send send_buf)

  abbrev pub after_new : List ℕ → Result (Unit {0}) IoError → Run (Result (List R) IoError)
  after_new send_buf (err e) = done (err e)
  after_new send_buf (ok _) = after_bind send_buf socket.bind

  -- `send_buf` is the serialized request.
  unfoldable pub netlink : List ℕ → Run (Result (List R) IoError)
  netlink send_buf = after_new send_buf socket.new

  read_reply_ends :
      (r : Result (List ℕ) IoError) → (x : Result (List R) IoError) × (read_reply r ≡ done x)
  read_reply_ends (err e) = (err e, refl)
  read_reply_ends (ok buf) = loop_ends deserialize msg_len f (length buf) buf [] (omega arith)

  after_send_ends :
      (send_buf : List ℕ) (r : Result ℕ IoError)
      → (x : Result (List R) IoError) × (after_send send_buf r ≡ done x)
  after_send_ends send_buf (err e) = (err e, refl)
  after_send_ends send_buf (ok n) = elim (Bool-cases (n == length send_buf)) [
    | inl whole ↦ rw whole (read_reply_ends socket.recv_from_full)
    | inr part ↦ rw part (err (other "Failed to send request"), refl)
  ]

  after_bind_ends :
      (send_buf : List ℕ) (r : Result (Unit {0}) IoError)
      → (x : Result (List R) IoError) × (after_bind send_buf r ≡ done x)
  after_bind_ends send_buf (err e) = (err e, refl)
  after_bind_ends send_buf (ok _) = after_send_ends send_buf (socket.send send_buf)

  after_new_ends :
      (send_buf : List ℕ) (r : Result (Unit {0}) IoError)
      → (x : Result (List R) IoError) × (after_new send_buf r ≡ done x)
  after_new_ends send_buf (err e) = (err e, refl)
  after_new_ends send_buf (ok _) = after_bind_ends send_buf socket.bind

  -- Whatever the calls of the socket come to, and whatever bytes are received and however they are
  -- decoded, `netlink` ends with results or an error: it neither runs forever nor panics.
  pub netlink_ends :
      (send_buf : List ℕ) → (x : Result (List R) IoError) × (netlink send_buf ≡ done x)
  unfolding netlink
  netlink_ends send_buf = after_new_ends send_buf socket.new
