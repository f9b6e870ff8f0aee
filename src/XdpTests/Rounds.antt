-- ===== src/XdpTests/Rounds.antt =====
-- The loop of xdp-tests/examples/xdp_sender.rs on a socket in use.
use xdp_rs.Prelude.{
  ℕ, zero, suc, ◌+◌, ◌≤◌, ◌<◌, ◌≡◌, refl, ◌∙◌, true, some, List, Build, Run, done, Result, ok, err,
  IoError, length,
}
use xdp_rs.Libc.{Libc}
use xdp_rs.Ring.Const
use xdp_rs.Socket.{TxSocket}
use xdp_rs.Socket.Kick.{Reply}
use xdp_rs.Socket.Send.{Bytes}
use xdp_rs.Socket.Ownership.Steps.{World, IsOwned}
use xdp_rs.Socket.Ownership.Start.{first_frames}
use xdp_rs.Packet.Header.{Fields, Written}
use xdp_rs.Create.Dropped.{Owns, owns}
use xdp_rs.XdpTests.Meanwhile.{OnlyCompletes, Completed-IsOwned, owns-Completed}
use xdp_rs.XdpTests.Sender.{Memory, Round, next_packet, send_packets}
use xdp_rs.XdpTests.Delivery.{send_packet_lem}

-- The loop has returned, with each frame in one place.
pub record Delivers (k n : ℕ) (areas : Owns) (x : Run Round) : Type 0 where
  pub result : Result (Unit {0}) IoError
  pub world : World
  pub memory : Memory
  pub ran : x ≡ done (result, world.socket, memory)
  pub owned : IsOwned k (first_frames n) world
  pub same_areas : owns world.socket ≡ areas

Delivers-from :
    {k n : ℕ} {a a' : Owns} {x : Run Round} → a ≡ a' → Delivers k n a x → Delivers k n a' x
Delivers-from {k} {n} {a} {a'} {x} e d = record {
  result = d.result;
  world = d.world;
  memory = d.memory;
  ran = d.ran;
  owned = d.owned;
  same_areas = d.same_areas ∙ e;
}

module _ (c : Libc) (builder : Fields → List ℕ → Written) (sendto : ℕ → ℕ → Reply)
    (meanwhile : ℕ → TxSocket → TxSocket) (b : Build) (fields : List ℕ → Fields) (mac : List ℕ)
    (text : Bytes) (k n : ℕ) (few : n ≤ Const.frame_count) (checks : b.checks ≡ true)
    (short : 42 + length text < Const.frame_size) where
  -- The loop, as long as a round goes on.
  next_packet_lem :
      (go : TxSocket → Memory → Run Round) (i : ℕ) (v : World) (mem : Memory)
      (r : Result (Unit {0}) IoError)
      → OnlyCompletes k meanwhile
      → IsOwned k (first_frames n) v
      → ((u : World) (m : Memory)
          → IsOwned k (first_frames n) u
          → Delivers k n (owns u.socket) (go u.socket m))
      → Delivers k n
          (owns v.socket)
          (next_packet c builder sendto meanwhile b fields (some mac) text go i (r, v.socket, mem))
  next_packet_lem go i v mem (err e) honest o rest = record {
    result = err e;
    world = v;
    memory = mem;
    ran = refl;
    owned = o;
    same_areas = refl;
  }
  next_packet_lem go i v mem (ok _) honest o rest =
      let later = honest i v in
      rw (← later.1) (
        Delivers-from (owns-Completed (later.2))
          (rest (later.0) mem (Completed-IsOwned o (later.2))))

  pub send_packets_lem :
      (count i : ℕ) (v : World) (mem : Memory)
      → OnlyCompletes k meanwhile
      → IsOwned k (first_frames n) v
      → Delivers k n
          (owns v.socket)
          (send_packets c builder sendto meanwhile b fields (some mac) text count i v.socket mem)
  unfolding send_packets
  send_packets_lem zero i v mem honest o = record {
    result = ok tt;
    world = v;
    memory = mem;
    ran = refl;
    owned = o;
    same_areas = refl;
  }
  send_packets_lem (suc count) i v mem honest o =
      let round =
        send_packet_lem c builder sendto meanwhile b fields mac text k n few checks short i v mem
          o in
      rw round.ran (
        Delivers-from round.same_areas (
          next_packet_lem
            (send_packets c builder sendto meanwhile b fields (some mac) text count (i + 1)) i
            round.world round.memory round.result honest round.owned
            (λ u m o'. send_packets_lem count (i + 1) u m honest o')))
