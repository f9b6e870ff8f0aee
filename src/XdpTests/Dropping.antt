-- ===== src/XdpTests/Dropping.antt =====
-- The parts of the example xdp_sender that take something, and give it back.
use xdp_rs.Prelude.{
  ℕ, ◌+◌, ◌^◌, ◌≤◌, ◌<◌, ◌≡◌, refl, ◌∙◌, arith, Bool, true, Option, none, some, List, [], Build,
  done, Result, ok, err, IoError, length, ◌==◌, Bool-cases, inl, inr,
}
use xdp_rs.Mmap.{use_huge}
use xdp_rs.Mmap.Meminfo.{Text}
use xdp_rs.Ring.Const
use xdp_rs.Socket.{TxSocket}
use xdp_rs.Socket.Kick.{Reply}
use xdp_rs.Socket.Ownership.Steps.{IsOwned}
use xdp_rs.Socket.Ownership.Start.{first_frames}
use xdp_rs.System
use xdp_rs.System.{Call, Process, Resource}
use xdp_rs.Router.{NextHop}
use xdp_rs.XdpProg.{BpfCall, OwnedXdpProg, drop_prog}
use xdp_rs.XdpProg.Lifetime.{in_use, Balanced}
use xdp_rs.MacByIfindex.{mac_by_ifindex}
use xdp_rs.MacByIfindex.Closing.{mac_by_ifindex_closes}
use xdp_rs.Create.{create_tx_socket}
use xdp_rs.Create.Honest.{Grants, IsNumbered}
use xdp_rs.Create.Balance.{held, IsSane}
use xdp_rs.Create.Made.{create_tx_lem}
use xdp_rs.Create.Lifetime.{used_dropped}
use xdp_rs.XdpTests.Addresses.{SocketAddr}
use xdp_rs.XdpTests.Machine.{
  Outside, Machine, App, then_app, ◌>>=◌, map_err, finally, on_process, attached, drop_program,
  answered, drop_tx,
}
use xdp_rs.XdpTests.Meanwhile.{OnlyCompletes}
use xdp_rs.XdpTests.Sender.{Memory}
use xdp_rs.XdpTests.SenderMain.{Args, fields_of, send_from, send_with}
use xdp_rs.XdpTests.Rounds.{send_packets_lem}
use xdp_rs.XdpTests.Leaving.{Leaves}

-- What a drop of the program leaves in use depends on what was in use alone.
in_use-drop_prog :
    (prog : OwnedXdpProg) (log log' : List BpfCall)
    → in_use log ≡ in_use log'
    → in_use (drop_prog prog log) ≡ in_use (drop_prog prog log')
unfolding drop_prog
in_use-drop_prog prog log log' same = elim (Bool-cases (prog.bpf_link == 0)) [
  | inl unlinked ↦ elim (Bool-cases (prog.bpf_obj == 0)) [
    | inl null ↦ rw (unlinked, null) same
    | inr opened ↦ rw (unlinked, opened, same) refl
  ]
  | inr linked ↦ elim (Bool-cases (prog.bpf_obj == 0)) [
    | inl null ↦ rw (linked, null, same) refl
    | inr opened ↦ rw (linked, opened, same) refl
  ]
]

-- A program is attached, used, and dropped.
pub attached-Leaves :
    (o : Outside) (m : Machine) (f : App (Unit {0}))
    (x : Result OwnedXdpProg IoError × List BpfCall)
    → Balanced m.bpf_log x
    → ((m' : Machine) → m'.process ≡ m.process → Leaves m' (f m'))
    → Leaves m
        (System.after_run (then_app (λ prog. finally (drop_program o prog) f)) (attached o m x))
attached-Leaves o m f (err e, log) same rest = record {
  result = err e;
  machine = record m { bpf_log = log };
  ran = refl;
  held_again = λ r. refl;
  in_use_again = same;
}
attached-Leaves o m f (ok prog, log) (on_top, dropped) rest =
    let end = rest (record m { bpf_log = log }) refl in
    record {
      result = end.result;
      machine = drop_program o prog end.machine;
      ran = rw end.ran;
      held_again = end.held_again;
      in_use_again = in_use-drop_prog prog end.machine.bpf_log log end.in_use_again ∙ dropped;
    }

module _ (o : Outside) (sendto : ℕ → ℕ → Reply) (meanwhile : ℕ → TxSocket → TxSocket) (b : Build)
    (mem : Memory) (parse_duration : Text → Option ℕ) (q : ℕ) (huge : Bool)
    (grants : Grants o.libc o.kernel) (numbered : IsNumbered o.libc) (sane : IsSane o.libc o.kernel)
    (page : o.kernel.page_size ≡ 2 ^ q) (small : q ≤ 30) (settled : use_huge none o.info ≡ ok huge)
    (checks : b.checks ≡ true) (honest : OnlyCompletes 12 meanwhile) (args : Args)
    (short : 42 + length args.text < Const.frame_size) (src dst : SocketAddr) (hop : NextHop)
    (mac : List ℕ) (known : hop.mac_addr ≡ some mac) where
  -- With the socket `t` in hand, whatever `mac_by_ifindex` comes to.
  send_from-Leaves :
      (if_index : ℕ) (m : Machine) (t : TxSocket) (p' : Process) (r : Result (List ℕ) IoError)
      (log : List Call)
      → held m.process.log ≡ m.process.live
      → create_tx_socket o.libc o.kernel o.info b if_index 0 none m.process ≡ done (ok t, p')
      → IsOwned 12 (first_frames Const.frame_count) (record { socket = t; held = [] })
      → held log ≡ held p'.log
      → Leaves m (
          send_from o sendto meanwhile b mem parse_duration args src dst hop t
            (r, record m { process = record p' { log = log } }))
  send_from-Leaves if_index m t p' (err e) log account ran owned same_held = record {
    result = err e;
    machine = drop_tx o t (record m { process = record p' { log = log } });
    ran = refl;
    held_again = λ r.
        used_dropped o.libc o.kernel o.info b if_index 0 q none huge m.process grants numbered page
          small settled t t p' log r sane account ran refl same_held;
    in_use_again = refl;
  }
  send_from-Leaves if_index m t p' (ok src_mac) log account ran owned same_held =
      let all =
        send_packets_lem o.libc o.builder sendto meanwhile b
          (fields_of o sendto meanwhile b mem parse_duration src dst src_mac) mac args.text 12
          Const.frame_count (omega arith) checks short args.count 0
          (record { socket = t; held = [] }) mem honest owned in
      let s = all.world.socket in
      record {
        result = all.result;
        machine = drop_tx o s (record m { process = record p' { log = log } });
        ran = rw (known, all.ran);
        held_again = λ r.
            used_dropped o.libc o.kernel o.info b if_index 0 q none huge m.process grants numbered
              page small settled t s p' log r sane account ran all.same_areas same_held;
        in_use_again = refl;
      }

  answered-Leaves :
      (if_index : ℕ) (m : Machine) (t : TxSocket) (p' : Process)
      (x : Result (List ℕ) IoError × List Call)
      → held m.process.log ≡ m.process.live
      → create_tx_socket o.libc o.kernel o.info b if_index 0 none m.process ≡ done (ok t, p')
      → IsOwned 12 (first_frames Const.frame_count) (record { socket = t; held = [] })
      → held (x.1) ≡ held p'.log
      → Leaves m (
          System.after_run
            (send_from o sendto meanwhile b mem parse_duration args src dst hop t)
            (answered o (record m { process = p' }) x))
  answered-Leaves if_index m t p' (r, log) account ran owned same_held =
      send_from-Leaves if_index m t p' r log account ran owned same_held

  -- From the creation of the socket on.
  pub socket-Leaves :
      (if_index : ℕ) (m : Machine)
      → held m.process.log ≡ m.process.live
      → Leaves m (
          (do
            s ←
                map_err "Failed to create XDP socket: "
                  (on_process (create_tx_socket o.libc o.kernel o.info b if_index 0 none))
            send_with o sendto meanwhile b mem parse_duration if_index args src dst hop s)
            m)
  socket-Leaves if_index m account =
      let made =
        create_tx_lem o.libc o.kernel o.info b if_index 0 q none huge m.process grants numbered page
          small settled in
      rw made.2 (
        answered-Leaves if_index m (made.0) (made.1) (mac_by_ifindex o.device if_index made.1.log)
          account (made.2) (made.3) (mac_by_ifindex_closes o.device if_index made.1.log))
