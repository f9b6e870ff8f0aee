-- ===== src/XdpTests/PingEnds.antt =====
-- `run_pinger` on a working system: it comes to an end.
use xdp_rs.Prelude.{◌≡◌, Run, done, Result, err, IoError}
use xdp_rs.Ring.Const
use xdp_rs.System
use xdp_rs.System.{Process}
use xdp_rs.Router
use xdp_rs.Router.{Router}
use xdp_rs.XdpTests.Machine.{Machine}

-- It has returned an error.
pub record IsRefused (x : Run (Result (Unit {0}) IoError × Machine)) : Type 0 where
  pub error : IoError
  pub machine : Machine
  pub ran : x ≡ done (err error, machine)
