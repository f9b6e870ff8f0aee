-- ===== src/XdpProg.antt =====
-- xdp-util/src/xdp_prog.rs. The library libbpf is not part of the repository: its replies are a
-- parameter.
pub mod Lifetime
mod Tests
use Prim.Native.String.{String}
use xdp_rs.Prelude.{
  ℕ, zero, suc, Bool, true, false, List, [], ◌∷◌, Result, ok, err, IoError, other, os, context,
  ◌==◌, if◌then◌else◌,
}
use xdp_rs.Prelude.Words.{as_u32}
use xdp_rs.System.{last_os_error, map_err}

-- The calls that took effect. Pointers are numbers, the null pointer is 0.
pub data BpfCall : Type 0 where
  open_mem : ℕ → BpfCall
  load : ℕ → BpfCall
  attach_xdp : ℕ → ℕ → BpfCall
  destroy : ℕ → BpfCall
  close : ℕ → BpfCall

-- What each function of libbpf comes to, after the calls so far. `bpf_xdp_query` fills in the feature
-- flags or sets the error number.
pub record LibBpf : Type 0 where
  pub bpf_object_open_mem : List BpfCall → List ℕ → ℕ
  pub bpf_object_load : List BpfCall → ℕ → ℕ
  pub bpf_object_find_program_by_name : List BpfCall → ℕ → List ℕ → ℕ
  pub bpf_program_attach_xdp : List BpfCall → ℕ → ℕ → ℕ
  pub bpf_xdp_query : ℕ → Result ℕ ℕ

-- `code` and `name` are bytes.
pub record OwnedXdpProg : Type 0 where
  pub if_index : ℕ
  pub code : List ℕ
  pub name : List ℕ
  pub bpf_obj : ℕ
  pub bpf_link : ℕ

-- `Drop for OwnedXdpProg`
abbrev pub destroyed : ℕ → List BpfCall → List BpfCall
destroyed bpf_link log = if bpf_link == 0 then log else destroy bpf_link ∷ log

abbrev pub closed : ℕ → List BpfCall → List BpfCall
closed bpf_obj log = if bpf_obj == 0 then log else close bpf_obj ∷ log

unfoldable pub drop_prog : OwnedXdpProg → List BpfCall → List BpfCall
drop_prog prog log = closed prog.bpf_obj (destroyed prog.bpf_link log)

-- `CString::new` refuses a byte 0.
abbrev pub has_zero : List ℕ → Bool
has_zero [] = false
has_zero (b ∷ rest) = if b == 0 then true else has_zero rest

-- An early return drops the program as it stands.
abbrev pub failed :
    OwnedXdpProg → String → List BpfCall → Result OwnedXdpProg IoError × List BpfCall
failed prog message log = (err (other message), drop_prog prog log)

module _ (bpf : LibBpf) where
  -- The calls of `xdp_attach_program` from the last on, each with the test of what it gives.
  abbrev pub attach : OwnedXdpProg → ℕ → List BpfCall → Result OwnedXdpProg IoError × List BpfCall
  attach prog bpf_prog log =
      let bpf_link = bpf.bpf_program_attach_xdp log bpf_prog prog.if_index in
      if bpf_link == 0
      then failed prog "Failed to attach XDP program" log
      else (ok (record prog { bpf_link = bpf_link }), attach_xdp bpf_link prog.if_index ∷ log)

  abbrev pub find : OwnedXdpProg → List BpfCall → Result OwnedXdpProg IoError × List BpfCall
  find prog log =
      let bpf_prog = bpf.bpf_object_find_program_by_name log prog.bpf_obj prog.name in
      if has_zero prog.name
      then failed prog "nul byte found in provided data" log
      else if bpf_prog == 0
      then failed prog "Failed to find BPF program" log
      else attach prog bpf_prog log

  abbrev pub load_found : OwnedXdpProg → List BpfCall → Result OwnedXdpProg IoError × List BpfCall
  load_found prog log =
      if bpf.bpf_object_load log prog.bpf_obj == 0
      then find prog (load prog.bpf_obj ∷ log)
      else failed prog "Failed to load BPF object" log

  unfoldable pub xdp_attach_program :
      ℕ → List ℕ → List ℕ → List BpfCall → Result OwnedXdpProg IoError × List BpfCall
  xdp_attach_program if_index code name log =
      let bpf_obj = bpf.bpf_object_open_mem log code in
      let prog : OwnedXdpProg = record {
        if_index = if_index;
        code = code;
        name = name;
        bpf_obj = bpf_obj;
        bpf_link = 0;
      } in
      if bpf_obj == 0
      then failed prog "Failed to open BPF object from memory" log
      else load_found prog (open_mem bpf_obj ∷ log)

  -- `opts.feature_flags as u32`
  abbrev pub cut_flags : Result ℕ IoError → Result ℕ IoError
  cut_flags (ok flags) = ok (as_u32 flags)
  cut_flags (err e) = err e

  unfoldable pub xdp_features : ℕ → Result ℕ IoError
  xdp_features if_index =
      cut_flags
        (map_err "Failed to query XDP features: " (last_os_error (bpf.bpf_xdp_query if_index)))
