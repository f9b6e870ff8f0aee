-- ===== src/XdpProg/Tests.antt =====
-- An object whose program is attached, or is missing.
use xdp_rs.Prelude.{◌≡◌, refl, [], ◌∷◌, ok, err, other}
use xdp_rs.XdpProg.{LibBpf, open_mem, load, close, xdp_attach_program, drop_prog}
use xdp_rs.XdpProg.Lifetime.{Balanced, xdp_attach_program_lem}

abbrev bpf : LibBpf
bpf = record {
  bpf_object_open_mem = λ log code. 4096;
  bpf_object_load = λ log obj. 0;
  bpf_object_find_program_by_name = λ log obj name. 5000;
  bpf_program_attach_xdp = λ log prog if_index. 6000;
  bpf_xdp_query = λ if_index. ok 3;
}

abbrev without_program : LibBpf
without_program = record bpf { bpf_object_find_program_by_name = λ log obj name. 0 }

xdp_attach_program_lem_example :
    Balanced (open_mem 77 ∷ []) (xdp_attach_program bpf 2 (1 ∷ []) (65 ∷ []) (open_mem 77 ∷ []))
xdp_attach_program_lem_example = xdp_attach_program_lem bpf 2 (1 ∷ []) (65 ∷ []) (open_mem 77 ∷ [])

missing :
    xdp_attach_program without_program 2 (1 ∷ []) (65 ∷ []) []
    ≡ (err (other "Failed to find BPF program"), close 4096 ∷ load 4096 ∷ open_mem 4096 ∷ [])
unfolding xdp_attach_program drop_prog
missing = refl
