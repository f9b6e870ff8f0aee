-- ===== src/XdpProg/Lifetime.antt =====
-- The objects and links of libbpf over the life of an attached program.
use xdp_rs.Prelude.{
  ℕ, ◌≡◌, refl, arith, Bool, true, false, List, [], ◌∷◌, Result, ok, err, IoError, ◌==◌,
  if◌then◌else◌, Bool-cases, inl, inr,
}
use xdp_rs.XdpProg.{
  BpfCall, open_mem, load, attach_xdp, destroy, close, LibBpf, OwnedXdpProg, drop_prog, has_zero,
  attach, find, load_found, xdp_attach_program,
}

-- An object that is open, or a link that is attached.
pub data BpfResource : Type 0 where
  object : ℕ → BpfResource
  link : ℕ → BpfResource

abbrev pub same : BpfResource → BpfResource → Bool
same (object p) (object q) = p == q
same (object p) (link q) = false
same (link p) (object q) = false
same (link p) (link q) = p == q

abbrev pub without : BpfResource → List BpfResource → List BpfResource
without r [] = []
without r (x ∷ rest) = if same r x then rest else x ∷ without r rest

-- What is open after the calls of a log, newest first.
abbrev pub in_use : List BpfCall → List BpfResource
in_use [] = []
in_use (open_mem o ∷ log) = object o ∷ in_use log
in_use (attach_xdp l i ∷ log) = link l ∷ in_use log
in_use (load o ∷ log) = in_use log
in_use (destroy l ∷ log) = without (link l) (in_use log)
in_use (close o ∷ log) = without (object o) (in_use log)

-- What a result leaves in use: nothing new after an error; and after a success a link on top of an
-- object, of which the drop of the program leaves nothing.
abbrev pub Balanced : List BpfCall → Result OwnedXdpProg IoError × List BpfCall → Type 0
Balanced log (err e, log') = in_use log' ≡ in_use log
Balanced log (ok prog, log') =
    (in_use log' ≡ link prog.bpf_link ∷ object prog.bpf_obj ∷ in_use log)
    × (in_use (drop_prog prog log') ≡ in_use log)

-- In the middle of `xdp_attach_program`, with the object open and no link.
module _ (bpf : LibBpf) (log : List BpfCall) (prog : OwnedXdpProg)
    (opened : (prog.bpf_obj == 0) ≡ false) (unlinked : prog.bpf_link ≡ 0) where
  self : (prog.bpf_obj == prog.bpf_obj) ≡ true
  self = ground arith

  dropped :
      (log' : List BpfCall)
      → in_use log' ≡ object prog.bpf_obj ∷ in_use log
      → in_use (drop_prog prog log') ≡ in_use log
  unfolding drop_prog
  dropped log' h = rw (unlinked, opened, h, self)

  linked :
      (log' : List BpfCall) (l : ℕ)
      → (l == 0) ≡ false
      → in_use log' ≡ object prog.bpf_obj ∷ in_use log
      → Balanced log (ok (record prog { bpf_link = l }), attach_xdp l prog.if_index ∷ log')
  unfolding drop_prog
  linked log' l there h =
      let own : (l == l) ≡ true = ground arith in (rw h refl, rw (there, opened, own, h, self))

  attach_lem :
      (log' : List BpfCall) (bpf_prog : ℕ)
      → in_use log' ≡ object prog.bpf_obj ∷ in_use log
      → Balanced log (attach bpf prog bpf_prog log')
  attach_lem log' bpf_prog h =
      elim (Bool-cases (bpf.bpf_program_attach_xdp log' bpf_prog prog.if_index == 0)) [
        | inl null ↦ rw null (dropped log' h)
        | inr there ↦ rw there (linked log' _ there h)
      ]

  find_lem :
      (log' : List BpfCall)
      → in_use log' ≡ object prog.bpf_obj ∷ in_use log
      → Balanced log (find bpf prog log')
  find_lem log' h = elim (Bool-cases (has_zero prog.name)) [
    | inl nul ↦ rw nul (dropped log' h)
    | inr plain ↦
        elim (Bool-cases (bpf.bpf_object_find_program_by_name log' prog.bpf_obj prog.name == 0)) [
          | inl null ↦ rw (plain, null) (dropped log' h)
          | inr there ↦ rw (plain, there) (attach_lem log' _ h)
        ]
  ]

  load_found_lem :
      (log' : List BpfCall)
      → in_use log' ≡ object prog.bpf_obj ∷ in_use log
      → Balanced log (load_found bpf prog log')
  load_found_lem log' h = elim (Bool-cases (bpf.bpf_object_load log' prog.bpf_obj == 0)) [
    | inl loaded ↦ rw loaded (find_lem (load prog.bpf_obj ∷ log') h)
    | inr refused ↦ rw refused (dropped log' h)
  ]

drop_nothing :
    (prog : OwnedXdpProg) (log : List BpfCall)
    → prog.bpf_link ≡ 0
    → (prog.bpf_obj == 0) ≡ true
    → in_use (drop_prog prog log) ≡ in_use log
unfolding drop_prog
drop_nothing prog log unlinked null = rw (unlinked, null) refl

-- Whatever libbpf replies, and whatever is in use before the call: if `xdp_attach_program` fails, the
-- same objects and links are in use after it as before; if it succeeds, its object and its link are in
-- use on top of them, and the drop of the returned program leaves what was in use before.
pub xdp_attach_program_lem :
    (bpf : LibBpf) (if_index : ℕ) (code name : List ℕ) (log : List BpfCall)
    → Balanced log (xdp_attach_program bpf if_index code name log)
unfolding xdp_attach_program
xdp_attach_program_lem bpf if_index code name log =
    elim (Bool-cases (bpf.bpf_object_open_mem log code == 0)) [
      | inl null ↦ rw null (drop_nothing _ log refl null)
      | inr opened ↦
          (let prog : OwnedXdpProg = record {
            if_index = if_index;
            code = code;
            name = name;
            bpf_obj = bpf.bpf_object_open_mem log code;
            bpf_link = 0;
          } in
            rw opened (load_found_lem bpf log prog opened refl (open_mem prog.bpf_obj ∷ log) refl))
    ]
