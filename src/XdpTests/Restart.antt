-- ===== src/XdpTests/Restart.antt =====
-- A program of xdp-tests restarts itself at most once.
use mathlib.Core.List.{append-nil, append_assoc}
use xdp_rs.Prelude.{
  [], ◌≡◌, refl, ap, sym, ◌∙◌, Bool, true, false, Option, none, some, List, ◌∷◌, ◌++◌, Result, ok,
  err, IoError, Bool-cases, inl, inr,
}
use xdp_rs.Mmap.Meminfo.{Text}
use xdp_rs.XdpTests.Command.{
  codes, Shell, Capability, lacks, join, names, Launch, Env, returned, replaced, checked,
  execute_sudo_command, executed, with_caps, with_exe, restart, is_one, with_permitted,
  restart_with_caps,
}

-- The names of the capabilities, each but the first behind a comma.
abbrev pub more_caps : (Capability → Text) → List Capability → Text
more_caps name [] = []
more_caps name (c ∷ cs) = codes "," ++ (name c ++ more_caps name cs)

abbrev pub all_caps : (Capability → Text) → List Capability → Text
all_caps name [] = []
all_caps name (c ∷ cs) = name c ++ more_caps name cs

join-names :
    (name : Capability → Text) (cs : List Capability) → join (names name cs) ≡ all_caps name cs
join-names name [] = refl
join-names name (c ∷ []) = sym (append-nil (name c))
join-names name (c ∷ d ∷ rest) =
    append_assoc (name c) (codes ",") (join (names name (d ∷ rest)))
    ∙ ap (λ (t : Text). name c ++ (codes "," ++ t)) (join-names name (d ∷ rest))

-- What a call leaves that has replaced the process: the variable is set, and one command was run, which
-- gave the program's own file, at `path`, the capabilities.
abbrev pub Restarted : Launch → List Capability → Env → Env → Type 0
Restarted l my_caps env env' =
    (path : Text) × (l.current_exe ≡ ok (some path))
    × (env'.restarted ≡ some (codes "1"))
    × (env'.log
        ≡ record {
          command = codes "setcap " ++ all_caps l.name my_caps ++ codes "+eip " ++ path;
          success = true;
        }
          ∷ env.log)

module _ (sh : Shell) (l : Launch) (my_caps : List Capability) (env env' : Env) where
  executed-Restarted :
      (u : Env) (o : Option IoError) → executed sh l u o ≡ (replaced, env') → u ≡ env'
  executed-Restarted u none e = ap (λ z. z.1) e
  executed-Restarted u (some x) e = let no = ap (λ z. z.0) e in cc

  with_caps-Restarted :
      (u : Env) (command : Text) (r : Result Bool IoError)
      → with_caps sh l u (checked sh command u.log r) ≡ (replaced, env')
      → record u { log = record { command = command; success = true } ∷ u.log } ≡ env'
  with_caps-Restarted u command (err x) e = let no = ap (λ z. z.0) e in cc
  with_caps-Restarted u command (ok false) e = let no = ap (λ z. z.0) e in cc
  with_caps-Restarted u command (ok true) e = executed-Restarted _ l.execvp e

  with_exe-Restarted :
      (u : Env) (r : Result (Option Text) IoError)
      → l.current_exe ≡ r
      → u.restarted ≡ some (codes "1")
      → u.log ≡ env.log
      → with_exe sh l my_caps u r ≡ (replaced, env')
      → Restarted l my_caps env env'
  unfolding execute_sudo_command
  with_exe-Restarted u (err x) exe set same e = let no = ap (λ z. z.0) e in cc
  with_exe-Restarted u (ok none) exe set same e = let no = ap (λ z. z.0) e in cc
  with_exe-Restarted u (ok (some path)) exe set same e =
      let command = codes "setcap " ++ join (names l.name my_caps) ++ codes "+eip " ++ path in
      let end = with_caps-Restarted u command (sh.sudo u.log command) e in
      (
        path,
        exe,
        ap (λ (z : Env). z.restarted) (sym end) ∙ set,
        ap (λ (z : Env). z.log) (sym end)
            ∙ (ap (λ t. record { command = command; success = true } ∷ t) same
                ∙ ap
                    (λ (t : Text).
                      record {
                        command = codes "setcap " ++ t ++ codes "+eip " ++ path;
                        success = true;
                      }
                      ∷ env.log)
                    (join-names l.name my_caps)),
      )

  restart-Restarted :
      (perm_caps : List Capability) (u : Env)
      → u.restarted ≡ some (codes "1")
      → u.log ≡ env.log
      → restart sh l my_caps perm_caps u ≡ (replaced, env')
      → Restarted l my_caps env env'
  restart-Restarted perm_caps u set same e = elim (Bool-cases (lacks perm_caps my_caps)) [
    | inl missing ↦ with_exe-Restarted u l.current_exe refl set same (rw missing at e)
    | inr complete ↦ let no = ap (λ z. z.0) (rw complete at e) in cc
  ]

  with_permitted-Restarted :
      (permitted effective : Result (List Capability) IoError)
      → with_permitted sh l my_caps env permitted effective ≡ (replaced, env')
      → Restarted l my_caps env env'
  with_permitted-Restarted (err x) effective e = let no = ap (λ z. z.0) e in cc
  with_permitted-Restarted (ok perm_caps) (err x) e = let no = ap (λ z. z.0) e in cc
  with_permitted-Restarted (ok perm_caps) (ok effect_caps) e =
      elim (Bool-cases (is_one sh l env.restarted)) [
        | inl again ↦ let no = ap (λ z. z.0) (rw again at e) in cc
        | inr first ↦
            restart-Restarted perm_caps (record env { restarted = some (codes "1") }) refl refl
              (rw first at e)
      ]

-- A process that was started with the variable set does not restart.
second_start :
    (sh : Shell) (l : Launch) (my_caps : List Capability) (env : Env)
    (perm_caps effect_caps : List Capability)
    → env.restarted ≡ some (codes "1")
    → l.permitted ≡ ok perm_caps
    → l.effective ≡ ok effect_caps
    → restart_with_caps sh l my_caps env ≡ (returned (ok tt), env)
unfolding restart_with_caps
second_start sh l my_caps env perm_caps effect_caps set permitted effective =
    rw (permitted, effective, set) refl

-- Where `restart_with_caps` replaces the process, the variable `RESTARTED` is 1 and one command was run,
-- with success: `setcap`, with the names of the capabilities asked for, separated by commas, then `+eip`,
-- and the path that `current_exe` gives. The process then started, if it can read its capabilities, goes
-- on from the same call, runs no command, and is not replaced again, whatever capabilities it has.
pub restarts_once :
    (sh sh' : Shell) (l l' : Launch) (my_caps perm_caps effect_caps : List Capability)
    (env env' : Env)
    → restart_with_caps sh l my_caps env ≡ (replaced, env')
    → l'.permitted ≡ ok perm_caps
    → l'.effective ≡ ok effect_caps
    → Restarted l my_caps env env'
      × (restart_with_caps sh' l' my_caps env' ≡ (returned (ok tt), env'))
unfolding restart_with_caps
restarts_once sh sh' l l' my_caps perm_caps effect_caps env env' ran permitted effective =
    let end = with_permitted-Restarted sh l my_caps env env' l.permitted l.effective ran in
    (end, second_start sh' l' my_caps env' perm_caps effect_caps (end.2) permitted effective)
