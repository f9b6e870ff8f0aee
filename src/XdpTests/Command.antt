-- ===== src/XdpTests/Command.antt =====
-- xdp-tests/src/nettest/suite/command.rs. What a command comes to is a parameter.
use Prim.Native.Char.{code}
use Prim.Native.String.{String}
use xdp_rs.Prelude.{
  ℕ, Bool, true, false, not, ◌||◌, Option, none, some, List, [], ◌∷◌, ◌++◌, Result, ok, err,
  IoError, other, ◌==◌, if◌then◌else◌,
}
use xdp_rs.Mmap.Meminfo.{Text, same_text}

-- The code points of a literal.
abbrev pub codes : String → Text
codes String.[] = []
codes (String.◌∷◌ c s) = code c ∷ codes s

-- A command that was run by `sudo sh -c`, and whether it succeeded.
pub record Ran : Type 0 where
  pub command : Text
  pub success : Bool

-- `output()` of `sudo sh -c`, and of `ip link show`, after the commands so far: an error if the program
-- cannot be started, else whether it succeeds.
pub record Shell : Type 0 where
  pub sudo : List Ran → Text → Result Bool IoError
  pub ip_link_show : List Ran → Text → Result Bool IoError

-- A computation that runs commands; the log has the newest first.
abbrev pub Script : Type 0 → Type 0
Script A = List Ran → Result A IoError × List Ran

abbrev pub then_script :
    {A B : Type 0} → (A → Script B) → Result A IoError × List Ran → Result B IoError × List Ran
then_script f (ok a, log) = f a log
then_script f (err e, log) = (err e, log)

infixl 5 ◌>>=◌ ◌>>◌
abbrev pub ◌>>=◌ : {A B : Type 0} → Script A → (A → Script B) → Script B
◌>>=◌ x f log = then_script f (x log)

abbrev pub ◌>>◌ : {A B : Type 0} → Script A → Script B → Script B
x >> y = x >>= λ _. y

abbrev pub pure : {A : Type 0} → A → Script A
pure a log = (ok a, log)

module _ (sh : Shell) where
  -- The test of the status.
  abbrev pub checked : Text → List Ran → Result Bool IoError → Result (Unit {0}) IoError × List Ran
  checked command log (err e) = (err e, log)
  checked command log (ok false) = (
    err (other "Command failed with status "),
    record { command = command; success = false } ∷ log,
  )
  checked command log (ok true) = (ok tt, record { command = command; success = true } ∷ log)

  unfoldable pub execute_sudo_command : Text → Script (Unit {0})
  execute_sudo_command command log = checked command log (sh.sudo log command)

-- A capability, as its number; its name is given by the crate caps.
abbrev pub Capability : Type 0
Capability = ℕ

abbrev pub contains : List Capability → Capability → Bool
contains [] c = false
contains (x ∷ xs) c = x == c || contains xs c

-- `my_caps.iter().any(|c| !perm_caps.contains(c))`
abbrev pub lacks : List Capability → List Capability → Bool
lacks perm_caps [] = false
lacks perm_caps (c ∷ cs) = not (contains perm_caps c) || lacks perm_caps cs

-- `join(",")`
abbrev pub join : List Text → Text
join [] = []
join (t ∷ []) = t
join (t ∷ u ∷ rest) = t ++ codes "," ++ join (u ∷ rest)

abbrev pub names : (Capability → Text) → List Capability → List Text
names name [] = []
names name (c ∷ cs) = name c ∷ names name cs

-- What the process finds: its capabilities, its path, as text if it is one, and the error of `execvp`, which
-- returns only on an error.
pub record Launch : Type 0 where
  pub permitted : Result (List Capability) IoError
  pub effective : Result (List Capability) IoError
  pub name : Capability → Text
  pub current_exe : Result (Option Text) IoError
  pub execvp : Option IoError

-- The variable `RESTARTED`, as far as it is text, and the commands run.
pub record Env : Type 0 where
  pub restarted : Option Text
  pub log : List Ran

-- A call returns, or the process runs its program anew.
pub data Outcome : Type 0 where
  returned : Result (Unit {0}) IoError → Outcome
  replaced : Outcome

module _ (sh : Shell) (l : Launch) where
  abbrev pub executed : Env → Option IoError → Outcome × Env
  executed env none = (replaced, env)
  executed env (some e) = (returned (err (other "")), env)

  abbrev pub with_caps : Env → Result (Unit {0}) IoError × List Ran → Outcome × Env
  with_caps env (err e, log) = (returned (err e), record env { log = log })
  with_caps env (ok _, log) = executed (record env { log = log }) l.execvp

  abbrev pub with_exe : List Capability → Env → Result (Option Text) IoError → Outcome × Env
  with_exe my_caps env (err e) = (returned (err e), env)
  with_exe my_caps env (ok none) =
      (returned (err (other "Failed to get current executable path")), env)
  with_exe my_caps env (ok (some path)) = with_caps env (
      execute_sudo_command sh
        (codes "setcap " ++ join (names l.name my_caps) ++ codes "+eip " ++ path) env.log)

  -- From the test of the variable on.
  abbrev pub restart : List Capability → List Capability → Env → Outcome × Env
  restart my_caps perm_caps env =
      if lacks perm_caps my_caps
      then with_exe my_caps env l.current_exe
      else (returned (ok tt), env)

  abbrev pub is_one : Option Text → Bool
  is_one none = false
  is_one (some val) = same_text val (codes "1")

  abbrev pub with_permitted :
      List Capability
      → Env
      → Result (List Capability) IoError
      → Result (List Capability) IoError
      → Outcome × Env
  with_permitted my_caps env (err e) effective = (returned (err (other "")), env)
  with_permitted my_caps env (ok perm_caps) (err e) = (returned (err (other "")), env)
  with_permitted my_caps env (ok perm_caps) (ok effect_caps) =
      if is_one env.restarted
      then (returned (ok tt), env)
      else restart my_caps perm_caps (record env { restarted = some (codes "1") })

  unfoldable pub restart_with_caps : List Capability → Env → Outcome × Env
  restart_with_caps my_caps env = with_permitted my_caps env l.permitted l.effective

  -- `setup`. The logger is left out.
  unfoldable pub setup : List Capability → Env → Outcome × Env
  setup [] env = (returned (ok tt), env)
  setup (c ∷ cs) env = restart_with_caps (c ∷ cs) env
