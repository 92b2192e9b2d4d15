-- ===== src/Tests/Sandbox.antt =====
-- The theorem on the sandbox with a system that greets (agi_platform/sandbox/core.py).
use agi_platform.Prelude.{
  ℕ, ◌≤◌, String, ◌+++◌, List, [], ◌∷◌, none, some, occurs, prefix, contains, starts_with, ok, ◌≡◌,
  refl,
}
use agi_platform.Sandbox.{
  default_policy, System, SandboxLab, completed, validate, actual, result_of, recorded, execute,
  capability_status,
}
use agi_platform.Sandbox.Permitted.{IsPermitted, execute-IsPermitted}

abbrev spaced : List String → String
spaced [] = ""
spaced (word ∷ words) = word +++ " " +++ spaced words

abbrev system : System
system = record {
  World = ℕ;
  shlex_join = spaced;
  subprocess_run = λ w command timeout. (w, completed 0 "sandbox-ready\n" "");
}

abbrev lab : SandboxLab
lab = record { runs = []; policy = default_policy }

runs_python :
    (execute system 0 lab ("python" ∷ "main.py" ∷ []) 30).0 ≡ some ("python3" ∷ "main.py" ∷ [], 10)
unfolding execute validate actual result_of recorded occurs prefix contains starts_with
runs_python = refl

refuses_curl : (execute system 0 lab ("echo" ∷ "curl" ∷ []) 5).0 ≡ none
unfolding execute validate actual result_of recorded occurs prefix contains starts_with
refuses_curl = refl

-- The text "nc" is denied wherever it occurs.
refuses_once : (execute system 0 lab ("echo" ∷ "once" ∷ []) 5).0 ≡ none
unfolding execute validate actual result_of recorded occurs prefix contains starts_with
refuses_once = refl

is_ready : (capability_status system 0 lab).1 ≡ ok "ready"
unfolding capability_status execute validate actual result_of recorded occurs prefix contains
    starts_with
is_ready = refl

execute-IsPermitted_example :
    (("python3" ∷ "main.py" ∷ []) ≡ actual system ("python" ∷ "main.py" ∷ []))
    × IsPermitted system default_policy ("python" ∷ "main.py" ∷ []) 10
    × ((10 ≤ 30) × (1 ≤ 30))
execute-IsPermitted_example =
    execute-IsPermitted system 0 lab ("python" ∷ "main.py" ∷ []) ("python3" ∷ "main.py" ∷ []) 30 10
      runs_python
