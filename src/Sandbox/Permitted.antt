-- ===== src/Sandbox/Permitted.antt =====
-- What the sandbox runs (agi_platform/sandbox/core.py).
use agi_platform.Prelude.{
  ℕ, ◌≤◌, String, occurs, List, [], ◌∷◌, true, false, some, any, contains, Result-cases, ok, ◌≡◌,
  refl, inl, inr, arith,
}
use agi_platform.Sandbox.{
  denied_tokens, SandboxPolicy, System, SandboxLab, validate, actual, execute,
}

module _ (system : System) where
  -- The command that a caller may run for so long: an allowed program, in whose text no denied token
  -- occurs, for at least a second and at most the limit.
  pub record IsPermitted (policy : SandboxPolicy) (command : List String) (timeout : ℕ)
      : Type 0 where
    pub program : String
    pub arguments : List String
    pub is_command : command ≡ program ∷ arguments
    pub allowed : contains program policy.allowed_commands ≡ true
    pub harmless : any (λ token. occurs token (system.shlex_join command)) denied_tokens ≡ false
    pub long : timeout ≤ policy.max_timeout_seconds

  validate-IsPermitted :
      (policy : SandboxPolicy) (command : List String) (asked timeout : ℕ)
      → validate system policy command asked ≡ ok timeout
      → IsPermitted policy command timeout × (timeout ≤ asked) × (1 ≤ asked)
  unfolding validate
  validate-IsPermitted policy [] asked timeout h = cc
  validate-IsPermitted policy (name ∷ arguments) asked timeout h = (
    record {
      program = name;
      arguments = arguments;
      is_command = refl;
      allowed = ground (arith, h);
      harmless = ground (arith, h);
      long = ground (arith, h);
    },
    ground (arith, h),
    ground (arith, h),
  )

  -- Whatever the sandbox runs, for a caller, is what the caller asked for, with `python3` for `python`,
  -- and is permitted: its program is allowed, no denied token occurs in its text as it was asked for, and
  -- it gets at most the time that was asked for, which is a second at least, and the limit.
  pub execute-IsPermitted :
      (w : system.World) (lab : SandboxLab) (command run : List String) (asked timeout : ℕ)
      → (execute system w lab command asked).0 ≡ some (run, timeout)
      → (run ≡ actual system command)
        × IsPermitted lab.policy command timeout
        × ((timeout ≤ asked) × (1 ≤ asked))
  unfolding execute
  execute-IsPermitted w lab command run asked timeout h =
      elim (Result-cases (validate system lab.policy command asked)) [
        | inr (e, failed) ↦ let h' = rw (failed, execute) at h in cc
        | inl (given, passed) ↦
            let h' = rw (passed, execute) at h in
            let same : given ≡ timeout = ground (arith, h') in
            let (permitted, less, least) =
              validate-IsPermitted lab.policy command asked timeout (rw same at passed) in
            (ground (arith, h'), permitted, (less, least))
      ]
