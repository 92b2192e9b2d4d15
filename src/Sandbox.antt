-- ===== src/Sandbox.antt =====
-- `SandboxPolicy` and `SandboxLab` (agi_platform/sandbox/core.py). `shlex.join` is a parameter, and so is
-- `subprocess.run` in a fresh workspace, with the environment and the limits of the process. The limits
-- and the timings, which go to the system or come from it, are left out.
pub mod Permitted
use agi_platform.Prelude.{
  occurs, prefix, ℕ, zero, suc, ◌*◌, min, String, ◌==◌, List, [], ◌∷◌, ◌++◌, Bool, true, false, not,
  ◌||◌, Option, none, some, or_else, any, contains, ltb, starts_with, Result, ok, raise,
  if◌then◌else◌,
}

abbrev pub default_commands : List String
default_commands = "python" ∷ "python3" ∷ "echo" ∷ []

abbrev pub denied_tokens : List String
denied_tokens =
    "/var/run/docker.sock" ∷ "docker.sock" ∷ "169.254.169.254" ∷ "metadata.google.internal"
    ∷ "100.100.100.200" ∷ "/etc/passwd" ∷ "/root" ∷ "/home" ∷ "/proc/sys" ∷ "/sys" ∷ "127.0.0.1"
    ∷ "10.0.0.1" ∷ "192.168." ∷ "172.16." ∷ "mount" ∷ "unshare" ∷ "nsenter" ∷ "curl" ∷ "wget" ∷ "nc"
    ∷ "nmap" ∷ "ssh" ∷ []

pub record SandboxIsolationProfile : Type 0 where
  pub isolation : String
  pub non_root : Bool
  pub read_only_rootfs : Bool
  pub ephemeral_workspace : Bool
  pub no_host_mounts : Bool
  pub docker_socket : String
  pub dropped_capabilities : List String
  pub seccomp : String
  pub apparmor : String
  pub selinux : String
  pub network_default : String
  pub secret_mounts : String

abbrev pub default_profile : SandboxIsolationProfile
default_profile = record {
  isolation = "container-or-microvm-required";
  non_root = true;
  read_only_rootfs = true;
  ephemeral_workspace = true;
  no_host_mounts = true;
  docker_socket = "blocked";
  dropped_capabilities = "ALL" ∷ [];
  seccomp = "runtime-default";
  apparmor = "runtime-default-if-available";
  selinux = "enforcing-if-available";
  network_default = "disabled";
  secret_mounts = "none";
}

pub record SandboxPolicy : Type 0 where
  pub allowed_commands : List String
  pub timeout_seconds : ℕ
  pub max_timeout_seconds : ℕ
  pub cpu_seconds : ℕ
  pub memory_bytes : ℕ
  pub max_output_bytes : ℕ
  pub pid_limit : ℕ
  pub disk_bytes : ℕ
  pub network : String
  pub network_allowlist : List String
  pub isolation_profile : SandboxIsolationProfile

abbrev pub default_policy : SandboxPolicy
default_policy = record {
  allowed_commands = default_commands;
  timeout_seconds = 5;
  max_timeout_seconds = 10;
  cpu_seconds = 2;
  memory_bytes = 128 * 1024 * 1024;
  max_output_bytes = 64 * 1024;
  pid_limit = 16;
  disk_bytes = 16 * 1024 * 1024;
  network = "host-disabled-by-policy";
  network_allowlist = [];
  isolation_profile = default_profile;
}

pub data SandboxFailure : Type 0 where
  value_error os_error : SandboxFailure

-- How a process ends: it completes, its time is over, or it cannot be started.
pub data Process : Type 0 where
  completed : ℕ → String → String → Process
  timeout_expired : Option String → Option String → Process
  not_started : Process

pub record RunResult : Type 0 where
  pub command : List String
  pub returncode : ℕ
  pub stdout : String
  pub stderr : String
  pub timed_out : Bool
  pub workspace_cleaned : Bool

pub record SandboxLab : Type 0 where
  pub runs : List RunResult
  pub policy : SandboxPolicy

pub record System : Type 1 where
  pub World : Type 0
  pub shlex_join : List String → String
  pub subprocess_run : World → List String → ℕ → World × Process

module _ (system : System) where
  -- `SandboxPolicy.validate`
  unfoldable pub validate : SandboxPolicy → List String → ℕ → Result SandboxFailure ℕ
  unfolding occurs
  validate policy [] timeout_seconds = raise value_error
  validate policy (name ∷ arguments) timeout_seconds =
      if not (contains name policy.allowed_commands)
      then raise value_error
      else if any (λ token. occurs token (system.shlex_join (name ∷ arguments))) denied_tokens
      then raise value_error
      else if ltb timeout_seconds 1
      then raise value_error
      else ok (min timeout_seconds policy.max_timeout_seconds)

  -- The command that is run.
  unfoldable pub actual : List String → List String
  actual [] = []
  actual (name ∷ arguments) = if name == "python" then "python3" ∷ arguments else name ∷ arguments

  -- The result of a process that was started.
  unfoldable pub result_of : SandboxPolicy → List String → Process → Option RunResult
  unfolding prefix
  result_of policy command (completed returncode stdout stderr) = some (record {
    command = command;
    returncode = returncode;
    stdout = prefix policy.max_output_bytes stdout;
    stderr = prefix policy.max_output_bytes stderr;
    timed_out = false;
    workspace_cleaned = true;
  })
  result_of policy command (timeout_expired stdout stderr) = some (record {
    command = command;
    returncode = 124;
    stdout = prefix policy.max_output_bytes (or_else stdout "");
    stderr = prefix policy.max_output_bytes (or_else stderr "");
    timed_out = true;
    workspace_cleaned = true;
  })
  result_of policy command not_started = none

  unfoldable pub recorded :
      SandboxLab → Option RunResult → SandboxLab × Result SandboxFailure RunResult
  recorded lab none = (lab, raise os_error)
  recorded lab (some result) = (record lab { runs = lab.runs ++ (result ∷ []) }, ok result)

  -- `SandboxLab.execute`, with the command and the time limit that were given to the system, if any.
  unfoldable pub execute :
      system.World
      → SandboxLab
      → List String
      → ℕ
      → Option (List String × ℕ) × system.World × (SandboxLab × Result SandboxFailure RunResult)
  unfolding validate actual result_of recorded
  execute w lab command timeout_seconds = elim (validate lab.policy command timeout_seconds) [
    | raise e ↦ (none, w, (lab, raise e))
    | ok timeout ↦
        let (w', process) = system.subprocess_run w (actual command) timeout in
        (
          some (actual command, timeout),
          w',
          recorded lab (result_of lab.policy (actual command) process),
        )
  ]

  -- The key "status" of `SandboxLab.capability_check`, which runs `echo`.
  unfoldable pub capability_status :
      system.World → SandboxLab → SandboxLab × Result SandboxFailure String
  unfolding execute
  capability_status w lab =
      let (_, _, (lab', result)) = execute w lab ("echo" ∷ "sandbox-ready" ∷ []) 1 in
      (lab', status result)
    where
      status : Result SandboxFailure RunResult → Result SandboxFailure String
      status (raise e) = raise e
      status (ok result) = ok (if result.stdout == "sandbox-ready\n" then "ready" else "not-ready")
