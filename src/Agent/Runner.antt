-- ===== src/Agent/Runner.antt =====
-- control_station_lite/agent/script_runner.py: from the name of a script to the command that runs it.
-- A script directory is a dictionary of file contents by file name.
pub mod Guards
use csl.Prelude.{
  ◌>>◌, ◌>>=◌, ℕ_Eq, ◌+◌, not, ◌==◌, ◌&&◌, leb, map, any, if◌then◌else◌, ℕ, zero, ℤ, pos, negsuc,
  Text, Text_Eq, codes, Bool, true, false, Option, none, some, List, [], ◌∷◌, ◌++◌, Result, ok, err,
  Dict, lookup, member, insert,
}
use csl.Shared.Models.{ApprovalState_Eq, ApprovalState, approved, ScriptDescriptor}
use csl.Shared.ScriptMeta.{Numbers, Value, ParamDescriptor, ScriptMeta}
use csl.Agent.Params.{ParamError, Params, validate_params}
use csl.Agent.Approvals.Data.{Platform, Host, meta_name}
use csl.Agent.Approvals.Manager.{get_state}

-- The exceptions of the module; `bad_meta` is the one of `parse_meta_yaml`.
pub data RunError : Type 0 where
  script_not_approved : ApprovalState → RunError
  bad_params : List ParamError → RunError
  bad_meta : RunError
  script_not_found : RunError
  script_integrity : RunError

-- What the runner asks of the machine and of the libraries: the platform, MD5 in hexadecimal, the
-- metadata in a YAML text, the text of a parameter value, and the environment of the agent.
pub record Machine (nums : Numbers) : Type 1 where
  pub is_windows : Bool
  pub md5 : Text → Text
  pub parse_meta : Text → Option (ScriptMeta nums.Number)
  pub show : Value nums.Number → Text
  pub upper : Text → Text
  pub environ : Dict Text Text

abbrev pub windows_extensions : List Text
windows_extensions = codes ".ps1" ∷ codes ".bat" ∷ codes ".cmd" ∷ [] ∷ []

abbrev pub linux_extensions : List Text
linux_extensions = codes ".sh" ∷ codes ".bash" ∷ [] ∷ []

-- The loop of `find_script` over the extensions.
unfoldable pub first_candidate : Text → Dict Text Text → List Text → Option Text
first_candidate name scripts [] = none
first_candidate name scripts (ext ∷ exts) =
    let rest = first_candidate name scripts exts in
    if member (name ++ ext) scripts then some (name ++ ext) else rest

-- `Path.suffix`: from the last dot, which is neither the first nor the last character. The flag
-- says whether a character stands before.
unfoldable pub suffix_from : Bool → Text → Text
suffix_from inner [] = []
suffix_from inner (c ∷ []) = []
suffix_from inner (c ∷ d ∷ s) =
    let rest = suffix_from true (d ∷ s) in
    if inner && c == b'.' && not (any (λ x. x == b'.') (d ∷ s)) then c ∷ d ∷ s else rest

-- `suffix.lower()`, on ASCII letters
abbrev lower : Text → Text
lower = map (λ c. if leb b'A' c && leb c b'Z' then c + 32 else c)

-- A `ParamValidationError` among the exceptions of the module.
abbrev pub to_run_error : Result (List ParamError) (Unit {0}) → Result RunError (Unit {0})
to_run_error (ok u) = ok u
to_run_error (err es) = err (bad_params es)

abbrev one_of : Text → List Text → Bool
one_of s = any (λ t. s == t)

module _ {nums : Numbers} (m : Machine nums) where
  unfoldable pub find_script : Text → Dict Text Text → Result RunError Text
  unfolding first_candidate
  find_script name scripts =
      elim (first_candidate name scripts
        (if m.is_windows then windows_extensions else linux_extensions)) [
          | none ↦ err script_not_found
          | some path ↦ ok path
        ]

  unfoldable pub build_command : Text → Result RunError (List Text)
  unfolding suffix_from
  build_command path =
      let suffix = lower (suffix_from false path) in
      if one_of suffix (codes ".sh" ∷ codes ".bash" ∷ [])
      then ok (codes "bash" ∷ path ∷ [])
      else if suffix == codes ".ps1"
      then ok (
          codes "powershell"
          ∷ codes "-ExecutionPolicy"
          ∷ codes "Bypass"
          ∷ codes "-NoProfile"
          ∷ codes "-File"
          ∷ path
          ∷ [])
      else if one_of suffix (codes ".bat" ∷ codes ".cmd" ∷ [])
      then ok (codes "cmd" ∷ codes "/c" ∷ path ∷ [])
      else if m.is_windows
      then err script_not_found
      else ok (codes "bash" ∷ path ∷ [])

  unfoldable pub build_env_onto : Params nums.Number → Dict Text Text → Dict Text Text
  build_env_onto [] env = env
  build_env_onto ((key, v) ∷ params) env =
      build_env_onto params (insert (codes "CSL_PARAM_" ++ m.upper key) (m.show v) env)

  unfoldable pub build_env : Params nums.Number → Dict Text Text
  unfolding build_env_onto
  build_env params = build_env_onto params m.environ

  -- `verify_script_integrity`, on the content of the file at `path`
  unfoldable pub verify_script_integrity :
      Text → Dict Text Text → Option Text → Result RunError (Unit {0})
  verify_script_integrity path scripts none = ok tt
  verify_script_integrity path scripts (some approved_md5) = elim (lookup path scripts) [
    | none ↦ err script_not_found
    | some content ↦ if not (m.md5 content == approved_md5) then err script_integrity else ok tt
  ]

  -- `validate_params` behind the reading of the metadata file
  unfoldable pub check_job_params :
      Text → Dict Text Text → Params nums.Number → Result RunError (Unit {0})
  check_job_params name scripts params = elim (lookup (meta_name name) scripts) [
    | none ↦ to_run_error (validate_params nums none params)
    | some text ↦ elim (m.parse_meta text) [
      | none ↦ err bad_meta
      | some meta ↦ to_run_error (validate_params nums (some meta.params) params)
    ]
  ]

  -- The checks that `run_script` and `ProcessManager.start` both make, in their order, down to the
  -- command. The approval state is that of the descriptor which they have just asked for.
  unfoldable pub prepare :
      Text
      → Params nums.Number
      → ScriptDescriptor
      → Dict Text Text
      → Result RunError (Text × List Text)
  prepare name params descriptor scripts = do
    if not (descriptor.state == approved) then err (script_not_approved descriptor.state) else ok tt
    check_job_params name scripts params
    script_path ← find_script name scripts
    verify_script_integrity script_path scripts descriptor.approved_md5
    command ← build_command script_path
    ok (script_path, command)

-- What `subprocess.run` comes back with.
pub data Outcome : Type 0 where
  finished : ℤ → Text → Text → Outcome
  expired : Text → Text → Outcome

pub record ScriptResult : Type 0 where
  pub exit_code : ℤ
  pub stdout : Text
  pub stderr : Text
  pub timed_out : Bool

abbrev pub script_result : Outcome → ScriptResult
script_result (finished code out errs) = record {
  exit_code = code;
  stdout = out;
  stderr = errs;
  timed_out = false;
}
script_result (expired out errs) = record {
  exit_code = negsuc 0;
  stdout = out;
  stderr = errs;
  timed_out = true;
}

-- `run_script`; `execute` is the machine's `subprocess.run`.
unfoldable pub run_script :
    (io : Platform) {nums : Numbers}
    → Machine nums
    → (List Text → Dict Text Text → Outcome)
    → Text
    → Params nums.Number
    → Host io.Doc
    → Result RunError ScriptResult × Host io.Doc
run_script io m execute name params h =
    let (descriptor, h') = get_state io name h in
    (
      elim (prepare m name params descriptor h'.disk.scripts_dir) [
        | err e ↦ err e
        | ok (path, command) ↦ ok (script_result (execute command (build_env m params)))
      ],
      h',
    )
