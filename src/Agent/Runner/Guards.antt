-- ===== src/Agent/Runner/Guards.antt =====
-- What stands behind every command that the agent runs.
use csl.Prelude.{
  refl, text_eq_iff, inr, Option-cases, if◌then◌else◌, inl, ◌⊎◌, Text, Text_Eq, true, Option, none,
  some, List, [], ◌∷◌, ok, Dict, lookup, member, ◌≡◌, arith,
}
use csl.Shared.Models.{approved, ScriptDescriptor}
use csl.Shared.ScriptMeta.{Numbers}
use csl.Agent.Params.{Params}
use csl.Agent.Runner.{
  linux_extensions, windows_extensions, Machine, find_script, first_candidate,
  verify_script_integrity, build_command, check_job_params, prepare,
}

first_candidate-member :
    (name : Text) (scripts : Dict Text Text) (exts : List Text) {script_file : Text}
    → first_candidate name scripts exts ≡ some script_file
    → member script_file scripts ≡ true
unfolding first_candidate
first_candidate-member name scripts [] e = cc
first_candidate-member name scripts (ext ∷ exts) {script_file} e =
    ground (arith, first_candidate-member name scripts exts {script_file = script_file})

module _ {nums : Numbers} (m : Machine nums) (name : Text) (params : Params nums.Number) where
  -- A prepared command belongs to an approved script whose parameters pass, and runs a file that is
  -- in the scripts directory and has the approved MD5, if the descriptor has one.
  pub record IsGuarded (d : ScriptDescriptor) (scripts : Dict Text Text) (script_file : Text)
      (command : List Text) : Type 0 where
    pub approved_state : d.state ≡ approved
    pub params_pass : check_job_params m name scripts params ≡ ok tt
    pub content : Text
    pub on_disk : lookup script_file scripts ≡ some content
    pub intact : (d.approved_md5 ≡ none) ⊎ (d.approved_md5 ≡ some (m.md5 content))
    pub runs : build_command m script_file ≡ ok command

  found-member :
      (scripts : Dict Text Text) {script_file : Text}
      → find_script m name scripts ≡ ok script_file
      → member script_file scripts ≡ true
  unfolding find_script
  found-member scripts {script_file} e =
      let exts = if m.is_windows then windows_extensions else linux_extensions in
      ground (arith, first_candidate-member name scripts exts {script_file = script_file})

  intact_of :
      (o : Option Text) (script_file : Text) (scripts : Dict Text Text) (c : Text)
      → lookup script_file scripts ≡ some c
      → verify_script_integrity m script_file scripts o ≡ ok tt
      → (o ≡ none) ⊎ (o ≡ some (m.md5 c))
  unfolding verify_script_integrity
  intact_of none script_file scripts c q v = inl refl
  intact_of (some h) script_file scripts c q v = inr (ground (arith, text_eq_iff (m.md5 c) h))

  -- What `prepare` hands over for execution is guarded: the script is approved, the parameters pass,
  -- and the file is in the scripts directory with the approved MD5, if the descriptor has one.
  pub prepare-IsGuarded :
      (d : ScriptDescriptor) (scripts : Dict Text Text) {script_file : Text} {command : List Text}
      → prepare m name params d scripts ≡ ok (script_file, command)
      → IsGuarded d scripts script_file command
  unfolding prepare
  prepare-IsGuarded d scripts {script_file} {command} e =
      let found : find_script m name scripts ≡ ok script_file = ground arith in
      elim (Option-cases (lookup script_file scripts)) [
        | inl n ↦ absurd (
            unfold member in
            ground (arith, found-member scripts {script_file = script_file}, found))
        | inr (c, q) ↦ record {
          approved_state = ground arith;
          params_pass = ground arith;
          content = c;
          on_disk = q;
          intact = intact_of d.approved_md5 script_file scripts c q (ground arith);
          runs = ground arith;
        }
      ]
