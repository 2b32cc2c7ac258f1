-- ===== src/Server/Web/Badges/Shown.antt =====
-- A badge shows what the table then says.
use csl.Prelude.{
  sym, subst, Result-cases, ◌∙◌, All, suc, ok, true, err, Result, distinct_by, any, Text, inr, inl,
  Option-cases, ℕ, [], ◌∷◌, false, List, Bool, nat_eq, ◌≡◌, arith, refl,
}
use csl.Shared.Models.{ScriptDescriptor}
use csl.Server.Core.ScriptSync.Sync.{TargetState, ScriptTargetState, upsert_state, row_of}
use csl.Server.Web.Badges.{
  refresh_admission, staged_scripts, User, refresh_over, HttpException, cached_badges,
  refresh_staged, sync_states, JobTables, ClientError, told, refresh_all, Agent, Surroundings, Aead,
  StateFormat, ScriptRow, Numbers, Platform, Badge, cached_badge, fresh_badge,
}
use csl.Server.Core.ScriptSync.Agrees.{row_of-upsert_state}
use csl.Agent.Runner as AgentRunner
use csl.Agent.Approvals.Data.{Platform}
use csl.Shared.ScriptMeta.{Numbers}
use csl.Server.Core.Registry.Table.{ScriptRow}
use csl.Agent.Processes.Records.{StateFormat}
use csl.Server.Core.Crypto.{decrypt, Aead}
use csl.Server.Api.Jobs.Client.{opened, decrypted, platform_name, Surroundings}
use csl.Agent.Api.Wire.{Agent}
use csl.Server.Core.AgentClient.{ensure_agent_running, get_script_state, ClientError}
use csl.Server.Api.Jobs.{JobTables}
use csl.Server.Core.Errors.{HttpException}
use csl.Agent.Runner.{}
use csl.Server.Api.Machines.{Machine}
use csl.Server.Auth.Sessions.{User}

abbrev pub Shows : ℕ → List ScriptTargetState → Badge → Type 0
Shows machine_id rows b =
    cached_badge b.script_id (row_of machine_id b.script_id rows) b.agent_unreachable ≡ b

row_of-upsert_other :
    (machine_id i j : ℕ) (state : TargetState) (d : ScriptDescriptor) (now : ℕ)
    (rows : List ScriptTargetState)
    → nat_eq i j ≡ false
    → row_of machine_id j (upsert_state machine_id i state d now rows) ≡ row_of machine_id j rows
unfolding row_of upsert_state
row_of-upsert_other machine_id i j state d now [] h = ground arith
row_of-upsert_other machine_id i j state d now (row ∷ rows) h =
    ground (arith, row_of-upsert_other machine_id i j state d now rows)

cached_badge-Shows :
    (machine_id i : ℕ) (unreachable : Bool) (rows : List ScriptTargetState)
    → Shows machine_id rows (cached_badge i (row_of machine_id i rows) unreachable)
unfolding cached_badge
cached_badge-Shows machine_id i unreachable rows = elim (Option-cases (row_of machine_id i rows)) [
  | inl e ↦ ground arith
  | inr (r, e) ↦ ground arith
]

fresh_badge-Shows :
    (machine_id i : ℕ) (state : TargetState) (d : ScriptDescriptor) (now : ℕ)
    (rows : List ScriptTargetState)
    → Shows machine_id (upsert_state machine_id i state d now rows) (fresh_badge i state d)
unfolding cached_badge
fresh_badge-Shows machine_id i state d now rows =
    rw (row_of-upsert_state machine_id i state d now rows) refl

-- Another number, whose row is the same, keeps its badge.
Shows-same :
    (machine_id : ℕ) (b : Badge) (rows later : List ScriptTargetState)
    → row_of machine_id b.script_id later ≡ row_of machine_id b.script_id rows
    → Shows machine_id rows b
    → Shows machine_id later b
Shows-same machine_id b rows later e h = rw e h

abbrev pub same_script : Text × ScriptRow → Text × ScriptRow → Bool
same_script p q = nat_eq p.1.id q.1.id

abbrev same_id : ℕ → Text × ScriptRow → Bool
same_id j q = nat_eq j q.1.id

module _ (io : Platform) {nums : Numbers} (m : AgentRunner.Machine nums) (fmt : StateFormat)
    (aead : Aead) (w : Surroundings (Agent io.Doc fmt.Doc)) where
  told-Shows :
      (machine_id : ℕ) (row : ScriptRow) (found : Result ClientError ScriptDescriptor)
      (t : JobTables)
      → let (b, t') = told io m fmt aead w machine_id row found t in
        Shows machine_id t'.target_states b × (b.script_id ≡ row.id)
  unfolding told
  told-Shows machine_id row (err e) t = (
    cached_badge-Shows machine_id row.id true t.target_states,
    unfold cached_badge in
        elim (Option-cases (row_of machine_id row.id t.target_states)) [
          | inl e ↦ ground arith
          | inr (r, e) ↦ ground arith
        ],
  )
  told-Shows machine_id row (ok d) t =
      (fresh_badge-Shows machine_id row.id _ d w.now t.target_states, refl)

  told-other :
      (machine_id : ℕ) (row : ScriptRow) (found : Result ClientError ScriptDescriptor)
      (t : JobTables) (j : ℕ)
      → nat_eq row.id j ≡ false
      → row_of machine_id j (told io m fmt aead w machine_id row found t).1.target_states
        ≡ row_of machine_id j t.target_states
  unfolding told
  told-other machine_id row (err e) t j h = refl
  told-other machine_id row (ok d) t j h =
      row_of-upsert_other machine_id row.id j _ d w.now t.target_states h

  refresh_all-other :
      (auth : Text) (n machine_id : ℕ) (staged : List (Text × ScriptRow)) (t : JobTables)
      (a : Agent io.Doc fmt.Doc) (j : ℕ)
      → any (same_id j) staged ≡ false
      → row_of machine_id j
          (refresh_all io m fmt aead w auth n machine_id staged t a).1.target_states
        ≡ row_of machine_id j t.target_states
  unfolding refresh_all any
  refresh_all-other auth n machine_id [] t a j h = refl
  refresh_all-other auth n machine_id ((name, row) ∷ staged) t a j h =
      let (found, a') = get_script_state io m fmt w.link auth n name a in
      let (b, t') = told io m fmt aead w machine_id row found t in
      refresh_all-other auth (suc n) machine_id staged t' a' j (ground arith)
      ∙ told-other machine_id row found t j (ground arith)

  refresh_all-Shows :
      (auth : Text) (n machine_id : ℕ) (staged : List (Text × ScriptRow)) (t : JobTables)
      (a : Agent io.Doc fmt.Doc)
      → distinct_by same_script staged ≡ true
      → let (badges, t', a') = refresh_all io m fmt aead w auth n machine_id staged t a in
        All (Shows machine_id t'.target_states) badges
  unfolding refresh_all distinct_by
  refresh_all-Shows auth n machine_id [] t a h = tt
  refresh_all-Shows auth n machine_id ((name, row) ∷ staged) t a h =
      let (found, a') = get_script_state io m fmt w.link auth n name a in
      let (b, t') = told io m fmt aead w machine_id row found t in
      let (shown, same) = told-Shows machine_id row found t in
      (
        Shows-same machine_id b t'.target_states
            (refresh_all io m fmt aead w auth (suc n) machine_id staged t' a').1.target_states
            (refresh_all-other auth (suc n) machine_id staged t' a' b.script_id
              (subst (λ i. any (same_id i) staged ≡ false) (sym same) (ground arith)))
            shown,
        refresh_all-Shows auth (suc n) machine_id staged t' a' (ground arith),
      )

  cached_badges-Shows :
      (machine_id : ℕ) (t : JobTables) (staged : List (Text × ScriptRow))
      → All (Shows machine_id t.target_states) (cached_badges io m fmt aead w machine_id t staged)
  cached_badges-Shows machine_id t [] = tt
  cached_badges-Shows machine_id t ((name, row) ∷ staged) = (
    cached_badge-Shows machine_id row.id true t.target_states,
    cached_badges-Shows machine_id t staged,
  )

  abbrev pub AllShown :
      ℕ → Result HttpException (List Badge) × JobTables × Agent io.Doc fmt.Doc → Type 0
  AllShown machine_id (ok badges, t, a) = All (Shows machine_id t.target_states) badges
  AllShown machine_id (err e, t, a) = Unit

  refresh_over-AllShown :
      (auth : Text) (machine_id : ℕ) (machine : Machine) (staged : List (Text × ScriptRow))
      (t : JobTables) (a : Agent io.Doc fmt.Doc)
      → distinct_by same_script staged ≡ true
      → AllShown machine_id (refresh_over io m fmt aead w auth machine_id machine staged t a)
  unfolding refresh_over
  refresh_over-AllShown auth machine_id machine staged t a h =
      let (up, b) = ensure_agent_running io m fmt w.link auth (platform_name machine.platform) a in
      elim (Result-cases up) [
        | inl (u, k) ↦ rw (refresh_over, k) (refresh_all-Shows auth 5 machine_id staged t b h)
        | inr (e, k) ↦ rw (refresh_over, k) (cached_badges-Shows machine_id t staged)
      ]

  refresh_staged-AllShown :
      (machine_id : ℕ) (machine : Machine) (staged : List (Text × ScriptRow)) (t : JobTables)
      (a : Agent io.Doc fmt.Doc)
      → distinct_by same_script staged ≡ true
      → AllShown machine_id (refresh_staged io m fmt aead w machine_id machine staged t a)
  unfolding refresh_staged
  refresh_staged-AllShown machine_id machine [] t a h = tt
  refresh_staged-AllShown machine_id machine (s ∷ staged) t a h =
      elim (Result-cases (decrypted (decrypt aead machine.ssh_key_encrypted w.master_key))) [
        | inr (e, k) ↦ rw (refresh_staged, k) tt
        | inl (key, k) ↦ elim (Result-cases (opened aead w machine)) [
          | inr (e, l) ↦ rw (refresh_staged, k, l) (cached_badges-Shows machine_id t (s ∷ staged))
          | inl (auth, l) ↦
              rw (refresh_staged, k, l)
                (refresh_over-AllShown auth machine_id machine (s ∷ staged) t a h)
        ]
      ]

  -- Where the scripts have different numbers, every badge that `sync_states` answers with shows what the
  -- row of its script says at the end, whether the agent was reached for it or not.
  pub sync_states-AllShown :
      (by_name : List (Text × ScriptRow) → List (Text × ScriptRow)) (machine_id : ℕ) (user : User)
      (t : JobTables) (a : Agent io.Doc fmt.Doc)
      → distinct_by same_script
          (by_name (staged_scripts io m fmt aead w machine_id t.scripts t.target_states))
        ≡ true
      → AllShown machine_id (sync_states io m fmt aead w by_name machine_id user t a)
  unfolding sync_states
  sync_states-AllShown by_name machine_id user t a h =
      elim (Result-cases (refresh_admission io m fmt aead w machine_id user t)) [
        | inr (e, k) ↦ rw (sync_states, k) tt
        | inl (machine, k) ↦
            rw (sync_states, k)
              (refresh_staged-AllShown machine_id machine
                (by_name (staged_scripts io m fmt aead w machine_id t.scripts t.target_states)) t a
                h)
      ]
