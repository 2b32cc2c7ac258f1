-- ===== src/Server/Core/Builtin/Seeded.antt =====
-- What a seeding leaves, and that a second one finds nothing to do.
use csl.Prelude.{
  Result-cases, Option-cases, all, map, [], refl, ℕ, Text, Dict, Text_Eq, ◌==◌, [], ◌∷◌, List, some,
  true, false, ok, Bool, all, map, member, lookup, lookup-insert, Option, ◌≡◌, arith, refl,
  text_eq_iff, if◌then◌else◌, Bool-cases, inl, inr,
}
use csl.Server.Core.Registry.Table.{ScriptTables, ScriptRow, create_script, new_row}
use csl.Server.Core.Builtin.{
  BuiltinScript, SeedResult, seed_all, seed_builtin_scripts, iter_builtin_scripts,
}

module _ (md5 : Text → Text) (parse_persistent : Text → Option Bool)
    (new_id : ScriptTables → ℕ) where
  created-lookup :
      (i : ℕ) (name content : Text) (meta : Option Text) (user_id now : ℕ) (t : ScriptTables)
      (j : Text) {u : ScriptTables}
      → create_script md5 parse_persistent i name content meta user_id now t ≡ ok u
      → lookup j u.scripts ≡ (
          if name == j
          then some (new_row md5 parse_persistent i content meta user_id now)
          else lookup j t.scripts)
  unfolding create_script
  created-lookup i name content meta user_id now t j e = ground (
    arith,
    lookup-insert name j (new_row md5 parse_persistent i content meta user_id now) t.scripts,
  )

  -- Every row of the first table is in the second.
  abbrev pub Keeps : ScriptTables → ScriptTables → Type 0
  Keeps t u = (j : Text) (r : ScriptRow) → lookup j t.scripts ≡ some r → lookup j u.scripts ≡ some r

  created-Keeps :
      (b : BuiltinScript) (user_id now : ℕ) (t : ScriptTables) {u : ScriptTables}
      → member b.name t.scripts ≡ false
      → create_script md5 parse_persistent (new_id t) b.name b.content b.meta_yaml user_id now t
        ≡ ok u
      → (member b.name u.scripts ≡ true) × Keeps t u
  unfolding member
  created-Keeps b user_id now t h e = (
    ground (
      arith,
      created-lookup (new_id t) b.name b.content b.meta_yaml user_id now t b.name e,
      text_eq_iff b.name b.name,
    ),
    λ j r k. ground (
      arith,
      created-lookup (new_id t) b.name b.content b.meta_yaml user_id now t j e,
      text_eq_iff b.name j,
    ),
  )

  -- The first round of the loop, and the others.
  seed_all-round :
      (b : BuiltinScript) (builtins : List BuiltinScript) (user_id now : ℕ) (t : ScriptTables)
      {after : ScriptTables} {r : SeedResult}
      → seed_all md5 parse_persistent new_id (b ∷ builtins) user_id now t ≡ ok (after, r)
      → (u : ScriptTables) × (s : SeedResult) × (seed_all md5 parse_persistent new_id builtins
            user_id now u
          ≡ ok (after, s))
        × (member b.name u.scripts ≡ true)
        × Keeps t u
  unfolding seed_all
  seed_all-round b builtins user_id now t {after} {r} e =
      elim (Bool-cases (member b.name t.scripts)) [
        | inl h ↦
            elim (Result-cases (seed_all md5 parse_persistent new_id builtins user_id now t)) [
              | inl ((v, s), p) ↦ (t, s, ground arith, h, λ j r k. k)
              | inr (x, p) ↦ absurd (ground arith)
            ]
        | inr h ↦
            elim (Result-cases (
              create_script md5 parse_persistent (new_id t) b.name b.content b.meta_yaml user_id now
                t)) [
                  | inr (x, p) ↦ absurd (ground arith)
                  | inl (u, p) ↦
                      elim (Result-cases
                        (seed_all md5 parse_persistent new_id builtins user_id now u)) [
                          | inr (x, q) ↦ absurd (ground arith)
                          | inl ((v, s), q) ↦
                              let (there, kept) = created-Keeps b user_id now t h p in
                              (u, s, ground arith, there, kept)
                        ]
                ]
      ]

  seed_all-Keeps :
      (builtins : List BuiltinScript) (user_id now : ℕ) (t : ScriptTables) {after : ScriptTables}
      {r : SeedResult}
      → seed_all md5 parse_persistent new_id builtins user_id now t ≡ ok (after, r)
      → Keeps t after
  unfolding seed_all
  seed_all-Keeps [] user_id now t e j r k = ground arith
  seed_all-Keeps (b ∷ builtins) user_id now t e j r k =
      let (u, s, p, there, kept) = seed_all-round b builtins user_id now t e in
      seed_all-Keeps builtins user_id now u p j r (kept j r k)

  member-Keeps :
      (t u : ScriptTables) (j : Text)
      → Keeps t u
      → member j t.scripts ≡ true
      → member j u.scripts ≡ true
  unfolding member
  member-Keeps t u j kept h = elim (Option-cases (lookup j t.scripts)) [
    | inl k ↦ absurd (ground arith)
    | inr (r, k) ↦ ground (arith, kept j r k)
  ]

  seed_all-member :
      (builtins : List BuiltinScript) (user_id now : ℕ) (t : ScriptTables) {after : ScriptTables}
      {r : SeedResult}
      → seed_all md5 parse_persistent new_id builtins user_id now t ≡ ok (after, r)
      → all (λ b. member b.name after.scripts) builtins ≡ true
  unfolding all
  seed_all-member [] user_id now t e = refl
  seed_all-member (b ∷ builtins) user_id now t {after} e =
      let (u, s, p, there, kept) = seed_all-round b builtins user_id now t e in
      ground (
        arith,
        member-Keeps u after b.name (seed_all-Keeps builtins user_id now u p) there,
        seed_all-member builtins user_id now u p,
      )

  seed_all-done :
      (builtins : List BuiltinScript) (user_id now : ℕ) (t : ScriptTables)
      → all (λ b. member b.name t.scripts) builtins ≡ true
      → seed_all md5 parse_persistent new_id builtins user_id now t
        ≡ ok (t, record { created = []; skipped = map (λ b. b.name) builtins })
  unfolding seed_all all
  seed_all-done [] user_id now t h = refl
  seed_all-done (b ∷ builtins) user_id now t h =
      ground (arith, seed_all-done builtins user_id now t)

  -- A seeding leaves every row as it was that was there before, whatever an administrator has made of it;
  -- and another one afterwards, by any user and at any time, creates nothing and changes nothing.
  pub seed_builtin_scripts-Keeps :
      (base : Dict Text Text) (user_id now : ℕ) (t : ScriptTables) (later_user later : ℕ)
      {after : ScriptTables} {r : SeedResult}
      → seed_builtin_scripts md5 parse_persistent new_id base user_id now t ≡ ok (after, r)
      → Keeps t after
        × (seed_builtin_scripts md5 parse_persistent new_id base later_user later after
            ≡ ok (
              after,
              record { created = []; skipped = map (λ b. b.name) (iter_builtin_scripts base) },
            ))
  unfolding seed_builtin_scripts
  seed_builtin_scripts-Keeps base user_id now t later_user later {after} e = (
    seed_all-Keeps (iter_builtin_scripts base) user_id now t e,
    seed_all-done (iter_builtin_scripts base) later_user later after
        (seed_all-member (iter_builtin_scripts base) user_id now t e),
  )
