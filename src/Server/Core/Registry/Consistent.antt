-- ===== src/Server/Core/Registry/Consistent.antt =====
-- The MD5 of a script is always that of its content.
use csl.Prelude.{
  refl, ◌==◌, lookup-insert, inr, Bool-cases, inl, arith, lookup-erase, Dict, insert, erase,
  >>=-eq-ok, Text_Eq, ◌≡◌, lookup, Result, List, Bool, Option, Text, ℕ, none, some, [], ◌∷◌, ok,
  err,
}
use csl.Server.Core.Registry.Table.{
  validate_meta, get_script_or_raise, new_row, delete_script, update_script, is_persistent,
  create_script, RegistryError, ScriptTables, ScriptRow,
}

pub data Request : Type 0 where
  create_it : ℕ → Text → Text → Option Text → ℕ → Request
  update_it : Text → Text → Option Text → ℕ → Request
  delete_it : Text → Request

module _ (md5 : Text → Text) (parse_persistent : Text → Option Bool) where
  abbrev attempt : Request → ℕ → ScriptTables → Result RegistryError ScriptTables
  attempt (create_it i name content meta user_id) now t =
      create_script md5 parse_persistent i name content meta user_id now t
  attempt (update_it name content meta user_id) now t =
      update_script md5 parse_persistent name content meta user_id now t
  attempt (delete_it name) now t = delete_script md5 parse_persistent name t

  -- A request that raises is rolled back.
  abbrev settle : ScriptTables → Result RegistryError ScriptTables → ScriptTables
  settle t (ok t') = t'
  settle t (err e) = t

  unfoldable pub run : List (Request × ℕ) → ScriptTables → ScriptTables
  run [] t = t
  run ((q, now) ∷ qs) t = run qs (settle t (attempt q now t))

  -- What the row of a script says about its content and its metadata, if there is one.
  abbrev pub IsConsistent : Option ScriptRow → Type 0
  IsConsistent none = Unit
  IsConsistent (some r) =
      (r.md5 ≡ md5 r.content) × (r.persistent ≡ is_persistent md5 parse_persistent r.meta_yaml)

  insert-IsConsistent :
      (j name content : Text) (meta : Option Text) (i user_id now : ℕ) (d : Dict Text ScriptRow)
      → IsConsistent (lookup j d)
      → IsConsistent
          (lookup j (insert name (new_row md5 parse_persistent i content meta user_id now) d))
  insert-IsConsistent j name content meta i user_id now d c =
      rw (lookup-insert name j (new_row md5 parse_persistent i content meta user_id now) d)
        (elim (Bool-cases (name == j)) [ inl e ↦ rw e (refl, refl) | inr e ↦ rw e c ])

  erase-IsConsistent :
      (j name : Text) (d : Dict Text ScriptRow)
      → IsConsistent (lookup j d)
      → IsConsistent (lookup j (erase name d))
  erase-IsConsistent j name d c =
      rw (lookup-erase name j d)
        (elim (Bool-cases (name == j)) [ inl e ↦ rw e tt | inr e ↦ rw e c ])

  scripts-create :
      (i : ℕ) (name content : Text) (meta : Option Text) (user_id now : ℕ) (t : ScriptTables)
      {t' : ScriptTables}
      → create_script md5 parse_persistent i name content meta user_id now t ≡ ok t'
      → t'.scripts ≡ insert name (new_row md5 parse_persistent i content meta user_id now) t.scripts
  unfolding create_script
  scripts-create i name content meta user_id now t e = ground arith

  scripts-update :
      (name content : Text) (meta : Option Text) (user_id now : ℕ) (t : ScriptTables)
      {t' : ScriptTables}
      → update_script md5 parse_persistent name content meta user_id now t ≡ ok t'
      → (i : ℕ) × (t'.scripts
          ≡ insert name (new_row md5 parse_persistent i content meta user_id now) t.scripts)
  unfolding update_script
  scripts-update name content meta user_id now t e =
      let (r, g, e1) = >>=-eq-ok (get_script_or_raise md5 parse_persistent name t) _ e in
      let (u, v, e2) = >>=-eq-ok (validate_meta md5 parse_persistent meta) _ e1 in
      (r.id, ground arith)

  scripts-delete :
      (name : Text) (t : ScriptTables) {t' : ScriptTables}
      → delete_script md5 parse_persistent name t ≡ ok t'
      → t'.scripts ≡ erase name t.scripts
  unfolding delete_script
  scripts-delete name t e = ground arith

  attempt-IsConsistent :
      (j : Text) (q : Request) (now : ℕ) (t : ScriptTables) {t' : ScriptTables}
      → IsConsistent (lookup j t.scripts)
      → attempt q now t ≡ ok t'
      → IsConsistent (lookup j t'.scripts)
  attempt-IsConsistent j (create_it i name content meta user_id) now t c e =
      rw (scripts-create i name content meta user_id now t e)
        (insert-IsConsistent j name content meta i user_id now t.scripts c)
  attempt-IsConsistent j (update_it name content meta user_id) now t c e =
      let (i, p) = scripts-update name content meta user_id now t e in
      rw p (insert-IsConsistent j name content meta i user_id now t.scripts c)
  attempt-IsConsistent j (delete_it name) now t c e =
      rw (scripts-delete name t e) (erase-IsConsistent j name t.scripts c)

  settle-IsConsistent :
      (j : Text) (t : ScriptTables) (r : Result RegistryError ScriptTables)
      → IsConsistent (lookup j t.scripts)
      → ((t' : ScriptTables) → r ≡ ok t' → IsConsistent (lookup j t'.scripts))
      → IsConsistent (lookup j (settle t r).scripts)
  settle-IsConsistent j t (ok t') c k = k t' refl
  settle-IsConsistent j t (err e) c k = c

  -- Whatever is created, updated and deleted, failed requests included, the row of a script keeps the
  -- MD5 of its content and the `persistent` of its metadata, if it had them before.
  pub run-IsConsistent :
      (j : Text) (qs : List (Request × ℕ)) (t : ScriptTables)
      → IsConsistent (lookup j t.scripts)
      → IsConsistent (lookup j (run qs t).scripts)
  unfolding run
  run-IsConsistent j [] t c = c
  run-IsConsistent j ((q, now) ∷ qs) t c =
      run-IsConsistent j qs (settle t (attempt q now t))
        (settle-IsConsistent j t (attempt q now t) c (λ t' e. attempt-IsConsistent j q now t c e))
