-- ===== src/Agent/Approvals/Files.antt =====
-- The files of a script hold what its record says: an MD5 on record is the MD5 of a file on disk.
use csl.Prelude.{
  ◌||◌, lookup-erase, lookup-insert, ◌==◌, text_eq, if◌then◌else◌, Text, Text_Eq, Bool, false,
  Option, none, some, ◌≡◌, ◌≢◌, refl, arith, lookup, text_eq_iff,
}
use mathlib.Core.Option
use csl.Agent.Approvals.Data.{is_reviewable, Disk, meta_name, Host, ScriptRecord}
use csl.Agent.Approvals.Disk.{remove_files, move, promote, write_pending}
use csl.Shared.Models.{ApprovalState_Eq, update_pending, approved, ApprovalState}

-- `j` is not the name of a metadata file.
abbrev pub NoMeta : Text → Type 0
NoMeta j = (n : Text) → meta_name n ≢ j

module _ {Doc : Type 0} (j name : Text) (d : Disk Doc) (plain : NoMeta j) where
  pub not_meta : text_eq (meta_name name) j ≡ false
  not_meta = ground (arith, text_eq_iff (meta_name name) j, plain name)

  pub pending-write :
      (content : Text) (meta : Option Text)
      → lookup j (write_pending name content meta d).pending_dir
        ≡ (if name == j then some content else lookup j d.pending_dir)
  unfolding write_pending
  pending-write content none = lookup-insert name j content d.pending_dir
  pending-write content (some m) = simp (lookup-insert, not_meta)

  pub scripts-write :
      (content : Text) (meta : Option Text)
      → (write_pending name content meta d).scripts_dir ≡ d.scripts_dir
  unfolding write_pending
  scripts-write content none = refl
  scripts-write content (some m) = refl

  pending-move :
      (f : Text)
      → lookup j (move f d).pending_dir ≡ (if f == j then none else lookup j d.pending_dir)
  unfolding move
  pending-move f = ground (arith, text_eq_iff f j, lookup-erase f j d.pending_dir)

-- The first file that is there.
abbrev or_else : Option Text → Option Text → Option Text
or_else (some c) o = some c
or_else none o = o

module _ {Doc : Type 0} (j f : Text) (d : Disk Doc) where
  scripts-move_found :
      (o : Option Text)
      → lookup f d.pending_dir ≡ o
      → lookup j (move f d).scripts_dir
        ≡ (if f == j then or_else o (lookup j d.scripts_dir) else lookup j d.scripts_dir)
  unfolding move
  scripts-move_found none e = ground arith
  scripts-move_found (some c) e = ground (arith, lookup-insert f j c d.scripts_dir)

  scripts-move : lookup j (move f d).scripts_dir ≡ (
      if f == j
      then or_else (lookup f d.pending_dir) (lookup j d.scripts_dir)
      else lookup j d.scripts_dir)
  scripts-move = scripts-move_found (lookup f d.pending_dir) refl

module _ {Doc : Type 0} (j name : Text) (d : Disk Doc) (plain : NoMeta j) where
  pub pending-promote :
      lookup j (promote name d).pending_dir ≡ (if name == j then none else lookup j d.pending_dir)
  unfolding promote
  pending-promote = ground (
    arith,
    not_meta j name d plain,
    pending-move j name d plain name,
    pending-move j name (move name d) plain (meta_name name),
  )

  pub scripts-promote : lookup j (promote name d).scripts_dir ≡ (
      if name == j
      then or_else (lookup name d.pending_dir) (lookup j d.scripts_dir)
      else lookup j d.scripts_dir)
  unfolding promote
  scripts-promote = ground (
    arith,
    not_meta j name d plain,
    scripts-move j name d,
    scripts-move j (meta_name name) (move name d),
  )

module _ {Doc : Type 0} (j name : Text) (d : Disk Doc) (plain : NoMeta j) where
  pub pending-remove :
      lookup j (remove_files name d).pending_dir
      ≡ (if name == j then none else lookup j d.pending_dir)
  unfolding remove_files
  pending-remove = simp (lookup-erase, not_meta j name d plain)

  pub scripts-remove :
      lookup j (remove_files name d).scripts_dir
      ≡ (if name == j then none else lookup j d.scripts_dir)
  unfolding remove_files
  scripts-remove = simp (lookup-erase, not_meta j name d plain)

-- Where the state of the record says that there is a pending or an approved version, the file of
-- that version is there and has the MD5 on record; `hash` is MD5.
abbrev has_approved : ApprovalState → Bool
has_approved s = s == approved || s == update_pending

abbrev pub Matches : (Text → Text) → Option ScriptRecord → Option Text → Option Text → Type 0
Matches hash none p s = Unit
Matches hash (some r) p s =
    ((if is_reviewable r.state then Option.map hash p else r.pending_md5) ≡ r.pending_md5)
    × ((if has_approved r.state then Option.map hash s else r.approved_md5) ≡ r.approved_md5)

abbrev pub MatchesAt : {Doc : Type 0} → (Text → Text) → Text → Host Doc → Type 0
MatchesAt hash j h =
    Matches hash (lookup j h.manager.store) (lookup j h.disk.pending_dir)
      (lookup j h.disk.scripts_dir)
