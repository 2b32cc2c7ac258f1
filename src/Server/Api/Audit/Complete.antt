-- ===== src/Server/Api/Audit/Complete.antt =====
-- All pages of the audit log together.
use csl.Prelude.{
  ◌&&◌, leb, length, if◌then◌else◌, filter, List, Bool, ℕ, Text, [], ◌∷◌, some, true, suc, ◌≡◌, ◌≤◌,
  ◌+◌, arith, refl,
}
use csl.Server.Api.Audit.{
  matches, list_audit_entries, AuditRow, Tables, AuditEntry, AuditFilter, User, insert_entry,
  joined, order_by_latest,
}
use csl.Server.Auth.Sessions.{Tables, AuditRow, User}
use csl.Server.Api.Audit.Pages.{follow-drop, follow}

-- How many rows pass a test.
abbrev pub count {ℓ} : {A : Type ℓ} → (A → Bool) → List A → ℕ
count p [] = 0
count p (x ∷ xs) = (if p x then 1 else 0) + count p xs

-- No row is followed by one of a later time.
abbrev pub is_latest_first : List AuditEntry → Bool
is_latest_first [] = true
is_latest_first (e ∷ []) = true
is_latest_first (e ∷ d ∷ entries) = leb d.0.timestamp e.0.timestamp && is_latest_first (d ∷ entries)

count-insert_entry :
    (p : AuditEntry → Bool) (e : AuditEntry) (entries : List AuditEntry)
    → count p (insert_entry e entries) ≡ (if p e then 1 else 0) + count p entries
unfolding insert_entry
count-insert_entry p e [] = refl
count-insert_entry p e (d ∷ entries) = ground (arith, count-insert_entry p e entries)

count-order_by_latest :
    (p : AuditEntry → Bool) (entries : List AuditEntry)
    → count p (order_by_latest entries) ≡ count p entries
unfolding order_by_latest
count-order_by_latest p [] = refl
count-order_by_latest p (e ∷ entries) =
    ground
      (arith, count-insert_entry p e (order_by_latest entries), count-order_by_latest p entries)

insert_entry-is_latest_first :
    (e : AuditEntry) (entries : List AuditEntry)
    → is_latest_first entries ≡ true
    → is_latest_first (insert_entry e entries) ≡ true
unfolding insert_entry
insert_entry-is_latest_first e [] h = refl
insert_entry-is_latest_first e (d ∷ []) h = ground arith
insert_entry-is_latest_first e (d ∷ c ∷ entries) h =
    ground (arith, insert_entry-is_latest_first e (c ∷ entries))

order_by_latest-is_latest_first :
    (entries : List AuditEntry) → is_latest_first (order_by_latest entries) ≡ true
unfolding order_by_latest
order_by_latest-is_latest_first [] = refl
order_by_latest-is_latest_first (e ∷ entries) =
    insert_entry-is_latest_first e (order_by_latest entries)
      (order_by_latest-is_latest_first entries)

length-insert_entry :
    (e : AuditEntry) (entries : List AuditEntry)
    → length (insert_entry e entries) ≡ suc (length entries)
unfolding insert_entry
length-insert_entry e [] = refl
length-insert_entry e (d ∷ entries) = ground (arith, length-insert_entry e entries)

length-order_by_latest :
    (entries : List AuditEntry) → length (order_by_latest entries) ≡ length entries
unfolding order_by_latest
length-order_by_latest [] = refl
length-order_by_latest (e ∷ entries) =
    ground (arith, length-insert_entry e (order_by_latest entries), length-order_by_latest entries)

pub length-filter {ℓ} : {A : Type ℓ} (p : A → Bool) (xs : List A) → length (filter p xs) ≤ length xs
unfolding filter
length-filter p [] = omega arith
length-filter p (x ∷ xs) = ground (arith, length-filter p xs)

length-joined :
    (users : List User) (rows : List AuditRow) → length (joined users rows) ≡ length rows
unfolding joined
length-joined users [] = refl
length-joined users (r ∷ rows) = ground (arith, length-joined users rows)

module _ (like : Text → Text → Bool) (f : AuditFilter) (t : Tables) where
  abbrev pub matching : List AuditEntry
  matching = filter (matches like f) (joined t.users t.audit_log)

  matching-bounded : length (order_by_latest matching) ≤ length t.audit_log
  matching-bounded = ground (
    arith,
    length-order_by_latest matching,
    length-filter (matches like f) (joined t.users t.audit_log),
    length-joined t.users t.audit_log,
  )

  -- A client that asks for the log from the start, with any limit, and goes on as long as there is a
  -- further page comes to an end, after no more requests than the log has rows and one. It has then got
  -- the rows that match, each as often as it is there, and the latest first.
  pub list_audit_entries-follow :
      (limit : ℕ)
      → 1 ≤ limit
      → (rows : List AuditEntry) × (follow
            (λ offset. list_audit_entries like f limit offset t)
            (λ offset. offset + limit)
            (suc (length t.audit_log))
            0
          ≡ some rows)
        × ((p : AuditEntry → Bool) → count p rows ≡ count p matching)
        × (is_latest_first rows ≡ true)
  unfolding list_audit_entries
  list_audit_entries-follow limit positive = (
    order_by_latest matching,
    follow-drop limit (order_by_latest matching)
        (λ offset. list_audit_entries like f limit offset t) (λ offset. offset + limit) (λ at. at)
        (λ at. refl) (λ at. refl) positive (length t.audit_log) 0
        (ground (arith, matching-bounded)),
    λ p. count-order_by_latest p matching,
    order_by_latest-is_latest_first matching,
  )
