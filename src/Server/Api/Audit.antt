-- ===== src/Server/Api/Audit.antt =====
-- control_station_lite/server/api/audit.py, and the viewer of the log of
-- control_station_lite/server/web/admin.py. `like` is the substring match of the database.
pub mod Pages
pub mod Complete
use csl.Prelude.{
  length, drop, ltb, take, opt_eq, filter, if◌then◌else◌, List, Option, Bool, ℕ, ℤ, pos, negsuc,
  Text, Text_Eq, codes, [], ◌∷◌, ◌++◌, none, some, true, false, ok, err, ◌==◌, ◌&&◌, ◌+◌, ◌-◌, ◌*◌,
  suc, zero,
}
use csl.Server.Auth.Sessions.{User, AuditRow, Tables, user_with_id}

pub record AuditFilter : Type 0 where
  pub action : Option Text
  pub target_type : Option Text
  pub username : Option Text

-- A condition that is left out when its text is missing or empty.
abbrev pub wanted : (Text → Bool) → Option Text → Bool
wanted p none = true
wanted p (some []) = true
wanted p (some (c ∷ s)) = p (c ∷ s)

-- The column of the outer join
unfoldable pub username_of : List User → Option ℕ → Option Text
username_of users none = none
username_of users (some i) = elim (user_with_id i users) [ none ↦ none | some u ↦ some u.username ]

-- A row of the query
abbrev pub AuditEntry : Type 0
AuditEntry = AuditRow × Option Text

unfoldable pub joined : List User → List AuditRow → List AuditEntry
joined users [] = []
joined users (r ∷ rows) = (r, username_of users r.user_id) ∷ joined users rows

unfoldable pub matches : (Text → Text → Bool) → AuditFilter → AuditEntry → Bool
matches like f (r, name) =
    wanted (λ s. like s r.action) f.action
    && wanted (λ s. r.target_type == s) f.target_type
    && wanted (λ s. opt_eq name (some s)) f.username

-- The latest first, and of the same time the one with the higher number, which is the later row.
unfoldable pub insert_entry : AuditEntry → List AuditEntry → List AuditEntry
insert_entry e [] = e ∷ []
insert_entry e (d ∷ entries) =
    let rest = insert_entry e entries in
    if ltb d.0.timestamp e.0.timestamp then e ∷ d ∷ entries else d ∷ rest

unfoldable pub order_by_latest : List AuditEntry → List AuditEntry
order_by_latest [] = []
order_by_latest (e ∷ entries) = insert_entry e (order_by_latest entries)

-- One row more than the limit tells whether there is a further page.
unfoldable pub page_at {ℓ} : {A : Type ℓ} → ℕ → ℕ → List A → List A × Bool
page_at limit offset rows =
    let found = take (suc limit) (drop offset rows) in (take limit found, ltb limit (length found))

-- `limit` is between 1 and 500.
unfoldable pub list_audit_entries :
    (Text → Text → Bool) → AuditFilter → ℕ → ℕ → Tables → List AuditEntry × Bool
list_audit_entries like f limit offset t =
    page_at limit offset (order_by_latest (filter (matches like f) (joined t.users t.audit_log)))

abbrev pub page_size : ℕ
page_size = 50

-- `max(1, page)`
unfoldable pub page_number : ℤ → ℕ
page_number (pos zero) = 1
page_number (pos (suc n)) = suc n
page_number (negsuc n) = 1

-- `by_time` is the order of the database, which is free among rows of the same time.
unfoldable pub admin_audit :
    (List AuditEntry → List AuditEntry)
    → (Text → Text → Bool)
    → AuditFilter
    → ℤ
    → Tables
    → List AuditEntry × Bool
admin_audit by_time like f page t =
    page_at page_size ((page_number page - 1) * page_size)
      (by_time (filter (matches like f) (joined t.users t.audit_log)))
