-- ===== src/Server/Api/Machines/Consistent.antt =====
-- What holds of the tables of machines and bookmarks, whatever requests come.
use csl.Prelude.{
  ℕ, Text_Eq, ◌==◌, [], ◌∷◌, ◌++◌, List, true, false, ok, ◌≡◌, Bool, not, ◌&&◌, nat_eq, any, all,
  filter, map, refl, arith, distinct_by, distinct_by-filter, distinct_by-snoc, all-filter_mono,
  all-filter, all_mono, all-snoc, any-snoc, any-filter, Bool-cases, inl, inr, Result-cases,
}
use csl.Shared.Registration.{Codec}
use csl.Prelude.{on_error, >>=-eq-ok, sym, ◌∙◌}
use csl.Shared.Registration.{decode, RegistrationBundle}
use csl.Server.Api.Machines.Version.{assert_version_compatible}
use csl.Server.Api.Machines.Register.{encoded, tested_machine, ssh_connection_test, user_or}
use csl.Server.Auth.Sessions.{User}
use csl.Server.Core.Crypto.{Aead}
use csl.Server.Api.Machines.{
  Machine, MachineTables, find_machine, get_machine_or_404, delete_machine, add_bookmark,
  remove_bookmark, has_bookmark, is_bookmark,
}
use csl.Server.Api.Machines.Register.{
  World, RegisterMachineIn, Moment, new_machine, register_machine_from_input, has_name,
}

-- A request that changes the tables.
pub data Request : Type 0 where
  register : Moment → RegisterMachineIn → ℕ → Request
  delete bookmark unbookmark : ℕ → ℕ → User → Request

abbrev same_id : Machine → Machine → Bool
same_id m n = nat_eq m.id n.id

abbrev same_name : Machine → Machine → Bool
same_name m n = m.name == n.name

abbrev same_pair : ℕ × ℕ → ℕ × ℕ → Bool
same_pair p q = nat_eq p.0 q.0 && nat_eq p.1 q.1

abbrev pub has_id : List Machine → ℕ → Bool
has_id machines i = any (λ m. nat_eq m.id i) machines

-- The numbers and the names of the machines are unique, as the schema asks, and so are the bookmarks; and
-- every bookmark is of a machine that has a row.
pub record IsConsistent (t : MachineTables) : Type 0 where
  pub ids : distinct_by same_id t.machines ≡ true
  pub names : distinct_by same_name t.machines ≡ true
  pub pairs : distinct_by same_pair t.user_machines ≡ true
  pub owned : all (λ p. has_id t.machines p.1) t.user_machines ≡ true

pub has_id-found :
    (machine_id : ℕ) (machines : List Machine) {m : Machine}
    → get_machine_or_404 machine_id machines ≡ ok m
    → has_id machines machine_id ≡ true
unfolding get_machine_or_404 find_machine any
has_id-found machine_id [] e = absurd (ground arith)
has_id-found machine_id (x ∷ machines) {m} e =
    ground (arith, has_id-found machine_id machines {m = m})

delete-IsConsistent :
    (now machine_id : ℕ) (admin : User) (t : MachineTables)
    → IsConsistent t
    → IsConsistent (delete_machine now machine_id admin t).1
unfolding delete_machine
delete-IsConsistent now machine_id admin t h =
    elim (Result-cases (get_machine_or_404 machine_id t.machines)) [
      | inr (x, e) ↦ rw (delete_machine, e) h
      | inl (m, e) ↦
          rw (delete_machine, e)
            (record {
              ids = distinct_by-filter (λ m. not (nat_eq m.id machine_id)) same_id t.machines h.ids;
              names =
                  distinct_by-filter (λ m. not (nat_eq m.id machine_id)) same_name t.machines
                    h.names;
              pairs =
                  distinct_by-filter (λ p. not (nat_eq p.1 machine_id)) same_pair t.user_machines
                    h.pairs;
              owned =
                  all-filter_mono (λ p. not (nat_eq p.1 machine_id)) (λ p. has_id t.machines p.1)
                    (λ p. has_id (filter (λ m. not (nat_eq m.id machine_id)) t.machines) p.1)
                    (λ p k l. ground (
                      arith,
                      any-filter (λ m. not (nat_eq m.id machine_id)) (λ m. nat_eq m.id p.1)
                          (λ m q. ground arith) t.machines,
                    ))
                    t.user_machines h.owned;
            })
    ]

bookmark-IsConsistent :
    (now machine_id : ℕ) (user : User) (t : MachineTables)
    → IsConsistent t
    → IsConsistent (add_bookmark now machine_id user t).1
unfolding add_bookmark
bookmark-IsConsistent now machine_id user t h =
    elim (Result-cases (get_machine_or_404 machine_id t.machines)) [
      | inr (x, e) ↦ rw (add_bookmark, e) h
      | inl (m, e) ↦ elim (Bool-cases (has_bookmark user.id machine_id t.user_machines)) [
        | inl k ↦ rw (add_bookmark, e, k) h
        | inr k ↦
            rw (add_bookmark, e, k)
              (record {
                ids = h.ids;
                names = h.names;
                pairs = distinct_by-snoc same_pair t.user_machines (user.id, machine_id) h.pairs k;
                owned = ground (
                  arith,
                  h.owned,
                  has_id-found machine_id t.machines e,
                  all-snoc (λ p. has_id t.machines p.1) t.user_machines (user.id, machine_id),
                );
              })
      ]
    ]

unbookmark-IsConsistent :
    (now machine_id : ℕ) (user : User) (t : MachineTables)
    → IsConsistent t
    → IsConsistent (remove_bookmark now machine_id user t).1
unfolding remove_bookmark
unbookmark-IsConsistent now machine_id user t h =
    elim (Result-cases (get_machine_or_404 machine_id t.machines)) [
      | inr (x, e) ↦ rw (remove_bookmark, e) h
      | inl (m, e) ↦
          rw (remove_bookmark, e)
            (record {
              ids = h.ids;
              names = h.names;
              pairs =
                  distinct_by-filter (λ p. not (is_bookmark user.id machine_id p)) same_pair
                    t.user_machines h.pairs;
              owned =
                  all-filter (λ p. not (is_bookmark user.id machine_id p))
                    (λ p. has_id t.machines p.1) t.user_machines h.owned;
            })
    ]

module _ (c : Codec) (w : World) (aead : Aead) where
  tested_machine-row :
      (at : Moment) (body : RegisterMachineIn) (bundle : RegistrationBundle)
      (machines : List Machine) {m : Machine}
      → tested_machine c w aead at body bundle machines ≡ ok m
      → (m.id ≡ w.new_id (map (λ m. m.id) machines)) × (m.name ≡ body.name)
  unfolding tested_machine
  tested_machine-row at body bundle machines e =
      let (line, d, e1) =
        >>=-eq-ok
          (on_error _ (
            ssh_connection_test c w aead bundle (user_or body.ssh_user bundle.ssh_user)
              body.ssh_host body.ssh_port))
          _ e in
      let (key, f, e2) = >>=-eq-ok (encoded bundle.private_key) _ e1 in
      let (token, g, e3) = >>=-eq-ok (encoded bundle.api_token) _ e2 in
      (ground (arith, e3), ground (arith, e3))

  has_id-ids :
      (i : ℕ) (machines : List Machine)
      → any (λ j. nat_eq j i) (map (λ m. m.id) machines) ≡ has_id machines i
  unfolding any
  has_id-ids i [] = refl
  has_id-ids i (m ∷ machines) = ground (arith, has_id-ids i machines)

  pub new_machine-fresh :
      (at : Moment) (body : RegisterMachineIn) (machines : List Machine) {m : Machine}
      → new_machine c w aead at body machines ≡ ok m
      → (has_id machines m.id ≡ false) × (has_name m.name machines ≡ false)
  unfolding new_machine
  new_machine-fresh at body machines {m} e =
      let (bundle, a, e1) = >>=-eq-ok (on_error _ (decode c body.bundle)) _ e in
      let (u, b, e2) =
        >>=-eq-ok (assert_version_compatible at.server_version bundle.agent_version) _ e1 in
      elim (Bool-cases (has_name body.name machines)) [
        | inl n ↦ absurd (ground arith)
        | inr n ↦
            let (i, p) =
              tested_machine-row at body bundle machines {m = m} (ground (arith, e2, n)) in
            rw (i, p)
              (
                sym (has_id-ids (w.new_id (map (λ m. m.id) machines)) machines)
                    ∙ w.new_id-fresh (map (λ m. m.id) machines),
                n,
              )
      ]

  register-IsConsistent :
      (at : Moment) (body : RegisterMachineIn) (admin_id : ℕ) (t : MachineTables)
      → IsConsistent t
      → IsConsistent (register_machine_from_input c w aead at body admin_id t).1
  unfolding register_machine_from_input
  register-IsConsistent at body admin_id t h =
      elim (Result-cases (new_machine c w aead at body t.machines)) [
        | inr (x, e) ↦ rw (register_machine_from_input, e) h
        | inl (m, e) ↦
            let (new, unnamed) = new_machine-fresh at body t.machines e in
            rw (register_machine_from_input, e)
              (record {
                ids = distinct_by-snoc same_id t.machines m h.ids new;
                names = distinct_by-snoc same_name t.machines m h.names unnamed;
                pairs = h.pairs;
                owned =
                    all_mono (λ p. has_id t.machines p.1) (λ p. has_id (t.machines ++ (m ∷ [])) p.1)
                      (λ p k. ground (arith, any-snoc (λ n. nat_eq n.id p.1) t.machines m))
                      t.user_machines h.owned;
              })
      ]

  unfoldable pub handle : Request → MachineTables → MachineTables
  handle (register at body admin_id) t = (register_machine_from_input c w aead at body admin_id t).1
  handle (delete now machine_id user) t = (delete_machine now machine_id user t).1
  handle (bookmark now machine_id user) t = (add_bookmark now machine_id user t).1
  handle (unbookmark now machine_id user) t = (remove_bookmark now machine_id user t).1

  unfoldable pub handle_all : List Request → MachineTables → MachineTables
  handle_all [] t = t
  handle_all (q ∷ requests) t = handle_all requests (handle q t)

  handle-IsConsistent :
      (q : Request) (t : MachineTables) → IsConsistent t → IsConsistent (handle q t)
  unfolding handle
  handle-IsConsistent (register at body admin_id) t h = register-IsConsistent at body admin_id t h
  handle-IsConsistent (delete now machine_id user) t h = delete-IsConsistent now machine_id user t h
  handle-IsConsistent (bookmark now machine_id user) t h =
      bookmark-IsConsistent now machine_id user t h
  handle-IsConsistent (unbookmark now machine_id user) t h =
      unbookmark-IsConsistent now machine_id user t h

  -- Whatever registrations, deletions and bookmarks come, in any order and by any users, the tables stay
  -- consistent: two machines never share a number or a name, a user has at most one bookmark of a machine,
  -- and no bookmark outlives its machine.
  pub handle_all-IsConsistent :
      (requests : List Request) (t : MachineTables)
      → IsConsistent t
      → IsConsistent (handle_all requests t)
  unfolding handle_all
  handle_all-IsConsistent [] t h = h
  handle_all-IsConsistent (q ∷ requests) t h =
      handle_all-IsConsistent requests (handle q t) (handle-IsConsistent q t h)
