-- ===== src/Server/Api/Machines/Access.antt =====
-- Who has access to a machine, and by which requests.
use csl.Prelude.{
  ap, nat_eq_iff, ℕ, Text_Eq, ◌==◌, codes, [], ◌∷◌, List, true, false, ok, err, ◌≡◌, Bool, not,
  ◌&&◌, ◌||◌, nat_eq, any, all, filter, Result, refl, arith, any-snoc, any-filter-false,
}
use csl.Shared.Registration.{Codec}
use csl.Server.Auth.Sessions.{User}
use csl.Server.Core.Errors.{HttpException}
use csl.Server.Core.Crypto.{Aead}
use csl.Server.Api.Machines.{
  Machine, MachineTables, find_machine, get_machine_or_404, get_machine, list_machines,
  assert_access, delete_machine, add_bookmark, remove_bookmark, has_bookmark, is_bookmark,
}
use csl.Server.Api.Machines.Register.{
  World, RegisterMachineIn, Moment, new_machine, register_machine_from_input,
}
use csl.Server.Api.Machines.Consistent.{
  Request, register, delete, bookmark, unbookmark, handle, handle_all, has_id, IsConsistent,
  new_machine-fresh,
}

abbrev pub is_ok : Result HttpException Machine → Bool
is_ok (ok m) = true
is_ok (err e) = false

find_machine-has_id :
    (i : ℕ) (u : User) (marks : List (ℕ × ℕ)) (machines : List Machine)
    → has_id (filter (λ m. has_bookmark u.id m.id marks) machines) i
      ≡ has_id machines i && has_bookmark u.id i marks
unfolding any filter
find_machine-has_id i u marks [] = refl
find_machine-has_id i u marks (m ∷ machines) =
    ground (arith, find_machine-has_id i u marks machines, nat_eq_iff m.id i)

find_machine-is_some :
    (i : ℕ) (machines : List Machine) → is_ok (get_machine_or_404 i machines) ≡ has_id machines i
unfolding get_machine_or_404 find_machine any
find_machine-is_some i [] = refl
find_machine-is_some i (m ∷ machines) = ground (arith, find_machine-is_some i machines)

get_machine-is_ok :
    (i : ℕ) (u : User) (t : MachineTables)
    → is_ok (get_machine i u t)
      ≡ has_id t.machines i && (u.role == codes "admin" || has_bookmark u.id i t.user_machines)
unfolding get_machine assert_access get_machine_or_404
get_machine-is_ok i u t = ground (arith, find_machine-is_some i t.machines)

-- The machines that a user is shown in the list are those that he gets one by one.
pub list_machines-get_machine :
    (i : ℕ) (u : User) (t : MachineTables)
    → has_id (list_machines u t) i ≡ is_ok (get_machine i u t)
unfolding list_machines
list_machines-get_machine i u t =
    ground (arith, get_machine-is_ok i u t, find_machine-has_id i u t.user_machines t.machines)

add_bookmark-machines :
    (now i : ℕ) (u : User) (t : MachineTables) → (add_bookmark now i u t).1.machines ≡ t.machines
unfolding add_bookmark
add_bookmark-machines now i u t = ground arith

add_bookmark-has_bookmark :
    (now i : ℕ) (u : User) (t : MachineTables)
    → has_id t.machines i ≡ true
    → has_bookmark u.id i (add_bookmark now i u t).1.user_machines ≡ true
unfolding add_bookmark
add_bookmark-has_bookmark now i u t h = ground (
  arith,
  find_machine-is_some i t.machines,
  any-snoc (is_bookmark u.id i) t.user_machines (u.id, i),
  nat_eq_iff u.id u.id,
  nat_eq_iff i i,
)

-- A bookmark is all that a user needs, and any user may make one of any machine: it gives him the machine.
pub add_bookmark-get_machine :
    (now i : ℕ) (u : User) (t : MachineTables)
    → is_ok (get_machine i u (add_bookmark now i u t).1) ≡ has_id t.machines i
add_bookmark-get_machine now i u t = ground (
  arith,
  get_machine-is_ok i u (add_bookmark now i u t).1,
  ap (λ l. has_id l i) (add_bookmark-machines now i u t),
  add_bookmark-has_bookmark now i u t,
)

-- The request is a bookmark of the user for the machine.
abbrev pub asks_for : ℕ → ℕ → Request → Bool
asks_for user_id machine_id (register at body admin_id) = false
asks_for user_id machine_id (delete now i user) = false
asks_for user_id machine_id (bookmark now i user) = nat_eq user.id user_id && nat_eq i machine_id
asks_for user_id machine_id (unbookmark now i user) = false

module _ (c : Codec) (w : World) (aead : Aead) where
  handle-has_bookmark :
      (user_id machine_id : ℕ) (q : Request) (t : MachineTables)
      → has_bookmark user_id machine_id t.user_machines ≡ false
      → asks_for user_id machine_id q ≡ false
      → has_bookmark user_id machine_id (handle c w aead q t).user_machines ≡ false
  unfolding handle register_machine_from_input delete_machine add_bookmark remove_bookmark
  handle-has_bookmark user_id machine_id (register at body admin_id) t h k = ground arith
  handle-has_bookmark user_id machine_id (delete now i user) t h k = ground (
    arith,
    any-filter-false (λ p. not (nat_eq p.1 i)) (is_bookmark user_id machine_id) t.user_machines,
  )
  handle-has_bookmark user_id machine_id (bookmark now i user) t h k =
      ground (arith, any-snoc (is_bookmark user_id machine_id) t.user_machines (user.id, i))
  handle-has_bookmark user_id machine_id (unbookmark now i user) t h k = ground (
    arith,
    any-filter-false (λ p. not (is_bookmark user.id i p)) (is_bookmark user_id machine_id)
        t.user_machines,
  )

  handle_all-has_bookmark :
      (user_id machine_id : ℕ) (requests : List Request) (t : MachineTables)
      → has_bookmark user_id machine_id t.user_machines ≡ false
      → any (asks_for user_id machine_id) requests ≡ false
      → has_bookmark user_id machine_id (handle_all c w aead requests t).user_machines ≡ false
  unfolding handle_all any
  handle_all-has_bookmark user_id machine_id [] t h k = h
  handle_all-has_bookmark user_id machine_id (q ∷ requests) t h k =
      handle_all-has_bookmark user_id machine_id requests (handle c w aead q t)
        (handle-has_bookmark user_id machine_id q t h (ground arith)) (ground arith)

  unbookmarked :
      (user_id machine_id : ℕ) (machines : List Machine) (marks : List (ℕ × ℕ))
      → all (λ p. has_id machines p.1) marks ≡ true
      → has_id machines machine_id ≡ false
      → has_bookmark user_id machine_id marks ≡ false
  unfolding all any
  unbookmarked user_id machine_id machines [] h k = refl
  unbookmarked user_id machine_id machines (p ∷ marks) h k =
      ground (arith, nat_eq_iff p.1 machine_id, unbookmarked user_id machine_id machines marks)

  -- A machine that is registered stays closed to a user who is no administrator, whatever requests
  -- follow, as long as none of them is his own bookmark of it; also if its number has been that of a
  -- machine that is deleted by now.
  pub register_machine-closed :
      (at : Moment) (body : RegisterMachineIn) (admin_id : ℕ) (t : MachineTables) (u : User)
      (requests : List Request) {m : Machine}
      → IsConsistent t
      → (register_machine_from_input c w aead at body admin_id t).0 ≡ ok m
      → (u.role == codes "admin") ≡ false
      → any (asks_for u.id m.id) requests ≡ false
      → is_ok (
          get_machine m.id u (
            handle_all c w aead requests
              (register_machine_from_input c w aead at body admin_id t).1))
        ≡ false
  unfolding register_machine_from_input
  register_machine-closed at body admin_id t u requests {m} h e r k =
      let new : new_machine c w aead at body t.machines ≡ ok m = ground arith in
      let (fresh, name) = new_machine-fresh c w aead at body t.machines new in
      let after = (register_machine_from_input c w aead at body admin_id t).1 in
      let closed : has_bookmark u.id m.id after.user_machines ≡ false =
        rw (register_machine_from_input, new)
          (unbookmarked u.id m.id t.machines t.user_machines h.owned fresh) in
      ground (
        arith,
        get_machine-is_ok m.id u (handle_all c w aead requests after),
        handle_all-has_bookmark u.id m.id requests after closed k,
      )
