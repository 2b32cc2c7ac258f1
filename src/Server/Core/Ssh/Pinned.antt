-- ===== src/Server/Core/Ssh/Pinned.antt =====
-- Which host keys stand behind the connections of the pool.
use csl.Prelude.{
  subst, List, [], ◌∷◌, lookup, ℕ, Text, ◌==◌, [], none, some, Option, Option-cases, Bool-cases,
  inl, inr, ◌≡◌, arith, refl, lookup, lookup-insert, lookup-erase, insert, erase,
}
use csl.Server.Core.Ssh.{
  open_tunnel, close, close_keys, close_all, Target, Target_Eq, target_eq_iff, Connection, Entry,
  Pool, Dial, build_known_hosts, dial, get_connection, add_listener,
}

-- The connection was opened to the target, and with the host key that is pinned for it, if one is.
abbrev pub IsOf : (Target → Option Text) → Target → Connection → Type 0
IsOf pins t c = (c.target ≡ t) × (c.known_hosts ≡ build_known_hosts (pins t))

abbrev pub IsPinned : (Target → Option Text) → Pool → Type 0
IsPinned pins pool = (t : Target) (e : Entry) → lookup t pool ≡ some e → IsOf pins t e.conn

-- A call of the pool; the host key is that of the target.
pub data PoolCall : Type 0 where
  connect_to : Dial → Target → Text → PoolCall
  tunnel_to : Dial → Target → Text → ℕ → PoolCall
  close_one : Target → PoolCall
  close_every : PoolCall

module _ (pins : Target → Option Text) where
  insert-IsPinned :
      (t : Target) (e : Entry) (pool : Pool)
      → IsOf pins t e.conn
      → IsPinned pins pool
      → IsPinned pins (insert t e pool)
  insert-IsPinned t e pool h k s f l = elim (Bool-cases (t == s)) [
    | inl q ↦ ground (arith, lookup-insert t s e pool, target_eq_iff t s)
    | inr q ↦ k s f (ground (arith, lookup-insert t s e pool))
  ]

  erase-IsPinned : (t : Target) (pool : Pool) → IsPinned pins pool → IsPinned pins (erase t pool)
  erase-IsPinned t pool k s f l = k s f (ground (arith, lookup-erase t s pool))

  -- What a call gives back: a connection of the target, if any, and a pool that is pinned still.
  abbrev IsGiven : Target → Option Connection × Pool → Type 0
  IsGiven t (none, pool) = IsPinned pins pool
  IsGiven t (some c, pool) = IsOf pins t c × IsPinned pins pool

  dial-IsGiven :
      (d : Dial) (t : Target) (key : Text) (pool : Pool)
      → IsPinned pins pool
      → IsGiven t (dial d t key (pins t) pool)
  unfolding dial
  dial-IsGiven d t key pool h = elim (Option-cases (d.connect t key (build_known_hosts (pins t)))) [
    | inl e ↦ rw (dial, e) h
    | inr (n, e) ↦
        rw (dial, e)
          (
            (refl, refl),
            insert-IsPinned t
                (record {
                  conn = record {
                    number = n;
                    target = t;
                    private_key = key;
                    known_hosts = build_known_hosts (pins t);
                  };
                  listeners = [];
                })
                pool (refl, refl) h,
          )
  ]

  get_connection-IsGiven :
      (d : Dial) (t : Target) (key : Text) (pool : Pool)
      → IsPinned pins pool
      → IsGiven t (get_connection d t key (pins t) pool)
  unfolding get_connection
  get_connection-IsGiven d t key pool h = elim (Option-cases (lookup t pool)) [
    | inl e ↦ rw (get_connection, e) (dial-IsGiven d t key pool h)
    | inr (entry, e) ↦ elim (Bool-cases (d.is_closed entry.conn.number)) [
      | inl c ↦ rw (get_connection, e, c) (dial-IsGiven d t key pool h)
      | inr c ↦ rw (get_connection, e, c) (h t entry e, h)
    ]
  ]

  add_listener-IsPinned :
      (t : Target) (port : ℕ) (pool : Pool)
      → IsPinned pins pool
      → IsPinned pins (add_listener t port pool)
  unfolding add_listener
  add_listener-IsPinned t port pool h = elim (Option-cases (lookup t pool)) [
    | inl e ↦ rw (add_listener, e) h
    | inr (entry, e) ↦ rw (add_listener, e) (insert-IsPinned t _ pool (h t entry e) h)
  ]

  given-IsPinned : (t : Target) (r : Option Connection × Pool) → IsGiven t r → IsPinned pins r.1
  given-IsPinned t (none, pool) h = h
  given-IsPinned t (some c, pool) h = h.1

  open_tunnel-IsPinned :
      (d : Dial) (t : Target) (key : Text) (port : ℕ) (pool : Pool)
      → IsPinned pins pool
      → IsPinned pins (open_tunnel d t key port (pins t) pool).1
  unfolding open_tunnel
  open_tunnel-IsPinned d t key port pool h =
      let (answer, after) = get_connection d t key (pins t) pool in
      let kept =
        given-IsPinned t (get_connection d t key (pins t) pool)
          (get_connection-IsGiven d t key pool h) in
      elim (Option-cases answer) [
        | inl e ↦ rw (open_tunnel, e) kept
        | inr (c, e) ↦ elim (Option-cases (d.forward_local_port c.number port)) [
          | inl f ↦ rw (open_tunnel, e, f) kept
          | inr (p, f) ↦ rw (open_tunnel, e, f) (add_listener-IsPinned t p after kept)
        ]
      ]

  close_keys-IsPinned :
      (keys pool : Pool) → IsPinned pins pool → IsPinned pins (close_keys keys pool)
  unfolding close_keys close
  close_keys-IsPinned [] pool h = h
  close_keys-IsPinned ((t, e) ∷ keys) pool h =
      close_keys-IsPinned keys (erase t pool) (erase-IsPinned t pool h)

  -- A call of the pool, with the host key that is pinned for its target.
  unfoldable pub call : PoolCall → Pool → Pool
  call (connect_to d t key) pool = (get_connection d t key (pins t) pool).1
  call (tunnel_to d t key port) pool = (open_tunnel d t key port (pins t) pool).1
  call (close_one t) pool = close t pool
  call close_every pool = close_all pool

  unfoldable pub call_all : List PoolCall → Pool → Pool
  call_all [] pool = pool
  call_all (q ∷ calls) pool = call_all calls (call q pool)

  call-IsPinned : (q : PoolCall) (pool : Pool) → IsPinned pins pool → IsPinned pins (call q pool)
  unfolding call close close_all
  call-IsPinned (connect_to d t key) pool h =
      given-IsPinned t (get_connection d t key (pins t) pool)
        (get_connection-IsGiven d t key pool h)
  call-IsPinned (tunnel_to d t key port) pool h = open_tunnel-IsPinned d t key port pool h
  call-IsPinned (close_one t) pool h = erase-IsPinned t pool h
  call-IsPinned close_every pool h = close_keys-IsPinned pool pool h

  call_all-IsPinned :
      (calls : List PoolCall) (pool : Pool)
      → IsPinned pins pool
      → IsPinned pins (call_all calls pool)
  unfolding call_all
  call_all-IsPinned [] pool h = h
  call_all-IsPinned (q ∷ calls) pool h =
      call_all-IsPinned calls (call q pool) (call-IsPinned q pool h)

  empty-IsPinned : IsPinned pins []
  unfolding lookup
  empty-IsPinned t e l = ground arith

  -- Where all calls for a target give the host key that is pinned for it, a connection that the pool hands
  -- out, new or kept from any earlier calls, is one to the target that is asked for, opened with that
  -- host key.
  pub get_connection-IsOf :
      (calls : List PoolCall) (d : Dial) (t : Target) (key : Text) {c : Connection}
      → (get_connection d t key (pins t) (call_all calls [])).0 ≡ some c
      → IsOf pins t c
  get_connection-IsOf calls d t key {c} e =
      let pool = call_all calls [] in
      let given : IsGiven t (some c, (get_connection d t key (pins t) pool).1) =
        subst (λ r. IsGiven t (r, (get_connection d t key (pins t) pool).1)) e
          (get_connection-IsGiven d t key pool (call_all-IsPinned calls [] empty-IsPinned)) in
      given.0
