-- ===== src/Server/Core/Ssh.antt =====
-- control_station_lite/server/core/ssh.py: the pool of connections, one for each host, port and user.
pub mod Pinned
mod Tests
use csl.Prelude.{
  ℕ, ℤ, Text, Dict, Eq, Text_Eq, ◌&&◌, int_eq, int_eq_iff, text_eq, text_eq_iff, [], ◌∷◌, ◌++◌,
  List, none, some, true, Bool, Option, ◌≡◌, ◌↔◌, arith, lookup, insert, erase, if◌then◌else◌,
}

-- _ConnKey
pub record Target : Type 0 where
  pub host : Text
  pub port : ℤ
  pub username : Text

abbrev target_eq : Target → Target → Bool
target_eq s t = text_eq s.host t.host && int_eq s.port t.port && text_eq s.username t.username

pub target_eq_iff : (s t : Target) → (target_eq s t ≡ true) ↔ (s ≡ t)
target_eq_iff s t =
    ground (
      arith,
      text_eq_iff s.host t.host,
      int_eq_iff s.port t.port,
      text_eq_iff s.username t.username,
    )

instance abbrev pub Target_Eq : Eq Target
Target_Eq = record { beq = target_eq; beq_iff = target_eq_iff }

-- A connection: its number, and the target, the key and the known host key with which it was opened.
pub record Connection : Type 0 where
  pub number : ℕ
  pub target : Target
  pub private_key : Text
  pub known_hosts : Option Text

-- `_Entry`; a listener stands by its port.
pub record Entry : Type 0 where
  pub conn : Connection
  pub listeners : List ℕ

abbrev pub Pool : Type 0
Pool = Dict Target Entry

-- What `asyncssh` does during a call: which connections are closed, whether a target lets the key in and
-- shows the known host key, and the local port of a listener.
pub record Dial : Type 0 where
  pub is_closed : ℕ → Bool
  pub connect : Target → Text → Option Text → Option ℕ
  pub forward_local_port : ℕ → ℕ → Option ℕ

-- The host key to check, if there is one.
unfoldable pub build_known_hosts : Option Text → Option Text
build_known_hosts none = none
build_known_hosts (some []) = none
build_known_hosts (some (c ∷ key)) = some (c ∷ key)

-- A new connection, which takes the place of one that is closed.
unfoldable pub dial : Dial → Target → Text → Option Text → Pool → Option Connection × Pool
dial d target private_key host_key pool =
    elim (d.connect target private_key (build_known_hosts host_key)) [
      | none ↦ (none, pool)
      | some n ↦
          let conn : Connection = record {
            number = n;
            target = target;
            private_key = private_key;
            known_hosts = build_known_hosts host_key;
          } in
          (some conn, insert target (record { conn = conn; listeners = [] }) pool)
    ]

unfoldable pub get_connection : Dial → Target → Text → Option Text → Pool → Option Connection × Pool
get_connection d target private_key host_key pool = elim (lookup target pool) [
  | none ↦ dial d target private_key host_key pool
  | some entry ↦
      if d.is_closed entry.conn.number
      then dial d target private_key host_key pool
      else (some entry.conn, pool)
]

-- The listener is noted where the pool has the target.
unfoldable pub add_listener : Target → ℕ → Pool → Pool
add_listener target port pool = elim (lookup target pool) [
  | none ↦ pool
  | some entry ↦ insert target (record entry { listeners = entry.listeners ++ (port ∷ []) }) pool
]

unfoldable pub open_tunnel : Dial → Target → Text → ℕ → Option Text → Pool → Option ℕ × Pool
open_tunnel d target private_key remote_port host_key pool =
    let (answer, pool') = get_connection d target private_key host_key pool in
    elim answer [
      | none ↦ (none, pool')
      | some conn ↦ elim (d.forward_local_port conn.number remote_port) [
        | none ↦ (none, pool')
        | some port ↦ (some port, add_listener target port pool')
      ]
    ]

unfoldable pub close : Target → Pool → Pool
close target pool = erase target pool

-- The loop of `close_all` over the keys.
unfoldable pub close_keys : Dict Target Entry → Pool → Pool
close_keys [] pool = pool
close_keys ((target, entry) ∷ keys) pool = close_keys keys (close target pool)

unfoldable pub close_all : Pool → Pool
close_all pool = close_keys pool pool
