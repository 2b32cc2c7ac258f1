-- ===== src/Server/Core/Ssh/Tests.antt =====
-- A tunnel, and the connection that is kept from it.
use csl.Prelude.{pos, Text, codes, [], ◌∷◌, some, false, Option, refl, lookup, insert, text_eq}
use csl.Server.Core.Ssh.{
  Target, Connection, Dial, build_known_hosts, dial, get_connection, add_listener, open_tunnel,
}
use csl.Server.Core.Ssh.Pinned.{IsOf, tunnel_to, call, call_all, get_connection-IsOf}

abbrev pins : Target → Option Text
pins t = some (codes "AA")

abbrev box_target : Target
box_target = record { host = codes "box.lan"; port = pos 22; username = codes "csl" }

abbrev steady : Dial
steady = record {
  is_closed = λ n. false;
  connect = λ t key known. some 3;
  forward_local_port = λ n port. some 4001;
}

abbrev kept : Connection
kept = record {
  number = 3;
  target = box_target;
  private_key = codes "key";
  known_hosts = some (codes "AA");
}

get_connection-IsOf_example : IsOf pins box_target kept
unfolding call_all call open_tunnel get_connection dial add_listener build_known_hosts lookup insert
    text_eq
get_connection-IsOf_example =
    get_connection-IsOf pins (tunnel_to steady box_target (codes "key") 8765 ∷ []) steady box_target
      (codes "other") {c = kept} refl
