-- ===== src/Server/Api/Builtin.antt =====
-- control_station_lite/server/api/builtin.py: Wake-on-LAN.
use csl.Prelude.{
  ℕ, Text, Dict, codes, [], ◌∷◌, ◌++◌, List, none, some, ok, err, Result, Option, ◌>>=◌,
}
use csl.Server.Auth.Sessions.{User, AuditValue, text_value, number_value, record_audit}
use csl.Server.Core.Errors.{HttpException, http_exception}
use csl.Server.Core.MagicPacket.{build_packet}
use csl.Server.Api.Machines.{MachineTables, get_machine}

pub record WolIn : Type 0 where
  pub broadcast_addr : Text
  pub port : ℕ

-- What the socket does with a packet for an address and a port: the text of the exception, if it raises;
-- and `repr` of a text.
pub record Network : Type 0 where
  pub sendto : List ℕ → Text → ℕ → Option Text
  pub repr : Text → Text

-- `broadcast` of core/magic_packet.py: the text of the exception, if it raises.
unfoldable pub broadcast : Network → Text → Text → ℕ → Option Text
broadcast net mac addr port = elim (build_packet mac) [
  | none ↦ some (codes "Invalid MAC address: " ++ net.repr mac)
  | some packet ↦ net.sendto packet addr port
]

abbrev wol_details : Text → WolIn → Option Text → Dict Text AuditValue
wol_details mac body none =
    (codes "mac_address", text_value mac)
    ∷ (codes "broadcast_addr", text_value body.broadcast_addr)
    ∷ (codes "port", number_value body.port)
    ∷ []
wol_details mac body (some error) =
    (codes "mac_address", text_value mac)
    ∷ (codes "broadcast_addr", text_value body.broadcast_addr)
    ∷ (codes "port", number_value body.port)
    ∷ (codes "error", text_value error)
    ∷ []

abbrev wol_result : Option Text → Text
wol_result none = codes "success"
wol_result (some error) = codes "failure"

abbrev wol_answer : Option Text → Result HttpException (Unit {0})
wol_answer none = ok tt
wol_answer (some error) = err (http_exception 502)

abbrev given_mac : Option Text → Result HttpException Text
given_mac none = err (http_exception 400)
given_mac (some []) = err (http_exception 400)
given_mac (some (c ∷ mac)) = ok (c ∷ mac)

-- The address of a machine for a user with access.
unfoldable pub mac_of : ℕ → User → MachineTables → Result HttpException Text
mac_of machine_id user t = do machine ← get_machine machine_id user t; given_mac machine.mac_address

unfoldable pub wake_on_lan :
    Network → ℕ → ℕ → WolIn → User → MachineTables → Result HttpException (Unit {0}) × MachineTables
wake_on_lan net now machine_id body user t = elim (mac_of machine_id user t) [
  | err e ↦ (err e, t)
  | ok mac ↦
      let error = broadcast net mac body.broadcast_addr body.port in
      (
        wol_answer error,
        record t {
          audit_log =
              t.audit_log
              ++ (record_audit now (codes "machine.wol") (codes "machine")
                    (some (number_value machine_id)) (wol_result error) (some user.id)
                    (wol_details mac body error)
                  ∷ []);
        },
      )
]
