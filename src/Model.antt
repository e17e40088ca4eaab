-- ===== src/Model.antt =====
-- src/model.rs: the values that commands are converted to, and their validation.
use Prim.Native.Char.{code}
use runman_agent.Prelude.{
  ℕ, ◌+◌, ◌≤◌, String, Bool, true, false, ◌&&◌, ◌||◌, Option, none, some, ltb, leb, ◌==◌,
  if◌then◌else◌, str_eq,
}
use runman_agent.Prelude.Int.{ℤ, pos, negsuc}
use runman_agent.Prelude.Effect.{Result, ok, err}
pub mod Validation
mod Tests

-- Why a command is refused. The texts of the messages are not modelled.
pub data Error : Type 0 where
  invalid_vm_id : String → Error
  os_image_required password_required password_control empty_command : Error
  unsupported_protocol : ℤ → Error
  port_out_of_range : String → ℤ → Error
  unsupported_command : String → Error
  not_found : String → Error
  forward_limit : String → ℕ → ℕ → Error
  port_taken : ℕ → Error
  port_in_use_by_host : ℕ → Error
  -- Any other failure of the host or of a service, with its message.
  failed : String → Error

pub data L4Proto : Type 0 where
  tcp udp : L4Proto

abbrev pub proto_eq : L4Proto → L4Proto → Bool
proto_eq L4Proto.tcp L4Proto.tcp = true
proto_eq L4Proto.udp L4Proto.udp = true
proto_eq L4Proto.tcp L4Proto.udp = false
proto_eq L4Proto.udp L4Proto.tcp = false

-- The numbers of `Protocol` in proto/agent.proto.
unfoldable pub from_proto : ℤ → Result Error L4Proto
from_proto (pos n) =
    if n == 1 then ok tcp else if n == 2 then ok udp else err (unsupported_protocol (pos n))
from_proto (negsuc n) = err (unsupported_protocol (negsuc n))

unfoldable pub to_proto : L4Proto → ℤ
to_proto L4Proto.tcp = pos 1
to_proto L4Proto.udp = pos 2

pub record PortForward : Type 0 where
  pub vm_id : String
  pub proto : L4Proto
  pub host_port : ℕ
  pub guest_port : ℕ
  pub description : String

-- The derived equality of rules.
unfoldable pub rule_eq : PortForward → PortForward → Bool
rule_eq f g =
    str_eq f.vm_id g.vm_id
    && proto_eq f.proto g.proto
    && (f.host_port == g.host_port)
    && (f.guest_port == g.guest_port)
    && str_eq f.description g.description

pub record PortForwardEntry : Type 0 where
  pub entry_vm_id : String
  pub entry_protocol : ℤ
  pub entry_host_port : ℤ
  pub entry_guest_port : ℤ
  pub entry_description : String

-- `PortForward::to_proto`; a port fits an i32.
unfoldable pub to_entry : PortForward → PortForwardEntry
unfolding to_proto
to_entry f = record {
  entry_vm_id = f.vm_id;
  entry_protocol = to_proto f.proto;
  entry_host_port = pos f.host_port;
  entry_guest_port = pos f.guest_port;
  entry_description = f.description;
}

-- `u16::try_from(raw)` that is not 0.
unfoldable pub port : ℤ → String → Result Error ℕ
port (pos n) what = if leb 1 n && leb n 65535 then ok n else err (port_out_of_range what (pos n))
port (negsuc n) what = err (port_out_of_range what (negsuc n))

-- `char::is_control`: the code points of Unicode's category Cc.
abbrev pub is_control : ℕ → Bool
is_control c = leb c 31 || (leb 127 c && leb c 159)

-- `s.chars().any(char::is_control)`
unfoldable pub has_control : String → Bool
has_control String.[] = false
has_control (String.◌∷◌ c s) = if is_control (code c) then true else has_control s

abbrev pub is_empty : String → Bool
is_empty s = str_eq s ""

unfoldable pub validate_password : String → Result Error Unit
unfolding has_control
validate_password password =
    if is_empty password
    then err password_required
    else if has_control password
    then err password_control
    else ok tt

pub record ConsoleSize : Type 0 where
  pub cols : ℕ
  pub rows : ℕ

-- `u16::try_from(v).ok().filter(|v| *v > 0)`
abbrev pub console_side : ℕ → Option ℕ
console_side v = if leb 1 v && leb v 65535 then some v else none

unfoldable pub console_size : ℕ → ℕ → Option ConsoleSize
console_size cols rows = elim (console_side cols) [
  | none ↦ none
  | some c ↦ elim (console_side rows) [
    | none ↦ none
    | some r ↦ some (record { cols = c; rows = r })
  ]
]

pub record InstanceSpec : Type 0 where
  pub vm_id : String
  pub cpu : ℕ
  pub ram_mb : ℕ
  pub disk_gb : ℕ
  pub bandwidth_mbps : ℕ
  pub os_image : String
  pub root_password : String

-- `x.max(floor)` of a signed number, cast to an unsigned one.
abbrev pub at_least : ℕ → ℤ → ℕ
at_least floor (pos n) = if ltb n floor then floor else n
at_least floor (negsuc n) = floor

-- The numbers of `VMStatus` in proto/agent.proto.
unfoldable pub status_name : ℤ → String
status_name (pos n) =
    if n == 2
    then "running"
    else if n == 3
    then "stopped"
    else if n == 1
    then "creating"
    else if n == 4
    then "error"
    else "unknown"
status_name (negsuc n) = "unknown"

-- `CmdCreateVM` and `CmdReinstallVM` of proto/agent.proto have the same fields.
pub record SpecRequest : Type 0 where
  pub vm_id : String
  pub cpu : ℤ
  pub ram_mb : ℤ
  pub disk_gb : ℤ
  pub bandwidth_mbps : ℤ
  pub os_image : String
  pub root_password : String

-- The fields of `CmdSetPortForward`.
pub record ForwardRequest : Type 0 where
  pub vm_id : String
  pub protocol : ℤ
  pub host_port : ℤ
  pub guest_port : ℤ
  pub description : String

abbrev pub and_then : {A B : Type 0} → Result Error A → (A → Result Error B) → Result Error B
and_then (ok a) f = f a
and_then (err e) f = err e

-- `Uuid::parse_str(raw)` with its canonical text is the parameter `parse_uuid`.
module _ (parse_uuid : String → Option String) where
  unfoldable pub parse_vm_id : String → Result Error String
  parse_vm_id raw = elim (parse_uuid raw) [ some id ↦ ok id | none ↦ err (invalid_vm_id raw) ]

  -- `InstanceSpec::build`, with the floors 1 vCPU, 128 MiB and 1 GiB.
  unfoldable pub build : SpecRequest → Result Error InstanceSpec
  unfolding parse_vm_id validate_password
  build c =
      if is_empty c.os_image
      then err os_image_required
      else and_then (validate_password c.root_password) λ _. and_then (parse_vm_id c.vm_id) λ id.
        ok (record {
          vm_id = id;
          cpu = at_least 1 c.cpu;
          ram_mb = at_least 128 c.ram_mb;
          disk_gb = at_least 1 c.disk_gb;
          bandwidth_mbps = at_least 0 c.bandwidth_mbps;
          os_image = c.os_image;
          root_password = c.root_password;
        })

  -- The rule of a `SetPortFwd` command.
  unfoldable pub parse_forward : ForwardRequest → Result Error PortForward
  unfolding parse_vm_id from_proto port
  parse_forward c = and_then (parse_vm_id c.vm_id) λ id. and_then (from_proto c.protocol) λ proto.
      and_then (port c.host_port "host_port") λ host_port.
        and_then (port c.guest_port "guest_port") λ guest_port. ok (record {
          vm_id = id;
          proto = proto;
          host_port = host_port;
          guest_port = guest_port;
          description = c.description;
        })

-- `str::len`: the length in UTF-8.
abbrev pub char_bytes : ℕ → ℕ
char_bytes c = if ltb c 128 then 1 else if ltb c 2048 then 2 else if ltb c 65536 then 3 else 4

unfoldable pub byte_len : String → ℕ
byte_len String.[] = 0
byte_len (String.◌∷◌ c s) = char_bytes (code c) + byte_len s

-- `str::starts_with`
unfoldable pub starts_with : String → String → Bool
starts_with s String.[] = true
starts_with String.[] (String.◌∷◌ d p) = false
starts_with (String.◌∷◌ c s) (String.◌∷◌ d p) = if code c == code d then starts_with s p else false
