-- ===== src/Model/Tests.antt =====
-- Tests of the validation of commands, and its theorems at concrete inputs.
use runman_agent.Prelude.{◌≡◌, refl, String, Option, none, some, arith, str_eq, if◌then◌else◌}
use runman_agent.Prelude.Int.{pos, negsuc}
use runman_agent.Prelude.Effect.{ok, err}
use runman_agent.Model.{
  PortForward, SpecRequest, InstanceSpec, tcp, password_control, port_out_of_range, port, to_entry,
  validate_password, build, parse_forward, console_size,
}
use runman_agent.Model.Validation.{
  IsValidSpec, request_of, parse_forward-to_entry, build-IsValidSpec,
}

-- A parser that knows one identifier, in two spellings.
abbrev one_uuid : String → Option String
one_uuid raw =
    if str_eq raw "0a-1" then some "0a-1" else if str_eq raw "0A-1" then some "0a-1" else none

abbrev web : PortForward
web = record {
  vm_id = "0a-1";
  proto = tcp;
  host_port = 20001;
  guest_port = 80;
  description = "web";
}

port_zero : port (pos 0) "host_port" ≡ err (port_out_of_range "host_port" (pos 0))
unfolding port
port_zero = refl

split_password : validate_password "abc\ndef" ≡ err password_control
unfolding validate_password
split_password = refl

no_rows : console_size 80 0 ≡ none
unfolding console_size
no_rows = refl

parse_forward-to_entry_example : parse_forward one_uuid (request_of (to_entry web)) ≡ ok web
parse_forward-to_entry_example = parse_forward-to_entry one_uuid web refl (omega arith)

abbrev small : SpecRequest
small = record {
  vm_id = "0A-1";
  cpu = negsuc 2;
  ram_mb = pos 64;
  disk_gb = pos 10;
  bandwidth_mbps = pos 100;
  os_image = "debian";
  root_password = "secret";
}

abbrev small_spec : InstanceSpec
small_spec = record {
  vm_id = "0a-1";
  cpu = 1;
  ram_mb = 128;
  disk_gb = 10;
  bandwidth_mbps = 100;
  os_image = "debian";
  root_password = "secret";
}

small_is_built : build one_uuid small ≡ ok small_spec
unfolding build
small_is_built = refl

build-IsValidSpec_example : (one_uuid "0A-1" ≡ some "0a-1") × IsValidSpec small small_spec
build-IsValidSpec_example = build-IsValidSpec one_uuid small small_spec small_is_built
