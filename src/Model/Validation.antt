-- ===== src/Model/Validation.antt =====
-- What validated values satisfy.
use runman_agent.Prelude.{
  ℕ, ◌≤◌, ◌≡◌, ◌≢◌, ◌↔◌, refl, String, false, Option, some, arith, str_eq_iff,
}
use runman_agent.Prelude.Int.{ℤ, pos, negsuc}
use runman_agent.Prelude.Effect.{ok}
use runman_agent.Model.{
  L4Proto, PortForward, PortForwardEntry, InstanceSpec, SpecRequest, ForwardRequest, port,
  from_proto, to_proto, to_entry, has_control, build, parse_forward,
}

-- A port is accepted exactly when it is a number from 1 to 65535, and is not changed.
pub port_iff :
    (raw : ℤ) (what : String) (n : ℕ)
    → (port raw what ≡ ok n) ↔ ((raw ≡ pos n) × (1 ≤ n) × (n ≤ 65535))
unfolding port
port_iff (pos k) what n = (λ h. ground arith, λ h. ground arith)
port_iff (negsuc k) what n = (λ h. ground arith, λ h. ground arith)

-- A rule that is fit to be sent: its ports fit a u16 and are not 0.
pub record HasPorts (f : PortForward) : Type 0 where
  pub host_pos : 1 ≤ f.host_port
  pub host_le : f.host_port ≤ 65535
  pub guest_pos : 1 ≤ f.guest_port
  pub guest_le : f.guest_port ≤ 65535

-- The command that asks for the rule of an entry.
abbrev pub request_of : PortForwardEntry → ForwardRequest
request_of e = record {
  vm_id = e.entry_vm_id;
  protocol = e.entry_protocol;
  host_port = e.entry_host_port;
  guest_port = e.entry_guest_port;
  description = e.entry_description;
}

-- What every accepted instance specification satisfies, beside the request that it comes from.
pub record IsValidSpec (c : SpecRequest) (s : InstanceSpec) : Type 0 where
  pub cpu_pos : 1 ≤ s.cpu
  pub ram_floor : 128 ≤ s.ram_mb
  pub disk_pos : 1 ≤ s.disk_gb
  pub image_kept : s.os_image ≡ c.os_image
  pub image_named : s.os_image ≢ ""
  pub password_kept : s.root_password ≡ c.root_password
  pub password_given : s.root_password ≢ ""
  pub password_clean : has_control s.root_password ≡ false

from_proto-to_proto : (p : L4Proto) → from_proto (to_proto p) ≡ ok p
unfolding from_proto to_proto
from_proto-to_proto L4Proto.tcp = refl
from_proto-to_proto L4Proto.udp = refl

module _ (parse_uuid : String → Option String) where
  -- A rule with ports from 1 to 65535 and an identifier in its canonical form is got back from the
  -- command that asks for the entry that it is sent as.
  pub parse_forward-to_entry :
      (f : PortForward)
      → parse_uuid f.vm_id ≡ some f.vm_id
      → HasPorts f
      → parse_forward parse_uuid (request_of (to_entry f)) ≡ ok f
  unfolding parse_forward to_entry
  parse_forward-to_entry f canonical ports = ground (arith, from_proto-to_proto f.proto)

  -- A specification that `build` accepts has at least one processor, 128 MiB of memory and 1 GiB of
  -- disk, the image and the password of the request, neither of them empty, and no control character
  -- in the password.
  pub build-IsValidSpec :
      (c : SpecRequest) (s : InstanceSpec)
      → build parse_uuid c ≡ ok s
      → (parse_uuid c.vm_id ≡ some s.vm_id) × IsValidSpec c s
  unfolding build
  build-IsValidSpec c s h = ground (arith, str_eq_iff c.os_image "", str_eq_iff c.root_password "")
