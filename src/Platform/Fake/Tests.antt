-- ===== src/Platform/Fake/Tests.antt =====
-- Tests of commands over the model of src/fake.rs.
use runman_agent.Prelude.{◌≡◌, refl, String, Bool, false, Option, some, none, [], ◌∷◌, retain, find}
use runman_agent.Prelude.Int.{pos}
use runman_agent.Prelude.Effect.{Result, ok, is_ok}
use runman_agent.Model.{
  Error, InstanceSpec, SpecRequest, PortForward, tcp, parse_forward, parse_vm_id, from_proto, port,
}
use runman_agent.Forwards.{owned_by}
use runman_agent.Forwards.Fake.{fake, add}
use runman_agent.Platform.Commands.{Down, set_port_fwd, delete_vm, run, Up}
use runman_agent.Platform.Fake.{Backend, get, services, port_forwards}
use runman_agent.Platform.Fake.Outcomes.{fake_run, delete_vm-outcome}
use runman_agent.Platform.Fake.Failures.{fake_run-unchanged}

-- The in-memory backend with an instance that does not run.
abbrev spec : InstanceSpec
spec = record {
  vm_id = "a";
  cpu = 2;
  ram_mb = 512;
  disk_gb = 10;
  bandwidth_mbps = 100;
  os_image = "debian";
  root_password = "secret";
}

abbrev rule : PortForward
rule = record { vm_id = "a"; proto = tcp; host_port = 20001; guest_port = 22; description = "SSH" }

abbrev backend : Backend
backend = record {
  instances = ("a", record { spec = spec; running = false }) ∷ [];
  forwards = record { rules = rule ∷ []; next_port = 20001 };
  create_calls = 1;
}

abbrev lost : Up → Backend → Bool × Backend
lost reply b = (false, b)

abbrev as_is : String → Option String
as_is text = some text

abbrev request : SpecRequest
request = record {
  vm_id = "b";
  cpu = pos 2;
  ram_mb = pos 512;
  disk_gb = pos 10;
  bandwidth_mbps = pos 100;
  os_image = "debian";
  root_password = "secret";
}

abbrev run_fake : Option Down → Backend → Result Error Unit × Backend
run_fake = fake_run lost as_is (λ e. "failed")

delete_vm-outcome_example :
    let (r, after) = run_fake (some (delete_vm "a")) backend in
    (r ≡ ok tt)
    × (get "a" after.instances ≡ none)
    × (retain (owned_by "a") after.forwards.rules ≡ [])
delete_vm-outcome_example = delete_vm-outcome lost as_is (λ e. "failed") "a" "a" backend refl

-- The host port is another instance's.
abbrev taken : Down
taken = set_port_fwd (record {
  vm_id = "b";
  protocol = pos 1;
  host_port = pos 20001;
  guest_port = pos 22;
  description = "";
})

refused : is_ok (run_fake (some taken) backend).0 ≡ false
unfolding fake_run run services port_forwards fake add parse_forward parse_vm_id from_proto port
    find
refused = refl

fake_run-unchanged_example : (run_fake (some taken) backend).1 ≡ backend
fake_run-unchanged_example =
    fake_run-unchanged lost as_is (λ e. "failed") (some taken) backend refused
