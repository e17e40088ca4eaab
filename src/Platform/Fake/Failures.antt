-- ===== src/Platform/Fake/Failures.antt =====
-- src/platform/commands.rs over src/fake.rs: what a command that fails leaves of the backend.
use runman_agent.Prelude.{
  ℕ, ◌≡◌, refl, String, Bool, false, Option, none, some, find, inl, inr, Option-cases, Bool-cases,
}
use runman_agent.Prelude.Effect.{Result, ok, err, is_ok, Exec, ◌>>=◌, lift, bail}
use runman_agent.Model.{
  Error, PortForward, L4Proto, from_proto, port, validate_password, build, parse_vm_id,
  parse_forward,
}
use runman_agent.Forwards.Fake.{fake, add}
use runman_agent.Forwards.Laws.{same_port, same_target}
use runman_agent.Platform.Commands.{
  Down, create_vm, start_vm, stop_vm, restart_vm, delete_vm, reinstall_vm, reset_password,
  set_port_fwd, del_port_fwd, get_port_fwds, ping, console_open, console_input, console_resize,
  console_close, wg_sync_response, Up, with_ssh, run,
}
use runman_agent.Platform.Fake.{
  Backend, FakeInstance, get, with_instance, create, delete, instances, port_forwards, services,
}
use runman_agent.Platform.Fake.Outcomes.{fake_run}

-- Code that changes nothing if it fails.
record Atomic {A : Type 0} (m : Exec Error Backend A) : Type 0 where
  unchanged : (b : Backend) → is_ok (m b).0 ≡ false → (m b).1 ≡ b

lift-Atomic :
    {A B : Type 0} (r : Result Error A) {f : A → Exec Error Backend B}
    → ((a : A) → Atomic (f a))
    → Atomic (lift r >>= f)
lift-Atomic (ok a) h = record { unchanged = λ b e. (h a).unchanged b e }
lift-Atomic (err x) h = record { unchanged = λ b e. refl }

bail-Atomic : {A : Type 0} (e : Error) → Atomic (bail {A = A} e)
bail-Atomic e = record { unchanged = λ b d. refl }

with_instance-Atomic : (id : String) (f : FakeInstance → FakeInstance) → Atomic (with_instance id f)
unfolding with_instance
with_instance-Atomic id f = record {
  unchanged = λ b. elim (Option-cases (get id b.instances)) [
    | inl e ↦ rw (with_instance, e) (λ d. refl)
    | inr (i, e) ↦ rw (with_instance, e) (λ d. absurd (cc (d)))
  ];
}

add-Atomic : (rule : PortForward) → Atomic (port_forwards.add rule)
unfolding port_forwards fake add
add-Atomic rule = record {
  unchanged = λ b. elim (Option-cases (find (same_port rule) b.forwards.rules)) [
    | inl e ↦ rw (add, e) (λ d. absurd (cc (d)))
    | inr (r, e) ↦ elim (Bool-cases (same_target rule r)) [
      | inl f ↦ rw (add, e, f) (λ d. absurd (cc (d)))
      | inr f ↦ rw (add, e, f) (λ d. refl)
    ]
  ];
}

remove-Atomic :
    (id : String) (proto : L4Proto) (host_port : ℕ)
    → Atomic (port_forwards.remove id proto host_port)
unfolding port_forwards fake
remove-Atomic id proto host_port = record { unchanged = λ b d. absurd (cc (d)) }

module _ (send : Up → Backend → Bool × Backend) (parse_uuid : String → Option String)
    (show_error : Error → String) where
  run-Atomic : (d : Option Down) → Atomic (run (services send parse_uuid show_error) d)
  unfolding run services instances create delete with_ssh port_forwards fake
  run-Atomic (some (create_vm c)) =
      lift-Atomic (build parse_uuid c) λ spec. record { unchanged = λ b e. absurd (cc (e)) }
  run-Atomic (some (reinstall_vm c)) =
      lift-Atomic (build parse_uuid c) λ spec. record { unchanged = λ b e. absurd (cc (e)) }
  run-Atomic (some (start_vm raw)) =
      lift-Atomic (parse_vm_id parse_uuid raw) λ id. with_instance-Atomic id _
  run-Atomic (some (stop_vm raw force)) =
      lift-Atomic (parse_vm_id parse_uuid raw) λ id. with_instance-Atomic id _
  run-Atomic (some (restart_vm raw)) =
      lift-Atomic (parse_vm_id parse_uuid raw) λ id. with_instance-Atomic id _
  run-Atomic (some (delete_vm raw)) =
      lift-Atomic (parse_vm_id parse_uuid raw) λ id. record { unchanged = λ b e. absurd (cc (e)) }
  run-Atomic (some (reset_password raw password)) =
      lift-Atomic (parse_vm_id parse_uuid raw)
        λ id. lift-Atomic (validate_password password) λ _. with_instance-Atomic id _
  run-Atomic (some (set_port_fwd c)) =
      lift-Atomic (parse_forward parse_uuid c) λ rule. add-Atomic rule
  run-Atomic (some (del_port_fwd raw protocol host_port)) =
      lift-Atomic (parse_vm_id parse_uuid raw) λ id.
        lift-Atomic (from_proto protocol)
          λ proto. lift-Atomic (port host_port "host_port") λ p. remove-Atomic id proto p
  run-Atomic (some (get_port_fwds id)) = bail-Atomic _
  run-Atomic (some ping) = bail-Atomic _
  run-Atomic (some console_open) = bail-Atomic _
  run-Atomic (some console_input) = bail-Atomic _
  run-Atomic (some console_resize) = bail-Atomic _
  run-Atomic (some console_close) = bail-Atomic _
  run-Atomic (some wg_sync_response) = bail-Atomic _
  run-Atomic none = bail-Atomic _

  -- Whatever the command, if it fails on the in-memory backend then it changes nothing: no instance, no
  -- port forward and no counter.
  pub fake_run-unchanged :
      (d : Option Down) (b : Backend)
      → is_ok (fake_run send parse_uuid show_error d b).0 ≡ false
      → (fake_run send parse_uuid show_error d b).1 ≡ b
  unfolding fake_run
  fake_run-unchanged d b e = (run-Atomic d).unchanged b e
