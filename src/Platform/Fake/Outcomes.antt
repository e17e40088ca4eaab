-- ===== src/Platform/Fake/Outcomes.antt =====
-- src/platform/commands.rs over src/fake.rs: what a command leaves of the in-memory backend.
use runman_agent.Prelude.{
  ℕ, ◌+◌, ◌%◌, zero, suc, ◌≡◌, ◌∙◌, refl, ap, String, Bool, true, not, Option, none, some, List, [],
  ◌∷◌, arith, inl, inr, if◌then◌else◌, str_eq, str_eq_iff, retain, find, Option-cases, Bool-cases,
}
use runman_agent.Prelude.Effect.{Result, ok, Result-cases}
use runman_agent.Model.{Error, InstanceSpec, SpecRequest, PortForward, build, parse_vm_id}
use runman_agent.Forwards.{ssh_rule, is_ssh, owned_by, ssh_attempts, ensure_ssh_forward}
use runman_agent.Platform.Commands.{Down, create_vm, delete_vm, Up, with_ssh, run}
use runman_agent.Platform.Fake.{
  Backend, FakeInstance, get, put, remove_key, create, instances, port_forwards, services,
}

get-put :
    (q id : String) (i : FakeInstance) (map : List (String × FakeInstance))
    → get q (put id i map) ≡ (if str_eq id q then some i else get q map)
unfolding get put
get-put q id i [] = refl
get-put q id i ((k, j) ∷ map) =
    ground (arith, get-put q id i map, str_eq_iff k id, str_eq_iff id q, str_eq_iff k q)

get-remove_key :
    (id : String) (map : List (String × FakeInstance)) → get id (remove_key id map) ≡ none
unfolding get remove_key retain
get-remove_key id [] = refl
get-remove_key id ((k, i) ∷ map) = ground (arith, get-remove_key id map)

retain-not_owned :
    (id : String) (rules : List PortForward)
    → retain (owned_by id) (retain (λ r. not (owned_by id r)) rules) ≡ []
unfolding retain
retain-not_owned id [] = refl
retain-not_owned id (r ∷ rules) = elim (Bool-cases (owned_by id r)) [
  | inl mine ↦ rw mine (retain-not_owned id rules)
  | inr other ↦ rw (other, other) (retain-not_owned id rules)
]

ssh_attempts-instances :
    (id : String) (n : ℕ) (b : Backend)
    → (ssh_attempts port_forwards id n b).1.instances ≡ b.instances
unfolding ssh_attempts port_forwards
ssh_attempts-instances id zero b = refl
ssh_attempts-instances id (suc n) b =
    let (port, b1) = port_forwards.free_port b in
    let p : ℕ = (b.forwards.next_port + 1) % 65536 in
    let b2 = (port_forwards.add (ssh_rule id p) b1).1 in
    elim (Result-cases (port_forwards.add (ssh_rule id p) b1).0) [
      | inl (u, e) ↦ rw (ssh_attempts, e) refl
      | inr (x, e) ↦ rw (ssh_attempts, e) (ssh_attempts-instances id n b2)
    ]

ensure_ssh_forward-instances :
    (id : String) (b : Backend) → (ensure_ssh_forward port_forwards id b).1.instances ≡ b.instances
unfolding ensure_ssh_forward port_forwards
ensure_ssh_forward-instances id b =
    elim (Option-cases (find is_ssh (retain (owned_by id) b.forwards.rules))) [
      | inl e ↦ rw (ensure_ssh_forward, e) (ssh_attempts-instances id 5 b)
      | inr (r, e) ↦ rw (ensure_ssh_forward, e) refl
    ]

module _ (send : Up → Backend → Bool × Backend) (parse_uuid : String → Option String)
    (show_error : Error → String) where
  unfoldable pub fake_run : Option Down → Backend → Result Error Unit × Backend
  unfolding services run
  fake_run payload b = run (services send parse_uuid show_error) payload b

  -- A `delete_vm` command with an identifier that is read succeeds, and leaves neither the instance
  -- nor a port forward of it.
  pub delete_vm-outcome :
      (raw id : String) (b : Backend)
      → parse_uuid raw ≡ some id
      → (let (r, after) = fake_run (some (delete_vm raw)) b in
          (r ≡ ok tt)
          × (get id after.instances ≡ none)
          × (retain (owned_by id) after.forwards.rules ≡ []))
  unfolding fake_run parse_vm_id instances port_forwards
  delete_vm-outcome raw id b e =
      rw (parse_vm_id, e)
        (refl, get-remove_key id b.instances, retain-not_owned id b.forwards.rules)

  -- A `create_vm` command whose specification is accepted succeeds, and leaves the instance running
  -- with that specification, and every other instance as it was.
  pub create_vm-outcome :
      (c : SpecRequest) (spec : InstanceSpec) (b : Backend)
      → build parse_uuid c ≡ ok spec
      → (let (r, after) = fake_run (some (create_vm c)) b in
          (r ≡ ok tt)
          × ((id : String)
              → get id after.instances ≡ (
                  if str_eq spec.vm_id id
                  then some (record { spec = spec; running = true })
                  else get id b.instances)))
  unfolding fake_run instances with_ssh create
  create_vm-outcome c spec b e =
      let i : FakeInstance = record { spec = spec; running = true } in
      rw e (
        refl,
        λ id.
            ap (get id) (ensure_ssh_forward-instances spec.vm_id (create spec b).1)
            ∙ get-put id spec.vm_id i b.instances,
      )
