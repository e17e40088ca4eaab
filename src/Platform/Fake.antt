-- ===== src/Platform/Fake.antt =====
-- src/fake.rs: the in-memory backend's `Instances`, and its services. The map of instances is a list in
-- the order of the identifiers, as a `BTreeMap` is walked through. The artificial delay is left out.
use Prim.Native.Char.{code}
use Prim.Native.String.{◌++◌ as append}
use runman_agent.Prelude.{
  ℕ, zero, suc, ◌+◌, String, Bool, true, false, not, Option, none, some, List, [], ◌∷◌, ltb, ◌==◌,
  if◌then◌else◌, str_eq, retain,
}
use runman_agent.Prelude.Effect.{Result, ok, err, Exec}
use runman_agent.Model.{Error, not_found, InstanceSpec}
use runman_agent.Forwards.{PortForwards}
use runman_agent.Forwards.Fake.{Fake, fake}
use runman_agent.Connlimit.Policy.{show_number}
use runman_agent.Platform.Commands.{Instances, Services, Up}
pub mod Outcomes
pub mod Failures
mod Tests

pub record FakeInstance : Type 0 where
  pub spec : InstanceSpec
  pub running : Bool

-- The instances, the rules of the port forwards, and the number of calls of `create`.
pub record Backend : Type 0 where
  pub instances : List (String × FakeInstance)
  pub forwards : Fake
  pub create_calls : ℕ

-- The order of texts: by their code points, as that of their UTF-8.
unfoldable pub str_lt : String → String → Bool
str_lt s String.[] = false
str_lt String.[] (String.◌∷◌ d t) = true
str_lt (String.◌∷◌ c s) (String.◌∷◌ d t) =
    if code c == code d then str_lt s t else ltb (code c) (code d)

unfoldable pub get : String → List (String × FakeInstance) → Option FakeInstance
get id [] = none
get id ((k, i) ∷ map) = if str_eq k id then some i else get id map

unfoldable pub put :
    String → FakeInstance → List (String × FakeInstance) → List (String × FakeInstance)
unfolding str_lt
put id i [] = (id, i) ∷ []
put id i ((k, j) ∷ map) =
    if str_eq k id
    then (k, i) ∷ map
    else if str_lt id k
    then (id, i) ∷ (k, j) ∷ map
    else (k, j) ∷ put id i map

unfoldable pub remove_key : String → List (String × FakeInstance) → List (String × FakeInstance)
remove_key id map = retain (λ entry. not (str_eq entry.0 id)) map

-- `with_instance`, for a change of the instance.
unfoldable pub with_instance : String → (FakeInstance → FakeInstance) → Exec Error Backend Unit
unfolding get put
with_instance id f b = elim (get id b.instances) [
  | some i ↦ (ok tt, record b { instances = put id (f i) b.instances })
  | none ↦ (err (not_found id), b)
]

unfoldable pub create : InstanceSpec → Exec Error Backend Unit
unfolding put
create spec b =
    let i : FakeInstance = record { spec = spec; running = true } in
    (
      ok tt,
      record b { instances = put spec.vm_id i b.instances; create_calls = suc b.create_calls },
    )

abbrev set_running : Bool → FakeInstance → FakeInstance
set_running r i = record i { running = r }

abbrev set_password : String → FakeInstance → FakeInstance
set_password password i = record i { spec = record i.spec { root_password = password } }

unfoldable pub delete : String → Exec Error Backend Unit
unfolding remove_key
delete id b = (ok tt, record b { instances = remove_key id b.instances })

unfoldable pub instances : Instances Backend
unfolding with_instance create delete
instances = record {
  create = create;
  reinstall = create;
  start = λ id. with_instance id (set_running true);
  stop = λ id force. with_instance id (set_running false);
  restart = λ id. with_instance id (set_running true);
  delete = delete;
  reset_password = λ id password. with_instance id (set_password password);
}

-- The port forwards on their part of the backend.
abbrev on_forwards : {A : Type 0} → Exec Error Fake A → Exec Error Backend A
on_forwards m b = let (r, f) = m b.forwards in (r, record b { forwards = f })

unfoldable pub port_forwards : PortForwards Backend
unfolding fake
port_forwards = record {
  add = λ rule. on_forwards (fake.add rule);
  remove = λ id proto host_port. on_forwards (fake.remove id proto host_port);
  list = λ id. on_forwards (fake.list id);
  remove_all = λ id. on_forwards (fake.remove_all id);
  free_port = on_forwards fake.free_port;
}

-- `VmSummary`: the fields that the backend sets.
pub record VmSummary : Type 0 where
  pub vm_id : String
  pub status : ℕ
  pub ips : List String

unfoldable pub summaries : ℕ → List (String × FakeInstance) → List VmSummary
unfolding show_number
summaries n [] = []
summaries n ((k, i) ∷ map) =
    let summary : VmSummary = record {
      vm_id = i.spec.vm_id;
      status = if i.running then 2 else 3;
      ips = append "10.91.0." (show_number (n + 2)) ∷ [];
    } in
    summary ∷ summaries (suc n) map

unfoldable pub list : Exec Error Backend (List VmSummary)
unfolding summaries
list b = (ok (summaries 0 b.instances), b)

-- The services of the backend, with a link to the platform.
unfoldable pub services :
    (Up → Backend → Bool × Backend) → (String → Option String) → (Error → String) → Services Backend
unfolding instances port_forwards
services send parse_uuid show_error = record {
  instances = instances;
  port_forwards = port_forwards;
  send = send;
  parse_uuid = parse_uuid;
  show_error = show_error;
}
