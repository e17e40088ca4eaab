-- ===== src/Forwards.antt =====
-- src/backend.rs: the interface `PortForwards`, the limit of rules per instance that wraps it, and the
-- automatic SSH rule. `W` is the state behind the interface. Every method holds the lock of its state
-- while it runs, so it is one step.
pub mod Laws
pub mod Fake
pub mod Host
pub mod Unique
pub mod Limit
pub mod Ssh
mod Tests
use runman_agent.Prelude.{
  ℕ, zero, suc, ◌&&◌, ◌||◌, String, Bool, true, false, Option, none, some, List, [], ◌∷◌, ltb, leb,
  ◌==◌, if◌then◌else◌, str_eq, length, find, any, retain,
}
use runman_agent.Prelude.Effect.{Result, ok, err, Exec, ◌>>=◌, ◌>>◌, pure, bail, lift}
use runman_agent.Model.{Error, forward_limit, L4Proto, tcp, proto_eq, PortForward, rule_eq}

pub record PortForwards (W : Type 0) : Type 0 where
  pub add : PortForward → Exec Error W Unit
  pub remove : String → L4Proto → ℕ → Exec Error W Unit
  pub list : Option String → Exec Error W (List PortForward)
  pub remove_all : String → Exec Error W Unit
  pub free_port : Exec Error W ℕ

abbrev pub owned_by : String → PortForward → Bool
owned_by id f = str_eq f.vm_id id

-- The number of rules of an instance.
unfoldable pub count_of : String → List PortForward → ℕ
count_of id rules = length (retain (owned_by id) rules)

unfoldable pub check_forward_limit : List PortForward → PortForward → ℕ → Result Error Unit
unfolding count_of
check_forward_limit existing rule max =
    if max == 0 || any (λ f. rule_eq f rule) existing
    then ok tt
    else if leb max (count_of rule.vm_id existing)
    then err (forward_limit rule.vm_id (count_of rule.vm_id existing) max)
    else ok tt

-- `LimitedForwards`: `max_forwards` is read from the configuration at each call.
unfoldable pub limited : {W : Type 0} → (W → ℕ) → PortForwards W → PortForwards W
limited max_forwards inner = record {
  add = λ rule. do
    existing ← inner.list (some rule.vm_id)
    (λ w. lift (check_forward_limit existing rule (max_forwards w)) w)
    inner.add rule;
  remove = inner.remove;
  list = inner.list;
  remove_all = inner.remove_all;
  free_port = inner.free_port;
}

abbrev pub is_ssh : PortForward → Bool
is_ssh r = proto_eq r.proto tcp && (r.guest_port == 22)

abbrev pub ssh_rule : String → ℕ → PortForward
ssh_rule id host_port = record {
  vm_id = id;
  proto = tcp;
  host_port = host_port;
  guest_port = 22;
  description = "ssh";
}

module _ {W : Type 0} (pf : PortForwards W) (id : String) where
  -- The loop over five attempts; errors of `add` are logged only.
  unfoldable pub ssh_attempts : ℕ → W → Option ℕ × W
  ssh_attempts zero w = (none, w)
  ssh_attempts (suc n) w =
      let (port, w1) = pf.free_port w in
      elim port [
        | err e ↦ (none, w1)
        | ok host_port ↦
            let (added, w2) = pf.add (ssh_rule id host_port) w1 in
            elim added [ ok u ↦ (some host_port, w2) | err e ↦ ssh_attempts n w2 ]
      ]

  unfoldable pub ensure_ssh_forward : W → Option ℕ × W
  unfolding ssh_attempts
  ensure_ssh_forward w =
      let (listed, w1) = pf.list (some id) w in
      elim listed [
        | err e ↦ (none, w1)
        | ok rules ↦ elim (find is_ssh rules) [
          | some r ↦ (some r.host_port, w1)
          | none ↦ ssh_attempts 5 w1
        ]
      ]
