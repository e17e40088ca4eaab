-- ===== src/Forwards/Host.antt =====
-- src/runtime/mod.rs: the `PortForwards` of the real runtime. What lies outside the list of rules (the
-- instance records, the listening sockets, the packet filter, the file of rules, the random numbers)
-- is the state `E`, and the calls that reach it are the parameter `HostOps`.
use runman_agent.Prelude.{
  ℕ, zero, suc, ◌≡◌, String, Bool, true, false, not, ◌&&◌, ◌||◌, Option, none, some, List, [], ◌∷◌,
  ◌++◌, ◌==◌, if◌then◌else◌, str_eq, length, find, any, retain,
}
use runman_agent.Prelude.Effect.{Result, ok, err, is_ok, Exec, ◌>>=◌, ◌>>◌, pure, bail, continue}
use runman_agent.Model.{
  Error, not_found, failed, port_taken, port_in_use_by_host, L4Proto, tcp, udp, proto_eq,
  PortForward,
}
use runman_agent.Forwards.{PortForwards, owned_by}
use runman_agent.Forwards.Laws.{same_port, same_target, is_rule, listed}
pub mod Proofs

pub record HostOps (E : Type 0) : Type 0 where
  -- Whether the record of an instance is on disk.
  pub load : String → Exec Error E Bool
  pub host_listening : L4Proto → ℕ → E → Bool × E
  pub apply_network : List PortForward → Exec Error E Unit
  pub save_forwards : List PortForward → Exec Error E Unit
  -- A number from `AUTO_PORTS`.
  pub random_port : E → ℕ × E

pub record Runtime (E : Type 0) : Type 0 where
  pub forwards : List PortForward
  pub outside : E

-- A call that reaches only the outside.
abbrev pub reach : {E A : Type 0} → Exec Error E A → Exec Error (Runtime E) A
reach m w = let (r, e) = m w.outside in (r, record w { outside = e })

module _ {E : Type 0} (ops : HostOps E) where
  unfoldable pub require : String → Exec Error E Unit
  require id = do found ← ops.load id; if found then pure tt else bail (not_found id)

  unfoldable pub install : List PortForward → Exec Error (Runtime E) Unit
  install next = do
    reach (ops.apply_network next)
    reach (ops.save_forwards next)
    (λ w. (ok tt, record w { forwards = next }))

  unfoldable pub add_new : PortForward → Exec Error (Runtime E) Unit
  unfolding install
  add_new rule w =
      let (listening, e) = ops.host_listening rule.proto rule.host_port w.outside in
      let w1 = record w { outside = e } in
      if listening
      then (err (port_in_use_by_host rule.host_port), w1)
      else install (w1.forwards ++ rule ∷ []) w1

  unfoldable pub add_checked : PortForward → Exec Error (Runtime E) Unit
  unfolding add_new
  add_checked rule w = elim (find (same_port rule) w.forwards) [
    | some existing ↦
        if same_target rule existing then (ok tt, w) else (err (port_taken rule.host_port), w)
    | none ↦ add_new rule w
  ]

  unfoldable pub add : PortForward → Exec Error (Runtime E) Unit
  unfolding require add_checked
  add rule = do reach (require rule.vm_id); add_checked rule

  -- The rest of `remove` and `remove_all`: nothing is done if no rule goes.
  unfoldable pub keep_only : (PortForward → Bool) → Exec Error (Runtime E) Unit
  unfolding install
  keep_only kept w =
      let next = retain kept w.forwards in
      if length next == length w.forwards then (ok tt, w) else install next w

  unfoldable pub remove : String → L4Proto → ℕ → Exec Error (Runtime E) Unit
  unfolding keep_only
  remove id proto host_port = keep_only λ f. not (is_rule id proto host_port f)

  unfoldable pub list : Option String → Exec Error (Runtime E) (List PortForward)
  list id w = (ok (listed id w.forwards), w)

  unfoldable pub remove_all : String → Exec Error (Runtime E) Unit
  unfolding keep_only
  remove_all id = keep_only λ f. not (owned_by id f)

  -- `forwards.iter().any(..) || host_listening(Tcp, port) || host_listening(Udp, port)`
  unfoldable pub is_taken : ℕ → List PortForward → E → Bool × E
  is_taken port forwards e =
      if any (λ f. f.host_port == port) forwards
      then (true, e)
      else (let (on_tcp, e1) = ops.host_listening tcp port e in
          if on_tcp then (true, e1) else ops.host_listening udp port e1)

  unfoldable pub free_port_attempts : ℕ → Exec Error (Runtime E) ℕ
  unfolding is_taken
  free_port_attempts zero w = (err (failed "no free host port"), w)
  free_port_attempts (suc n) w =
      let (port, e) = ops.random_port w.outside in
      let (taken, e1) = is_taken port w.forwards e in
      let w1 = record w { outside = e1 } in
      let rest = free_port_attempts n w1 in if not taken then (ok port, w1) else rest

  unfoldable pub free_port : Exec Error (Runtime E) ℕ
  unfolding free_port_attempts
  free_port = free_port_attempts 200

  unfoldable pub runtime : PortForwards (Runtime E)
  unfolding add remove list remove_all free_port
  runtime = record {
    add = add;
    remove = remove;
    list = list;
    remove_all = remove_all;
    free_port = free_port;
  }
