-- ===== src/Forwards/Unique.antt =====
-- src/backend.rs: histories of calls of `PortForwards`, and the host ports of the rules after them.
use runman_agent.Prelude.{
  ℕ, ◌≡◌, refl, String, Bool, false, none, List, [], ◌∷◌, ◌++◌, arith, inl, inr, find, retain,
  Bool-cases,
}
use runman_agent.Prelude.Effect.{is_ok}
use runman_agent.Model.{L4Proto, proto_eq, PortForward}
use runman_agent.Forwards.{PortForwards}
use runman_agent.Forwards.Laws.{ForwardLaws, Added, same_port}

pub data Call : Type 0 where
  adds : PortForward → Call
  removes : String → L4Proto → ℕ → Call
  removes_all : String → Call

module _ {W : Type 0} (pf : PortForwards W) where
  unfoldable pub step : Call → W → W
  step (adds rule) w = (pf.add rule w).1
  step (removes id proto host_port) w = (pf.remove id proto host_port w).1
  step (removes_all id) w = (pf.remove_all id w).1

  unfoldable pub run : List Call → W → W
  run [] w = w
  run (c ∷ cs) w = run cs (step c w)

-- No two rules take the same host port of the same protocol.
abbrev pub IsUnique : List PortForward → Type 0
IsUnique [] = Unit {0}
IsUnique (f ∷ rules) = (find (same_port f) rules ≡ none) × IsUnique rules

proto_eq_sym : (p q : L4Proto) → proto_eq p q ≡ proto_eq q p
proto_eq_sym L4Proto.tcp L4Proto.tcp = refl
proto_eq_sym L4Proto.tcp L4Proto.udp = refl
proto_eq_sym L4Proto.udp L4Proto.tcp = refl
proto_eq_sym L4Proto.udp L4Proto.udp = refl

same_port_sym : (f g : PortForward) → same_port f g ≡ same_port g f
same_port_sym f g = ground (arith, proto_eq_sym f.proto g.proto)

-- A rule whose port is free can stand at the end.
find-append :
    (f rule : PortForward) (rules : List PortForward)
    → find (same_port f) rules ≡ none
    → same_port f rule ≡ false
    → find (same_port f) (rules ++ rule ∷ []) ≡ none
unfolding find
find-append f rule [] h k = ground arith
find-append f rule (g ∷ rules) h k = ground (arith, find-append f rule rules)

append-IsUnique :
    (rule : PortForward) (rules : List PortForward)
    → find (same_port rule) rules ≡ none
    → IsUnique rules
    → IsUnique (rules ++ rule ∷ [])
unfolding find
append-IsUnique rule [] h u = (refl, tt)
append-IsUnique rule (f ∷ rules) h u =
    ground (arith, same_port_sym rule f, find-append f rule rules, append-IsUnique rule rules)

find-retain :
    (p q : PortForward → Bool) (rules : List PortForward)
    → find p rules ≡ none
    → find p (retain q rules) ≡ none
unfolding find retain
find-retain p q [] h = refl
find-retain p q (f ∷ rules) h = ground (arith, find-retain p q rules)

retain-IsUnique :
    (q : PortForward → Bool) (rules : List PortForward) → IsUnique rules → IsUnique (retain q rules)
unfolding retain
retain-IsUnique q [] u = tt
retain-IsUnique q (f ∷ rules) u =
    ground (arith, find-retain (same_port f) q rules u.0, retain-IsUnique q rules u.1)

Added-IsUnique :
    (rule : PortForward) (before after : List PortForward)
    → Added rule before after
    → IsUnique before
    → IsUnique after
Added-IsUnique rule before after (inl (f, found, same, e)) u = rw e u
Added-IsUnique rule before after (inr (free, e)) u = rw e (append-IsUnique rule before free u)

module _ {W : Type 0} (pf : PortForwards W) (rules : W → List PortForward)
    (laws : ForwardLaws pf rules) where
  step-IsUnique : (c : Call) (w : W) → IsUnique (rules w) → IsUnique (rules (step pf c w))
  unfolding step
  step-IsUnique (adds rule) w u = elim (Bool-cases (is_ok (pf.add rule w).0)) [
    | inl done ↦ Added-IsUnique rule (rules w) _ (laws.add_ok rule w done) u
    | inr failed ↦ rw (laws.add_err rule w failed) u
  ]
  step-IsUnique (removes id proto host_port) w u =
      elim (Bool-cases (is_ok (pf.remove id proto host_port w).0)) [
        | inl done ↦ rw (laws.remove_ok id proto host_port w done) (retain-IsUnique _ (rules w) u)
        | inr failed ↦ rw (laws.remove_err id proto host_port w failed) u
      ]
  step-IsUnique (removes_all id) w u = elim (Bool-cases (is_ok (pf.remove_all id w).0)) [
    | inl done ↦ rw (laws.remove_all_ok id w done) (retain-IsUnique _ (rules w) u)
    | inr failed ↦ rw (laws.remove_all_err id w failed) u
  ]

  -- For an implementation that satisfies `ForwardLaws`, if no two rules take the same host port of the
  -- same protocol, then none do after any calls, whichever of them fail.
  pub run-IsUnique : (cs : List Call) (w : W) → IsUnique (rules w) → IsUnique (rules (run pf cs w))
  unfolding run
  run-IsUnique [] w u = u
  run-IsUnique (c ∷ cs) w u = run-IsUnique cs (step pf c w) (step-IsUnique c w u)
