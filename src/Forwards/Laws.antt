-- ===== src/Forwards/Laws.antt =====
-- What the clients of `PortForwards` rely on: how each method changes the list of rules.
use runman_agent.Prelude.{
  ℕ, ◌≡◌, String, Bool, true, false, not, ◌&&◌, Option, none, some, List, [], ◌∷◌, ◌++◌, ◌⊎◌, ◌==◌,
  str_eq, find, retain,
}
use runman_agent.Prelude.Effect.{ok, is_ok}
use runman_agent.Model.{L4Proto, proto_eq, PortForward}
use runman_agent.Forwards.{PortForwards, owned_by}

-- The rule takes the same host port of the same protocol.
abbrev pub same_port : PortForward → PortForward → Bool
same_port rule f = proto_eq f.proto rule.proto && (f.host_port == rule.host_port)

-- It leads to the same port of the same instance too.
abbrev pub same_target : PortForward → PortForward → Bool
same_target rule f = str_eq f.vm_id rule.vm_id && (f.guest_port == rule.guest_port)

abbrev pub is_rule : String → L4Proto → ℕ → PortForward → Bool
is_rule id proto host_port f =
    str_eq f.vm_id id && proto_eq f.proto proto && (f.host_port == host_port)

abbrev pub listed : Option String → List PortForward → List PortForward
listed none rules = rules
listed (some id) rules = retain (owned_by id) rules

-- A rule was added: it stood there already, or its host port was free and it is the last now.
abbrev pub Added : PortForward → List PortForward → List PortForward → Type 0
Added rule before after =
    ((f : PortForward) × (find (same_port rule) before ≡ some f)
      × (same_target rule f ≡ true)
      × (after ≡ before))
    ⊎ ((find (same_port rule) before ≡ none) × (after ≡ before ++ rule ∷ []))

-- `rules` reads the list from the state. A method that fails leaves the list as it was.
pub record ForwardLaws {W : Type 0} (pf : PortForwards W) (rules : W → List PortForward)
    : Type 0 where
  pub add_ok :
      (rule : PortForward) (w : W)
      → is_ok (pf.add rule w).0 ≡ true
      → Added rule (rules w) (rules (pf.add rule w).1)
  pub add_err :
      (rule : PortForward) (w : W)
      → is_ok (pf.add rule w).0 ≡ false
      → rules (pf.add rule w).1 ≡ rules w
  pub remove_ok :
      (id : String) (proto : L4Proto) (host_port : ℕ) (w : W)
      → is_ok (pf.remove id proto host_port w).0 ≡ true
      → rules (pf.remove id proto host_port w).1
        ≡ retain (λ f. not (is_rule id proto host_port f)) (rules w)
  pub remove_err :
      (id : String) (proto : L4Proto) (host_port : ℕ) (w : W)
      → is_ok (pf.remove id proto host_port w).0 ≡ false
      → rules (pf.remove id proto host_port w).1 ≡ rules w
  pub list_lem : (id : Option String) (w : W) → pf.list id w ≡ (ok (listed id (rules w)), w)
  pub remove_all_ok :
      (id : String) (w : W)
      → is_ok (pf.remove_all id w).0 ≡ true
      → rules (pf.remove_all id w).1 ≡ retain (λ f. not (owned_by id f)) (rules w)
  pub remove_all_err :
      (id : String) (w : W)
      → is_ok (pf.remove_all id w).0 ≡ false
      → rules (pf.remove_all id w).1 ≡ rules w
  pub free_port_keeps : (w : W) → rules (pf.free_port w).1 ≡ rules w
