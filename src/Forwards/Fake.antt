-- ===== src/Forwards/Fake.antt =====
-- src/fake.rs: the in-memory backend's `PortForwards`.
use runman_agent.Prelude.{
  ℕ, ◌+◌, ◌%◌, ◌≡◌, refl, String, true, false, not, Option, none, some, List, [], ◌∷◌, ◌++◌, inl,
  inr, if◌then◌else◌, find, retain, Option-cases, Bool-cases,
}
use runman_agent.Prelude.Effect.{ok, err, is_ok, Exec}
use runman_agent.Model.{Error, port_taken, L4Proto, PortForward}
use runman_agent.Forwards.{PortForwards, owned_by}
use runman_agent.Forwards.Laws.{ForwardLaws, Added, same_port, same_target, is_rule, listed}

pub record Fake : Type 0 where
  pub rules : List PortForward
  pub next_port : ℕ

abbrev pub new : Fake
new = record { rules = []; next_port = 20000 }

unfoldable pub add : PortForward → Exec Error Fake Unit
add rule w = elim (find (same_port rule) w.rules) [
  | some existing ↦
      if same_target rule existing then (ok tt, w) else (err (port_taken rule.host_port), w)
  | none ↦ (ok tt, record w { rules = w.rules ++ rule ∷ [] })
]

unfoldable pub remove : String → L4Proto → ℕ → Exec Error Fake Unit
remove id proto host_port w =
    (ok tt, record w { rules = retain (λ r. not (is_rule id proto host_port r)) w.rules })

unfoldable pub list : Option String → Exec Error Fake (List PortForward)
list id w = (ok (listed id w.rules), w)

unfoldable pub remove_all : String → Exec Error Fake Unit
remove_all id w = (ok tt, record w { rules = retain (λ r. not (owned_by id r)) w.rules })

-- The counter is a u16; its sum wraps in a release build.
unfoldable pub free_port : Exec Error Fake ℕ
free_port w = let next = (w.next_port + 1) % 65536 in (ok next, record w { next_port = next })

unfoldable pub fake : PortForwards Fake
unfolding add remove list remove_all free_port
fake = record {
  add = add;
  remove = remove;
  list = list;
  remove_all = remove_all;
  free_port = free_port;
}

add_cases :
    (rule : PortForward) (w : Fake)
    → (is_ok (add rule w).0 ≡ true → Added rule w.rules (add rule w).1.rules)
      × (is_ok (add rule w).0 ≡ false → (add rule w).1.rules ≡ w.rules)
unfolding add
add_cases rule w = elim (Option-cases (find (same_port rule) w.rules)) [
  | inl free ↦ rw (free, add) (λ h. inr (refl, refl), λ h. cc)
  | inr (f, taken) ↦ elim (Bool-cases (same_target rule f)) [
    | inl same ↦ rw (taken, add) (rw same (λ h. inl (f, refl, same, refl), λ h. refl))
    | inr other ↦ rw (taken, add) (rw other (λ h. cc, λ h. refl))
  ]
]

-- The `PortForwards` of the in-memory backend satisfies `ForwardLaws`.
pub fake-ForwardLaws : ForwardLaws fake (λ w. w.rules)
unfolding fake
fake-ForwardLaws = record {
  add_ok = λ rule w. (add_cases rule w).0;
  add_err = λ rule w. (add_cases rule w).1;
  remove_ok = λ id proto host_port w h. refl;
  remove_err = λ id proto host_port w h. cc;
  list_lem = λ id w. refl;
  remove_all_ok = λ id w h. refl;
  remove_all_err = λ id w h. cc;
  free_port_keeps = λ w. refl;
}
