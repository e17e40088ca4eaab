-- ===== src/HostPolicy/Normalize/Keys.antt =====
-- src/hostpolicy.rs: the keys of the rules that `normalize_policy` returns.
use runman_agent.Prelude.{
  ◌≡◌, subst, String, false, List, [], ◌∷◌, All, arith, inl, inr, Bool-cases,
}
use runman_agent.Prelude.Effect.{ok, Result-cases}
use runman_agent.Model.{is_empty}
use runman_agent.Connlimit.Policy.{Texts}
use runman_agent.HostPolicy.{Rule, Policy}
use runman_agent.HostPolicy.Text.Cidr.{Readable}
use runman_agent.HostPolicy.Normalize.{
  is_bad_key, normalize_rule, normalize_rules, normalize_abuse, normalize_policy,
}
use runman_agent.HostPolicy.Normalize.Fixed.{normalize_rule-again}

abbrev pub HasKey : Rule → Type 0
HasKey r = is_empty r.key ≡ false

module _ (texts : Texts) (readable : Readable texts) where
  normalize_rules-HasKey :
      (keys : List String) (rs : List Rule) {qs : List Rule}
      → normalize_rules texts keys rs ≡ ok qs
      → All HasKey qs
  unfolding normalize_rules is_bad_key
  normalize_rules-HasKey keys [] {qs} e = subst (All HasKey) {x = []} (ground arith) tt
  normalize_rules-HasKey keys (r ∷ rs) e = elim (Bool-cases (is_bad_key keys r.key)) [
    | inl bad ↦ ground arith
    | inr good ↦ elim (Result-cases (normalize_rule texts r)) [
      | inr (x, f) ↦ ground arith
      | inl (q, f) ↦ elim (Result-cases (normalize_rules texts (r.key ∷ keys) rs)) [
        | inr (x, g) ↦ ground arith
        | inl (rest, g) ↦
            let (again, key) = normalize_rule-again texts readable r f in
            subst (All HasKey) {x = q ∷ rest} (ground arith)
              (rw key (ground arith), normalize_rules-HasKey (r.key ∷ keys) rs g)
      ]
    ]
  ]

  -- Each rule of a normalised policy has a key.
  pub normalize_policy-HasKey :
      (p : Policy) {q : Policy} → normalize_policy texts p ≡ ok q → All HasKey q.rules
  unfolding normalize_policy
  normalize_policy-HasKey p {q} e = elim (Result-cases (normalize_rules texts [] p.rules)) [
    | inr (x, f) ↦ ground arith
    | inl (rules, f) ↦ elim (Result-cases (normalize_abuse p.abuse)) [
      | inr (x, g) ↦ ground arith
      | inl (abuse, g) ↦
          subst (All HasKey) {x = rules} (ground arith) (normalize_rules-HasKey [] p.rules f)
    ]
  ]
