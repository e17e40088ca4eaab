-- ===== src/HostPolicy/Normalize/Fixed.antt =====
-- src/hostpolicy.rs: `normalize_policy` takes what it returns, and returns it again.
use runman_agent.Prelude.{
  ℕ, suc, ◌≡◌, refl, ◌∙◌, sym, ap, arith, String, Bool, false, ◌||◌, subst, Option, List, [], ◌∷◌,
  length, any, Bool-cases, Option-cases, inl, inr,
}
use runman_agent.Prelude.Effect.{ok, Result-cases}
use runman_agent.Connlimit.Policy.{Texts}
use runman_agent.HostPolicy.{Rule, AbusePolicy, Policy}
use runman_agent.HostPolicy.Text.{lower, insert_text, collect, lower_twice}
use runman_agent.HostPolicy.Text.Cidr.{Readable, normalize_cidr-again}
use runman_agent.HostPolicy.Normalize.Sets.{
  collect-Ascending, collect_fixed, length-collect, countries_again,
}
use runman_agent.HostPolicy.Normalize.{
  normalize_countries, normalize_place, normalize_lowered, normalize_rule, normalize_rules,
  is_bad_key, is_invalid, has_bad_words, ends_before, end_of, lowered, is_bad_interface,
  normalize_abuse, normalize_policy,
}

-- What the choice of the place leaves as it is.
record SamePlan (t q : Rule) : Type 0 where
  key : q.key ≡ t.key
  priority : q.priority ≡ t.priority
  direction : q.direction ≡ t.direction
  protocol : q.protocol ≡ t.protocol
  action : q.action ≡ t.action
  port_start : q.port_start ≡ t.port_start
  port_end : q.port_end ≡ t.port_end
  ip_type : q.ip_type ≡ t.ip_type

end_of_twice : (e : Option ℕ) (n : ℕ) → end_of (end_of e n) n ≡ end_of e n
end_of_twice e n = ground arith

range_end_of :
    (b : Bool) (e : Option ℕ) (n : ℕ)
    → (b || ends_before e n) ≡ false
    → (b || ends_before (end_of e n) n) ≡ false
range_end_of b e n h = ground arith

-- A single port is in order where the range was.
is_invalid-end_of :
    (r : Rule)
    → is_invalid r ≡ false
    → is_invalid (record r { port_end = end_of r.port_end r.port_start }) ≡ false
unfolding is_invalid
is_invalid-end_of r h = range_end_of (has_bad_words r) r.port_end r.port_start h

has_bad_words-SamePlan : (t q : Rule) → SamePlan t q → has_bad_words q ≡ has_bad_words t
unfolding has_bad_words
has_bad_words-SamePlan t q h = rw (h.priority, h.direction, h.action, h.protocol) refl

is_invalid-SamePlan : (t q : Rule) → SamePlan t q → is_invalid q ≡ is_invalid t
unfolding is_invalid
is_invalid-SamePlan t q h = rw (has_bad_words-SamePlan t q h, h.port_end, h.port_start) refl

module _ (texts : Texts) where
  normalize_place-SamePlan : (t : Rule) {q : Rule} → normalize_place texts t ≡ ok q → SamePlan t q
  unfolding normalize_place
  normalize_place-SamePlan t e = ground arith

  module _ (readable : Readable texts) where
    normalize_place-again :
        (t : Rule) {q : Rule} → normalize_place texts t ≡ ok q → normalize_place texts q ≡ ok q
    unfolding normalize_place
    normalize_place-again t {q} e = elim (Option-cases (normalize_countries t.countries)) [
      | inl f ↦ ground (arith, normalize_cidr-again texts readable t.ip {r = q.ip})
      | inr (set, f) ↦
          let (again, shorter, some_left) = countries_again t.countries f in
          ground (arith, normalize_cidr-again texts readable t.ip {r = q.ip})
    ]

    lowered_fixed :
        (q : Rule)
        → is_invalid q ≡ false
        → end_of q.port_end q.port_start ≡ q.port_end
        → normalize_place texts q ≡ ok q
        → normalize_lowered texts q ≡ ok q
    unfolding normalize_lowered
    lowered_fixed q v e h = rw v (ap (λ x. normalize_place texts (record q { port_end = x })) e ∙ h)

    -- What is in lower case, valid and a single port where it can be, is taken as it is.
    rule_fixed :
        (q : Rule)
        → lower q.protocol ≡ q.protocol
        → lower q.ip_type ≡ q.ip_type
        → is_invalid q ≡ false
        → end_of q.port_end q.port_start ≡ q.port_end
        → normalize_place texts q ≡ ok q
        → normalize_rule texts q ≡ ok q
    unfolding normalize_rule
    rule_fixed q p t v e h =
        let same : lowered q ≡ q = λ i. record q { protocol = p i; ip_type = t i } in
        ap (normalize_lowered texts) same ∙ lowered_fixed q v e h

    pub normalize_rule-again :
        (r : Rule) {q : Rule}
        → normalize_rule texts r ≡ ok q
        → (normalize_rule texts q ≡ ok q) × (q.key ≡ r.key)
    unfolding normalize_rule
    normalize_rule-again r {q} e = elim (Bool-cases (is_invalid (lowered r))) [
      | inl bad ↦ ground arith
      | inr good ↦
          let l = lowered r in
          let t = record l { port_end = end_of l.port_end l.port_start } in
          let placed : normalize_place texts t ≡ ok q = ground arith in
          let s = normalize_place-SamePlan t placed in
          (
            rule_fixed q (rw s.protocol (lower_twice r.protocol))
                (rw s.ip_type (lower_twice r.ip_type))
                (is_invalid-SamePlan t q s ∙ is_invalid-end_of l good)
                (rw (s.port_end, s.port_start) (end_of_twice r.port_end r.port_start))
                (normalize_place-again t placed),
            s.key,
          )
    ]

    normalize_rules-cons :
        (keys : List String) (r : Rule) (rs : List Rule) {q : Rule} {qs : List Rule}
        → is_bad_key keys r.key ≡ false
        → normalize_rule texts r ≡ ok q
        → normalize_rules texts (r.key ∷ keys) rs ≡ ok qs
        → normalize_rules texts keys (r ∷ rs) ≡ ok (q ∷ qs)
    unfolding normalize_rules
    normalize_rules-cons keys r rs good e f = rw (good, e, f) refl

    normalize_rules-again :
        (keys : List String) (rs : List Rule) {qs : List Rule}
        → normalize_rules texts keys rs ≡ ok qs
        → (normalize_rules texts keys qs ≡ ok qs) × (length qs ≡ length rs)
    unfolding normalize_rules
    normalize_rules-again keys [] e =
        subst (λ qs. (normalize_rules texts keys qs ≡ ok qs) × (length qs ≡ 0)) {x = []}
          (ground arith) (refl, refl)
    normalize_rules-again keys (r ∷ rs) e = elim (Bool-cases (is_bad_key keys r.key)) [
      | inl bad ↦ ground arith
      | inr good ↦ elim (Result-cases (normalize_rule texts r)) [
        | inr (x, f) ↦ ground arith
        | inl (q, f) ↦ elim (Result-cases (normalize_rules texts (r.key ∷ keys) rs)) [
          | inr (x, g) ↦ ground arith
          | inl (rest, g) ↦
              let (again, key) = normalize_rule-again r f in
              let (rest_again, count) = normalize_rules-again (r.key ∷ keys) rs g in
              subst (λ qs. (normalize_rules texts keys qs ≡ ok qs) × (length qs ≡ suc (length rs)))
                {x = q ∷ rest} (ground arith)
                (
                  normalize_rules-cons keys q rest
                      (subst (λ k. is_bad_key keys k ≡ false) (sym key) good) again
                      (subst (λ k. normalize_rules texts (k ∷ keys) rest ≡ ok rest) (sym key)
                        rest_again),
                  ap suc count,
                )
        ]
      ]
    ]

any-insert_text :
    (p : String → Bool) (x : String) (ys : List String)
    → p x ≡ false
    → any p ys ≡ false
    → any p (insert_text x ys) ≡ false
unfolding insert_text any
any-insert_text p x [] h k = ground arith
any-insert_text p x (y ∷ ys) h k = ground (arith, any-insert_text p x ys)

any-collect : (p : String → Bool) (xs : List String) → any p xs ≡ false → any p (collect xs) ≡ false
unfolding collect any
any-collect p [] h = refl
any-collect p (x ∷ xs) h = ground (arith, any-collect p xs, any-insert_text p x (collect xs))

normalize_abuse-again :
    (a : AbusePolicy) {b : AbusePolicy} → normalize_abuse a ≡ ok b → normalize_abuse b ≡ ok b
unfolding normalize_abuse
normalize_abuse-again a {b} e =
    let xs = a.interfaces in
    ground (
      arith,
      any-collect is_bad_interface xs,
      length-collect xs,
      collect_fixed (collect xs) (collect-Ascending xs),
    )

module _ (texts : Texts) (readable : Readable texts) where
  -- A policy that is normalised is a fixed point: it is accepted again, and stays as it is.
  pub normalize_policy-again :
      (p : Policy) {q : Policy} → normalize_policy texts p ≡ ok q → normalize_policy texts q ≡ ok q
  unfolding normalize_policy
  normalize_policy-again p e = elim (Result-cases (normalize_rules texts [] p.rules)) [
    | inr (x, f) ↦ ground arith
    | inl (rules, f) ↦ elim (Result-cases (normalize_abuse p.abuse)) [
      | inr (x, g) ↦ ground arith
      | inl (abuse, g) ↦
          let (again, count) = normalize_rules-again texts readable [] p.rules f in
          ground (arith, normalize_abuse-again p.abuse g)
    ]
  ]
