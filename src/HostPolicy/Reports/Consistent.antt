-- ===== src/HostPolicy/Reports/Consistent.antt =====
-- src/hostpolicy.rs: the status and the counts of a report agree with its entries.
use runman_agent.Prelude.{
  ℕ, ◌++◌, ◌+◌, ◌≡◌, ◌⊎◌, refl, String, Bool, true, false, not, ◌||◌, Option, none, some, List, [],
  ◌∷◌, any, arith, if◌then◌else◌, str_eq, Bool-cases, Option-cases, inl, inr,
}
use runman_agent.Prelude.Int.{ℤ, eqb_ℤ}
use runman_agent.Prelude.Search.{any-append}
use runman_agent.HostPolicy.{
  Rule, RawRule, RuleReadback, ExpectedRuleReadback, Readback, ManagedRule, State, Host, Codec,
}
use runman_agent.HostPolicy.Rules.{readback_rule}
use runman_agent.HostPolicy.Service.{Capabilities}
use runman_agent.HostPolicy.Reports.{
  find_last, add_unowned, add_owned, push_expected, agrees, owned_state, expected_state, add_row,
  add_rows, add_expected, add_all_expected, start, report,
}

-- How many elements pass.
unfoldable pub count : {A : Type 0} → (A → Bool) → List A → ℕ
count p [] = 0
count p (x ∷ xs) = let rest = count p xs in if p x then rest + 1 else rest

count-append :
    {A : Type 0} (p : A → Bool) (xs : List A) (x : A)
    → count p (xs ++ x ∷ []) ≡ count p xs + (if p x then 1 else 0)
unfolding count
count-append p [] x = ground arith
count-append p (y ∷ ys) x = ground (arith, count-append p ys x)

-- A row that the manager owns.
abbrev pub is_owned : RuleReadback → Bool
is_owned item = not (str_eq item.sync_state "manual")

-- An owned row that is not as desired.
abbrev pub bad_row : RuleReadback → Bool
bad_row item = not (str_eq item.sync_state "manual" || str_eq item.sync_state "in_sync")

abbrev pub is_missing : ExpectedRuleReadback → Bool
is_missing item = str_eq item.sync_state "missing"

abbrev pub is_drifted : ExpectedRuleReadback → Bool
is_drifted item = str_eq item.sync_state "drifted"

abbrev pub bad_expected : ExpectedRuleReadback → Bool
bad_expected item = not (str_eq item.sync_state "in_sync")

-- An entry of the report is not as desired.
abbrev pub out_of_sync : Readback → Bool
out_of_sync result = any bad_row result.rules || any bad_expected result.expected_rules

-- The status and each count are those of the entries.
pub record IsConsistent (result : Readback) : Type 0 where
  pub status_known : result.status ≡ (if out_of_sync result then "drifted" else "in_sync")
  pub managed : result.managed_rule_count ≡ count is_owned result.rules
  pub missing : result.missing_count ≡ count is_missing result.expected_rules
  pub drifted :
      result.drift_count ≡ count bad_row result.rules + count is_drifted result.expected_rules

add_unowned-IsConsistent :
    (result : Readback) (item : RuleReadback)
    → str_eq item.sync_state "manual" ≡ true
    → IsConsistent result
    → IsConsistent (add_unowned result item)
unfolding add_unowned
add_unowned-IsConsistent result item m c = record {
  status_known = ground (arith, any-append bad_row result.rules item, c.status_known);
  managed = ground (arith, count-append is_owned result.rules item, c.managed);
  missing = c.missing;
  drifted = ground (arith, count-append bad_row result.rules item, c.drifted);
}

add_owned-IsConsistent :
    (result : Readback) (item : RuleReadback)
    → str_eq item.sync_state "manual" ≡ false
    → IsConsistent result
    → IsConsistent (add_owned result item)
unfolding add_owned
add_owned-IsConsistent result item m c = record {
  status_known = ground (arith, any-append bad_row result.rules item, c.status_known);
  managed = ground (arith, count-append is_owned result.rules item, c.managed);
  missing = c.missing;
  drifted = ground (arith, count-append bad_row result.rules item, c.drifted);
}

-- A desired rule is in one of three states.
abbrev IsExpectedState : String → Type 0
IsExpectedState s = (s ≡ "missing") ⊎ (s ≡ "drifted") ⊎ (s ≡ "in_sync")

-- What the tests say of each of the three.
is_missing-IsExpectedState :
    (s : String)
    → IsExpectedState s
    → ((str_eq s "missing" ≡ true) × (str_eq s "drifted" ≡ false) × (str_eq s "in_sync" ≡ false))
      ⊎ ((str_eq s "missing" ≡ false) × (str_eq s "drifted" ≡ true) × (str_eq s "in_sync" ≡ false))
      ⊎ ((str_eq s "missing" ≡ false) × (str_eq s "drifted" ≡ false) × (str_eq s "in_sync" ≡ true))
is_missing-IsExpectedState s (inl e) = inl (rw e refl, rw e refl, rw e refl)
is_missing-IsExpectedState s (inr (inl e)) = inr (inl (rw e refl, rw e refl, rw e refl))
is_missing-IsExpectedState s (inr (inr e)) = inr (inr (rw e refl, rw e refl, rw e refl))

push_expected-IsConsistent :
    (result : Readback) (item : ExpectedRuleReadback)
    → IsExpectedState item.sync_state
    → IsConsistent result
    → IsConsistent (push_expected result item)
unfolding push_expected
push_expected-IsConsistent result item m c =
    let state = is_missing-IsExpectedState item.sync_state m in
    record {
      status_known =
          ground (arith, any-append bad_expected result.expected_rules item, state, c.status_known);
      managed = c.managed;
      missing =
          ground (arith, count-append is_missing result.expected_rules item, state, c.missing);
      drifted =
          ground (arith, count-append is_drifted result.expected_rules item, state, c.drifted);
    }

module _ {W : Type 0} (host : Host W) (codec : Codec) (base_url : String) where
  owned_state-ne :
      (o : ManagedRule) (row : RawRule) (want : Option Rule)
      → str_eq (owned_state host codec base_url o row want) "manual" ≡ false
  unfolding owned_state
  owned_state-ne o row none = refl
  owned_state-ne o row (some want) = elim (Bool-cases (agrees host codec base_url o row want)) [
    | inl e ↦ rw e refl
    | inr e ↦ rw e refl
  ]

  expected_state-IsExpectedState :
      (want : Rule) (found : Option (ManagedRule × RawRule))
      → IsExpectedState (expected_state host codec base_url want found)
  unfolding expected_state
  expected_state-IsExpectedState want none = inl refl
  expected_state-IsExpectedState want (some (o, row)) =
      elim (Bool-cases (agrees host codec base_url o row want)) [
        | inl e ↦ rw e (inr (inr refl))
        | inr e ↦ rw e (inr (inl refl))
      ]

  module _ (state : State) where
    add_row-IsConsistent :
        (result : Readback) (row : RawRule)
        → IsConsistent result
        → IsConsistent (add_row host codec base_url state result row)
    unfolding add_row readback_rule
    add_row-IsConsistent result row c =
        elim (Option-cases
          (find_last (λ (m : ManagedRule). eqb_ℤ m.id row.id) state.managed_rules)) [
            | inl e ↦ rw (add_row, e) (add_unowned-IsConsistent result _ refl c)
            | inr (o, e) ↦
                rw (add_row, e) (add_owned-IsConsistent result _ (owned_state-ne o row _) c)
          ]

    add_rows-IsConsistent :
        (rows : List RawRule) (result : Readback)
        → IsConsistent result
        → IsConsistent (add_rows host codec base_url state result rows)
    unfolding add_rows
    add_rows-IsConsistent [] result c = c
    add_rows-IsConsistent (row ∷ rows) result c =
        add_rows-IsConsistent rows _ (add_row-IsConsistent result row c)

    add_expected-IsConsistent :
        (rows : List RawRule) (result : Readback) (want : Rule)
        → IsConsistent result
        → IsConsistent (add_expected host codec base_url state rows result want)
    unfolding add_expected
    add_expected-IsConsistent rows result want c =
        push_expected-IsConsistent result _ (expected_state-IsExpectedState want _) c

    add_all_expected-IsConsistent :
        (rows : List RawRule) (wants : List Rule) (result : Readback)
        → IsConsistent result
        → IsConsistent (add_all_expected host codec base_url state rows result wants)
    unfolding add_all_expected
    add_all_expected-IsConsistent rows [] result c = c
    add_all_expected-IsConsistent rows (want ∷ wants) result c =
        add_all_expected-IsConsistent rows wants _ (add_expected-IsConsistent rows result want c)

    empty-IsConsistent :
        (time : ℤ) (found : Capabilities) (rows : List RawRule)
        → IsConsistent (start host codec base_url state time found rows)
    unfolding any count
    empty-IsConsistent time (version, protocols, known) rows = record {
      status_known = refl;
      managed = refl;
      missing = refl;
      drifted = refl;
    }

    -- A report has the status `drifted` where one of its entries is not as desired, and `in_sync` where
    -- all are. It counts as managed the rows that are owned, as missing the expected rules that are
    -- missing, and as drifted the owned rows that are not as desired and the expected rules that are
    -- drifted.
    pub report-IsConsistent :
        (time : ℤ) (found : Capabilities) (rows : List RawRule)
        → IsConsistent (report host codec base_url state time found rows)
    unfolding report
    report-IsConsistent time (version, protocols, known) rows =
        add_all_expected-IsConsistent rows state.policy.rules _
          (add_rows-IsConsistent rows _ (empty-IsConsistent time (version, protocols, known) rows))
