-- ===== src/HostPolicy/Reports.antt =====
-- src/hostpolicy.rs: `Manager::readback`, which compares the policy that is held with what RFW lists.
use runman_agent.Prelude.{
  ℕ, suc, ◌+◌, ◌<◌, ◌≡◌, refl, String, Bool, true, false, not, ◌&&◌, ◌||◌, Option, none, some, List,
  [], ◌∷◌, ◌++◌, length, length-append, any, find, arith, ◌==◌, if◌then◌else◌, str_eq, str_eq_iff,
  Bool-cases, Option-cases, inl, inr,
}
use runman_agent.Prelude.Int.{ℤ, pos, eqb_ℤ}
use runman_agent.Prelude.Effect.{Result, ok, err, Exec, ◌>>=◌, ◌>>◌, pure, continue}
use runman_agent.HostPolicy.{
  Error, Readback, Rule, RawRule, RuleReadback, ExpectedRuleReadback, ManagedRule, State, Host,
  Codec, Ctx,
}
use runman_agent.HostPolicy.Rules.{raw_matches, readback_rule, rfw_payload}
use runman_agent.HostPolicy.Service.{Capabilities, list_rules, known_capabilities}
use runman_agent.HostPolicy.Manager.{reach, fingerprint}
pub mod Consistent

-- The last element that passes: what a map that is collected from a list holds under a key.
unfoldable pub find_last : {A : Type 0} → (A → Bool) → List A → Option A
find_last p [] = none
find_last p (x ∷ xs) = elim (find_last p xs) [
  | some y ↦ some y
  | none ↦ if p x then some x else none
]

abbrev id_or_zero : Option ManagedRule → ℤ
id_or_zero none = pos 0
id_or_zero (some owner) = owner.id

-- A row that the manager does not own.
unfoldable pub add_unowned : Readback → RuleReadback → Readback
add_unowned result item = record result { rules = result.rules ++ item ∷ [] }

-- A row that it owns is counted, and once more if it is not in sync.
unfoldable pub add_owned : Readback → RuleReadback → Readback
add_owned result item =
    let in_sync = str_eq item.sync_state "in_sync" in
    record result {
      rules = result.rules ++ item ∷ [];
      managed_rule_count = result.managed_rule_count + 1;
      drift_count = if in_sync then result.drift_count else result.drift_count + 1;
      status = if in_sync then result.status else "drifted";
    }

unfoldable pub push_expected : Readback → ExpectedRuleReadback → Readback
push_expected result item =
    let missing = str_eq item.sync_state "missing" in
    let drifted = str_eq item.sync_state "drifted" in
    record result {
      missing_count = if missing then result.missing_count + 1 else result.missing_count;
      drift_count =
          if missing
          then result.drift_count
          else if drifted
          then result.drift_count + 1
          else result.drift_count;
      status = if missing || drifted then "drifted" else result.status;
      expected_rules = result.expected_rules ++ item ∷ [];
    }

module _ {W : Type 0} (host : Host W) (codec : Codec) (base_url : String) where
  -- A listed row and the desired rule that it is owned for agree.
  unfoldable pub agrees : ManagedRule → RawRule → Rule → Bool
  unfolding raw_matches
  agrees owner row want =
      str_eq owner.fingerprint (fingerprint host codec base_url want) && raw_matches row want

  -- An owned row whose desired rule is gone is orphaned.
  unfoldable pub owned_state : ManagedRule → RawRule → Option Rule → String
  owned_state owner row none = "orphaned"
  owned_state owner row (some want) = if agrees owner row want then "in_sync" else "drifted"

  unfoldable pub expected_state : Rule → Option (ManagedRule × RawRule) → String
  expected_state want none = "missing"
  expected_state want (some (owner, row)) = if agrees owner row want then "in_sync" else "drifted"

  module _ (state : State) where
    -- The row with the one that owns it, if any.
    unfoldable pub add_row : Readback → RawRule → Readback
    unfolding find_last agrees owned_state readback_rule add_unowned add_owned
    add_row result row =
        let item = readback_rule row in
        elim (find_last (λ (m : ManagedRule). eqb_ℤ m.id row.id) state.managed_rules) [
          | none ↦ add_unowned result item
          | some owner ↦ add_owned result (record item {
            origin = "platform";
            managed_key = owner.key;
            sync_state =
                owned_state owner row
                  (find_last (λ (r : Rule). str_eq r.key owner.key) state.policy.rules);
          })
        ]

    unfoldable pub add_rows : Readback → List RawRule → Readback
    unfolding add_row
    add_rows result [] = result
    add_rows result (row ∷ rows) = add_rows (add_row result row) rows

    -- The owner of a rule, with its row.
    abbrev with_row : List RawRule → Option ManagedRule → Option (ManagedRule × RawRule)
    with_row rows none = none
    with_row rows (some owner) = elim (find_last (λ (row : RawRule). eqb_ℤ row.id owner.id) rows) [
      | none ↦ none
      | some row ↦ some (owner, row)
    ]

    unfoldable pub add_expected : List RawRule → Readback → Rule → Readback
    unfolding find find_last agrees expected_state push_expected
    add_expected rows result want =
        let owner = find (λ (m : ManagedRule). str_eq m.key want.key) state.managed_rules in
        push_expected result (record {
          key = want.key;
          id = id_or_zero owner;
          sync_state = expected_state want (with_row rows owner);
        })

    unfoldable pub add_all_expected : List RawRule → Readback → List Rule → Readback
    unfolding add_expected
    add_all_expected rows result [] = result
    add_all_expected rows result (want ∷ wants) =
        add_all_expected rows (add_expected rows result want) wants

    abbrev start : ℤ → Capabilities → List RawRule → Readback
    start time (api_version, protocols, known) rows = record {
      status = "in_sync";
      observed_at = time;
      rfw_api_version = api_version;
      capabilities_known = known;
      supported_protocols = protocols;
      policy_revision = state.revision;
      rule_count = length rows;
      managed_rule_count = 0;
      drift_count = 0;
      missing_count = 0;
      rules = [];
      expected_rules = [];
    }

    -- The report on the rows.
    unfoldable pub report : ℤ → Capabilities → List RawRule → Readback
    unfolding add_rows add_all_expected
    report time found rows =
        add_all_expected rows (add_rows (start time found rows) rows) state.policy.rules

  abbrev now : Exec Error W ℤ
  now w = let (time, w1) = host.clock w in (ok time, w1)

  unfoldable pub readback : Exec Error (Ctx W) Readback
  unfolding list_rules known_capabilities report
  readback s =
      reach
        (do
          rows ← list_rules host codec base_url
          found ← known_capabilities host codec base_url
          time ← now
          pure (report s.state time found rows))
        s
