-- ===== src/HostPolicy/Manager/Manual.antt =====
-- src/hostpolicy.rs: which rules `delete_manual_rule` deletes.
use runman_agent.Prelude.{
  ◌≡◌, refl, ◌⊎◌, inl, inr, String, true, false, not, ◌||◌, none, some, List, find, arith, str_eq,
  Bool-cases, Option-cases,
}
use runman_agent.Prelude.Int.{pos, ltb_ℤ}
use runman_agent.Prelude.Effect.{ok, is_ok}
use runman_agent.Model.{is_empty}
use runman_agent.HostPolicy.{RawRule, RuleReadback, Host, Codec, Ctx}
use runman_agent.HostPolicy.Rules.{same_readback}
use runman_agent.HostPolicy.Service.{list_rules}
use runman_agent.HostPolicy.Manager.{has_id, delete_as_seen, delete_manual_rule}
use runman_agent.HostPolicy.Manager.Owned.{owns}

module _ {W : Type 0} (host : Host W) (codec : Codec) (base_url : String) where
  -- RFW lists no row of the identifier, or lists it as the caller saw it.
  abbrev pub SeenOrGone : RuleReadback → List RawRule → Type 0
  SeenOrGone expected rows =
      let found = find (has_id host codec base_url expected.id) rows in
      (found ≡ none) ⊎ ((row : RawRule) × (found ≡ some row) × (same_readback row expected ≡ true))

  delete_as_seen-ok :
      (expected : RuleReadback) (row : RawRule) (w : W)
      → is_ok (delete_as_seen host codec base_url expected (some row) w).0 ≡ true
      → same_readback row expected ≡ true
  unfolding delete_as_seen
  delete_as_seen-ok expected row w = elim (Bool-cases (same_readback row expected)) [
    | inl e ↦ λ h. e
    | inr e ↦ rw e (λ h. ground arith)
  ]

  found-SeenOrGone :
      (expected : RuleReadback) (rows : List RawRule) (w : W)
      → is_ok
          (delete_as_seen host codec base_url expected
            (find (has_id host codec base_url expected.id) rows)
            w).0
        ≡ true
      → SeenOrGone expected rows
  found-SeenOrGone expected rows w h =
      elim (Option-cases (find (has_id host codec base_url expected.id) rows)) [
        | inl e ↦ inl e
        | inr (row, e) ↦ inr (row, e, delete_as_seen-ok expected row w (rw e at h))
      ]

  -- Where `delete_manual_rule` succeeds, the manager does not own the rule, and RFW lists it as the
  -- caller saw it or not at all.
  pub delete_manual_rule-checked :
      (expected : RuleReadback) (s : Ctx W) (rows : List RawRule)
      → (list_rules host codec base_url s.world).0 ≡ ok rows
      → is_ok (delete_manual_rule host codec base_url expected s).0 ≡ true
      → (owns s.state.managed_rules expected.id ≡ false) × SeenOrGone expected rows
  unfolding delete_manual_rule
  delete_manual_rule-checked expected s rows listed =
      let w = (list_rules host codec base_url s.world).1 in
      let found = find (has_id host codec base_url expected.id) rows in
      let seen : is_ok (delete_as_seen host codec base_url expected found w).0 ≡ true
          → SeenOrGone expected rows =
        found-SeenOrGone expected rows w in
      elim (Bool-cases (
        ltb_ℤ expected.id (pos 1)
        || not (str_eq expected.origin "manual")
        || not (str_eq expected.sync_state "manual")
        || not (is_empty expected.managed_key))) [
          | inl bad ↦ rw (delete_manual_rule, bad) (λ h. ground arith)
          | inr good ↦ elim (Bool-cases (owns s.state.managed_rules expected.id)) [
            | inl o ↦ rw (delete_manual_rule, good, o) (λ h. ground arith)
            | inr o ↦ rw (delete_manual_rule, good, o, listed) (λ h. (refl, seen h))
          ]
        ]
