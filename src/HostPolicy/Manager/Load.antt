-- ===== src/HostPolicy/Manager/Load.antt =====
-- src/hostpolicy.rs: `load_state` and `Manager::new`. The text of the file is read by the crate
-- `serde_json`, the address by the standard library.
use runman_agent.Prelude.{
  ℕ, String, Bool, not, ◌||◌, Option, none, some, List, any, ◌==◌, if◌then◌else◌,
}
use runman_agent.Prelude.Int.{pos, ltb_ℤ, eqb_ℤ}
use runman_agent.Prelude.Effect.{Result, ok, err}
use runman_agent.Model.{is_empty}
use runman_agent.Connlimit.Policy.{Texts}
use runman_agent.Connlimit.Manager.Load.{ReadFile, contents, not_found, unreadable}
use runman_agent.HostPolicy.{
  Error, revision_mismatch, invalid_ownership, not_read, not_decoded, not_loopback, ManagedRule,
  State,
}
use runman_agent.HostPolicy.Abuse.{nothing_enabled}
use runman_agent.HostPolicy.Normalize.{normalize_policy}

-- `State::default()`
abbrev pub default_state : State
default_state = record {
  revision = pos 0;
  policy = record { revision = pos 0; rules = List.[]; abuse = nothing_enabled };
  managed_rules = List.[];
}

abbrev pub is_bad_owner : ManagedRule → Bool
is_bad_owner r = is_empty r.key || ltb_ℤ r.id (pos 1) || is_empty r.fingerprint

unfoldable pub check_owners : State → Result Error State
unfolding any
check_owners state =
    if any is_bad_owner state.managed_rules then err invalid_ownership else ok state

module _ (texts : Texts) where
  unfoldable pub check_policy : State → Result Error State
  check_policy state =
      if ltb_ℤ (pos 0) state.revision
      then elim (normalize_policy texts state.policy) [
        | err e ↦ err e
        | ok policy ↦
            if not (eqb_ℤ policy.revision state.revision)
            then err revision_mismatch
            else ok (record state { policy = policy })
      ]
      else ok state

  -- What `load_state` makes of a state that was decoded.
  unfoldable pub check_state : State → Result Error State
  unfolding check_owners
  check_state state = elim (check_policy state) [
    | err e ↦ err e
    | ok checked ↦ check_owners checked
  ]

  module _ (decode : String → Option State) where
    unfoldable pub load_state : ReadFile → Result Error State
    load_state (contents raw) = elim (decode raw) [
      | none ↦ err not_decoded
      | some state ↦ check_state state
    ]
    load_state not_found = ok default_state
    load_state unreadable = err not_read

    -- `Manager::new`: the state that the manager starts with. The address is given by whether it is
    -- read, is a loopback address, and by its port.
    unfoldable pub new : Option (Bool × ℕ) → ReadFile → Result Error State
    new none file = err not_loopback
    new (some (loopback, port)) file =
        if not loopback || (port == 0) then err not_loopback else load_state file
