-- ===== src/HostPolicy/Manager.antt =====
-- src/hostpolicy.rs: `Manager`. Its lock makes each operation one step on the state; the bound `fuel`
-- is that of the loop that deletes jumps.
use Prim.Native.String.{◌++◌ as append}
use runman_agent.Prelude.{
  ℕ, String, Bool, true, false, not, ◌&&◌, ◌||◌, Option, none, some, List, [], ◌∷◌, ◌++◌, length,
  ◌==◌, ltb, leb, if◌then◌else◌, str_eq, find, any,
}
use runman_agent.Prelude.Int.{ℤ, pos, leb_ℤ, ltb_ℤ, eqb_ℤ}
use runman_agent.Prelude.Effect.{
  Result, ok, err, is_ok, Exec, ◌>>=◌, ◌>>◌, pure, bail, lift, continue,
}
use runman_agent.Model.{is_empty}
use runman_agent.Connlimit.Policy.{Texts, show_number}
use runman_agent.HostPolicy.{
  Error, save_failed, stale_revision, changed_without_revision, unsupported_protocol, not_manual,
  is_managed, changed_since_readback, Rule, Policy, RawRule, RuleReadback, ManagedRule, State,
  FsCall, create_dir_all, set_dir_mode, create_new, set_file_mode, write_all, sync_all, rename,
  Host, Codec, Ctx,
}
use runman_agent.HostPolicy.Rules.{rfw_payload, raw_matches, same_readback}
use runman_agent.HostPolicy.Normalize.{normalize_policy}
use runman_agent.HostPolicy.Service.{
  show_int, contains_id, list_rules, Capabilities, known_capabilities, create_rule, remove_rule,
}
use runman_agent.HostPolicy.Abuse.{nothing_enabled, apply_abuse, verify_bridges}
pub mod Load
pub mod Stored
pub mod Accepted
pub mod Held
pub mod Manual
pub mod Sends
pub mod Owned
pub mod Settled

-- A call that reaches only the world.
abbrev pub reach : {W A : Type 0} → Exec Error W A → Exec Error (Ctx W) A
reach m s = let (r, w) = m s.world in (r, record s { world = w })

abbrev pub change : {W : Type 0} → (State → State) → Exec Error (Ctx W) Unit
change f s = (ok tt, record s { state = f s.state })

-- A row of RFW has the identifier.
abbrev pub has_row : List RawRule → ℤ → Bool
has_row rows id = any (λ (row : RawRule). eqb_ℤ row.id id) rows

-- The row that is expected of a rule that was created.
unfoldable pub raw_of : ℤ → Rule → RawRule
raw_of id r = record {
  id = id;
  priority = r.priority;
  direction = r.direction;
  protocol = r.protocol;
  action = r.action;
  enabled = r.enabled;
  port_start = r.port_start;
  port_end = elim r.port_end [ none ↦ 0 | some end ↦ end ];
  ip_type = r.ip_type;
  ip = r.ip;
  countries = r.countries;
}

-- RFW is known not to have the protocol of a rule; where its protocols are not known, only `mtproto`.
unfoldable pub is_unsupported : List String → Bool → Rule → Bool
unfolding any
is_unsupported supported known rule =
    (known && not (any (str_eq rule.protocol) supported))
    || (not known && str_eq rule.protocol "mtproto")

abbrev joined : List String → String
joined [] = ""
joined (x ∷ []) = x
joined (x ∷ y ∷ ys) = append x (append "," (joined (y ∷ ys)))

unfoldable pub summary : State → String
unfolding show_int show_number
summary state =
    let abuse = state.policy.abuse in
    let enabled =
      (if abuse.speedtest then "speedtest" ∷ [] else [])
      ++ (if abuse.mining then "mining" ∷ [] else [])
      ++ (if abuse.bt then "bt" ∷ [] else []) in
    append "policy_revision=" (
      append (show_int state.revision) (
        append "; managed_rfw_rules=" (
          append (show_number (length state.policy.rules))
            (append "; abuse_ports=" (if length enabled == 0 then "none" else joined enabled)))))

module _ {W : Type 0} (host : Host W) where
  unfoldable pub call_file : FsCall → Exec Error W Unit
  call_file c w =
      let (done, w1) = host.file_call c w in (if done then ok tt else err save_failed, w1)

  unfoldable pub temp_name : Exec Error W String
  temp_name w = let (name, w1) = host.new_temp w in (ok name, w1)

  unfoldable pub save_state : State → Exec Error W Unit
  unfolding call_file temp_name
  save_state state = do
    call_file create_dir_all
    call_file set_dir_mode
    temp ← temp_name
    call_file (create_new temp)
    call_file (set_file_mode temp)
    call_file (write_all temp state)
    call_file (sync_all temp)
    call_file (rename temp)

  unfoldable pub save : Exec Error (Ctx W) Unit
  unfolding save_state
  save s = reach (save_state s.state) s

  module _ (codec : Codec) (base_url : String) where
    abbrev pub fingerprint : Rule → String
    fingerprint rule = codec.encode_payload (rfw_payload rule)

    -- An owned rule stands for the desired one: it is not yet taken, was made of the same contents
    -- under the same key, and RFW lists it with these contents.
    unfoldable pub is_kept : Rule → List RawRule → List ℤ → ManagedRule → Bool
    unfolding raw_matches any rfw_payload
    is_kept desired actual selected owned =
        not (contains_id selected owned.id)
        && str_eq owned.key desired.key
        && str_eq owned.fingerprint (fingerprint desired)
        && any (λ (row : RawRule). eqb_ℤ row.id owned.id && raw_matches row desired) actual

    abbrev pub owned_as : Rule → ℤ → ManagedRule
    owned_as desired id = record { key = desired.key; id = id; fingerprint = fingerprint desired }

    abbrev pub adopt : Rule → ℤ → State → State
    adopt desired id state = record state {
      managed_rules = state.managed_rules ++ owned_as desired id ∷ [];
    }

    -- The rows and the identifiers taken, after each desired rule has one.
    unfoldable pub create_wanted :
        List Rule → List RawRule → List ℤ → Exec Error (Ctx W) (List RawRule × List ℤ)
    unfolding is_kept find create_rule save raw_of
    create_wanted [] actual selected s = (ok (actual, selected), s)
    create_wanted (desired ∷ rest) actual selected s =
        elim (find (is_kept desired actual selected) s.state.managed_rules) [
          | some owned ↦ create_wanted rest actual (owned.id ∷ selected) s
          | none ↦
              (do
                id ← reach (create_rule host codec base_url desired)
                change (adopt desired id)
                save
                create_wanted rest (actual ++ raw_of id desired ∷ []) (id ∷ selected))
                s
        ]

    abbrev pub with_managed : List ManagedRule → State → State
    with_managed rules state = record state { managed_rules = rules }

    -- The loop over the index of `managed_rules`: those before it are kept, and the ones from it on are
    -- as they were.
    unfoldable pub delete_obsolete :
        List RawRule → List ℤ → List ManagedRule → List ManagedRule → Exec Error (Ctx W) Unit
    unfolding any remove_rule save
    delete_obsolete actual selected kept [] s = (ok tt, s)
    delete_obsolete actual selected kept (owned ∷ rest) s = elim (contains_id selected owned.id) [
      | true ↦ delete_obsolete actual selected (kept ++ owned ∷ []) rest s
      | false ↦
          (do
            if has_row actual owned.id
                then reach (remove_rule host codec base_url owned.id)
                else pure tt
            change (with_managed (kept ++ rest))
            save
            delete_obsolete actual selected kept rest)
            s
    ]

    abbrev pub nothing_to_do : State → Bool
    nothing_to_do state = (length state.policy.rules == 0) && (length state.managed_rules == 0)

    unfoldable pub check_protocols : List Rule → Capabilities → Result Error Unit
    unfolding is_unsupported any
    check_protocols rules (version, supported, known) =
        if any (is_unsupported supported known) rules then err unsupported_protocol else ok tt

    -- What remains of the reconciliation once the rows are known.
    unfoldable pub settle : List Rule → List RawRule → Exec Error (Ctx W) Unit
    unfolding create_wanted delete_obsolete
    settle rules rows = do
      (actual, selected) ← create_wanted rules rows []
      (λ s. delete_obsolete actual selected [] s.state.managed_rules s)

    unfoldable pub reconcile_rules : Exec Error (Ctx W) Unit
    unfolding known_capabilities check_protocols list_rules settle
    reconcile_rules s =
        (do
          found ← reach (known_capabilities host codec base_url)
          lift (check_protocols s.state.policy.rules found)
          rows ← reach (list_rules host codec base_url)
          settle s.state.policy.rules rows)
          s

    unfoldable pub reconcile_rfw : Exec Error (Ctx W) Unit
    unfolding reconcile_rules
    reconcile_rfw s = if nothing_to_do s.state then (ok tt, s) else reconcile_rules s

    abbrev pub with_policy : Policy → State → State
    with_policy policy state = record state { revision = policy.revision; policy = policy }

    -- The revision of an accepted policy is not below that held, and the same only for the same policy.
    unfoldable pub accept : Policy → Exec Error (Ctx W) Unit
    unfolding save
    accept policy s =
        if ltb_ℤ policy.revision s.state.revision
        then (err stale_revision, s)
        else if eqb_ℤ policy.revision s.state.revision
        then (if not (str_eq (codec.encode_policy policy) (codec.encode_policy s.state.policy))
            then (err changed_without_revision, s)
            else (ok tt, s))
        else (do change (with_policy policy); save) s

    module _ (fuel : ℕ) where
      -- The rules against abuse of the policy that is held.
      abbrev pub abuse_held : Exec Error (Ctx W) Unit
      abuse_held s = reach (apply_abuse host fuel s.state.policy.abuse) s

      unfoldable pub apply : Texts → Policy → Exec Error (Ctx W) String
      unfolding normalize_policy verify_bridges accept reconcile_rfw apply_abuse summary
      apply texts requested = do
        policy ← lift (normalize_policy texts requested)
        reach (verify_bridges host policy.abuse)
        accept policy
        reconcile_rfw
        abuse_held
        (λ s. (ok (summary s.state), s))

      -- The rules of a bridge that is gone are removed, and the error is returned all the same.
      abbrev clean_up : Error → Exec Error (Ctx W) Unit
      clean_up e s = (err e, (reach (apply_abuse host fuel nothing_enabled) s).1)

      unfoldable pub reconcile_verified : Result Error Unit → Exec Error (Ctx W) Unit
      unfolding apply_abuse reconcile_rfw
      reconcile_verified (err e) = clean_up e
      reconcile_verified (ok u) = do reconcile_rfw; abuse_held

      unfoldable pub reconcile : Exec Error (Ctx W) Unit
      unfolding verify_bridges reconcile_verified
      reconcile s =
          if eqb_ℤ s.state.revision (pos 0)
          then (ok tt, s)
          else (let (verified, s1) = reach (verify_bridges host s.state.policy.abuse) s in
              reconcile_verified verified s1)

    abbrev pub has_id : ℤ → RawRule → Bool
    has_id id row = eqb_ℤ row.id id

    -- A deletion is refused unless the rule is as the caller saw it.
    unfoldable pub delete_as_seen : RuleReadback → Option RawRule → Exec Error W Unit
    unfolding same_readback remove_rule
    delete_as_seen expected none = pure tt
    delete_as_seen expected (some current) =
        if not (same_readback current expected)
        then bail changed_since_readback
        else remove_rule host codec base_url expected.id

    unfoldable pub delete_manual_rule : RuleReadback → Exec Error (Ctx W) Unit
    unfolding any find list_rules delete_as_seen
    delete_manual_rule expected s =
        if ltb_ℤ expected.id (pos 1)
          || not (str_eq expected.origin "manual")
          || not (str_eq expected.sync_state "manual")
          || not (is_empty expected.managed_key)
        then (err not_manual, s)
        else if any (λ (r : ManagedRule). eqb_ℤ r.id expected.id) s.state.managed_rules
        then (err is_managed, s)
        else reach
            (do
              rows ← list_rules host codec base_url
              delete_as_seen expected (find (has_id expected.id) rows))
            s
