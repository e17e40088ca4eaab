-- ===== src/HostPolicy/Tests/Machine.antt =====
-- Tests of the manager of src/hostpolicy.rs, on an RFW that lists two rules and logs deletions.
use runman_agent.Prelude.{
  ℕ, ◌≡◌, refl, sym, subst, String, true, false, none, some, List, [], ◌∷◌, any, arith,
  if◌then◌else◌, str_eq,
}
use runman_agent.Prelude.Int.{ℤ, pos, eq_of_parts}
use runman_agent.Prelude.Effect.{ok, is_ok}
use runman_agent.HostPolicy.{RawRule, RuleReadback, HttpRequest, Host, Codec, Ctx}
use runman_agent.HostPolicy.Service.{delete_rule, show_int, list_rules}
use runman_agent.HostPolicy.Rules.{readback_rule}
use runman_agent.HostPolicy.Manager.{reconcile_rfw, apply, delete_manual_rule}
use runman_agent.HostPolicy.Manager.Manual.{SeenOrGone, delete_manual_rule-checked}
use runman_agent.HostPolicy.Manager.Load.{default_state, check_policy, check_owners, check_state}
use runman_agent.HostPolicy.Manager.Stored.{WritesObjects, IsSound, IsHeld}
use runman_agent.HostPolicy.Manager.Accepted.{apply-IsSound}
use runman_agent.HostPolicy.Manager.Held.{apply-IsHeld}
use runman_agent.HostPolicy.Manager.Sends.{Spares}
use runman_agent.HostPolicy.Manager.Owned.{owns, reconcile_rfw-spared}
use runman_agent.HostPolicy.Manager.Settled.Left.{AllOwned, AllDesired, reconcile_rfw-settled}
use runman_agent.HostPolicy.Tests.{texts, readable, asked, normal, normalize_asked}

-- The machine is the log of the deletions that RFW was asked for.
abbrev pub Log : Type 0
Log = List String

abbrev pub answer : HttpRequest → String × ℕ
answer q =
    if str_eq q.method "POST"
    then ("created", 201)
    else if str_eq q.uri "/api/rules"
    then ("rules", 200)
    else if str_eq q.uri "/api/status"
    then ("no", 404)
    else ("", 204)

abbrev pub host : Host Log
host = record {
  send = λ q w. (some (answer q), if str_eq q.method "DELETE" then q.uri ∷ w else w);
  run = λ tool args w. (some (false, ""), w);
  is_bridge = λ iface w. (true, w);
  disable_ipv6 = λ w. (none, w);
  file_call = λ c w. (true, w);
  new_temp = λ w. ("temp", w);
  clock = λ w. (pos 1000, w);
}

-- A rule by hand, and one that the agent made.
abbrev pub by_hand : RawRule
by_hand = record {
  id = pos 7;
  priority = pos 10;
  direction = "in";
  protocol = "tcp";
  action = "block";
  enabled = true;
  port_start = 22;
  port_end = 22;
  ip_type = "any";
  ip = "";
  countries = [];
}

abbrev pub stale : RawRule
stale = record by_hand { id = pos 5; port_start = 23; port_end = 23 }

abbrev pub codec : Codec
codec = record {
  encode_payload = λ p. "{}";
  encode_policy = λ p. show_int p.revision;
  decode_rules = λ s. some (by_hand ∷ stale ∷ []);
  decode_id = λ s. some (some (pos 9));
  decode_status = λ s. none;
}

json : WritesObjects codec
json = record { not_empty = λ p. refl }

default-IsSound : IsSound texts (pos 0) default_state
unfolding check_state check_policy check_owners
default-IsSound = record { accepted = refl; keyed = tt; at_least = omega arith }

-- The agent owns the stale rule, and is to have one that RFW does not list.
abbrev pub owning : Ctx Log
owning = record {
  state = record {
    revision = pos 2;
    policy = normal;
    managed_rules = record { key = "old"; id = pos 5; fingerprint = "{}" } ∷ [];
  };
  world = [];
}

settled : is_ok (reconcile_rfw host codec "" owning).0 ≡ true
unfolding reconcile_rfw
settled = refl

apply-IsSound_example :
    IsSound texts
      (pos 0)
      (apply host codec "" 4 texts asked (record { state = default_state; world = [] })).1.state
apply-IsSound_example =
    apply-IsSound host codec "" texts readable (pos 0) json 4 asked
      (record { state = default_state; world = [] }) default-IsSound

abbrev fresh : Ctx Log
fresh = record { state = default_state; world = [] }

applied : is_ok (apply host codec "" 4 texts asked fresh).0 ≡ true
unfolding apply
applied = rw (apply, normalize_asked) refl

apply-IsHeld_example :
    IsHeld texts codec (pos 0) normal (apply host codec "" 4 texts asked fresh).1.state
apply-IsHeld_example =
    apply-IsHeld host codec "" texts readable (pos 0) json 4 asked fresh normalize_asked
      default-IsSound applied

-- No deletion of the rule by hand is in the log.
abbrev IsSpared : Log → Type 0
IsSpared w = any (str_eq "/api/rules/7") w ≡ false

owns-stale : (id : ℤ) → owns owning.state.managed_rules id ≡ true → id ≡ pos 5
unfolding any
owns-stale id h = eq_of_parts id (pos 5) (ground arith)

delete-IsSpared :
    (id : ℤ) (w : Log)
    → owns owning.state.managed_rules id ≡ true
    → IsSpared w
    → IsSpared (host.send (delete_rule "" id) w).1
unfolding any show_int
delete-IsSpared id w o p =
    subst (λ i. IsSpared ((delete_rule "" i).uri ∷ w)) (sym (owns-stale id o)) p

spares : Spares host "" (owns owning.state.managed_rules) IsSpared
spares = record {
  other_kept = λ q w h p. rw h p;
  delete_kept = delete-IsSpared;
  file_kept = λ c w p. p;
  temp_kept = λ w p. p;
}

reconcile_rfw-spared_example : IsSpared (reconcile_rfw host codec "" owning).1.world
unfolding any
reconcile_rfw-spared_example = reconcile_rfw-spared host codec "" IsSpared owning spares refl

reconcile_rfw-settled_example :
    AllOwned host codec "" owning.state.policy.rules
      (reconcile_rfw host codec "" owning).1.state.managed_rules
    × AllDesired host codec "" owning.state.policy.rules
        (reconcile_rfw host codec "" owning).1.state.managed_rules
reconcile_rfw-settled_example = reconcile_rfw-settled host codec "" owning settled

-- The stale rule was deleted, and only that.
stale_deleted : (reconcile_rfw host codec "" owning).1.world ≡ "/api/rules/5" ∷ []
unfolding reconcile_rfw
stale_deleted = refl

abbrev seen : RuleReadback
unfolding readback_rule
seen = readback_rule by_hand

deleted : is_ok (delete_manual_rule host codec "" seen owning).0 ≡ true
unfolding delete_manual_rule seen
deleted = refl

listed : (list_rules host codec "" []).0 ≡ ok (by_hand ∷ stale ∷ [])
unfolding list_rules
listed = refl

delete_manual_rule-checked_example :
    (owns owning.state.managed_rules seen.id ≡ false)
    × SeenOrGone host codec "" seen (by_hand ∷ stale ∷ [])
delete_manual_rule-checked_example =
    delete_manual_rule-checked host codec "" seen owning (by_hand ∷ stale ∷ []) listed deleted
