-- ===== src/HostPolicy/Rules.antt =====
-- src/hostpolicy.rs: a desired rule, what is sent of it to RFW, and its comparison with a listed rule.
use runman_agent.Prelude.{
  ℕ, String, Bool, true, false, not, ◌&&◌, ◌||◌, Option, none, some, List, map, ◌==◌, if◌then◌else◌,
  str_eq,
}
use runman_agent.Prelude.Int.{eqb_ℤ}
use runman_agent.Connlimit.Manager.{strs_eq}
use runman_agent.HostPolicy.{Rule, RawRule, RuleReadback, Payload}
use runman_agent.HostPolicy.Text.{lower, upper, trim, collect}

unfoldable pub rfw_payload : Rule → Payload
rfw_payload rule = record {
  priority = rule.priority;
  direction = rule.direction;
  protocol = rule.protocol;
  action = rule.action;
  enabled = rule.enabled;
  port_start = rule.port_start;
  ip_type = rule.ip_type;
  port_end = rule.port_end;
  ip = if str_eq rule.ip_type "cidr" then some rule.ip else none;
  countries = if str_eq rule.ip_type "geoip" then some rule.countries else none;
}

abbrev bool_eq : Bool → Bool → Bool
bool_eq true b = b
bool_eq false b = not b

abbrev is_port : Option ℕ → ℕ → Bool
is_port none n = false
is_port (some m) n = m == n

abbrev is_none : Option ℕ → Bool
is_none none = true
is_none (some m) = false

-- `eq_ignore_ascii_case`
unfoldable pub same_word : String → String → Bool
unfolding lower
same_word a b = str_eq (lower a) (lower b)

abbrev pub country_set : List String → List String
country_set cs = collect (map (λ c. upper (trim c)) cs)

-- A rule that RFW lists is the desired one. RFW lists a single port as a range of one.
unfoldable pub raw_matches : RawRule → Rule → Bool
unfolding same_word strs_eq trim upper collect
raw_matches raw want =
    eqb_ℤ raw.priority want.priority
    && same_word raw.direction want.direction
    && same_word raw.protocol want.protocol
    && same_word raw.action want.action
    && bool_eq raw.enabled want.enabled
    && (raw.port_start == want.port_start)
    && (if raw.port_end == raw.port_start
        then is_none want.port_end || is_port want.port_end want.port_start
        else is_port want.port_end raw.port_end)
    && same_word raw.ip_type want.ip_type
    && (not (str_eq want.ip_type "cidr") || str_eq (trim raw.ip) want.ip)
    && (not (str_eq want.ip_type "geoip")
        || strs_eq (country_set raw.countries) (country_set want.countries))

unfoldable pub readback_rule : RawRule → RuleReadback
unfolding lower
readback_rule raw = record {
  id = raw.id;
  priority = raw.priority;
  direction = lower raw.direction;
  protocol = lower raw.protocol;
  action = lower raw.action;
  enabled = raw.enabled;
  port_start = raw.port_start;
  port_end = raw.port_end;
  ip_type = lower raw.ip_type;
  ip = raw.ip;
  countries = raw.countries;
  origin = "manual";
  managed_key = "";
  sync_state = "manual";
}

unfoldable pub same_readback : RawRule → RuleReadback → Bool
unfolding readback_rule strs_eq
same_readback raw expected =
    let current = readback_rule raw in
    eqb_ℤ current.id expected.id
    && eqb_ℤ current.priority expected.priority
    && str_eq current.direction expected.direction
    && str_eq current.protocol expected.protocol
    && str_eq current.action expected.action
    && bool_eq current.enabled expected.enabled
    && (current.port_start == expected.port_start)
    && (current.port_end == expected.port_end)
    && str_eq current.ip_type expected.ip_type
    && str_eq current.ip expected.ip
    && strs_eq current.countries expected.countries
