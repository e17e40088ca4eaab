-- ===== src/HostPolicy/Normalize.antt =====
-- src/hostpolicy.rs: `normalize_policy`.
use Prim.Native.Char.{code}
use runman_agent.Prelude.{
  ℕ, String, Bool, true, false, not, ◌&&◌, ◌||◌, Option, none, some, List, [], ◌∷◌, length, any,
  ltb, leb, ◌==◌, if◌then◌else◌, str_eq,
}
use runman_agent.Prelude.Int.{ℤ, pos, leb_ℤ, ltb_ℤ}
use runman_agent.Prelude.Effect.{Result, ok, err}
use runman_agent.Model.{is_empty, byte_len}
use runman_agent.Connlimit.Policy.{Texts}
use runman_agent.HostPolicy.{
  Error, revision_or_count, invalid_key, invalid_rule, invalid_cidr, country_count, invalid_country,
  unsupported_ip_type, interface_count, invalid_interface, interface_required, Rule, AbusePolicy,
  Policy,
}
use runman_agent.HostPolicy.Text.{lower, upper, trim, insert_text, collect, normalize_cidr}
pub mod Sets
pub mod Fixed
pub mod Keys

abbrev max_rules : ℕ
max_rules = 64

abbrev pub one_of : List String → String → Bool
one_of words s = any (str_eq s) words

-- An ASCII letter or digit, `_` or `-`.
abbrev is_key_byte : ℕ → Bool
is_key_byte b =
    (leb b'0' b && leb b b'9')
    || (leb b'a' b && leb b b'z')
    || (leb b'A' b && leb b b'Z')
    || (b == b'_')
    || (b == b'-')

unfoldable pub all_key : String → Bool
all_key String.[] = true
all_key (String.◌∷◌ c s) = if is_key_byte (code c) then all_key s else false

unfoldable pub is_bad_key : List String → String → Bool
unfolding all_key byte_len any
is_bad_key keys key = is_empty key || ltb 80 (byte_len key) || not (all_key key) || one_of keys key

abbrev pub ends_before : Option ℕ → ℕ → Bool
ends_before none start = false
ends_before (some end) start = ltb end start

abbrev protocols : List String
protocols =
    "all" ∷ "tcp" ∷ "udp" ∷ "http" ∷ "tls" ∷ "socks" ∷ "ssh" ∷ "fet" ∷ "wireguard" ∷ "openvpn"
    ∷ "quic" ∷ "mtproto" ∷ []

abbrev out_protocols : List String
out_protocols = "all" ∷ "tcp" ∷ "udp" ∷ "socks" ∷ "fet" ∷ "wireguard" ∷ "mtproto" ∷ []

unfoldable pub has_bad_words : Rule → Bool
unfolding any
has_bad_words rule =
    not (leb_ℤ (pos 0) rule.priority && leb_ℤ rule.priority (pos 100000))
    || not (one_of ("in" ∷ "out" ∷ []) rule.direction)
    || not (one_of ("block" ∷ "pass" ∷ []) rule.action)
    || not (one_of protocols rule.protocol)
    || (str_eq rule.direction "out" && not (one_of out_protocols rule.protocol))

unfoldable pub is_invalid : Rule → Bool
unfolding has_bad_words
is_invalid rule = has_bad_words rule || ends_before rule.port_end rule.port_start

-- A range of one port is a single port.
abbrev pub end_of : Option ℕ → ℕ → Option ℕ
end_of none start = none
end_of (some end) start = if end == start then none else some end

abbrev is_upper : ℕ → Bool
is_upper b = leb b'A' b && leb b b'Z'

unfoldable pub all_upper : String → Bool
all_upper String.[] = true
all_upper (String.◌∷◌ c s) = if is_upper (code c) then all_upper s else false

abbrev pub is_country : String → Bool
is_country c = (byte_len c == 2) && all_upper c

-- The set of the country codes, unless one is invalid.
unfoldable pub normalize_countries : List String → Option (List String)
unfolding trim upper insert_text all_upper byte_len
normalize_countries [] = some []
normalize_countries (c ∷ cs) =
    let country = upper (trim c) in
    if is_country country
    then elim (normalize_countries cs) [ none ↦ none | some set ↦ some (insert_text country set) ]
    else none

abbrev with_place : Rule → String → List String → Rule
with_place rule ip countries = record rule { ip = ip; countries = countries }

abbrev is_interface_byte : ℕ → Bool
is_interface_byte b = is_key_byte b || (b == b'.')

unfoldable pub all_interface : String → Bool
all_interface String.[] = true
all_interface (String.◌∷◌ c s) = if is_interface_byte (code c) then all_interface s else false

abbrev pub is_bad_interface : String → Bool
is_bad_interface iface = is_empty iface || ltb 15 (byte_len iface) || not (all_interface iface)

unfoldable pub normalize_abuse : AbusePolicy → Result Error AbusePolicy
unfolding collect all_interface byte_len
normalize_abuse abuse =
    if ltb 16 (length abuse.interfaces)
    then err interface_count
    else if any is_bad_interface abuse.interfaces
    then err invalid_interface
    else if (abuse.speedtest || abuse.mining || abuse.bt)
        && (length (collect abuse.interfaces) == 0)
    then err interface_required
    else ok (record abuse { interfaces = collect abuse.interfaces })

abbrev pub lowered : Rule → Rule
lowered rule = record rule { protocol = lower rule.protocol; ip_type = lower rule.ip_type }

module _ (texts : Texts) where
  unfoldable pub normalize_place : Rule → Result Error Rule
  normalize_place rule =
      if str_eq rule.ip_type "any"
      then ok (with_place rule "" [])
      else if str_eq rule.ip_type "cidr"
      then elim (normalize_cidr texts rule.ip) [
        | none ↦ err invalid_cidr
        | some ip ↦ ok (with_place rule ip [])
      ]
      else if str_eq rule.ip_type "geoip"
      then (if (length rule.countries == 0) || ltb 30 (length rule.countries)
          then err country_count
          else elim (normalize_countries rule.countries) [
            | none ↦ err invalid_country
            | some countries ↦ ok (with_place rule "" countries)
          ])
      else err unsupported_ip_type

  unfoldable pub normalize_lowered : Rule → Result Error Rule
  normalize_lowered rule =
      if is_invalid rule
      then err invalid_rule
      else normalize_place (record rule { port_end = end_of rule.port_end rule.port_start })

  unfoldable pub normalize_rule : Rule → Result Error Rule
  unfolding lower normalize_lowered
  normalize_rule r = normalize_lowered (lowered r)

  -- The rules after those with the keys.
  unfoldable pub normalize_rules : List String → List Rule → Result Error (List Rule)
  unfolding is_bad_key
  normalize_rules keys [] = ok []
  normalize_rules keys (r ∷ rules) =
      let rest = normalize_rules (r.key ∷ keys) rules in
      if is_bad_key keys r.key then err invalid_key else elim (normalize_rule r) [
        | err e ↦ err e
        | ok rule ↦ elim rest [ err e ↦ err e | ok rs ↦ ok (rule ∷ rs) ]
      ]

  unfoldable pub normalize_policy : Policy → Result Error Policy
  normalize_policy policy =
      if ltb_ℤ policy.revision (pos 1) || ltb max_rules (length policy.rules)
      then err revision_or_count
      else elim (normalize_rules [] policy.rules) [
        | err e ↦ err e
        | ok rules ↦ elim (normalize_abuse policy.abuse) [
          | err e ↦ err e
          | ok abuse ↦ ok (record policy { rules = rules; abuse = abuse })
        ]
      ]
