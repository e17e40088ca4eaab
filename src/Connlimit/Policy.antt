-- ===== src/Connlimit/Policy.antt =====
-- src/connlimit.rs: policies, their validation, and the arguments of their firewall rules.
use Prim.Native.Char.{code}
use Prim.Native.String.{char_at, ◌++◌ as append}
use runman_agent.Prelude.{
  ℕ, zero, suc, ◌-◌, ◌/◌, ◌%◌, ◌^◌, String, Bool, true, false, not, ◌&&◌, ◌||◌, Option, none, some,
  List, [], ◌∷◌, map, ltb, leb, ◌==◌, if◌then◌else◌, any,
}
use runman_agent.Prelude.Int.{ℤ, pos, negsuc, ◌-ℤ◌, leb_ℤ}
use runman_agent.Prelude.Effect.{Result, ok, err}
use runman_agent.Model.{has_control, is_empty, byte_len}

-- Why a request fails. The texts of the messages are not modelled.
pub data Error : Type 0 where
  invalid_target invalid_vm invalid_instance max_connections_range lease_range : Error
  not_running identity_changed invalid_address unusable_address no_addresses : Error
  different_contents cleanup_pending policy_expired already_limited : Error
  invalid_release identity_mismatch invalid_stored_address : Error
  spawn_failed command_failed unowned_chain save_failed resolve_failed : Error
  -- `reconcile` reports how many steps failed.
  incomplete : ℕ → Error
  -- The bound of the deletion loop was met: no outcome of the program.
  out_of_fuel : Error

pub record Target : Type 0 where
  pub managed : Bool
  pub running : Bool
  pub instance_id : String
  pub ips : List String

pub record Policy : Type 0 where
  pub id : String
  pub vm_id : String
  pub instance_id : String
  pub max_connections : ℕ
  pub expires_at : ℤ
  pub ips : List String
  pub remove_only : Bool

-- `IpAddr`: the numbers of the addresses.
pub data IpAddr : Type 0 where
  v4 : ℕ → IpAddr
  v6 : ℕ → IpAddr

abbrev pub is_ipv6 : IpAddr → Bool
is_ipv6 (v4 n) = false
is_ipv6 (v6 n) = true

-- Texts of addresses and identifiers are read and written by the standard library and by the crate
-- `uuid`.
pub record Texts : Type 0 where
  pub parse_ip : String → Option IpAddr
  pub show_ip : IpAddr → String
  pub parse_uuid : String → Option String

abbrev pub is_some : {A : Type 0} → Option A → Bool
is_some none = false
is_some (some a) = true

-- A lower case hexadecimal digit.
abbrev pub is_hex : ℕ → Bool
is_hex b = (leb b'0' b && leb b b'9') || (leb b'a' b && leb b b'f')

unfoldable pub all_hex : String → Bool
all_hex String.[] = true
all_hex (String.◌∷◌ c s) = if is_hex (code c) then all_hex s else false

unfoldable pub valid_policy_id : String → Bool
unfolding all_hex byte_len
valid_policy_id id = (byte_len id == 32) && all_hex id

-- `i64::saturating_sub`
abbrev pub i64_max : ℕ
i64_max = 2 ^ 63 - 1

unfoldable pub saturating_sub : ℤ → ℤ → ℤ
saturating_sub a b =
    let d = a -ℤ b in
    if leb_ℤ d (negsuc i64_max)
    then negsuc i64_max
    else if leb_ℤ (pos i64_max) d
    then pos i64_max
    else d

-- `now` is the reading of the clock.
module _ (texts : Texts) where
  unfoldable pub validate_policy : Policy → ℕ → Result Error Unit
  unfolding valid_policy_id has_control saturating_sub byte_len
  validate_policy policy now =
      let remaining = saturating_sub policy.expires_at (pos now) in
      if not (valid_policy_id policy.id)
        || is_empty policy.vm_id
        || ltb 200 (byte_len policy.vm_id)
        || has_control policy.vm_id
      then err invalid_target
      else if not (is_some (texts.parse_uuid policy.vm_id))
      then err invalid_vm
      else if not (is_some (texts.parse_uuid policy.instance_id))
      then err invalid_instance
      else if not (leb 100 policy.max_connections && leb policy.max_connections 10000)
      then err max_connections_range
      else if not (leb_ℤ (pos 60) remaining && leb_ℤ remaining (pos 3600))
      then err lease_range
      else ok tt

  unfoldable pub parse_ips : List String → Option (List IpAddr)
  parse_ips [] = some []
  parse_ips (s ∷ raw) = elim (texts.parse_ip s) [
    | none ↦ none
    | some ip ↦ elim (parse_ips raw) [ none ↦ none | some ips ↦ some (ip ∷ ips) ]
  ]

-- Unspecified, loopback, multicast or link-local.
unfoldable pub is_unusable : IpAddr → Bool
is_unusable (v4 n) = (n == 0) || (n / 2 ^ 24 == 127) || (n / 2 ^ 28 == 14) || (n / 2 ^ 16 == 43518)
is_unusable (v6 n) = (n == 0) || (n == 1) || (n / 2 ^ 120 == 255) || (n / 2 ^ 118 == 0x3fa)

-- The derived order: IPv4 before IPv6.
abbrev pub ip_lt : IpAddr → IpAddr → Bool
ip_lt (v4 a) (v4 b) = ltb a b
ip_lt (v4 a) (v6 b) = true
ip_lt (v6 a) (v4 b) = false
ip_lt (v6 a) (v6 b) = ltb a b

-- `sort` followed by `dedup`: an address is put in its place unless it stands there.
unfoldable pub insert_ip : IpAddr → List IpAddr → List IpAddr
insert_ip ip [] = ip ∷ []
insert_ip ip (x ∷ xs) =
    if ip_lt ip x then ip ∷ x ∷ xs else if ip_lt x ip then x ∷ insert_ip ip xs else x ∷ xs

unfoldable pub sort_dedup : List IpAddr → List IpAddr
unfolding insert_ip
sort_dedup [] = []
sort_dedup (ip ∷ ips) = insert_ip ip (sort_dedup ips)

module _ (texts : Texts) where
  unfoldable pub validate_ips : List String → Result Error (List String)
  unfolding parse_ips is_unusable sort_dedup
  validate_ips raw = elim (parse_ips texts raw) [
    | none ↦ err invalid_address
    | some ips ↦
        if any is_unusable ips
        then err unusable_address
        else ok (map texts.show_ip (sort_dedup ips))
  ]

-- A number in decimal; twenty digits are enough for 64 bits.
abbrev pub show_digits : ℕ → ℕ → String → String
show_digits zero n acc = acc
show_digits (suc fuel) n acc =
    let acc' = String.◌∷◌ (char_at "0123456789" (n % 10)) acc in
    let rest = show_digits fuel (n / 10) acc' in if n / 10 == 0 then acc' else rest

unfoldable pub show_number : ℕ → String
show_number n = show_digits 20 n ""

-- The arguments of the rule of one address and direction, on the bridge.
unfoldable pub rule_args : Texts → String → Policy → IpAddr → Bool → List String
unfolding show_number
rule_args texts bridge policy ip incoming =
    (if incoming then "-o" else "-i")
    ∷ bridge
    ∷ (if incoming then "-d" else "-s")
    ∷ texts.show_ip ip
    ∷ "-p"
    ∷ "tcp"
    ∷ "--syn"
    ∷ "-m"
    ∷ "connlimit"
    ∷ "--connlimit-above"
    ∷ show_number policy.max_connections
    ∷ "--connlimit-mask"
    ∷ (if is_ipv6 ip then "128" else "32")
    ∷ (if incoming then "--connlimit-daddr" else "--connlimit-saddr")
    ∷ "-m"
    ∷ "comment"
    ∷ "--comment"
    ∷ append "runman-rs-climit:" (append policy.id (append ":" (if incoming then "in" else "out")))
    ∷ "-j"
    ∷ "REJECT"
    ∷ "--reject-with"
    ∷ "tcp-reset"
    ∷ []
