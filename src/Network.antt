-- ===== src/Network.antt =====
-- src/runtime/net.rs: the addresses of the instances. The commands and the table of rules that carry
-- them out are not modelled.
use Prim.Native.Char.{code}
use Prim.Native.Nat.{bit_or}
use Prim.Native.String
use runman_agent.Prelude.{
  ℕ, ◌+◌, ◌-◌, ◌*◌, ◌/◌, ◌^◌, String, Bool, true, false, not, ◌&&◌, ◌||◌, Option, none, some, List,
  [], ◌∷◌, all, ◌==◌, ltb, leb, if◌then◌else◌, str_eq,
}
use runman_agent.Prelude.Effect.{Result, ok, err, and_then}
use runman_agent.Model.{is_empty, byte_len}
use runman_agent.Config.{NetworkConfig}
use runman_agent.Connlimit.Policy.{IpAddr, v4, v6, Texts, is_some, show_number}
use runman_agent.HostPolicy.Text.{split_once, parse_u8, masked}
pub mod Addresses
mod Tests

pub data Error : Type 0 where
  not_cidr bad_address bad_prefix bad_subnet bad_name bad_snat_prefix bad_mode bad_dns : Error
  no_free_address prefix_too_small : Error

-- `Subnet` has the prefix and its length; the uplink serves only the commands.
pub data V6Mode : Type 0 where
  no_v6 snat : V6Mode
  subnet : ℕ → ℕ → Option String → V6Mode

pub record Net : Type 0 where
  pub bridge : String
  pub veth_prefix : String
  pub wg_prefix : String
  pub nft_table : String
  pub v4_base : ℕ
  pub v4_len : ℕ
  pub snat6_prefix : ℕ
  pub v6_mode : V6Mode
  pub dns : List String

-- Addresses are the numbers of their bits.
pub record Addrs : Type 0 where
  pub ipv4 : ℕ
  pub ipv6 : Option ℕ

-- `bail!` if the test holds.
abbrev pub refuse : Bool → Error → Result Error Unit
refuse bad e = if bad then err e else ok tt

abbrev is_between : ℕ → ℕ → ℕ → Bool
is_between low high n = leb low n && leb n high

abbrev is_name_char : ℕ → Bool
is_name_char n =
    is_between b'0' b'9' n
    || is_between b'A' b'Z' n
    || is_between b'a' b'z' n
    || (n == b'-')
    || (n == b'_')
    || (n == b'.')

abbrev is_lower : ℕ → Bool
is_lower n = is_between b'a' b'z' n

abbrev is_table_char : ℕ → Bool
is_table_char n = is_lower n || is_between b'0' b'9' n || (n == b'_')

unfoldable pub all_chars : (ℕ → Bool) → String → Bool
all_chars p String.[] = true
all_chars p (String.◌∷◌ c s) = p (code c) && all_chars p s

unfoldable pub valid_ifname : String → Bool
unfolding all_chars byte_len
valid_ifname s = not (is_empty s) && leb (byte_len s) 15 && all_chars is_name_char s

unfoldable pub short : String → Bool
unfolding all_chars byte_len
short s = is_between 1 4 (byte_len s) && all_chars is_lower s

-- `fe80::1` is the gateway; the default of `ipv6_snat_prefix` is `fd91:cafe:cafe:10::`.
abbrev pub default_snat6_prefix : ℕ
default_snat6_prefix = (64913 * 2 ^ 48 + 51966 * 2 ^ 32 + 51966 * 2 ^ 16 + 16) * 2 ^ 64

abbrev pub v6_host_offset : ℕ
v6_host_offset = 65536

abbrev pub prefix_of : ℕ → Option ℕ → Result Error ℕ
prefix_of max none = err bad_prefix
prefix_of max (some n) = if leb n max then ok n else err bad_prefix

abbrev pub halves_of : Option (String × String) → Result Error (String × String)
halves_of none = err not_cidr
halves_of (some halves) = ok halves

abbrev pub as_v4 : Option IpAddr → Result Error ℕ
as_v4 (some (v4 n)) = ok n
as_v4 _ = err bad_address

abbrev pub as_v6 : Option IpAddr → Result Error ℕ
as_v6 (some (v6 n)) = ok n
as_v6 _ = err bad_address

-- The largest index that still has an address: the network, the gateway and the broadcast have none.
unfoldable pub max_idx : Net → ℕ
max_idx net = 2 ^ (32 - net.v4_len) - 4

unfoldable pub v6_for : Net → V6Mode → ℕ → Result Error (Option ℕ)
v6_for net no_v6 idx = ok none
v6_for net snat idx = ok (some (net.snat6_prefix + 2 + idx))
v6_for net (subnet prefix len uplink) idx =
    let host = v6_host_offset + idx in
    if ltb len 128 && not (host / 2 ^ (128 - len) == 0)
    then err prefix_too_small
    else ok (some (bit_or prefix host))

unfoldable pub addrs_for : Net → ℕ → Result Error Addrs
unfolding max_idx v6_for
addrs_for net idx =
    if ltb (max_idx net) idx
    then err no_free_address
    else and_then (v6_for net net.v6_mode idx)
        λ ip6. ok (record { ipv4 = net.v4_base + 2 + idx; ipv6 = ip6 })

-- A unique-local prefix of 64 bits: the first seven bits are those of `fc00::/7`.
abbrev unique_local : ℕ × ℕ → Result Error ℕ
unique_local (prefix, len) =
    if not (len == 64) || not (prefix / 2 ^ 121 == 126) then err bad_snat_prefix else ok prefix

abbrev pub gateway4 : Net → ℕ
gateway4 net = net.v4_base + 1

module _ (texts : Texts) where
  unfoldable pub parse_cidr4 : String → Result Error (ℕ × ℕ)
  unfolding split_once parse_u8
  parse_cidr4 s = and_then (halves_of (split_once b'/' s)) λ halves.
      and_then (as_v4 (texts.parse_ip halves.0))
        λ a. and_then (prefix_of 32 (parse_u8 halves.1)) λ len. ok (a, len)

  unfoldable pub parse_cidr6 : String → Result Error (ℕ × ℕ)
  unfolding split_once parse_u8 masked
  parse_cidr6 s = and_then (halves_of (split_once b'/' s)) λ halves.
      and_then (prefix_of 128 (parse_u8 halves.1))
        λ len. and_then (as_v6 (texts.parse_ip halves.0)) λ a. ok (masked 128 len a, len)

  unfoldable pub snat_prefix : NetworkConfig → Result Error ℕ
  unfolding parse_cidr6
  snat_prefix c =
      if str_eq c.ipv6_mode "snat"
      then and_then (parse_cidr6 c.ipv6_snat_prefix) unique_local
      else ok default_snat6_prefix

  unfoldable pub v6_subnet : NetworkConfig → Result Error V6Mode
  unfolding parse_cidr6 valid_ifname
  v6_subnet c = and_then (parse_cidr6 c.ipv6_prefix) λ prefix.
      and_then (refuse (ltb 96 prefix.1) bad_subnet) λ _.
        if is_empty c.ipv6_ndp_uplink
        then ok (subnet prefix.0 prefix.1 none)
        else if valid_ifname c.ipv6_ndp_uplink
        then ok (subnet prefix.0 prefix.1 (some c.ipv6_ndp_uplink))
        else err bad_name

  unfoldable pub v6_mode_of : NetworkConfig → Result Error V6Mode
  unfolding v6_subnet
  v6_mode_of c =
      if str_eq c.ipv6_mode "none" || is_empty c.ipv6_mode
      then ok no_v6
      else if str_eq c.ipv6_mode "snat"
      then ok snat
      else if str_eq c.ipv6_mode "subnet"
      then v6_subnet c
      else err bad_mode

  abbrev pub bad_prefixes : NetworkConfig → Bool
  bad_prefixes c =
      not (short c.veth_prefix) || not (short c.wg_prefix) || str_eq c.veth_prefix c.wg_prefix

  abbrev pub bad_table : NetworkConfig → Bool
  bad_table c = is_empty c.nft_table || not (all_chars is_table_char c.nft_table)

  unfoldable pub from_config : NetworkConfig → Result Error Net
  unfolding parse_cidr4 valid_ifname snat_prefix v6_mode_of short all_chars masked all
  from_config c = and_then (parse_cidr4 c.ipv4_subnet) λ net.
      and_then (refuse (not (is_between 8 24 net.1)) bad_subnet) λ _.
        and_then (refuse (not (valid_ifname c.bridge)) bad_name) λ _.
          and_then (snat_prefix c) λ snat6. and_then (v6_mode_of c) λ mode.
            and_then (refuse (not (all (λ d. is_some (texts.parse_ip d)) c.dns)) bad_dns) λ _.
              and_then (refuse (bad_prefixes c || bad_table c) bad_name) λ _. ok (record {
                bridge = c.bridge;
                veth_prefix = c.veth_prefix;
                wg_prefix = c.wg_prefix;
                nft_table = c.nft_table;
                v4_base = masked 32 net.1 net.0;
                v4_len = net.1;
                snat6_prefix = snat6;
                v6_mode = mode;
                dns = c.dns;
              })
