-- ===== src/Network/Tests.antt =====
-- Runs of the addresses of the instances, and their witness.
use runman_agent.Prelude.{
  ◌^◌, ◌<◌, ◌≡◌, refl, none, some, [], ◌∷◌, all, if◌then◌else◌, str_eq, arith, inl, inr, Bool-cases,
}
use runman_agent.Prelude.Effect.{ok, err}
use runman_agent.Model.{byte_len}
use runman_agent.Config.{NetworkConfig, default_network, parse_digits, digits}
use runman_agent.Connlimit.Policy.{v4, Texts}
use runman_agent.HostPolicy.Text.{split_once, parse_u8, masked}
use runman_agent.Network.{
  Net, Addrs, no_v6, no_free_address, bad_mode, default_snat6_prefix, max_idx, v6_for, addrs_for,
  parse_cidr4, snat_prefix, v6_mode_of, all_chars, valid_ifname, short, from_config,
}
use runman_agent.Network.Addresses.{ReadsBits, IsInside, addrs_for-IsInside}

-- Two addresses, 10.91.5.0 and 1.1.1.1, are read.
abbrev texts : Texts
texts = record {
  parse_ip = λ s.
      if str_eq s "10.91.5.0"
      then some (v4 173737216)
      else if str_eq s "1.1.1.1"
      then some (v4 16843009)
      else none;
  show_ip = λ ip. "";
  parse_uuid = λ s. some s;
}

reads : ReadsBits texts
reads = record {
  parse_bits = λ s ip. elim (Bool-cases (str_eq s "10.91.5.0")) [
    | inl e ↦ rw e (λ h. ground arith)
    | inr e ↦ elim (Bool-cases (str_eq s "1.1.1.1")) [
      | inl f ↦ rw (e, f) (λ h. ground arith)
      | inr f ↦ rw (e, f) (λ h. absurd (cc (h)))
    ]
  ];
}

abbrev config : NetworkConfig
config = record default_network { ipv4_subnet = "10.91.5.0/20"; dns = "1.1.1.1" ∷ [] }

-- The base is 10.91.0.0.
abbrev net : Net
net = record {
  bridge = "rmbr0";
  veth_prefix = "rv";
  wg_prefix = "rw";
  nft_table = "runman";
  v4_base = 173735936;
  v4_len = 20;
  snat6_prefix = default_snat6_prefix;
  v6_mode = no_v6;
  dns = "1.1.1.1" ∷ [];
}

from_config-net : from_config texts config ≡ ok net
unfolding from_config parse_cidr4 split_once parse_u8 parse_digits digits masked valid_ifname
    all_chars byte_len snat_prefix v6_mode_of short all
from_config-net = refl

unknown_mode : from_config texts (record config { ipv6_mode = "nat" }) ≡ err bad_mode
unfolding from_config parse_cidr4 split_once parse_u8 parse_digits digits masked valid_ifname
    all_chars byte_len snat_prefix v6_mode_of short all
unknown_mode = refl

-- The last index gets 10.91.15.254.
abbrev last : Addrs
last = record { ipv4 = 173740030; ipv6 = none }

addrs_for-last : addrs_for net 4092 ≡ ok last
unfolding addrs_for max_idx v6_for
addrs_for-last = refl

one_too_many : addrs_for net 4093 ≡ err no_free_address
unfolding addrs_for max_idx
one_too_many = refl

addrs_for-IsInside_example : IsInside net last × (173740030 < 2 ^ 32)
addrs_for-IsInside_example =
    addrs_for-IsInside texts reads config 4092 from_config-net addrs_for-last
