-- ===== src/Tunnels/Tests.antt =====
-- Runs of the tunnels, and their witnesses.
use runman_agent.Prelude.{
  ℕ, ◌≡◌, refl, String, Bool, true, false, none, some, List, [], ◌∷◌, ◌+◌, not, ◌&&◌, any, find,
  retain, if◌then◌else◌, str_eq,
}
use runman_agent.Prelude.Int.{negsuc}
use runman_agent.Prelude.Effect.{ok, err}
use runman_agent.Config.{parse_digits, digits}
use runman_agent.Model.{byte_len}
use runman_agent.Connlimit.Policy.{v4, Texts, show_number}
use runman_agent.HostPolicy.Text.{trim, trim_start, trim_end, str_lt, split_once, parse_u8}
use runman_agent.Tunnels.{
  Bind, Slot, get, replace, add, insert, remove, numbers, greatest, first_free, free_n, Names, Host,
  Ctx, invalid_endpoint,
}
use runman_agent.Tunnels.Slots.{NoRepeat}
use runman_agent.Tunnels.Binding.{
  WgBindDesired, from_proto, is_wg_key, ends_with_pad, all_base64, before, split, rsplit_once,
  drop_brackets, drop_brackets_end, is_u16, is_endpoint, keepalive_of, check_keys, prefix_len,
  items, allowed_ip, allowed,
}
use runman_agent.Tunnels.Binding.Valid.{IsValid, from_proto-IsValid}
use runman_agent.Tunnels.Commands.{
  iface, table, host_prefix, prefer, run, wg_with_secret, try_run, try_rp_filter, present,
  default_route, look_up, resolve_endpoint, delete_iface, delete_rules, teardown, set_peer,
  set_routes, setup,
}
use runman_agent.Tunnels.Reconcile.{
  reconcile, stale, save, remove_stale, iface_present, update_endpoint, choose_slot, noted, set_up,
  converge_to, converge, is_same, addresses_by_vm, add_address,
}
use runman_agent.Tunnels.Reconcile.Numbers.{reconcile-NoRepeat, number_of, reconcile-number}

-- Addresses that are read and written as one number.
abbrev texts : Texts
texts = record {
  parse_ip = λ s. if str_eq s "203.0.113.7" then some (v4 7) else none;
  show_ip = λ ip. "203.0.113.7";
  parse_uuid = λ s. some s;
}

abbrev names : Names
names = record { bridge = "br0"; prefix = "rw"; table_base = 20000 }

-- A machine on which every command but the deletion of a rule succeeds; its state counts the commands.
abbrev is_deletion : List String → Bool
is_deletion (_ ∷ noun ∷ verb ∷ _) = str_eq noun "rule" && str_eq verb "del"
is_deletion _ = false

abbrev host : Host ℕ
host = record {
  run = λ tool args secret n. (not (is_deletion args), n + 1);
  has_iface = λ ifc n. (true, n);
  lookup = λ endpoint n. (some (record { text = endpoint; is_ipv4 = true } ∷ []), n);
  has_default = λ fam n. (true, n);
  write_rp_filter = λ ifc n. (true, n);
  write_slots = λ slots n. (true, n);
  fingerprint = λ b. b.keepalive;
}

abbrev key : String
key = "AAAAAAAAAAAAAAAAAAAAAAAAAAAAAAAAAAAAAAAAAAA="

abbrev asked : WgBindDesired
asked = record {
  vm_id = "vm1";
  resource_id = "res1";
  private_key = key;
  address = " 203.0.113.7/24";
  peer_public_key = key;
  preshared_key = "";
  endpoint = "[gw]:51820 ";
  allowed_ips = "203.0.113.7, 203.0.113.7/8" ∷ [];
  keepalive_sec = negsuc 3;
}

abbrev made : Bind
made = record {
  resource_id = "res1";
  vm_id = "vm1";
  address = v4 7;
  private_key = key;
  peer_public_key = key;
  preshared_key = "";
  endpoint = "[gw]:51820";
  allowed_ips = "203.0.113.7/32" ∷ "203.0.113.7/8" ∷ [];
  keepalive = 0;
}

from_proto-asked : from_proto texts asked ≡ ok made
unfolding from_proto byte_len before trim trim_start trim_end check_keys is_wg_key ends_with_pad
    all_base64 is_endpoint rsplit_once drop_brackets drop_brackets_end is_u16 parse_digits digits
    items split allowed allowed_ip split_once prefix_len parse_u8 keepalive_of show_number
from_proto-asked = refl

from_proto-IsValid_example : IsValid texts made
from_proto-IsValid_example = from_proto-IsValid texts asked from_proto-asked

no_port : from_proto texts (record asked { endpoint = "no-port" }) ≡ err invalid_endpoint
unfolding from_proto byte_len before trim trim_start trim_end check_keys is_wg_key ends_with_pad
    all_base64 is_endpoint rsplit_once drop_brackets drop_brackets_end is_u16 parse_digits digits
no_port = refl

abbrev slot_at : ℕ → Slot
slot_at n = record { n = n; vm_id = "vm1"; address = v4 7 }

-- `old` is not wanted, `res1` was under another instance, and `res2` is new.
abbrev before_run : Ctx ℕ
before_run = record {
  slots = ("old", slot_at 0) ∷ ("res1", record { n = 2; vm_id = "vm0"; address = v4 7 }) ∷ [];
  applied = [];
  world = 0;
}

abbrev desired : List Bind
desired = made ∷ record made { resource_id = "res2" } ∷ []

after_run :
    (reconcile host texts names 1 desired before_run).1.slots
    ≡ ("res1", slot_at 2) ∷ ("res2", slot_at 0) ∷ []
unfolding reconcile stale remove_stale converge converge_to iface_present update_endpoint
    choose_slot noted set_up save is_same teardown setup set_peer set_routes run wg_with_secret
    try_run try_rp_filter present default_route look_up resolve_endpoint prefer delete_iface
    delete_rules iface table host_prefix show_number get replace add insert remove free_n first_free
    greatest str_lt any find retain
after_run = refl

free_n-after : free_n (("a", slot_at 0) ∷ ("b", slot_at 2) ∷ []) ≡ 1
unfolding free_n first_free greatest any
free_n-after = refl

addresses : addresses_by_vm before_run.slots [] ≡ ("vm0", v4 7 ∷ []) ∷ ("vm1", v4 7 ∷ []) ∷ []
unfolding addresses_by_vm add_address get insert replace add str_lt
addresses = refl

reconcile-NoRepeat_example :
    NoRepeat (numbers (reconcile host texts names 1 desired before_run).1.slots)
unfolding any
reconcile-NoRepeat_example =
    reconcile-NoRepeat host texts names 1 desired before_run (refl, (refl, tt))

reconcile-number_example :
    number_of (get "res1" (reconcile host texts names 1 desired before_run).1.slots) ≡ some 2
unfolding get any
reconcile-number_example = reconcile-number host texts names 1 desired "res1" before_run refl refl
