-- ===== src/Tunnels.antt =====
-- src/runtime/wg.rs: the tunnels of dedicated addresses, their slots, and what reaches the machine.
use runman_agent.Prelude.{
  ℕ, zero, suc, ◌+◌, String, Bool, true, false, not, Option, none, some, List, [], ◌∷◌, map, ltb,
  any, find, retain, ◌==◌, if◌then◌else◌, str_eq,
}
use runman_agent.Connlimit.Policy.{IpAddr}
use runman_agent.HostPolicy.Text.{str_lt}
pub mod Binding
pub mod Commands
pub mod Slots
pub mod Reconcile
mod Tests

-- Why an operation fails. The texts of the messages are not modelled.
pub data Error : Type 0 where
  invalid_resource_id invalid_vm_id invalid_address invalid_key invalid_endpoint : Error
  invalid_allowed_ip bad_prefix : Error
  command_failed unresolved save_failed not_loaded : Error
  -- A map is indexed at a key that it does not have, or the bound of a loop was met: no outcome of the
  -- program.
  missing_key out_of_fuel : Error

-- A validated binding.
pub record Bind : Type 0 where
  pub resource_id : String
  pub vm_id : String
  pub address : IpAddr
  pub private_key : String
  pub peer_public_key : String
  pub preshared_key : String
  pub endpoint : String
  pub allowed_ips : List String
  pub keepalive : ℕ

pub record Slot : Type 0 where
  pub n : ℕ
  pub vm_id : String
  pub address : IpAddr

-- `BTreeMap<String, _>`: a list in the order of its keys.
module _ {V : Type 0} where
  unfoldable pub get : String → List (String × V) → Option V
  get k [] = none
  get k ((j, v) ∷ m) = if str_eq j k then some v else get k m

  unfoldable pub replace : String → V → List (String × V) → List (String × V)
  replace k v [] = []
  replace k v ((j, w) ∷ m) = if str_eq j k then (k, v) ∷ m else (j, w) ∷ replace k v m

  unfoldable pub add : String → V → List (String × V) → List (String × V)
  unfolding str_lt
  add k v [] = (k, v) ∷ []
  add k v ((j, w) ∷ m) = if str_lt k j then (k, v) ∷ (j, w) ∷ m else (j, w) ∷ add k v m

  abbrev pub is_present : Option V → Bool
  is_present none = false
  is_present (some v) = true

  unfoldable pub insert : String → V → List (String × V) → List (String × V)
  unfolding get replace add
  insert k v m = if is_present (get k m) then replace k v m else add k v m

  unfoldable pub remove : String → List (String × V) → List (String × V)
  unfolding retain
  remove k m = retain (λ (e : String × V). not (str_eq e.0 k)) m

-- The numbers of the slots.
abbrev pub numbers : List (String × Slot) → List ℕ
numbers slots = map (λ (e : String × Slot). e.1.n) slots

abbrev pub holds : List ℕ → ℕ → Bool
holds ns n = any (λ m. m == n) ns

unfoldable pub greatest : List ℕ → ℕ
greatest [] = 0
greatest (n ∷ ns) = let rest = greatest ns in if ltb n rest then rest else n

-- The first number from `n` that is not used.
unfoldable pub first_free : ℕ → ℕ → List ℕ → ℕ
unfolding any
first_free zero n used = n
first_free (suc fuel) n used =
    let rest = first_free fuel (n + 1) used in if holds used n then rest else n

unfoldable pub free_n : List (String × Slot) → ℕ
unfolding first_free greatest
free_n slots = first_free (suc (greatest (numbers slots))) 0 (numbers slots)

-- A socket address: its text, and whether it is of IPv4.
pub record Endpoint : Type 0 where
  pub text : String
  pub is_ipv4 : Bool

-- The names of the interfaces, and where the tables begin.
pub record Names : Type 0 where
  pub bridge : String
  pub prefix : String
  pub table_base : ℕ

pub record Host (W : Type 0) : Type 0 where
  -- A program with its arguments and what is written to its standard input; whether it succeeds.
  pub run : String → List String → Option String → W → Bool × W
  -- The interface is there.
  pub has_iface : String → W → Bool × W
  -- `tokio::net::lookup_host`
  pub lookup : String → W → Option (List Endpoint) × W
  -- `ip <family> route show default` prints a route.
  pub has_default : String → W → Bool × W
  -- 0 is written to the file `rp_filter` of the interface.
  pub write_rp_filter : String → W → Bool × W
  -- `write_atomic` of the slots.
  pub write_slots : List (String × Slot) → W → Bool × W
  -- The hash of a binding.
  pub fingerprint : Bind → ℕ

-- `Tunnels`: the slots, what each was last set up with, and the rest of the machine.
pub record Ctx (W : Type 0) : Type 0 where
  pub slots : List (String × Slot)
  pub applied : List (String × (ℕ × Endpoint))
  pub world : W
