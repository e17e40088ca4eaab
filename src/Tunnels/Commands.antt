-- ===== src/Tunnels/Commands.antt =====
-- src/runtime/wg.rs: the commands that set a tunnel up and take it down.
use Prim.Native.String.{◌++◌ as append}
use runman_agent.Prelude.{
  ℕ, zero, suc, ◌+◌, String, Bool, true, not, ◌&&◌, ◌||◌, Option, none, some, List, [], ◌∷◌, ◌++◌,
  find, if◌then◌else◌,
}
use runman_agent.Prelude.Effect.{ok, err, Exec, ◌>>=◌, ◌>>◌, pure, bail}
use runman_agent.Model.{is_empty}
use runman_agent.Connlimit.Policy.{IpAddr, v4, v6, Texts, is_ipv6, show_number}
use runman_agent.Tunnels.{
  Error, command_failed, unresolved, out_of_fuel, Bind, Slot, Endpoint, Names, Host,
}

abbrev pub mtu : String
mtu = "1420"

abbrev pub rule_priority : String
rule_priority = "1000"

abbrev pub family : IpAddr → String
family a = if is_ipv6 a then "-6" else "-4"

abbrev joined : List String → String
joined [] = ""
joined (x ∷ []) = x
joined (x ∷ y ∷ ys) = append x (append "," (joined (y ∷ ys)))

unfoldable pub host_prefix : Texts → IpAddr → String
host_prefix texts (v4 n) = append (texts.show_ip (v4 n)) "/32"
host_prefix texts (v6 n) = append (texts.show_ip (v6 n)) "/128"

unfoldable pub iface : Names → Slot → String
unfolding show_number
iface names slot = append names.prefix (show_number slot.n)

unfoldable pub table : Names → Slot → String
unfolding show_number
table names slot = show_number (names.table_base + slot.n)

abbrev pub del_rule : String → String → String → List String
del_rule fam host table = fam ∷ "rule" ∷ "del" ∷ "from" ∷ host ∷ "lookup" ∷ table ∷ []

-- The first address of a family with a default route, else the first.
abbrev first_of : List Endpoint → Option Endpoint
first_of [] = none
first_of (a ∷ as') = some a

abbrev or_first : Option Endpoint → List Endpoint → Option Endpoint
or_first (some a) addrs = some a
or_first none addrs = first_of addrs

unfoldable pub prefer : Bool → Bool → List Endpoint → Option Endpoint
unfolding find
prefer has_v4 has_v6 addrs =
    or_first (find (λ (a : Endpoint). (a.is_ipv4 && has_v4) || (not a.is_ipv4 && has_v6)) addrs)
      addrs

module _ {W : Type 0} (host : Host W) where
  -- `run`: a command that fails is an error.
  unfoldable pub run : String → List String → Exec Error W Unit
  run tool args w =
      let (done, w1) = host.run tool args none w in (if done then ok tt else err command_failed, w1)

  unfoldable pub wg_with_secret : List String → String → Exec Error W Unit
  wg_with_secret args secret w =
      let (done, w1) = host.run "wg" args (some secret) w in
      (if done then ok tt else err command_failed, w1)

  -- A command whose failure is ignored.
  unfoldable pub try_run : String → List String → Exec Error W Bool
  try_run tool args w = let (done, w1) = host.run tool args none w in (ok done, w1)

  unfoldable pub try_rp_filter : String → Exec Error W Bool
  try_rp_filter ifc w = let (done, w1) = host.write_rp_filter ifc w in (ok done, w1)

  unfoldable pub present : String → Exec Error W Bool
  present ifc w = let (there, w1) = host.has_iface ifc w in (ok there, w1)

  unfoldable pub default_route : String → Exec Error W Bool
  default_route fam w = let (there, w1) = host.has_default fam w in (ok there, w1)

  unfoldable pub look_up : String → Exec Error W (List Endpoint)
  look_up endpoint w =
      let (found, w1) = host.lookup endpoint w in
      (elim found [ none ↦ err unresolved | some addrs ↦ ok addrs ], w1)

  unfoldable pub resolve_endpoint : String → Exec Error W Endpoint
  unfolding look_up default_route prefer
  resolve_endpoint endpoint = do
    addrs ← look_up endpoint
    has_v4 ← default_route "-4"
    has_v6 ← default_route "-6"
    elim (prefer has_v4 has_v6 addrs) [ none ↦ bail unresolved | some a ↦ pure a ]

  unfoldable pub delete_iface : String → Exec Error W Unit
  unfolding present run
  delete_iface ifc = do
    there ← present ifc
    if there then run "ip" ("link" ∷ "del" ∷ ifc ∷ []) else pure tt

  -- `while command.is_ok_and(success) {}`
  unfoldable pub delete_rules : List String → ℕ → Exec Error W Unit
  unfolding try_run
  delete_rules args zero = bail out_of_fuel
  delete_rules args (suc fuel) = do
    done ← try_run "ip" args
    if done then delete_rules args fuel else pure tt

  module _ (texts : Texts) (names : Names) where
    unfoldable pub teardown : ℕ → Slot → Exec Error W Unit
    unfolding delete_rules try_run delete_iface host_prefix iface table
    teardown fuel slot = do
      let fam = family slot.address
      let prefix = host_prefix texts slot.address
      delete_rules (del_rule fam prefix (table names slot)) fuel
      _ ← try_run "ip" (fam ∷ "route" ∷ "flush" ∷ "table" ∷ table names slot ∷ [])
      _ ← try_run "ip" (fam ∷ "route" ∷ "del" ∷ prefix ∷ "dev" ∷ names.bridge ∷ [])
      delete_iface (iface names slot)

    abbrev peer_args : String → Bind → Endpoint → List String
    peer_args ifc b endpoint =
        "set"
        ∷ ifc
        ∷ "peer"
        ∷ b.peer_public_key
        ∷ "endpoint"
        ∷ endpoint.text
        ∷ "allowed-ips"
        ∷ joined b.allowed_ips
        ∷ "persistent-keepalive"
        ∷ show_number b.keepalive
        ∷ []

    unfoldable pub set_peer : String → Bind → Endpoint → Exec Error W Unit
    unfolding run wg_with_secret show_number
    set_peer ifc b endpoint =
        let args = peer_args ifc b endpoint in
        if is_empty b.preshared_key
        then run "wg" args
        else wg_with_secret (args ++ "preshared-key" ∷ "/dev/stdin" ∷ []) b.preshared_key

    unfoldable pub set_routes : Slot → Bind → Exec Error W Unit
    unfolding run try_run host_prefix iface table
    set_routes slot b = do
      let ifc = iface names slot
      let tab = table names slot
      let fam = family b.address
      let prefix = host_prefix texts b.address
      run "ip" (fam ∷ "route" ∷ "replace" ∷ "default" ∷ "dev" ∷ ifc ∷ "table" ∷ tab ∷ [])
      run "ip" (fam ∷ "route" ∷ "replace" ∷ prefix ∷ "dev" ∷ names.bridge ∷ [])
      _ ← try_run "ip" (del_rule fam prefix tab)
      run "ip" (
          fam ∷ "rule" ∷ "add" ∷ "from" ∷ prefix ∷ "lookup" ∷ tab ∷ "priority" ∷ rule_priority ∷ [])

    unfoldable pub setup : Slot → Bind → Endpoint → Exec Error W Unit
    unfolding delete_iface run wg_with_secret set_peer try_rp_filter set_routes iface
    setup slot b endpoint = do
      let ifc = iface names slot
      delete_iface ifc
      run "ip" ("link" ∷ "add" ∷ ifc ∷ "type" ∷ "wireguard" ∷ [])
      wg_with_secret ("set" ∷ ifc ∷ "private-key" ∷ "/dev/stdin" ∷ []) b.private_key
      set_peer ifc b endpoint
      run "ip" ("link" ∷ "set" ∷ ifc ∷ "mtu" ∷ mtu ∷ "up" ∷ [])
      _ ← (if is_ipv6 b.address then pure true else try_rp_filter ifc)
      set_routes slot b
