-- ===== src/Tunnels/Binding/Valid.antt =====
-- src/runtime/wg.rs: what `Binding::from_proto` accepts.
use runman_agent.Prelude.{
  ℕ, ◌≤◌, ◌≡◌, refl, ◌⊎◌, String, Bool, true, false, not, ◌||◌, List, [], ◌∷◌, All, ltb, arith, inl,
  inr, Bool-cases, Option-cases,
}
use runman_agent.Prelude.Int.{ℤ, pos, negsuc}
use runman_agent.Prelude.Effect.{ok, AllOk, and_then-AllOk, AllOk-ok}
use runman_agent.Model.{is_empty, byte_len}
use runman_agent.Connlimit.Policy.{IpAddr, Texts}
use runman_agent.HostPolicy.Text.{trim, split_once, parse_u8}
use runman_agent.Tunnels.{invalid_allowed_ip, invalid_address, Bind}
use runman_agent.Tunnels.Binding.{
  WgBindDesired, is_wg_key, before, is_endpoint, keepalive_of, check_keys, prefix_len, items, whole,
  parse_ip, or_everything, max_of, show_prefix, allowed_ip, allowed, from_proto,
}

-- The text of an address with the length of a prefix that it can have.
abbrev pub IsAllowed : Texts → String → Type 0
IsAllowed texts item =
    (ip : IpAddr) × ((n : ℕ) × ((item ≡ show_prefix texts ip n) × (n ≤ max_of texts ip)))

abbrev pub AreKeys : Bind → Type 0
AreKeys b =
    (is_wg_key b.private_key ≡ true)
    × ((is_wg_key b.peer_public_key ≡ true)
        × ((is_empty b.preshared_key || is_wg_key b.preshared_key) ≡ true))

abbrev pub Allows : Texts → List String → Type 0
Allows texts ips =
    (ips ≡ "0.0.0.0/0" ∷ "::/0" ∷ []) ⊎ ((not (no_items ips) ≡ true) × All (IsAllowed texts) ips)
  where
    no_items : List String → Bool
    no_items [] = true
    no_items (x ∷ xs) = false

-- What the commands of a tunnel rely on.
pub record IsValid (texts : Texts) (b : Bind) : Type 0 where
  pub keys : AreKeys b
  pub endpoint : is_endpoint b.endpoint ≡ true
  pub allows : Allows texts b.allowed_ips
  pub keepalive : b.keepalive ≤ 65535
  pub resource_id : (is_empty b.resource_id || ltb 128 (byte_len b.resource_id)) ≡ false

keepalive_of-bound : (k : ℤ) → keepalive_of k ≤ 65535
unfolding keepalive_of
keepalive_of-bound (pos n) = ground arith
keepalive_of-bound (negsuc n) = ground arith

prefix_len-bound : (max : ℕ) (s : String) {n : ℕ} → prefix_len max s ≡ ok n → n ≤ max
unfolding prefix_len
prefix_len-bound max s {n} h = elim (Bool-cases (is_empty s)) [
  | inl e ↦ ground (arith, rw e at h)
  | inr e ↦ elim (Option-cases (parse_u8 s)) [
    | inl f ↦ ground (arith, rw (e, f) at h)
    | inr (m, f) ↦ ground (arith, rw (e, f) at h)
  ]
]

module _ (texts : Texts) where
  allowed_ip-IsAllowed : (item : String) → AllOk (IsAllowed texts) (allowed_ip texts item)
  unfolding allowed_ip
  allowed_ip-IsAllowed item =
      and_then-AllOk (IsAllowed texts)
        (parse_ip texts invalid_allowed_ip (whole item (split_once b'/' item)).0) _
        λ ip e.
          and_then-AllOk (IsAllowed texts)
            (prefix_len (max_of texts ip) (whole item (split_once b'/' item)).1) _
            λ n f. (ip, (n, (refl, prefix_len-bound _ (whole item (split_once b'/' item)).1 f)))

  allowed-IsAllowed : (raws : List String) → AllOk (All (IsAllowed texts)) (allowed texts raws)
  unfolding allowed
  allowed-IsAllowed [] = tt
  allowed-IsAllowed (raw ∷ raws) =
      and_then-AllOk (All (IsAllowed texts)) (allowed_ip texts raw) _ λ ip e.
        and_then-AllOk (All (IsAllowed texts)) (allowed texts raws) _ λ ips f. (
          AllOk-ok (IsAllowed texts) (allowed_ip texts raw) e (allowed_ip-IsAllowed raw),
          AllOk-ok (All (IsAllowed texts)) (allowed texts raws) f (allowed-IsAllowed raws),
        )

  or_everything-Allows :
      (ips : List String) → All (IsAllowed texts) ips → Allows texts (or_everything ips)
  or_everything-Allows [] h = inl refl
  or_everything-Allows (ip ∷ ips) h = inr (refl, h)

  check_keys-AreKeys :
      (d : WgBindDesired)
      → check_keys d ≡ ok tt
      → (is_wg_key d.private_key ≡ true)
        × ((is_wg_key d.peer_public_key ≡ true)
            × ((is_empty d.preshared_key || is_wg_key d.preshared_key) ≡ true))
  unfolding check_keys
  check_keys-AreKeys d h = ground (arith, h)

  from_proto-AllOk : (d : WgBindDesired) → AllOk (IsValid texts) (from_proto texts d)
  unfolding from_proto
  from_proto-AllOk d =
      elim (Bool-cases (is_empty d.resource_id || ltb 128 (byte_len d.resource_id))) [
        | inl e ↦ rw e tt
        | inr e ↦ elim (Option-cases (texts.parse_uuid d.vm_id)) [
          | inl f ↦ rw (e, f) tt
          | inr (vm, f) ↦
              rw (e, f)
                (and_then-AllOk (IsValid texts)
                  (parse_ip texts invalid_address (trim (before b'/' d.address))) _
                  λ address g. and_then-AllOk (IsValid texts) (check_keys d) _ λ u k.
                    elim (Bool-cases (is_endpoint (trim d.endpoint))) [
                      | inr p ↦ rw p tt
                      | inl p ↦ rw p (
                          and_then-AllOk (IsValid texts) (allowed texts (items d.allowed_ips)) _
                            λ ips q. record {
                              keys = check_keys-AreKeys d k;
                              endpoint = p;
                              allows = or_everything-Allows ips (
                                  AllOk-ok (All (IsAllowed texts))
                                    (allowed texts (items d.allowed_ips)) q
                                    (allowed-IsAllowed (items d.allowed_ips)));
                              keepalive = keepalive_of-bound d.keepalive_sec;
                              resource_id = e;
                            })
                    ])
        ]
      ]

  -- Whatever binding `Binding::from_proto` accepts has keys of WireGuard, an endpoint with a port, at
  -- least one allowed prefix, each of a length that its address can have, a keepalive of sixteen bits,
  -- and an identifier of 1 to 128 bytes.
  pub from_proto-IsValid :
      (d : WgBindDesired) {b : Bind} → from_proto texts d ≡ ok b → IsValid texts b
  from_proto-IsValid d h = AllOk-ok (IsValid texts) (from_proto texts d) h (from_proto-AllOk d)
