-- ===== src/Network/Addresses.antt =====
-- src/runtime/net.rs: where the addresses of the instances lie.
use native.Mathlib.Nat.{
  one-le-pow, zero-add, pow-zero, pow-succ', div-lt_iff_lt-mul, pow-le-pow_right, mul-le-mul_right,
}
use runman_agent.Prelude.{
  ℕ, zero, suc, ap, sym, subst, ◌+◌, ◌-◌, ◌*◌, ◌/◌, ◌^◌, ◌≤◌, ◌<◌, ◌≡◌, refl, String, Bool, true,
  false, not, ◌&&◌, ◌||◌, some, all, ltb, leb, arith, inl, inr, Bool-cases, Option-cases,
}
use runman_agent.Prelude.Effect.{Result, ok, AllOk, and_then-AllOk, AllOk-ok}
use runman_agent.Config.{NetworkConfig}
use runman_agent.Connlimit.Policy.{IpAddr, v4, v6, Texts, is_some}
use runman_agent.HostPolicy.Text.{split_once, parse_u8, masked}
use runman_agent.HostPolicy.Text.Cidr.{IsAddress}
use runman_agent.Network.{
  Error, Net, Addrs, max_idx, v6_for, addrs_for, gateway4, as_v4, halves_of, prefix_of, bad_subnet,
  bad_name, bad_dns, bad_prefixes, bad_table, parse_cidr4, snat_prefix, v6_mode_of, valid_ifname,
  refuse, from_config,
}

-- What the standard library documents of the addresses that it reads: they have the bits of their
-- version.
pub record ReadsBits (texts : Texts) : Type 0 where
  pub parse_bits : (s : String) (ip : IpAddr) → texts.parse_ip s ≡ some ip → IsAddress ip

-- The network of the instances lies within the addresses of 32 bits.
pub record IsNet (net : Net) : Type 0 where
  pub shortest : 8 ≤ net.v4_len
  pub longest : net.v4_len ≤ 24
  pub fits : net.v4_base + 2 ^ (32 - net.v4_len) ≤ 2 ^ 32

pow-add : (a b : ℕ) → 2 ^ (a + b) ≡ 2 ^ a * 2 ^ b
pow-add zero b = grind (arith, pow-zero 2, zero-add b)
pow-add (suc a) b = grind (arith, pow-succ' 2 (a + b), pow-succ' 2 a, pow-add a b)

pow_split : (len : ℕ) → len ≤ 32 → 2 ^ 32 ≡ 2 ^ len * 2 ^ (32 - len)
pow_split len h =
    rw (sym (pow-add len (32 - len)))
      (ap (λ k. 2 ^ k) {x = 32} {y = len + (32 - len)} (omega arith))

masked-fits : (len n : ℕ) → len ≤ 32 → n < 2 ^ 32 → masked 32 len n + 2 ^ (32 - len) ≤ 2 ^ 32
unfolding masked
masked-fits len n h k =
    let p = 2 ^ (32 - len) in
    let below =
      (div-lt_iff_lt-mul {k = p} {x = n} {y = 2 ^ len} (one-le-pow (32 - len) 2 (omega arith))).1
        (subst (λ t. n < t) (pow_split len h) k) in
    grind (
      arith,
      below,
      pow_split len h,
      mul-le-mul_right {m = n / p + 1} {n = 2 ^ len} p (omega (arith, below)),
    )

four-le-pow : (len : ℕ) → len ≤ 24 → 4 ≤ 2 ^ (32 - len)
four-le-pow len h = pow-le-pow_right {n = 2} (omega arith) {i = 2} {j = 32 - len} (omega arith)

eq_of_ok : {m n : ℕ} → ◌≡◌ {A = Result Error ℕ} (ok m) (ok n) → m ≡ n
eq_of_ok h = cc (h)

as_v4-bits :
    (texts : Texts) (readable : ReadsBits texts) (s : String) {n : ℕ}
    → as_v4 (texts.parse_ip s) ≡ ok n
    → n < 2 ^ 32
as_v4-bits texts readable s {n} h = elim (Option-cases (texts.parse_ip s)) [
  | inl e ↦ absurd (cc (rw e at h))
  | inr (v6 m, e) ↦ absurd (cc (rw e at h))
  | inr (v4 m, e) ↦
      let q = eq_of_ok (rw e at h) in subst (λ t. t < 2 ^ 32) q (readable.parse_bits s (v4 m) e)
]

-- The address of an instance lies above the gateway and below the broadcast of the network.
abbrev pub IsInside : Net → Addrs → Type 0
IsInside net a = (gateway4 net < a.ipv4) × (a.ipv4 + 1 < net.v4_base + 2 ^ (32 - net.v4_len))

addrs_in-IsInside : (net : Net) (idx : ℕ) → IsNet net → AllOk (IsInside net) (addrs_for net idx)
unfolding addrs_for max_idx
addrs_in-IsInside net idx h = elim (Bool-cases (ltb (max_idx net) idx)) [
  | inl e ↦ rw e tt
  | inr e ↦ rw e (
      and_then-AllOk (IsInside net) (v6_for net net.v6_mode idx) _ λ ip6 f.
        let big = four-le-pow net.v4_len h.longest in (omega arith, ground (arith, big, e)))
]

module _ (texts : Texts) (readable : ReadsBits texts) where
  abbrev IsCidr : ℕ × ℕ → Type 0
  IsCidr (n, len) = n < 2 ^ 32

  parse_cidr4-IsCidr : (s : String) → AllOk IsCidr (parse_cidr4 texts s)
  unfolding parse_cidr4
  parse_cidr4-IsCidr s = and_then-AllOk IsCidr (halves_of (split_once b'/' s)) _ λ halves e.
      and_then-AllOk IsCidr (as_v4 (texts.parse_ip halves.0)) _ λ a f.
        and_then-AllOk IsCidr (prefix_of 32 (parse_u8 halves.1)) _
          λ len g. as_v4-bits texts readable halves.0 f

  refuse-ok : (bad : Bool) (e : Error) → refuse bad e ≡ ok tt → bad ≡ false
  refuse-ok true e h = absurd (cc (h))
  refuse-ok false e h = refl

  from_config-IsNet : (c : NetworkConfig) → AllOk IsNet (from_config texts c)
  unfolding from_config
  from_config-IsNet c = and_then-AllOk IsNet (parse_cidr4 texts c.ipv4_subnet) _ λ net e.
      and_then-AllOk IsNet (refuse (not (leb 8 net.1 && leb net.1 24)) bad_subnet) _ λ _ f.
        and_then-AllOk IsNet (refuse (not (valid_ifname c.bridge)) bad_name) _ λ _ _.
          and_then-AllOk IsNet (snat_prefix texts c) _ λ snat6 _.
            and_then-AllOk IsNet (v6_mode_of texts c) _ λ mode _.
              and_then-AllOk IsNet
                (refuse (not (all (λ d. is_some (texts.parse_ip d)) c.dns)) bad_dns) _
                λ _ _.
                  and_then-AllOk IsNet (refuse (bad_prefixes texts c || bad_table texts c) bad_name)
                    _
                    λ _ _.
                      let lengths = refuse-ok (not (leb 8 net.1 && leb net.1 24)) bad_subnet f in
                      let below =
                        AllOk-ok IsCidr (parse_cidr4 texts c.ipv4_subnet) e
                          (parse_cidr4-IsCidr c.ipv4_subnet) in
                      record {
                        shortest = ground (arith, lengths);
                        longest = ground (arith, lengths);
                        fits = masked-fits net.1 net.0 (ground (arith, lengths)) below;
                      }

  -- Under every accepted configuration of the network, the address that an index gets has 32 bits and
  -- is neither that of the network, nor that of the gateway, nor that of the broadcast.
  pub addrs_for-IsInside :
      (c : NetworkConfig) (idx : ℕ) {net : Net} {a : Addrs}
      → from_config texts c ≡ ok net
      → addrs_for net idx ≡ ok a
      → IsInside net a × (a.ipv4 < 2 ^ 32)
  addrs_for-IsInside c idx {net} {a} h k =
      let n = AllOk-ok IsNet (from_config texts c) h (from_config-IsNet c) in
      let i = AllOk-ok (IsInside net) (addrs_for net idx) k (addrs_in-IsInside net idx n) in
      (i, omega (arith, i.1, n.fits))
