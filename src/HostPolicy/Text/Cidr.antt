-- ===== src/HostPolicy/Text/Cidr.antt =====
-- src/hostpolicy.rs: `normalize_cidr` takes what it returns, and returns it again.
use Prim.Native.Char.{code}
use Prim.Native.String.{◌++◌ as append}
use Prim.Native.String.append.{nil, cons}
use native.Mathlib.Nat.{one-le-pow}
use runman_agent.Prelude.{
  ℕ, zero, suc, ◌-◌, ◌*◌, ◌/◌, ◌^◌, ◌<◌, ◌≤◌, ◌≡◌, refl, ◌∙◌, arith, String, Bool, true, false,
  ◌&&◌, Option, none, some, ◌==◌, if◌then◌else◌, Option-cases, inl, inr, ap,
}
use runman_agent.Config.{is_whitespace}
use runman_agent.Connlimit.Policy.{IpAddr, v4, v6, Texts, show_number}
use runman_agent.HostPolicy.Text.{
  trim_start, trim_end, trim, split_once, parse_u8, masked, network, show_cidr, normalize_parts,
  normalize_cidr,
}

-- No white space.
unfoldable pub is_clean : String → Bool
is_clean String.[] = true
is_clean (String.◌∷◌ c s) = if is_whitespace (code c) then false else is_clean s

-- Not the character.
unfoldable pub lacks : ℕ → String → Bool
lacks d String.[] = true
lacks d (String.◌∷◌ c s) = if code c == d then false else lacks d s

trim_start-clean : (s : String) → is_clean s ≡ true → trim_start s ≡ s
unfolding trim_start is_clean
trim_start-clean String.[] h = refl
trim_start-clean (String.◌∷◌ c s) h = ground arith

trim_end-clean : (s : String) → is_clean s ≡ true → trim_end s ≡ s
unfolding trim_end is_clean
trim_end-clean String.[] h = refl
trim_end-clean (String.◌∷◌ c s) h = ground (arith, trim_end-clean s)

pub trim-clean : (s : String) → is_clean s ≡ true → trim s ≡ s
unfolding trim
trim-clean s h = rw (trim_end-clean s h) (trim_start-clean s h)

is_clean-append :
    (a b : String) → is_clean a ≡ true → is_clean b ≡ true → is_clean (append a b) ≡ true
unfolding is_clean
is_clean-append String.[] b h k = rw (nil b) k
is_clean-append (String.◌∷◌ c s) b h k = rw (cons c s b) (ground (arith, is_clean-append s b))

slash : (b : String) → append "/" b ≡ String.◌∷◌ "/" b
slash b = cons "/" "" b ∙ ap (λ t. String.◌∷◌ "/" t) (nil b)

split_once-append :
    (a b : String) → lacks b'/' a ≡ true → split_once b'/' (append a (append "/" b)) ≡ some (a, b)
unfolding split_once lacks
split_once-append String.[] b h = rw (nil (append "/" b), slash b) refl
split_once-append (String.◌∷◌ c s) b h =
    rw (cons c s (append "/" b)) (ground (arith, split_once-append s b))

-- The decimal prefixes, of which there are few.
abbrev reads_as : Option ℕ → ℕ → Bool
reads_as none n = false
reads_as (some m) n = m == n

is_prefix : ℕ → Bool
unfolding parse_u8 is_clean show_number
is_prefix n = reads_as (parse_u8 (show_number n)) n && is_clean (show_number n)

-- Each number below the bound is a prefix.
prefixes_to : ℕ → Bool
prefixes_to zero = true
prefixes_to (suc bound) = if is_prefix bound then prefixes_to bound else false

prefixes_to-at : (bound : ℕ) {n : ℕ} → n < bound → prefixes_to bound ≡ true → is_prefix n ≡ true
unfolding prefixes_to
prefixes_to-at zero below h = elim below [ ]
prefixes_to-at (suc bound) {n} below h = ground (arith, prefixes_to-at bound {n = n})

prefixes : prefixes_to 129 ≡ true
unfolding prefixes_to is_prefix
prefixes = refl

pub reads_as-eq : (o : Option ℕ) (n : ℕ) → reads_as o n ≡ true → o ≡ some n
reads_as-eq o n h = ground arith

both : (a b : Bool) → (a && b) ≡ true → (a ≡ true) × (b ≡ true)
both a b h = ground arith

slash_clean : is_clean "/" ≡ true
unfolding is_clean
slash_clean = refl

prefix_lem :
    (n : ℕ) → n < 129 → (parse_u8 (show_number n) ≡ some n) × (is_clean (show_number n) ≡ true)
unfolding is_prefix
prefix_lem n h = let (e, c) = both _ _ (prefixes_to-at 129 h prefixes) in (reads_as-eq _ n e, c)

mul_div : (q m : ℕ) → 0 < m → q * m / m ≡ q
mul_div q m h = grind arith

pow_pos : (k : ℕ) → 0 < 2 ^ k
pow_pos k = one-le-pow k 2 (omega arith)

masked_twice :
    (width prefix n : ℕ) → masked width prefix (masked width prefix n) ≡ masked width prefix n
unfolding masked
masked_twice width prefix n =
    ap (λ t. t * 2 ^ (width - prefix)) (mul_div _ _ (pow_pos (width - prefix)))

masked-le : (width prefix n : ℕ) → masked width prefix n ≤ n
unfolding masked
masked-le width prefix n = grind (arith, pow_pos (width - prefix))

-- An address has the bits of its version.
abbrev pub IsAddress : IpAddr → Type 0
IsAddress (v4 n) = n < 2 ^ 32
IsAddress (v6 n) = n < 2 ^ 128

-- What the standard library documents of the texts of addresses: what is written is read back, what
-- is read has the bits of its version, and no address is written with white space or a slash.
pub record Readable (texts : Texts) : Type 0 where
  pub parse_show : (ip : IpAddr) → IsAddress ip → texts.parse_ip (texts.show_ip ip) ≡ some ip
  pub parse_bits : (s : String) (ip : IpAddr) → texts.parse_ip s ≡ some ip → IsAddress ip
  pub show_clean : (ip : IpAddr) → is_clean (texts.show_ip ip) ≡ true
  pub show_lacks : (ip : IpAddr) → lacks b'/' (texts.show_ip ip) ≡ true

module _ (texts : Texts) where
  network-IsAddress :
      (ip : IpAddr) (p : ℕ) {net : IpAddr}
      → IsAddress ip
      → network texts ip p ≡ some net
      → IsAddress net
  unfolding network
  network-IsAddress (v4 n) p b e = ground (arith, masked-le 32 p n)
  network-IsAddress (v6 n) p b e = ground (arith, masked-le 128 p n)

  network-again :
      (ip : IpAddr) (p : ℕ) {net : IpAddr}
      → network texts ip p ≡ some net
      → (network texts net p ≡ some net) × (p < 129)
  unfolding network
  network-again (v4 n) p e = ground (arith, masked_twice 32 p n)
  network-again (v6 n) p e = ground (arith, masked_twice 128 p n)

  module _ (readable : Readable texts) where
    show_cidr-again :
        (net : IpAddr) (p : ℕ) {r : String}
        → IsAddress net
        → network texts net p ≡ some net
        → p < 129
        → show_cidr texts (some net) p ≡ some r
        → normalize_cidr texts r ≡ some r
    unfolding normalize_cidr show_cidr
    show_cidr-again net p {r} b e lt s =
        let ip = texts.show_ip net in
        let (parsed, clean) = prefix_lem p lt in
        let text : r ≡ append ip (append "/" (show_number p)) = cc in
        rw text (
          rw
            (
              normalize_cidr,
              trim-clean (append ip (append "/" (show_number p))) (
                  is_clean-append ip _ (readable.show_clean net)
                    (is_clean-append "/" _ slash_clean clean)),
              split_once-append ip (show_number p) (readable.show_lacks net),
            )
            (rw (normalize_parts, parsed, readable.parse_show net b, e) refl))

    pub normalize_cidr-again :
        (value : String) {r : String}
        → normalize_cidr texts value ≡ some r
        → normalize_cidr texts r ≡ some r
    unfolding normalize_cidr normalize_parts
    normalize_cidr-again value h = elim (Option-cases (split_once b'/' (trim value))) [
      | inl e ↦ cc (e)
      | inr (halves, e) ↦ elim (Option-cases (parse_u8 halves.1)) [
        | inl f ↦ ground arith
        | inr (p, f) ↦ elim (Option-cases (texts.parse_ip halves.0)) [
          | inl g ↦ ground arith
          | inr (ip, g) ↦ elim (Option-cases (network texts ip p)) [
            | inl k ↦ ground arith
            | inr (net, k) ↦
                let (again, lt) = network-again ip p k in
                show_cidr-again net p (network-IsAddress ip p (readable.parse_bits halves.0 ip g) k)
                  again lt (ground arith)
          ]
        ]
      ]
    ]
