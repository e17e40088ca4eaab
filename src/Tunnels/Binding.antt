-- ===== src/Tunnels/Binding.antt =====
-- src/runtime/wg.rs: `Binding::from_proto` and `is_wg_key`.
use Prim.Native.Char.{code}
use Prim.Native.String.{◌++◌ as append}
use Prim.Native.String
use runman_agent.Prelude.{
  ℕ, ◌+◌, String, Bool, true, false, not, ◌&&◌, ◌||◌, Option, none, some, List, [], ◌∷◌, ◌++◌,
  retain, ◌==◌, ltb, leb, if◌then◌else◌,
}
use runman_agent.Prelude.Int.{ℤ, pos, negsuc}
use runman_agent.Prelude.Effect.{Result, ok, err, and_then}
use runman_agent.Model.{is_empty, byte_len}
use runman_agent.Config.{parse_digits}
use runman_agent.Connlimit.Policy.{IpAddr, Texts, show_number, is_ipv6}
use runman_agent.HostPolicy.Text.{trim, split_once, parse_u8}
use runman_agent.Tunnels.{
  Error, invalid_resource_id, invalid_vm_id, invalid_address, invalid_key, invalid_endpoint,
  invalid_allowed_ip, bad_prefix, Bind,
}
pub mod Valid

-- The fields of `WgBindDesired` that are read.
pub record WgBindDesired : Type 0 where
  pub vm_id : String
  pub resource_id : String
  pub private_key : String
  pub address : String
  pub peer_public_key : String
  pub preshared_key : String
  pub endpoint : String
  pub allowed_ips : List String
  pub keepalive_sec : ℤ

abbrev is_between : ℕ → ℕ → ℕ → Bool
is_between low high n = leb low n && leb n high

-- A letter or a digit of ASCII, `+` or `/`.
abbrev is_base64 : ℕ → Bool
is_base64 n =
    is_between b'0' b'9' n
    || is_between b'A' b'Z' n
    || is_between b'a' b'z' n
    || (n == b'+')
    || (n == b'/')

-- `s.ends_with('=')`, and what is before the last character.
unfoldable pub ends_with_pad : String → Bool
ends_with_pad String.[] = false
ends_with_pad (String.◌∷◌ c String.[]) = code c == b'='
ends_with_pad (String.◌∷◌ c (String.◌∷◌ d s)) = ends_with_pad (String.◌∷◌ d s)

unfoldable pub all_base64 : String → Bool
all_base64 String.[] = true
all_base64 (String.◌∷◌ c String.[]) = true
all_base64 (String.◌∷◌ c (String.◌∷◌ d s)) = is_base64 (code c) && all_base64 (String.◌∷◌ d s)

unfoldable pub is_wg_key : String → Bool
unfolding byte_len ends_with_pad all_base64
is_wg_key s = (byte_len s == 44) && ends_with_pad s && all_base64 s

-- `s.split(d).next()`
unfoldable pub before : ℕ → String → String
before d String.[] = ""
before d (String.◌∷◌ c s) = if code c == d then "" else String.◌∷◌ c (before d s)

abbrev onto_first : String → List String → List String
onto_first c [] = c ∷ []
onto_first c (x ∷ xs) = append c x ∷ xs

-- `s.split(d)`
unfoldable pub split : ℕ → String → List String
split d String.[] = "" ∷ []
split d (String.◌∷◌ c s) =
    let rest = split d s in if code c == d then "" ∷ rest else onto_first (String.◌∷◌ c "") rest

-- `s.rsplit_once(d)`
unfoldable pub rsplit_once : ℕ → String → Option (String × String)
rsplit_once d String.[] = none
rsplit_once d (String.◌∷◌ c s) = elim (rsplit_once d s) [
  | none ↦ if code c == d then some ("", s) else none
  | some halves ↦ some (String.◌∷◌ c halves.0, halves.1)
]

abbrev is_bracket : ℕ → Bool
is_bracket n = (n == b'[') || (n == b']')

unfoldable pub drop_brackets : String → String
drop_brackets String.[] = ""
drop_brackets (String.◌∷◌ c s) = if is_bracket (code c) then drop_brackets s else String.◌∷◌ c s

unfoldable pub drop_brackets_end : String → String
drop_brackets_end String.[] = ""
drop_brackets_end (String.◌∷◌ c s) =
    let rest = drop_brackets_end s in
    if is_bracket (code c) && is_empty rest then "" else String.◌∷◌ c rest

abbrev fits_u16 : Option ℕ → Bool
fits_u16 none = false
fits_u16 (some n) = leb n 65535

-- `parse::<u16>().is_ok()`
unfoldable pub is_u16 : String → Bool
unfolding parse_digits
is_u16 String.[] = false
is_u16 (String.◌∷◌ c s) =
    fits_u16 (if code c == b'+' then parse_digits s else parse_digits (String.◌∷◌ c s))

unfoldable pub is_endpoint : String → Bool
unfolding rsplit_once drop_brackets drop_brackets_end is_u16
is_endpoint endpoint = elim (rsplit_once b':' endpoint) [
  | none ↦ false
  | some halves ↦ not (is_empty (drop_brackets (drop_brackets_end halves.0))) && is_u16 halves.1
]

-- `u16::try_from(n.max(0)).unwrap_or(25)`
unfoldable pub keepalive_of : ℤ → ℕ
keepalive_of (pos n) = if leb n 65535 then n else 25
keepalive_of (negsuc n) = 0

unfoldable pub check_keys : WgBindDesired → Result Error Unit
unfolding is_wg_key
check_keys d =
    if not (is_wg_key d.private_key)
    then err invalid_key
    else if not (is_wg_key d.peer_public_key)
    then err invalid_key
    else if not (is_empty d.preshared_key) && not (is_wg_key d.preshared_key)
    then err invalid_key
    else ok tt

abbrev within : ℕ → Option ℕ → Result Error ℕ
within max none = err bad_prefix
within max (some n) = if leb n max then ok n else err bad_prefix

-- The length of a prefix: all of the address where none is given.
unfoldable pub prefix_len : ℕ → String → Result Error ℕ
unfolding parse_u8
prefix_len max len = if is_empty len then ok max else within max (parse_u8 len)

abbrev whole : String → Option (String × String) → String × String
whole item none = (item, "")
whole item (some halves) = halves

unfoldable pub items : List String → List String
unfolding split trim
items [] = []
items (raw ∷ raws) = kept (split b',' raw) ++ items raws
  where
    kept : List String → List String
    kept [] = []
    kept (x ∷ xs) =
        let rest = kept xs in let item = trim x in if is_empty item then rest else item ∷ rest

abbrev or_everything : List String → List String
or_everything [] = "0.0.0.0/0" ∷ "::/0" ∷ []
or_everything (ip ∷ ips) = ip ∷ ips

module _ (texts : Texts) where
  abbrev parse_ip : Error → String → Result Error IpAddr
  parse_ip e s = elim (texts.parse_ip s) [ none ↦ err e | some ip ↦ ok ip ]

  abbrev pub max_of : IpAddr → ℕ
  max_of ip = if is_ipv6 ip then 128 else 32

  abbrev pub show_prefix : IpAddr → ℕ → String
  show_prefix ip n = append (texts.show_ip ip) (append "/" (show_number n))

  unfoldable pub allowed_ip : String → Result Error String
  unfolding split_once prefix_len show_number
  allowed_ip item =
      let (ip_text, len_text) = whole item (split_once b'/' item) in
      and_then (parse_ip invalid_allowed_ip ip_text)
        λ ip. and_then (prefix_len (max_of ip) len_text) λ len. ok (show_prefix ip len)

  unfoldable pub allowed : List String → Result Error (List String)
  unfolding allowed_ip
  allowed [] = ok []
  allowed (item ∷ rest) =
      and_then (allowed_ip item) λ ip. and_then (allowed rest) λ ips. ok (ip ∷ ips)

  unfoldable pub from_proto : WgBindDesired → Result Error Bind
  unfolding byte_len before trim check_keys is_endpoint items allowed keepalive_of
  from_proto d =
      if is_empty d.resource_id || ltb 128 (byte_len d.resource_id)
      then err invalid_resource_id
      else elim (texts.parse_uuid d.vm_id) [
        | none ↦ err invalid_vm_id
        | some vm_id ↦ and_then (parse_ip invalid_address (trim (before b'/' d.address))) λ address.
            and_then (check_keys d) λ _.
              if not (is_endpoint (trim d.endpoint))
              then err invalid_endpoint
              else and_then (allowed (items d.allowed_ips)) λ ips. ok (record {
                resource_id = d.resource_id;
                vm_id = vm_id;
                address = address;
                private_key = d.private_key;
                peer_public_key = d.peer_public_key;
                preshared_key = d.preshared_key;
                endpoint = trim d.endpoint;
                allowed_ips = or_everything ips;
                keepalive = keepalive_of d.keepalive_sec;
              })
      ]
