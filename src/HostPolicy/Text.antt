-- ===== src/HostPolicy/Text.antt =====
-- src/hostpolicy.rs: what it uses of the texts of the standard library, and its CIDR networks.
use Prim.Native.Char.{Char, char, code, IsScalar}
use Prim.Native.String.{◌++◌ as append}
use runman_agent.Prelude.{
  ℕ, zero, suc, ◌+◌, ◌-◌, ◌*◌, ◌/◌, ◌^◌, ◌≡◌, refl, arith, String, Bool, true, false, not, ◌&&◌,
  ◌||◌, Option, none, some, List, [], ◌∷◌, map, ltb, leb, ◌==◌, if◌then◌else◌, str_eq, Bool-cases,
  inl, inr,
}
use runman_agent.Config.{is_whitespace, parse_digits}
use runman_agent.Connlimit.Policy.{IpAddr, v4, v6, Texts, show_number}
pub mod Cidr

abbrev is_upper : ℕ → Bool
is_upper n = leb b'A' n && leb n b'Z'

abbrev is_lower : ℕ → Bool
is_lower n = leb b'a' n && leb n b'z'

pub lower-IsScalar : (n : ℕ) → is_upper n ≡ true → IsScalar (n + 32)
lower-IsScalar n h = ground arith

pub upper-IsScalar : (n : ℕ) → is_lower n ≡ true → IsScalar (n - 32)
upper-IsScalar n h = ground arith

unfoldable pub lower_char : Char → Char
unfolding Bool-cases
lower_char (char n p) = elim (Bool-cases (is_upper n)) [
  | inl h ↦ char (n + 32) (lower-IsScalar n h)
  | inr h ↦ char n p
]

unfoldable pub upper_char : Char → Char
unfolding Bool-cases
upper_char (char n p) = elim (Bool-cases (is_lower n)) [
  | inl h ↦ char (n - 32) (upper-IsScalar n h)
  | inr h ↦ char n p
]

-- `to_ascii_lowercase`
unfoldable pub lower : String → String
unfolding lower_char
lower String.[] = ""
lower (String.◌∷◌ c s) = String.◌∷◌ (lower_char c) (lower s)

-- `to_ascii_uppercase`
unfoldable pub upper : String → String
unfolding upper_char
upper String.[] = ""
upper (String.◌∷◌ c s) = String.◌∷◌ (upper_char c) (upper s)

lower_char_twice : (c : Char) → lower_char (lower_char c) ≡ lower_char c
unfolding lower_char
lower_char_twice (char n p) = ground arith

upper_char_twice : (c : Char) → upper_char (upper_char c) ≡ upper_char c
unfolding upper_char
upper_char_twice (char n p) = ground arith

pub lower_twice : (s : String) → lower (lower s) ≡ lower s
unfolding lower
lower_twice String.[] = refl
lower_twice (String.◌∷◌ c s) = cc (lower_char_twice c, lower_twice s)

pub upper_twice : (s : String) → upper (upper s) ≡ upper s
unfolding upper
upper_twice String.[] = refl
upper_twice (String.◌∷◌ c s) = cc (upper_char_twice c, upper_twice s)

unfoldable pub trim_start : String → String
trim_start String.[] = ""
trim_start (String.◌∷◌ c s) = if is_whitespace (code c) then trim_start s else String.◌∷◌ c s

unfoldable pub trim_end : String → String
trim_end String.[] = ""
trim_end (String.◌∷◌ c s) =
    let rest = trim_end s in
    if is_whitespace (code c) && str_eq rest "" then "" else String.◌∷◌ c rest

unfoldable pub trim : String → String
unfolding trim_start trim_end
trim s = trim_start (trim_end s)

-- The order of texts, which is that of their code points.
unfoldable pub str_lt : String → String → Bool
str_lt String.[] String.[] = false
str_lt String.[] (String.◌∷◌ d t) = true
str_lt (String.◌∷◌ c s) String.[] = false
str_lt (String.◌∷◌ c s) (String.◌∷◌ d t) =
    if ltb (code c) (code d) then true else if code c == code d then str_lt s t else false

-- A `BTreeSet` of texts is a list in ascending order.
unfoldable pub insert_text : String → List String → List String
unfolding str_lt
insert_text x [] = x ∷ []
insert_text x (y ∷ ys) =
    if str_lt x y then x ∷ y ∷ ys else if str_lt y x then y ∷ insert_text x ys else y ∷ ys

-- The set of the texts of a list.
unfoldable pub collect : List String → List String
unfolding insert_text
collect [] = []
collect (x ∷ xs) = insert_text x (collect xs)

-- `split_once` at a character.
unfoldable pub split_once : ℕ → String → Option (String × String)
split_once d String.[] = none
split_once d (String.◌∷◌ c s) = if code c == d then some ("", s) else elim (split_once d s) [
  | none ↦ none
  | some halves ↦ some (String.◌∷◌ c halves.0, halves.1)
]

-- `parse::<u8>`
abbrev fits_u8 : Option ℕ → Option ℕ
fits_u8 none = none
fits_u8 (some n) = if leb n 255 then some n else none

unfoldable pub parse_u8 : String → Option ℕ
unfolding parse_digits
parse_u8 String.[] = none
parse_u8 (String.◌∷◌ c s) =
    fits_u8 (if code c == b'+' then parse_digits s else parse_digits (String.◌∷◌ c s))

-- The number with all but the first `prefix` of its `width` bits cleared: `&` with the mask.
unfoldable pub masked : ℕ → ℕ → ℕ → ℕ
masked width prefix n = n / 2 ^ (width - prefix) * 2 ^ (width - prefix)

module _ (texts : Texts) where
  -- An address in the network, and how many bits it has.
  unfoldable pub network : IpAddr → ℕ → Option IpAddr
  unfolding masked
  network (v4 n) prefix = if leb prefix 32 then some (v4 (masked 32 prefix n)) else none
  network (v6 n) prefix = if leb prefix 128 then some (v6 (masked 128 prefix n)) else none

  unfoldable pub show_cidr : Option IpAddr → ℕ → Option String
  show_cidr none prefix = none
  show_cidr (some ip) prefix = some (append (texts.show_ip ip) (append "/" (show_number prefix)))

  unfoldable pub normalize_parts : String → String → Option String
  unfolding parse_u8 network show_cidr
  normalize_parts address prefix = elim (parse_u8 prefix) [
    | none ↦ none
    | some p ↦ elim (texts.parse_ip address) [ none ↦ none | some ip ↦ show_cidr (network ip p) p ]
  ]

  -- Nothing where the source returns an error.
  unfoldable pub normalize_cidr : String → Option String
  unfolding trim split_once normalize_parts
  normalize_cidr value = elim (split_once b'/' (trim value)) [
    | none ↦ none
    | some halves ↦ normalize_parts halves.0 halves.1
  ]
