-- ===== src/HostPolicy/Tests.antt =====
-- Tests of the models of src/hostpolicy.rs, on an RFW that lists two rules and logs deletions.
use Prim.Native.Char.{code}
use Prim.Native.String.{◌++◌ as append}
use runman_agent.Prelude.{
  ℕ, zero, suc, ◌^◌, ◌≤◌, ◌≡◌, refl, ap, String, Bool, true, false, not, ◌&&◌, ◌||◌, Option, none,
  some, List, [], ◌∷◌, any, arith, ltb, ◌==◌, if◌then◌else◌, str_eq, Bool-cases, length, All,
}
use runman_agent.Prelude.Int.{ℤ, pos, eqb_ℤ, eq_of_parts}
use runman_agent.Prelude.Effect.{Result, ok, err, is_ok}
use runman_agent.Model.{byte_len}
use runman_agent.Connlimit.Policy.{IpAddr, v4, v6, Texts}
use runman_agent.HostPolicy.{
  Rule, AbusePolicy, Policy, RawRule, ManagedRule, State, HttpRequest, Host, Codec, Ctx,
}
use runman_agent.HostPolicy.Text.{lower, trim, normalize_cidr}
use runman_agent.HostPolicy.Text.Cidr.{Readable, is_clean, lacks, IsAddress}
use runman_agent.HostPolicy.Normalize.{
  has_bad_words, is_invalid, normalize_place, normalize_lowered, normalize_rule, normalize_rules,
  normalize_abuse, normalize_policy,
}
use runman_agent.HostPolicy.Normalize.Fixed.{normalize_policy-again}
pub mod Machine
mod Reports

-- Addresses in unary, behind a digit for the version.
unfoldable pub stars : ℕ → String
stars zero = ""
stars (suc n) = String.◌∷◌ "." (stars n)

unfoldable pub count : String → ℕ
count String.[] = 0
count (String.◌∷◌ c s) = suc (count s)

unfoldable pub show_ip : IpAddr → String
unfolding stars
show_ip (v4 n) = String.◌∷◌ "4" (stars n)
show_ip (v6 n) = String.◌∷◌ "6" (stars n)

abbrev bounded : (ℕ → IpAddr) → ℕ → ℕ → Option IpAddr
bounded f bound n = if ltb n bound then some (f n) else none

unfoldable pub parse_ip : String → Option IpAddr
unfolding count
parse_ip String.[] = none
parse_ip (String.◌∷◌ c s) =
    if code c == b'4' then bounded v4 (2 ^ 32) (count s) else bounded v6 (2 ^ 128) (count s)

abbrev pub texts : Texts
texts = record { parse_ip = parse_ip; show_ip = show_ip; parse_uuid = λ s. some s }

count-stars : (n : ℕ) → count (stars n) ≡ n
unfolding count stars
count-stars zero = refl
count-stars (suc n) = ap suc (count-stars n)

parse_ip-show_ip : (ip : IpAddr) → IsAddress ip → parse_ip (show_ip ip) ≡ some ip
unfolding parse_ip show_ip
parse_ip-show_ip (v4 n) h = ground (arith, count-stars n)
parse_ip-show_ip (v6 n) h = ground (arith, count-stars n)

parse_ip-IsAddress : (s : String) (ip : IpAddr) → parse_ip s ≡ some ip → IsAddress ip
unfolding parse_ip
parse_ip-IsAddress String.[] ip e = ground arith
parse_ip-IsAddress (String.◌∷◌ c s) (v4 n) e = ground arith
parse_ip-IsAddress (String.◌∷◌ c s) (v6 n) e = ground arith

is_clean-stars : (n : ℕ) → is_clean (stars n) ≡ true
unfolding stars is_clean
is_clean-stars zero = refl
is_clean-stars (suc n) = is_clean-stars n

lacks-stars : (n : ℕ) → lacks b'/' (stars n) ≡ true
unfolding stars lacks
lacks-stars zero = refl
lacks-stars (suc n) = lacks-stars n

is_clean-show_ip : (ip : IpAddr) → is_clean (show_ip ip) ≡ true
unfolding show_ip is_clean
is_clean-show_ip (v4 n) = is_clean-stars n
is_clean-show_ip (v6 n) = is_clean-stars n

lacks-show_ip : (ip : IpAddr) → lacks b'/' (show_ip ip) ≡ true
unfolding show_ip lacks
lacks-show_ip (v4 n) = lacks-stars n
lacks-show_ip (v6 n) = lacks-stars n

pub readable : Readable texts
readable = record {
  parse_show = parse_ip-show_ip;
  parse_bits = parse_ip-IsAddress;
  show_clean = is_clean-show_ip;
  show_lacks = lacks-show_ip;
}

abbrev pub web : Rule
web = record {
  key = "web";
  priority = pos 10;
  direction = "in";
  protocol = "TCP";
  action = "block";
  enabled = true;
  port_start = 80;
  port_end = some 80;
  ip_type = "Any";
  ip = "unused";
  countries = [];
}

abbrev pub no_abuse : AbusePolicy
no_abuse = record { speedtest = false; mining = false; bt = false; interfaces = [] }

abbrev pub asked : Policy
asked = record { revision = pos 2; rules = web ∷ []; abuse = no_abuse }

-- The words in lower case, the range of one port a single port, the address gone.
abbrev pub web_normal : Rule
web_normal = record web { protocol = "tcp"; port_end = none; ip_type = "any"; ip = "" }

abbrev pub normal : Policy
normal = record asked { rules = web_normal ∷ [] }

pub normalize_asked : normalize_policy texts asked ≡ ok normal
unfolding normalize_policy normalize_rules normalize_abuse normalize_rule normalize_lowered
    normalize_place has_bad_words is_invalid
normalize_asked = refl

normalize_policy-again_example : normalize_policy texts normal ≡ ok normal
normalize_policy-again_example = normalize_policy-again texts readable asked normalize_asked
