-- ===== src/HostPolicy/Service.antt =====
-- src/hostpolicy.rs: the requests of the API of RFW.
use Prim.Native.String.{◌++◌ as append}
use runman_agent.Prelude.{
  ℕ, suc, ◌^◌, String, Bool, true, false, not, ◌&&◌, ◌||◌, Option, none, some, List, [], ◌∷◌,
  length, map, any, ltb, leb, ◌==◌, if◌then◌else◌, str_eq,
}
use runman_agent.Prelude.Int.{ℤ, pos, negsuc, ◌+ℤ◌, ◌-ℤ◌, rem_euclid, ltb_ℤ, eqb_ℤ}
use runman_agent.Prelude.Effect.{Result, ok, err, Exec, ◌>>=◌, pure, bail}
use runman_agent.Model.{is_empty, byte_len}
use runman_agent.Connlimit.Policy.{show_number}
use runman_agent.HostPolicy.{
  Error, request_failed, http_status, not_decoded, too_many_rules, invalid_rule_list, no_rule_id,
  Rule, RawRule, HttpRequest, Host, Status, Codec,
}
use runman_agent.HostPolicy.Text.{lower, trim, collect}
use runman_agent.HostPolicy.Rules.{rfw_payload}

abbrev pub supported_v010 : List String
supported_v010 =
    "all" ∷ "tcp" ∷ "udp" ∷ "http" ∷ "tls" ∷ "socks" ∷ "ssh" ∷ "fet" ∷ "wireguard" ∷ "openvpn"
    ∷ "quic" ∷ []

unfoldable pub show_int : ℤ → String
unfolding show_number
show_int (pos n) = show_number n
show_int (negsuc n) = append "-" (show_number (suc n))

-- `as i32` of a 64 bit integer.
unfoldable pub as_i32 : ℤ → ℤ
unfolding rem_euclid ◌+ℤ◌ ◌-ℤ◌
as_i32 n = pos (rem_euclid (n +ℤ pos (2 ^ 31)) (2 ^ 32)) -ℤ pos (2 ^ 31)

-- Membership in a set of identifiers.
abbrev pub contains_id : List ℤ → ℤ → Bool
contains_id ids id = any (eqb_ℤ id) ids

-- An identifier is below 1 or stands twice in the rows.
unfoldable pub has_bad_id : List ℤ → List RawRule → Bool
unfolding any
has_bad_id ids [] = false
has_bad_id ids (row ∷ rows) =
    if ltb_ℤ row.id (pos 1) || contains_id ids row.id then true else has_bad_id (row.id ∷ ids) rows

-- The version, the protocols, and whether these are known.
abbrev pub Capabilities : Type 0
Capabilities = String × List String × Bool

abbrev or_empty : Option String → String
or_empty none = ""
or_empty (some s) = s

unfoldable pub read_status : Status → Capabilities
unfolding trim lower collect byte_len
read_status status =
    let version = trim (or_empty status.api_version) in
    if is_empty version || ltb 64 (byte_len version)
    then (version, [], false)
    else elim status.supported_protocols [
      | some protocols ↦
          let parsed = collect (map lower protocols) in
          if (length parsed == 0) || ltb 32 (length parsed)
          then (version, parsed, false)
          else (version, parsed, true)
      | none ↦
          if str_eq version "0.1.0"
          then (version, collect supported_v010, true)
          else (version, [], false)
    ]

abbrev reply : Option (String × ℕ) → Result Error (String × ℕ)
reply none = err request_failed
reply (some r) = ok r

abbrev pub get_rules : String → HttpRequest
get_rules base_url = record {
  method = "GET";
  uri = append base_url "/api/rules";
  json = false;
  body = "";
}

abbrev pub get_status : String → HttpRequest
get_status base_url = record {
  method = "GET";
  uri = append base_url "/api/status";
  json = false;
  body = "";
}

abbrev pub post_rule : String → String → HttpRequest
post_rule base_url body = record {
  method = "POST";
  uri = append base_url "/api/rules";
  json = true;
  body = body;
}

abbrev pub delete_rule : String → ℤ → HttpRequest
delete_rule base_url id = record {
  method = "DELETE";
  uri = append base_url (append "/api/rules/" (show_int id));
  json = false;
  body = "";
}

abbrev some_id : Option ℤ → ℤ
some_id none = pos 0
some_id (some id) = id

-- Deletion succeeds, also where there is no such rule.
abbrev pub is_deleted : ℕ → Bool
is_deleted status = (status == 200) || (status == 204) || (status == 404)

module _ {W : Type 0} (host : Host W) (codec : Codec) (base_url : String) where
  unfoldable pub request : HttpRequest → Exec Error W (String × ℕ)
  request r w = let (answer, w1) = host.send r w in (reply answer, w1)

  unfoldable pub list_rules : Exec Error W (List RawRule)
  unfolding request has_bad_id
  list_rules = do
    (body, status) ← request (get_rules base_url)
    if not (status == 200) then bail http_status else elim (codec.decode_rules body) [
      | none ↦ bail not_decoded
      | some rows ↦
          if ltb 256 (length rows)
          then bail too_many_rules
          else if has_bad_id [] rows
          then bail invalid_rule_list
          else pure rows
    ]

  unfoldable pub capabilities : Exec Error W Capabilities
  unfolding request read_status
  capabilities = do
    (body, status) ← request (get_status base_url)
    if not (status == 200) then pure ("", [], false) else elim (codec.decode_status body) [
      | none ↦ bail not_decoded
      | some value ↦ pure (read_status value)
    ]

  abbrev pub or_default : Result Error Capabilities → Capabilities
  or_default (ok c) = c
  or_default (err e) = ("", [], false)

  -- `capabilities().await.unwrap_or_default()`
  unfoldable pub known_capabilities : Exec Error W Capabilities
  unfolding capabilities
  known_capabilities w = let (c, w1) = capabilities w in (ok (or_default c), w1)

  -- The identifier of the created rule.
  unfoldable pub create_rule : Rule → Exec Error W ℤ
  unfolding request rfw_payload as_i32
  create_rule desired = do
    (response, status) ← request (post_rule base_url (codec.encode_payload (rfw_payload desired)))
    if not (leb 200 status && ltb status 300)
        then bail http_status
        else elim (codec.decode_id response) [
          | none ↦ bail not_decoded
          | some field ↦
              let id = as_i32 (some_id field) in
              if ltb_ℤ id (pos 1) then bail no_rule_id else pure id
        ]

  unfoldable pub remove_rule : ℤ → Exec Error W Unit
  unfolding request show_int
  remove_rule id = do
    (body, status) ← request (delete_rule base_url id)
    if is_deleted status then pure tt else bail http_status
