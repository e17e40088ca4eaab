-- ===== src/HostPolicy/Events.antt =====
-- src/hostpolicy.rs: `Manager::events`, the bounds of a page of events, and the cursor in the URI.
use Prim.Native.Char.{Char, code}
use Prim.Native.String.{◌++◌ as append, char_at}
use runman_agent.Prelude.{
  ℕ, ◌+◌, ◌/◌, ◌%◌, String, Bool, true, false, not, ◌&&◌, ◌||◌, Option, none, some, List, [], ◌∷◌,
  length, any, ltb, leb, ◌==◌, if◌then◌else◌,
}
use runman_agent.Prelude.Int.{ℤ, pos, leb_ℤ}
use runman_agent.Prelude.Effect.{Result, ok, err, Exec, ◌>>=◌, ◌>>◌, pure, bail, lift, continue}
use runman_agent.Model.{is_empty, byte_len}
use runman_agent.Connlimit.Policy.{Texts, is_some, show_number}
use runman_agent.HostPolicy.{
  Error, events_unsupported, http_status, not_decoded, invalid_page_request, invalid_page,
  HttpRequest, Host, Codec,
}
use runman_agent.HostPolicy.Normalize.{one_of}
use runman_agent.HostPolicy.Service.{request}
pub mod Bounds

pub record Event : Type 0 where
  pub sequence : ℕ
  pub cursor : String
  pub observed_at : ℤ
  pub source_ip : String
  pub source_port : ℕ
  pub destination_ip : String
  pub destination_port : ℕ
  pub transport : String
  pub app_protocol : String
  pub direction : String
  pub action : String
  pub rule_index : ℕ
  pub rule_id : Option ℕ
  pub rule_protocol : Option String
  pub rule_action : Option String
  pub rule_countries : List String

pub record EventPage : Type 0 where
  pub instance_id : String
  pub next_cursor : String
  pub cursor_reset : Bool
  pub dropped : ℕ
  pub dropped_total : ℕ
  pub events : List Event

unfoldable pub is_bad_event : Texts → Event → Bool
unfolding byte_len any
is_bad_event texts e =
    (e.sequence == 0)
    || leb_ℤ e.observed_at (pos 0)
    || ltb 160 (byte_len e.cursor)
    || not (is_some (texts.parse_ip e.source_ip))
    || not (is_some (texts.parse_ip e.destination_ip))
    || not (one_of ("in" ∷ "out" ∷ []) e.direction)
    || not (one_of ("pass" ∷ "block" ∷ []) e.action)
    || not (one_of ("tcp" ∷ "udp" ∷ "unknown" ∷ []) e.transport)
    || ltb 30 (length e.rule_countries)

unfoldable pub check_page : Texts → ℕ → EventPage → Result Error EventPage
unfolding is_bad_event any byte_len
check_page texts limit page =
    if is_empty page.instance_id
      || ltb 80 (byte_len page.instance_id)
      || ltb 160 (byte_len page.next_cursor)
      || ltb limit (length page.events)
    then err invalid_page
    else if any (is_bad_event texts) page.events
    then err invalid_page
    else ok page

-- Bytes that stand for themselves in a URI.
abbrev is_unreserved : ℕ → Bool
is_unreserved b =
    (leb b'0' b && leb b b'9')
    || (leb b'a' b && leb b b'z')
    || (leb b'A' b && leb b b'Z')
    || (b == b'-')
    || (b == b'_')
    || (b == b'.')
    || (b == b'~')

abbrev hex_digit : ℕ → Char
hex_digit n = char_at "0123456789ABCDEF" n

-- The bytes of a character in UTF-8.
unfoldable pub utf8 : ℕ → List ℕ
utf8 n =
    if ltb n 128
    then n ∷ []
    else if ltb n 2048
    then (192 + n / 64) ∷ (128 + n % 64) ∷ []
    else if ltb n 65536
    then (224 + n / 4096) ∷ (128 + n / 64 % 64) ∷ (128 + n % 64) ∷ []
    else (240 + n / 262144) ∷ (128 + n / 4096 % 64) ∷ (128 + n / 64 % 64) ∷ (128 + n % 64) ∷ []

unfoldable pub escape : List ℕ → String → String
escape [] rest = rest
escape (b ∷ bs) rest =
    String.◌∷◌ "%"
      (String.◌∷◌ (hex_digit (b / 16)) (String.◌∷◌ (hex_digit (b % 16)) (escape bs rest)))

-- An unreserved byte is a character of its own.
unfoldable pub url_encode : String → String
unfolding utf8 escape
url_encode String.[] = ""
url_encode (String.◌∷◌ c s) =
    let rest = url_encode s in
    if is_unreserved (code c) then String.◌∷◌ c rest else escape (utf8 (code c)) rest

module _ {W : Type 0} (host : Host W) (base_url : String) where
  abbrev get_events : String → ℕ → HttpRequest
  get_events cursor limit = record {
    method = "GET";
    uri = append base_url (
        append "/api/events?cursor="
          (append (url_encode cursor) (append "&limit=" (show_number limit))));
    json = false;
    body = "";
  }

  module _ (texts : Texts) (codec : Codec) (decode_page : String → Option EventPage) where
    unfoldable pub read_page : ℕ → String × ℕ → Result Error EventPage
    unfolding check_page
    read_page limit (body, status) =
        if status == 404
        then err events_unsupported
        else if not (status == 200)
        then err http_status
        else elim (decode_page body) [
          | none ↦ err not_decoded
          | some page ↦ check_page texts limit page
        ]

    unfoldable pub events : String → ℕ → Exec Error W EventPage
    unfolding byte_len url_encode show_number request read_page
    events cursor limit =
        if ltb 160 (byte_len cursor) || not (leb 1 limit && leb limit 100)
        then bail invalid_page_request
        else (do
          answer ← request host codec base_url (get_events cursor limit)
          lift (read_page limit answer))
