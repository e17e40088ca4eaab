-- ===== src/Config.antt =====
-- src/config.rs: the configuration, its validation and the store that keeps it.
use Prim.Native.Char.{code}
use runman_agent.Prelude.{
  ℕ, zero, suc, ◌+◌, ◌-◌, ◌*◌, String, Bool, true, false, not, ◌&&◌, ◌||◌, Option, none, some, List,
  [], ◌∷◌, ltb, leb, ◌==◌, if◌then◌else◌, str_eq,
}
use runman_agent.Prelude.Int.{ℤ, pos, negsuc, ◌+ℤ◌, ◌*ℤ◌, leb_ℤ, ltb_ℤ}
use runman_agent.Prelude.Effect.{Result, ok, err, Exec, ◌>>=◌, ◌>>◌, lift, continue}
use runman_agent.Model.{has_control, is_empty, byte_len, starts_with}
use runman_agent.Traffic.Schedule.{ResetMode, fixed, Schedule}
pub mod Valid
pub mod Stored
mod Tests

-- Why a configuration is refused. The texts of the messages are not modelled.
pub data Error : Type 0 where
  platform_url token_length web_listen rfw_addr update_url image_base_url : Error
  image_base_url_space reset_day utc_offset max_forwards token_control not_written not_read
        not_parsed :
      Error

pub data BackendKind : Type 0 where
  fake container : BackendKind

pub record NetworkConfig : Type 0 where
  pub bridge : String
  pub ipv4_subnet : String
  pub ipv6_mode : String
  pub ipv6_prefix : String
  pub ipv6_ndp_uplink : String
  pub ipv6_snat_prefix : String
  pub dns : List String
  pub veth_prefix : String
  pub wg_prefix : String
  pub wg_table_base : ℕ
  pub nft_table : String

abbrev pub default_network : NetworkConfig
default_network = record {
  bridge = "rmbr0";
  ipv4_subnet = "10.91.0.0/20";
  ipv6_mode = "none";
  ipv6_prefix = "";
  ipv6_ndp_uplink = "";
  ipv6_snat_prefix = "fd91:cafe:cafe:10::/64";
  dns = "1.1.1.1" ∷ "8.8.8.8" ∷ [];
  veth_prefix = "rv";
  wg_prefix = "rw";
  wg_table_base = 20000;
  nft_table = "runman";
}

pub record Config : Type 0 where
  pub platform_url : String
  pub token : String
  pub host : String
  pub virt_label : String
  pub data_dir : String
  pub backend : BackendKind
  pub image_base_url : String
  pub tun : Bool
  pub traffic_reset_mode : ResetMode
  pub traffic_reset_day : ℕ
  pub traffic_timezone : String
  pub max_forwards : ℕ
  pub bandwidth_mbps : ℕ
  pub web_listen : String
  pub web_user : String
  pub web_password_hash : String
  pub rfw_addr : String
  pub update_url : String
  pub auto_update : Bool
  pub network : NetworkConfig

abbrev pub default_config : Config
default_config = record {
  platform_url = "https://hosting.fuckip.me:443";
  token = "";
  host = "";
  virt_label = "container";
  data_dir = "/var/lib/runman-agent";
  backend = container;
  image_base_url = "https://alpine-incus-base.428048.xyz/runman";
  tun = true;
  traffic_reset_mode = ResetMode.fixed;
  traffic_reset_day = 1;
  traffic_timezone = "+00:00";
  max_forwards = 20;
  bandwidth_mbps = 0;
  web_listen = "0.0.0.0:8792";
  web_user = "admin";
  web_password_hash = "";
  rfw_addr = "127.0.0.1:7734";
  update_url = "https://github.com/podcctv/runman-agent/releases/download/continuous-rs";
  auto_update = true;
  network = default_network;
}

abbrev pub max_forwards_limit : ℕ
max_forwards_limit = 65535

unfoldable pub is_http : String → Bool
unfolding starts_with
is_http url = starts_with url "https://" || starts_with url "http://"

-- `char::is_whitespace`
abbrev pub is_whitespace : ℕ → Bool
is_whitespace c =
    (leb 9 c && leb c 13)
    || (c == 32)
    || (c == 133)
    || (c == 160)
    || (c == 5760)
    || (leb 8192 c && leb c 8202)
    || (c == 8232)
    || (c == 8233)
    || (c == 8239)
    || (c == 8287)
    || (c == 12288)

unfoldable pub has_whitespace : String → Bool
has_whitespace String.[] = false
has_whitespace (String.◌∷◌ c s) = if is_whitespace (code c) then true else has_whitespace s

-- `str::parse::<i32>` of a text of two bytes: digits, with a sign before them or not.
unfoldable pub digits : ℕ → String → Option ℕ
digits n String.[] = some n
digits n (String.◌∷◌ c s) =
    if leb b'0' (code c) && leb (code c) b'9' then digits (n * 10 + (code c - b'0')) s else none

abbrev pub signed : ℤ → Option ℕ → Option ℤ
signed sign none = none
signed sign (some n) = some (sign *ℤ pos n)

unfoldable pub parse_digits : String → Option ℕ
unfolding digits
parse_digits String.[] = none
parse_digits (String.◌∷◌ c s) = digits 0 (String.◌∷◌ c s)

unfoldable pub parse_i32 : String → Option ℤ
unfolding parse_digits
parse_i32 String.[] = none
parse_i32 (String.◌∷◌ c s) =
    if code c == b'-'
    then signed (negsuc 0) (parse_digits s)
    else if code c == b'+'
    then signed (pos 1) (parse_digits s)
    else signed (pos 1) (parse_digits (String.◌∷◌ c s))

-- `split_once(':')`
unfoldable pub split_colon : String → Option (String × String)
split_colon String.[] = none
split_colon (String.◌∷◌ c s) =
    if code c == b':'
    then some ("", s)
    else elim (split_colon s) [ none ↦ none | some halves ↦ some (String.◌∷◌ c halves.0, halves.1) ]

-- Minutes east of UTC, if they are a time zone's.
unfoldable pub offset_of : ℤ → ℤ → ℤ → Option ℤ
offset_of sign h m =
    let total = sign *ℤ (h *ℤ pos 60 +ℤ m) in
    if ltb_ℤ m (pos 60) && leb_ℤ (negsuc 719) total && leb_ℤ total (pos 840)
    then some total
    else none

unfoldable pub parse_halves : ℤ → String × String → Option ℤ
unfolding parse_i32 offset_of byte_len
parse_halves sign (h, m) =
    if not (byte_len h == 2) || not (byte_len m == 2) then none else elim (parse_i32 h) [
      | none ↦ none
      | some hours ↦ elim (parse_i32 m) [
        | none ↦ none
        | some minutes ↦ offset_of sign hours minutes
      ]
    ]

unfoldable pub parse_signed : ℤ → String → Option ℤ
unfolding split_colon parse_halves
parse_signed sign rest = elim (split_colon rest) [
  | none ↦ none
  | some halves ↦ parse_halves sign halves
]

unfoldable pub parse_utc_offset : String → Option ℤ
unfolding parse_signed
parse_utc_offset String.[] = none
parse_utc_offset (String.◌∷◌ c s) =
    if code c == b'+'
    then parse_signed (pos 1) s
    else if code c == b'-'
    then parse_signed (negsuc 0) s
    else none

abbrev pub unwrap_or : {A : Type 0} → Option A → A → A
unwrap_or none a = a
unwrap_or (some b) a = b

abbrev pub is_none : {A : Type 0} → Option A → Bool
is_none none = true
is_none (some a) = false

unfoldable pub traffic_schedule : Config → Schedule
unfolding parse_utc_offset
traffic_schedule c = record {
  mode = c.traffic_reset_mode;
  reset_day = c.traffic_reset_day;
  utc_offset_min = unwrap_or (parse_utc_offset c.traffic_timezone) (pos 0);
}

-- The calls of `write_atomic`: the temporary file is opened and emptied, written, synchronised, and
-- renamed to the file.
pub data FileCall : Type 0 where
  open_temp : FileCall
  write_all : String → FileCall
  sync_all rename : FileCall

pub record FileHost (W : Type 0) : Type 0 where
  pub call : FileCall → W → Bool × W

module _ {W : Type 0} (host : FileHost W) where
  unfoldable pub call_file : FileCall → Exec Error W Unit
  call_file c w = let (done, w1) = host.call c w in (if done then ok tt else err not_written, w1)

  unfoldable pub write_atomic : String → Exec Error W Unit
  unfolding call_file
  write_atomic data_text = do
    call_file open_temp
    call_file (write_all data_text)
    call_file sync_all
    call_file rename

  -- The file is written if the store has one. `encode` is the crate `toml`.
  unfoldable pub persist : (Config → Option String) → Bool → Config → Exec Error W Unit
  unfolding write_atomic
  persist encode has_path next w =
      if has_path
      then elim (encode next) [ none ↦ (err not_written, w) | some text ↦ write_atomic text w ]
      else (ok tt, w)

-- `is_socket_addr`: whether the standard library reads the text as `ip:port`.
module _ (is_socket_addr : String → Bool) where
  unfoldable pub validate : Config → Result Error Unit
  unfolding is_http has_whitespace parse_utc_offset has_control byte_len
  validate c =
      if not (is_http c.platform_url)
      then err platform_url
      else if not (is_empty c.token)
          && not (leb 16 (byte_len c.token) && leb (byte_len c.token) 512)
      then err token_length
      else if not (is_empty c.web_listen) && not (is_socket_addr c.web_listen)
      then err web_listen
      else if not (is_socket_addr c.rfw_addr)
      then err rfw_addr
      else if not (is_http c.update_url)
      then err update_url
      else if not (is_http c.image_base_url)
      then err image_base_url
      else if has_whitespace c.image_base_url
      then err image_base_url_space
      else if not (leb 1 c.traffic_reset_day && leb c.traffic_reset_day 28)
      then err reset_day
      else if is_none (parse_utc_offset c.traffic_timezone)
      then err utc_offset
      else if ltb max_forwards_limit c.max_forwards
      then err max_forwards
      else if has_control c.token
      then err token_control
      else ok tt

  -- `Store::update`: the configuration in memory, and the world with its file.
  unfoldable pub update :
      {W : Type 0}
      → FileHost W
      → (Config → Option String)
      → Bool
      → (Config → Config)
      → Exec Error (Config × W) Unit
  unfolding validate persist
  update host encode has_path f (c, w) =
      let next = f c in
      let (written, w1) = persist host encode has_path next w in
      elim (validate next) [
        | err e ↦ (err e, (c, w))
        | ok u ↦ elim written [ err e ↦ (err e, (c, w1)) | ok v ↦ (ok tt, (next, w1)) ]
      ]

-- `Store::load`: the file, if it is read, and what it holds, if the crate `toml` reads it.
unfoldable pub load :
    (String → Bool) → (String → Option Config) → Option String → Result Error Config
unfolding validate
load is_socket_addr parse file = elim file [
  | none ↦ err not_read
  | some raw ↦ elim (parse raw) [
    | none ↦ err not_parsed
    | some c ↦ elim (validate is_socket_addr c) [ err e ↦ err e | ok u ↦ ok c ]
  ]
]
