-- ===== src/HostPolicy.antt =====
-- src/hostpolicy.rs: the firewall policy of the host, the rules of the firewall service RFW that it
-- stands for, and what reaches the machine.
use runman_agent.Prelude.{ℕ, String, Bool, Option, List}
use runman_agent.Prelude.Int.{ℤ}
pub mod Text
pub mod Rules
pub mod Normalize
pub mod Service
pub mod Abuse
pub mod Manager
pub mod Reports
pub mod Events
mod Tests

-- Why a request fails. The texts of the messages are not modelled.
pub data Error : Type 0 where
  revision_or_count invalid_key invalid_rule invalid_cidr country_count invalid_country : Error
  unsupported_ip_type interface_count invalid_interface interface_required : Error
  not_a_bridge stale_revision changed_without_revision unsupported_protocol : Error
  request_failed http_status not_decoded too_many_rules invalid_rule_list no_rule_id : Error
  not_manual is_managed changed_since_readback invalid_page_request invalid_page
        events_unsupported :
      Error
  spawn_failed command_failed unowned_chain save_failed : Error
  revision_mismatch invalid_ownership not_read not_loopback : Error
  -- The bound of the deletion loop was met: no outcome of the program.
  out_of_fuel : Error

pub record Rule : Type 0 where
  pub key : String
  pub priority : ℤ
  pub direction : String
  pub protocol : String
  pub action : String
  pub enabled : Bool
  pub port_start : ℕ
  pub port_end : Option ℕ
  pub ip_type : String
  pub ip : String
  pub countries : List String

pub record AbusePolicy : Type 0 where
  pub speedtest : Bool
  pub mining : Bool
  pub bt : Bool
  pub interfaces : List String

pub record Policy : Type 0 where
  pub revision : ℤ
  pub rules : List Rule
  pub abuse : AbusePolicy

-- A rule as RFW lists it.
pub record RawRule : Type 0 where
  pub id : ℤ
  pub priority : ℤ
  pub direction : String
  pub protocol : String
  pub action : String
  pub enabled : Bool
  pub port_start : ℕ
  pub port_end : ℕ
  pub ip_type : String
  pub ip : String
  pub countries : List String

pub record RuleReadback : Type 0 where
  pub id : ℤ
  pub priority : ℤ
  pub direction : String
  pub protocol : String
  pub action : String
  pub enabled : Bool
  pub port_start : ℕ
  pub port_end : ℕ
  pub ip_type : String
  pub ip : String
  pub countries : List String
  pub origin : String
  pub managed_key : String
  pub sync_state : String

pub record ExpectedRuleReadback : Type 0 where
  pub key : String
  pub id : ℤ
  pub sync_state : String

pub record Readback : Type 0 where
  pub status : String
  pub observed_at : ℤ
  pub rfw_api_version : String
  pub capabilities_known : Bool
  pub supported_protocols : List String
  pub policy_revision : ℤ
  pub rule_count : ℕ
  pub managed_rule_count : ℕ
  pub drift_count : ℕ
  pub missing_count : ℕ
  pub rules : List RuleReadback
  pub expected_rules : List ExpectedRuleReadback

pub record ManagedRule : Type 0 where
  pub key : String
  pub id : ℤ
  pub fingerprint : String

pub record State : Type 0 where
  pub revision : ℤ
  pub policy : Policy
  pub managed_rules : List ManagedRule

-- What `rfw_payload` puts into the JSON object of a rule.
pub record Payload : Type 0 where
  pub priority : ℤ
  pub direction : String
  pub protocol : String
  pub action : String
  pub enabled : Bool
  pub port_start : ℕ
  pub ip_type : String
  pub port_end : Option ℕ
  pub ip : Option String
  pub countries : Option (List String)

-- A request of the API of RFW.
pub record HttpRequest : Type 0 where
  pub method : String
  pub uri : String
  pub json : Bool
  pub body : String

-- The calls of `save_state`, in the directory of the state's file.
pub data FsCall : Type 0 where
  create_dir_all set_dir_mode : FsCall
  create_new set_file_mode sync_all rename : String → FsCall
  write_all : String → State → FsCall

-- What reaches the machine, which is the world `W`.
pub record Host (W : Type 0) : Type 0 where
  -- The HTTP client: nothing if the request fails or times out, else the body and the status.
  pub send : HttpRequest → W → Option (String × ℕ) × W
  -- `Command::output`: nothing if the program does not start, else its success and standard output.
  pub run : String → List String → W → Option (Bool × String) × W
  -- The interface exists and is a bridge.
  pub is_bridge : String → W → Bool × W
  -- The file `disable_ipv6` of all interfaces.
  pub disable_ipv6 : W → Option String × W
  pub file_call : FsCall → W → Bool × W
  -- `uuid::Uuid::new_v4`, in a file name
  pub new_temp : W → String × W
  pub clock : W → ℤ × W

-- The fields that are read of the status of RFW; of the protocols those that are texts.
pub record Status : Type 0 where
  pub api_version : Option String
  pub supported_protocols : Option (List String)

-- The crate `serde_json`.
pub record Codec : Type 0 where
  pub encode_payload : Payload → String
  pub encode_policy : Policy → String
  pub decode_rules : String → Option (List RawRule)
  -- Nothing if the text is no JSON, else the field `id` if it is a 64 bit integer.
  pub decode_id : String → Option (Option ℤ)
  pub decode_status : String → Option Status

-- The state in memory, and the rest of the machine.
pub record Ctx (W : Type 0) : Type 0 where
  pub state : State
  pub world : W
