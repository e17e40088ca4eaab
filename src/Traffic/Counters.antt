-- ===== src/Traffic/Counters.antt =====
-- src/traffic.rs, `Traffic`: the byte counters of an instance. `u64` sums wrap, as in a release build.
use runman_agent.Prelude.{
  ℕ, ◌+◌, ◌-◌, ◌%◌, ◌^◌, String, Bool, not, ◌||◌, List, [], ◌∷◌, ltb, ◌==◌, if◌then◌else◌, str_eq,
}
pub mod Totals

pub record Traffic : Type 0 where
  pub total_in : ℕ
  pub total_out : ℕ
  pub month_in : ℕ
  pub month_out : ℕ
  pub period : String
  pub last_ifindex : ℕ
  pub last_rx : ℕ
  pub last_tx : ℕ

abbrev pub u64_mod : ℕ
u64_mod = 2 ^ 64

abbrev pub add_u64 : ℕ → ℕ → ℕ
add_u64 a b = (a + b) % u64_mod

abbrev pub default : Traffic
default = record {
  total_in = 0;
  total_out = 0;
  month_in = 0;
  month_out = 0;
  period = "";
  last_ifindex = 0;
  last_rx = 0;
  last_tx = 0;
}

-- The month counters restart when the period changes.
unfoldable pub restart : String → Traffic → Traffic
restart period t =
    if not (str_eq t.period period)
    then record t { period = period; month_in = 0; month_out = 0 }
    else t

unfoldable pub delta : Bool → ℕ → ℕ → ℕ
delta fresh cur last = if fresh || ltb cur last then cur else cur - last

unfoldable pub update : ℕ → ℕ → ℕ → String → Traffic → Traffic
unfolding restart delta
update ifindex rx tx period t0 =
    let t = restart period t0 in
    let fresh = not (ifindex == t.last_ifindex) in
    let d_out = delta fresh rx t.last_rx in
    let d_in = delta fresh tx t.last_tx in
    record t {
      total_out = add_u64 t.total_out d_out;
      total_in = add_u64 t.total_in d_in;
      month_out = add_u64 t.month_out d_out;
      month_in = add_u64 t.month_in d_in;
      last_ifindex = ifindex;
      last_rx = rx;
      last_tx = tx;
    }

-- Received and sent bytes of the current month.
unfoldable pub month : String → Traffic → ℕ × ℕ
month period t = if str_eq t.period period then (t.month_in, t.month_out) else (0, 0)
