-- ===== src/Notif/Attributes.antt =====
-- notif.rs: the attributes of a notification that is asked for.
use ads_rs.Prelude.{ℕ, ◌/◌}

pub data TransmissionMode : Type 0 where
  no_trans server_cycle server_on_change : TransmissionMode

-- `trans_mode as u32`
unfoldable pub trans_mode_code : TransmissionMode → ℕ
trans_mode_code no_trans = 0
trans_mode_code server_cycle = 3
trans_mode_code server_on_change = 4

-- A `Duration`, in nanoseconds.
abbrev pub Duration : Type 0
Duration = ℕ

abbrev pub as_millis : Duration → ℕ
as_millis d = d / 1000000

pub record Attributes : Type 0 where
  pub length_ : ℕ
  pub trans_mode : TransmissionMode
  pub max_delay : Duration
  pub cycle_time : Duration
