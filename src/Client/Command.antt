-- ===== src/Client/Command.antt =====
-- client.rs: the ADS commands.
use ads_rs.Prelude.{ℕ, ◌≡◌, ◌^◌, ◌<◌, String, arith}

pub data Command : Type 0 where
  dev_info read write read_write read_state write_control add_notification delete_notification
        notification :
      Command

-- `cmd as u16`
unfoldable pub code : Command → ℕ
code dev_info = 1
code read = 2
code write = 3
code read_write = 9
code read_state = 4
code write_control = 5
code add_notification = 6
code delete_notification = 7
code notification = 8

unfoldable pub action : Command → String
action dev_info = "get device info"
action read = "read data"
action write = "write data"
action read_write = "write and read data"
action read_state = "read state"
action write_control = "write control"
action add_notification = "add notification"
action delete_notification = "delete notification"
action notification = "notification"

pub code-lt : (c : Command) → code c < 2 ^ 16
unfolding code
code-lt dev_info = omega arith
code-lt _ = omega arith

pub code-injective : (c d : Command) → code c ≡ code d → c ≡ d
unfolding code
code-injective c d h = ground arith
