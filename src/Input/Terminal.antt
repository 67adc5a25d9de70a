-- ===== src/Input/Terminal.antt =====
-- `init_input` of mp2/input.c. What fcntl, tcgetattr and tcsetattr return is given; opening the
-- controller's port is not tested there.
use computer_systems_enginee.Base.{ℕ, Bool, false, ◌==◌, if◌then◌else◌}

pub record Terminal : Type 0 where
  pub fcntl : ℕ
  pub tcgetattr : ℕ
  pub tcsetattr : ℕ

-- Whether it returns 0.
unfoldable pub init_input : Terminal → Bool
init_input t = if t.fcntl == 0 then if t.tcgetattr == 0 then t.tcsetattr == 0 else false else false
