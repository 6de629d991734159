-- ===== src/Config/Range.antt =====
-- src/modules/config/ConfigManager.cpp: the range of its numbers.
use long.Base.{ltb, ltb→lt, ltb→le, ℕ, ◌<◌, ◌^◌, Bool-cases, inl, inr, List, arith}
use long.Base.Int.{ℤ, IsI32, to_u32, of_u32, to_u32-lt}
use long.Json.{Node, int_or}
use long.Config.{CameraConf, ConfigManager, int_in}

of_u32-IsI32 : (w : ℕ) → w < 2 ^ 32 → IsI32 (of_u32 w)
of_u32-IsI32 w h = elim (Bool-cases (ltb w (2 ^ 31))) [
  | inl t ↦ rw t (ltb→lt w (2 ^ 31) t)
  | inr t ↦ rw t (ground (arith, ltb→le w (2 ^ 31) t))
]

-- The numbers are those of their C++ types.
abbrev IsCamera : CameraConf → Type 0
IsCamera c = IsI32 c.width × IsI32 c.height × IsI32 c.fps

abbrev pub InRange : ConfigManager → Type 0
InRange c = IsCamera c.camera × (c.network.port < 2 ^ 16) × IsI32 c.serial.baud

module _ (to_long : List ℕ → ℤ) where
  pub int_in-IsI32 : (v : Node) (z : ℤ) → IsI32 (int_in to_long v z)
  int_in-IsI32 v z = of_u32-IsI32 (to_u32 (int_or to_long v z)) (to_u32-lt (int_or to_long v z))
