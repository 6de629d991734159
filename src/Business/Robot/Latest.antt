-- ===== src/Business/Robot/Latest.antt =====
-- `RobotController::handleCommand` over a run of commands, and a description by the commands alone.
use long.Base.{
  ℕ, ◌≡◌, refl, ap, ◌∙◌, Bool, true, false, List, [], ◌∷◌, Option, none, some, if◌then◌else◌, ◌==◌,
  arith,
}
use long.Base.Int.{pos}
use long.Model.{RobotState, RobotStatus}
use long.Network.Frame.{
  Command, CmdId, cmd_code, cmd_fan, cmd_buzzer, cmd_relay, cmd_led, cmd_mode, cmd_estop,
}
use long.Business.Robot.{
  is_on, handle_command, set_fan, set_buzzer, set_relay, set_led, emergency_stop, set_speed,
}

abbrev pub handle_all : RobotState → List Command → RobotState
handle_all s [] = s
handle_all s (c ∷ cs) = handle_all (handle_command s c) cs

-- The value of the last command of this kind, if there is one.
abbrev pub latest : CmdId → List Command → Option ℕ
latest id [] = none
latest id (c ∷ cs) = elim (latest id cs) [
  | some v ↦ some v
  | none ↦ if c.cmd_id == cmd_code id then some c.value else none
]

-- What it sets by `f`, or `d` where there is none.
abbrev pub value_or {ℓ} : {A : Type ℓ} → (ℕ → A) → A → Option ℕ → A
value_or f d none = d
value_or f d (some v) = f v

latest-step {ℓ} :
    {A : Type ℓ} (f : ℕ → A) (d : A) (id : CmdId) (c : Command) (cs : List Command)
    → value_or f (if c.cmd_id == cmd_code id then f c.value else d) (latest id cs)
      ≡ value_or f d (latest id (c ∷ cs))
latest-step f d id c cs = go (latest id cs) (c.cmd_id == cmd_code id)
  where
    go :
        (o : Option ℕ) (b : Bool)
        → value_or f (if b then f c.value else d) o
          ≡ value_or f d (elim o [ some v ↦ some v | none ↦ if b then some c.value else none ])
    go none true = refl
    go none false = refl
    go (some v) b = refl

-- A register that one command sets and no other changes.
module _ {ℓ} {A : Type ℓ} (reg : RobotState → A) (f : ℕ → A) (id : CmdId)
    (step : (s : RobotState) (c : Command)
      → reg (handle_command s c) ≡ (if c.cmd_id == cmd_code id then f c.value else reg s)) where
  register-latest :
      (s : RobotState) (cs : List Command)
      → reg (handle_all s cs) ≡ value_or f (reg s) (latest id cs)
  register-latest s [] = refl
  register-latest s (c ∷ cs) =
      register-latest (handle_command s c) cs
      ∙ ap (λ d. value_or f d (latest id cs)) (step s c)
      ∙ latest-step f (reg s) id c cs

fan_step :
    (s : RobotState) (c : Command)
    → (handle_command s c).actuators.fan
      ≡ (if c.cmd_id == cmd_code cmd_fan then is_on c.value else s.actuators.fan)
unfolding handle_command set_fan set_buzzer set_relay set_led emergency_stop set_speed
fan_step s c = ground arith

buzzer_step :
    (s : RobotState) (c : Command)
    → (handle_command s c).actuators.buzzer
      ≡ (if c.cmd_id == cmd_code cmd_buzzer then is_on c.value else s.actuators.buzzer)
unfolding handle_command set_fan set_buzzer set_relay set_led emergency_stop set_speed
buzzer_step s c = ground arith

relay_step :
    (s : RobotState) (c : Command)
    → (handle_command s c).actuators.relay
      ≡ (if c.cmd_id == cmd_code cmd_relay then is_on c.value else s.actuators.relay)
unfolding handle_command set_fan set_buzzer set_relay set_led emergency_stop set_speed
relay_step s c = ground arith

led_step :
    (s : RobotState) (c : Command)
    → (handle_command s c).actuators.led
      ≡ (if c.cmd_id == cmd_code cmd_led then is_on c.value else s.actuators.led)
unfolding handle_command set_fan set_buzzer set_relay set_led emergency_stop set_speed
led_step s c = ground arith

mode_step :
    (s : RobotState) (c : Command)
    → (handle_command s c).mode ≡ (if c.cmd_id == cmd_code cmd_mode then c.value else s.mode)
unfolding handle_command set_fan set_buzzer set_relay set_led emergency_stop set_speed
mode_step s c = ground arith

status_step :
    (s : RobotState) (c : Command)
    → (handle_command s c).status
      ≡ (if c.cmd_id == cmd_code cmd_estop then RobotStatus.estop else s.status)
unfolding handle_command set_fan set_buzzer set_relay set_led emergency_stop set_speed
status_step s c = ground arith

speed_l_step :
    (s : RobotState) (c : Command)
    → (handle_command s c).sensors.speed_l
      ≡ (if c.cmd_id == cmd_code cmd_estop then pos 0 else s.sensors.speed_l)
unfolding handle_command set_fan set_buzzer set_relay set_led emergency_stop set_speed
speed_l_step s c = ground arith

speed_r_step :
    (s : RobotState) (c : Command)
    → (handle_command s c).sensors.speed_r
      ≡ (if c.cmd_id == cmd_code cmd_estop then pos 0 else s.sensors.speed_r)
unfolding handle_command set_fan set_buzzer set_relay set_led emergency_stop set_speed
speed_r_step s c = ground arith

servo_step :
    (s : RobotState) (c : Command) → (handle_command s c).actuators.servo_us ≡ s.actuators.servo_us
unfolding handle_command set_fan set_buzzer set_relay set_led emergency_stop set_speed
servo_step s c = ground arith

-- A part that no command changes.
kept {ℓ} :
    {A : Type ℓ} (part : RobotState → A)
    → ((s : RobotState) (c : Command) → part (handle_command s c) ≡ part s)
    → (s : RobotState) (cs : List Command) → part (handle_all s cs) ≡ part s
kept part step s [] = refl
kept part step s (c ∷ cs) = kept part step (handle_command s c) cs ∙ step s c

-- What the commands leave of the state: `s'` is `s` after them.
pub record IsLatest (s : RobotState) (cs : List Command) (s' : RobotState) : Type 0 where
  pub fan : s'.actuators.fan ≡ value_or is_on s.actuators.fan (latest cmd_fan cs)
  pub buzzer : s'.actuators.buzzer ≡ value_or is_on s.actuators.buzzer (latest cmd_buzzer cs)
  pub relay : s'.actuators.relay ≡ value_or is_on s.actuators.relay (latest cmd_relay cs)
  pub led : s'.actuators.led ≡ value_or is_on s.actuators.led (latest cmd_led cs)
  pub servo_us : s'.actuators.servo_us ≡ s.actuators.servo_us
  pub mode : s'.mode ≡ value_or (λ v. v) s.mode (latest cmd_mode cs)
  pub status : s'.status ≡ value_or (λ v. RobotStatus.estop) s.status (latest cmd_estop cs)
  pub speed_l : s'.sensors.speed_l ≡ value_or (λ v. pos 0) s.sensors.speed_l (latest cmd_estop cs)
  pub speed_r : s'.sensors.speed_r ≡ value_or (λ v. pos 0) s.sensors.speed_r (latest cmd_estop cs)

-- After any run of commands, unknown ones among them, the fan, the buzzer, the relay, the light and
-- the mode have the value of the last command for them, or stand as before where there is none; the
-- servo, which no command is for, stands as before; the robot is stopped, with
-- both wheels at 0, exactly as if the run held an emergency stop, and no later command undoes that.
pub handle_all-IsLatest : (s : RobotState) (cs : List Command) → IsLatest s cs (handle_all s cs)
handle_all-IsLatest s cs = record {
  fan = register-latest (λ s. s.actuators.fan) is_on cmd_fan fan_step s cs;
  buzzer = register-latest (λ s. s.actuators.buzzer) is_on cmd_buzzer buzzer_step s cs;
  relay = register-latest (λ s. s.actuators.relay) is_on cmd_relay relay_step s cs;
  led = register-latest (λ s. s.actuators.led) is_on cmd_led led_step s cs;
  servo_us = kept (λ s. s.actuators.servo_us) servo_step s cs;
  mode = register-latest (λ s. s.mode) (λ v. v) cmd_mode mode_step s cs;
  status = register-latest (λ s. s.status) (λ v. RobotStatus.estop) cmd_estop status_step s cs;
  speed_l = register-latest (λ s. s.sensors.speed_l) (λ v. pos 0) cmd_estop speed_l_step s cs;
  speed_r = register-latest (λ s. s.sensors.speed_r) (λ v. pos 0) cmd_estop speed_r_step s cs;
}
