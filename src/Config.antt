-- ===== src/Config.antt =====
-- src/modules/config/ConfigManager.cpp and its header. What `readFile` yields is an input; `to_long`
-- is `static_cast<long long>(std::atof(…))`.
pub mod Range
pub mod Saved
pub mod Twice
mod Tests
use long.Base.{
  ℕ, ◌%◌, ◌^◌, Bool, true, false, List, [], ◌∷◌, ◌++◌, Option, none, some, if◌then◌else◌,
}
use long.Base.Int.{ℤ, pos, to_u16, to_u32, of_u32}
use long.Text.{codes, c_str, decimal, print_int}
use long.Json.{Node, null, Parsed, ok, throws, out_of_fuel, at, is_object, string_or, int_or}
use long.Json.Parser.{parse}

pub record CameraConf : Type 0 where
  pub device : List ℕ
  pub width : ℤ
  pub height : ℤ
  pub fps : ℤ

pub record NetworkConf : Type 0 where
  pub bind_addr : List ℕ
  pub port : ℕ

pub record SerialConf : Type 0 where
  pub device : List ℕ
  pub baud : ℤ

pub record ConfigManager : Type 0 where
  pub camera : CameraConf
  pub network : NetworkConf
  pub serial : SerialConf

abbrev pub default_config : ConfigManager
default_config = record {
  camera = record {
    device = codes "/dev/video0";
    width = pos 1280;
    height = pos 720;
    fps = pos 30;
  };
  network = record { bind_addr = codes "0.0.0.0"; port = 8080 };
  serial = record { device = codes "/dev/ttyS1"; baud = pos 115200 };
}

module _ (to_long : List ℕ → ℤ) where
  -- `static_cast<int>(….int_or(def))`
  abbrev pub int_in : Node → ℤ → ℤ
  int_in v def = of_u32 (to_u32 (int_or to_long v def))

  unfoldable pub load_camera : Node → CameraConf → CameraConf
  load_camera cam c =
      if is_object cam
      then record {
        device = string_or (at cam (codes "device")) c.device;
        width = int_in (at cam (codes "width")) c.width;
        height = int_in (at cam (codes "height")) c.height;
        fps = int_in (at cam (codes "fps")) c.fps;
      }
      else c

  unfoldable pub load_network : Node → NetworkConf → NetworkConf
  load_network net c =
      if is_object net
      then record {
        bind_addr = string_or (at net (codes "bind")) c.bind_addr;
        port = to_u16 (int_or to_long (at net (codes "port")) (pos c.port));
      }
      else c

  unfoldable pub load_serial : Node → SerialConf → SerialConf
  load_serial ser c =
      if is_object ser
      then record {
        device = string_or (at ser (codes "device")) c.device;
        baud = int_in (at ser (codes "baud")) c.baud;
      }
      else c

  unfoldable pub load_root : Node → ConfigManager → ConfigManager
  load_root root c = record {
    camera = load_camera (at root (codes "camera")) c.camera;
    network = load_network (at root (codes "network")) c.network;
    serial = load_serial (at root (codes "serial")) c.serial;
  }

  -- A text that holds no more than `null` counts as a failure, and so
  -- would the parser's running out of fuel, which is the model's own.
  abbrev pub loaded : Parsed Node → ConfigManager → Bool × ConfigManager
  loaded (ok null rest) c = (false, c)
  loaded (ok root rest) c = (true, load_root root c)
  loaded (throws e) c = (false, c)
  loaded out_of_fuel c = (false, c)

  -- `load`, from the contents of the file, if it can be read: the result and the configuration.
  unfoldable pub load : Option (List ℕ) → ConfigManager → Bool × ConfigManager
  load none c = (false, c)
  load (some content) c = loaded (parse content) c

-- The text that `fprintf` writes, where each string ends at its first NUL.
unfoldable pub config_text : ConfigManager → List ℕ
config_text c =
    codes "{\n  \"camera\": {\n    \"device\": \""
    ++ (c_str c.camera.device
        ++ (codes "\",\n    \"width\": "
            ++ (print_int c.camera.width
                ++ (codes ",\n    \"height\": "
                    ++ (print_int c.camera.height
                        ++ (codes ",\n    \"fps\": "
                            ++ (print_int c.camera.fps
                                ++ (codes "\n  },\n  \"network\": {\n    \"bind\": \""
                                    ++ (c_str c.network.bind_addr
                                        ++ (codes "\",\n    \"port\": "
                                            ++ (decimal c.network.port
                                                ++ (codes
                                                      "\n  },\n  \"serial\": {\n    \"device\": \""
                                                    ++ (c_str c.serial.device
                                                        ++ (codes "\",\n    \"baud\": "
                                                            ++ (print_int c.serial.baud
                                                            ++ codes "\n  }\n}\n")))))))))))))))

-- `save`: what becomes of the file, by whether it can be opened and what it held.
unfoldable pub save : Bool → Option (List ℕ) → ConfigManager → Bool × Option (List ℕ)
save false held c = (false, held)
save true held c = (true, some (config_text c))
