-- ===== src/Config/Twice.antt =====
-- src/modules/config/ConfigManager.cpp: the same file once more.
use long.Base.{ℕ, ◌≡◌, refl, List, Option, none, some, arith}
use long.Base.Int.{ℤ, pos, to_u16, to_u16-lt, of_u32-to_u32}
use long.Text.{codes}
use long.Json.{
  Node, null, bool, int, double, string, object, array, Parsed, ok, throws, out_of_fuel, at,
  string_or, int_or,
}
use long.Json.Parser.{parse}
use long.Config.{
  CameraConf, NetworkConf, SerialConf, ConfigManager, int_in, load_camera, load_network,
  load_serial, load_root, loaded, load,
}
use long.Config.Range.{int_in-IsI32}

string_or_twice : (v : Node) (s : List ℕ) → string_or v (string_or v s) ≡ string_or v s
string_or_twice (string r) s = refl
string_or_twice _ s = refl

word_twice : (z : ℤ) → to_u16 (pos (to_u16 z)) ≡ to_u16 z
word_twice z = omega (arith, to_u16-lt z)

module _ (to_long : List ℕ → ℤ) where
  int_in_twice : (v : Node) (z : ℤ) → int_in to_long v (int_in to_long v z) ≡ int_in to_long v z
  int_in_twice (int n) z = refl
  int_in_twice (double s) z = refl
  int_in_twice null z = of_u32-to_u32 (int_in to_long null z) (int_in-IsI32 to_long null z)
  int_in_twice (bool b) z = of_u32-to_u32 (int_in to_long null z) (int_in-IsI32 to_long null z)
  int_in_twice (string s) z = of_u32-to_u32 (int_in to_long null z) (int_in-IsI32 to_long null z)
  int_in_twice (object fs) z = of_u32-to_u32 (int_in to_long null z) (int_in-IsI32 to_long null z)
  int_in_twice (array xs) z = of_u32-to_u32 (int_in to_long null z) (int_in-IsI32 to_long null z)

  port_in_twice :
      (v : Node) (p : ℕ)
      → to_u16 (int_or to_long v (pos (to_u16 (int_or to_long v (pos p)))))
        ≡ to_u16 (int_or to_long v (pos p))
  port_in_twice (int n) p = refl
  port_in_twice (double s) p = refl
  port_in_twice null p = word_twice (pos p)
  port_in_twice (bool b) p = word_twice (pos p)
  port_in_twice (string s) p = word_twice (pos p)
  port_in_twice (object fs) p = word_twice (pos p)
  port_in_twice (array xs) p = word_twice (pos p)

  load_camera_twice :
      (v : Node) (c : CameraConf)
      → load_camera to_long v (load_camera to_long v c) ≡ load_camera to_long v c
  unfolding load_camera
  load_camera_twice (object fs) c =
      let v = object fs in
      rw
        (
          string_or_twice (at v (codes "device")) c.device,
          int_in_twice (at v (codes "width")) c.width,
          int_in_twice (at v (codes "height")) c.height,
          int_in_twice (at v (codes "fps")) c.fps,
        )
        refl
  load_camera_twice _ c = refl

  load_network_twice :
      (v : Node) (c : NetworkConf)
      → load_network to_long v (load_network to_long v c) ≡ load_network to_long v c
  unfolding load_network
  load_network_twice (object fs) c =
      let v = object fs in
      rw
        (
          string_or_twice (at v (codes "bind")) c.bind_addr,
          port_in_twice (at v (codes "port")) c.port,
        )
        refl
  load_network_twice _ c = refl

  load_serial_twice :
      (v : Node) (c : SerialConf)
      → load_serial to_long v (load_serial to_long v c) ≡ load_serial to_long v c
  unfolding load_serial
  load_serial_twice (object fs) c =
      let v = object fs in
      rw
        (
          string_or_twice (at v (codes "device")) c.device,
          int_in_twice (at v (codes "baud")) c.baud,
        )
        refl
  load_serial_twice _ c = refl

  loaded_twice :
      (p : Parsed Node) (c : ConfigManager)
      → loaded to_long p (loaded to_long p c).1 ≡ loaded to_long p c
  unfolding load_root
  loaded_twice (ok null rest) c = refl
  loaded_twice (ok root rest) c =
      rw
        (
          load_camera_twice (at root (codes "camera")) c.camera,
          load_network_twice (at root (codes "network")) c.network,
          load_serial_twice (at root (codes "serial")) c.serial,
        )
        refl
  loaded_twice (throws e) c = refl
  loaded_twice out_of_fuel c = refl

  -- To load a file once more changes nothing: the result is the same, and so is the configuration.
  pub load_twice :
      (file : Option (List ℕ)) (c : ConfigManager)
      → load to_long file (load to_long file c).1 ≡ load to_long file c
  unfolding load
  load_twice none c = refl
  load_twice (some content) c = loaded_twice (parse content) c
