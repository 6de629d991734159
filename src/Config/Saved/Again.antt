-- ===== src/Config/Saved/Again.antt =====
-- `save` and then `load` of src/modules/config/ConfigManager.cpp.
use long.Base.{ℕ, ◌^◌, ◌<◌, ◌≡◌, refl, ap, true, List, [], Option, arith}
use long.Base.Int.{ℤ, pos, clamp, to_u16, of_u32-to_u32}
use long.Text.{codes}
use long.Text.Decimal.{digits-decimal}
use long.Json.{ok, put, find}
use long.Json.Docs.{doc_value, members_value}
use long.Json.Reads.Whole.{parse-doc_text}
use long.Config.{
  ConfigManager, load_camera, load_network, load_serial, load_root, loaded, load, save,
}
use long.Config.Range.{InRange}
use long.Config.Saved.Grammar.{config_doc-IsDoc}
use long.Config.Saved.{
  IsPlainConfig, config_doc, pieces_value-plain_pieces, numeral_value-numeral_of,
  config_text-config_doc,
}

port_again : (n : ℕ) → n < 2 ^ 16 → to_u16 (clamp (pos n)) ≡ n
port_again n h = ground arith

module _ (to_long : List ℕ → ℤ) where
  load_root-config_doc :
      (c d : ConfigManager) → InRange c → load_root to_long (doc_value (config_doc c)) d ≡ c
  unfolding load_root load_camera load_network load_serial doc_value members_value put find
  load_root-config_doc c d r =
      rw
        (
          pieces_value-plain_pieces c.camera.device,
          pieces_value-plain_pieces c.network.bind_addr,
          pieces_value-plain_pieces c.serial.device,
          numeral_value-numeral_of c.camera.width r.0.0,
          numeral_value-numeral_of c.camera.height r.0.1,
          numeral_value-numeral_of c.camera.fps r.0.2,
          digits-decimal c.network.port,
          numeral_value-numeral_of c.serial.baud r.2,
          of_u32-to_u32 c.camera.width r.0.0,
          of_u32-to_u32 c.camera.height r.0.1,
          of_u32-to_u32 c.camera.fps r.0.2,
          port_again c.network.port r.1,
          of_u32-to_u32 c.serial.baud r.2,
        )
        refl

  root_again :
      (c d : ConfigManager)
      → InRange c
      → loaded to_long (ok (doc_value (config_doc c)) (codes "\n")) d ≡ (true, c)
  unfolding doc_value
  root_again c d r = ap (λ e. (true, e)) (load_root-config_doc c d r)

  -- A configuration that was saved is loaded as it was, whatever stood in its place, if its numbers
  -- are in the range of their types and its strings hold no quote, no backslash and no NUL.
  pub load-save :
      (c d : ConfigManager) (held : Option (List ℕ))
      → InRange c
      → IsPlainConfig c
      → load to_long (save true held c).1 d ≡ (true, c)
  unfolding load save
  load-save c d held r h =
      rw
        (
          config_text-config_doc c h,
          parse-doc_text [] (config_doc c) (codes "\n") tt (config_doc-IsDoc c h)
              (refl, refl, refl),
        )
        (root_again c d r)
