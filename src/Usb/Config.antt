-- ===== src/Usb/Config.antt =====
-- libusb's configuration descriptor, as far as the program reads it: interfaces by their place,
-- each a list of alternate settings.
use tcluvc.Prelude.{ℕ, List}

pub record Endpoint : Type 0 where
  pub endpoint_address : ℕ
  pub max_packet_size : ℕ

pub record AltSetting : Type 0 where
  pub interface_number : ℕ
  pub alternate_setting : ℕ
  pub interface_class : ℕ
  pub interface_subclass : ℕ
  pub endpoints : List Endpoint
  pub extra : List ℕ
