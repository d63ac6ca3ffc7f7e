-- ===== src/Status/Laws.antt =====
-- Which packets are reported, and how: the code against the layout of a status packet.
use tcluvc.Prelude.{ℕ, ◌%◌, ◌≡◌, ◌≢◌, true, false, Option, none, some, List, ◌∷◌}
use tcluvc.Descriptors.{ControlInterface}
use tcluvc.Status.{
  Call, status_cb, button_cb, class_camera, class_processing, has_terminal, has_unit, Callbacks,
  set_status_callback, set_button_callback,
}

-- A packet of the USB Video Class and what it tells: the change of a control of an input terminal or
-- of a processing unit of the device, or a button of a streaming interface. What a packet tells of
-- other units is not among them, since the program looks up only those two.
pub data Reports (c : ControlInterface) : List ℕ → Call → Type 0 where
  terminal_change :
      (first originator selector attribute : ℕ) (content : List ℕ)
      → first % 16 ≡ 1
      → originator ≢ 0
      → has_terminal c.input_terms originator ≡ true
      → Reports c
          (first ∷ originator ∷ 0 ∷ selector ∷ attribute ∷ content)
          (status_cb class_camera 0 selector attribute content)
  unit_change :
      (first originator selector attribute : ℕ) (content : List ℕ)
      → first % 16 ≡ 1
      → originator ≢ 0
      → has_terminal c.input_terms originator ≡ false
      → has_unit c.processing_units originator ≡ true
      → Reports c
          (first ∷ originator ∷ 0 ∷ selector ∷ attribute ∷ content)
          (status_cb class_processing 0 selector attribute content)
  button :
      (first number state : ℕ) (rest : List ℕ)
      → first % 16 ≡ 2
      → Reports c (first ∷ number ∷ 0 ∷ state ∷ rest) (button_cb number state)

call_or : Call → Option Call → Call
call_or d none = d
call_or d (some call) = call

-- Both callbacks are set, on whatever was set before.
abbrev pub both : Callbacks → Callbacks
both k = set_button_callback (set_status_callback k true) true
