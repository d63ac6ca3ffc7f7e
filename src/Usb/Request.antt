-- ===== src/Usb/Request.antt =====
-- `enum uvc_req_code` of libuvc/include/libuvc/libuvc.h.
use tcluvc.Prelude.{ℕ}

abbrev pub set_cur : ℕ
set_cur = 0x01

abbrev pub get_cur : ℕ
get_cur = 0x81

abbrev pub get_max : ℕ
get_max = 0x83

abbrev pub get_len : ℕ
get_len = 0x85
