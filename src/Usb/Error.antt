-- ===== src/Usb/Error.antt =====
-- `enum uvc_error` of libuvc/include/libuvc/libuvc.h: `negsuc n` is the code -(n + 1).
use tcluvc.Prelude.Int.{ℤ, pos, negsuc}

abbrev pub success : ℤ
success = pos 0

abbrev pub invalid_param : ℤ
invalid_param = negsuc 1

abbrev pub not_found : ℤ
not_found = negsuc 4

abbrev pub busy : ℤ
busy = negsuc 5

abbrev pub no_mem : ℤ
no_mem = negsuc 10

abbrev pub not_supported : ℤ
not_supported = negsuc 11

abbrev pub invalid_device : ℤ
invalid_device = negsuc 49

abbrev pub invalid_mode : ℤ
invalid_mode = negsuc 50

abbrev pub timeout : ℤ
timeout = negsuc 6

abbrev pub callback_exists : ℤ
callback_exists = negsuc 51

abbrev pub other : ℤ
other = negsuc 98

abbrev pub no_device : ℤ
no_device = negsuc 3
