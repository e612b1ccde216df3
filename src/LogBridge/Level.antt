-- ===== src/LogBridge/Level.antt =====
-- `log.LogLevel` of mihomo as the bridge uses it: a number (DEBUG is 0, then INFO, WARNING, ERROR and
-- SILENT), with the letter that log_file.go prints and the priority that logcat takes.
use libmihomo_android.Base.{ℕ, zero, suc, ℤ, pos, negsuc, Bool, ltb_ℤ, not}

abbrev pub Level : Type 0
Level = ℤ

abbrev pub debug : Level
debug = pos 0

abbrev pub info : Level
info = pos 1

abbrev pub warning : Level
warning = pos 2

abbrev pub error : Level
error = pos 3

-- `a >= b` on levels.
abbrev pub at_least : Level → Level → Bool
at_least a b = not (ltb_ℤ a b)

unfoldable pub level_tag : Level → ℕ
level_tag (pos zero) = b'D'
level_tag (pos (suc zero)) = b'I'
level_tag (pos (suc (suc zero))) = b'W'
level_tag (pos (suc (suc (suc zero)))) = b'E'
level_tag (pos (suc (suc (suc (suc zero))))) = b'S'
level_tag (pos (suc (suc (suc (suc (suc n)))))) = b'I'
level_tag (negsuc n) = b'I'
