-- ===== src/Platform/Tests.antt =====
-- Runs of the platform package at concrete inputs, and the theorems of its modules at them.
use libmihomo_android.Base.{[], ◌∷◌, Option, some, true, ℤ, pos, ◌≡◌, refl}
use libmihomo_android.Text.{Text}
use libmihomo_android.Text.Split.{fields}
use libmihomo_android.Platform.Limit.{
  init, should_block_connection, blocked, should_block_connection-init,
}
use libmihomo_android.Platform.Procfs.{discover, search_table, local_of}

should_block_connection-init_example :
    should_block_connection (init (some 3) (some 1000)) (some 751)
    ≡ blocked (some 3) (some 1000) (some 751)
should_block_connection-init_example = should_block_connection-init (some 3) (some 1000) (some 751)

abbrev header : Text
header =
    b's' ∷ b'l' ∷ 32 ∷ b'l' ∷ b'o' ∷ b'c' ∷ b'a' ∷ b'l' ∷ b'_' ∷ b'a' ∷ b'd' ∷ b'd' ∷ b'r' ∷ b'e'
    ∷ b's' ∷ b's' ∷ 32 ∷ b'r' ∷ b'e' ∷ b'm' ∷ b'_' ∷ b'a' ∷ b'd' ∷ b'd' ∷ b'r' ∷ b'e' ∷ b's' ∷ b's'
    ∷ 32 ∷ b's' ∷ b't' ∷ 32 ∷ b't' ∷ b'x' ∷ b'_' ∷ b'q' ∷ b'u' ∷ b'e' ∷ b'u' ∷ b'e' ∷ 32 ∷ b'r'
    ∷ b'x' ∷ b'_' ∷ b'q' ∷ b'u' ∷ b'e' ∷ b'u' ∷ b'e' ∷ 32 ∷ b't' ∷ b'r' ∷ 32 ∷ b't' ∷ b'm' ∷ b'-'
    ∷ b'>' ∷ b'w' ∷ b'h' ∷ b'e' ∷ b'n' ∷ 32 ∷ b'r' ∷ b'e' ∷ b't' ∷ b'r' ∷ b'n' ∷ b's' ∷ b'm' ∷ b't'
    ∷ 32 ∷ b'u' ∷ b'i' ∷ b'd' ∷ []

-- In a row, the queues stand in one field and the timer in another.
discovered : (discover (some header)).uid ≡ pos 7
unfolding discover fields
discovered = refl

abbrev line : Text
line =
    b'0' ∷ b':' ∷ 32 ∷ b'0' ∷ b'1' ∷ b'0' ∷ b'0' ∷ b'0' ∷ b'0' ∷ b'7' ∷ b'F' ∷ b':' ∷ b'1' ∷ b'F'
    ∷ b'9' ∷ b'0' ∷ 32 ∷ b'0' ∷ b':' ∷ b'0' ∷ 32 ∷ b'0' ∷ b'A' ∷ 32 ∷ b'0' ∷ b':' ∷ b'0' ∷ 32 ∷ b'0'
    ∷ b'0' ∷ b':' ∷ b'0' ∷ 32 ∷ b'0' ∷ 32 ∷ b'1' ∷ b'0' ∷ []

abbrev local : Text
local =
    b'0' ∷ b'1' ∷ b'0' ∷ b'0' ∷ b'0' ∷ b'0' ∷ b'7' ∷ b'f' ∷ b':' ∷ b'1' ∷ b'f' ∷ b'9' ∷ b'0' ∷ []

printed : local_of true (127 ∷ 0 ∷ 0 ∷ 1 ∷ []) 8080 ≡ some local
unfolding local_of
printed = refl

abbrev atoi : Text → Option ℤ
atoi s = some (pos 10)

found : search_table atoi 1 7 local ([] ∷ line ∷ []) ≡ pos 10
unfolding search_table fields
found = refl
