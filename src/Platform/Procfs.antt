-- ===== src/Platform/Procfs.antt =====
-- The search of /proc/net of platform/procfs.go for the owner of a socket. The files are given by their
-- lines; `none` is a file that cannot be opened.
pub mod Search
use libmihomo_android.Base.{
  ℕ, zero, suc, ◌+◌, ◌-◌, ◌/◌, ◌%◌, List, [], ◌∷◌, ◌++◌, Option, none, some, ◌>>=◌, Bool, true,
  false, ◌&&◌, ◌||◌, if◌then◌else◌, ltb, leb, get_elem?, ℤ, pos, negsuc, replicate,
}
use libmihomo_android.Text.{Text, eq_text, equal_fold, trim_suffix}
use libmihomo_android.Text.Split.{fields}

-- `netIndexOfLocal`, `netIndexOfUid` and the variables of the loop over the columns.
pub record Scan : Type 0 where
  pub tx_queue : Bool
  pub rx_queue : Bool
  pub tr : Bool
  pub tm_when : Bool
  pub local : ℤ
  pub uid : ℤ

abbrev pub unscanned : Scan
unscanned = record {
  tx_queue = false;
  rx_queue = false;
  tr = false;
  tm_when = false;
  local = negsuc 0;
  uid = negsuc 0;
}

abbrev pub minus : ℕ → ℕ → ℤ
minus a b = if leb b a then pos (a - b) else negsuc (b - a - 1)

-- `idx + offset`
unfoldable pub column_index : ℕ → Scan → ℤ
column_index idx s =
    minus idx ((if s.tx_queue && s.rx_queue then 1 else 0) + (if s.tr && s.tm_when then 1 else 0))

unfoldable pub scan_column : ℕ → Text → Scan → Scan
unfolding column_index
scan_column idx col s =
    if eq_text col (b't' ∷ b'x' ∷ b'_' ∷ b'q' ∷ b'u' ∷ b'e' ∷ b'u' ∷ b'e' ∷ [])
    then record s { tx_queue = true }
    else if eq_text col (b'r' ∷ b'x' ∷ b'_' ∷ b'q' ∷ b'u' ∷ b'e' ∷ b'u' ∷ b'e' ∷ [])
    then record s { rx_queue = true }
    else if eq_text col (b't' ∷ b'r' ∷ [])
    then record s { tr = true }
    else if eq_text col (b't' ∷ b'm' ∷ b'-' ∷ b'>' ∷ b'w' ∷ b'h' ∷ b'e' ∷ b'n' ∷ [])
    then record s { tm_when = true }
    else if eq_text col (
        b'l' ∷ b'o' ∷ b'c' ∷ b'a' ∷ b'l' ∷ b'_' ∷ b'a' ∷ b'd' ∷ b'd' ∷ b'r' ∷ b'e' ∷ b's' ∷ b's'
        ∷ [])
    then record s { local = column_index idx s }
    else if eq_text col (b'u' ∷ b'i' ∷ b'd' ∷ [])
    then record s { uid = column_index idx s }
    else s

-- The loop of `init` over the columns from `idx` on.
unfoldable pub scan_columns : ℕ → List Text → Scan → Scan
unfolding scan_column
scan_columns idx [] s = s
scan_columns idx (col ∷ cols) s = scan_columns (idx + 1) cols (scan_column idx col s)

-- `init`, on the header of /proc/net/tcp.
unfoldable pub discover : Option Text → Scan
unfolding scan_columns
discover none = unscanned
discover (some header) = scan_columns 0 (fields header) unscanned

abbrev digit : ℕ → ℕ
digit n = if ltb n 10 then 48 + n else 87 + n

-- `hex.EncodeToString`
unfoldable pub hex : Text → Text
hex [] = []
hex (c ∷ s) = digit (c / 16 % 16) ∷ digit (c % 16) ∷ hex s

-- `nativeEndianIP`, on a machine with the low byte first or not; `none` is the panic on a length that is no
-- multiple of 4.
unfoldable pub native_endian_ip : Bool → Text → Option Text
native_endian_ip little [] = some []
native_endian_ip little (a ∷ b ∷ c ∷ d ∷ ip) = native_endian_ip little ip >>= λ rest.
    some (if little then d ∷ c ∷ b ∷ a ∷ rest else a ∷ b ∷ c ∷ d ∷ rest)
native_endian_ip little _ = none

-- The text that `doQuery` looks for.
unfoldable pub local_of : Bool → Text → ℕ → Option Text
unfolding native_endian_ip hex
local_of little ip port = native_endian_ip little ip >>= λ native.
    some (hex native ++ (b':' ∷ hex (port / 256 % 256 ∷ port % 256 ∷ [])))

-- The system that `QuerySocketUidFromProcFs` runs on: its files, its byte order, and the functions of Go's
-- library: `To16`, `To4` and `strconv.Atoi`.
pub record Host : Type 0 where
  pub lines_of : Text → Option (List Text)
  pub little : Bool
  pub to16 : Text → Option Text
  pub to4 : Text → Option Text
  pub atoi : Text → Option ℤ

-- The uid in a row, or -1.
unfoldable pub uid_of : (Text → Option ℤ) → Option Text → ℤ
uid_of atoi none = negsuc 0
uid_of atoi (some field) = elim (atoi field) [ none ↦ negsuc 0 | some uid ↦ uid ]

-- Whether a row has both fields and the first of them is the local address that is sought.
unfoldable pub is_row : ℕ → ℕ → Text → List Text → Bool
is_row local_index uid_index local row = elim (get_elem? row local_index) [
  | none ↦ false
  | some address ↦ elim (get_elem? row uid_index) [
    | none ↦ false
    | some _ ↦ equal_fold local address
  ]
]

-- The loop of `doQuery` over the lines; at their end the error of the reader ends it.
unfoldable pub search_table : (Text → Option ℤ) → ℕ → ℕ → Text → List Text → ℤ
unfolding uid_of is_row
search_table atoi local_index uid_index local [] = negsuc 0
search_table atoi local_index uid_index local (line ∷ lines) =
    let row = fields line in
    let rest = search_table atoi local_index uid_index local lines in
    if is_row local_index uid_index local row then uid_of atoi (get_elem? row uid_index) else rest

-- `doQuery`; `none` is a panic.
unfoldable pub do_query : Host → ℕ → ℕ → Text → Text → ℕ → Option ℤ
unfolding local_of search_table
do_query host local_index uid_index path ip port = elim (host.lines_of path) [
  | none ↦ some (negsuc 0)
  | some lines ↦ local_of host.little ip port >>= λ local.
      some (search_table host.atoi local_index uid_index local lines)
]

-- The query of the IPv4 table, which follows one of the IPv6 table that found nothing.
unfoldable pub query4 : Host → ℕ → ℕ → Text → Text → ℕ → ℤ → Option ℤ
unfolding do_query
query4 host local_index uid_index path ip port (negsuc zero) = elim (host.to4 ip) [
  | none ↦ some (negsuc 0)
  | some ip4 ↦ do_query host local_index uid_index path ip4 port
]
query4 host local_index uid_index path ip port uid = some uid

-- `QuerySocketUidFromProcFs`, on the network of the source and its address and port, if it is a TCP or UDP
-- address.
unfoldable pub query_socket_uid : Host → Scan → Text → Option (Text × ℕ) → Option ℤ
unfolding query4 do_query
query_socket_uid host s network source = with_indexes s.local s.uid
  where
    path : Text
    path =
        (b'/' ∷ b'p' ∷ b'r' ∷ b'o' ∷ b'c' ∷ b'/' ∷ b'n' ∷ b'e' ∷ b't' ∷ b'/' ∷ [])
        ++ trim_suffix b'6' (trim_suffix b'4' network)

    with_indexes : ℤ → ℤ → Option ℤ
    with_indexes (pos l) (pos u) = elim source [
      | none ↦ some (negsuc 0)
      | some (ip, port) ↦ elim (host.to16 ip) [
        | none ↦ some (negsuc 0)
        | some ip16 ↦
            do_query host l u (path ++ (b'6' ∷ [])) ip16 port >>= query4 host l u path ip16 port
      ]
    ]
    with_indexes _ _ = some (negsuc 0)
