-- ===== src/GeoUpdate.antt =====
-- geo_update.go: when the geo databases are checked for an update. A time is a number of nanoseconds, and 0
-- is the zero `time.Time`.
pub mod Due
pub mod Checked
pub mod Tests
use libmihomo_android.Base.{
  ℕ, ◌+◌, ◌*◌, String, List, [], ◌∷◌, ◌++◌, Option, none, some, Bool, true, false, not, ◌&&◌, ◌||◌,
  if◌then◌else◌, ℤ, pos, negsuc, suc, ◌-◌, ◌%◌, ◌^◌, pos_part, ltb_ℤ, eqb, ltb, leb,
}

-- What `updater` and `geodata` are set to.
pub record Settings : Type 0 where
  pub auto_update : Bool
  pub update_interval : ℤ
  pub geo_ip_enable : Bool
  pub geodata_mode : Bool
  pub asn_enable : Bool
  pub geo_site_enable : Bool

-- `C.Path`
pub record Paths : Type 0 where
  pub geo_ip : String
  pub mmdb : String
  pub asn : String
  pub geo_site : String

-- The file system, as the code uses it: `Stat` gives the time of the last change, where it succeeds, and
-- `Chtimes` may fail.
pub record Disk (S : Type 0) : Type 0 where
  pub stat : String → S → Option ℕ
  pub chtimes : String → ℕ → S → S
  pub update_geo_databases : S → S × Option String

-- `time.Hour`
abbrev pub hour : ℕ
hour = 3600 * 1000000000

-- The low 64 bits of `h` hours in nanoseconds.
abbrev pub bits : ℤ → ℕ
bits (pos h) = (h * hour) % 2 ^ 64
bits (negsuc h) = (2 ^ 64 - (suc h * hour) % 2 ^ 64) % 2 ^ 64

abbrev pub signed : ℕ → ℤ
signed b = if ltb b (2 ^ 63) then pos b else negsuc (2 ^ 64 - 1 - b)

-- `time.Duration(h) * time.Hour`, which is an int64 and wraps around.
unfoldable pub interval_of : ℤ → ℤ
interval_of h = signed (bits h)

abbrev pub add_if : Bool → String → List String → List String
add_if b path paths = if b then paths ++ (path ∷ []) else paths

abbrev pub is_empty : List String → Bool
is_empty [] = true
is_empty (p ∷ ps) = false

unfoldable pub geo_paths_in_use : Paths → Settings → List String
geo_paths_in_use c g = add_if g.geo_site_enable c.geo_site (
    add_if g.asn_enable c.asn
      (add_if g.geo_ip_enable (if g.geodata_mode then c.geo_ip else c.mmdb) []))

-- One path, with the answer of `Stat`.
unfoldable pub seen_path : String → Option ℕ → List String × ℕ → List String × ℕ
seen_path path none (on_disk, oldest) = (on_disk, oldest)
seen_path path (some t) (on_disk, oldest) =
    (on_disk ++ (path ∷ []), if eqb oldest 0 || ltb t oldest then t else oldest)

module _ {S : Type 0} (disk : Disk S) where
  unfoldable pub scan : S → List String → List String × ℕ → List String × ℕ
  unfolding seen_path
  scan s [] found = found
  scan s (path ∷ paths) found = scan s paths (seen_path path (disk.stat path s) found)

  -- The interval is used only where it is positive.
  unfoldable pub geo_update_due : Paths → Settings → ℕ → S → List String × Bool
  unfolding geo_paths_in_use scan
  geo_update_due c g now s =
      if not g.auto_update || not (ltb_ℤ (pos 0) (interval_of g.update_interval))
      then ([], false)
      else let (on_disk, oldest) = scan s (geo_paths_in_use c g) ([], 0) in
        (
          on_disk,
          not (is_empty on_disk) && leb (oldest + pos_part (interval_of g.update_interval)) now,
        )

  unfoldable pub mark_geo_checked : ℕ → List String → S → S
  mark_geo_checked now [] s = s
  mark_geo_checked now (path ∷ paths) s = mark_geo_checked now paths (disk.chtimes path now s)

  -- One turn of `geoUpdateLoop`: it starts at `now`, and the databases are marked at `after`.
  unfoldable pub marked : ℕ → List String → S × Option String → S
  unfolding mark_geo_checked
  marked after paths (s, some why) = s
  marked after paths (s, none) = mark_geo_checked after paths s

  unfoldable pub turn : Paths → Settings → ℕ → ℕ → S → S
  unfolding geo_update_due marked
  turn c g now after s =
      let (paths, due) = geo_update_due c g now s in
      if due then marked after paths (disk.update_geo_databases s) else s

-- `startGeoUpdater`: whether the loop has been started, which happens once.
unfoldable pub start_geo_updater : Settings → Bool → Bool
start_geo_updater g started = if not g.auto_update then started else true
