-- ===== src/GeoUpdate/Tests.antt =====
-- The geo databases on a small disk, and the theorems on them at an input.
use libmihomo_android.Base.{
  ℕ, zero, suc, ◌+◌, ◌*◌, ◌<◌, String, ◌==◌, Option, none, some, true, false, if◌then◌else◌, pos,
  ltb_ℤ, ◌≡◌, refl, ◌↔◌, ap, ◌∙◌, if_true, if_false, ==_refl,
}
use native.Mathlib.Omega.{arith}
use mathlib.Core.Option.{some-injective}
use libmihomo_android.GeoUpdate.{
  Settings, Paths, Disk, hour, geo_paths_in_use, geo_update_due, interval_of, turn,
}
use libmihomo_android.GeoUpdate.Due.{IsOld, geo_update_due_lem}
use libmihomo_android.GeoUpdate.Checked.{Times, turn-waits}

-- The product of the interval wraps around: updates every 5124096 hours are due after 25 minutes.
wrapped : interval_of (pos 5124096) ≡ pos 1526290448384
unfolding interval_of
wrapped = refl

-- A file system in which the times of files are stored less one.
abbrev stored : Option ℕ → Option ℕ
stored none = none
stored (some t) = some (suc t)

abbrev less_one : ℕ → ℕ
less_one zero = zero
less_one (suc t) = t

abbrev touch : ℕ → Option ℕ → Option ℕ
touch t none = none
touch t (some u) = some (less_one t)

abbrev disk : Disk (String → Option ℕ)
disk = record {
  stat = λ p s. stored (s p);
  chtimes = λ p t s q. if p == q then touch t (s q) else s q;
  update_geo_databases = λ s. (s, none);
}

abbrev files : String → Option ℕ
files p =
    if p == "geoip.metadb" then some 9 else if p == "GeoSite.dat" then some (30 * hour) else none

abbrev paths : Paths
paths = record {
  geo_ip = "GeoIP.dat";
  mmdb = "geoip.metadb";
  asn = "ASN.mmdb";
  geo_site = "GeoSite.dat";
}

abbrev settings : Settings
settings = record {
  auto_update = true;
  update_interval = pos 24;
  geo_ip_enable = true;
  geodata_mode = false;
  asn_enable = true;
  geo_site_enable = true;
}

abbrev now : ℕ
now = 40 * hour

is_due : (geo_update_due disk paths settings now files).1 ≡ true
unfolding geo_update_due interval_of
is_due = refl

stored-timed : (o : Option ℕ) → ¬ (stored o ≡ some 0)
stored-timed none e = cc
stored-timed (some t) e = let never : ⊥ = omega (arith, some-injective (suc t) 0 e) in never

touch-touched : (t u : ℕ) (o : Option ℕ) → 0 < u → stored o ≡ some t → stored (touch u o) ≡ some u
touch-touched t zero o h e = let never : ⊥ = omega (arith, h) in elim never [ ]
touch-touched t (suc u) none h e = cc
touch-touched t (suc u) (some v) h e = refl

touch-absent : (u : ℕ) (o : Option ℕ) → stored o ≡ none → stored (touch u o) ≡ none
touch-absent u none e = refl
touch-absent u (some v) e = cc

times : Times disk
times = record {
  timed = λ p s. stored-timed (s p);
  touched =
      λ p t u s h e. ap stored (if_true (p == p) (s p) (==_refl p)) ∙ touch-touched t u (s p) h e;
  absent = λ p u s e. ap stored (if_true (p == p) (s p) (==_refl p)) ∙ touch-absent u (s p) e;
  others = λ p q u s k. ap stored (if_false (p == q) (touch u (s q)) k);
}

geo_update_due_example :
    ((geo_update_due disk paths settings now files).1 ≡ true)
    ↔ (true ≡ true)
      × (ltb_ℤ (pos 0) (interval_of (pos 24)) ≡ true)
      × IsOld disk files (geo_paths_in_use paths settings) (24 * hour) now
unfolding interval_of
geo_update_due_example =
    geo_update_due_lem disk files (λ p. stored-timed (files p)) paths settings now

turn-waits_example :
    (geo_update_due disk paths settings
      (now + 23 * hour)
      (turn disk paths settings now (now + 5) files)).1
    ≡ false
unfolding interval_of
turn-waits_example =
    turn-waits disk times paths settings now (now + 5) files (omega arith) (λ p t e r. cc) is_due
      refl (now + 23 * hour) (omega arith)
