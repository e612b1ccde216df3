-- ===== src/DnsQuery/Tests.antt =====
-- dnsquery.go on small inputs: the cases of dnsquery_test.go, and each theorem at an input.
use libmihomo_android.Base.{ℕ, List, [], ◌∷◌, ◌≡◌, refl, none, some, arith, ◌>>=◌}
use libmihomo_android.Text.{trim_suffix, trim_prefix, trim_space}
use libmihomo_android.DnsQuery.Ring.{Log, new_log, add, snapshot, clear}
use libmihomo_android.DnsQuery.Ring.Refine.{
  Keeps, new_log-Keeps, Op, record_query, clear_all, run, snapshot-run,
}
use libmihomo_android.DnsQuery.Service.{
  Msg, Query, a_record, cname_record, other_record, new_query, Tables, resolver, recording, Reply,
  serve_msg, install, first_question,
}
use libmihomo_android.DnsQuery.Service.Correct.{noted, repeat, serve_msg_lem}

-- TestLogKeepsNewestFirstWithinCapacity, over numbers.
abbrev five : List (Op ℕ)
five = record_query 1 ∷ record_query 2 ∷ record_query 3 ∷ record_query 4 ∷ record_query 5 ∷ []

newest_first : (run 0 five (new_log 0 3) >>= snapshot) ≡ some (5 ∷ 4 ∷ 3 ∷ [])
unfolding run new_log add snapshot
newest_first = refl

cleared :
    (run {A = ℕ} 0 (record_query 1 ∷ clear_all ∷ record_query 2 ∷ []) (new_log 0 3) >>= snapshot)
    ≡ some (2 ∷ [])
unfolding run new_log add snapshot clear
cleared = refl

-- `NewLog(0)`, which the bridge does not call: `Add` panics.
no_room : add {A = ℕ} 7 (new_log 0 0) ≡ none
unfolding new_log add
no_room = refl

snapshot-run_example : (run 0 five (new_log 0 3) >>= snapshot) ≡ some (5 ∷ 4 ∷ 3 ∷ [])
snapshot-run_example = snapshot-run 0 five 3 (omega arith)

abbrev sample_tables : Tables
sample_tables = record { type_name = λ t. b'A' ∷ []; rcode_name = λ r. b'N' ∷ b'O' ∷ [] }

-- "ex." has a CNAME to "e.n." and the address "1".
abbrev sample : Msg
sample = record {
  question = record { name = b'e' ∷ b'x' ∷ b'.' ∷ []; qtype = 1 } ∷ [];
  answer =
      cname_record (b'e' ∷ b'.' ∷ b'n' ∷ b'.' ∷ [])
      ∷ a_record (b'1' ∷ [])
      ∷ other_record (b'h' ∷ []) (b'h' ∷ 9 ∷ b't' ∷ 32 ∷ [])
      ∷ [];
  rcode = 0;
}

abbrev echo : ℕ → Msg → Reply
echo r m = (some m, none)

abbrev ticks : Msg → ℕ × ℕ
ticks m = (5, 2_000_005)

abbrev sample_query : Query
sample_query = record {
  domain = b'e' ∷ b'x' ∷ [];
  kind = b'A' ∷ [];
  answers = (b'e' ∷ b'.' ∷ b'n' ∷ []) ∷ (b'1' ∷ []) ∷ (b't' ∷ []) ∷ [];
  rcode = b'N' ∷ b'O' ∷ [];
  error = [];
  delay = 2;
  time = 5;
}

new_query_runs :
    new_query sample_tables
      (record { name = b'e' ∷ b'x' ∷ b'.' ∷ []; qtype = 1 })
      (some sample)
      none
      5
      2_000_005
    ≡ sample_query
unfolding new_query trim_suffix trim_prefix trim_space
new_query_runs = refl

abbrev blank_query : Query
blank_query = record {
  domain = [];
  kind = [];
  answers = [];
  rcode = [];
  error = [];
  delay = 0;
  time = 0;
}

serve_msg_lem_example :
    (log : Log Query) × (serve_msg sample_tables echo ticks
        (recording (resolver 7))
        sample
        (new_log blank_query 4)
      ≡ some ((some sample, none), log))
    × Keeps 4 log (
        repeat 1
          (noted sample_tables (first_question sample) (some sample, none) (5, 2_000_005))
          [])
serve_msg_lem_example =
    serve_msg_lem sample_tables echo ticks (recording (resolver 7)) sample
      (new_log-Keeps blank_query 4 (omega arith))

-- TestInstallWrapsOnce
install_once : install {R = ℕ} (install (some (resolver 7))) ≡ some (recording (resolver 7))
unfolding install
install_once = refl
