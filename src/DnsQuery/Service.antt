-- ===== src/DnsQuery/Service.antt =====
-- The recording DNS service of dnsquery/dnsquery.go: `ServeMsg`, `Install`, `newQuery`, `answerValue`.
-- The resolver behind it, the clock and the tables of the DNS package are parameters.
pub mod Correct
use libmihomo_android.Base.{
  ℕ, ◌-◌, ◌/◌, List, [], ◌∷◌, Option, none, some, Bool, true, false, if◌then◌else◌, map, ◌>>=◌,
  get_or,
}
use libmihomo_android.Text.{Text, trim_suffix, trim_prefix, trim_space}
use libmihomo_android.DnsQuery.Ring.{Log, add}

-- A `D.RR` as `answerValue` sees it: what `String` prints of the address of an A or AAAA record, the
-- target of a CNAME, or what `String` prints of the header and of the whole of any other record.
pub data Record : Type 0 where
  a_record : Text → Record
  aaaa_record : Text → Record
  cname_record : Text → Record
  other_record : Text → Text → Record

pub record Question : Type 0 where
  pub name : Text
  pub qtype : ℕ

-- The parts of a `*D.Msg` that the package reads.
pub record Msg : Type 0 where
  pub question : List Question
  pub answer : List Record
  pub rcode : ℕ

pub record Query : Type 0 where
  pub domain : Text
  pub kind : Text
  pub answers : List Text
  pub rcode : Text
  pub error : Text
  pub delay : ℕ
  pub time : ℕ

unfoldable pub answer_value : Record → Text
answer_value (a_record address) = address
answer_value (aaaa_record address) = address
answer_value (cname_record target) = trim_suffix b'.' target
answer_value (other_record header whole) = trim_space (trim_prefix header whole)

-- `D.Type(t).String()` and `D.RcodeToString[rcode]`.
pub record Tables : Type 0 where
  pub type_name : ℕ → Text
  pub rcode_name : ℕ → Text

-- Times in nanoseconds: `start` is the time before the call, `now` the time in `newQuery`.
unfoldable pub new_query : Tables → Question → Option Msg → Option Text → ℕ → ℕ → Query
unfolding answer_value
new_query tables q reply err start now = record {
  domain = trim_suffix b'.' q.name;
  kind = tables.type_name q.qtype;
  answers = elim reply [ none ↦ [] | some r ↦ map answer_value r.answer ];
  rcode = elim reply [ none ↦ [] | some r ↦ tables.rcode_name r.rcode ];
  error = elim err [ none ↦ [] | some e ↦ e ];
  delay = (now - start) / 1_000_000;
  time = start;
}

-- `resolver.DefaultService` holds the resolver of mihomo, of type `R`, or a recorder around a service.
pub data Service (R : Type 0) : Type 0 where
  resolver : R → Service R
  recording : Service R → Service R

abbrev pub Reply : Type 0
Reply = Option Msg × Option Text

abbrev pub first_question : Msg → Option Question
first_question m = elim m.question [ [] ↦ none | q ∷ rest ↦ some q ]

-- What `ServeMsg` records after the call: the first question, if there is one.
pub note : Tables → Option Question → Reply → ℕ × ℕ → Log Query → Option (Log Query)
note tables none reply times log = some log
note tables (some q) reply times log = add (new_query tables q reply.0 reply.1 times.0 times.1) log

-- The clock gives the time before and after each call of a service that a recorder makes.
module _ {R : Type 0} (tables : Tables) (ask : R → Msg → Reply) (clock : Msg → ℕ × ℕ) where
  -- `ServeMsg`, with the log that the recorders share. `none` is a panic of the log.
  unfoldable pub serve_msg : Service R → Msg → Log Query → Option (Reply × Log Query)
  serve_msg (resolver r) msg log = some (ask r msg, log)
  serve_msg (recording next) msg log = do
    served ← serve_msg next msg log
    log' ← note tables (first_question msg) served.0 (clock msg) served.1
    some (served.0, log')

-- `Install`: at most one recorder, around the service that is there.
unfoldable pub install : {R : Type 0} → Option (Service R) → Option (Service R)
install none = none
install (some (recording next)) = some (recording next)
install (some (resolver r)) = some (recording (resolver r))
