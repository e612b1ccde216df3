-- ===== src/Streams/Worker.antt =====
-- What connections.go and log_stream.go share: the goroutines that send, which of them is the current one,
-- and the mutex that a subscribe or an unsubscribe holds while it waits for it.
pub mod Laws
use libmihomo_android.Base.{
  ℕ, suc, List, [], ◌∷◌, ◌++◌, Option, none, some, Bool, true, false, eqb, if◌then◌else◌,
}

-- Before it is started, while it is subscribed, once it was told to end, and after its `close(done)`.
pub data Phase : Type 0 where
  absent : Phase
  live : Phase
  ending : Phase
  exited : Phase

-- Whether a goroutine of the phase can send.
abbrev pub is_running : Phase → Bool
is_running absent = false
is_running live = true
is_running ending = true
is_running exited = false

-- Whether the mutex is free, or held by a call that waits for goroutine `i` to end, then to start another
-- one if `again`.
pub data Lock : Type 0 where
  free : Lock
  waiting : (again : Bool) (i : ℕ) → Lock

-- Goroutines are numbered as they are started. `sent` has the sender of each message.
pub record Streams : Type 0 where
  pub phase : ℕ → Phase
  pub born : ℕ
  pub current : Option ℕ
  pub lock : Lock
  pub sent : List ℕ

abbrev pub init : Streams
init = record { phase = λ i. absent; born = 0; current = none; lock = free; sent = [] }

abbrev pub update : (ℕ → Phase) → ℕ → Phase → ℕ → Phase
update f i p j = if eqb j i then p else f j

-- The end of a subscribe: a new goroutine is the current one.
unfoldable pub begin : Streams → Streams
begin s = record s {
  phase = update s.phase s.born live;
  born = suc s.born;
  current = some s.born;
  lock = free;
}

-- The current goroutine is told to end, and the caller waits.
unfoldable pub cancel : Bool → ℕ → Streams → Streams
cancel again i s = record s { phase = update s.phase i ending; lock = waiting again i }

-- The end of a call that starts no goroutine.
unfoldable pub rest : Streams → Streams
rest s = record s { current = none; lock = free }

unfoldable pub send : ℕ → Streams → Streams
send i s = record s { sent = i ∷ s.sent }

unfoldable pub leave : ℕ → Streams → Streams
leave i s = record s { phase = update s.phase i exited }
