-- ===== src/DnsQuery/Service/Correct.antt =====
-- A recorder passes answers on unchanged and records each query once, and there is at most one.
use libmihomo_android.Base.{ℕ, zero, suc, List, [], ◌∷◌, ◌≡◌, refl, Option, none, some}
use libmihomo_android.DnsQuery.Ring.{Log}
use libmihomo_android.DnsQuery.Ring.Refine.{Keeps, add-Keeps}
use libmihomo_android.DnsQuery.Service.{
  Msg, Query, new_query, Tables, Service, resolver, recording, Reply, first_question, serve_msg,
  install, note, Question,
}

-- A config apply puts a fresh resolver in place, or none; each is followed by `Install`, which may
-- also be called again.
pub data Event (R : Type 0) : Type 0 where
  apply : Option R → Event R
  install_again : Event R

module _ {R : Type 0} where
  -- The recorders around a service, and the resolver inside.
  abbrev pub layers : Service R → ℕ
  layers (resolver r) = 0
  layers (recording next) = suc (layers next)

  abbrev pub inner : Service R → R
  inner (resolver r) = r
  inner (recording next) = inner next

  abbrev pub after : List (Event R) → Option (Service R) → Option (Service R)
  after [] s = s
  after (apply none ∷ evs) s = after evs (install none)
  after (apply (some r) ∷ evs) s = after evs (install (some (resolver r)))
  after (install_again ∷ evs) s = after evs (install s)

  -- The service has exactly one recorder, if there is one.
  abbrev pub IsRecordedOnce : Option (Service R) → Type 0
  IsRecordedOnce none = Unit
  IsRecordedOnce (some s) = layers s ≡ 1

  pub install-IsRecordedOnce :
      (s : Option (Service R)) → IsRecordedOnce s → IsRecordedOnce (install s)
  unfolding install
  install-IsRecordedOnce none h = tt
  install-IsRecordedOnce (some (resolver r)) h = refl
  install-IsRecordedOnce (some (recording next)) h = h

  -- Whatever the configs applied and however often `Install` is called, the DNS service has exactly one
  -- recorder around it, if it had so, or was absent, before.
  pub after-IsRecordedOnce :
      (evs : List (Event R)) (s : Option (Service R))
      → IsRecordedOnce s
      → IsRecordedOnce (after evs s)
  unfolding install
  after-IsRecordedOnce [] s h = h
  after-IsRecordedOnce (apply none ∷ evs) s h = after-IsRecordedOnce evs none tt
  after-IsRecordedOnce (apply (some r) ∷ evs) s h =
      after-IsRecordedOnce evs (some (recording (resolver r))) refl
  after-IsRecordedOnce (install_again ∷ evs) s h =
      after-IsRecordedOnce evs (install s) (install-IsRecordedOnce s h)

-- What one recorder adds to the history for a message: one query, if the message has a question.
abbrev pub noted : Tables → Option Question → Reply → ℕ × ℕ → List Query → List Query
noted tables none reply times h = h
noted tables (some q) reply times h = new_query tables q reply.0 reply.1 times.0 times.1 ∷ h

abbrev pub repeat : ℕ → (List Query → List Query) → List Query → List Query
repeat zero f h = h
repeat (suc n) f h = f (repeat n f h)

note-Keeps :
    (tables : Tables) (q : Option Question) (reply : Reply) (times : ℕ × ℕ) {cap : ℕ}
    {log : Log Query} {h : List Query}
    → Keeps cap log h
    → (log' : Log Query) × (note tables q reply times log ≡ some log')
      × Keeps cap log' (noted tables q reply times h)
unfolding note
note-Keeps tables none reply times {log = log} k = (log, refl, k)
note-Keeps tables (some q) reply times k = add-Keeps _ k

module _ {R : Type 0} (tables : Tables) (ask : R → Msg → Reply) (clock : Msg → ℕ × ℕ) where
  -- `ServeMsg` never panics, gives the reply and the error of the resolver inside unchanged, and each
  -- recorder adds one query of that reply for a message with a question, and none for one without.
  pub serve_msg_lem :
      (s : Service R) (msg : Msg) {cap : ℕ} {log : Log Query} {h : List Query}
      → Keeps cap log h
      → (log' : Log Query) × (serve_msg tables ask clock s msg log ≡ some (ask (inner s) msg, log'))
        × Keeps cap log' (
            repeat (layers s) (noted tables (first_question msg) (ask (inner s) msg) (clock msg)) h)
  unfolding serve_msg
  serve_msg_lem (resolver r) msg {log = log} k = (log, refl, k)
  serve_msg_lem (recording next) msg k =
      let (l, e, kl) = serve_msg_lem next msg k in
      let (l', e', k') =
        note-Keeps tables (first_question msg) (ask (inner next) msg) (clock msg) kl in
      (l', rw (e, e'), k')
