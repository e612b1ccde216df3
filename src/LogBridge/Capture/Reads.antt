-- ===== src/LogBridge/Capture/Reads.antt =====
-- The descriptors that a capture holds at each place.
use libmihomo_android.Base.{
  Bool, true, false, ◌≡◌, refl, not, ◌&&◌, ◌||◌, arith, ◌⊎◌, inl, inr, ap, ◌∙◌,
}
use mathlib.Core.Path.{subst}
use libmihomo_android.LogBridge.Capture.{
  Target, original, pipe, dev_null, Place, begun, piped, bound, scanning, scanned, null_opened,
  leaving, ended, Capture, init, Step, no_pipe, make_pipe, no_dup, dup, close_writer, line,
  end_of_input, scanner_failed, no_null, open_null, rebind, no_rebind, close_reader, Steps, here,
  next,
}

-- Whether `r`, `w` and `devNull` are open.
abbrev Ends : Type 0
Ends = Bool × Bool × Bool

abbrev ends_at : Place → Ends
ends_at begun = (false, false, false)
ends_at piped = (true, true, false)
ends_at bound = (true, true, false)
ends_at scanning = (true, false, false)
ends_at scanned = (true, false, false)
ends_at null_opened = (true, false, true)
ends_at leaving = (true, false, false)
ends_at ended = (false, false, false)

-- What the descriptor may refer to at a place.
abbrev pub MayBe : Place → Bool → Target → Type 0
MayBe begun stuck t = t ≡ original
MayBe piped stuck t = t ≡ original
MayBe bound stuck t = t ≡ pipe
MayBe scanning stuck t = t ≡ pipe
MayBe scanned stuck t = t ≡ pipe
MayBe null_opened stuck t = t ≡ pipe
MayBe leaving stuck t = (t ≡ dev_null) ⊎ (t ≡ pipe) × (stuck ≡ true)
MayBe ended stuck t = (t ≡ original) ⊎ (t ≡ dev_null) ⊎ (t ≡ pipe) × (stuck ≡ true)

record IsPlaced (s : Capture) : Type 0 where
  pub ends : (s.r, s.w, s.null_fd) ≡ ends_at s.place
  pub may : MayBe s.place s.stuck s.target

were : {s : Capture} {p : Place} → s.place ≡ p → IsPlaced s → (s.r, s.w, s.null_fd) ≡ ends_at p
were e v = v.ends ∙ ap ends_at e

was : {s : Capture} {p : Place} → s.place ≡ p → IsPlaced s → MayBe p s.stuck s.target
was {s} e v = subst (λ p. MayBe p s.stuck s.target) e v.may

Step-IsPlaced : {s t : Capture} → Step s t → IsPlaced s → IsPlaced t
Step-IsPlaced (no_pipe e) v = record { ends = were e v; may = inl (was e v) }
Step-IsPlaced (make_pipe e) v = record {
  ends = ap (λ (t : Ends). (true, true, t.2)) (were e v);
  may = was e v;
}
Step-IsPlaced (no_dup e) v = record {
  ends = ap (λ (t : Ends). (false, false, t.2)) (were e v);
  may = inl (was e v);
}
Step-IsPlaced (dup e) v = record { ends = were e v; may = refl }
Step-IsPlaced (close_writer e) v = record {
  ends = ap (λ (t : Ends). (t.0, false, t.2)) (were e v);
  may = was e v;
}
Step-IsPlaced (line e) v = record { ends = v.ends; may = v.may }
Step-IsPlaced (end_of_input e) v = record { ends = were e v; may = was e v }
Step-IsPlaced (scanner_failed e) v = record { ends = were e v; may = was e v }
Step-IsPlaced (no_null e) v = record { ends = were e v; may = inr (was e v, refl) }
Step-IsPlaced (open_null e) v = record {
  ends = ap (λ (t : Ends). (t.0, t.1, true)) (were e v);
  may = was e v;
}
Step-IsPlaced (rebind e) v = record {
  ends = ap (λ (t : Ends). (t.0, t.1, false)) (were e v);
  may = inl refl;
}
Step-IsPlaced (no_rebind e) v = record {
  ends = ap (λ (t : Ends). (t.0, t.1, false)) (were e v);
  may = inr (was e v, refl);
}
Step-IsPlaced (close_reader e) v = record {
  ends = ap (λ (t : Ends). (false, t.1, t.2)) (were e v);
  may = inr (was e v);
}

Steps-IsPlaced : {s : Capture} → Steps init s → IsPlaced s
Steps-IsPlaced here = record { ends = refl; may = refl }
Steps-IsPlaced (next r st) = Step-IsPlaced st (Steps-IsPlaced r)

-- Whether the descriptor refers to a pipe that nobody reads although /dev/null could be bound, and whether the
-- code has ended with a descriptor open.
abbrev pub is_pipe : Target → Bool
is_pipe original = false
is_pipe pipe = true
is_pipe dev_null = false

abbrev pub is_unread : Capture → Bool
is_unread s = is_pipe s.target && not s.r && not s.stuck

abbrev pub is_ended : Place → Bool
is_ended begun = false
is_ended piped = false
is_ended bound = false
is_ended scanning = false
is_ended scanned = false
is_ended null_opened = false
is_ended leaving = false
is_ended ended = true

abbrev pub has_leaked : Capture → Bool
has_leaked s = is_ended s.place && (s.r || s.w || s.null_fd)

first : {a b c d e f : Bool} → ◌≡◌ {A = Ends} (a, b, c) (d, e, f) → a ≡ d
first e = ap {A = Ends} (λ t. t.0) e

read_at :
    (p : Place) (s : Capture)
    → (s.r, s.w, s.null_fd) ≡ ends_at p
    → MayBe p s.stuck s.target
    → is_unread s ≡ false
read_at begun s e m = ground (arith, ap is_pipe m)
read_at piped s e m = ground (arith, ap is_pipe m)
read_at bound s e m = ground (arith, first e)
read_at scanning s e m = ground (arith, first e)
read_at scanned s e m = ground (arith, first e)
read_at null_opened s e m = ground (arith, first e)
read_at leaving s e m = ground (arith, first e)
read_at ended s e (inl m) = ground (arith, ap is_pipe m)
read_at ended s e (inr (inl m)) = ground (arith, ap is_pipe m)
read_at ended s e (inr (inr (m, k))) = ground (arith, k)

closed_at :
    (p : Place) (a b c : Bool)
    → ◌≡◌ {A = Ends} (a, b, c) (ends_at p)
    → (is_ended p && (a || b || c)) ≡ false
closed_at ended a b c e =
    ground (arith, first e, ap {A = Ends} (λ t. t.1) e, ap {A = Ends} (λ t. t.2) e)
closed_at begun a b c e = refl
closed_at piped a b c e = refl
closed_at bound a b c e = refl
closed_at scanning a b c e = refl
closed_at scanned a b c e = refl
closed_at null_opened a b c e = refl
closed_at leaving a b c e = refl

-- However the calls of the system end: the captured descriptor refers to a pipe only while the goroutine has
-- its reading end open, unless /dev/null could not be bound, and at its end the code has no descriptor open.
pub capture_reads : {s : Capture} → Steps init s → (is_unread s ≡ false) × (has_leaked s ≡ false)
capture_reads {s} r =
    let v = Steps-IsPlaced r in
    (read_at s.place s v.ends v.may, closed_at s.place s.r s.w s.null_fd v.ends)
