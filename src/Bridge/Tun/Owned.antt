-- ===== src/Bridge/Tun/Owned.antt =====
-- How often the reference of a TUN session is handed over, held and released.
use libmihomo_android.Base.{
  ℕ, ◌+◌, ℤ, List, [], ◌∷◌, ◌++◌, Option, none, some, Bool, true, false, String, ◌≡◌, refl, ◌∙◌, ap,
  if◌then◌else◌, eqb,
}
use native.Mathlib.Omega.{arith}
use libmihomo_android.Bridge.Tun.Session.{
  Event, protected, resolved, released, closed_listener, Handler, Tun, close_listener,
  release_callback, clear, with_handler, stop_tun_locked, start, handle_start_tun, is_zero,
  handle_protect, handle_resolve_process, socket_hook, Call, start_call, stop_call, dial_call,
  resolve_call, step, run,
}

module _ (c : ℕ) where
  -- How often an event releases the reference.
  unfoldable pub frees : Event → ℕ
  frees (released d) = if eqb d c then 1 else 0
  frees (protected o fd) = 0
  frees (resolved o p u) = 0
  frees (closed_listener l) = 0

  unfoldable pub tally : List Event → ℕ
  unfolding frees
  tally [] = 0
  tally (e ∷ es) = frees e + tally es

  unfoldable pub given : Option ℕ → ℕ
  given none = 0
  given (some d) = if eqb d c then 1 else 0

  unfoldable pub held_by : Option Handler → ℕ
  unfolding given
  held_by none = 0
  held_by (some th) = given th.callback

  -- The releases of the reference so far, and one more where the session holds it.
  unfoldable pub balance : Tun → ℕ
  unfolding tally held_by
  balance t = tally t.events + held_by t.handler

  -- How often a call hands the reference over.
  unfoldable pub handed : Call → ℕ
  handed (start_call d fd l) = if eqb d c then 1 else 0
  handed stop_call = 0
  handed (dial_call b fd) = 0
  handed (resolve_call v u n) = 0

  unfoldable pub starts : List Call → ℕ
  unfolding handed
  starts [] = 0
  starts (call ∷ cs) = handed call + starts cs

  tally-append : (es fs : List Event) → tally (es ++ fs) ≡ tally es + tally fs
  unfolding tally
  tally-append [] fs = omega arith
  tally-append (e ∷ es) fs = omega (arith, tally-append es fs)

  tally-close_listener : (o : Option ℕ) → tally (close_listener o) ≡ 0
  unfolding tally close_listener frees
  tally-close_listener none = refl
  tally-close_listener (some l) = refl

  tally-release_callback : (o : Option ℕ) → tally (release_callback o) ≡ given o
  unfolding tally release_callback given frees
  tally-release_callback none = refl
  tally-release_callback (some d) = omega arith

  tally-clear :
      (th : Handler) (t : Tun) → tally (clear th t).events ≡ tally t.events + given th.callback
  unfolding clear
  tally-clear th t = omega (
    arith,
    tally-append t.events (close_listener th.listener ++ release_callback th.callback),
    tally-append (close_listener th.listener) (release_callback th.callback),
    tally-close_listener th.listener,
    tally-release_callback th.callback,
  )

  balance-clear :
      (th : Handler) (t : Tun) → balance (clear th t) ≡ tally t.events + given th.callback
  unfolding balance held_by given clear
  balance-clear th t = omega (arith, tally-clear th t)

  -- Stopping keeps the balance, and nothing is held after it.
  tally-stop :
      (o : Option Handler) (t : Tun)
      → tally (with_handler o clear t).events ≡ tally t.events + held_by o
  unfolding with_handler held_by
  tally-stop none t = omega arith
  tally-stop (some th) t = tally-clear th t

  balance-stop :
      (o : Option Handler) (t : Tun)
      → o ≡ t.handler
      → balance (with_handler o clear t) ≡ tally t.events + held_by t.handler
  unfolding with_handler held_by balance
  balance-stop none t e = refl
  balance-stop (some th) t e = balance-clear th t ∙ ap (λ o. tally t.events + held_by o) e

  balance-stopped : (t : Tun) → balance (with_handler t.handler clear t) ≡ balance t
  unfolding balance
  balance-stopped t = balance-stop t.handler t refl

  balance-if :
      (b : Bool) (x y : Tun) (n : ℕ)
      → balance x ≡ n
      → balance y ≡ n
      → balance (if b then x else y) ≡ n
  balance-if true x y n p q = p
  balance-if false x y n p q = q

  balance-handle_protect :
      (th : Handler) (fd : ℕ) (t : Tun) → balance (handle_protect th fd t) ≡ balance t
  unfolding handle_protect balance tally frees
  balance-handle_protect th fd t =
      balance-if th.closed t _ _ refl
        (omega (arith, tally-append t.events (protected th.callback fd ∷ [])))

  balance-handle_resolve_process :
      (v : ℕ) (u : ℤ) (n : String) (th : Handler) (t : Tun)
      → balance (handle_resolve_process v u n th t) ≡ balance t
  unfolding handle_resolve_process balance tally frees
  balance-handle_resolve_process v u n th t =
      balance-if th.closed t _ _ refl
        (omega (arith, tally-append t.events (resolved th.callback _ _ ∷ [])))

  balance-start :
      (l : Option ℕ) (th : Handler) (t : Tun)
      → balance (start l th (record t { handler = some th })) ≡ tally t.events + given th.callback
  unfolding start balance held_by given
  balance-start none th t = balance-clear th (record t { hook = true })
  balance-start (some l) th t = refl

  balance-handle_start_tun :
      (d : ℕ) (fd : ℤ) (l : Option ℕ) (t : Tun)
      → balance (handle_start_tun d fd l t) ≡ (if eqb d c then 1 else 0) + balance t
  unfolding handle_start_tun stop_tun_locked balance tally frees given held_by
  balance-handle_start_tun d fd l t =
      balance-if (is_zero fd) _ _ _
        (omega (
          arith,
          balance-stop t.handler t refl,
          tally-append (with_handler t.handler clear t).events (released d ∷ []),
        ))
        (balance-start l _ (with_handler t.handler clear t) ∙ omega (arith, tally-stop t.handler t))

  balance-with_handler :
      (o : Option Handler) (f : Handler → Tun → Tun) (t : Tun)
      → ((th : Handler) → balance (f th t) ≡ balance t)
      → balance (with_handler o f t) ≡ balance t
  unfolding with_handler
  balance-with_handler none f t h = refl
  balance-with_handler (some th) f t h = h th

  balance-socket_hook : (b : Bool) (fd : ℕ) (t : Tun) → balance (socket_hook b fd t) ≡ balance t
  unfolding socket_hook
  balance-socket_hook b fd t =
      balance-if b t (with_handler t.handler (λ th. handle_protect th fd) t) _ refl (
        balance-with_handler t.handler (λ th. handle_protect th fd) t
          (λ th. balance-handle_protect th fd t))

  balance-step : (call : Call) (t : Tun) → balance (step call t) ≡ handed call + balance t
  unfolding step handed stop_tun_locked
  balance-step (start_call d fd l) t = balance-handle_start_tun d fd l t
  balance-step stop_call t = omega (arith, balance-stopped t)
  balance-step (dial_call b fd) t = omega (
    arith,
    balance-if t.hook (socket_hook b fd t) t (balance t) (balance-socket_hook b fd t) refl,
  )
  balance-step (resolve_call v u n) t = omega (
    arith,
    balance-if t.hook (with_handler t.handler (handle_resolve_process v u n) t) t (balance t)
        (balance-with_handler t.handler (handle_resolve_process v u n) t
          (λ th. balance-handle_resolve_process v u n th t))
        refl,
  )

  -- Whatever the calls, a reference is released as often as it was handed over, less the one that the
  -- session holds at the end.
  pub run-balance : (cs : List Call) (t : Tun) → balance (run cs t) ≡ starts cs + balance t
  unfolding run starts
  run-balance [] t = omega arith
  run-balance (call ∷ cs) t = omega (arith, run-balance cs (step call t), balance-step call t)

  -- When the calls end with a stop, each reference handed over to a session that began with none is
  -- released exactly as often as it was handed over.
  pub run-stopped :
      (cs : List Call)
      → tally
          (stop_tun_locked (run cs (record { handler = none; hook = false; events = [] }))).events
        ≡ starts cs
  unfolding stop_tun_locked balance tally held_by
  run-stopped cs =
      let t = run cs (record { handler = none; hook = false; events = [] }) in
      omega (
        arith,
        tally-stop t.handler t,
        run-balance cs (record { handler = none; hook = false; events = [] }),
      )
