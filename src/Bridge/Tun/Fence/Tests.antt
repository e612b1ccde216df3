-- ===== src/Bridge/Tun/Fence/Tests.antt =====
-- A `TunHandler` that starts and whose hook is under way.
use libmihomo_android.Base.{◌+◌, ◌≤◌, [], ◌∷◌, true, false, if◌then◌else◌, ◌≡◌, refl, arith}
use libmihomo_android.Bridge.Tun.Fence.{
  tun_sem_capacity, calling, Fence, init, Steps, lock_start, start_ok, unlock, invoke, enter, admit,
  here, next,
}
use libmihomo_android.Bridge.Tun.Fence.Safe.{weight, share, sum, callback_once}
use libmihomo_android.Bridge.Tun.Fence.Closes.{Closes, close_completes}

abbrev busy : Fence
busy = record init { started = true; taken = 1; hooks = calling ∷ []; listener = true }

busy_lem : Steps init busy
busy_lem =
    next
      (next
        (next
          (next (next (next here (lock_start refl refl (omega arith))) (start_ok refl))
            (unlock refl))
          invoke)
        (enter [] [] refl (omega arith)))
      (admit [] [] refl refl)

callback_once_example :
    (share busy.owner + sum weight busy.hooks ≤ tun_sem_capacity)
    × (busy.misused ≡ false)
    × (busy.releases + (if busy.live then 1 else 0) ≡ 1)
callback_once_example = callback_once busy_lem

close_completes_example : Closes busy
close_completes_example = close_completes busy_lem refl
