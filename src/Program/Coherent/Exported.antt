-- ===== src/Program/Coherent/Exported.antt =====
-- The variables after the exported calls.
use libmihomo_android.Base.{ℕ, ℤ, String, ◌==◌, Bool, true, false, not, Option, either_way}
use libmihomo_android.Bridge.Reply.{World}
use libmihomo_android.Bridge.Tun.Session.{Tun, handle_start_tun, stop_tun_locked}
use libmihomo_android.Program.{Core, Program, Outside}
use libmihomo_android.Program.Calls.{init_clash, setup_config, start_listener, stop_listener}
use libmihomo_android.Program.Exports.{
  put_tun_session, set_running, answer, start_tun, stop_tun, settle, quick_setup,
}
use libmihomo_android.Program.Contracts.{CoreContract}

-- Over a property of the core that its handlers keep, and that neither the session nor `isRunning` matters to.
module _ {V L R S B Raw : Type 0} (out : Outside V L R S B Raw) (Q : Core V L R → Type 0)
    (k : CoreContract out Q) (any_tun : (t : Tun) (c : Core V L R) → Q c → Q (record c { tun = t }))
    (any_running : (b : Bool) (c : Core V L R) → Q c → Q (record c { is_running = b })) where
  abbrev Holds : Program V L R S → Type 0
  Holds p = Q p.core

  pub start_tun-keeps :
      (callback : ℕ) (fd : ℤ) (listener : Option ℕ) (p : Program V L R S)
      → Q p.core
      → Q (start_tun out callback fd listener p).core
  unfolding start_tun
  start_tun-keeps callback fd listener p v =
      let t = handle_start_tun callback fd listener p.core.tun in
      let w = any_tun t p.core v in
      either_way Holds (not p.core.is_running) (start_listener out (put_tun_session t p)).0 _
        (k.start_listener (put_tun_session t p) w) w

  pub stop_tun-keeps : (p : Program V L R S) → Q p.core → Q (stop_tun out p).core
  unfolding stop_tun
  stop_tun-keeps p v =
      let t = stop_tun_locked p.core.tun in
      let w = any_tun t p.core v in
      either_way Holds p.core.is_running (stop_listener out (put_tun_session t p)).0
        (put_tun_session t p) (k.stop_listener (put_tun_session t p) w) w

  settle-keeps :
      (callback : ℕ) (r : Program V L R S × String) (w : World (Program V L R S))
      → Q r.0.core
      → Q (settle out callback r w).state.core
  unfolding settle answer
  settle-keeps callback (p, text) w v =
      either_way Holds (text == "") p (set_running false p) v (any_running false p.core v)

  pub quick_setup-keeps :
      (callback : ℕ) (init_text setup_text : String) (w : World (Program V L R S))
      → Q w.state.core
      → Q (quick_setup out callback init_text setup_text w).state.core
  unfolding quick_setup answer
  quick_setup-keeps callback init_text setup_text w v =
      let up = k.init_clash init_text w.state v in
      let running = set_running true (init_clash out init_text w.state).0 in
      either_way (λ (u : World (Program V L R S)). Q u.state.core)
        (init_clash out init_text w.state).1 _ _
        (settle-keeps callback (setup_config out setup_text running) w (
          k.setup_config setup_text running
            (any_running true (init_clash out init_text w.state).0.core up)))
        up
