-- ===== src/Config/Update/Calls.antt =====
-- The config in use and mihomo's own settings after `handleUpdateConfig`.
use libmihomo_android.Base.{
  String, Option, none, some, Bool, true, false, not, if◌then◌else◌, Outcome, ok, err, ◌≡◌, refl,
  ap, sym, ◌∙◌,
}
use mathlib.Core.Path.{subst}
use libmihomo_android.Config.Update.{
  General, UpdateParams, Globals, Settings, merge, Listening, Config, State, update_listeners,
  update_config, update_loaded, handle_update_config,
}
use libmihomo_android.Config.Update.Merges.{InSync, merged, merge-InSync, merge-general}

module _ {V : Type 0} where
  -- That mihomo's settings are those of the config in use, where there is one.
  abbrev pub InStep : Option (Config V) → Globals → Type 0
  InStep none w = Unit
  InStep (some c) w = InSync (record { general = c.general; globals = w })

  module _ {L : Type 0} (ops : Listening V L) where
    -- What `updateListeners` does not touch, and the settings after it.
    abbrev pub Kept : Config V → State V L → Type 0
    Kept c s = (s.current ≡ some c) × InSync (record { general = c.general; globals = s.globals })

    choose :
        (P : State V L → Type 0) (b : Bool) (s t : State V L) → P s → P t → P (if b then s else t)
    choose P true s t p q = p
    choose P false s t p q = q

    pub update_listeners-Kept :
        (c : Config V) (s : State V L) → Kept c s → Kept c (update_listeners ops (some c) s)
    unfolding update_listeners
    update_listeners-Kept c s (e, v) =
        choose (Kept c) (not s.is_running) s _ (e, v)
          (
            e,
            record {
              agree = ap {B = Globals} (λ w. record w { allow_lan = c.general.allow_lan }) v.agree;
            },
          )

    update_config-Kept :
        (p : UpdateParams V) (c : Config V) (s : State V L)
        → InSync (record { general = c.general; globals = s.globals })
        → Kept (record c { general = merged p c.general }) (update_config ops p c s)
    unfolding update_config
    update_config-Kept p c s v =
        let t : Settings V = merge p (record { general = c.general; globals = s.globals }) in
        let same = merge-general p (record { general = c.general; globals = s.globals }) in
        subst (λ g. Kept (record c { general = g }) (update_config ops p c s)) same
          (update_listeners-Kept (record c { general = t.general })
            (record s { current = some (record c { general = t.general }); globals = t.globals })
            (refl, merge-InSync p (record { general = c.general; globals = s.globals }) v))

    update_loaded-InStep :
        (params : Outcome (UpdateParams V)) (o : Option (Config V)) (s : State V L)
        → s.current ≡ o
        → InStep o s.globals
        → InStep (update_loaded ops params o s).0.current (update_loaded ops params o s).0.globals
    unfolding update_loaded
    update_loaded-InStep params none s e v = subst (λ o. InStep o s.globals) (sym e) v
    update_loaded-InStep (err why) (some c) s e v = subst (λ o. InStep o s.globals) (sym e) v
    update_loaded-InStep (ok p) (some c) s e v =
        let (q, w) = update_config-Kept p c s v in
        subst (λ o. InStep o (update_config ops p c s).globals) (sym q) w

    -- Where mihomo's settings were those of the config in use, they are so after an update too, whatever
    -- its answer.
    pub handle_update_config-InStep :
        (params : Outcome (UpdateParams V)) (s : State V L)
        → InStep s.current s.globals
        → InStep
            (handle_update_config ops params s).0.current
            (handle_update_config ops params s).0.globals
    unfolding handle_update_config
    handle_update_config-InStep params s v =
        settled (not s.is_init) "not initialized" (update_loaded-InStep params s.current s refl v)
      where
        settled :
            (b : Bool) (why : String)
            → InStep
                (update_loaded ops params s.current s).0.current
                (update_loaded ops params s.current s).0.globals
            → let r = if b then (s, why) else update_loaded ops params s.current s in
              InStep r.0.current r.0.globals
        settled true why h = v
        settled false why h = h

    pub update_listeners-current :
        (c : Config V) (s : State V L) → (update_listeners ops (some c) s).current ≡ s.current
    unfolding update_listeners
    update_listeners-current c s =
        choose (λ t. t.current ≡ s.current) (not s.is_running) s _ refl refl

    pub update_config-current :
        (p : UpdateParams V) (c : Config V) (s : State V L)
        → (update_config ops p c s).current ≡ some (record c { general = merged p c.general })
    unfolding update_config
    update_config-current p c s =
        let t : Settings V = merge p (record { general = c.general; globals = s.globals }) in
        update_listeners-current (record c { general = t.general })
          (record s { current = some (record c { general = t.general }); globals = t.globals })
        ∙ ap {A = General V} (λ g. some (record c { general = g }))
            (merge-general p (record { general = c.general; globals = s.globals }))

    -- After an init and with a config loaded, an update that is decoded has no error. The config in use is then
    -- the one before with exactly the fields that the update gives changed, those of the TUN included.
    pub handle_update_config-merges :
        (p : UpdateParams V) (c : Config V) (s : State V L)
        → s.is_init ≡ true
        → s.current ≡ some c
        → ((handle_update_config ops (ok p) s).1 ≡ "")
          × ((handle_update_config ops (ok p) s).0.current
              ≡ some (record c { general = merged p c.general }))
    unfolding handle_update_config update_loaded
    handle_update_config-merges p c s up e =
        subst
          (λ (r : State V L × String).
            (r.1 ≡ "") × (r.0.current ≡ some (record c { general = merged p c.general })))
          (sym (
            ap (λ b. if not b then (s, "not initialized") else update_loaded ops (ok p) s.current s)
              up
            ∙ ap (λ o. update_loaded ops (ok p) o s) e))
          (refl, update_config-current p c s)
