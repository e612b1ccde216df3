-- ===== src/Config/InUse.antt =====
-- Which config is in use after `applyConfig`.
use libmihomo_android.Base.{
  String, List, [], ◌∷◌, ◌++◌, Option, none, some, ◌≡◌, refl, ap, Outcome, ok, err,
}
use libmihomo_android.Config.Apply.{
  Loader, State, Proxy, config_of, error_of, or_default, execute, load_raw, handle_get_config,
  apply_config,
}

-- The config of a file: the chain of reading, decoding and parsing.
unfoldable pub config_in : {B R C : Type 0} → Loader B R C → Outcome R → Outcome C
config_in l (err why) = err why
config_in l (ok raw) = l.parse raw

parsed :
    {B R C : Type 0} (l : Loader B R C) (o : Outcome R) (fallback : Outcome C) (s : State C) (c : C)
    → config_in l o ≡ ok c
    → ((load_raw l o s).0 ≡ none) × (or_default fallback (load_raw l o s).1.current ≡ some c)
unfolding load_raw or_default config_in
parsed l (err why) fallback s c e = cc
parsed l (ok raw) fallback s c e = (ap error_of e, ap (λ x. or_default fallback (config_of x)) e)

-- The default config, where it parses.
unfoldable pub parsed_default : {B R C : Type 0} → Loader B R C → Option C
parsed_default l = elim (l.parse l.default_raw) [ ok c ↦ some c | err why ↦ none ]

unread :
    {B R C : Type 0} (l : Loader B R C) (o : Outcome R) (s : State C) (why : String)
    → o ≡ err why
    → load_raw l o s ≡ (some why, s)
unfolding load_raw
unread l o s why e = ap (λ x. load_raw l x s) e

module _ {B R C : Type 0} (l : Loader B R C) (buf : Outcome B) (selected : String → Option String)
    (proxies : List Proxy) (s : State C) where
  -- Where the default config parses, a config is in use after `applyConfig`, whatever failed, and it is the
  -- last that the executor was given.
  pub apply_config-in_use :
      (d : C)
      → l.parse l.default_raw ≡ ok d
      → (c : C) × ((apply_config l buf selected proxies s).1.current ≡ some c)
        × ((apply_config l buf selected proxies s).1.applied
            ≡ (load_raw l (handle_get_config l buf) s).1.applied ++ (some c ∷ []))
  unfolding apply_config execute or_default
  apply_config-in_use d e = chosen (load_raw l (handle_get_config l buf) s).1.current
    where
      chosen :
          (o : Option C)
          → (c : C) × (or_default (l.parse l.default_raw) o ≡ some c)
            × ((load_raw l (handle_get_config l buf) s).1.applied
                  ++ (or_default (l.parse l.default_raw) o ∷ [])
                ≡ (load_raw l (handle_get_config l buf) s).1.applied ++ (some c ∷ []))
      chosen none = (
        d,
        ap config_of e,
        ap (λ x. (load_raw l (handle_get_config l buf) s).1.applied ++ (config_of x ∷ [])) e,
      )
      chosen (some c) = (c, refl, refl)

  -- Where the file is read, decoded and parsed, `applyConfig` returns no error and the config of the file is
  -- in use.
  pub apply_config-parsed :
      (c : C)
      → config_in l (handle_get_config l buf) ≡ ok c
      → ((apply_config l buf selected proxies s).0 ≡ none)
        × ((apply_config l buf selected proxies s).1.current ≡ some c)
  unfolding apply_config execute
  apply_config-parsed c e = parsed l (handle_get_config l buf) (l.parse l.default_raw) s c e

  -- Where the file cannot be read or decoded, `applyConfig` returns that error. The config before it stays in
  -- use, and is given to the executor; where there was none it is the default one, if that parses.
  pub apply_config-unread :
      (why : String)
      → handle_get_config l buf ≡ err why
      → let (failure, t) = apply_config l buf selected proxies s in
        (failure ≡ some why)
        × (t.current ≡ (elim (s.current) [ some c ↦ some c | none ↦ parsed_default l ]))
        × (t.applied ≡ s.applied ++ (t.current ∷ []))
        × (t.captured ≡ s.captured)
  unfolding apply_config execute or_default parsed_default
  apply_config-unread why e =
      rw (unread l (handle_get_config l buf) s why e) (refl, chosen s.current, refl, refl)
    where
      chosen_default : (o : Outcome C) → config_of o ≡ (elim o [ ok c ↦ some c | err why ↦ none ])
      chosen_default (ok c) = refl
      chosen_default (err why) = refl

      chosen :
          (o : Option C)
          → or_default (l.parse l.default_raw) o
            ≡ (elim o [ some c ↦ some c | none ↦ parsed_default l ])
      chosen none = chosen_default (l.parse l.default_raw)
      chosen (some c) = refl
