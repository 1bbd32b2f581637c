-- ===== src/Settings/Maintenance/Laws.antt =====
-- Which settings a reset writes, and when it is refused.
use rpi_nest_api.Prelude.{
  Listed, here, later, String, Bool, true, false, ◌≡◌, ◌≢◌, refl, none, some, List, [], ◌∷◌, arith,
  is_some, Option-cases, inl, inr, ap, subst, ◌∙◌,
}
use rpi_nest_api.Exec.{Void, Result, ok, err, conflict}
use rpi_nest_api.Settings.{
  SettingsKey, authentication, metadata, test, SettingsType, SettingsStore, default_settings,
  all_settings_keys,
}
use rpi_nest_api.Settings.Maintenance.{
  not_empty, reset_one, reset_each, run_reset_all_defaults, handle_conflict, some_not_empty,
  finished, failed,
}

module _ {St : Type 0} (db : SettingsStore St) where
  reset_one_refused :
      (k : SettingsKey) (v : SettingsType k) (s : St)
      → db.get s k ≡ some v
      → reset_one db false k s ≡ (err (conflict (not_empty k)), s)
  unfolding reset_one
  reset_one_refused k v s e = rw (db.does_exist_lem s k, e)

  reset_one_missing :
      (b : Bool) (k : SettingsKey) (s : St)
      → db.get s k ≡ none
      → reset_one db b k s ≡ (ok tt, db.put s k (default_settings k))
  unfolding reset_one
  reset_one_missing b k s e = rw (db.does_exist_lem s k, e)

  reset_one_forced :
      (k : SettingsKey) (s : St) → reset_one db true k s ≡ (ok tt, db.put s k (default_settings k))
  unfolding reset_one
  reset_one_forced k s = ground arith

  put-keeps :
      (k j : SettingsKey) (v : SettingsType j) (s : St)
      → db.get s k ≡ none
      → db.get s j ≡ some v
      → db.get (db.put s k (default_settings k)) j ≡ some v
  put-keeps k j v s missing e = db.get-put_other s k j (default_settings k) differ ∙ e
    where
      differ : j ≢ k
      differ same =
          let present : is_some (db.get s k) ≡ true =
            subst (λ i. is_some (db.get s i) ≡ true) same (ap is_some e) in
          cc (ap is_some missing)

  reset_each-keeps :
      (ks : List SettingsKey) (j : SettingsKey) (v : SettingsType j) (s : St)
      → db.get s j ≡ some v
      → db.get (reset_each db false ks s).1 j ≡ some v
  unfolding reset_each
  reset_each-keeps [] j v s e = e
  reset_each-keeps (k ∷ ks) j v s e = elim (Option-cases (db.get s k)) [
    | inl missing ↦
        rw (reset_one_missing false k s missing)
          (reset_each-keeps ks j v (db.put s k (default_settings k)) (put-keeps k j v s missing e))
    | inr (w, present) ↦ rw (reset_one_refused k w s present) e
  ]

  in_rest :
      (k j : SettingsKey) (v : SettingsType j) (ks : List SettingsKey) (s : St)
      → db.get s k ≡ none
      → db.get s j ≡ some v
      → Listed j (k ∷ ks)
      → Listed j ks
  in_rest k j v ks s missing e here = cc
  in_rest k j v ks s missing e (later h) = h

  reset_each_refused :
      (ks : List SettingsKey) (j : SettingsKey) (v : SettingsType j) (s : St)
      → Listed j ks
      → db.get s j ≡ some v
      → (i : SettingsKey) × ((reset_each db false ks s).0 ≡ err (conflict (not_empty i)))
  unfolding reset_each
  reset_each_refused [] j v s h e = elim h [ ]
  reset_each_refused (k ∷ ks) j v s h e = elim (Option-cases (db.get s k)) [
    | inl missing ↦ rw (reset_one_missing false k s missing) (
        reset_each_refused ks j v (db.put s k (default_settings k)) (in_rest k j v ks s missing e h)
          (put-keeps k j v s missing e))
    | inr (w, present) ↦ rw (reset_one_refused k w s present) (k, refl)
  ]

  abbrev put_default : St → SettingsKey → St
  put_default s k = db.put s k (default_settings k)

  -- The store after all defaults have been written.
  abbrev put_defaults : St → St
  put_defaults s = put_default (put_default (put_default s authentication) metadata) test

  get-put_default : (s : St) (k j : SettingsKey) → j ≢ k → db.get (put_default s k) j ≡ db.get s j
  get-put_default s k j h = db.get-put_other s k j (default_settings k) h

  get-put_defaults :
      (s : St) (k : SettingsKey) → db.get (put_defaults s) k ≡ some (default_settings k)
  get-put_defaults s authentication =
      get-put_default _ test authentication (λ e. cc)
      ∙ get-put_default _ metadata authentication (λ e. cc)
      ∙ db.get-put_self s authentication _
  get-put_defaults s metadata =
      get-put_default _ test metadata (λ e. cc) ∙ db.get-put_self _ metadata _
  get-put_defaults s test = db.get-put_self _ test _

  -- With `--force` the command succeeds and every setting has its default value.
  pub reset_forced :
      (s : St)
      → (s' : St) × (run_reset_all_defaults db (some true) s ≡ (ok finished, s'))
        × ((k : SettingsKey) → db.get s' k ≡ some (default_settings k))
  unfolding run_reset_all_defaults
  reset_forced s = (
    put_defaults s,
    rw (
      reset_one_forced authentication s,
      reset_one_forced metadata (put_default s authentication),
      reset_one_forced test (put_default (put_default s authentication) metadata),
    ),
    get-put_defaults s,
  )

  -- Without it, the command writes every default if no setting has a value.
  pub reset_unforced_empty :
      (s : St)
      → ((k : SettingsKey) → db.get s k ≡ none)
      → (s' : St) × (run_reset_all_defaults db none s ≡ (ok finished, s'))
        × ((k : SettingsKey) → db.get s' k ≡ some (default_settings k))
  unfolding run_reset_all_defaults
  reset_unforced_empty s h = (
    put_defaults s,
    rw (
      reset_one_missing false authentication s (h authentication),
      reset_one_missing false metadata (put_default s authentication) second,
      reset_one_missing false test (put_default (put_default s authentication) metadata) third,
    ),
    get-put_defaults s,
  )
    where
      second : db.get (put_default s authentication) metadata ≡ none
      second = get-put_default s authentication metadata (λ e. cc) ∙ h metadata

      third : db.get (put_default (put_default s authentication) metadata) test ≡ none
      third =
          get-put_default _ metadata test (λ e. cc)
          ∙ get-put_default s authentication test (λ e. cc)
          ∙ h test

  all-Listed : (k : SettingsKey) → Listed k all_settings_keys
  all-Listed authentication = here
  all-Listed metadata = later here
  all-Listed test = later (later here)

  run_unforced :
      (s : St)
      → run_reset_all_defaults db none s
        ≡ handle_conflict db (reset_each db false all_settings_keys s)
  unfolding run_reset_all_defaults
  run_unforced s = refl

  handle_conflict_result :
      (r : Result Void × St) (m : String)
      → r.0 ≡ err (conflict m)
      → (handle_conflict db r).0 ≡ ok (failed some_not_empty)
  handle_conflict_result (r, s) m e = rw e

  handle_conflict_state : (r : Result Void × St) → (handle_conflict db r).1 ≡ r.1
  handle_conflict_state (ok _, s) = refl
  handle_conflict_state (err (conflict _), s) = refl
  handle_conflict_state (err e, s) = refl

  -- If some setting has a value, the command reset-all-defaults without --force fails and changes no
  -- setting that has one.
  pub reset_unforced_refused :
      (s : St) (k : SettingsKey) (v : SettingsType k)
      → db.get s k ≡ some v
      → ((run_reset_all_defaults db none s).0 ≡ ok (failed some_not_empty))
        × ((j : SettingsKey) (w : SettingsType j)
            → db.get s j ≡ some w
            → db.get (run_reset_all_defaults db none s).1 j ≡ some w)
  reset_unforced_refused s k v e =
      let (i, refused) = reset_each_refused all_settings_keys k v s (all-Listed k) e in
      rw (run_unforced s) (
        handle_conflict_result (reset_each db false all_settings_keys s) (not_empty i) refused,
        λ j w present.
            rw (handle_conflict_state (reset_each db false all_settings_keys s))
              (reset_each-keeps all_settings_keys j w s present),
      )
