-- ===== src/Runtime/Manager/Saved.antt =====
-- Saving and loading the runtime state of a strategy (core/state_manager.py).
use trading_snapshot.Base.{
  Bool, true, false, ◌&&◌, Option, none, some, ◌≡◌, refl, inl, inr, Bool-cases,
}
use trading_snapshot.Runtime.Json.{Json, Fields, lookup}
use trading_snapshot.Runtime.Schema.Merge.{Proper-Complete, default_state-Proper}
use trading_snapshot.Runtime.Schema.{Outcome, done, recovery, default_state, migrate_state}
use trading_snapshot.Runtime.Schema.Idempotent.{IsCurrent, migrate_state-IsCurrent}
use trading_snapshot.Runtime.Manager.{
  File, missing, unreadable, undecodable, contents, Codec, load_parsed, Status, created, loaded,
  migrated, recovery_required, World, Result, ok, err, state_not_loaded, save_state, save,
  with_manager, report, adopt, recovery_needed, load_document, load_file, load, is_same,
  file_exists,
}

module _ (json : Codec) (eq : Fields → Fields → Bool) where
  -- the manager has no state, and the file is as it was
  abbrev pub IsBlocked : World → World → Type 0
  IsBlocked before after =
      (after.disk.file ≡ before.disk.file)
      × (after.manager.state ≡ none)
      × ((writes : Bool) → save json eq writes after ≡ (err state_not_loaded, after))

  -- What a load tells: a current state, or a file that is left and a manager that cannot save.
  abbrev pub Loads : World → Result Status × World → Type 0
  Loads before (ok (recovery_required code aside), after) = IsBlocked before after
  Loads before (ok created, after) = (s : Fields) × (after.manager.state ≡ some s) × IsCurrent s
  Loads before (ok loaded, after) = (s : Fields) × (after.manager.state ≡ some s) × IsCurrent s
  Loads before (ok migrated, after) = (s : Fields) × (after.manager.state ≡ some s) × IsCurrent s
  Loads before (err e, after) = after.disk.file ≡ before.disk.file

  abbrev is_ready : Status → Bool
  is_ready created = true
  is_ready loaded = true
  is_ready migrated = true
  is_ready (recovery_required code aside) = false

  ready-Loads :
      (before v : World) (s : Fields) (status : Status)
      → is_ready status ≡ true
      → v.manager.state ≡ some s
      → IsCurrent s
      → Loads before (ok status, v)
  ready-Loads before v s created k h current = (s, h, current)
  ready-Loads before v s loaded k h current = (s, h, current)
  ready-Loads before v s migrated k h current = (s, h, current)
  ready-Loads before v s (recovery_required code aside) k h current = absurd (cc)

  adopted-Loads :
      (writes : Bool) (before v : World) (s : Fields) (status : Status)
      → is_ready status ≡ true
      → v.disk.file ≡ before.disk.file
      → v.manager.state ≡ some s
      → IsCurrent s
      → Loads before (report json eq status (save_state json eq writes v (some s)))
  adopted-Loads writes before v s status k e h current =
      elim (Bool-cases (is_same json eq v.manager.persisted s && file_exists v.disk.file)) [
        | inl kept ↦ rw kept (ready-Loads before v s status k h current)
        | inr new ↦ rw new (elim (Bool-cases writes) [
          | inl fine ↦ rw fine (ready-Loads before _ s status k refl current)
          | inr broken ↦ rw broken e
        ])
      ]

  pub default-IsCurrent : IsCurrent default_state
  unfolding default_state lookup
  default-IsCurrent = record {
    complete = Proper-Complete default_state default_state-Proper;
    version_is = refl;
  }

  document-Loads :
      (writes : Bool) (w : World) (j : Json) (o : Outcome (Fields × Bool))
      → migrate_state j ≡ o
      → Loads w (load_document json eq writes w o)
  unfolding adopt recovery_needed save
  document-Loads writes w j (recovery code) e = (refl, refl, λ again. refl)
  document-Loads writes w j (done (s, true)) e =
      adopted-Loads writes w (with_manager json eq (record { state = some s; persisted = none }) w)
        s migrated refl refl refl (migrate_state-IsCurrent j s true e).0
  document-Loads writes w j (done (s, false)) e = (s, refl, (migrate_state-IsCurrent j s false e).0)

  -- A load that is ready leaves the manager with a complete state of the current version. One that
  -- asks for recovery leaves the file as it was and the manager without a state, so that no save
  -- can overwrite the file; one that raises leaves the file too.
  pub load-Loads : (writes copies : Bool) (w : World) → Loads w (load json eq writes copies w)
  unfolding load recovery_needed save
  load-Loads writes copies w = go w.disk.file refl
    where
      parsed-Loads : (o : Option Json) → Loads w (load_parsed json eq writes copies w o)
      parsed-Loads none = (refl, refl, λ again. refl)
      parsed-Loads (some j) = document-Loads writes w j (migrate_state j) refl

      go : (f : File) → w.disk.file ≡ f → Loads w (load_file json eq writes copies w f)
      go missing e =
          adopted-Loads writes w
            (with_manager json eq (record w.manager { state = some default_state }) w) default_state
            created refl refl refl default-IsCurrent
      go unreadable e = (refl, refl, λ again. refl)
      go undecodable e = (refl, refl, λ again. refl)
      go (contents t) e = parsed-Loads (json.parse t)
