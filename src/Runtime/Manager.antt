-- ===== src/Runtime/Manager.antt =====
-- StateManager (core/state_manager.py) over the file of one strategy. How JSON is written and read
-- is a parameter; whether a write or a copy succeeds is an answer of the environment.
-- `os.replace` is atomic, so a failed save leaves the file. `eq` is `==` of two decoded dicts.
-- Messages are left out.
pub mod Saved
pub mod Kept
use trading_snapshot.Base.{
  ℕ, Bool, true, false, not, ◌&&◌, Option, none, some, is_some, List, [], ◌∷◌, String, str_eq, ◌==◌,
  if◌then◌else◌,
}
use trading_snapshot.Base.Int.{ℤ, leb_ℤ, pos, negsuc}
use trading_snapshot.Runtime.Json.{
  Json, null, boolean, int, real, text, array, object, Fields, no_fields, field, Elements,
  no_elements, element, lookup, assign, remove,
}
use trading_snapshot.Runtime.Schema.{
  RecoveryCode, malformed_json, io_error, Outcome, done, recovery, default_pending, default_state,
  migrate_state,
}

-- `json.dump(state, file, indent=4, sort_keys=True)` with the newline after it, and `json.load`,
-- where `none` is a JSONDecodeError.
pub record Codec : Type 0 where
  pub dump : Fields → String
  pub parse : String → Option Json

-- The state file: absent, unreadable (OSError), not UTF-8, or a text.
pub data File : Type 0 where
  missing unreadable undecodable : File
  contents : String → File

pub data Status : Type 0 where
  created loaded migrated : Status
  -- `ready` is False; the flag tells that a copy was put aside
  recovery_required : RecoveryCode → Bool → Status

pub record StateManager : Type 0 where
  pub state : Option Fields
  pub persisted : Option Fields

-- The file and the copies of damaged files beside it.
pub record Disk : Type 0 where
  pub file : File
  pub quarantined : List File

-- What a method returns or raises; `key_error` also where `None` is indexed (TypeError).
pub data Raised : Type 0 where
  state_not_loaded write_failed key_error : Raised

pub data Result (A : Type 0) : Type 0 where
  ok : A → Result A
  err : Raised → Result A

pub record World : Type 0 where
  pub manager : StateManager
  pub disk : Disk

abbrev pub file_exists : File → Bool
file_exists missing = false
file_exists unreadable = true
file_exists undecodable = true
file_exists (contents t) = true

module _ (json : Codec) (eq : Fields → Fields → Bool) where
  abbrev pub is_same : Option Fields → Fields → Bool
  is_same none s = false
  is_same (some t) s = eq t s

  -- The flag is False where nothing was written.
  abbrev pub save_state : Bool → World → Option Fields → Result Bool × World
  save_state writes w none = (err state_not_loaded, w)
  save_state writes w (some s) =
      if is_same w.manager.persisted s && file_exists w.disk.file
      then (ok false, w)
      else if writes
      then (
        ok true,
        record {
          manager = record { state = some s; persisted = some s };
          disk = record { file = contents (json.dump s); quarantined = w.disk.quarantined };
        },
      )
      else (err write_failed, w)

  unfoldable pub save : Bool → World → Result Bool × World
  save writes w = save_state writes w w.manager.state

  abbrev pub with_manager : StateManager → World → World
  with_manager m w = record { manager = m; disk = w.disk }

  abbrev pub report : Status → Result Bool × World → Result Status × World
  report status (ok b, w) = (ok status, w)
  report status (err e, w) = (err e, w)

  -- a new state, saved under a status
  unfoldable pub adopt : Status → Bool → Fields → World → Result Status × World
  unfolding save
  adopt status writes s w =
      report status (save writes (with_manager (record { state = some s; persisted = none }) w))

  -- `_recovery_required`, with the copy of `_quarantine_corrupt_file`
  unfoldable pub recovery_needed : RecoveryCode → Bool → Bool → World → Result Status × World
  recovery_needed code quarantine copies w = (
    ok (recovery_required code (quarantine && copies)),
    record {
      manager = record { state = none; persisted = none };
      disk = record {
        file = w.disk.file;
        quarantined =
            if quarantine && copies then w.disk.file ∷ w.disk.quarantined else w.disk.quarantined;
      };
    },
  )

  abbrev pub load_document : Bool → World → Outcome (Fields × Bool) → Result Status × World
  load_document writes w (recovery code) = recovery_needed code false false w
  load_document writes w (done (s, true)) = adopt migrated writes s w
  load_document writes w (done (s, false)) =
      (ok loaded, with_manager (record { state = some s; persisted = some s }) w)

  abbrev pub load_parsed : Bool → Bool → World → Option Json → Result Status × World
  load_parsed writes copies w none = recovery_needed malformed_json true copies w
  load_parsed writes copies w (some j) = load_document writes w (migrate_state j)

  abbrev pub load_file : Bool → Bool → World → File → Result Status × World
  load_file writes copies w missing =
      report created
        (save writes (with_manager (record w.manager { state = some default_state }) w))
  load_file writes copies w unreadable = recovery_needed io_error true copies w
  load_file writes copies w undecodable = recovery_needed malformed_json true copies w
  load_file writes copies w (contents t) = load_parsed writes copies w (json.parse t)

  unfoldable pub load : Bool → Bool → World → Result Status × World
  unfolding save adopt recovery_needed migrate_state default_state
  load writes copies w = load_file writes copies w w.disk.file

  unfoldable pub reset : Bool → World → Result Bool × World
  unfolding save default_state
  reset writes w = save writes (with_manager (record w.manager { state = some default_state }) w)

  -- `self.state[section]` as a dict, changed in place, and saved
  abbrev pub section_of : Option Json → Option Fields
  section_of (some (object fs)) = some fs
  section_of _ = none

  abbrev pub edited :
      Bool → World → String → (Fields → Fields) → Fields → Option Fields → Result Bool × World
  edited writes w section edit s none = (err key_error, w)
  edited writes w section edit s (some fs) =
      save writes
        (with_manager (record w.manager { state = some (assign s section (object (edit fs))) }) w)

  abbrev pub edit_state :
      Bool → World → String → (Fields → Fields) → Option Fields → Result Bool × World
  edit_state writes w section edit none = (err key_error, w)
  edit_state writes w section edit (some s) =
      edited writes w section edit s (section_of (lookup s section))

  unfoldable pub edit_section : Bool → String → (Fields → Fields) → World → Result Bool × World
  unfolding save assign lookup
  edit_section writes section edit w = edit_state writes w section edit w.manager.state

  unfoldable pub set_last_signal_bar : Bool → Json → World → Result Bool × World
  unfolding edit_section
  set_last_signal_bar writes bar_time =
      edit_section writes "engine" (λ e. assign e "last_signal_bar_time" bar_time)

  abbrev pub pending_order : Json → Json → Json → Fields
  pending_order active side retry_after =
      field "active" active (field "side" side (field "retry_after" retry_after no_fields))

  unfoldable pub set_pending_order : Bool → Json → Json → Json → World → Result Bool × World
  unfolding edit_section
  set_pending_order writes active side retry_after =
      edit_section writes "engine"
        (λ e. assign e "pending_order" (object (pending_order active side retry_after)))

  unfoldable pub clear_pending_order : Bool → World → Result Bool × World
  unfolding set_pending_order
  clear_pending_order writes = set_pending_order writes (boolean false) null null

  unfoldable pub set_strategy_value : Bool → String → Json → World → Result Bool × World
  unfolding edit_section
  set_strategy_value writes key v = edit_section writes "strategy" (λ e. assign e key v)

  unfoldable pub set_execution_cache : Bool → String → Json → World → Result Bool × World
  unfolding edit_section
  set_execution_cache writes position_id payload =
      edit_section writes "execution_cache" (λ e. assign e position_id payload)

  abbrev pub cleared : Bool → World → String → Option Fields → Result Bool × World
  cleared writes w position_id none = (err key_error, w)
  cleared writes w position_id (some s) = at_cache (section_of (lookup s "execution_cache"))
    where
      at_cache : Option Fields → Result Bool × World
      at_cache none = (err key_error, w)
      at_cache (some fs) =
          if is_some (lookup fs position_id)
          then edit_section writes "execution_cache" (λ e. remove e position_id) w
          else (ok false, w)

  unfoldable pub clear_execution_cache : Bool → String → World → Result Bool × World
  unfolding edit_section lookup
  clear_execution_cache writes position_id w = cleared writes w position_id w.manager.state
