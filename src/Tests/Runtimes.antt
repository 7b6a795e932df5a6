-- ===== src/Tests/Runtimes.antt =====
-- The runtime state of a strategy on small files (core/state_manager.py, core/state_schema.py).
use trading_snapshot.Base.{
  Bool, true, false, Option, str_eq, if◌then◌else◌, none, some, [], ◌∷◌, ◌≡◌, refl,
}
use trading_snapshot.Base.Int.{pos}
use trading_snapshot.Runtime.Json.{null, boolean, int, text, object, Fields, no_fields, field}
use trading_snapshot.Runtime.Schema.{
  unsupported_schema, recovery, default_state, done, migrate_state,
}
use trading_snapshot.Runtime.Schema.Idempotent.{IsCurrent, migrate_state-IsCurrent}
use trading_snapshot.Runtime.Manager.{
  Codec, File, undecodable, missing, created, ok, World, load, set_last_signal_bar,
  set_pending_order, clear_pending_order, set_strategy_value, set_execution_cache,
}
use trading_snapshot.Runtime.Manager.Kept.{HoldsCurrent, setters-HoldsCurrent}
use trading_snapshot.Runtime.Manager.Saved.{Loads, load-Loads, default-IsCurrent}

-- a codec that knows the default state
abbrev codec : Codec
codec = record {
  dump = λ s. "{}";
  parse = λ t. if str_eq t "{}" then some (object default_state) else none;
}

-- no persisted copy counts as the same
abbrev never : Fields → Fields → Bool
never s t = false

abbrev at : Option Fields → File → World
at state file = record {
  manager = record { state = state; persisted = none };
  disk = record { file = file; quarantined = [] };
}

-- the flat layout of the oldest files
abbrev flat : Fields
flat =
    field "last_h1_bar_time" (text "2026-01-05") (field "breakeven_done" (boolean true) no_fields)

newer_file :
    migrate_state (object (field "schema_version" (int (pos 3)) no_fields))
    ≡ recovery unsupported_schema
unfolding migrate_state
newer_file = refl

first_load : (load codec never true true (at none missing)).0 ≡ ok created
unfolding load
first_load = refl

damaged_load :
    (load codec never true true (at none undecodable)).1.disk.quarantined ≡ undecodable ∷ []
unfolding load
damaged_load = refl

load-Loads_example :
    Loads codec never (at none undecodable) (load codec never true true (at none undecodable))
load-Loads_example = load-Loads codec never true true (at none undecodable)

abbrev migrated_flat : Fields
migrated_flat = field "schema_version" (int (pos 2)) (
    field "engine"
      (object (
        field "last_signal_bar_time" (text "2026-01-05") (
          field "pending_order"
            (object (
              field "active" (boolean false)
                (field "side" null (field "retry_after" null no_fields))))
            no_fields)))
      (field "strategy"
        (object (
          field "last_long_signal_bar" null
            (field "last_short_signal_bar" null (field "breakeven_done" (boolean true) no_fields))))
        (field "execution_cache" (object no_fields) no_fields)))

migrate_state-IsCurrent_example :
    IsCurrent migrated_flat × (migrate_state (object migrated_flat) ≡ done (migrated_flat, false))
unfolding migrate_state
migrate_state-IsCurrent_example = migrate_state-IsCurrent (object flat) migrated_flat true refl

abbrev ready_world : World
ready_world = at (some default_state) missing

setters-HoldsCurrent_example :
    HoldsCurrent codec never
      (set_last_signal_bar codec never true (text "2026-01-05") ready_world).1
    × HoldsCurrent codec never
        (set_pending_order codec never true (text "2026-01-05") (text "BUY") null ready_world).1
    × HoldsCurrent codec never (clear_pending_order codec never true ready_world).1
    × HoldsCurrent codec never
        (set_strategy_value codec never true "breakeven_done" (text "2026-01-05") ready_world).1
    × HoldsCurrent codec never
        (set_execution_cache codec never true "breakeven_done" (text "2026-01-05") ready_world).1
setters-HoldsCurrent_example =
    setters-HoldsCurrent codec never true ready_world "breakeven_done" (text "2026-01-05")
      (text "BUY") null (default_state, refl, default-IsCurrent codec never)
