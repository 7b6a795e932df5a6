-- ===== src/Account/State/Calls.antt =====
-- The calls of the processes that share an account's store (risk/account_state_store.py), one
-- after another, and the writes that each of them can make.
pub mod Effect
pub mod History
pub mod Once
pub mod Resets
pub mod Observed
use trading_snapshot.Base.{
  Bool, true, false, Option, none, some, List, [], ◌∷◌, ◌++◌, String, any, ◌≡◌, ◌⊎◌,
}
use trading_snapshot.Base.Float.{Floats}
use trading_snapshot.Intent.BrokerId.{Text}
use trading_snapshot.Account.Value.{Result, ok, Value, is_positive}
use trading_snapshot.Account.State.{
  AccountState, Audit, Db, World, read_state, record_equity, halt, reset_if_new, list_reset_audit,
  observed, halted_state, reset_state, has_id,
}

module _ (fs : Floats) where
  open fs use {F}

  pub data Call : Type 0 where
    reads lists : Call
    records : Value fs → Option (Value fs) → Call
    halts : String → Call
    resets : Text → Text → Value fs → Option (Value fs) → Option (Value fs) → Call

  unfoldable pub after : World fs → Call → Db fs → Db fs
  unfolding read_state record_equity halt reset_if_new list_reset_audit
  after w reads d = (read_state fs w d).1
  after w lists d = (list_reset_audit fs w d).1
  after w (records v c) d = (record_equity fs w v c d).1
  after w (halts r) d = (halt fs w r d).1
  after w (resets i r e c b) d = (reset_if_new fs w i r e c b d).1

  -- The calls may come from any number of processes: SQLite orders their transactions.
  unfoldable pub after_all : List (World fs × Call) → Db fs → Db fs
  unfolding after
  after_all [] d = d
  after_all ((w, c) ∷ cs) d = after_all cs (after w c d)

  abbrev pub is_reset : Call → Bool
  is_reset (resets _ _ _ _ _) = true
  is_reset _ = false

  -- The row that an operation starts from: the one there, or the legacy file's.
  abbrev pub Migrates : World fs → Db fs → Option (AccountState fs) → Type 0
  Migrates w d e = (d.state ≡ e) ⊎ ((d.state ≡ none) × (w.legacy ≡ ok e))

  -- What one call writes; `restart` says that it is a reset.
  pub data Write (w : World fs) (e : Option (AccountState fs)) (d : Db fs) (restart : Bool)
      : Db fs → Type 0 where
    adopts : Write w e d restart (record d { state = e })
    observes :
        (starting equity : F)
        → is_positive fs starting ≡ true
        → is_positive fs equity ≡ true
        → Write w e d restart (record d { state = some (observed fs starting equity w.now e) })
    trips :
        (reason : String)
        → Write w e d restart (record d { state = some (halted_state fs reason w.now e) })
    restarts :
        (id reason : Text) (starting equity : F)
        → restart ≡ true
        → is_positive fs starting ≡ true
        → is_positive fs equity ≡ true
        → any (has_id fs id) d.reset_audit ≡ false
        → Write w e d restart (record d {
          state = some (reset_state fs starting equity id w.now e);
          reset_audit =
              d.reset_audit
              ++ (record {
                reset_id = id;
                reset_reason = reason;
                reset_at = w.now;
                old_state = e;
                new_state = reset_state fs starting equity id w.now e;
              })
                ∷ [];
        })

  abbrev pub Effect : World fs → Bool → Db fs → Db fs → Type 0
  Effect w restart d d' =
      (d' ≡ d) ⊎ ((e : Option (AccountState fs)) × Migrates w d e × Write w e d restart d')
