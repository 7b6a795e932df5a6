-- ===== src/Runtime/Manager/Kept.antt =====
-- The setters of StateManager (core/state_manager.py) keep a state current.
use trading_snapshot.Base.{
  Bool, true, false, ◌&&◌, some, String, str_eq, str_eq_iff, ◌≡◌, refl, ap, ◌∙◌, sym, subst, inl,
  inr, Bool-cases,
}
use trading_snapshot.Intent.Keys.{str_eq_comm}
use trading_snapshot.Runtime.Json.{
  Json, null, boolean, object, Fields, no_fields, field, lookup, assign, lookup-assign,
  lookup-assign_ne,
}
use trading_snapshot.Runtime.Schema.{default_engine, default_strategy, default_state}
use trading_snapshot.Runtime.Schema.Merge.{Fits, Complete}
use trading_snapshot.Runtime.Schema.Idempotent.{IsCurrent}
use trading_snapshot.Runtime.Manager.{
  Codec, World, is_same, file_exists, save_state, save, edit_state, edit_section, pending_order,
  set_last_signal_bar, set_pending_order, clear_pending_order, set_strategy_value,
  set_execution_cache,
}

-- a value that fits the default of its key, if there is one
abbrev Allows : Fields → String → Json → Type 0
Allows no_fields key v = Unit
Allows (field k d rest) key v = (str_eq k key ≡ true → Fits d v) × Allows rest key v

skip : {A : Type 0} → false ≡ true → A
skip bad = absurd (cc)

Complete-assign :
    (ds fs : Fields) (key : String) (v : Json)
    → Allows ds key v
    → Complete ds fs
    → Complete ds (assign fs key v)
unfolding Fits
Complete-assign no_fields fs key v a h = tt
Complete-assign (field k d rest) fs key v (a, as') ((w, e, f), h) = (
  elim (Bool-cases (str_eq k key)) [
    | inl same ↦
        let eq : k ≡ key = (str_eq_iff k key).0 same in
        (
          v,
          subst (λ q. lookup (assign fs key v) q ≡ some v) (sym eq) (lookup-assign fs key v),
          a same,
        )
    | inr other ↦ (w, lookup-assign_ne fs key k v (str_eq_comm key k ∙ other) ∙ e, f)
  ],
  Complete-assign rest fs key v as' h,
)

module _ (json : Codec) (eq : Fields → Fields → Bool) where
  save_kept :
      (writes : Bool) (w : World) (s : Fields)
      → w.manager.state ≡ some s
      → (save_state json eq writes w (some s)).1.manager.state ≡ some s
  save_kept writes w s e =
      elim (Bool-cases (is_same json eq w.manager.persisted s && file_exists w.disk.file)) [
        | inl kept ↦ rw kept e
        | inr new ↦
            rw new (elim (Bool-cases writes) [ inl fine ↦ rw fine refl | inr broken ↦ rw broken e ])
      ]

  -- the manager holds a current state
  abbrev pub HoldsCurrent : World → Type 0
  HoldsCurrent w = (s : Fields) × (w.manager.state ≡ some s) × IsCurrent s

  edited-HoldsCurrent :
      (writes : Bool) (w : World) (section : String) (edit : Fields → Fields) (s fs : Fields)
      → w.manager.state ≡ some s
      → lookup s section ≡ some (object fs)
      → str_eq section "schema_version" ≡ false
      → Allows default_state section (object (edit fs))
      → IsCurrent s
      → HoldsCurrent (edit_section json eq writes section edit w).1
  unfolding edit_section save
  edited-HoldsCurrent writes w section edit s fs e there other a h =
      subst (λ o. HoldsCurrent (edit_state json eq writes w section edit o).1) (sym e)
        (rw there (
          assign s section (object (edit fs)),
          save_kept writes _ (assign s section (object (edit fs))) refl,
          record {
            complete = Complete-assign default_state s section (object (edit fs)) a h.complete;
            version_is =
                lookup-assign_ne s section "schema_version" (object (edit fs)) other ∙ h.version_is;
          },
        ))

  -- what a complete state has under a section with defaults
  abbrev HasSection : String → Fields → Fields → Type 0
  HasSection section ds s = (v : Json) × (lookup s section ≡ some v) × Fits (object ds) v

  section_there :
      (s : Fields) (section : String) (ds : Fields)
      → HasSection section ds s
      → (fs : Fields) × (lookup s section ≡ some (object fs)) × Complete ds fs
  unfolding Fits
  section_there s section ds (v, e, f) =
      let (fs, is_fs, c) = f in (fs, (e ∙ ap (λ x. some x) is_fs), c)

  section_edit :
      (writes : Bool) (w : World) (section : String) (ds : Fields) (key : String) (v : Json)
      → str_eq section "schema_version" ≡ false
      → ((s : Fields) → IsCurrent s → HasSection section ds s)
      → ((fs : Fields) → Complete ds fs → Allows default_state section (object fs))
      → Allows ds key v
      → HoldsCurrent w
      → HoldsCurrent (edit_section json eq writes section (λ q. assign q key v) w).1
  section_edit writes w section ds key v other part wide a (s, e, h) =
      let (fs, there, c) = section_there s section ds (part s h) in
      edited-HoldsCurrent writes w section (λ q. assign q key v) s fs e there other
        (wide (assign fs key v) (Complete-assign ds fs key v a c)) h

  engine_edit :
      (writes : Bool) (w : World) (key : String) (v : Json)
      → Allows default_engine key v
      → HoldsCurrent w
      → HoldsCurrent (edit_section json eq writes "engine" (λ q. assign q key v) w).1
  unfolding default_state Fits
  engine_edit writes w key v a =
      section_edit writes w "engine" default_engine key v refl (λ s h. h.complete.1.0)
        (λ fs c. (skip, ((λ _. (fs, refl, c)), (skip, (skip, tt))))) a

  strategy_edit :
      (writes : Bool) (w : World) (key : String) (v : Json)
      → HoldsCurrent w
      → HoldsCurrent (edit_section json eq writes "strategy" (λ q. assign q key v) w).1
  unfolding default_state Fits
  strategy_edit writes w key v =
      section_edit writes w "strategy" default_strategy key v refl (λ s h. h.complete.1.1.0)
        (λ fs c. (skip, (skip, ((λ _. (fs, refl, c)), (skip, tt)))))
        ((λ _. tt), ((λ _. tt), ((λ _. tt), tt)))

  cache_edit :
      (writes : Bool) (w : World) (key : String) (v : Json)
      → HoldsCurrent w
      → HoldsCurrent (edit_section json eq writes "execution_cache" (λ q. assign q key v) w).1
  unfolding default_state Fits
  cache_edit writes w key v =
      section_edit writes w "execution_cache" no_fields key v refl (λ s h. h.complete.1.1.1.0)
        (λ fs c. (skip, (skip, (skip, ((λ _. (fs, refl, c)), tt))))) tt

  bar_allowed : (t : Json) → Allows default_engine "last_signal_bar_time" t
  unfolding Fits
  bar_allowed t = ((λ _. tt), (skip, tt))

  pending_allowed :
      (active side retry_after : Json)
      → Allows default_engine "pending_order"
          (object (pending_order json eq active side retry_after))
  unfolding Fits lookup
  pending_allowed active side retry_after = (
    skip,
    (
      (λ _. (
        pending_order json eq active side retry_after,
        refl,
        ((active, refl, tt), ((side, refl, tt), ((retry_after, refl, tt), tt))),
      )),
      tt,
    ),
  )

  -- Each setter leaves the manager with a current state if it had one, whatever is stored and
  -- whether the file can be written.
  pub setters-HoldsCurrent :
      (writes : Bool) (w : World) (key : String) (a b c : Json)
      → HoldsCurrent w
      → HoldsCurrent (set_last_signal_bar json eq writes a w).1
        × HoldsCurrent (set_pending_order json eq writes a b c w).1
        × HoldsCurrent (clear_pending_order json eq writes w).1
        × HoldsCurrent (set_strategy_value json eq writes key a w).1
        × HoldsCurrent (set_execution_cache json eq writes key a w).1
  unfolding set_last_signal_bar clear_pending_order set_pending_order set_strategy_value
      set_execution_cache
  setters-HoldsCurrent writes w key a b c h = (
    engine_edit writes w "last_signal_bar_time" a (bar_allowed a) h,
    engine_edit writes w "pending_order" _ (pending_allowed a b c) h,
    engine_edit writes w "pending_order" _ (pending_allowed (boolean false) null null) h,
    strategy_edit writes w key a h,
    cache_edit writes w key a h,
  )
