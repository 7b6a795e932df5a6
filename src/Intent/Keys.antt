-- ===== src/Intent/Keys.antt =====
-- The UNIQUE constraints of the table as an invariant, kept by every statement and operation of
-- the journal (core/order_intent_store.py).
use trading_snapshot.Base.{
  ℕ, String, true, false, [], ◌∷◌, str_eq, str_eq_iff, ◌==◌, any, All, ◌≡◌, refl, sym, arith,
  Bool-cases, Bool-eq_of_iff, inl, inr,
}
use trading_snapshot.Intent.Row.{OrderIntent, conflicts}
use trading_snapshot.Intent.Table.{Table}

pub str_eq_comm : (a b : String) → str_eq a b ≡ str_eq b a
str_eq_comm a b =
    Bool-eq_of_iff (str_eq a b) (str_eq b a) (λ h. (str_eq_iff b a).1 (sym ((str_eq_iff a b).0 h)))
      (λ h. (str_eq_iff a b).1 (sym ((str_eq_iff b a).0 h)))

pub str_eq_refl : (a : String) → str_eq a a ≡ true
str_eq_refl a = (str_eq_iff a a).1 refl

==_comm : (a b : ℕ) → (a == b) ≡ (b == a)
==_comm a b = ground arith

module _ {R : Type 0} where
  abbrev pub HasNoConflict : OrderIntent R → Table R → Type 0
  HasNoConflict r t = All (λ x. conflicts r x ≡ false) t

  -- No two rows collide in a PRIMARY KEY or UNIQUE constraint.
  abbrev pub IsConsistent : Table R → Type 0
  IsConsistent [] = Unit
  IsConsistent (r ∷ t) = HasNoConflict r t × IsConsistent t

  pub HasNoConflict-any :
      (r : OrderIntent R) (t : Table R) → any (conflicts r) t ≡ false → HasNoConflict r t
  HasNoConflict-any r [] h = tt
  HasNoConflict-any r (x ∷ t) h = elim (Bool-cases (conflicts r x)) [
    | inl hit ↦ absurd (let e : true ≡ false = (rw hit at h) in cc)
    | inr free ↦ (free, HasNoConflict-any r t (rw free at h))
  ]

  -- A row with another id is left where it stands.
  abbrev Lacks : String → Table R → Type 0
  Lacks id t = All (λ x. str_eq x.intent_id id ≡ false) t

  pub conflicts_ids :
      (a b : OrderIntent R) → conflicts a b ≡ false → str_eq a.intent_id b.intent_id ≡ false
  unfolding conflicts
  conflicts_ids a b h = ground arith
