-- ===== src/Intent/Select.antt =====
-- What the SELECT statements find after an INSERT or an UPDATE (core/order_intent_store.py).
use trading_snapshot.Base.{
  String, Bool, true, false, none, some, List, [], ◌∷◌, ◌++◌, str_eq, str_eq_iff, filter, find?,
  ◌≡◌, refl, ap, arith, Bool-cases, inl, inr,
}
use trading_snapshot.Intent.Row.{OrderIntent}
use trading_snapshot.Intent.Table.{Table, select_id, select_active, active_for, earliest, replace}

pub find?-some {ℓ} :
    {A : Type ℓ} (p : A → Bool) (xs : List A) (a : A) → find? p xs ≡ some a → p a ≡ true
find?-some p [] a h = cc
find?-some p (x ∷ xs) a h = elim (Bool-cases (p x)) [
  | inl hit ↦ (let e : some x ≡ some a = rw hit at h in ground arith)
  | inr miss ↦ find?-some p xs a (rw miss at h)
]

-- what is found stands in the list
pub find?-stands {ℓ} :
    {A : Type ℓ} (p : A → Bool) (xs : List A) (a : A)
    → find? p xs ≡ some a
    → (before after : List A) × (xs ≡ before ++ a ∷ after)
find?-stands p [] a h = cc
find?-stands p (x ∷ xs) a h = elim (Bool-cases (p x)) [
  | inl hit ↦ (let e : some x ≡ some a = rw hit at h in ([], xs, ap (λ y. y ∷ xs) (ground arith)))
  | inr miss ↦
      let (before, after, e) = find?-stands p xs a (rw miss at h) in
      (x ∷ before, after, ap (λ ys. x ∷ ys) e)
]

pub find?-append {ℓ} :
    {A : Type ℓ} (p : A → Bool) (xs ys : List A) (a : A)
    → find? p xs ≡ some a
    → find? p (xs ++ ys) ≡ some a
find?-append p [] ys a h = cc
find?-append p (x ∷ xs) ys a h = ground (arith, find?-append p xs ys a)

-- A text equal to one that differs from a third.
pub str_eq_diff : (a id j : String) → str_eq a id ≡ true → str_eq id j ≡ false → str_eq a j ≡ false
str_eq_diff a id j e n = ground (arith, str_eq_iff a id, str_eq_iff id j, str_eq_iff a j)

pub find?-append_none {ℓ} :
    {A : Type ℓ} (p : A → Bool) (xs ys : List A)
    → find? p xs ≡ none
    → find? p (xs ++ ys) ≡ find? p ys
find?-append_none p [] ys h = refl
find?-append_none p (x ∷ xs) ys h = ground (arith, find?-append_none p xs ys)

module _ {R : Type 0} where
  pub select_id-replace_self :
      (id : String) (new : OrderIntent R) (t : Table R) {r : OrderIntent R}
      → str_eq new.intent_id id ≡ true
      → select_id id t ≡ some r
      → select_id id (replace id new t) ≡ some new
  unfolding select_id replace
  select_id-replace_self id new [] e h = cc
  select_id-replace_self id new (x ∷ t) e h = elim (Bool-cases (str_eq x.intent_id id)) [
    | inl hit ↦ rw hit (rw e refl)
    | inr miss ↦ rw (miss) (rw miss (select_id-replace_self id new t e (rw miss at h)))
  ]

  pub select_id-replace_ne :
      (id j : String) (new : OrderIntent R) (t : Table R)
      → str_eq new.intent_id id ≡ true
      → str_eq id j ≡ false
      → select_id j (replace id new t) ≡ select_id j t
  unfolding select_id replace
  select_id-replace_ne id j new [] e n = refl
  select_id-replace_ne id j new (x ∷ t) e n = elim (Bool-cases (str_eq x.intent_id id)) [
    | inl hit ↦ rw hit (
        rw (str_eq_diff new.intent_id id j e n)
          (rw (str_eq_diff x.intent_id id j hit n) (select_id-replace_ne id j new t e n)))
    | inr miss ↦ rw miss (rw (select_id-replace_ne id j new t e n) refl)
  ]

  earliest-none : (t : Table R) → earliest t ≡ none → t ≡ []
  unfolding earliest
  earliest-none [] h = refl
  earliest-none (x ∷ t) h = cc

  -- `select_active` finds nothing exactly when no row of the strategy is active.
  pub active_none :
      (account strategy : String) (t : Table R)
      → select_active account strategy t ≡ none
      → filter (active_for account strategy) t ≡ []
  unfolding select_active
  active_none account strategy t h = earliest-none (filter (active_for account strategy) t) h
