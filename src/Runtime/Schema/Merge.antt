-- ===== src/Runtime/Schema/Merge.antt =====
-- What `recursive_defaults_merge` (core/state_schema.py) returns has every key of the defaults,
-- and is left alone by a second merge.
use trading_snapshot.Base.{
  Bool, true, false, Option, none, some, String, str_eq, str_eq_iff, ◌≡◌, refl, ◌∙◌, subst, inl,
  inr, Bool-cases, arith,
}
use trading_snapshot.Runtime.Json.{
  Json, null, boolean, int, real, text, array, object, Fields, no_fields, field, lookup, assign,
  is_object, lookup-assign, lookup-assign_ne, assign_same,
}
use trading_snapshot.Runtime.Schema.{
  Outcome, done, recovery, ◌>>=◌, default_state, need_object, merge, merge_one, merge_items,
}

pub >>=-done :
    {A B : Type 0} (o : Outcome A) {f : A → Outcome B} {b : B}
    → (o >>= f) ≡ done b
    → (a : A) × (o ≡ done a) × (f a ≡ done b)
>>=-done {B = B} (recovery e) {f} {b} h =
    absurd (let bad : ◌≡◌ {A = Outcome B} (recovery e) (done b) = h in cc)
>>=-done (done a) h = (a, refl, h)

-- What a default asks of a value: nothing, or for an object of defaults all its keys, each with a
-- value that fits its own default.
unfoldable mutual
  pub Fits : Json → Json → Type 0
  Fits null v = Unit
  Fits (boolean b) v = Unit
  Fits (int n) v = Unit
  Fits (real x) v = Unit
  Fits (text t) v = Unit
  Fits (array es) v = Unit
  Fits (object ds) v = (fs : Fields) × (v ≡ object fs) × Complete ds fs

  pub Complete : Fields → Fields → Type 0
  Complete no_fields fs = Unit
  Complete (field k d rest) fs = ((v : Json) × (lookup fs k ≡ some v) × Fits d v) × Complete rest fs

-- a value that fits is merged into itself
mutual
  unfolding merge Fits

  Fits-merge : (d v : Json) → Fits d v → merge d v ≡ done v
  Fits-merge null v h = refl
  Fits-merge (boolean b) v h = refl
  Fits-merge (int n) v h = refl
  Fits-merge (real x) v h = refl
  Fits-merge (text t) v h = refl
  Fits-merge (array es) v h = refl
  Fits-merge (object ds) v (fs, e, c) = rw e (rw (Complete-merge ds fs c) refl)

  pub Complete-merge : (ds fs : Fields) → Complete ds fs → merge_items ds fs fs ≡ done fs
  Complete-merge no_fields fs h = refl
  Complete-merge (field k d rest) fs ((v, e, f), h) = rw e (elim (Bool-cases (is_object d)) [
    | inl nested ↦
        rw nested (rw (Fits-merge d v f) (rw (assign_same fs k v e) (Complete-merge rest fs h)))
    | inr plain ↦ rw plain (Complete-merge rest fs h)
  ])

-- no key of the defaults is `key`
abbrev pub NotIn : String → Fields → Type 0
NotIn key no_fields = Unit
NotIn key (field k d rest) = (str_eq k key ≡ false) × (str_eq key k ≡ false) × NotIn key rest

-- The defaults have distinct keys at every depth.
mutual
  pub Proper : Json → Type 0
  Proper null = Unit
  Proper (boolean b) = Unit
  Proper (int n) = Unit
  Proper (real x) = Unit
  Proper (text t) = Unit
  Proper (array es) = Unit
  Proper (object ds) = ProperFields ds

  pub ProperFields : Fields → Type 0
  ProperFields no_fields = Unit
  ProperFields (field k d rest) = NotIn k rest × Proper d × ProperFields rest

-- what one default does to the object that is written
data Placed (k : String) (d : Json) (value merged fs : Fields) : Type 0 where
  added : lookup value k ≡ none → fs ≡ assign merged k d → Placed k d value merged fs
  kept :
      (v : Json)
      → lookup value k ≡ some v
      → is_object d ≡ false
      → fs ≡ merged
      → Placed k d value merged fs
  nested :
      (v m : Json)
      → lookup value k ≡ some v
      → merge d v ≡ done m
      → fs ≡ assign merged k m
      → Placed k d value merged fs

merge_one-Placed :
    (k : String) (d : Json) (value merged fs : Fields) (b : Bool) (o : Option Json)
    → is_object d ≡ b
    → lookup value k ≡ o
    → merge_one k d (λ v. merge d v) merged b o ≡ done fs
    → Placed k d value merged fs
merge_one-Placed k d value merged fs b none hb ho h = added ho cc
merge_one-Placed k d value merged fs false (some v) hb ho h = kept v ho hb cc
merge_one-Placed k d value merged fs true (some v) hb ho h =
    let (m, e, h') = >>=-done (merge d v) h in nested v m ho e cc

-- the loop leaves a key alone that is not among the defaults
merge_items-other :
    (ds value merged m : Fields) (key : String)
    → NotIn key ds
    → merge_items ds value merged ≡ done m
    → lookup m key ≡ lookup merged key
unfolding merge
merge_items-other no_fields value merged m key n h = let e : merged ≡ m = cc in rw e refl
merge_items-other (field k d rest) value merged m key n h =
    let (fs, one, h') = >>=-done _ h in
    merge_items-other rest value fs m key n.2 h'
    ∙ untouched (merge_one-Placed k d value merged fs (is_object d) (lookup value k) refl refl one)
  where
    untouched : {gs : Fields} → Placed k d value merged gs → lookup gs key ≡ lookup merged key
    untouched (added _ e) = rw e (lookup-assign_ne merged k key d n.0)
    untouched (kept v _ _ e) = rw e refl
    untouched (nested v w _ _ e) = rw e (lookup-assign_ne merged k key w n.0)

-- what has been written so far agrees with the value on the defaults that are left
abbrev pub Same : Fields → Fields → Fields → Type 0
Same no_fields value merged = Unit
Same (field k d rest) value merged = (lookup merged k ≡ lookup value k) × Same rest value merged

pub Same-refl : (ds value : Fields) → Same ds value value
Same-refl no_fields value = tt
Same-refl (field k d rest) value = (refl, Same-refl rest value)

Same-assign :
    (ds value merged : Fields) (k : String) (w : Json)
    → NotIn k ds
    → Same ds value merged
    → Same ds value (assign merged k w)
Same-assign no_fields value merged k w n h = tt
Same-assign (field k' d rest) value merged k w n h =
    (lookup-assign_ne merged k k' w n.1 ∙ h.0, Same-assign rest value merged k w n.2 h.1)

Placed-Same :
    (ds value merged fs : Fields) (k : String) (d : Json)
    → NotIn k ds
    → Same ds value merged
    → Placed k d value merged fs
    → Same ds value fs
Placed-Same ds value merged fs k d n h (added _ e) = rw e (Same-assign ds value merged k d n h)
Placed-Same ds value merged fs k d n h (kept v _ _ e) = rw e h
Placed-Same ds value merged fs k d n h (nested v w _ _ e) =
    rw e (Same-assign ds value merged k w n h)

Fits-plain : (d v : Json) → is_object d ≡ false → Fits d v
unfolding Fits
Fits-plain null v h = tt
Fits-plain (boolean b) v h = tt
Fits-plain (int n) v h = tt
Fits-plain (real x) v h = tt
Fits-plain (text t) v h = tt
Fits-plain (array es) v h = tt
Fits-plain (object ds) v h = cc

Complete-below :
    (ds fs : Fields) (k : String) (d : Json)
    → NotIn k ds
    → Complete ds fs
    → Complete ds (field k d fs)
unfolding Fits lookup
Complete-below no_fields fs k d n h = tt
Complete-below (field k' d' rest) fs k d n ((v, e, f), h) =
    ((v, (rw n.1 e), f), Complete-below rest fs k d n.2 h)

-- proper defaults fit themselves
mutual
  unfolding Fits Proper lookup

  Proper-Fits : (d : Json) → Proper d → Fits d d
  Proper-Fits null p = tt
  Proper-Fits (boolean b) p = tt
  Proper-Fits (int n) p = tt
  Proper-Fits (real x) p = tt
  Proper-Fits (text t) p = tt
  Proper-Fits (array es) p = tt
  Proper-Fits (object ds) p = (ds, refl, Proper-Complete ds p)

  pub Proper-Complete : (ds : Fields) → ProperFields ds → Complete ds ds
  Proper-Complete no_fields p = tt
  Proper-Complete (field k d rest) p = (
    (d, (rw ((str_eq_iff k k).1 refl) refl), Proper-Fits d p.1),
    Complete-below rest rest k d p.0 (Proper-Complete rest p.2),
  )

-- A merge over proper defaults returns a value that fits them.
mutual
  unfolding merge Fits Proper

  merge-Fits : (d v m : Json) → Proper d → merge d v ≡ done m → Fits d m
  merge-Fits null v m p h = tt
  merge-Fits (boolean b) v m p h = tt
  merge-Fits (int n) v m p h = tt
  merge-Fits (real x) v m p h = tt
  merge-Fits (text t) v m p h = tt
  merge-Fits (array es) v m p h = tt
  merge-Fits (object ds) v m p h =
      let (fs, _, h1) = >>=-done (need_object v) h in
      let (gs, e, h2) = >>=-done (merge_items ds fs fs) h1 in
      (
        gs,
        (let g : done (object gs) ≡ done m = h2 in cc),
        items-Complete ds fs fs gs p (Same-refl ds fs) e,
      )

  pub items-Complete :
      (ds value merged m : Fields)
      → ProperFields ds
      → Same ds value merged
      → merge_items ds value merged ≡ done m
      → Complete ds m
  items-Complete no_fields value merged m p s h = tt
  items-Complete (field k d rest) value merged m p s h =
      let (fs, one, h') = >>=-done _ h in
      let placed =
        merge_one-Placed k d value merged fs (is_object d) (lookup value k) refl refl one in
      let kept_key = merge_items-other rest value fs m k p.0 h' in
      (
        elim placed [
          | added _ e ↦ (d, kept_key ∙ (rw e (lookup-assign merged k d)), Proper-Fits d p.1)
          | kept v there plain e ↦ (v, kept_key ∙ (rw e (s.0 ∙ there)), Fits-plain d v plain)
          | nested v w _ done_w e ↦
              (w, kept_key ∙ (rw e (lookup-assign merged k w)), merge-Fits d v w p.1 done_w)
        ],
        items-Complete rest value fs m p.2 (Placed-Same rest value merged fs k d p.0 s.1 placed) h',
      )

-- the value of a first key with a plain default is kept
pub first_kept :
    (k : String) (d : Json) (rest value m : Fields) (v : Json)
    → NotIn k rest
    → is_object d ≡ false
    → lookup value k ≡ some v
    → merge_items (field k d rest) value value ≡ done m
    → lookup m k ≡ some v
unfolding merge
first_kept k d rest value m v n plain there h =
    let (fs, one, h') =
      >>=-done (merge_one k d (λ w. merge d w) value (is_object d) (lookup value k)) h in
    let one' : merge_one k d (λ w. merge d w) value false (some v) ≡ done fs =
      subst (λ b. merge_one k d (λ w. merge d w) value b (some v) ≡ done fs) plain
        (subst (λ o. merge_one k d (λ w. merge d w) value (is_object d) o ≡ done fs) there one) in
    let same : fs ≡ value = settled fs one' in
    merge_items-other rest value fs m k n h' ∙ (rw same there)
  where
    settled : (gs : Fields) → done value ≡ done gs → gs ≡ value
    settled gs e = cc

pub default_state-Proper : ProperFields default_state
unfolding default_state Proper
default_state-Proper = ground arith
