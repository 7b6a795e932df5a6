-- ===== src/Runtime/Schema/Idempotent.antt =====
-- What `migrate_state` (core/state_schema.py) returns: a complete state of the current version,
-- which a second migration leaves alone.
use trading_snapshot.Base.{
  Bool, true, false, ◌||◌, Option, none, some, ◌≡◌, refl, ap, ◌∙◌, subst, inl, inr, Bool-cases,
  if_passed, arith, if◌then◌else◌,
}
use trading_snapshot.Base.Int.{ℤ, pos, negsuc, ltb_ℤ, leb_ℤ}
use trading_snapshot.Runtime.Json.{
  Json, null, boolean, int, real, text, array, object, Fields, lookup, lookup-assign,
}
use trading_snapshot.Runtime.Schema.{
  Outcome, done, recovery, RecoveryCode, invalid_schema, fields_of, default_sections, default_state,
  merge_items, Version, unversioned, version, no_integer, version_of, from_v0, from_v1,
  merged_state, at_version, has, migrate_fields, migrate_root, migrate_state,
}
use trading_snapshot.Runtime.Schema.Merge.{
  Complete, Complete-merge, items-Complete, Same-refl, first_kept, default_state-Proper, >>=-done,
}

-- Every key of the default state is there, nested ones too, and the version is the current one.
pub record IsCurrent (s : Fields) : Type 0 where
  pub complete : Complete default_state s
  pub version_is : lookup s "schema_version" ≡ some (int (pos 2))

merged_state-IsCurrent :
    (b c : Bool) (s m : Fields)
    → lookup s "schema_version" ≡ some (int (pos 2))
    → merged_state b s ≡ done (m, c)
    → IsCurrent m
unfolding merged_state default_state
merged_state-IsCurrent b c s m v h =
    let (fs, e, h1) = >>=-done (merge_items default_state s s) h in
    let same : fs ≡ m = cc in
    subst IsCurrent same (record {
      complete =
          items-Complete default_state s s fs default_state-Proper (Same-refl default_state s) e;
      version_is =
          first_kept "schema_version" (int (pos 2)) default_sections s fs (int (pos 2))
            (ground arith) refl v e;
    })

version_of-version : (o : Option Json) (n : ℤ) → version_of o ≡ version n → o ≡ some (int n)
version_of-version none n h = absurd (let bad : unversioned ≡ version n = h in cc)
version_of-version (some null) n h = absurd (let bad : unversioned ≡ version n = h in cc)
version_of-version (some (int k)) n h = let e : version k ≡ version n = h in cc
version_of-version (some (boolean b)) n h = absurd (let bad : no_integer ≡ version n = h in cc)
version_of-version (some (real x)) n h = absurd (let bad : no_integer ≡ version n = h in cc)
version_of-version (some (text t)) n h = absurd (let bad : no_integer ≡ version n = h in cc)
version_of-version (some (array es)) n h = absurd (let bad : no_integer ≡ version n = h in cc)
version_of-version (some (object fs)) n h = absurd (let bad : no_integer ≡ version n = h in cc)

is_two : (n : ℤ) → ltb_ℤ (pos 2) n ≡ false → leb_ℤ n (pos 1) ≡ false → n ≡ pos 2
is_two (pos n) h k = ap pos (ground arith)
is_two (negsuc n) h k = ground arith

not-recovery : {why : RecoveryCode} {q : Fields × Bool} → recovery why ≡ done q → ⊥
not-recovery h = cc

at_version-IsCurrent :
    (n : ℤ) (b c : Bool) (s m : Fields)
    → (leb_ℤ n (pos 1) ≡ false → lookup s "schema_version" ≡ some (int n))
    → at_version n b s ≡ done (m, c)
    → IsCurrent m
unfolding at_version from_v1
at_version-IsCurrent n b c s m v h0 =
    let known : Outcome (Fields × Bool) =
      if leb_ℤ n (pos 0)
      then merged_state true (from_v1 (from_v0 s))
      else if leb_ℤ n (pos 1)
      then merged_state true (from_v1 s)
      else merged_state b s in
    let (small, h1) =
      if_passed {b = ltb_ℤ (pos 2) n}
        {y = if ltb_ℤ n (pos 0) then recovery invalid_schema else known} not-recovery h0 in
    let (natural, h) = if_passed {b = ltb_ℤ n (pos 0)} {y = known} not-recovery h1 in
    elim (Bool-cases (leb_ℤ n (pos 0))) [
      | inl zeroth ↦
          merged_state-IsCurrent true c (from_v1 (from_v0 s)) m
            (lookup-assign (from_v0 s) "schema_version" (int (pos 2))) (rw zeroth at h)
      | inr later ↦ elim (Bool-cases (leb_ℤ n (pos 1))) [
        | inl first ↦
            merged_state-IsCurrent true c (from_v1 s) m
              (lookup-assign s "schema_version" (int (pos 2))) (rw first at rw later at h)
        | inr second ↦
            merged_state-IsCurrent b c s m
              (v second ∙ ap (λ k. some (int k)) (is_two n small second))
              (rw second at rw later at h)
      ]
    ]

migrate_root-IsCurrent :
    (o : Option Fields) (m : Fields) (c : Bool) → migrate_root o ≡ done (m, c) → IsCurrent m
unfolding migrate_fields
migrate_root-IsCurrent none m c h = absurd (not-recovery h)
migrate_root-IsCurrent (some s) m c h = go (version_of (lookup s "schema_version")) refl h
  where
    go :
        (w : Version)
        → version_of (lookup s "schema_version") ≡ w
        → migrate_fields w s ≡ done (m, c)
        → IsCurrent m
    go no_integer e k = absurd (not-recovery k)
    go (version n) e k = at_version-IsCurrent n false c s m (λ _. version_of-version _ n e) k
    go unversioned e k = elim (Bool-cases (has s "engine" || has s "strategy")) [
      | inl nested ↦ at_version-IsCurrent (pos 1) true c s m (λ bad. absurd (cc)) (rw nested at k)
      | inr flat ↦ at_version-IsCurrent (pos 0) true c s m (λ bad. absurd (cc)) (rw flat at k)
    ]

-- A current state is migrated to itself, as no migration.
pub IsCurrent-migrate_state :
    (s : Fields) → IsCurrent s → migrate_state (object s) ≡ done (s, false)
unfolding migrate_state migrate_fields at_version merged_state
IsCurrent-migrate_state s h = rw h.version_is (rw (Complete-merge default_state s h.complete) refl)

-- A state that a migration returns is complete: it has the current version and every key of the
-- default state, the nested ones too. Migrating it again returns it unchanged, and as not
-- migrated.
pub migrate_state-IsCurrent :
    (raw : Json) (s : Fields) (migrated : Bool)
    → migrate_state raw ≡ done (s, migrated)
    → IsCurrent s × (migrate_state (object s) ≡ done (s, false))
unfolding migrate_state
migrate_state-IsCurrent raw s migrated h =
    let current = migrate_root-IsCurrent (fields_of raw) s migrated h in
    (current, IsCurrent-migrate_state s current)
