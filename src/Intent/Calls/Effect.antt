-- ===== src/Intent/Calls/Effect.antt =====
-- What one call of the journal does to the table: which rows it adds or changes, and how.
use trading_snapshot.Base.{
  ℕ, suc, String, Bool, true, Option, some, List, [], ◌∷◌, ◌++◌, if◌then◌else◌, any, ◌≡◌, refl, ◌∙◌,
  arith, Bool-cases, inl, inr,
}
use trading_snapshot.Intent.Status.{Status}
use trading_snapshot.Intent.Status.Paths.{allowed, same_status_refl}
use trading_snapshot.Intent.Row.{OrderIntent, Value, conflicts, key_of}
use trading_snapshot.Intent.Table.{Table, select_id, update_row, others, replace}
use trading_snapshot.Intent.Store.{
  assign, assign_all, moved, or_now, is_accepted_stage, is_filled_stage,
}
use trading_snapshot.Intent.Keys.{HasNoConflict, HasNoConflict-any}

pub allowed_refl : (s : Status) → allowed s s ≡ true
unfolding allowed
allowed_refl s = rw (same_status_refl s) refl

-- `row[...] or now` keeps a time stamp that is set.
kept_stamp :
    (b : Bool) (old other : Option ℕ) (now n : ℕ)
    → old ≡ some (suc n)
    → other ≡ some (suc n)
    → (if b then or_now old now else other) ≡ some (suc n)
unfolding or_now
kept_stamp b old other now n h k = ground arith

module _ {R : Type 0} where
  -- The columns that no assignment of the program changes, and the time stamps that are set once.
  pub record SameIdentity (a b : OrderIntent R) : Type 0 where
    pub intent_id : a.intent_id ≡ b.intent_id
    pub key : key_of a ≡ key_of b
    pub client_reference : a.client_reference ≡ b.client_reference
    pub created_at : a.created_at ≡ b.created_at
    pub accepted_at : (n : ℕ) → b.accepted_at ≡ some (suc n) → a.accepted_at ≡ some (suc n)
    pub filled_at : (n : ℕ) → b.filled_at ≡ some (suc n) → a.filled_at ≡ some (suc n)

  pub SameIdentity-refl : (r : OrderIntent R) → SameIdentity r r
  SameIdentity-refl r = record {
    intent_id = refl;
    key = refl;
    client_reference = refl;
    created_at = refl;
    accepted_at = λ n h. h;
    filled_at = λ n h. h;
  }

  assign-keeps :
      (r : OrderIntent R) (v : Value R)
      → SameIdentity (assign r v) r × ((assign r v).status ≡ r.status)
  unfolding assign
  assign-keeps r (Value.requested_volume x) = (
    record {
      intent_id = refl;
      key = refl;
      client_reference = refl;
      created_at = refl;
      accepted_at = λ n h. h;
      filled_at = λ n h. h;
    },
    refl,
  )
  assign-keeps r _ = (
    record {
      intent_id = refl;
      key = refl;
      client_reference = refl;
      created_at = refl;
      accepted_at = λ n h. h;
      filled_at = λ n h. h;
    },
    refl,
  )

  pub SameIdentity-trans :
      (a b c : OrderIntent R) → SameIdentity a b → SameIdentity b c → SameIdentity a c
  SameIdentity-trans a b c p q = record {
    intent_id = p.intent_id ∙ q.intent_id;
    key = p.key ∙ q.key;
    client_reference = p.client_reference ∙ q.client_reference;
    created_at = p.created_at ∙ q.created_at;
    accepted_at = λ n h. p.accepted_at n (q.accepted_at n h);
    filled_at = λ n h. p.filled_at n (q.filled_at n h);
  }

  pub assign_all-keeps :
      (r : OrderIntent R) (vs : List (Value R))
      → SameIdentity (assign_all r vs) r × ((assign_all r vs).status ≡ r.status)
  unfolding assign_all
  assign_all-keeps r [] = (SameIdentity-refl r, refl)
  assign_all-keeps r (v ∷ vs) =
      let first = assign-keeps r v in
      let rest = assign_all-keeps (assign r v) vs in
      (
        SameIdentity-trans (assign_all (assign r v) vs) (assign r v) r rest.0 first.0,
        rest.1 ∙ first.1,
      )

  pub moved-keeps :
      (r : OrderIntent R) (s : Status) (vs : List (Value R)) (now : ℕ)
      → SameIdentity (moved r s vs now) r × ((moved r s vs now).status ≡ s)
  unfolding moved
  moved-keeps r s vs now =
      let (same, status) = assign_all-keeps (record r { status = s; updated_at = now }) vs in
      (
        record {
          intent_id = same.intent_id;
          key = same.key;
          client_reference = same.client_reference;
          created_at = same.created_at;
          accepted_at = λ n h.
              kept_stamp (is_accepted_stage s) r.accepted_at
                (assign_all (record r { status = s; updated_at = now }) vs).accepted_at now n h
                (same.accepted_at n h);
          filled_at = λ n h.
              kept_stamp (is_filled_stage s) r.filled_at
                (assign_all (record r { status = s; updated_at = now }) vs).filled_at now n h
                (same.filled_at n h);
        },
        status,
      )

  -- What a call does to the table.
  pub data Effect (t : Table R) : Table R → Type 0 where
    -- it changes nothing
    same : Effect t t
    -- it appends a new row that collides with none
    add : (r : OrderIntent R) → HasNoConflict r t → Effect t (t ++ r ∷ [])
    -- it rewrites the row of one id by an allowed move, and collides with no other row
    change :
        (id : String) (r new : OrderIntent R)
        → select_id id t ≡ some r
        → SameIdentity new r
        → allowed r.status new.status ≡ true
        → HasNoConflict new (others id t)
        → Effect t (replace id new t)

  pub update_row-Effect :
      (id : String) (t : Table R) (r new : OrderIntent R)
      → select_id id t ≡ some r
      → SameIdentity new r
      → allowed r.status new.status ≡ true
      → Effect t (update_row id new t).1
  unfolding update_row
  update_row-Effect id t r new e same_id move_ok =
      elim (Bool-cases (any (conflicts new) (others id t))) [
        | inl hit ↦ rw hit same
        | inr free ↦
            rw free (change id r new e same_id move_ok (HasNoConflict-any new (others id t) free))
      ]
