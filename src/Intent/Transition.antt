-- ===== src/Intent/Transition.antt =====
-- What `transition` returns, on each of its branches (core/order_intent_store.py).
use trading_snapshot.Base.{
  ℕ, String, true, false, none, some, List, str_eq, str_eq_iff, ◌≡◌, refl, sym, ◌∙◌, ap, subst,
  arith, Bool-cases, inl, inr, Option-cases, any, if◌then◌else◌,
}
use trading_snapshot.Intent.Status.{Status, parse_status}
use trading_snapshot.Intent.Status.Paths.{allowed}
use trading_snapshot.Intent.Row.{OrderIntent, Value, conflicts}
use trading_snapshot.Intent.Table.{
  Table, Result, ok, err, Error, integrity, intent_not_found, unknown_status, not_allowed,
  rolled_back, ◌>>◌, transaction, select_id, update_row, others, replace,
}
use trading_snapshot.Intent.Store.{moved, refetch, move, transition}
use trading_snapshot.Intent.Select.{find?-some, select_id-replace_self, select_id-replace_ne}
use trading_snapshot.Intent.Calls.Effect.{moved-keeps}

module _ {R : Type 0} where
  refetch_found :
      (id : String) (t : Table R) (r : OrderIntent R)
      → select_id id t ≡ some r
      → refetch id t ≡ (ok r, t)
  refetch_found id t r h = ground arith

  update_row_hit :
      (id : String) (new : OrderIntent R) (t : Table R)
      → any (conflicts new) (others id t) ≡ true
      → update_row id new t ≡ (err integrity, t)
  unfolding update_row
  update_row_hit id new t h = rw h refl

  update_row_free :
      (id : String) (new : OrderIntent R) (t : Table R)
      → any (conflicts new) (others id t) ≡ false
      → update_row id new t ≡ (ok tt, replace id new t)
  unfolding update_row
  update_row_free id new t h = rw h refl

  raised :
      (e : Error) (r : OrderIntent R) (t t' : Table R)
      → ◌≡◌ {A = Result (OrderIntent R) × Table R} (err e, t) (ok r, t')
      → ⊥
  raised e r t t' h = ground arith

  written :
      (x r : OrderIntent R) (t t' : Table R)
      → ◌≡◌ {A = Result (OrderIntent R) × Table R} (ok x, t) (ok r, t')
      → (r ≡ x) × (t' ≡ t)
  written x r t t' h = (cc, cc)

  abbrev read_back :
      String → Table R → Result (Unit {0}) × Table R → Result (OrderIntent R) × Table R
  read_back id t u = rolled_back t (((λ _. u) >> refetch id) t)

module _ {R : Type 0} (id name : String) (values : List (Value R)) (now : ℕ) (t : Table R) where
  -- A status that `_TRANSITIONS` lacks is refused before the database is read.
  pub transition_unknown :
      parse_status name ≡ none → transition id name values now t ≡ (err unknown_status, t)
  unfolding transition
  transition_unknown h = rw (h, transition) refl

  pub transition_absent :
      (s : Status)
      → parse_status name ≡ some s
      → select_id id t ≡ none
      → transition id name values now t ≡ (err intent_not_found, t)
  unfolding transition transaction move
  transition_absent s h absent = rw (h, transition) (rw (absent, move) refl)

  module _ (s : Status) (r : OrderIntent R) (known : parse_status name ≡ some s)
      (found : select_id id t ≡ some r) where
    -- A move of an intent of the journal that is not listed in `_TRANSITIONS` raises and changes
    -- nothing.
    pub transition_refused :
        allowed r.status s ≡ false
        → transition id name values now t ≡ (err (not_allowed r.status s), t)
    unfolding transition transaction move allowed
    transition_refused h = rw (known, transition) (rw (found, move) (rw h refl))

    transition-allowed :
        allowed r.status s ≡ true
        → transition id name values now t ≡ read_back id t (update_row id (moved r s values now) t)
    unfolding transition transaction move allowed
    transition-allowed h = rw (known, transition) (rw (found, move) (rw h refl))

    transition_hit :
        allowed r.status s ≡ true
        → any (conflicts (moved r s values now)) (others id t) ≡ true
        → transition id name values now t ≡ (err integrity, t)
    transition_hit h hit =
        transition-allowed h ∙ ap (read_back id t) (update_row_hit id (moved r s values now) t hit)

    named : str_eq (moved r s values now).intent_id id ≡ true
    named =
        let (kept, status) = moved-keeps r s values now in
        rw (kept.intent_id)
          (find?-some (λ x. str_eq x.intent_id id) t r (unfold select_id in found))

    transition_free :
        allowed r.status s ≡ true
        → any (conflicts (moved r s values now)) (others id t) ≡ false
        → transition id name values now t
          ≡ (ok (moved r s values now), replace id (moved r s values now) t)
    transition_free h free =
        let new = moved r s values now in
        transition-allowed h
        ∙ ap (read_back id t) (update_row_free id new t free)
        ∙ ap (rolled_back t)
            (refetch_found id (replace id new t) new (select_id-replace_self id new t named found))

  -- What a transition that returned did.
  pub record Moved (r' : OrderIntent R) (t' : Table R) : Type 0 where
    pub before : OrderIntent R
    pub target : Status
    pub known : parse_status name ≡ some target
    pub found : select_id id t ≡ some before
    pub listed : allowed before.status target ≡ true
    pub row : r' ≡ moved before target values now
    pub status : r'.status ≡ target
    pub stored : (j : String) → select_id j t' ≡ (if str_eq id j then some r' else select_id j t)

  stored_row :
      (j : String) (r : OrderIntent R) (s : Status)
      → str_eq (moved r s values now).intent_id id ≡ true
      → select_id id t ≡ some r
      → select_id j (replace id (moved r s values now) t)
        ≡ (if str_eq id j then some (moved r s values now) else select_id j t)
  stored_row j r s own found =
      let new = moved r s values now in
      elim (Bool-cases (str_eq id j)) [
        | inl hit ↦ rw hit (
            subst (λ i. select_id i (replace id new t) ≡ some new) ((str_eq_iff id j).0 hit)
              (select_id-replace_self id new t own found))
        | inr miss ↦ rw miss (select_id-replace_ne id j new t own miss)
      ]

  moved_row :
      (r' : OrderIntent R) (t' : Table R) (r : OrderIntent R) (s : Status)
      → parse_status name ≡ some s
      → select_id id t ≡ some r
      → allowed r.status s ≡ true
      → r' ≡ moved r s values now
      → t' ≡ replace id (moved r s values now) t
      → Moved r' t'
  moved_row r' t' r s known found listed row table =
      let new = moved r s values now in
      let own = named s r known found in
      record {
        before = r;
        target = s;
        known = known;
        found = found;
        listed = listed;
        row = row;
        status = rw row ((moved-keeps r s values now).1);
        stored = λ j. rw row (rw table (stored_row j r s own found));
      }

  -- A transition that returns has moved this row by a listed move, has returned the row that is
  -- now stored, and has left every other row as it was.
  pub transition_ok :
      (r' : OrderIntent R) (t' : Table R)
      → transition id name values now t ≡ (ok r', t')
      → Moved r' t'
  transition_ok r' t' h = elim (Option-cases (parse_status name)) [
    | inl unlisted ↦ absurd (raised unknown_status r' t t' (sym (transition_unknown unlisted) ∙ h))
    | inr (s, known) ↦ elim (Option-cases (select_id id t)) [
      | inl absent ↦
          absurd (raised intent_not_found r' t t' (sym (transition_absent s known absent) ∙ h))
      | inr (r, found) ↦ elim (Bool-cases (allowed r.status s)) [
        | inr refused ↦ absurd (
            raised (not_allowed r.status s) r' t t'
              (sym (transition_refused s r known found refused) ∙ h))
        | inl listed ↦ elim (Bool-cases (any (conflicts (moved r s values now)) (others id t))) [
          | inl hit ↦
              absurd
                (raised integrity r' t t' (sym (transition_hit s r known found listed hit) ∙ h))
          | inr free ↦
              let new = moved r s values now in
              let (row, table) =
                written new r' (replace id new t) t'
                  (sym (transition_free s r known found listed free) ∙ h) in
              moved_row r' t' r s known found listed row table
        ]
      ]
    ]
  ]
