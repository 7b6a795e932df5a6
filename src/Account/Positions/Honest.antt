-- ===== src/Account/Positions/Honest.antt =====
-- `flatten_account` (core/account_position_service.py) against a broker that does what MT5
-- documents: a confirmed close removes the position, and nobody else trades meanwhile.
use mathlib.Core.Bool.{◌&&◌}
use trading_snapshot.Base.{
  ℕ, String, Bool, true, false, ◌||◌, not, none, List, [], ◌∷◌, ◌==◌, if◌then◌else◌, filter, ◌≡◌,
  refl, sym, ◌∙◌, ap, subst, arith, some,
}
use trading_snapshot.Base.Int.{ℤ}
use trading_snapshot.Account.Broker.{
  Broker, positions, CloseReply, query_error, unexpected, gone, no_result, result,
}
use trading_snapshot.Account.Positions.{
  FlattenResult, empty, Closing, closed, already_closed, failed, same_ℤ, classify, note,
  close_ticket, close_each, verification, verify_flat, verified, closing_pass, flatten_account,
}
use trading_snapshot.Account.Positions.Flatness.{mem, mem-append}

abbrev pub remove : ℕ → List ℕ → List ℕ
remove t = filter (λ x. not (t == x))

abbrev pub is_gone : Closing → Bool
is_gone closed = true
is_gone already_closed = true
is_gone (failed _) = false

-- What MT5 documents of an answer: the position is gone if it was closed before, or if the
-- return code is TRADE_RETCODE_DONE.
abbrev pub confirms : ℤ → CloseReply → Bool
confirms done gone = true
confirms done (result (some code) _) = same_ℤ code done
confirms done _ = false

classify-confirms : (done : ℤ) (r : CloseReply) → is_gone (classify done r) ≡ confirms done r
unfolding classify
classify-confirms done gone = refl
classify-confirms done (result (some code) c) = ground arith
classify-confirms done (result none c) = refl
classify-confirms done (query_error e) = refl
classify-confirms done (unexpected e) = refl
classify-confirms done no_result = refl

pub record Honest (b : Broker) : Type 0 where
  pub open_tickets : b.State → List ℕ
  pub lists : (s : b.State) → b.list_all_positions s ≡ (positions (open_tickets s), s)
  pub closes :
      (t : ℕ) (s : b.State)
      → open_tickets (b.close_position_by_ticket t s).1 ≡ (
          if confirms b.done (b.close_position_by_ticket t s).0
          then remove t (open_tickets s)
          else open_tickets s)

mem-remove : (x t : ℕ) (xs : List ℕ) → mem x (remove t xs) ≡ (mem x xs && not (x == t))
mem-remove x t [] = refl
mem-remove x t (y ∷ ys) = ground (arith, mem-remove x t ys)

untouched : (x : ℕ) (xs : List ℕ) → mem x xs ≡ (mem x xs && not (false || false))
untouched x xs = ground arith

module _ (b : Broker) (honest : Honest b) where
  open honest use {open_tickets, lists, closes}

  -- What is open now is what was open at first, less what the result reports as gone.
  abbrev IsOpenLess : List ℕ → FlattenResult → b.State → Type 0
  IsOpenLess base r s =
      (x : ℕ)
      → mem x (open_tickets s)
        ≡ (mem x base && not (mem x r.closed_tickets || mem x r.already_closed_tickets))

  note-IsOpenLess :
      (base : List ℕ) (t : ℕ) (c : Closing) (r : FlattenResult) (s s' : b.State)
      → open_tickets s' ≡ (if is_gone c then remove t (open_tickets s) else open_tickets s)
      → IsOpenLess base r s
      → IsOpenLess base (note t c r) s'
  unfolding note
  note-IsOpenLess base t closed r s s' e h x = ground (
    arith,
    ap (mem x) e,
    h x,
    mem-remove x t (open_tickets s),
    mem-append x r.closed_tickets (t ∷ []),
  )
  note-IsOpenLess base t already_closed r s s' e h x = ground (
    arith,
    ap (mem x) e,
    h x,
    mem-remove x t (open_tickets s),
    mem-append x r.already_closed_tickets (t ∷ []),
  )
  note-IsOpenLess base t (failed w) r s s' e h x = ground (arith, ap (mem x) e, h x)

  close_each-IsOpenLess :
      (base ts : List ℕ) (r : FlattenResult) (s : b.State)
      → IsOpenLess base r s
      → IsOpenLess base (close_each b ts r s).0 (close_each b ts r s).1
  unfolding close_each
  close_each-IsOpenLess base [] r s h = h
  close_each-IsOpenLess base (t ∷ ts) r s h =
      let (c, s') = close_ticket b t s in
      close_each-IsOpenLess base ts (note t c r) s' (
        note-IsOpenLess base t c r s s'
          (unfold close_ticket in
            rw (classify-confirms b.done (b.close_position_by_ticket t s).0) (closes t s))
          h)

  abbrev flattened : String → b.State → FlattenResult × b.State
  flattened reason s =
      let (r, s') = close_each b (open_tickets s) (empty reason) s in
      (verified r (verification (positions (open_tickets s'))), s')

  -- The pass when both queries answer.
  flatten-eq : (reason : String) (s : b.State) → flatten_account b reason s ≡ flattened reason s
  unfolding flatten_account verify_flat
  flatten-eq reason s =
      let (r, s') = close_each b (open_tickets s) (empty reason) s in
      ap (λ u. closing_pass b reason u.0 u.1) (lists s)
      ∙ ap (λ u. (verified r (verification u.0), u.1)) (lists s')

  abbrev pub IsHonestResult : b.State → FlattenResult × b.State → Type 0
  IsHonestResult s u =
      IsOpenLess (open_tickets s) u.0 u.1
      × (u.0.remaining_tickets ≡ open_tickets u.1)
      × (u.0.verification_error ≡ none)

  -- With a broker that keeps its word both queries answer, and the tickets reported as remaining
  -- are what is open at the end: what was open at first and was not confirmed gone.
  pub flatten_account-honest :
      (reason : String) (s : b.State) → IsHonestResult s (flatten_account b reason s)
  flatten_account-honest reason s = subst (IsHonestResult s) (sym (flatten-eq reason s)) (
    close_each-IsOpenLess (open_tickets s) (open_tickets s) (empty reason) s
        (λ x. untouched x (open_tickets s)),
    refl,
    refl,
  )
