-- ===== src/Guard/Execution/Throttle.antt =====
-- What the execution guard (guards/execution_guard.py) guarantees over any run of its methods.
use trading_snapshot.Base.{
  true, false, Option, none, some, List, [], ◌∷◌, if◌then◌else◌, ◌≡◌, refl, arith, ◌∙◌, is_some,
  subst, Bool-cases, inl, inr,
}
use trading_snapshot.Base.Int.{ℤ, ◌+ℤ◌, ◌-ℤ◌, ◌≤ℤ◌, ltb_ℤ, int_laws}
use trading_snapshot.Guard.Execution.{
  Config, ExecutionGuard, can_send_order, mark_order_sent, mark_fill_success, mark_order_failed,
  reset, cooled_down,
}

-- A runner's use of the guard: it asks before it sends, and marks what came of it.
pub data Event : Type 0 where
  -- `can_send_order(now)`, and `mark_order_sent(now)` if it answered True
  try_send : ℤ → Event
  filled order_failed forced_reset : Event

unfoldable pub step : Config → Event → ExecutionGuard → ExecutionGuard
step c (try_send now) g = if can_send_order c g now then mark_order_sent now g else g
step c filled g = mark_fill_success g
step c order_failed g = mark_order_failed g
step c forced_reset g = reset g

unfoldable pub run : Config → List Event → ExecutionGuard → ExecutionGuard
run c [] g = g
run c (e ∷ es) g = run c es (step c e g)

-- The guard is pending exactly while it knows since when, and that is the last order's time.
pub record IsCoherent (g : ExecutionGuard) : Type 0 where
  pub pending : g.pending_execution ≡ is_some g.pending_since
  pub since : g.pending_execution ≡ true → g.pending_since ≡ g.last_order_time

-- The times at which orders went out.
unfoldable pub sends : Config → List Event → ExecutionGuard → List ℤ
sends c [] g = []
sends c (try_send now ∷ es) g =
    let rest = sends c es (step c (try_send now) g) in
    if can_send_order c g now then now ∷ rest else rest
sends c (e ∷ es) g = sends c es (step c e g)

abbrev pub IsAfter : Config → Option ℤ → ℤ → Type 0
IsAfter c none x = Unit
IsAfter c (some last) x = last +ℤ c.execution_cooldown ≤ℤ x

-- Each time is at least the cooldown after the one before it.
abbrev pub IsSpaced : Config → Option ℤ → List ℤ → Type 0
IsSpaced c last [] = Unit
IsSpaced c last (x ∷ xs) = IsAfter c last x × IsSpaced c (some x) xs

not_lt : (a b : ℤ) → ltb_ℤ a b ≡ false → b ≤ℤ a
not_lt a b h = ground arith

cooled_down-IsAfter :
    (c : Config) (last : Option ℤ) (now : ℤ) → cooled_down c last now ≡ true → IsAfter c last now
cooled_down-IsAfter c none now h = tt
cooled_down-IsAfter c (some last) now h =
    let e : ltb_ℤ (now -ℤ last) c.execution_cooldown ≡ false = ground arith in
    omega (int_laws, not_lt (now -ℤ last) c.execution_cooldown e)

can_send-cooled_down :
    (c : Config) (g : ExecutionGuard) (now : ℤ)
    → can_send_order c g now ≡ true
    → cooled_down c g.last_order_time now ≡ true
unfolding can_send_order
can_send-cooled_down c g now h = ground arith

kept_last :
    (c : Config) (e : Event) (g : ExecutionGuard)
    → (step c e g).last_order_time ≡ elim e [
      | try_send now ↦ (if can_send_order c g now then some now else g.last_order_time)
      | _ ↦ g.last_order_time
    ]
unfolding step mark_order_sent mark_fill_success mark_order_failed reset
kept_last c (try_send now) g = ground arith
kept_last c _ g = refl

-- Orders go out at least the cooldown apart, whatever is filled, rejected or reset between them.
pub sends-IsSpaced :
    (c : Config) (es : List Event) (g : ExecutionGuard)
    → IsSpaced c g.last_order_time (sends c es g)
unfolding sends
sends-IsSpaced c [] g = tt
sends-IsSpaced c (try_send now ∷ es) g =
    let ih = sends-IsSpaced c es (step c (try_send now) g) in
    let last = kept_last c (try_send now) g in
    elim (Bool-cases (can_send_order c g now)) [
      | inl sent ↦ rw sent (
        cooled_down-IsAfter c g.last_order_time now (can_send-cooled_down c g now sent),
        subst (λ l. IsSpaced c l (sends c es (step c (try_send now) g))) (last ∙ rw sent refl) ih,
      )
      | inr held ↦ rw held (
          subst (λ l. IsSpaced c l (sends c es (step c (try_send now) g))) (last ∙ rw held refl) ih)
    ]
sends-IsSpaced c (e ∷ es) g =
    subst (λ l. IsSpaced c l (sends c es (step c e g))) (kept_last c e g)
      (sends-IsSpaced c es (step c e g))
