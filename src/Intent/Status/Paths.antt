-- ===== src/Intent/Status/Paths.antt =====
-- What sequences of accepted calls of `transition` can and cannot do to a status.
use trading_snapshot.Base.{ℕ, ◌≤◌, Bool, true, ◌||◌, ◌≡◌, refl, arith}
use trading_snapshot.Intent.Status.{
  Status, created, submitting, accepted, partially_filled, filled, rejected, cancelled, unknown,
  reconciling, closed, same_status, may_move,
}

-- One accepted call of `transition`: the same status again, or a listed move.
unfoldable pub allowed : Status → Status → Bool
unfolding may_move
allowed s t = same_status s t || may_move s t

-- `Moves s t`: some sequence of accepted calls leads from `s` to `t`.
pub data Moves (s : Status) : Status → Type 0 where
  here : Moves s s
  next : {t u : Status} → Moves s t → allowed t u ≡ true → Moves s u

pub Moves-trans : {s t u : Status} → Moves s t → Moves t u → Moves s u
Moves-trans m here = m
Moves-trans m (next n a) = next (Moves-trans m n) a

pub same_status_refl : (s : Status) → same_status s s ≡ true
same_status_refl created = refl
same_status_refl _ = refl

-- The phases of an order's life, from an order that nobody sent to one that is over.
abbrev pub phase : Status → ℕ
phase created = 0
phase cancelled = 0
phase submitting = 1
phase rejected = 1
phase accepted = 2
phase partially_filled = 3
phase unknown = 3
phase reconciling = 3
phase filled = 4
phase closed = 5

phase-le-allowed : (t u : Status) → allowed t u ≡ true → phase t ≤ phase u
unfolding allowed
phase-le-allowed t u a = ground arith

-- Accepted calls never lead back to an earlier phase: what may have reached the broker is never
-- again CREATED or CANCELLED, and what was accepted, or is uncertain, is never submitted again.
pub phase-le-Moves : {s t : Status} → Moves s t → phase s ≤ phase t
phase-le-Moves {s} here = omega arith
phase-le-Moves (next {t = t} {u = u} m a) = omega (arith, phase-le-Moves m, phase-le-allowed t u a)
