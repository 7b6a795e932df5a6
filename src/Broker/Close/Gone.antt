-- ===== src/Broker/Close/Gone.antt =====
-- What a confirmed close (core/broker.py) says of the position, where the terminal does what MT5
-- documents: an order that is done closes the position, a lookup that answers tells the truth, and
-- a position that is gone does not come back. An order without an answer may have closed the
-- position, and so may somebody else while the loop waits.
use trading_snapshot.Base.{
  ℕ, Bool, true, false, ◌==◌, Option, none, some, List, [], ◌∷◌, ◌≡◌, ◌≢◌, ◌⊎◌,
}
use trading_snapshot.Base.Float.{Floats}
use trading_snapshot.Broker.Close.{
  Outcome, nothing, already_closed, query_error, answered, Position, Request, Attempt, Effect,
  looked, sent, slept,
}

module _ (fs : Floats) (round : fs.F → ℕ → fs.F) (done_code : ℕ) where
  open fs use {F}

  -- What becomes of the position while others act, or where the answer to an order leaves it open:
  -- it may be reduced or closed, and does not come back.
  pub data Shrinks : Option F → Option F → Type 0 where
    stays_gone : Shrinks none none
    may_change : (v : F) (after : Option F) → Shrinks (some v) after

  -- The volume of the position before and after the effects, as MT5 documents them, where `none`
  -- is a position that is closed. An order that is done closes the position only with its whole
  -- volume. Nothing happens between a lookup and the order that follows it at once.
  pub data Seen (ticket : ℕ) : Option F → List (Effect fs) → Option F → Type 0 where
    ends : {b : Option F} → Seen ticket b [] b
    closes :
        {b' : Option F} {es : List (Effect fs)} (r : Request fs) (v : F)
        → r.position ≡ ticket
        → r.volume ≡ v
        → Seen ticket none es b'
        → Seen ticket (some v) (sent r (some done_code) ∷ es) b'
    reduces :
        {b' : Option F} {es : List (Effect fs)} (r : Request fs) (v w : F)
        → r.position ≡ ticket
        → r.volume ≢ v
        → Seen ticket (some w) es b'
        → Seen ticket (some v) (sent r (some done_code) ∷ es) b'
    too_late :
        {b' : Option F} {es : List (Effect fs)} (r : Request fs)
        → Seen ticket none es b'
        → Seen ticket none (sent r (some done_code) ∷ es) b'
    refuses :
        {b c b' : Option F} {es : List (Effect fs)} (r : Request fs) (code : ℕ)
        → (code == done_code) ≡ false
        → Shrinks b c
        → Seen ticket c es b'
        → Seen ticket b (sent r (some code) ∷ es) b'
    loses :
        {b c b' : Option F} {es : List (Effect fs)} (r : Request fs)
        → Shrinks b c
        → Seen ticket c es b'
        → Seen ticket b (sent r none ∷ es) b'
    -- an order for another position
    ignores :
        {b b' : Option F} {es : List (Effect fs)} (r : Request fs) (a : Option ℕ)
        → r.position ≢ ticket
        → Seen ticket b es b'
        → Seen ticket b (sent r a ∷ es) b'
    waits :
        {b c b' : Option F} {es : List (Effect fs)}
        → Shrinks b c
        → Seen ticket c es b'
        → Seen ticket b (slept ∷ es) b'
    sees :
        {b' : Option F} {es : List (Effect fs)} (p : Position fs) (ps : List (Position fs))
        → Seen ticket (some p.volume) es b'
        → Seen ticket (some p.volume) (looked (some (p ∷ ps)) ∷ es) b'
    misses :
        {b' : Option F} {es : List (Effect fs)}
        → Seen ticket none es b'
        → Seen ticket none (looked (some []) ∷ es) b'
    fails :
        {b b' : Option F} {es : List (Effect fs)}
        → Seen ticket b es b'
        → Seen ticket b (looked none ∷ es) b'

  abbrev pub is_confirmed : Outcome → Bool
  is_confirmed nothing = false
  is_confirmed already_closed = true
  is_confirmed query_error = false
  is_confirmed (answered retcode) = retcode == done_code

  -- the position has the volume that the next order closes, or is closed
  abbrev Holds : Option F → F → Type 0
  Holds b v = (b ≡ some v) ⊎ (b ≡ none)

  abbrev Answers : Type 0
  Answers = ℕ → Attempt fs
