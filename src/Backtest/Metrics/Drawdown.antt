-- ===== src/Backtest/Metrics/Drawdown.antt =====
-- The drawdown of `compute_metrics` (trading_research/engine/backtester.py) against the falls of
-- the equity from any earlier value.
use trading_snapshot.Base.{
  true, not-false, List, [], ◌∷◌, All, ◌≡◌, ◌⊎◌, ◌∙◌, refl, sym, subst, inl, inr, Bool-cases,
}
use trading_snapshot.Base.Float.{Floats, max}
use trading_snapshot.Backtest.Metrics.{drawdown_from, max_drawdown_of}

module _ (fs : Floats) where
  open fs use {F, zero_f, sub, lt, le, finite, le_refl, le_trans}

  abbrev pub In : F → List F → Type 0
  In v [] = ⊥
  In v (x ∷ xs) = (v ≡ x) ⊎ In v xs

  -- `v` stands in the list at or after `u`
  abbrev pub Drop : List F → F → F → Type 0
  Drop [] u v = ⊥
  Drop (x ∷ xs) u v = (u ≡ x) × In v (x ∷ xs) ⊎ Drop xs u v

  -- Zero or the fall from a value to one at or after it, and no such fall is larger.
  pub record IsLargestFall (equity : List F) (dd : F) : Type 0 where
    pub attained : (dd ≡ zero_f) ⊎ ((u : F) × (v : F) × Drop equity u v × (dd ≡ sub u v))
    pub largest : (u v : F) → Drop equity u v → le (sub u v) dd ≡ true

  max_left : (a b : F) → finite a ≡ true → le a (max fs a b) ≡ true
  unfolding max
  max_left a b h = elim (Bool-cases (lt a b)) [
    | inl up ↦ rw up (fs.le_of_lt a b up)
    | inr down ↦ rw down (le_refl a h)
  ]

  max_right : (a b : F) → finite a ≡ true → finite b ≡ true → le b (max fs a b) ≡ true
  unfolding max
  max_right a b ha hb = elim (Bool-cases (lt a b)) [
    | inl up ↦ rw up (le_refl b hb)
    | inr down ↦ rw down (not-false (sym (fs.lt_not_le a b ha hb) ∙ down))
  ]

  max-cases : (P : F → Type 0) (a b : F) → P a → P b → P (max fs a b)
  unfolding max
  max-cases P a b pa pb = elim (Bool-cases (lt a b)) [ inl up ↦ rw up pb | inr down ↦ rw down pa ]

  -- `P` holds of the values of an equity whose differences do not overflow.
  module _ (P : F → Type 0) (finite_value : (u : F) → P u → finite u ≡ true)
      (finite_fall : (u v : F) → P u → P v → finite (sub u v) ≡ true) where
    from-ge :
        (peak dd : F) (vs : List F)
        → P peak
        → finite dd ≡ true
        → All P vs
        → le dd (drawdown_from fs peak dd vs) ≡ true
    unfolding drawdown_from
    from-ge peak dd [] pp fd ps = le_refl dd fd
    from-ge peak dd (v ∷ vs) pp fd ps =
        let p' = max-cases P peak v pp ps.0 in
        let fall = finite_fall (max fs peak v) v p' ps.0 in
        le_trans dd (max fs dd (sub (max fs peak v) v))
          (drawdown_from fs (max fs peak v) (max fs dd (sub (max fs peak v) v)) vs)
          (max_left dd (sub (max fs peak v) v) fd)
          (from-ge (max fs peak v) (max fs dd (sub (max fs peak v) v)) vs p'
            (max-cases (λ x. finite x ≡ true) dd (sub (max fs peak v) v) fd fall) ps.1)

    -- what the loop has after one value is at least the fall to it from any value up to the peak
    fall-le :
        (u peak v dd : F) (vs : List F)
        → P u
        → P peak
        → P v
        → finite dd ≡ true
        → All P vs
        → le u (max fs peak v) ≡ true
        → le (sub u v) (drawdown_from fs (max fs peak v) (max fs dd (sub (max fs peak v) v)) vs)
          ≡ true
    fall-le u peak v dd vs pu pp pv fd ps h =
        let p' = max-cases P peak v pp pv in
        let top = max fs peak v in
        let fall = finite_fall top v p' pv in
        let dd' = max fs dd (sub top v) in
        le_trans (sub u v) (sub top v) (drawdown_from fs top dd' vs)
          (fs.sub_mono u top v (finite_value u pu) (finite_value top p') (finite_value v pv) h)
          (le_trans (sub top v) dd' (drawdown_from fs top dd' vs) (max_right dd (sub top v) fd fall)
            (from-ge top dd' vs p' (max-cases (λ x. finite x ≡ true) dd (sub top v) fd fall) ps))

    In-le :
        (u v peak dd : F) (vs : List F)
        → P u
        → P peak
        → finite dd ≡ true
        → All P vs
        → le u peak ≡ true
        → In v vs
        → le (sub u v) (drawdown_from fs peak dd vs) ≡ true
    unfolding drawdown_from
    In-le u v peak dd [] pu pp fd ps h m = absurd m
    In-le u v peak dd (x ∷ xs) pu pp fd ps h m =
        let p' = max-cases P peak x pp ps.0 in
        let up = le_trans u peak (max fs peak x) h (max_left peak x (finite_value peak pp)) in
        let dd' = max fs dd (sub (max fs peak x) x) in
        elim m [
          | inl e ↦
              subst (λ w. le (sub u w) (drawdown_from fs (max fs peak x) dd' xs) ≡ true) (sym e)
                (fall-le u peak x dd xs pu pp ps.0 fd ps.1 up)
          | inr later ↦
              In-le u v (max fs peak x) dd' xs pu p'
                (max-cases (λ y. finite y ≡ true) dd (sub (max fs peak x) x) fd
                  (finite_fall (max fs peak x) x p' ps.0))
                ps.1 up later
        ]

    Drop-le :
        (u v peak dd : F) (vs : List F)
        → P peak
        → finite dd ≡ true
        → All P vs
        → Drop vs u v
        → le (sub u v) (drawdown_from fs peak dd vs) ≡ true
    unfolding drawdown_from
    Drop-le u v peak dd [] pp fd ps d = absurd d
    Drop-le u v peak dd (x ∷ xs) pp fd ps d =
        let top = max fs peak x in
        let p' = max-cases P peak x pp ps.0 in
        let dd' = max fs dd (sub top x) in
        let fd' = max-cases (λ y. finite y ≡ true) dd (sub top x) fd (finite_fall top x p' ps.0) in
        let here = max_right peak x (finite_value peak pp) (finite_value x ps.0) in
        elim d [
          | inr deeper ↦ Drop-le u v top dd' xs p' fd' ps.1 deeper
          | inl (e, inl w) ↦
              subst (λ y. le (sub y v) (drawdown_from fs top dd' xs) ≡ true) (sym e)
                (subst (λ y. le (sub x y) (drawdown_from fs top dd' xs) ≡ true) (sym w)
                  (fall-le x peak x dd xs ps.0 pp ps.0 fd ps.1 here))
          | inl (e, inr later) ↦
              subst (λ y. le (sub y v) (drawdown_from fs top dd' xs) ≡ true) (sym e)
                (In-le x v top dd' xs ps.0 p' fd' ps.1 here later)
        ]

    Drop-first : (a x u v : F) (xs : List F) → Drop (a ∷ xs) u v → Drop (a ∷ x ∷ xs) u v
    Drop-first a x u v xs (inl (e, inl w)) = inl (e, inl w)
    Drop-first a x u v xs (inl (e, inr later)) = inl (e, inr (inr later))
    Drop-first a x u v xs (inr deeper) = inr (inr deeper)

    abbrev Fall : List F → F → Type 0
    Fall vs dd = (u : F) × (v : F) × Drop vs u v × (dd ≡ sub u v)

    Fall-max :
        (peak x dd : F) (xs : List F) → Fall (max fs peak x ∷ xs) dd → Fall (peak ∷ x ∷ xs) dd
    unfolding max
    Fall-max peak x dd xs (u, v, d, e) = elim (Bool-cases (lt peak x)) [
      | inl up ↦ (u, v, inr (rw up at d), e)
      | inr down ↦ (u, v, Drop-first peak x u v xs (rw down at d), e)
    ]

    top-Fall : (peak x : F) (xs : List F) → Fall (peak ∷ x ∷ xs) (sub (max fs peak x) x)
    unfolding max
    top-Fall peak x xs = elim (Bool-cases (lt peak x)) [
      | inl up ↦ (x, x, inr (inl (refl, inl refl)), rw up refl)
      | inr down ↦ (peak, x, inl (refl, inr (inl refl)), rw down refl)
    ]

    from-Fall :
        (peak dd : F) (vs : List F)
        → (drawdown_from fs peak dd vs ≡ dd) ⊎ Fall (peak ∷ vs) (drawdown_from fs peak dd vs)
    unfolding drawdown_from
    from-Fall peak dd [] = inl refl
    from-Fall peak dd (x ∷ xs) =
        let top = max fs peak x in
        let dd' = max fs dd (sub top x) in
        elim (from-Fall top dd' xs) [
          | inr fall ↦ inr (Fall-max peak x (drawdown_from fs top dd' xs) xs fall)
          | inl same ↦
              subst Reached (sym same)
                (max-cases Reached dd (sub top x) (inl refl) (inr (top-Fall peak x xs)))
        ]
      where
        Reached : F → Type 0
        Reached y = (y ≡ dd) ⊎ Fall (peak ∷ x ∷ xs) y

    from_first :
        (e : F) (es : List F) (dd : F)
        → (dd ≡ zero_f) ⊎ Fall (e ∷ e ∷ es) dd
        → (dd ≡ zero_f) ⊎ Fall (e ∷ es) dd
    from_first e es dd (inl z) = inl z
    from_first e es dd (inr (u, v, inl (a, inl b), h)) = inr (u, v, inl (a, inl b), h)
    from_first e es dd (inr (u, v, inl (a, inr b), h)) = inr (u, v, inl (a, b), h)
    from_first e es dd (inr (u, v, inr d, h)) = inr (u, v, d, h)

    -- The drawdown of an equity whose values are finite and whose differences do not overflow is
    -- zero or the fall from one of its values to one at or after it, and no such fall is larger.
    pub max_drawdown_of-IsLargestFall :
        (equity : List F) → All P equity → IsLargestFall equity (max_drawdown_of fs equity)
    unfolding max_drawdown_of
    max_drawdown_of-IsLargestFall [] ps = record {
      attained = inl refl;
      largest = λ u v d. absurd d;
    }
    max_drawdown_of-IsLargestFall (e ∷ es) ps = record {
      attained = from_first e es (drawdown_from fs e zero_f (e ∷ es)) (from-Fall e zero_f (e ∷ es));
      largest = λ u v d. Drop-le u v e zero_f (e ∷ es) ps.0 fs.finite_zero ps d;
    }
