-- ===== src/Tests/Accounts.antt =====
-- Flattening an account (core/account_position_service.py) at a broker that refuses one ticket.
use trading_snapshot.Base.{
  ℕ, some, List, [], ◌∷◌, ◌≡◌, refl, ◌==◌, if◌then◌else◌, Bool-cases, inl, inr,
}
use trading_snapshot.Base.Int.{pos}
use trading_snapshot.Account.Broker.{Broker, positions, result}
use trading_snapshot.Account.Positions.{
  is_flat, classify, note, close_ticket, close_each, verify_flat, flatten_account,
}
use trading_snapshot.Account.Positions.Flatness.{SeenFlat, flatten_account-is_flat}
use trading_snapshot.Account.Positions.Honest.{
  remove, confirms, Honest, IsHonestResult, flatten_account-honest,
}

-- The account is its list of tickets. Ticket 13 cannot be closed.
abbrev terminal : Broker
terminal = record {
  State = List ℕ;
  list_all_positions = λ s. (positions s, s);
  close_position_by_ticket = λ t s.
      if t == 13
      then (result (some (pos 10006)) "rejected", s)
      else (result (some (pos 10009)) "done", remove t s);
  done = pos 10009;
}

terminal-closes :
    (t : ℕ) (s : List ℕ)
    → (terminal.close_position_by_ticket t s).1
      ≡ (if confirms (pos 10009) (terminal.close_position_by_ticket t s).0 then remove t s else s)
terminal-closes t s = elim (Bool-cases (t == 13)) [
  | inl thirteen ↦ rw thirteen refl
  | inr other ↦ rw other refl
]

abbrev terminal-Honest : Honest terminal
terminal-Honest = record { open_tickets = λ s. s; lists = λ s. refl; closes = terminal-closes }

flatten_account-is_flat_example : SeenFlat terminal (flatten_account terminal "DD" (5 ∷ 6 ∷ [])).1
unfolding flatten_account verify_flat close_each close_ticket classify note is_flat
flatten_account-is_flat_example = flatten_account-is_flat terminal "DD" (5 ∷ 6 ∷ []) refl

flatten_account-honest_example :
    IsHonestResult terminal terminal-Honest
      (5 ∷ 13 ∷ [])
      (flatten_account terminal "DD" (5 ∷ 13 ∷ []))
flatten_account-honest_example = flatten_account-honest terminal terminal-Honest "DD" (5 ∷ 13 ∷ [])

flatten_refused : (flatten_account terminal "DD" (5 ∷ 13 ∷ [])).0.remaining_tickets ≡ 13 ∷ []
unfolding flatten_account verify_flat close_each close_ticket classify note
flatten_refused = refl
