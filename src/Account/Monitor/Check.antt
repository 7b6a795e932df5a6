-- ===== src/Account/Monitor/Check.antt =====
-- `check`, `recover_persisted_halt` and the steps they are made of (risk/account_monitor.py).
pub mod Safety
pub mod Reading
pub mod Verdict
use trading_snapshot.Base.{
  ℕ, Bool, true, false, not, ◌&&◌, ◌||◌, Option, none, some, List, [], ◌∷◌, ◌++◌, String,
  if◌then◌else◌, ◌==◌,
}
use trading_snapshot.Base.Int.{pos}
use trading_snapshot.Base.Float.{Floats}
use trading_snapshot.Account.Value.{Error, Result, ok, err, Value, number}
use trading_snapshot.Account.State.{AccountState, Db, World, read_state, record_equity, halt}
use trading_snapshot.Account.Monitor.{
  Breach, profit_warning, AlertKind, of_breach, halt_propagated, halt_recovery_degraded,
  breach_name, flatten_reason, alert_code, Cause, account_breach, halted_by_sibling,
  store_unavailable, Flattened, raised, returned_none, flattened, Switch, Health, running,
  halted_flat, halted_degraded, Action, ok_action, warn_action, halt_action, halt_degraded_action,
  Log, alerted, state_unavailable, flatten_raised, proves_flat, Rules, View, blank, row, view_of,
  is_halted, reason_of, peak_of, starting_of, last_of, Report, Meets, is_usable, evaluate_breach,
  dd_of, profit_of, configured,
}

module _ (fs : Floats) (sw : Switch) where
  open fs use {F, zero_f, sub, of_ℤ, lt}
  open sw use {K, triggered, trigger, flatten_all}

  pub record Monitor : Type 0 where
    pub state : View fs
    pub halt_health : Health
    pub last_alert_at : AlertKind → Option F
    pub logs : List Log
    pub switch : K
    pub db : Db fs

  abbrev pub log : Log → Monitor → Monitor
  log l m = record m { logs = l ∷ m.logs }

  abbrev pub alerted_at : AlertKind → F → (AlertKind → Option F) → AlertKind → Option F
  alerted_at k now seen j = if alert_code j == alert_code k then some now else seen j

  abbrev pub last_alert : Option F → F
  last_alert none = zero_f
  last_alert (some x) = x

  -- `_alert`: at most one of a kind in BREACH_ALERT_COOLDOWN_SEC.
  unfoldable pub alert : AlertKind → F → Monitor → Monitor
  alert k now m =
      if lt (sub now (last_alert (m.last_alert_at k))) (of_ℤ (pos 300))
      then m
      else record m { last_alert_at = alerted_at k now m.last_alert_at; logs = alerted k ∷ m.logs }

  unfoldable pub report :
      Action → Option String → Option F → Option F → Option F → Monitor → Report fs × Monitor
  report a t dd profit equity m = (
    record {
      action = a;
      breach = t;
      dd_percent = dd;
      profit_percent = profit;
      equity = elim equity [ some e ↦ some e | none ↦ last_of fs m.state ];
      peak_equity = peak_of fs m.state;
      starting_equity = starting_of fs m.state;
      halted = is_halted fs m.state;
      halt_health = m.halt_health;
    },
    m,
  )

  abbrev pub trip : Cause → Monitor → Monitor
  trip c m = record m { switch = trigger c m.switch }

  unfoldable pub fail_closed : Monitor → Report fs × Monitor
  unfolding report
  fail_closed m =
      let blocked : Monitor = record m { state = blank true (some "STATE_STORE_UNAVAILABLE") } in
      report halt_action (some "STATE_STORE_UNAVAILABLE") none none none (
        if triggered m.switch
        then blocked
        else log state_unavailable (trip store_unavailable blocked))

  unfoldable pub propagate_halt : F → Option String → Monitor → Monitor
  unfolding alert
  propagate_halt now reason m =
      if triggered m.switch
      then m
      else alert halt_propagated now (trip (halted_by_sibling reason) m)

  abbrev pub flattening : String → Bool → Monitor → Flattened × Monitor
  flattening reason quiet m =
      let (result, k) = flatten_all reason quiet m.switch in (result, record m { switch = k })

  -- The private `_recover_persisted_halt`, after `flatten_all` answered.
  unfoldable pub recovered : F → Flattened × Monitor → Report fs × Monitor
  unfolding report alert
  recovered now (result, m) =
      if proves_flat result
      then report halt_action (reason_of fs m.state) none none none
          (record m { halt_health = halted_flat })
      else report halt_degraded_action (reason_of fs m.state) none none none
          (alert halt_recovery_degraded now (record m { halt_health = halted_degraded }))

  unfoldable pub reassert_halt : F → Monitor → Report fs × Monitor
  unfolding recovered
  reassert_halt now m = recovered now (flattening "ACCOUNT_HALTED_RECOVERY" true m)

  -- A halted view: the kill switch first, then the account is flattened again.
  unfoldable pub hold_halt : F → Monitor → Report fs × Monitor
  unfolding propagate_halt reassert_halt
  hold_halt now m = reassert_halt now (propagate_halt now (reason_of fs m.state) m)

  abbrev pub flat_health : Flattened → Health
  flat_health result = if proves_flat result then halted_flat else halted_degraded

  abbrev pub note_raised : Breach → Flattened → Monitor → Monitor
  note_raised b raised m = log (flatten_raised b) m
  note_raised b _ m = m

  abbrev pub after_breach : Breach → F → Flattened × Monitor → Monitor
  after_breach b now (result, m) =
      alert (of_breach b) now (note_raised b result (record m { halt_health = flat_health result }))

  -- `_handle_breach` after the store's `halt` answered; the Boolean is its result.
  unfoldable pub handle_answer :
      Breach → F → Monitor → Result (AccountState fs × Bool) × Db fs → Bool × Monitor
  unfolding alert fail_closed propagate_halt
  handle_answer b now m (err _, d) = (false, (fail_closed (record m { db = d })).1)
  handle_answer b now m (ok (s, newly), d) =
      let seen : Monitor = record m { state = row s; db = d } in
      if newly
      then (
        true,
        after_breach b now (flattening (flatten_reason b) false (trip (account_breach b) seen)),
      )
      else (true, propagate_halt now s.halt_reason seen)

  unfoldable pub handle_breach : Breach → World fs → F → Monitor → Bool × Monitor
  unfolding handle_answer
  handle_breach b w now m = handle_answer b now m (halt fs w (breach_name b) m.db)

  abbrev pub handled : Breach → F → F → Bool × Monitor → Report fs × Monitor
  handled b dd profit (true, m) =
      report halt_action (some (breach_name b)) (some dd) (some profit) none m
  handled b dd profit (false, m) =
      report halt_action (some "STATE_STORE_UNAVAILABLE") none none none m

  -- `check` from the evaluated breach on.
  unfoldable pub apply_breach : Option Breach → F → F → Meets fs → Monitor → Report fs × Monitor
  unfolding report alert handle_breach
  apply_breach none dd profit x m = report ok_action none (some dd) (some profit) none m
  apply_breach (some profit_warning) dd profit x m =
      report warn_action (some (breach_name profit_warning)) (some dd) (some profit) none
        (alert (of_breach profit_warning) x.now m)
  apply_breach (some b) dd profit x m = handled b dd profit (handle_breach b x.on_halt x.now m)

  unfoldable pub measured :
      Rules fs → F → Meets fs → AccountState fs → Monitor → Report fs × Monitor
  unfolding evaluate_breach apply_breach
  measured rules equity x s m =
      let dd = dd_of fs s.peak_equity equity in
      let profit = profit_of fs s.starting_equity equity in
      apply_breach (evaluate_breach fs rules dd profit) dd profit x (record m { state = row s })

  unfoldable pub record_answer :
      Rules fs → Meets fs → F → Monitor → Result (AccountState fs) × Db fs → Report fs × Monitor
  unfolding fail_closed measured
  record_answer rules x e m (err _, d) = fail_closed (record m { db = d })
  record_answer rules x e m (ok s, d) = measured rules e x s (record m { db = d })

  -- `check` of an account that is not halted, from the broker's equity on.
  unfoldable pub observe_equity : Rules fs → Meets fs → Option F → Monitor → Report fs × Monitor
  unfolding report record_answer
  observe_equity rules x none m = report ok_action none none none none m
  observe_equity rules x (some e) m =
      if is_usable fs e
      then record_answer rules x e m
          (record_equity fs x.on_record (number e) (some (configured fs rules x.balance e)) m.db)
      else report ok_action none none none none m

  abbrev pub seen_row : Monitor → Option (AccountState fs) → Db fs → Monitor
  seen_row m s d = record m { state = view_of fs s; db = d }

  unfoldable pub check_answer :
      Rules fs
      → Meets fs
      → Monitor
      → Result (Option (AccountState fs)) × Db fs
      → Report fs × Monitor
  unfolding fail_closed hold_halt observe_equity
  check_answer rules x m (err _, d) = fail_closed (record m { db = d })
  check_answer rules x m (ok s, d) =
      if is_halted fs (view_of fs s)
      then hold_halt x.now (seen_row m s d)
      else observe_equity rules x x.equity (seen_row m s d)

  unfoldable pub check : Rules fs → Meets fs → Monitor → Report fs × Monitor
  unfolding check_answer
  check rules x m = check_answer rules x m (read_state fs x.on_read m.db)

  unfoldable pub recover_answer :
      F → Monitor → Result (Option (AccountState fs)) × Db fs → Report fs × Monitor
  unfolding fail_closed hold_halt report
  recover_answer now m (err _, d) = fail_closed (record m { db = d })
  recover_answer now m (ok s, d) =
      if is_halted fs (view_of fs s)
      then hold_halt now (seen_row m s d)
      else report ok_action none none none none (record (seen_row m s d) { halt_health = running })

  unfoldable pub recover_persisted_halt : Meets fs → Monitor → Report fs × Monitor
  unfolding recover_answer
  recover_persisted_halt x m = recover_answer x.now m (read_state fs x.on_read m.db)
