-- ===== src/Account/State/Sound.antt =====
-- The rows of the table are sound, whatever a file of the older format contains
-- (risk/account_state_store.py).
use trading_snapshot.Base.{
  false, Option, none, some, List, [], ◌∷◌, All, String, ◌≡◌, refl, sym, ◌∙◌, subst, arith,
}
use trading_snapshot.Base.Float.{Floats}
use trading_snapshot.Account.Value.{
  backup_failed, Result, ok, err, ◌>>=◌, Value, null, boolean, number, text, array, object, Fields,
  get, optional_positive, positive_number, strict_bool, optional_text, optional_timestamp,
}
use trading_snapshot.Account.State.{AccountState, Db, World}
use trading_snapshot.Account.State.Legacy.{
  Backup, exists, copied, copy_fails, File, absent, unreadable, parsed, breach_time, or_now,
  load_object, backed_up, legacy_state,
}
use trading_snapshot.Account.State.Calls.{after_all}
use trading_snapshot.Account.State.Calls.History.{
  OptPositive, IsSound, IsSoundLegacy, Served, after_all-IsSound,
}

>>=-ok :
    {A B : Type 0} (m : Result A) (f : A → Result B) (b : B)
    → (m >>= f) ≡ ok b
    → (a : A) × (m ≡ ok a) × (f a ≡ ok b)
>>=-ok (ok a) f b h = (a, refl, h)
>>=-ok (err e) f b h = cc

module _ (fs : Floats) where
  open fs use {F}

  optional-OptPositive :
      (name : String) (v : Value fs) (o : Option F)
      → optional_positive fs name v ≡ ok o
      → OptPositive fs o
  unfolding optional_positive positive_number
  optional-OptPositive name null none h = tt
  optional-OptPositive name (number x) none h = tt
  optional-OptPositive name (boolean b) none h = tt
  optional-OptPositive name (text t) none h = tt
  optional-OptPositive name array none h = tt
  optional-OptPositive name (object o) none h = tt
  optional-OptPositive name null (some y) h = cc
  optional-OptPositive name (boolean b) (some y) h = cc
  optional-OptPositive name (text t) (some y) h = cc
  optional-OptPositive name array (some y) h = cc
  optional-OptPositive name (object o) (some y) h = cc
  optional-OptPositive name (number x) (some y) h = ground arith

  load_object-IsSound :
      (now : F) (raw : Fields fs) (s : AccountState fs)
      → load_object fs now raw ≡ ok s
      → IsSound fs (some s)
  unfolding load_object
  load_object-IsSound now raw s h =
      let (starting, h1, r1) =
        >>=-ok (optional_positive fs "starting_equity" (get fs raw "starting_equity" null)) _ s h in
      let (peak, h2, r2) =
        >>=-ok (optional_positive fs "peak_equity" (get fs raw "peak_equity" null)) _ s r1 in
      let (last, h3, r3) =
        >>=-ok (optional_positive fs "last_equity" (get fs raw "last_equity" null)) _ s r2 in
      let (on, h4, r4) =
        >>=-ok (strict_bool fs "halted" (get fs raw "halted" (boolean false))) _ s r3 in
      let (reason, h5, r5) =
        >>=-ok (optional_text fs "halt_reason" (get fs raw "halt_reason" null)) _ s r4 in
      let (breach, h6, r6) = >>=-ok (optional_timestamp fs (breach_time fs raw)) _ s r5 in
      let (updated, h7, r7) =
        >>=-ok (optional_timestamp fs (get fs raw "updated_at" null)) _ s r6 in
      let loaded : AccountState fs = record {
        starting_equity = starting;
        peak_equity = peak;
        last_equity = last;
        halted = on;
        halt_reason = reason;
        last_breach_at = breach;
        last_reset_id = none;
        version = 1;
        updated_at = or_now fs updated now;
      } in
      let same : loaded ≡ s =
        (let e : ◌≡◌ {A = Result (AccountState fs)} (ok loaded) (ok s) = r7 in cc) in
      subst (λ x. IsSound fs (some x)) same
        (
          optional-OptPositive "starting_equity" _ starting h1,
          optional-OptPositive "peak_equity" _ peak h2,
          optional-OptPositive "last_equity" _ last h3,
        )

  backed_up-IsSound :
      (b : Backup) (r : Result (AccountState fs)) (e : Option (AccountState fs))
      → ((s : AccountState fs) → r ≡ ok s → IsSound fs (some s))
      → backed_up fs b r ≡ ok e
      → IsSound fs e
  backed_up-IsSound copy_fails (ok s) e f h =
      absurd
        (let bad : ◌≡◌ {A = Result (Option (AccountState fs))} (err backup_failed) (ok e) = h in cc)
  backed_up-IsSound exists (ok s) e f h =
      let same : some s ≡ e = cc in subst (IsSound fs) same (f s refl)
  backed_up-IsSound copied (ok s) e f h =
      let same : some s ≡ e = cc in subst (IsSound fs) same (f s refl)
  backed_up-IsSound copy_fails (err x) e f h = cc
  backed_up-IsSound exists (err x) e f h = cc
  backed_up-IsSound copied (err x) e f h = cc

  legacy_state-IsSound :
      (b : Backup) (now : F) (f : File fs) (e : Option (AccountState fs))
      → legacy_state fs b now f ≡ ok e
      → IsSound fs e
  unfolding legacy_state
  legacy_state-IsSound b now absent none h = tt
  legacy_state-IsSound b now absent (some s) h = cc
  legacy_state-IsSound b now unreadable e h = cc
  legacy_state-IsSound b now (parsed (object raw)) e h =
      backed_up-IsSound b (load_object fs now raw) e (load_object-IsSound now raw) h
  legacy_state-IsSound b now (parsed null) e h = cc
  legacy_state-IsSound b now (parsed (boolean _)) e h = cc
  legacy_state-IsSound b now (parsed (number _)) e h = cc
  legacy_state-IsSound b now (parsed (text _)) e h = cc
  legacy_state-IsSound b now (parsed array) e h = cc

  -- The file system answers with a file of the older format, or with none.
  abbrev pub HasFile : World fs → Type 0
  HasFile w = (b : Backup) × (f : File fs) × (w.legacy ≡ legacy_state fs b w.now f)

  files-IsSoundLegacy :
      (cs : List (Served fs)) → All (λ c. HasFile c.0) cs → All (λ c. IsSoundLegacy fs c.0) cs
  files-IsSoundLegacy [] h = tt
  files-IsSoundLegacy ((w, c) ∷ cs) ((b, f, read), hs) =
      ((λ e k. legacy_state-IsSound b w.now f e (sym read ∙ k)), files-IsSoundLegacy cs hs)

  -- From a sound row, no sequence of calls stores an equity that is zero, negative, infinite or
  -- NaN, whatever the arguments are and whatever a file of the older format contains: no CHECK of
  -- the table is ever violated.
  pub after_all_files-IsSound :
      (cs : List (Served fs)) (d : Db fs)
      → All (λ c. HasFile c.0) cs
      → IsSound fs d.state
      → IsSound fs (after_all fs cs d).state
  after_all_files-IsSound cs d h v = after_all-IsSound fs cs d (files-IsSoundLegacy cs h) v
