-- ===== src/Backtest/Protocol/Embargo.antt =====
-- The embargo of src/investment_tracker/backtest_v1.py in sessions of the benchmark's calendar.
use investment_tracker.Prelude.{
  ℕ, String, suc, ◌+◌, ◌≤◌, ◌<◌, ◌≡◌, inl, inr, true, Bool-cases, Option, none, some, List, [], ◌∷◌,
  arith, All, All-map, ok, and_then-ok, sym, subst, and_then-ok_then, ◌==◌, ltb,
}
use investment_tracker.Selector.{is_increasing, index_from}
use investment_tracker.Backtest.{ValidationFold, FrozenBacktestProtocol}
use investment_tracker.Backtest.Protocol.{
  require, calendar, first_fold, session_of, reaches_back, validate_fold_sessions,
  validate_protocol_calendar, ProtocolPayload, freeze_backtest_protocol,
}
use investment_tracker.Backtest.Protocol.Frozen.{freeze_backtest_protocol-Sound}
use investment_tracker.Backtest.Protocol.Folds.{Before, Chronological}

index_from-le :
    (i : ℕ) (sessions : List ℕ) (day : ℕ) {m : ℕ} → index_from i sessions day ≡ some m → i ≤ m
unfolding index_from
index_from-le i [] day h = cc
index_from-le i (d ∷ days) day {m = m} h = elim (Bool-cases (d == day)) [
  | inl here ↦ ground arith
  | inr away ↦
      let rest = index_from-le (suc i) days day {m = m} (ground arith) in omega (arith, rest)
]

-- In a calendar that begins with `first`, a later session is on a later day.
index_from-after :
    (i first : ℕ) (days : List ℕ) (day : ℕ) {m : ℕ}
    → is_increasing (first ∷ days) ≡ true
    → index_from i days day ≡ some m
    → first < day
unfolding index_from is_increasing
index_from-after i first [] day up h = cc
index_from-after i first (d ∷ days) day {m = m} up h = elim (Bool-cases (d == day)) [
  | inl here ↦ ground arith
  | inr away ↦
      let rest = index_from-after (suc i) d days day {m = m} (ground arith) (ground arith) in
      ground arith
]

is_increasing-rest :
    (first : ℕ) (days : List ℕ) → is_increasing (first ∷ days) ≡ true → is_increasing days ≡ true
unfolding is_increasing
is_increasing-rest first [] h = cc
is_increasing-rest first (d ∷ days) h = ground arith

-- The sessions are in the order of their days.
index_from-monotone :
    (i : ℕ) (sessions : List ℕ) (a b : ℕ) {m n : ℕ}
    → is_increasing sessions ≡ true
    → index_from i sessions a ≡ some m
    → index_from i sessions b ≡ some n
    → a ≤ b
    → m ≤ n
unfolding index_from
index_from-monotone i [] a b up ha hb le = cc
index_from-monotone i (d ∷ days) a b {m = m} {n = n} up ha hb le = elim (Bool-cases (d == a)) [
  | inl here ↦ let low = index_from-le i (d ∷ days) b {m = n} hb in ground arith
  | inr away ↦ elim (Bool-cases (d == b)) [
    | inl there ↦
        let after = index_from-after (suc i) d days a {m = m} up (ground arith) in
        absurd (ground arith)
    | inr beyond ↦
        index_from-monotone (suc i) days a b {m = m} {n = n} (is_increasing-rest d days up)
          (ground arith) (ground arith) le
  ]
]

module _ (sessions : List ℕ) where
  -- The fold's first and last days are sessions.
  abbrev InCalendar : ValidationFold → Type 0
  InCalendar f =
      (s : ℕ) × (e : ℕ) × (index_from 0 sessions f.start_date ≡ some s)
      × (index_from 0 sessions f.end_date ≡ some e)

  session_of-some :
      (day : ℕ) {i : ℕ} → session_of sessions day ≡ ok i → index_from 0 sessions day ≡ some i
  session_of-some day h = ground arith

  validate_fold_sessions-InCalendar :
      (previous : Option ℕ) (folds : List ValidationFold)
      → validate_fold_sessions sessions previous folds ≡ ok tt
      → All InCalendar folds
  unfolding validate_fold_sessions
  validate_fold_sessions-InCalendar previous [] h = tt
  validate_fold_sessions-InCalendar previous (f ∷ folds) h =
      let (s, start, h1) = and_then-ok (session_of sessions f.start_date) _ h in
      let (e, end, h2) = and_then-ok (session_of sessions f.end_date) _ h1 in
      (
        (s, e, session_of-some f.start_date start, session_of-some f.end_date end),
        elim (Bool-cases (reaches_back previous s)) [
          | inl back ↦ absurd (ground arith)
          | inr onward ↦ validate_fold_sessions-InCalendar (some e) folds (ground arith)
        ],
      )

  -- A session of research, `r`, lies more than twenty sessions before the fold's first.
  abbrev pub Embargoed : ℕ → ValidationFold → Type 0
  Embargoed r f =
      (s : ℕ) × (e : ℕ) × (index_from 0 sessions f.start_date ≡ some s)
      × (index_from 0 sessions f.end_date ≡ some e)
      × (r + 20 < s)

  module _ (r : ℕ) (first : ValidationFold) {s : ℕ} (up : is_increasing sessions ≡ true)
      (start : index_from 0 sessions first.start_date ≡ some s) (gap : r + 20 < s) where
    later-Embargoed :
        (whole : first.start_date ≤ first.end_date) (f : ValidationFold)
        → Before first f × InCalendar f
        → Embargoed r f
    later-Embargoed whole f (before, (t, e, at, end)) =
        let later =
          index_from-monotone 0 sessions first.start_date f.start_date {m = s} {n = t} up start at
            (omega (arith, whole, before.0)) in
        (t, e, at, end, omega (arith, later, gap))

All-both :
    {A : Type 0} (P Q : A → Type 0) (xs : List A) → All P xs → All Q xs → All (λ x. P x × Q x) xs
All-both P Q [] h k = tt
All-both P Q (x ∷ xs) h k = ((h.0, k.0), All-both P Q xs h.1 k.1)

module _ (sessions : List ℕ) (r : ℕ) {s : ℕ} (up : is_increasing sessions ≡ true)
    (gap : r + 20 < s) where
  first_fold-Embargoed :
      (folds : List ValidationFold) {first : ValidationFold}
      → first_fold folds ≡ ok first
      → index_from 0 sessions first.start_date ≡ some s
      → Chronological folds
      → All (InCalendar sessions) folds
      → All (Embargoed sessions r) folds
  first_fold-Embargoed [] h at ordered found = cc
  first_fold-Embargoed (f ∷ folds) {first} h at (named, whole, before, ordered)
        ((t, e, start, end), found) =
      let here : index_from 0 sessions f.start_date ≡ some s = cc in
      (
        (t, e, start, end, ground arith),
        All-map (λ g. Before f g × InCalendar sessions g) (Embargoed sessions r) folds
            (later-Embargoed sessions r f {s = s} up here gap whole)
            (All-both (Before f) (InCalendar sessions) folds before found),
      )

pub calendar-same :
    (sessions : List ℕ) {days : List ℕ}
    → calendar sessions ≡ ok days
    → (is_increasing days ≡ true) × (days ≡ sessions)
calendar-same sessions {days} h =
    let is : days ≡ sessions = ground arith in
    (subst (λ (ds : List ℕ). is_increasing ds ≡ true) (sym is) (ground arith), is)

validate_protocol_calendar-Embargoed :
    (protocol : FrozenBacktestProtocol) (sessions : List ℕ)
    → Chronological protocol.folds
    → validate_protocol_calendar protocol sessions ≡ ok tt
    → (r : ℕ) × (index_from 0 sessions protocol.research_end_date ≡ some r)
      × All (Embargoed sessions r) protocol.folds
unfolding validate_protocol_calendar
validate_protocol_calendar-Embargoed protocol sessions ordered h =
    and_then-ok_then (calendar sessions) h λ days same h1.
      and_then-ok_then (session_of days protocol.research_end_date) h1 λ r research h2.
        and_then-ok_then (first_fold protocol.folds) h2 λ first leads h3.
          and_then-ok_then (session_of days first.start_date) h3 λ s start h4.
            and_then-ok_then (session_of days first.end_date) h4 λ e end h5.
              and_then-ok_then (require (ltb (r + 20) s)) h5 λ _ gap h6.
                let (up, is) = calendar-same sessions same in
                subst
                  (λ (ds : List ℕ).
                    (r : ℕ) × (index_from 0 ds protocol.research_end_date ≡ some r)
                    × All (Embargoed ds r) protocol.folds)
                  is
                  (
                    r,
                    session_of-some days protocol.research_end_date research,
                    first_fold-Embargoed days r {s = s} up (ground arith) protocol.folds leads
                        (session_of-some days first.start_date start) ordered
                        (validate_fold_sessions-InCalendar days none protocol.folds h6),
                  )

-- A frozen protocol whose calendar is accepted has every fold more than twenty sessions after the end
-- of its research.
pub freeze_backtest_protocol-Embargoed :
    (strip_upper : String → String) (digest_of : ProtocolPayload → String) (a : ProtocolPayload)
    {p : FrozenBacktestProtocol} (sessions : List ℕ)
    → freeze_backtest_protocol strip_upper digest_of a ≡ ok p
    → validate_protocol_calendar p sessions ≡ ok tt
    → (r : ℕ) × (index_from 0 sessions p.research_end_date ≡ some r)
      × All (Embargoed sessions r) p.folds
freeze_backtest_protocol-Embargoed strip_upper digest_of a {p} sessions made accepted =
    let sound = freeze_backtest_protocol-Sound strip_upper digest_of a made in
    validate_protocol_calendar-Embargoed p sessions sound.ordered accepted
