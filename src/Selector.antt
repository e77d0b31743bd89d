-- ===== src/Selector.antt =====
-- src/investment_tracker/replay_v3.py: the choice of one opportunity per window. A date is a number of
-- days; Python's numbers and a text's `strip` with `upper` are parameters.
pub mod Cooldown
mod Examples
use Prim.Native.Nat.{Ordering}
use Prim.Native.String.{compare as str_compare}
use investment_tracker.Prelude.{
  ℕ, suc, ◌+◌, String, Bool, true, false, not, ◌&&◌, Option, none, some, List, [], ◌∷◌, ◌++◌, ltb,
  ◌==◌, ==_iff, if◌then◌else◌, str_eq, Result, ok, err, and_then, or_raise,
}
use investment_tracker.Dict.{Dict, Key, get, put}
use investment_tracker.Replay.{Number}
use investment_tracker.Governance.{assert_symbol_allowed}

pub record EligibleOpportunity (N : Type 0) : Type 0 where
  pub asset : String
  pub signal_date : ℕ
  pub relative_strength_spread : N
  pub dq_status : String

pub record SelectedOpportunity (N : Type 0) : Type 0 where
  pub asset : String
  pub signal_date : ℕ
  pub relative_strength_spread : N
  pub benchmark_session_index : ℕ

pub data SelectionError : Type 0 where
  symbol_refused calendar_not_increasing absent_from_calendar key_error index_error : SelectionError

instance abbrev pub day_key : Key ℕ
day_key = record { beq = ◌==◌; beq_iff = ==_iff }

-- `sessions == sorted(set(sessions))`: each day is before the next.
unfoldable pub is_increasing : List ℕ → Bool
is_increasing [] = true
is_increasing (a ∷ []) = true
is_increasing (a ∷ b ∷ days) = ltb a b && is_increasing (b ∷ days)

-- `index[day]`, counted from `i`
unfoldable pub index_from : ℕ → List ℕ → ℕ → Option ℕ
index_from i [] day = none
index_from i (d ∷ days) day = if d == day then some i else index_from (suc i) days day

-- `sorted(grouped)`, with what each date holds.
unfoldable pub insert_day : {A : Type 0} → ℕ → A → Dict ℕ A → Dict ℕ A
insert_day day rows [] = (day, rows) ∷ []
insert_day day rows ((d, r) ∷ groups) =
    if ltb d day then (d, r) ∷ insert_day day rows groups else (day, rows) ∷ (d, r) ∷ groups

unfoldable pub by_day : {A : Type 0} → Dict ℕ A → Dict ℕ A
unfolding insert_day
by_day [] = []
by_day ((day, rows) ∷ groups) = insert_day day rows (by_day groups)

-- `grouped.setdefault(day, []).append(row)`
abbrev pub rows_of : {A : Type 0} → Option (List A) → List A
rows_of none = []
rows_of (some rows) = rows

module _ (F : Number) (strip_upper : String → String) where
  -- `key(a) <= key(b)`, for the key `(-spread, asset)`: of two finite numbers that are not in order
  -- either way the texts decide.
  unfoldable pub key_le : EligibleOpportunity F.N → EligibleOpportunity F.N → Bool
  key_le a b =
      let na = F.negate a.relative_strength_spread in
      let nb = F.negate b.relative_strength_spread in
      if F.lt na nb
      then true
      else if F.lt nb na
      then false
      else elim (str_compare a.asset b.asset) [ Ordering.gt ↦ false | _ ↦ true ]

  -- A stable sort by the key.
  insert_row :
      EligibleOpportunity F.N → List (EligibleOpportunity F.N) → List (EligibleOpportunity F.N)
  insert_row a [] = a ∷ []
  insert_row a (b ∷ rows) = if key_le a b then a ∷ b ∷ rows else b ∷ insert_row a rows

  unfoldable pub sort_rows : List (EligibleOpportunity F.N) → List (EligibleOpportunity F.N)
  unfolding insert_row key_le
  sort_rows [] = []
  sort_rows (a ∷ rows) = insert_row a (sort_rows rows)

  -- `sorted(rows, key=...)[0]`
  abbrev pub first_of :
      List (EligibleOpportunity F.N) → Result SelectionError (EligibleOpportunity F.N)
  first_of [] = err index_error
  first_of (a ∷ rows) = ok a

  -- The grouping loop, from the groups so far.
  unfoldable pub group_rows :
      List ℕ
      → List (EligibleOpportunity F.N)
      → Dict ℕ (List (EligibleOpportunity F.N))
      → Result SelectionError (Dict ℕ (List (EligibleOpportunity F.N)))
  unfolding index_from
  group_rows sessions [] grouped = ok grouped
  group_rows sessions (row ∷ rows) grouped = elim (assert_symbol_allowed strip_upper row.asset) [
    | err e ↦ err symbol_refused
    | ok asset ↦ elim (str_eq row.dq_status "CLEAN") [
      | false ↦ group_rows sessions rows grouped
      | true ↦ elim (index_from 0 sessions row.signal_date) [
        | none ↦ err absent_from_calendar
        | some i ↦ group_rows sessions rows (
            put grouped row.signal_date
              (rows_of (get grouped row.signal_date) ++ (record row { asset = asset } ∷ [])))
      ]
    ]
  ]

  abbrev pub selected : EligibleOpportunity F.N → ℕ → SelectedOpportunity F.N
  selected winner position = record {
    asset = winner.asset;
    signal_date = winner.signal_date;
    relative_strength_spread = winner.relative_strength_spread;
    benchmark_session_index = position;
  }

  -- The selecting loop, from `next_allowed`; the cooldown is 20 sessions.
  unfoldable pub select_days :
      List ℕ
      → ℕ
      → Dict ℕ (List (EligibleOpportunity F.N))
      → Result SelectionError (List (SelectedOpportunity F.N))
  unfolding index_from sort_rows
  select_days sessions next_allowed [] = ok []
  select_days sessions next_allowed ((day, rows) ∷ groups) =
      and_then (or_raise key_error (index_from 0 sessions day)) λ position.
        elim (ltb position next_allowed) [
          | true ↦ select_days sessions next_allowed groups
          | false ↦ and_then (first_of (sort_rows rows)) λ winner.
              and_then (select_days sessions (position + 20) groups)
                λ rest. ok (selected winner position ∷ rest)
        ]

  unfoldable pub select_cluster_aware_opportunities :
      List (EligibleOpportunity F.N)
      → List ℕ
      → Result SelectionError (List (SelectedOpportunity F.N))
  unfolding is_increasing group_rows by_day select_days
  select_cluster_aware_opportunities opportunities sessions =
      if not (is_increasing sessions)
      then err calendar_not_increasing
      else and_then (group_rows sessions opportunities [])
          λ grouped. select_days sessions 0 (by_day grouped)
