-- ===== src/Selector/Examples.antt =====
-- The theorem on src/investment_tracker/replay_v3.py at a concrete calendar, and tests.
use investment_tracker.Prelude.{
  ℕ, ◌*◌, ◌+◌, ◌-◌, ◌/◌, String, ◌≡◌, refl, List, [], ◌∷◌, ltb, leb, ok,
}
use investment_tracker.Dict.{put, get}
use investment_tracker.Replay.{Number}
use investment_tracker.Governance.{assert_symbol_allowed}
use investment_tracker.Selector.{
  EligibleOpportunity, SelectedOpportunity, select_cluster_aware_opportunities,
}
use investment_tracker.Selector.Cooldown.{Spaced, select_cluster_aware_opportunities-Spaced}

abbrev small_numbers : Number
small_numbers = record {
  N = ℕ;
  lt = ltb;
  le = leb;
  times = λ a b. (a * b) / 100;
  minus = λ a b. a - b;
  plus = λ a b. a + b;
  negate = λ a. 1000 - a;
  hundredths = λ n. n;
}

abbrev same : String → String
same s = s

abbrev opportunity : String → ℕ → ℕ → EligibleOpportunity ℕ
opportunity asset day spread = record {
  asset = asset;
  signal_date = day;
  relative_strength_spread = spread;
  dq_status = "CLEAN";
}

abbrev sessions : List ℕ
sessions =
    1 ∷ 2 ∷ 3 ∷ 4 ∷ 5 ∷ 6 ∷ 7 ∷ 8 ∷ 9 ∷ 10 ∷ 11 ∷ 12 ∷ 13 ∷ 14 ∷ 15 ∷ 16 ∷ 17 ∷ 18 ∷ 19 ∷ 20 ∷ 21
    ∷ []

-- Two on the first session, one in the cooldown and one at its end.
abbrev opportunities : List (EligibleOpportunity ℕ)
opportunities =
    opportunity "CIBR" 21 1
    ∷ opportunity "AAA" 1 3
    ∷ opportunity "BBB" 1 5
    ∷ opportunity "CIBR" 20 9
    ∷ []

abbrev choice : String → ℕ → ℕ → ℕ → SelectedOpportunity ℕ
choice asset day spread position = record {
  asset = asset;
  signal_date = day;
  relative_strength_spread = spread;
  benchmark_session_index = position;
}

chosen :
    select_cluster_aware_opportunities small_numbers same opportunities sessions
    ≡ ok (choice "BBB" 1 5 0 ∷ choice "CIBR" 21 1 20 ∷ [])
unfolding select_cluster_aware_opportunities assert_symbol_allowed put get
chosen = refl

select_cluster_aware_opportunities-Spaced_example :
    Spaced 0 (choice "BBB" 1 5 0 ∷ choice "CIBR" 21 1 20 ∷ [])
select_cluster_aware_opportunities-Spaced_example =
    select_cluster_aware_opportunities-Spaced small_numbers same sessions opportunities chosen
