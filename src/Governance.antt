-- ===== src/Governance.antt =====
-- src/investment_tracker/governance.py: the symbols that no part of the program may touch. The texts'
-- own `strip` and `upper` are a parameter together.
mod Examples
use investment_tracker.Prelude.{
  String, ◌≡◌, ◌≢◌, ◌↔◌, Bool, List, [], ◌∷◌, any, if◌then◌else◌, str_eq, eq_iff, Result, ok, err,
  refl, arith,
}

pub data SymbolError : Type 0 where
  value_error locked_holdout_error : SymbolError

abbrev pub locked_holdout : List String
locked_holdout = "HACK" ∷ "SOXX" ∷ "NLR" ∷ "URNM" ∷ "GEV" ∷ []

module _ (strip_upper : String → String) where
  unfoldable pub assert_symbol_allowed : String → Result SymbolError String
  assert_symbol_allowed symbol =
      let normalized = strip_upper symbol in
      if str_eq normalized ""
      then err value_error
      else if any (str_eq normalized) locked_holdout
      then err locked_holdout_error
      else ok normalized

  -- A symbol passes exactly as its normal form, which is then neither empty nor one of the locked
  -- holdout.
  assert_symbol_allowed_iff :
      (symbol normalized : String)
      → (assert_symbol_allowed symbol ≡ ok normalized) ↔ (
          (normalized ≡ strip_upper symbol)
          × (normalized ≢ "")
          × (normalized ≢ "HACK")
          × (normalized ≢ "SOXX")
          × (normalized ≢ "NLR")
          × (normalized ≢ "URNM")
          × (normalized ≢ "GEV"))
  unfolding assert_symbol_allowed
  assert_symbol_allowed_iff symbol normalized =
      let n = strip_upper symbol in
      (
        λ h. ground (
          arith,
          eq_iff n "",
          eq_iff n "HACK",
          eq_iff n "SOXX",
          eq_iff n "NLR",
          eq_iff n "URNM",
          eq_iff n "GEV",
        ),
        λ h. ground (
          arith,
          eq_iff n "",
          eq_iff n "HACK",
          eq_iff n "SOXX",
          eq_iff n "NLR",
          eq_iff n "URNM",
          eq_iff n "GEV",
        ),
      )
