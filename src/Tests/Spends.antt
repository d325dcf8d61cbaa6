-- ===== src/Tests/Spends.antt =====
-- The daily totals at concrete spends.
use cloudmorph_tessera.Prelude.{ℕ, ◌≡◌, String, List, [], ◌∷◌}
use cloudmorph_tessera.Dict
use cloudmorph_tessera.State.DailySpend.{
  DailySpendState, row_of, get_today_spend, add_all, total_of, spends_of, spend_or_nought,
  get_today_spend-add_all, spend_eq,
}
use cloudmorph_tessera.Tests.Fixtures.{fl}

abbrev spends : List (String × ℕ × String)
spends =
    ("default", 3, "2026-01-02")
    ∷ ("other", 5, "2026-01-02")
    ∷ ("default", 7, "2026-01-01")
    ∷ ("default", 4, "2026-01-02")
    ∷ []

abbrev before : DailySpendState ℕ
before = record { daily_spend = (row_of "default" "2026-01-02", 10) ∷ [] }

get_today_spend-add_all_example :
    get_today_spend "default" "2026-01-02" (add_all spends before)
    ≡ spend_or_nought (
        total_of
          (spends_of "default" "2026-01-02" spends)
          (Dict.get (row_of "default" "2026-01-02") before.daily_spend))
get_today_spend-add_all_example = get_today_spend-add_all "default" "2026-01-02" spends before
