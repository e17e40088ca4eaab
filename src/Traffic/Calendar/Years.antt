-- ===== src/Traffic/Calendar/Years.antt =====
-- src/traffic.rs: the year of a day of the era.
use runman_agent.Prelude.{ℕ, ◌+◌, ◌/◌, ◌≤◌, ◌<◌, arith}
use runman_agent.Traffic.Calendar.{year_of_era, days_before_year}

-- An era has 400 years.
pub year_of_era-lt : (doe : ℕ) → doe < 146097 → year_of_era doe < 400
unfolding year_of_era
year_of_era-lt doe h = omega arith

-- The year begins no later than its day.
pub year_lower : (doe : ℕ) → doe < 146097 → days_before_year (year_of_era doe) ≤ doe
unfolding year_of_era days_before_year
year_lower doe h = omega arith

-- The next year begins later; the last year of the era has the day that ends the era.
pub year_upper :
    (doe : ℕ)
    → doe < 146097
    → doe < days_before_year (year_of_era doe + 1) + (year_of_era doe + 1) / 400
unfolding year_of_era days_before_year
year_upper doe h = omega arith
