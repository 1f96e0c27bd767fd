-- ===== src/Errors/Tests.antt =====
-- Concrete error codes.
use ads_rs.Prelude.{ℕ, ◌≡◌}
use ads_rs.Errors.{err, ads}
use ads_rs.Errors.Codes.{ErrorTable, ads_errors, ads_error}
use ads_rs.Errors.Search.{find_code, ads_error-eq-find_code}
use ads_rs.Prelude.{[], ◌∷◌}

abbrev three_codes : ErrorTable
three_codes = (1, "one") ∷ (5, "five") ∷ (9, "nine") ∷ []

ads_error-eq-find_code_example :
    ads_error {A = ℕ} "read data" 1793
    ≡ err (ads "read data" "Service is not supported by server" 1793)
unfolding find_code ads_errors
ads_error-eq-find_code_example = ads_error-eq-find_code "read data" 1793
