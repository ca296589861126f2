-- ===== src/Checks/Tests.antt =====
-- A check that fails and recovers.
use buildtest.Base.{Bool, List, [], arith, false, refl, true, ℕ, ◌∷◌, ◌≡◌}
use buildtest.Checks.Data.{perform_check, run_checks, started_check, up}
use buildtest.Checks.History.{run_checks-started_check}

-- The check succeeds twice after its failures, and one success is shown, as after the first of the two.
abbrev shown_successes : List Bool → ℕ
shown_successes results = (run_checks 2 results (started_check 2 1)).data_shown.successes

recovered_then_succeeded :
    (shown_successes (false ∷ false ∷ true ∷ []) ≡ 1)
    × (shown_successes (false ∷ false ∷ true ∷ true ∷ []) ≡ 1)
    × (shown_successes (true ∷ true ∷ []) ≡ 2)
unfolding run_checks started_check
recovered_then_succeeded = (refl, refl, refl)

abbrev some_results : List Bool
some_results = true ∷ false ∷ false ∷ true ∷ false ∷ []

run_checks-started_check_example :
    ((run_checks 2 some_results (started_check 2 1)).data_shown.failures ≡ 1)
    × ((run_checks 2 some_results (started_check 2 1)).data_shown.status ≡ up)
    × ((run_checks 2 some_results (started_check 2 1)).kind ≡ perform_check)
    × ((run_checks 2 some_results (started_check 2 1)).triggered ≡ 1)
run_checks-started_check_example =
    run_checks-started_check 2 1 some_results (omega arith) (omega arith)
