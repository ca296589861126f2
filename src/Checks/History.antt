-- ===== src/Checks/History.antt =====
-- What a check shows and triggers after any history of runs
-- (internals/overlord/checkstate/handlers.go, manager.go).
use buildtest.Checks.Runs.{Matches, run_check-Goes}
use buildtest.Base.{
  Bool, List, [], arith, false, if◌then◌else◌, leb, refl, true, ℕ, ◌+◌, ◌<◌, ◌==◌, ◌∙◌, ◌∷◌, ◌≡◌,
}
use buildtest.Checks.Data.{
  CheckState, down, perform_check, recover_check, run_check, run_checks, started_check, up,
}

-- How many of the last runs failed in a row, with some that failed before.
abbrev pub failed_in_a_row : ℕ → List Bool → ℕ
failed_in_a_row streak [] = streak
failed_in_a_row streak (true ∷ results) = failed_in_a_row 0 results
failed_in_a_row streak (false ∷ results) = failed_in_a_row (streak + 1) results

-- How often so many runs failed in a row.
abbrev pub alarms : ℕ → ℕ → List Bool → ℕ
alarms threshold streak [] = 0
alarms threshold streak (true ∷ results) = alarms threshold 0 results
alarms threshold streak (false ∷ results) =
    (if streak + 1 == threshold then 1 else 0) + alarms threshold (streak + 1) results

run_checks-Matches :
    (threshold streak : ℕ) (results : List Bool) (s : CheckState)
    → 0 < threshold
    → Matches threshold streak s
    → Matches threshold (failed_in_a_row streak results) (run_checks threshold results s)
      × ((run_checks threshold results s).triggered ≡ s.triggered + alarms threshold streak results)
unfolding run_checks
run_checks-Matches threshold streak [] s h m = (m, omega arith)
run_checks-Matches threshold streak (true ∷ results) s h m =
    let here = run_check-Goes threshold streak true s h m in
    let rest = run_checks-Matches threshold 0 results (run_check threshold true s) h here.0 in
    (rest.0, omega (arith, here.1, rest.1))
run_checks-Matches threshold streak (false ∷ results) s h m =
    let here = run_check-Goes threshold streak false s h m in
    let rest =
      run_checks-Matches threshold (streak + 1) results (run_check threshold false s) h here.0 in
    (rest.0, ground (arith, here.1, rest.1))

started_check-Matches :
    (threshold change_id : ℕ)
    → 0 < threshold
    → 0 < change_id
    → Matches threshold 0 (started_check threshold change_id)
unfolding started_check
started_check-Matches threshold change_id h c = record {
  kind_is = ground (arith, h);
  failures_are = refl;
  shown_failures = refl;
  not_proceeding = refl;
  has_change = c;
  status_is = ground (arith, h, c);
}

-- With a threshold above 0, after any sequence of runs of a new check, the failures shown are the
-- runs that failed in a row at the end; the check is shown as down, and is being recovered and not
-- performed, exactly if they have reached the threshold; and the failure handlers were called once
-- for each time that the runs that failed in a row reached it.
pub run_checks-started_check :
    (threshold change_id : ℕ) (results : List Bool)
    → 0 < threshold
    → 0 < change_id
    → ((run_checks threshold results (started_check threshold change_id)).data_shown.failures
        ≡ failed_in_a_row 0 results)
      × ((run_checks threshold results (started_check threshold change_id)).data_shown.status
          ≡ (if leb threshold (failed_in_a_row 0 results) then down else up))
      × ((run_checks threshold results (started_check threshold change_id)).kind
          ≡ (if leb threshold (failed_in_a_row 0 results) then recover_check else perform_check))
      × ((run_checks threshold results (started_check threshold change_id)).triggered
          ≡ alarms threshold 0 results)
unfolding started_check
run_checks-started_check threshold change_id results h c =
    let (m, t) =
      run_checks-Matches threshold 0 results (started_check threshold change_id) h
        (started_check-Matches threshold change_id h c) in
    (m.shown_failures, m.status_is, m.kind_is, t ∙ omega arith)
