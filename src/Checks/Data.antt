-- ===== src/Checks/Data.antt =====
-- One health check, from run to run (internals/overlord/checkstate/handlers.go, manager.go and
-- request.go). A run has failed or succeeded. What follows from the end of its task, the change of the
-- other kind, is part of the step. Timers, stops and changes of the configuration are left out.
use buildtest.Base.{Bool, List, [], false, if◌then◌else◌, leb, true, ℕ, ◌+◌, ◌==◌, ◌∷◌}

pub data ChangeKind : Type 0 where
  perform_check recover_check : ChangeKind

pub data CheckStatus : Type 0 where
  up down inactive : CheckStatus

-- `checkDetails`.
pub record Details : Type 0 where
  pub failures : ℕ
  pub successes : ℕ
  pub proceed : Bool

-- `checkData`; no change ID is 0.
pub record CheckData : Type 0 where
  pub status : CheckStatus
  pub successes : ℕ
  pub failures : ℕ
  pub threshold : ℕ
  pub change_id : ℕ
  pub prev_change_id : ℕ
  pub success_metric : ℕ
  pub failure_metric : ℕ

-- The change of the check with its task's details, and how often the failure handlers were called.
pub record CheckState : Type 0 where
  pub kind : ChangeKind
  pub details : Details
  pub data_shown : CheckData
  pub triggered : ℕ

-- `updateCheckData`.
unfoldable pub update_check_data : ℕ → ℕ → ℕ → ℕ → ℕ → CheckData → CheckData
update_check_data threshold change_id prev_change_id successes failures d = record d {
  status = if change_id == 0 then inactive else if leb threshold failures then down else up;
  successes = successes;
  failures = failures;
  threshold = threshold;
  change_id = change_id;
  prev_change_id = prev_change_id;
}

abbrev pub inc_success_metric : CheckData → CheckData
inc_success_metric d = record d { success_metric = d.success_metric + 1 }

abbrev pub inc_failure_metric : CheckData → CheckData
inc_failure_metric d = record d { failure_metric = d.failure_metric + 1 }

abbrev pub new_details : Details
new_details = record { failures = 0; successes = 0; proceed = false }

-- The two cases of `changeStatusChanged`. For the ID of the new change, which the state gives, stands the
-- number after that of the old one.
unfoldable pub next_change : ChangeKind → ℕ → CheckState → CheckState
unfolding update_check_data
next_change perform_check threshold s = record s {
  kind = recover_check;
  details = record s.details { proceed = false };
  data_shown =
      update_check_data threshold (s.data_shown.change_id + 1) s.data_shown.change_id
        s.details.successes s.details.failures s.data_shown;
}
next_change recover_check threshold s = record s {
  kind = perform_check;
  details = new_details;
  data_shown =
      update_check_data threshold (s.data_shown.change_id + 1) s.data_shown.change_id
        s.details.successes s.details.failures s.data_shown;
}

-- `changeStatusChanged`, when the task of the change has ended.
unfoldable pub change_status_changed : ℕ → CheckState → CheckState
unfolding next_change
change_status_changed threshold s = if s.details.proceed then next_change s.kind threshold s else s

abbrev pub shown_now : ℕ → Details → CheckData → CheckData
shown_now threshold details d =
    update_check_data threshold d.change_id d.prev_change_id details.successes details.failures d

-- `performCheck` in `doPerformCheck`, with the result of the check.
unfoldable pub run_perform : ℕ → Bool → CheckState → CheckState
unfolding change_status_changed update_check_data
run_perform threshold false s =
    let failed = record s.details { failures = s.details.failures + 1 } in
    let counted = inc_failure_metric s.data_shown in
    if leb threshold failed.failures
    then change_status_changed threshold (record s {
      details = record failed { proceed = true };
      data_shown = counted;
      triggered = s.triggered + 1;
    })
    else record s { details = failed; data_shown = shown_now threshold failed counted }
run_perform threshold true s =
    let succeeded = record s.details { successes = s.details.successes + 1; failures = 0 } in
    record s {
      details = succeeded;
      data_shown = shown_now threshold succeeded (inc_success_metric s.data_shown);
    }

-- `recoverCheck` in `doRecoverCheck`.
unfoldable pub run_recover : ℕ → Bool → CheckState → CheckState
unfolding change_status_changed update_check_data
run_recover threshold false s =
    let failed = record s.details { failures = s.details.failures + 1 } in
    record s {
      details = failed;
      data_shown = shown_now threshold failed (inc_failure_metric s.data_shown);
    }
run_recover threshold true s = change_status_changed threshold (record s {
  details = record { failures = 0; successes = 1; proceed = true };
  data_shown = inc_success_metric s.data_shown;
})

unfoldable pub run_as : ChangeKind → ℕ → Bool → CheckState → CheckState
unfolding run_perform run_recover
run_as perform_check threshold result s = run_perform threshold result s
run_as recover_check threshold result s = run_recover threshold result s

unfoldable pub run_check : ℕ → Bool → CheckState → CheckState
unfolding run_as
run_check threshold result s = run_as s.kind threshold result s

unfoldable pub run_checks : ℕ → List Bool → CheckState → CheckState
unfolding run_check
run_checks threshold [] s = s
run_checks threshold (result ∷ results) s =
    run_checks threshold results (run_check threshold result s)

-- The first change of a check, by `performCheckChange` and `updateCheckData`.
unfoldable pub started_check : ℕ → ℕ → CheckState
unfolding update_check_data
started_check threshold change_id = record {
  kind = perform_check;
  details = new_details;
  data_shown = update_check_data threshold change_id 0 0 0 (record {
    status = inactive;
    successes = 0;
    failures = 0;
    threshold = 0;
    change_id = 0;
    prev_change_id = 0;
    success_metric = 0;
    failure_metric = 0;
  });
  triggered = 0;
}
