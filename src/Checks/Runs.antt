-- ===== src/Checks/Runs.antt =====
-- What one run of a check keeps (internals/overlord/checkstate/handlers.go, manager.go).
use buildtest.Base.{
  Bool, Bool-cases, ap, arith, false, if◌then◌else◌, inl, inr, leb, not, refl, subst, sym, true, ℕ,
  ◌&&◌, ◌+◌, ◌<◌, ◌==◌, ◌∙◌, ◌≡◌,
}
use buildtest.Checks.Data.{
  ChangeKind, CheckState, change_status_changed, down, inc_failure_metric, inc_success_metric,
  next_change, perform_check, recover_check, run_as, run_check, run_perform, run_recover, up,
  update_check_data,
}

-- Between two runs.
pub record Matches (threshold streak : ℕ) (s : CheckState) : Type 0 where
  pub kind_is : s.kind ≡ (if leb threshold streak then recover_check else perform_check)
  pub failures_are : s.details.failures ≡ streak
  pub shown_failures : s.data_shown.failures ≡ streak
  pub not_proceeding : s.details.proceed ≡ false
  pub has_change : 0 < s.data_shown.change_id
  pub status_is : s.data_shown.status ≡ (if leb threshold streak then down else up)

abbrev pub next_streak : Bool → ℕ → ℕ
next_streak true streak = 0
next_streak false streak = streak + 1

-- A run, by the kind of the change.
run_check-kind :
    (threshold : ℕ) (result : Bool) (s : CheckState) (kind : ChangeKind)
    → s.kind ≡ kind
    → run_check threshold result s ≡ run_as kind threshold result s
unfolding run_check
run_check-kind threshold result s kind e = ap (λ k. run_as k threshold result s) e

change_status_changed-kind :
    (threshold : ℕ) (s : CheckState) (kind : ChangeKind)
    → s.details.proceed ≡ true
    → s.kind ≡ kind
    → change_status_changed threshold s ≡ next_change kind threshold s
unfolding change_status_changed
change_status_changed-kind threshold s kind p e =
    ap (λ b. if b then next_change s.kind threshold s else s) p
    ∙ ap (λ k. next_change k threshold s) e

below_threshold :
    (threshold streak : ℕ)
    → perform_check ≡ (if leb threshold streak then recover_check else perform_check)
    → leb threshold streak ≡ false
below_threshold threshold streak e = elim (Bool-cases (leb threshold streak)) [
  | inl l ↦ absurd (ground (arith, l, e))
  | inr l ↦ l
]

at_threshold :
    (threshold streak : ℕ)
    → recover_check ≡ (if leb threshold streak then recover_check else perform_check)
    → leb threshold streak ≡ true
at_threshold threshold streak e = elim (Bool-cases (leb threshold streak)) [
  | inl l ↦ l
  | inr l ↦ absurd (ground (arith, l, e))
]

abbrev pub Goes : ℕ → ℕ → Bool → CheckState → CheckState → Type 0
Goes threshold streak result s next =
    Matches threshold (next_streak result streak) next
    × (next.triggered ≡ s.triggered + (if not result && (streak + 1 == threshold) then 1 else 0))

run_perform-Goes :
    (threshold streak : ℕ) (result : Bool) (s : CheckState)
    → 0 < threshold
    → Matches threshold streak s
    → s.kind ≡ perform_check
    → Goes threshold streak result s (run_perform threshold result s)
unfolding run_perform next_change update_check_data
run_perform-Goes threshold streak true s h m k = (
  record {
    kind_is = ground (arith, k, h);
    failures_are = refl;
    shown_failures = refl;
    not_proceeding = m.not_proceeding;
    has_change = m.has_change;
    status_is = ground (arith, h, m.has_change);
  },
  omega arith,
)
run_perform-Goes threshold streak false s h m k =
    let below : leb threshold streak ≡ false =
      below_threshold threshold streak (sym k ∙ m.kind_is) in
    elim (Bool-cases (leb threshold (s.details.failures + 1))) [
      | inl l ↦
          let failed = record s.details { failures = s.details.failures + 1; proceed = true } in
          let hit = record s {
            details = failed;
            data_shown = inc_failure_metric s.data_shown;
            triggered = s.triggered + 1;
          } in
          rw (l) (
            subst (Goes threshold streak false s)
              (sym (change_status_changed-kind threshold hit perform_check refl k))
              (
                record {
                  kind_is = ground (arith, l, m.failures_are);
                  failures_are = ground (arith, m.failures_are);
                  shown_failures = ground (arith, m.failures_are);
                  not_proceeding = refl;
                  has_change = omega arith;
                  status_is = ground (arith, l, m.failures_are);
                },
                ground (arith, l, below, m.failures_are),
              ))
      | inr l ↦ rw (l) (
        record {
          kind_is = ground (arith, k, l, m.failures_are);
          failures_are = ground (arith, m.failures_are);
          shown_failures = ground (arith, m.failures_are);
          not_proceeding = m.not_proceeding;
          has_change = m.has_change;
          status_is = ground (arith, l, m.failures_are, m.has_change);
        },
        ground (arith, l, m.failures_are),
      )
    ]

run_recover-Goes :
    (threshold streak : ℕ) (result : Bool) (s : CheckState)
    → 0 < threshold
    → Matches threshold streak s
    → s.kind ≡ recover_check
    → Goes threshold streak result s (run_recover threshold result s)
unfolding run_recover next_change update_check_data
run_recover-Goes threshold streak true s h m k =
    let healed = record s {
      details = record { failures = 0; successes = 1; proceed = true };
      data_shown = inc_success_metric s.data_shown;
    } in
    subst (Goes threshold streak true s)
      (sym (change_status_changed-kind threshold healed recover_check refl k))
      (
        record {
          kind_is = ground (arith, h);
          failures_are = refl;
          shown_failures = refl;
          not_proceeding = refl;
          has_change = omega arith;
          status_is = ground (arith, h);
        },
        omega arith,
      )
run_recover-Goes threshold streak false s h m k =
    let reached : leb threshold streak ≡ true = at_threshold threshold streak (sym k ∙ m.kind_is) in
    (
      record {
        kind_is = ground (arith, k, reached);
        failures_are = ground (arith, m.failures_are);
        shown_failures = ground (arith, m.failures_are);
        not_proceeding = m.not_proceeding;
        has_change = m.has_change;
        status_is = ground (arith, reached, m.failures_are, m.has_change);
      },
      ground (arith, reached),
    )

pub run_check-Goes :
    (threshold streak : ℕ) (result : Bool) (s : CheckState)
    → 0 < threshold
    → Matches threshold streak s
    → Goes threshold streak result s (run_check threshold result s)
unfolding run_as
run_check-Goes threshold streak result s h m = elim (Bool-cases (leb threshold streak)) [
  | inl l ↦
      let kind : s.kind ≡ recover_check = ground (arith, l, m.kind_is) in
      subst (Goes threshold streak result s)
        (sym (run_check-kind threshold result s recover_check kind))
        (run_recover-Goes threshold streak result s h m kind)
  | inr l ↦
      let kind : s.kind ≡ perform_check = ground (arith, l, m.kind_is) in
      subst (Goes threshold streak result s)
        (sym (run_check-kind threshold result s perform_check kind))
        (run_perform-Goes threshold streak result s h m kind)
]
