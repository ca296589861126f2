-- ===== src/Service/Crashes.antt =====
-- Crashes in a row and the restarts that follow them (internals/overlord/servstate/handlers.go).
use mathlib.Core.List.{append-nil, append_assoc}
use buildtest.Base.{
  List, [], ap, arith, length, min, refl, set, subst, suc, sym, zero, ℕ, ◌++◌, ◌+◌, ◌<◌, ◌∙◌, ◌∷◌,
  ◌≡◌, ◌≢◌, ◌≤◌, ◌⊎◌,
}
use buildtest.Service.Data.{
  Effect, ServiceConfig, ServiceData, after, backoff_wait, launched, restart, running, unset,
}
use buildtest.Service.Event.{Event, process_exit, run, step, timer}
use buildtest.Service.Machine.{calculate_next_backoff}
use buildtest.Service.Backoff.{Grows}

-- The delay of the n-th restart in a row, from 0, apart from the code: the first is the configured one,
-- and each later one is the product of the one before and the factor, or the limit if that is less.
abbrev pub expected_delay : ServiceConfig → ℕ → ℕ
expected_delay c zero = c.backoff_delay
expected_delay c (suc n) = min (c.scale (expected_delay c n)) c.backoff_limit

expected_delay-between :
    (c : ServiceConfig) (n : ℕ)
    → Grows c
    → c.backoff_delay ≤ c.backoff_limit
    → (c.backoff_delay ≤ expected_delay c n) × (expected_delay c n ≤ c.backoff_limit)
expected_delay-between c zero factor k = (omega arith, k)
expected_delay-between c (suc n) factor k =
    let (low, high) = expected_delay-between c n factor k in
    ground (arith, low, factor (expected_delay c n) low high)

next-expected :
    (c : ServiceConfig) (n : ℕ)
    → Grows c
    → 0 < c.backoff_delay
    → c.backoff_delay ≤ c.backoff_limit
    → calculate_next_backoff c (expected_delay c n) ≡ expected_delay c (suc n)
unfolding calculate_next_backoff
next-expected c n factor h k =
    let (low, high) = expected_delay-between c n factor k in
    ground (arith, h, low, high, factor (expected_delay c n) low high)

-- A crash of a service and the restart that follows: the exit code and the new pid, and the times and
-- the jitters that the two methods read.
pub record Crash : Type 0 where
  pub code : ℕ
  pub pid : ℕ
  pub exit_time : ℕ
  pub exit_jitter : ℕ
  pub timer_time : ℕ
  pub timer_jitter : ℕ

abbrev pub crash_history : List Crash → List (Event × ℕ × ℕ)
crash_history [] = []
crash_history (x ∷ xs) =
    (process_exit x.code, x.exit_time, x.exit_jitter)
    ∷ (timer backoff_wait (launched x.pid), x.timer_time, x.timer_jitter)
    ∷ crash_history xs

abbrev pub AllFail : List Crash → Type 0
AllFail [] = Unit {0}
AllFail (x ∷ xs) = (x.code ≢ 0) × AllFail xs

-- The delays for which the backoff timer is set, by a list of effects and over a history.
abbrev pub armed : List Effect → List ℕ
armed [] = []
armed (after d backoff_wait ∷ es) = d ∷ armed es
armed (_ ∷ es) = armed es

abbrev pub armed_in : List (Event × ℕ × ℕ) → ServiceData → List ℕ
armed_in [] s = []
armed_in ((e, now, jitter) ∷ es) s =
    let o = step e now jitter s in armed o.effects ++ armed_in es o.service

-- The delays that the crashes from the n-th on should have.
abbrev pub due : ServiceConfig → ℕ → List Crash → List ℕ
due c n [] = []
due c n (x ∷ xs) = (expected_delay c n + x.exit_jitter) ∷ due c (suc n) xs

-- After n crashes that were each followed by a restart.
record Restarted (c : ServiceConfig) (n : ℕ) (s : ServiceData) : Type 0 where
  runs : s.state ≡ running
  same_config : s.config ≡ c
  counted : s.backoff_num ≡ n
  delayed : calculate_next_backoff c s.backoff_time ≡ expected_delay c n

crash_round-lem :
    (x : Crash) (s : ServiceData)
    → s.state ≡ running
    → (s.config.on_failure ≡ restart) ⊎ (s.config.on_failure ≡ unset)
    → x.code ≢ 0
    → let h = crash_history (x ∷ []) in
      let s' = run h s in
      let next = calculate_next_backoff s.config s.backoff_time in
      (s'.state ≡ running)
      × (s'.config ≡ s.config)
      × (s'.backoff_num ≡ s.backoff_num + 1)
      × (s'.start_count ≡ s.start_count + 1)
      × (s'.backoff_time ≡ next)
      × (armed_in h s ≡ (next + x.exit_jitter) ∷ [])
unfolding run step
crash_round-lem x s h k l = ground (arith, k)

run-crashes :
    (x : Crash) (xs : List Crash) (s : ServiceData)
    → (run (crash_history (x ∷ xs)) s ≡ run (crash_history xs) (run (crash_history (x ∷ [])) s))
      × (armed_in (crash_history (x ∷ xs)) s
          ≡ armed_in (crash_history (x ∷ [])) s
            ++ armed_in (crash_history xs) (run (crash_history (x ∷ [])) s))
unfolding run
run-crashes x xs s =
    let o = step (process_exit x.code) x.exit_time x.exit_jitter s in
    let again = step (timer backoff_wait (launched x.pid)) x.timer_time x.timer_jitter o.service in
    let rest = armed_in (crash_history xs) again.service in
    (
      refl,
      rw (append-nil (armed again.effects))
          (sym (append_assoc (armed o.effects) (armed again.effects) rest)),
    )

crash_rounds-Restarted :
    (c : ServiceConfig) (n : ℕ) (xs : List Crash) (s : ServiceData)
    → (c.on_failure ≡ restart) ⊎ (c.on_failure ≡ unset)
    → AllFail xs
    → 0 < c.backoff_delay
    → c.backoff_delay ≤ c.backoff_limit
    → Grows c
    → Restarted c n s
    → let s' = run (crash_history xs) s in
      (s'.state ≡ running)
      × (s'.backoff_num ≡ n + length xs)
      × (s'.start_count ≡ s.start_count + length xs)
      × (armed_in (crash_history xs) s ≡ due c n xs)
unfolding run
crash_rounds-Restarted c n [] s k f h l g v = (v.runs, ground (arith, v.counted), omega arith, refl)
crash_rounds-Restarted c n (x ∷ xs) s k f h l g v =
    let s' = run (crash_history (x ∷ [])) s in
    let fails : (s.config.on_failure ≡ restart) ⊎ (s.config.on_failure ≡ unset) =
      subst (λ (d : ServiceConfig). (d.on_failure ≡ restart) ⊎ (d.on_failure ≡ unset))
        (sym v.same_config) k in
    let (runs, config, counted, started, time, set) = crash_round-lem x s v.runs fails f.0 in
    let next : calculate_next_backoff s.config s.backoff_time ≡ expected_delay c n =
      ap (λ d. calculate_next_backoff d s.backoff_time) v.same_config ∙ v.delayed in
    let v' : Restarted c (suc n) s' = record {
      runs = runs;
      same_config = config ∙ v.same_config;
      counted = counted ∙ ground (arith, v.counted);
      delayed = ap (calculate_next_backoff c) (time ∙ next) ∙ next-expected c n g h l;
    } in
    let (runs', counted', started', set') = crash_rounds-Restarted c (suc n) xs s' k f.1 h l g v' in
    let (same, both) = run-crashes x xs s in
    (
      ap (λ (z : ServiceData). z.state) same ∙ runs',
      ap (λ (z : ServiceData). z.backoff_num) same ∙ counted' ∙ omega arith,
      ap (λ (z : ServiceData). z.start_count) same ∙ started' ∙ omega (arith, started),
      both
          ∙ ap (λ z. z ++ armed_in (crash_history xs) s') set
          ∙ ap (λ z. (z + x.exit_jitter) ∷ armed_in (crash_history xs) s') next
          ∙ ap (λ z. (expected_delay c n + x.exit_jitter) ∷ z) set',
    )

-- A running service that was never in backoff, whose on-failure action is restart or unset,
-- crashes any number of times, with any exit codes but 0, and is started each time when the
-- backoff timer fires. Then it runs, the crashes and the starts are counted, and the n-th time,
-- from 0, the timer is set to the jitter and a delay, which begins with the configured one and is
-- multiplied by the factor each time up to the limit. This is if the configured delay is positive
-- and within the limit, and no product of a delay between the two is less than that delay.
pub crash_rounds_lem :
    (xs : List Crash) (s : ServiceData)
    → s.state ≡ running
    → (s.config.on_failure ≡ restart) ⊎ (s.config.on_failure ≡ unset)
    → AllFail xs
    → s.backoff_num ≡ 0
    → s.backoff_time ≡ 0
    → 0 < s.config.backoff_delay
    → s.config.backoff_delay ≤ s.config.backoff_limit
    → ((d : ℕ) → s.config.backoff_delay ≤ d → d ≤ s.config.backoff_limit → d ≤ s.config.scale d)
    → let s' = run (crash_history xs) s in
      (s'.state ≡ running)
      × (s'.backoff_num ≡ length xs)
      × (s'.start_count ≡ s.start_count + length xs)
      × (armed_in (crash_history xs) s ≡ due s.config 0 xs)
unfolding calculate_next_backoff
crash_rounds_lem xs s h k f m o p l g =
    let (runs, counted, started, set) =
      crash_rounds-Restarted s.config 0 xs s k f p l g
        (record { runs = h; same_config = refl; counted = m; delayed = ground (arith, o) }) in
    (runs, counted ∙ omega arith, started, set)
