-- ===== src/State/Searching.antt =====
-- What the loops of the search for waiting tasks leave to compute
-- (internals/overlord/state/change.go).
use buildtest.State.Status.{Status, default, do_, undo}
use buildtest.Base.{
  Bool, List, Option, Option-cases, [], ap, arith, false, if◌then◌else◌, inl, inr, ltb, none, refl,
  some, suc, true, zero, ℕ, ◌+◌, ◌<◌, ◌∷◌, ◌≡◌, ◌≢◌, ◌≤◌, ◌⊎◌,
}
use buildtest.State.Data.{Task, Tasks}
use buildtest.State.Waiting.{
  Answer, Verdict, Visited, WaitCompute, asks, blocks, computing, conclude, deps_loop, follow,
  follow_change, is_task_waiting, mark, not_computed, not_waiting, passes, resume, resume_change,
  stops, verdict, waiting,
}

abbrev pub is_new : WaitCompute → ℕ
is_new not_computed = 1
is_new _ = 0

-- How many ids below n are not computed.
abbrev pub fresh : ℕ → Visited → ℕ
fresh zero v = 0
fresh (suc n) v = is_new (v n) + fresh n v

abbrev pub AllBelow : ℕ → List ℕ → Type 0
AllBelow n [] = Unit {0}
AllBelow n (x ∷ xs) = (x < n) × AllBelow n xs

-- Every task names only tasks with ids below n.
abbrev pub Closed : ℕ → Tasks → Type 0
Closed n tasks = (id : ℕ) → AllBelow n (tasks id).wait_tasks × AllBelow n (tasks id).halt_tasks

pub fresh-mark :
    (n : ℕ) (v : Visited) (id : ℕ) (c : WaitCompute)
    → is_new c ≡ 0
    → fresh n (mark v id c) + (if ltb id n then is_new (v id) else 0) ≡ fresh n v
fresh-mark zero v id c h = ground arith
fresh-mark (suc n) v id c h = ground (arith, fresh-mark n v id c h, ap v {x = id} {y = n})

-- An answer that leaves no more to compute than before.
abbrev pub Answers : ℕ → ℕ → Answer → Type 0
Answers n bound none = ⊥
Answers n bound (some (v, b)) = fresh n v ≤ bound

abbrev pub Asked : ℕ → ℕ → (Visited → ℕ → List ℕ → Answer) → Type 0
Asked n bound ask =
    (v : Visited) (id : ℕ) (deps : List ℕ)
    → id < n
    → AllBelow n deps
    → fresh n v ≤ bound
    → Answers n (fresh n v) (ask v id deps)

pub Answers-mono : (n a b : ℕ) (r : Answer) → a ≤ b → Answers n a r → Answers n b r
Answers-mono n a b none h r = r
Answers-mono n a b (some (v, c)) h r = omega arith

abbrev pub VerdictBelow : ℕ → Verdict → Type 0
VerdictBelow n (asks deps) = AllBelow n deps
VerdictBelow n _ = Unit {0}

pub verdict-Below :
    (n : ℕ) (s : Status) (t : Task)
    → AllBelow n t.wait_tasks
    → AllBelow n t.halt_tasks
    → VerdictBelow n (verdict s t)
verdict-Below n do_ t w h = w
verdict-Below n undo t w h = h
verdict-Below n default t w h = tt
verdict-Below n _ t w h = tt

abbrev pub Continues : ℕ → ℕ → (Visited → Bool → Answer) → Type 0
Continues n bound rest =
    (v : Visited) (b : Bool) → fresh n v ≤ bound → Answers n (fresh n v) (rest v b)

resume-Answers :
    (n bound : ℕ) (rest : Visited → Bool → Answer) (r : Answer)
    → Continues n bound rest
    → Answers n bound r
    → Answers n bound (resume (λ v. rest v true) r)
resume-Answers n bound rest none k h = h
resume-Answers n bound rest (some (v, true)) k h = Answers-mono n _ _ _ h (k v true h)
resume-Answers n bound rest (some (v, false)) k h = h

pub follow-Answers :
    (n : ℕ) (vd : Verdict) (rest : Visited → Bool → Answer) (ask : List ℕ → Answer) (v : Visited)
    (b : Bool)
    → VerdictBelow n vd
    → Continues n (fresh n v) rest
    → ((deps : List ℕ) → AllBelow n deps → Answers n (fresh n v) (ask deps))
    → Answers n (fresh n v) (follow vd rest ask v b)
follow-Answers n blocks rest ask v b d k h = k v true (omega arith)
follow-Answers n passes rest ask v b d k h = k v b (omega arith)
follow-Answers n stops rest ask v b d k h = omega arith
follow-Answers n (asks deps) rest ask v b d k h =
    resume-Answers n (fresh n v) rest (ask deps) k (h deps d)

pub WaitCompute-cases :
    (c : WaitCompute) → (c ≡ not_computed) ⊎ ((c ≡ computing) ⊎ ((c ≡ waiting) ⊎ (c ≡ not_waiting)))
WaitCompute-cases not_computed = inl refl
WaitCompute-cases computing = inr (inl refl)
WaitCompute-cases waiting = inr (inr (inl refl))
WaitCompute-cases not_waiting = inr (inr (inr refl))

abbrev pub Decides : Option Bool → Type 0
Decides none = ⊥
Decides (some b) = Unit {0}

resume_change-Decides :
    (n bound : ℕ) (rest : Visited → Option Bool) (r : Answer)
    → ((v : Visited) → fresh n v ≤ bound → Decides (rest v))
    → Answers n bound r
    → Decides (resume_change rest r)
resume_change-Decides n bound rest none k h = h
resume_change-Decides n bound rest (some (v, true)) k h = k v h
resume_change-Decides n bound rest (some (v, false)) k h = tt

pub follow_change-Decides :
    (n : ℕ) (vd : Verdict) (rest : Visited → Option Bool) (ask : List ℕ → Answer) (v : Visited)
    → VerdictBelow n vd
    → ((v' : Visited) → fresh n v' ≤ fresh n v → Decides (rest v'))
    → ((deps : List ℕ) → AllBelow n deps → Answers n (fresh n v) (ask deps))
    → Decides (follow_change vd rest ask v)
follow_change-Decides n blocks rest ask v d k h = k v (omega arith)
follow_change-Decides n passes rest ask v d k h = k v (omega arith)
follow_change-Decides n stops rest ask v d k h = tt
follow_change-Decides n (asks deps) rest ask v d k h =
    resume_change-Decides n (fresh n v) rest (ask deps) k (h deps d)

pub is_task_waiting-new :
    (f : ℕ) (tasks : Tasks) (v : Visited) (id : ℕ) (deps : List ℕ)
    → v id ≡ not_computed
    → is_task_waiting (suc f) tasks v id deps
      ≡ conclude id (deps_loop (is_task_waiting f tasks) tasks (mark v id computing) false deps)
unfolding is_task_waiting
is_task_waiting-new f tasks v id deps e = rw (e, is_task_waiting)

pub is_task_waiting-old :
    (f : ℕ) (tasks : Tasks) (v : Visited) (id : ℕ) (deps : List ℕ)
    → (tasks id).change ≢ none
    → (v id ≡ computing) ⊎ ((v id ≡ waiting) ⊎ (v id ≡ not_waiting))
    → (b : Bool) × (is_task_waiting (suc f) tasks v id deps ≡ some (v, b))
unfolding is_task_waiting
is_task_waiting-old f tasks v id deps c (inl e) = elim (Option-cases (tasks id).change) [
  | inl m ↦ absurd (c m)
  | inr (cid, m) ↦ (false, rw (e, m, is_task_waiting))
]
is_task_waiting-old f tasks v id deps c (inr (inl e)) = (true, rw (e, is_task_waiting))
is_task_waiting-old f tasks v id deps c (inr (inr e)) = (false, rw (e, is_task_waiting))
