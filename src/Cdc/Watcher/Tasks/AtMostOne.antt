-- ===== src/Cdc/Watcher/Tasks/AtMostOne.antt =====
-- cdc/watcher.rs: the tasks that run and were not asked to stop are those that have a handle.
use peat_gateway.Cdc.Watcher.Tasks.{
  same_key_sound, same_key_refl, start, step, ends, shuts_down, unwatches, watches, Step, shutdown,
  step, Reach, unwatch, System, abort_all, new, spawn, unwatch_formation, watch_formation, Task,
  remove_key, same_key, FormationKey, Handles, abort, without, handle_of,
}
use peat_gateway.Base.{
  subst, if_cases, ℕ, suc, ◌≤◌, ==_iff, not, none, some, List, [], ◌∷◌, if◌then◌else◌, nat_eq,
  nat_eq_iff, is_some, Result, ok, err, ◌≡◌, refl, ◌∙◌, arith, Bool-cases, Option-cases, inl, inr,
}

-- A task runs under its handle.
unfoldable pub Registered : Handles → List Task → Type 0
Registered hs [] = Unit {0}
Registered hs (t ∷ ts) = (handle_of t.key hs ≡ some t.id) × Registered hs ts

-- How many tasks watch a formation.
unfoldable pub tasks_of : FormationKey → List Task → ℕ
tasks_of k [] = 0
tasks_of k (t ∷ ts) = let rest = tasks_of k ts in if same_key t.key k then suc rest else rest

tasks_of-none :
    (k : FormationKey) (hs : Handles) (ts : List Task)
    → Registered hs ts
    → handle_of k hs ≡ none
    → tasks_of k ts ≡ 0
unfolding Registered tasks_of
tasks_of-none k hs [] reg free = refl
tasks_of-none k hs (t ∷ ts) reg free = elim (Bool-cases (same_key t.key k)) [
  | inl same ↦ absurd (let q : t.key ≡ k = same_key_sound t.key k same in cc)
  | inr other ↦ rw other (tasks_of-none k hs ts reg.1 free)
]

tasks_of-without-le :
    (k : FormationKey) (id : ℕ) (ts : List Task) → tasks_of k (without id ts) ≤ tasks_of k ts
unfolding tasks_of without
tasks_of-without-le k id [] = omega arith
tasks_of-without-le k id (t ∷ ts) = ground (arith, tasks_of-without-le k id ts)

Registered-without :
    (hs : Handles) (id : ℕ) (ts : List Task) → Registered hs ts → Registered hs (without id ts)
unfolding Registered without
Registered-without hs id [] reg = tt
Registered-without hs id (t ∷ ts) reg =
    if_cases (not (nat_eq t.id id)) (Registered hs)
      (λ _. (reg.0, Registered-without hs id ts reg.1)) (λ _. Registered-without hs id ts reg.1)

handle_of-remove_key :
    (k l : FormationKey) (hs : Handles)
    → handle_of l (remove_key k hs) ≡ (if same_key k l then none else handle_of l hs)
unfolding handle_of remove_key
handle_of-remove_key k l [] = ground arith
handle_of-remove_key k l ((m, id) ∷ hs) = ground (
  arith,
  handle_of-remove_key k l hs,
  ==_iff k.0 l.0,
  ==_iff k.1 l.1,
  ==_iff m.0 l.0,
  ==_iff m.1 l.1,
  ==_iff m.0 k.0,
  ==_iff m.1 k.1,
)

-- A new handle for a formation that has none keeps the others.
Registered-fresh :
    (k : FormationKey) (id : ℕ) (hs : Handles) (ts : List Task)
    → handle_of k hs ≡ none
    → Registered hs ts
    → Registered ((k, id) ∷ hs) ts
unfolding Registered handle_of
Registered-fresh k id hs [] free reg = tt
Registered-fresh k id hs (t ∷ ts) free reg = elim (Bool-cases (same_key k t.key)) [
  | inl same ↦ absurd (let q : k ≡ t.key = same_key_sound k t.key same in cc)
  | inr other ↦ rw other (reg.0, Registered-fresh k id hs ts free reg.1)
]

Registered-unwatch :
    (k : FormationKey) (id : ℕ) (hs : Handles) (ts : List Task)
    → handle_of k hs ≡ some id
    → Registered hs ts
    → Registered (remove_key k hs) (without id ts)
unfolding Registered without
Registered-unwatch k id hs [] got reg = tt
Registered-unwatch k id hs (t ∷ ts) got reg =
    let rest = Registered-unwatch k id hs ts got reg.1 in
    if_cases (not (nat_eq t.id id)) (Registered (remove_key k hs))
      (λ keep. (
        elim (Bool-cases (same_key k t.key)) [
          | inl same ↦ absurd (
              let q : k ≡ t.key = same_key_sound k t.key same in
              let i : some t.id ≡ some id = cc in
              let j : t.id ≡ id = cc in ground (arith, nat_eq_iff t.id id))
          | inr other ↦ handle_of-remove_key k t.key hs ∙ rw other reg.0
        ],
        rest,
      ))
      (λ _. rest)

-- Once the task of the first handle is aborted, the others run under the rest of the handles.
Registered-tail :
    (k : FormationKey) (id : ℕ) (hs : Handles) (ts : List Task)
    → Registered ((k, id) ∷ hs) ts
    → Registered hs (without id ts)
unfolding Registered without handle_of
Registered-tail k id hs [] reg = tt
Registered-tail k id hs (t ∷ ts) reg =
    let rest = Registered-tail k id hs ts reg.1 in
    if_cases (not (nat_eq t.id id)) (Registered hs)
      (λ keep. (
        elim (Bool-cases (same_key k t.key)) [
          | inl same ↦ absurd (ground (arith, reg.0, same, keep, nat_eq_iff t.id id))
          | inr other ↦ ground (arith, reg.0, other)
        ],
        rest,
      ))
      (λ _. rest)

unregistered : (ts : List Task) → Registered [] ts → ts ≡ []
unfolding Registered handle_of
unregistered [] reg = refl
unregistered (t ∷ ts) reg = absurd cc

abort_all-Registered :
    (hs : Handles) (s : System) → Registered hs s.running → (abort_all hs s).running ≡ []
unfolding abort_all abort
abort_all-Registered [] s reg = unregistered s.running reg
abort_all-Registered ((k, id) ∷ hs) s reg =
    abort_all-Registered hs (abort id s) (Registered-tail k id hs s.running reg)

abbrev IsSafe : System → Type 0
IsSafe s = Registered s.handles s.running × ((k : FormationKey) → tasks_of k s.running ≤ 1)

spawn-IsSafe :
    (k : FormationKey) (s : System) → handle_of k s.handles ≡ none → IsSafe s → IsSafe (spawn k s)
unfolding spawn Registered tasks_of handle_of
spawn-IsSafe k s free (reg, one) = (
  (rw (same_key_refl k) refl, Registered-fresh k s.next s.handles s.running free reg),
  λ l. elim (Bool-cases (same_key k l)) [
    | inl same ↦
        let q : k ≡ l = same_key_sound k l same in
        rw same (
          omega (
            arith,
            tasks_of-none l s.handles s.running reg
                (subst (λ x. handle_of x s.handles ≡ none) q free),
          ))
    | inr other ↦ rw other (one l)
  ],
)

Step-IsSafe : {s t : System} → Step s t → IsSafe s → IsSafe t
unfolding watch_formation unwatch_formation unwatch abort shutdown Registered tasks_of
Step-IsSafe (watches k (ok u) s) safe = elim (Option-cases (handle_of k s.handles)) [
  | inl free ↦ rw free (spawn-IsSafe k s free safe)
  | inr (id, got) ↦ rw got safe
]
Step-IsSafe (watches k (err e) s) safe =
    if_cases (is_some (handle_of k s.handles)) (λ (x : Result (Unit {0}) × System). IsSafe x.1)
      (λ _. safe) (λ _. safe)
Step-IsSafe (unwatches k s) (reg, one) = elim (Option-cases (handle_of k s.handles)) [
  | inl free ↦ rw free (reg, one)
  | inr (id, got) ↦ rw got (
    Registered-unwatch k id s.handles s.running got reg,
    λ l. omega (arith, one l, tasks_of-without-le l id s.running),
  )
]
Step-IsSafe (shuts_down s) (reg, one) =
    let none_left = abort_all-Registered s.handles (record s { handles = [] }) reg in
    rw none_left (tt, λ l. omega arith)
Step-IsSafe (ends id s) (reg, one) = (
  Registered-without s.handles id s.running reg,
  λ l. omega (arith, one l, tasks_of-without-le l id s.running),
)

Reach-IsSafe : {s : System} → Reach s → IsSafe s
unfolding new Registered tasks_of
Reach-IsSafe start = (tt, λ k. omega arith)
Reach-IsSafe (step r st) = Step-IsSafe st (Reach-IsSafe r)

-- Whatever calls of watch_formation, unwatch_formation and shutdown are made, and whichever
-- streams end or cannot be observed in between, no formation is ever watched by more than one
-- task that has not been asked to stop.
pub Reach-tasks_of-le : {s : System} → Reach s → (k : FormationKey) → tasks_of k s.running ≤ 1
Reach-tasks_of-le r k = (Reach-IsSafe r).1 k

-- In every system that can be reached, unwatch_formation leaves no task that watches the
-- formation without having been asked to stop, and shutdown leaves no such task at all.
pub Reach-stopped :
    {s : System}
    → Reach s
    → (k : FormationKey)
    → (tasks_of k (unwatch_formation k s).running ≡ 0) × ((shutdown s).running ≡ [])
unfolding unwatch_formation unwatch abort shutdown
Reach-stopped {s} r k =
    let (reg, one) = Reach-IsSafe r in
    (
      elim (Option-cases (handle_of k s.handles)) [
        | inl free ↦ rw free (tasks_of-none k s.handles s.running reg free)
        | inr (id, got) ↦ rw got (
            tasks_of-none k (remove_key k s.handles) (without id s.running)
              (Registered-unwatch k id s.handles s.running got reg)
              (handle_of-remove_key k k s.handles ∙ rw (same_key_refl k) refl))
      ],
      abort_all-Registered s.handles (record s { handles = [] }) reg,
    )
