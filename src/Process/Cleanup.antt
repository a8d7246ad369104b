-- ===== src/Process/Cleanup.antt =====
-- `exited_children_cleanup` of kern/proc/proc.c: which processes it destroys.
use toy_os.Common.{
  ℕ, zero, suc, ◌+◌, ◌≤◌, ◌<◌, ◌≡◌, refl, ap, ◌∙◌, inl, inr, true, Option, none, some, done, arith,
  Bool-cases, Option-cases, leb, ◌==◌, if◌then◌else◌, update, ℕ_discrete,
}
use toy_os.Process.{Proc, Procs, is_exited_child, cleanup_loop, exited_children_cleanup}
use toy_os.Process.Table.{IsValid, proc_destroy-IsValid}

-- A slot after the exited children of `pid` are gone.
abbrev pub without_exited : ℕ → Option Proc → Option Proc
without_exited pid none = none
without_exited pid (some p) = if is_exited_child pid p then none else some p

-- What the loop has done that began at slot `i`.
pub record Cleaned (pid i : ℕ) (s t : Procs) : Type 0 where
  pub valid : IsValid t
  pub fewer : t.proc_count ≤ s.proc_count
  pub slots :
      (k : ℕ)
      → t.active_proc_list k
        ≡ (if leb i k then without_exited pid (s.active_proc_list k) else s.active_proc_list k)

-- One slot handled, and the loop over those after it.
Cleaned-suc :
    (pid i : ℕ) (s t u : Procs)
    → ((k : ℕ)
        → t.active_proc_list k
          ≡ (if i == k then without_exited pid (s.active_proc_list k) else s.active_proc_list k))
    → t.proc_count ≤ s.proc_count
    → Cleaned pid (i + 1) t u
    → Cleaned pid i s u
Cleaned-suc pid i s t u one le c = record {
  valid = c.valid;
  fewer = omega (arith, c.fewer);
  slots = λ k. ground (arith, one k, c.slots k);
}

-- Above the largest pid there is nothing to clean.
Cleaned-over : (pid i : ℕ) (s : Procs) → IsValid s → s.current_largest_pid < i → Cleaned pid i s s
Cleaned-over pid i s v over = record {
  valid = v;
  fewer = omega arith;
  slots = λ k. elim (Option-cases (s.active_proc_list k)) [
    | inl empty ↦ ground arith
    | inr (p, used) ↦ ground (arith, v.range k p used)
  ];
}

module _ (pid i : ℕ) (s : Procs) (v : IsValid s) where
  kept_slot :
      without_exited pid (s.active_proc_list i) ≡ s.active_proc_list i
      → (k : ℕ)
      → s.active_proc_list k
        ≡ (if i == k then without_exited pid (s.active_proc_list k) else s.active_proc_list k)
  kept_slot e k = elim (ℕ_discrete i k) [
    | yes same ↦ rw (← same) (ground arith)
    | no other ↦ ground arith
  ]

  emptied_slot :
      (p : Proc)
      → s.active_proc_list i ≡ some p
      → is_exited_child pid p ≡ true
      → (k : ℕ)
      → update s.active_proc_list i none k
        ≡ (if i == k then without_exited pid (s.active_proc_list k) else s.active_proc_list k)
  emptied_slot p e gone k = elim (ℕ_discrete i k) [
    | yes same ↦ rw (← same, e, gone) (ground arith)
    | no other ↦ ground arith
  ]

abbrev Ends : ℕ → ℕ → ℕ → Procs → Type 0
Ends fuel pid i s = (t : Procs) × (cleanup_loop fuel pid i s ≡ done t) × Cleaned pid i s t

cleanup_loop-over :
    (fuel pid i : ℕ) (s : Procs) → IsValid s → s.current_largest_pid < i → Ends fuel pid i s
unfolding cleanup_loop
cleanup_loop-over zero pid i s v over = (s, refl, Cleaned-over pid i s v over)
cleanup_loop-over (suc fuel) pid i s v over = (s, ground arith, Cleaned-over pid i s v over)

-- With fuel for every slot up to the largest pid, the loop ends and has cleaned each slot from `i`.
pub cleanup_loop-Cleaned :
    (fuel pid i : ℕ) (s : Procs) → IsValid s → s.current_largest_pid < i + fuel → Ends fuel pid i s
unfolding cleanup_loop
cleanup_loop-Cleaned zero pid i s v enough = cleanup_loop-over zero pid i s v (omega arith)
cleanup_loop-Cleaned (suc fuel) pid i s v enough = elim (Bool-cases (leb i s.current_largest_pid)) [
  | inr over ↦ cleanup_loop-over (suc fuel) pid i s v (ground arith)
  | inl more ↦ elim (Option-cases (s.active_proc_list i)) [
    | inl empty ↦
        let (u, run, c) = cleanup_loop-Cleaned fuel pid (i + 1) s v (omega arith) in
        (
          u,
          ground arith,
          Cleaned-suc pid i s s u (kept_slot pid i s v (ground arith)) (omega arith) c,
        )
    | inr (p, used) ↦ elim (Bool-cases (is_exited_child pid p)) [
      | inr stays ↦
          let (u, run, c) = cleanup_loop-Cleaned fuel pid (i + 1) s v (omega arith) in
          (
            u,
            ground arith,
            Cleaned-suc pid i s s u (kept_slot pid i s v (ground arith)) (omega arith) c,
          )
      | inl gone ↦
          let own : p.pid ≡ i = v.own_pid i p used in
          let (t, destroyed, list, count, largest, valid) =
            proc_destroy-IsValid p s v (ap s.active_proc_list own ∙ used) in
          let (u, run, c) = cleanup_loop-Cleaned fuel pid (i + 1) t valid (omega arith) in
          (
            u,
            ground arith,
            Cleaned-suc pid i s t u
                (λ k.
                  ap (λ f. f k) list
                  ∙ ap (λ j. update s.active_proc_list j none k) own
                  ∙ emptied_slot pid i s v p used gone k)
                (omega arith) c,
          )
    ]
  ]
]

-- `exited_children_cleanup` comes to its end with no failed KASSERT, empties exactly the slots of
-- the exited children of `pid`, and keeps the table well formed.
pub exited_children_cleanup-slots :
    (pid : ℕ) (s : Procs)
    → IsValid s
    → (t : Procs) × (exited_children_cleanup pid s ≡ done t)
      × ((k : ℕ) → t.active_proc_list k ≡ without_exited pid (s.active_proc_list k))
      × IsValid t
unfolding exited_children_cleanup
exited_children_cleanup-slots pid s v =
    let (t, run, c) = cleanup_loop-Cleaned (s.current_largest_pid + 1) pid 2 s v (omega arith) in
    (t, run, λ k. slot k t c, c.valid)
  where
    slot :
        (k : ℕ) (t : Procs)
        → Cleaned pid 2 s t
        → t.active_proc_list k ≡ without_exited pid (s.active_proc_list k)
    slot k t c = elim (Option-cases (s.active_proc_list k)) [
      | inl empty ↦ ground (arith, c.slots k)
      | inr (p, used) ↦ ground (arith, c.slots k, v.range k p used)
    ]
