-- ===== src/ThreadList/Tests.antt =====
-- Runs of the thread list's theorems on a list of the threads 5 and 6, whose nodes are 7 and 8.
use toy_os.Common.{
  ℕ, ◌+◌, ◌≡◌, refl, sym, ap, ◌∙◌, ◌⊎◌, inl, inr, Bool-cases, none, some, List, [], ◌∷◌, ◌++◌, done,
  arith, ◌==◌, if◌then◌else◌, true, elem, erase, distinct_nil, distinct_cons,
}
use toy_os.ThreadList.{
  ThreadList, threadlist_addhead, threadlist_addtail, threadlist_remove, threadlist_remhead,
}
use toy_os.ThreadList.Linked.{linked_one, linked_cons}
use toy_os.ThreadList.Nodes.{IsThreads}
use toy_os.ThreadList.Order.{
  threadlist_addhead-IsThreads, threadlist_remove-IsThreads, threadlist_remhead-IsThreads,
}

abbrev both : List ℕ
both = 5 ∷ 6 ∷ []

-- The node of thread 9 is initialised.
abbrev two : ThreadList
two = record {
  tln_prev = λ k.
      if k == 7 then some 0 else (if k == 8 then some 7 else (if k == 1 then some 8 else none));
  tln_next = λ k.
      if k == 0 then some 7 else (if k == 7 then some 8 else (if k == 8 then some 1 else none));
  tln_self = λ k.
      if k == 7 then some 5 else (if k == 8 then some 6 else (if k == 11 then some 9 else none));
  tl_count = 2;
}

two-selves : (t : ℕ) → elem t (5 ∷ 6 ∷ []) ≡ true → two.tln_self (t + 2) ≡ some t
two-selves t h = elim (Bool-cases (t == 5)) [
  | inl e ↦ (let at : 5 ≡ t = ground arith in ap (λ k. two.tln_self (k + 2)) (sym at) ∙ ap some at)
  | inr e ↦ let at : 6 ≡ t = ground arith in ap (λ k. two.tln_self (k + 2)) (sym at) ∙ ap some at
]

two-IsThreads : IsThreads two (5 ∷ 6 ∷ [])
two-IsThreads = record {
  linked = linked_cons refl refl (linked_cons refl refl (linked_cons refl refl linked_one));
  first = refl;
  last = refl;
  distinct = distinct_cons refl (distinct_cons refl distinct_nil);
  counted = refl;
  small = omega arith;
  selves = two-selves;
}

threadlist_addhead-IsThreads_example :
    ((u : ThreadList) × (threadlist_addhead 9 two ≡ done u) × IsThreads u (9 ∷ 5 ∷ 6 ∷ []))
    × ((u : ThreadList) × (threadlist_addtail 9 two ≡ done u)
        × IsThreads u ((5 ∷ 6 ∷ []) ++ 9 ∷ []))
threadlist_addhead-IsThreads_example =
    threadlist_addhead-IsThreads 9 (5 ∷ 6 ∷ []) two two-IsThreads refl refl (omega arith)

threadlist_remove-IsThreads_example :
    (u : ThreadList) × (threadlist_remove 6 two ≡ done u) × IsThreads u (erase 6 (5 ∷ 6 ∷ []))
threadlist_remove-IsThreads_example =
    threadlist_remove-IsThreads 6 (5 ∷ 6 ∷ []) two two-IsThreads refl

threadlist_remhead-IsThreads_example :
    ((both ≡ []) × (threadlist_remhead two ≡ done (none, two)))
    ⊎ ((t : ℕ) × (rest : List ℕ) × (both ≡ t ∷ rest)
        × ((u : ThreadList) × (threadlist_remhead two ≡ done (some t, u)) × IsThreads u rest))
threadlist_remhead-IsThreads_example = threadlist_remhead-IsThreads both two two-IsThreads
