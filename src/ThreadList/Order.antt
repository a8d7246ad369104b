-- ===== src/ThreadList/Order.antt =====
-- kern/thread/threadlist.c as operations on the list of threads.
use toy_os.Common.{
  ℕ, suc, ◌+◌, ◌^◌, ◌<◌, ◌≡◌, refl, sym, subst, ap, ◌∙◌, ◌⊎◌, inl, inr, true, false, not, ◌&&◌,
  ◌||◌, none, some, List, [], ◌∷◌, ◌++◌, done, arith, Bool-cases, ◌==◌, length, length-snoc, elem,
  elem-cons, erase, elem-erase, erase-Distinct, Distinct, distinct_nil, distinct_cons,
  Distinct-head, Distinct-tail, ==_self, ==_ne,
}
use toy_os.ThreadList.{
  ThreadList, threadlist_init, count_up, count_down, threadlist_addhead, threadlist_addtail,
  threadlist_remove, remove_end, remhead_node, threadlist_remhead,
}
use toy_os.ThreadList.Linked.{
  linked_one, linked_cons, Between, here, there, Linked-pair, Linked-triple, elem_first,
}
use toy_os.ThreadList.Nodes.{
  nodes, ring, IsThreads, inserted, removed, threadlist_insertafternode_lem,
  threadlist_insertbeforenode_lem, threadlist_removenode_lem, left_apart, inserted-IsThreads,
  neighbour_apart, removed-IsThreads,
}

-- The place of the first thread, of the last, and of any.
Between-first : (t : ℕ) (ts : List ℕ) → (b : ℕ) × Between 0 (t + 2) b (ring ts) (ring (t ∷ ts))
Between-first t [] = (1, here)
Between-first t (u ∷ ts) = (u + 2, here)

Between-last :
    (c t : ℕ) (ts : List ℕ)
    → (a : ℕ) × Between a (t + 2) 1 (c ∷ nodes ts) (c ∷ nodes (ts ++ t ∷ []))
Between-last c t [] = (c, here)
Between-last c t (u ∷ ts) = let (a, q) = Between-last (u + 2) t ts in (a, there q)

Between-erase :
    (c t : ℕ) (ts : List ℕ)
    → elem t ts ≡ true
    → (a : ℕ) × (b : ℕ) × Between a (t + 2) b (c ∷ nodes (erase t ts)) (c ∷ nodes ts)
unfolding erase
Between-erase c t [] h = cc
Between-erase c t (u ∷ ts) h = elim (Bool-cases (t == u)) [
  | inl e ↦
      let same : t ≡ u = ground arith in
      let (b, q) = first_of c t ts in
      (c, b, rw e (subst (λ k. Between c (t + 2) b (c ∷ nodes ts) (c ∷ (k + 2) ∷ nodes ts)) same q))
  | inr e ↦ let (a, b, q) = Between-erase (u + 2) t ts (rw e at h) in (a, b, rw e (there q))
]
  where
    first_of :
        (c t : ℕ) (ts : List ℕ)
        → (b : ℕ) × Between c (t + 2) b (c ∷ nodes ts) (c ∷ (t + 2) ∷ nodes ts)
    first_of c t [] = (1, here)
    first_of c t (u ∷ ts) = (u + 2, here)

elem-snoc : (k t : ℕ) (ts : List ℕ) → elem k (ts ++ t ∷ []) ≡ (k == t || elem k ts)
elem-snoc k t [] = refl
elem-snoc k t (u ∷ ts) =
    let ih = elem-snoc k t ts in
    elim (Bool-cases (k == u)) [
      | inl e ↦ rw e (elim (Bool-cases (k == t)) [ inl f ↦ rw f | inr f ↦ rw f ])
      | inr e ↦ rw e ih
    ]

snoc-Distinct : (t : ℕ) (ts : List ℕ) → elem t ts ≡ false → Distinct ts → Distinct (ts ++ t ∷ [])
snoc-Distinct t [] new d = distinct_cons refl distinct_nil
snoc-Distinct t (u ∷ ts) new d =
    let other : (u == t) ≡ false =
      ==_ne u t (λ e. cc (elem_first u ts, ap (λ k. elem k (u ∷ ts)) e, new)) in
    distinct_cons (elem-snoc u t ts ∙ (rw (other, Distinct-head d)))
      (snoc-Distinct t ts (elem-rest t u ts new) (Distinct-tail d))
  where
    elem-rest : (t u : ℕ) (ts : List ℕ) → elem t (u ∷ ts) ≡ false → elem t ts ≡ false
    elem-rest t u ts h = elim (Bool-cases (t == u)) [ inl e ↦ cc (rw e at h) | inr e ↦ rw e at h ]

length-erase : (t : ℕ) (ts : List ℕ) → elem t ts ≡ true → length ts ≡ suc (length (erase t ts))
unfolding erase
length-erase t [] h = cc
length-erase t (u ∷ ts) h = elim (Bool-cases (t == u)) [
  | inl e ↦ rw e
  | inr e ↦ rw e (ap suc (length-erase t ts (rw e at h)))
]

member : (k t : ℕ) (ts : List ℕ) → (k == t || elem k ts) ≡ true → (k ≡ t) ⊎ (elem k ts ≡ true)
member k t ts h = elim (Bool-cases (k == t)) [
  | inl e ↦ inl (ground arith)
  | inr e ↦ inr (rw e at h)
]

-- `threadlist_init` makes the empty list.
pub threadlist_init-IsThreads : (tl : ThreadList) → IsThreads (threadlist_init tl) []
unfolding threadlist_init
threadlist_init-IsThreads tl = record {
  linked = linked_cons refl refl linked_one;
  first = refl;
  last = refl;
  distinct = distinct_nil;
  counted = refl;
  small = omega arith;
  selves = λ t h. cc;
}

-- A thread that is not on the list and whose node is initialised goes to the front by
-- `threadlist_addhead` and to the end by `threadlist_addtail`.
pub threadlist_addhead-IsThreads :
    (t : ℕ) (ts : List ℕ) (tl : ThreadList)
    → IsThreads tl ts
    → elem t ts ≡ false
    → tl.tln_self (t + 2) ≡ some t
    → suc (length ts) < 2 ^ 32
    → ((u : ThreadList) × (threadlist_addhead t tl ≡ done u) × IsThreads u (t ∷ ts))
      × ((u : ThreadList) × (threadlist_addtail t tl ≡ done u) × IsThreads u (ts ++ t ∷ []))
unfolding threadlist_addhead threadlist_addtail
threadlist_addhead-IsThreads t ts tl i new self small =
    let (b, q) = Between-first t ts in
    let (forth, back) = Linked-pair q i.linked in
    let (a, r) = Between-last 0 t ts in
    let (forth2, back2) = Linked-pair r i.linked in
    (
      (
        count_up (inserted tl 0 (t + 2) b),
        rw (
            threadlist_insertafternode_lem 0 b t tl forth
              (left_apart 0 t b ts (t ∷ ts) tl i q new)),
        inserted-IsThreads 0 t b ts (t ∷ ts) tl i q new self (distinct_cons new i.distinct) refl
            small (λ k h. member k t ts h),
      ),
      (
        count_up (inserted tl a (t + 2) 1),
        rw (
            threadlist_insertbeforenode_lem a 1 t tl back2
              (left_apart a t 1 ts (ts ++ t ∷ []) tl i r new)),
        inserted-IsThreads a t 1 ts (ts ++ t ∷ []) tl i r new self
            (snoc-Distinct t ts new i.distinct) (length-snoc ts t)
            (subst (λ k. k < 2 ^ 32) (sym (length-snoc ts t)) small)
            (λ k h. member k t ts (sym (elem-snoc k t ts) ∙ h)),
      ),
    )

-- `threadlist_remove` of a thread on the list takes it out and keeps the others in their order.
pub threadlist_remove-IsThreads :
    (t : ℕ) (ts : List ℕ) (tl : ThreadList)
    → IsThreads tl ts
    → elem t ts ≡ true
    → (u : ThreadList) × (threadlist_remove t tl ≡ done u) × IsThreads u (erase t ts)
unfolding threadlist_remove
threadlist_remove-IsThreads t ts tl i listed =
    let (a, b, q) = Between-erase 0 t ts listed in
    let (g1, h1, g2, h2) = Linked-triple q i.linked in
    let gone : elem t (erase t ts) ≡ false =
      elem-erase t t ts i.distinct ∙ (rw (listed, ==_self t)) in
    (
      count_down (removed tl a (t + 2) b),
      rw (
          threadlist_removenode_lem a (t + 2) b tl h1 g2
            (neighbour_apart a t b (erase t ts) ts tl i q gone)),
      removed-IsThreads a t b (erase t ts) ts tl i q gone (erase-Distinct t ts i.distinct)
          (length-erase t ts listed) (λ k h. left_member k t ts i.distinct h),
    )
  where
    left_member :
        (k t : ℕ) (ts : List ℕ) → Distinct ts → elem k (erase t ts) ≡ true → elem k ts ≡ true
    left_member k t ts d h =
        let both : (elem k ts && not (k == t)) ≡ true = sym (elem-erase t k ts d) ∙ h in
        ground arith

-- `threadlist_remhead` gives the first thread and leaves the others, or NULL of an empty list, which
-- stays as it is.
pub threadlist_remhead-IsThreads :
    (ts : List ℕ) (tl : ThreadList)
    → IsThreads tl ts
    → ((ts ≡ []) × (threadlist_remhead tl ≡ done (none, tl)))
      ⊎ ((t : ℕ) × (rest : List ℕ) × (ts ≡ t ∷ rest)
          × ((u : ThreadList) × (threadlist_remhead tl ≡ done (some t, u)) × IsThreads u rest))
unfolding threadlist_remhead remhead_node remove_end count_down
threadlist_remhead-IsThreads [] tl i =
    let (forth, back) = Linked-pair {x = 2} here i.linked in inl (refl, (rw (forth, i.last)))
threadlist_remhead-IsThreads (t ∷ ts) tl i =
    let (b, q) = Between-first t ts in
    let (g1, h1, g2, h2) = Linked-triple q i.linked in
    let gone = Distinct-head i.distinct in
    inr (
      t,
      ts,
      refl,
      (
        count_down (removed tl 0 (t + 2) b),
        (rw (
          g1,
          g2,
          threadlist_removenode_lem 0 (t + 2) b tl h1 g2
              (neighbour_apart 0 t b ts (t ∷ ts) tl i q gone),
          i.selves t (elem_first t ts),
        )),
        removed-IsThreads 0 t b ts (t ∷ ts) tl i q gone (Distinct-tail i.distinct) refl
            (λ k h. (elem-cons k t ts h)),
      ),
    )
