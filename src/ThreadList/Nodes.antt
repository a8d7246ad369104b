-- ===== src/ThreadList/Nodes.antt =====
-- The nodes of a thread list of kern/thread/threadlist.c, and a node put in or taken out.
use toy_os.Common.{
  ℕ, suc, ◌+◌, ◌^◌, ◌<◌, ◌≡◌, ◌≢◌, refl, sym, ap, ◌∙◌, ◌⊎◌, inl, inr, true, false, none, some, List,
  [], ◌∷◌, done, arith, Bool-cases, ◌==◌, length, elem, Distinct, distinct_nil, distinct_cons,
  Distinct-head, Distinct-tail, ==_self, ==_ne, update, update_self, update_ne,
}
use toy_os.ThreadList.{
  ThreadList, set_next, set_prev, link_node, threadlist_insertafternode,
  threadlist_insertbeforenode, threadlist_removenode, count_up, count_down,
}
use toy_os.ThreadList.Linked.{
  Linked, Between, elem_apart, Between-elem, Between-elem_right, Frames, Linked-Between,
  Linked-unlinked, Linked-pair, Linked-triple,
}

-- The nodes of a list of threads, from the first thread to the node at the end, and all of them.
abbrev pub nodes : List ℕ → List ℕ
nodes [] = 1 ∷ []
nodes (t ∷ ts) = (t + 2) ∷ nodes ts

abbrev pub ring : List ℕ → List ℕ
ring ts = 0 ∷ nodes ts

-- The list holds these threads, in this order.
pub record IsThreads (tl : ThreadList) (ts : List ℕ) : Type 0 where
  pub linked : Linked tl.tln_next tl.tln_prev (ring ts)
  pub first : tl.tln_prev 0 ≡ none
  pub last : tl.tln_next 1 ≡ none
  pub distinct : Distinct ts
  pub counted : tl.tl_count ≡ length ts
  pub small : length ts < 2 ^ 32
  pub selves : (t : ℕ) → elem t ts ≡ true → tl.tln_self (t + 2) ≡ some t

elem-nodes : (t : ℕ) (ts : List ℕ) → elem (t + 2) (nodes ts) ≡ elem t ts
elem-nodes t [] = ground arith
elem-nodes t (u ∷ ts) =
    let ih = elem-nodes t ts in
    elim (Bool-cases (t == u)) [
      | inl e ↦ let same : (t + 2 == u + 2) ≡ true = ground arith in rw (e, same)
      | inr e ↦ let other : (t + 2 == u + 2) ≡ false = ground arith in rw (e, other) ih
    ]

elem-nodes_head : (ts : List ℕ) → elem 0 (nodes ts) ≡ false
elem-nodes_head [] = ground arith
elem-nodes_head (t ∷ ts) =
    let other : (0 == t + 2) ≡ false = ground arith in rw other (elem-nodes_head ts)

pub elem-ring : (t : ℕ) (ts : List ℕ) → elem (t + 2) (ring ts) ≡ elem t ts
elem-ring t ts = let other : (t + 2 == 0) ≡ false = ground arith in rw other (elem-nodes t ts)

nodes-Distinct : (ts : List ℕ) → Distinct ts → Distinct (nodes ts)
nodes-Distinct [] d = distinct_cons refl distinct_nil
nodes-Distinct (t ∷ ts) d =
    distinct_cons (elem-nodes t ts ∙ Distinct-head d) (nodes-Distinct ts (Distinct-tail d))

pub ring-Distinct : (ts : List ℕ) → Distinct ts → Distinct (ring ts)
ring-Distinct ts d = distinct_cons (elem-nodes_head ts) (nodes-Distinct ts d)

-- The state with a node put in, or taken out.
abbrev pub inserted : ThreadList → ℕ → ℕ → ℕ → ThreadList
inserted tl a x b = record tl {
  tln_prev = update (update tl.tln_prev x (some a)) b (some x);
  tln_next = update (update tl.tln_next x (some b)) a (some x);
}

abbrev pub removed : ThreadList → ℕ → ℕ → ℕ → ThreadList
removed tl a x b = record tl {
  tln_prev = update (update tl.tln_prev b (some a)) x none;
  tln_next = update (update tl.tln_next a (some b)) x none;
}

pub threadlist_insertafternode_lem :
    (a b t : ℕ) (tl : ThreadList)
    → tl.tln_next a ≡ some b
    → a ≢ t + 2
    → threadlist_insertafternode a t tl ≡ done (inserted tl a (t + 2) b)
unfolding threadlist_insertafternode link_node set_next set_prev
threadlist_insertafternode_lem a b t tl e other =
    let off : (a == t + 2) ≡ false = ==_ne a (t + 2) other in
    rw (e, ==_self (t + 2), off, ==_self (t + 2))

pub threadlist_insertbeforenode_lem :
    (a b t : ℕ) (tl : ThreadList)
    → tl.tln_prev b ≡ some a
    → a ≢ t + 2
    → threadlist_insertbeforenode t b tl ≡ done (inserted tl a (t + 2) b)
unfolding threadlist_insertbeforenode link_node set_next set_prev
threadlist_insertbeforenode_lem a b t tl e other =
    let off : (a == t + 2) ≡ false = ==_ne a (t + 2) other in
    rw (e, ==_self (t + 2), off, ==_self (t + 2))

pub threadlist_removenode_lem :
    (a x b : ℕ) (tl : ThreadList)
    → tl.tln_prev x ≡ some a
    → tl.tln_next x ≡ some b
    → a ≢ x
    → threadlist_removenode x tl ≡ done (removed tl a x b)
unfolding threadlist_removenode set_next set_prev
threadlist_removenode_lem a x b tl e f other =
    let off : (a == x) ≡ false = ==_ne a x other in rw (e, f, off, e)

-- A node put in.
module _ (a t b : ℕ) (ts ts' : List ℕ) (tl : ThreadList) (i : IsThreads tl ts)
    (q : Between a (t + 2) b (ring ts) (ring ts')) (new : elem t ts ≡ false) where
  inserted-Frames :
      let u = inserted tl a (t + 2) b in
      Frames tl.tln_next tl.tln_prev u.tln_next u.tln_prev a (t + 2) b
  inserted-Frames = record {
    nexts = λ k h z.
        update_ne (update tl.tln_next (t + 2) (some b)) a k (some (t + 2)) (λ e. h (sym e))
        ∙ update_ne tl.tln_next (t + 2) k (some b) (λ e. z (sym e));
    prevs = λ k h z.
        update_ne (update tl.tln_prev (t + 2) (some a)) b k (some (t + 2)) (λ e. h (sym e))
        ∙ update_ne tl.tln_prev (t + 2) k (some a) (λ e. z (sym e));
  }

  out_of_ring : elem (t + 2) (ring ts) ≡ false
  out_of_ring = elem-ring t ts ∙ new

  pub left_apart : a ≢ t + 2
  left_apart = elem_apart (ring ts) out_of_ring (Between-elem q)

  right_apart : b ≢ t + 2
  right_apart = elem_apart (ring ts) out_of_ring (Between-elem_right q)

  pub inserted-IsThreads :
      tl.tln_self (t + 2) ≡ some t
      → Distinct ts'
      → length ts' ≡ suc (length ts)
      → length ts' < 2 ^ 32
      → ((k : ℕ) → elem k ts' ≡ true → (k ≡ t) ⊎ (elem k ts ≡ true))
      → IsThreads (count_up (inserted tl a (t + 2) b)) ts'
  unfolding count_up
  inserted-IsThreads self d more small members =
      let (forth, back) = Linked-pair q i.linked in
      let f = inserted-Frames in
      record {
        linked =
            Linked-Between f (update_self (update tl.tln_next (t + 2) (some b)) a (some (t + 2)))
              (update_ne (update tl.tln_prev (t + 2) (some a)) b (t + 2) (some (t + 2)) right_apart
                ∙ update_self tl.tln_prev (t + 2) (some a))
              (update_ne (update tl.tln_next (t + 2) (some b)) a (t + 2) (some (t + 2)) left_apart
                ∙ update_self tl.tln_next (t + 2) (some b))
              (update_self (update tl.tln_prev (t + 2) (some a)) b (some (t + 2)))
              (ring-Distinct ts i.distinct) out_of_ring q i.linked;
        first = f.prevs 0 (λ e. (let at = ap tl.tln_prev e in cc)) (λ e. ground arith) ∙ i.first;
        last = f.nexts 1 (λ e. (let at = ap tl.tln_next e in cc)) (λ e. ground arith) ∙ i.last;
        distinct = d;
        counted = (let same = i.counted in omega arith);
        small = small;
        selves = λ k h. elim (members k h) [
          | inl e ↦ ap (λ z. tl.tln_self (z + 2)) e ∙ (self ∙ ap some (sym e))
          | inr old ↦ i.selves k old
        ];
      }

-- A node taken out.
module _ (a t b : ℕ) (ts ts' : List ℕ) (tl : ThreadList) (i : IsThreads tl ts')
    (q : Between a (t + 2) b (ring ts) (ring ts')) (gone : elem t ts ≡ false) where
  removed-Frames :
      let u = removed tl a (t + 2) b in
      Frames tl.tln_next tl.tln_prev u.tln_next u.tln_prev a (t + 2) b
  removed-Frames = record {
    nexts = λ k h z.
        update_ne (update tl.tln_next a (some b)) (t + 2) k none (λ e. z (sym e))
        ∙ update_ne tl.tln_next a k (some b) (λ e. h (sym e));
    prevs = λ k h z.
        update_ne (update tl.tln_prev b (some a)) (t + 2) k none (λ e. z (sym e))
        ∙ update_ne tl.tln_prev b k (some a) (λ e. h (sym e));
  }

  off_ring : elem (t + 2) (ring ts) ≡ false
  off_ring = elem-ring t ts ∙ gone

  pub neighbour_apart : a ≢ t + 2
  neighbour_apart = elem_apart (ring ts) off_ring (Between-elem q)

  pub removed-IsThreads :
      Distinct ts
      → length ts' ≡ suc (length ts)
      → ((k : ℕ) → elem k ts ≡ true → elem k ts' ≡ true)
      → IsThreads (count_down (removed tl a (t + 2) b)) ts
  unfolding count_down
  removed-IsThreads d less members =
      let (g1, h1, g2, h2) = Linked-triple q i.linked in
      let f = removed-Frames in
      let other = elem_apart (ring ts) off_ring (Between-elem_right q) in
      record {
        linked =
            Linked-unlinked f
              (update_ne (update tl.tln_next a (some b)) (t + 2) a none
                  (λ e. neighbour_apart (sym e))
                ∙ update_self tl.tln_next a (some b))
              (update_ne (update tl.tln_prev b (some a)) (t + 2) b none (λ e. other (sym e))
                ∙ update_self tl.tln_prev b (some a))
              (ring-Distinct ts d) off_ring q i.linked;
        first = f.prevs 0 (λ e. (let at = ap tl.tln_prev e in cc)) (λ e. ground arith) ∙ i.first;
        last = f.nexts 1 (λ e. (let at = ap tl.tln_next e in cc)) (λ e. ground arith) ∙ i.last;
        distinct = d;
        counted = (let same = i.counted in let few = i.small in omega arith);
        small = (let few = i.small in omega arith);
        selves = λ k h. i.selves k (members k h);
      }
