-- ===== src/ThreadList/Linked.antt =====
-- Doubly linked nodes of kern/thread/threadlist.c, and one node more or less.
use toy_os.Common.{
  ℕ, ◌≡◌, ◌≢◌, sym, ◌∙◌, true, false, Option, some, List, [], ◌∷◌, elem, elem-cons, elem-cons_false,
  Distinct, Distinct-head, Distinct-tail, ==_self,
}

-- Each node of the list is linked to the one behind it, both ways.
pub data Linked (next prev : ℕ → Option ℕ) : List ℕ → Type 0 where
  linked_one : {a : ℕ} → Linked next prev (a ∷ [])
  linked_cons :
      {a b : ℕ} {l : List ℕ}
      → next a ≡ some b
      → prev b ≡ some a
      → Linked next prev (b ∷ l)
      → Linked next prev (a ∷ b ∷ l)

-- The second list is the first with `x` between its neighbours `a` and `b`.
pub data Between (a x b : ℕ) : List ℕ → List ℕ → Type 0 where
  here : {l : List ℕ} → Between a x b (a ∷ b ∷ l) (a ∷ x ∷ b ∷ l)
  there : {c : ℕ} {l l' : List ℕ} → Between a x b l l' → Between a x b (c ∷ l) (c ∷ l')

pub elem_first : (x : ℕ) (l : List ℕ) → elem x (x ∷ l) ≡ true
elem_first x l = rw (==_self x)

-- A member of a list without `x` is not `x`.
pub elem_apart : {x k : ℕ} (l : List ℕ) → elem x l ≡ false → elem k l ≡ true → k ≢ x
elem_apart l out in_list e = cc

pub Between-elem : {a x b : ℕ} {l l' : List ℕ} → Between a x b l l' → elem a l ≡ true
Between-elem {a} (here {l}) = elem_first a (_ ∷ l)
Between-elem {a} (there {c} {l} p) = elem-cons a c l (Between-elem p)

pub Between-elem_right : {a x b : ℕ} {l l' : List ℕ} → Between a x b l l' → elem b l ≡ true
Between-elem_right {a} {x} {b} (here {l}) = elem-cons b a (b ∷ l) (elem_first b l)
Between-elem_right {b = b} (there {c} {l} p) = elem-cons b c l (Between-elem_right p)

right_behind : {a x b k : ℕ} {l l' : List ℕ} → Between a x b (k ∷ l) l' → elem b l ≡ true
right_behind {b = b} (here {l}) = elem_first b l
right_behind (there q) = Between-elem_right q

Linked-frame :
    {n p n' p' : ℕ → Option ℕ} (c : ℕ) (l : List ℕ)
    → ((k : ℕ) → elem k (c ∷ l) ≡ true → n' k ≡ n k)
    → ((k : ℕ) → elem k l ≡ true → p' k ≡ p k)
    → Linked n p (c ∷ l)
    → Linked n' p' (c ∷ l)
Linked-frame c [] same_n same_p linked_one = linked_one
Linked-frame c (d ∷ l) same_n same_p (linked_cons f g rest) =
    linked_cons (same_n c (elem_first c (d ∷ l)) ∙ f) (same_p d (elem_first d l) ∙ g) (
      Linked-frame d l (λ k h. same_n k (elem-cons k c (d ∷ l) h))
        (λ k h. same_p k (elem-cons k d l h)) rest)

-- Nothing but the nodes around `x` has changed.
pub record Frames (n p n' p' : ℕ → Option ℕ) (a x b : ℕ) : Type 0 where
  pub nexts : (k : ℕ) → k ≢ a → k ≢ x → n' k ≡ n k
  pub prevs : (k : ℕ) → k ≢ b → k ≢ x → p' k ≡ p k

module _ {n p n' p' : ℕ → Option ℕ} {a x b : ℕ} (f : Frames n p n' p' a x b) where
  tail_kept :
      (l : List ℕ)
      → Distinct (a ∷ b ∷ l)
      → elem x (a ∷ b ∷ l) ≡ false
      → Linked n p (b ∷ l)
      → Linked n' p' (b ∷ l)
  tail_kept l d out k =
      let not_a = Distinct-head d in
      let not_b = Distinct-head (Distinct-tail d) in
      Linked-frame b l
        (λ c h.
          f.nexts c (elem_apart (b ∷ l) not_a h)
            (elem_apart (a ∷ b ∷ l) out (elem-cons c a (b ∷ l) h)))
        (λ c h.
          f.prevs c (elem_apart l not_b h)
            (elem_apart (a ∷ b ∷ l) out (elem-cons c a (b ∷ l) (elem-cons c b l h))))
        k

  -- The link in front of the place of `x`.
  link_before :
      (c k : ℕ) {l l' : List ℕ}
      → Between a x b (k ∷ l) l'
      → Distinct (c ∷ k ∷ l)
      → elem x (c ∷ k ∷ l) ≡ false
      → n c ≡ some k
      → p k ≡ some c
      → (n' c ≡ some k) × (p' k ≡ some c)
  link_before c k {l} q d out g h = (
    f.nexts c (λ z. elem_apart (k ∷ l) (Distinct-head d) (Between-elem q) (sym z))
          (elem_apart (c ∷ k ∷ l) out (elem_first c (k ∷ l)))
        ∙ g,
    f.prevs k (λ z. elem_apart l (Distinct-head (Distinct-tail d)) (right_behind q) (sym z))
          (elem_apart (c ∷ k ∷ l) out (elem-cons k c (k ∷ l) (elem_first k l)))
        ∙ h,
  )

  -- `x` linked between its neighbours.
  pub Linked-Between :
      {l l' : List ℕ}
      → n' a ≡ some x
      → p' x ≡ some a
      → n' x ≡ some b
      → p' b ≡ some x
      → Distinct l
      → elem x l ≡ false
      → Between a x b l l'
      → Linked n p l
      → Linked n' p' l'
  Linked-Between e1 e2 e3 e4 d out (here {l}) (linked_cons g h rest) =
      linked_cons e1 e2 (linked_cons e3 e4 (tail_kept l d out rest))
  Linked-Between e1 e2 e3 e4 d out (there {c} (here {l})) (linked_cons g h rest) =
      let (g', h') = link_before c a here d out g h in
      linked_cons g' h' (
        Linked-Between e1 e2 e3 e4 (Distinct-tail d) (elem-cons_false x c (a ∷ b ∷ l) out) here
          rest)
  Linked-Between e1 e2 e3 e4 d out (there {c} (there {c = k} {l = l} q)) (linked_cons g h rest) =
      let (g', h') = link_before c k (there q) d out g h in
      linked_cons g' h' (
        Linked-Between e1 e2 e3 e4 (Distinct-tail d) (elem-cons_false x c (k ∷ l) out) (there q)
          rest)

  -- `x` taken from between its neighbours.
  pub Linked-unlinked :
      {l l' : List ℕ}
      → n' a ≡ some b
      → p' b ≡ some a
      → Distinct l
      → elem x l ≡ false
      → Between a x b l l'
      → Linked n p l'
      → Linked n' p' l
  Linked-unlinked e1 e2 d out (here {l}) (linked_cons g1 h1 (linked_cons g2 h2 rest)) =
      linked_cons e1 e2 (tail_kept l d out rest)
  Linked-unlinked e1 e2 d out (there {c} (here {l})) (linked_cons g h rest) =
      let (g', h') = link_before c a here d out g h in
      linked_cons g' h'
        (Linked-unlinked e1 e2 (Distinct-tail d) (elem-cons_false x c (a ∷ b ∷ l) out) here rest)
  Linked-unlinked e1 e2 d out (there {c} (there {c = k} {l = l} q)) (linked_cons g h rest) =
      let (g', h') = link_before c k (there q) d out g h in
      linked_cons g' h'
        (Linked-unlinked e1 e2 (Distinct-tail d) (elem-cons_false x c (k ∷ l) out) (there q) rest)

-- The links of a list around two neighbours, and around a node between two.
pub Linked-pair :
    {n p : ℕ → Option ℕ} {a x b : ℕ} {l l' : List ℕ}
    → Between a x b l l'
    → Linked n p l
    → (n a ≡ some b) × (p b ≡ some a)
Linked-pair here (linked_cons g h rest) = (g, h)
Linked-pair (there q) linked_one = elim q [ ]
Linked-pair (there q) (linked_cons g h rest) = Linked-pair q rest

pub Linked-triple :
    {n p : ℕ → Option ℕ} {a x b : ℕ} {l l' : List ℕ}
    → Between a x b l l'
    → Linked n p l'
    → (n a ≡ some x) × (p x ≡ some a) × (n x ≡ some b) × (p b ≡ some x)
Linked-triple here (linked_cons g h (linked_cons g2 h2 rest)) = (g, h, g2, h2)
Linked-triple (there q) linked_one = elim q [ ]
Linked-triple (there q) (linked_cons g h rest) = Linked-triple q rest
