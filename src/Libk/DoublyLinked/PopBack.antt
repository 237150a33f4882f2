-- ===== src/Libk/DoublyLinked/PopBack.antt =====
-- Taking the last node off.
use java_script_os.Base.{
  ℕ, ◌≡◌, refl, true, false, Option, none, some, List, [], ◌∷◌, ◌++◌, ◌==◌, length-append, arith,
  subst, sym, ap, ◌∙◌,
}
use java_script_os.Libk.DoublyLinked.{
  Node, DoublyLinkedList, put, set_next_of, tail_of, pop_node_back, pop_back_at, pop_back,
}
use java_script_os.Libk.DoublyLinked.Laws.{has_node, Links, IsList}
use java_script_os.Libk.DoublyLinked.Back.{apart}

-- the node `m` made the last one
abbrev cut : (ℕ → Node) → ℕ → ℕ → Node
cut f m = put f m (record (f m) { next = none })

absent_prefix :
    (a : ℕ) (xs ys : List (ℕ × ℕ)) → has_node a (xs ++ ys) ≡ false → has_node a xs ≡ false
absent_prefix a [] ys h = refl
absent_prefix a ((b, v) ∷ xs) ys h = ground (arith, absent_prefix a xs ys)

-- What stands in front of the last node `k`: a node `m` that it points back to, and a list that
-- ends at `m` once its pointer to the next node is null.
abbrev Front : (ℕ → Node) → (before p last : Option ℕ) → (k : ℕ) → List (ℕ × ℕ) → Type 0
Front f before p last k xs =
    (m : ℕ) × ((f k).prev ≡ some m)
    × (has_node m xs ≡ true)
    × (last ≡ some k)
    × Links (cut f m) before p (some m) xs

cut_self : (f : ℕ → Node) (m : ℕ) → cut f m m ≡ record (f m) { next = none }
cut_self f m = ground arith

cut_other : (f : ℕ → Node) (m a : ℕ) → (a == m) ≡ false → cut f m a ≡ f a
cut_other f m a ne = ground arith

Links-Front :
    (f : ℕ → Node) (before p last : Option ℕ) (k v a w : ℕ) (xs : List (ℕ × ℕ))
    → Links f before p last (((a, w) ∷ xs) ++ ((k, v) ∷ []))
    → Front f before p last k ((a, w) ∷ xs)
Links-Front f before p last k v a w [] (e, pr, d, h, (e', pr', d', h', (n, l))) =
    (a, pr', ground arith, sym l, (e, ground arith, ground arith, refl, (ground arith, refl)))
Links-Front f before p last k v a w ((b, u) ∷ ys) (e, pr, d, h, r) =
    let (m, is_m, member, is_last, l) = Links-Front f (some a) (f a).next last k v b u ys r in
    let out = absent_prefix a ((b, u) ∷ ys) ((k, v) ∷ []) h in
    let same = cut_other f m a (apart a m ((b, u) ∷ ys) out member) in
    (
      m,
      is_m,
      ground (arith, member),
      is_last,
      (
        e,
        ap (λ n. n.prev) same ∙ pr,
        ap (λ n. n.value) same ∙ d,
        out,
        subst (λ (n : Node). Links (cut f m) (some a) n.next (some m) ((b, u) ∷ ys)) (sym same) l,
      ),
    )

pop_back-Links :
    (s : DoublyLinkedList) (k v : ℕ) (xs : List (ℕ × ℕ))
    → Links s.node none s.head s.tail (xs ++ ((k, v) ∷ []))
    → (s.tail ≡ some k)
      × Links (pop_node_back k s).node none (pop_node_back k s).head (pop_node_back k s).tail xs
pop_back-Links s k v [] (e, pr, d, h, (n, l)) = (sym l, rw pr (refl, refl))
pop_back-Links s k v ((a, w) ∷ xs) l =
    let (m, is_m, member, is_last, l') = Links-Front s.node none s.head s.tail k v a w xs l in
    (
      is_last,
      subst (λ t. Links (set_next_of s.node t none) none (tail_of t s.head) t ((a, w) ∷ xs))
          (sym is_m) l',
    )

-- Popping at the back takes the last value off.
pub pop_back-IsList :
    (s : DoublyLinkedList) (k v : ℕ) (xs : List (ℕ × ℕ))
    → IsList s (xs ++ ((k, v) ∷ []))
    → IsList (pop_back s) xs
unfolding pop_back
pop_back-IsList s k v xs i =
    let (is_last, l) = pop_back-Links s k v xs i.links in
    subst (λ t. IsList (pop_back_at t s) xs) (sym is_last)
      (record {
        links = l;
        counted_size = omega (arith, i.counted_size, length-append xs ((k, v) ∷ []));
      })

-- Popping at the back of an empty list changes nothing.
pub pop_back-empty : (s : DoublyLinkedList) → IsList s [] → IsList (pop_back s) []
unfolding pop_back
pop_back-empty s i = subst (λ t. IsList (pop_back_at t s) []) (i.links.1) i
