-- ===== src/Libk/DoublyLinked/Laws.antt =====
-- The list as a sequence of nodes and values.
use java_script_os.Base.{
  ℕ, ◌≡◌, refl, Bool, false, ◌||◌, Option, none, some, List, [], ◌∷◌, ◌==◌, length, arith, subst,
  sym,
}
use java_script_os.Libk.DoublyLinked.{
  Node, DoublyLinkedList, put, set_prev_of, or_else, tail_of, pop_at, push_front, pop_front,
}

abbrev pub has_node : ℕ → List (ℕ × ℕ) → Bool
has_node a [] = false
has_node a ((b, v) ∷ xs) = (a == b) || has_node a xs

-- From `p` on, behind `before`, the nodes hold the pairs of address and value, linked both ways, and
-- the last of them is `last`.
abbrev pub Links : (ℕ → Node) → (before p last : Option ℕ) → List (ℕ × ℕ) → Type 0
Links f before p last [] = (p ≡ none) × (before ≡ last)
Links f before p last ((a, v) ∷ xs) =
    (p ≡ some a)
    × ((f a).prev ≡ before)
    × ((f a).value ≡ v)
    × (has_node a xs ≡ false)
    × Links f (some a) (f a).next last xs

pub record IsList (s : DoublyLinkedList) (xs : List (ℕ × ℕ)) : Type 0 where
  pub links : Links s.node none s.head s.tail xs
  pub counted_size : s.list_size ≡ length xs

Links-put :
    (f : ℕ → Node) (before p last : Option ℕ) (xs : List (ℕ × ℕ)) (b : ℕ) (n : Node)
    → Links f before p last xs
    → has_node b xs ≡ false
    → Links (put f b n) before p last xs
Links-put f before p last [] b n l out = l
Links-put f before p last ((a, v) ∷ xs) b n (e, pr, d, h, l) out = (
  e,
  ground arith,
  ground arith,
  h,
  ground (arith, Links-put f (some a) (f a).next last xs b n l),
)

-- The first node put behind another one.
relinked :
    (f : ℕ → Node) (before before' last : Option ℕ) (a v : ℕ) (xs : List (ℕ × ℕ))
    → Links f before (some a) last ((a, v) ∷ xs)
    → Links (put f a (record (f a) { prev = before' })) before' (some a) last ((a, v) ∷ xs)
relinked f before before' last a v xs (e, pr, d, h, l) = (
  refl,
  ground arith,
  ground arith,
  h,
  ground (arith, Links-put f (some a) (f a).next last xs a (record (f a) { prev = before' }) l h),
)

-- Behind a node, a list has a last node.
or_else-last :
    (f : ℕ → Node) (b : ℕ) (p last : Option ℕ) (q : Option ℕ) (xs : List (ℕ × ℕ))
    → Links f (some b) p last xs
    → or_else last q ≡ last
or_else-last f b p none q [] l = cc
or_else-last f b p (some x) q xs l = refl
or_else-last f b p none q ((a, v) ∷ xs) (e, pr, d, h, l) = or_else-last f a (f a).next none q xs l

push-Links :
    (f : ℕ → Node) (head tail : Option ℕ) (new value : ℕ) (xs : List (ℕ × ℕ))
    → Links f none head tail xs
    → has_node new xs ≡ false
    → Links
        (set_prev_of
          (put f new (record { value = value; prev = none; next = head }))
          head
          (some new))
        none
        (some new)
        (or_else tail (some new))
        ((new, value) ∷ xs)
push-Links f head tail new value [] (e, e') out =
    rw (e, ← e') (refl, ground arith, ground arith, refl, (ground arith, refl))
push-Links f head tail new value ((a, v) ∷ xs) (e, pr, d, h, l) out =
    let n : Node = record { value = value; prev = none; next = some a } in
    let here : Links f none (some a) tail ((a, v) ∷ xs) = (refl, pr, d, h, l) in
    let moved =
      relinked (put f new n) none (some new) tail a v xs
        (Links-put f none (some a) tail ((a, v) ∷ xs) new n here out) in
    let next_lem : (set_prev_of (put f new n) (some a) (some new) new).next ≡ some a =
      ground arith in
    let linked : Links (set_prev_of (put f new n) (some a) (some new)) none (some new) tail
        ((new, value) ∷ (a, v) ∷ xs) =
      (
        refl,
        ground arith,
        ground arith,
        out,
        subst
            (λ p.
              Links (set_prev_of (put f new n) (some a) (some new)) (some new) p tail ((a, v) ∷ xs))
            (sym next_lem) moved,
      ) in
    let last = or_else-last f a (f a).next tail (some new) xs l in
    subst
      (λ h.
        Links
          (set_prev_of (put f new (record { value = value; prev = none; next = h })) h (some new))
          none (some new) (or_else tail (some new)) ((new, value) ∷ (a, v) ∷ xs))
      (sym e)
      (subst
        (λ t.
          Links (set_prev_of (put f new n) (some a) (some new)) none (some new) t
            ((new, value) ∷ (a, v) ∷ xs))
        (sym last) linked)

-- Pushing a value with a node that is not in the list puts it in front: the nodes, linked both ways
-- from head to tail, hold the new value and then the old ones, and the size counts it.
pub push_front-IsList :
    (new_node value : ℕ) (s : DoublyLinkedList) (xs : List (ℕ × ℕ))
    → IsList s xs
    → has_node new_node xs ≡ false
    → IsList (push_front new_node value s) ((new_node, value) ∷ xs)
unfolding push_front
push_front-IsList new_node value s [] i out = record {
  links = push-Links s.node s.head s.tail new_node value [] i.links out;
  counted_size = omega (arith, i.counted_size);
}
push_front-IsList new_node value s ((a, v) ∷ xs) i out = record {
  links = push-Links s.node s.head s.tail new_node value ((a, v) ∷ xs) i.links out;
  counted_size = omega (arith, i.counted_size);
}

pop-Links :
    (f : ℕ → Node) (head tail : Option ℕ) (a v : ℕ) (xs : List (ℕ × ℕ))
    → Links f none head tail ((a, v) ∷ xs)
    → Links (set_prev_of f (f a).next none) none (f a).next (tail_of (f a).next tail) xs
pop-Links f head tail a v [] (e, pr, d, h, l) = rw (l.0) (refl, refl)
pop-Links f head tail a v ((b, w) ∷ ys) (e, pr, d, h, (e', pr', d', h', l)) =
    subst (λ p. Links (set_prev_of f p none) none p (tail_of p tail) ((b, w) ∷ ys)) (sym e')
      (relinked f (some a) none tail b w ys (refl, pr', d', h', l))

-- What `pop_front` must leave, by the contents.
abbrev pub Popped : List (ℕ × ℕ) → DoublyLinkedList → Type 0
Popped [] s = IsList s []
Popped (x ∷ xs) s = IsList s xs

-- Popping takes the first value off; on an empty list it changes nothing.
pub pop_front-Popped :
    (s : DoublyLinkedList) (xs : List (ℕ × ℕ)) → IsList s xs → Popped xs (pop_front s)
unfolding pop_front
pop_front-Popped s [] i = subst (λ h. IsList (pop_at h s) []) (sym i.links.0) i
pop_front-Popped s ((a, v) ∷ xs) i =
    subst (λ h. IsList (pop_at h s) xs) (sym i.links.0)
      (record {
        links = pop-Links s.node s.head s.tail a v xs i.links;
        counted_size = omega (arith, i.counted_size);
      })
