-- ===== src/Libk/DoublyLinked/Back.antt =====
-- The operations at the back of the list.
use java_script_os.Base.{
  ℕ, ◌≡◌, ◌≢◌, refl, true, false, Option, none, some, List, [], ◌∷◌, ◌++◌, ◌==◌, length-append,
  arith, subst, sym, ap, Bool-cases, inl, inr, ==_iff, ◌∙◌,
}
use java_script_os.Libk.DoublyLinked.{Node, DoublyLinkedList, put, set_next_of, or_else, push_back}
use java_script_os.Libk.DoublyLinked.Laws.{has_node, Links, IsList}

-- The last node of a list that has one is in the list.
last_in :
    (f : ℕ → Node) (before p last : Option ℕ) (b u : ℕ) (ys : List (ℕ × ℕ))
    → Links f before p last ((b, u) ∷ ys)
    → (l : ℕ) × (last ≡ some l) × (has_node l ((b, u) ∷ ys) ≡ true)
last_in f before p last b u [] (e, pr, d, h, (n, e')) = (b, sym e', ground arith)
last_in f before p last b u ((c, w) ∷ ys) (e, pr, d, h, l) =
    let (k, e', m) = last_in f (some b) (f b).next last c w ys l in (k, e', ground (arith, m))

pub apart :
    (a k : ℕ) (xs : List (ℕ × ℕ)) → has_node a xs ≡ false → has_node k xs ≡ true → (a == k) ≡ false
apart a k xs h m = elim (Bool-cases (a == k)) [
  | inl e ↦ absurd (differ (sym h ∙ ap (λ x. has_node x xs) ((==_iff a k).0 e) ∙ m))
  | inr e ↦ e
]
  where
    differ : false ≢ true
    differ e = cc

some-injective : {a k : ℕ} → some a ≡ some k → a ≡ k
some-injective e = cc

-- the nodes with `new` put behind the node `k`
abbrev behind : (ℕ → Node) → (k new v : ℕ) → ℕ → Node
behind f k new v =
    set_next_of (put f new (record { value = v; prev = some k; next = none })) (some k) (some new)

behind-new :
    (f : ℕ → Node) (k new v : ℕ)
    → (new == k) ≡ false
    → behind f k new v new ≡ record { value = v; prev = some k; next = none }
behind-new f k new v ne = ground arith

behind-last :
    (f : ℕ → Node) (k new v : ℕ)
    → (k == new) ≡ false
    → behind f k new v k ≡ record (f k) { next = some new }
behind-last f k new v ne = ground arith

behind-other :
    (f : ℕ → Node) (k new v a : ℕ)
    → (a == k) ≡ false
    → (a == new) ≡ false
    → behind f k new v a ≡ f a
behind-other f k new v a ne ne' = ground arith

snoc_one :
    (f : ℕ → Node) (before : Option ℕ) (new v a w : ℕ)
    → Links f before (some a) (some a) ((a, w) ∷ [])
    → (new == a) ≡ false
    → Links (behind f a new v) before (some a) (some new) ((a, w) ∷ (new, v) ∷ [])
snoc_one f before new v a w (e, pr, d, h, (n, e')) out =
    let ne : (a == new) ≡ false = ground arith in
    rw (behind-last f a new v ne, behind-new f a new v out)
      (refl, pr, d, ground arith, (refl, refl, refl, refl, (refl, refl)))

absent_head : (x a w : ℕ) (xs : List (ℕ × ℕ)) → has_node x ((a, w) ∷ xs) ≡ false → (x == a) ≡ false
absent_head x a w xs h = ground arith

absent_tail :
    (x a w : ℕ) (xs : List (ℕ × ℕ)) → has_node x ((a, w) ∷ xs) ≡ false → has_node x xs ≡ false
absent_tail x a w xs h = ground arith

test-sym : (m n : ℕ) → (m == n) ≡ false → (n == m) ≡ false
test-sym m n h = ground arith

has_node-append :
    (a new v : ℕ) (xs : List (ℕ × ℕ))
    → has_node a xs ≡ false
    → (a == new) ≡ false
    → has_node a (xs ++ ((new, v) ∷ [])) ≡ false
has_node-append a new v [] h ne = ground arith
has_node-append a new v ((b, u) ∷ xs) h ne = ground (arith, has_node-append a new v xs)

-- A node put behind the last one.
snoc-Links :
    (f : ℕ → Node) (before p : Option ℕ) (k new v a w : ℕ) (xs : List (ℕ × ℕ))
    → Links f before p (some k) ((a, w) ∷ xs)
    → has_node new ((a, w) ∷ xs) ≡ false
    → Links (behind f k new v) before p (some new) (((a, w) ∷ xs) ++ ((new, v) ∷ []))
snoc-Links f before p k new v a w [] (e, pr, d, h, (n, e')) out =
    subst (λ k. Links (behind f k new v) before p (some new) ((a, w) ∷ (new, v) ∷ []))
      (some-injective e')
      (subst (λ p. Links (behind f a new v) before p (some new) ((a, w) ∷ (new, v) ∷ [])) (sym e)
        (snoc_one f before new v a w (refl, pr, d, h, (n, refl)) (absent_head new a w [] out)))
snoc-Links f before p k new v a w ((b, u) ∷ ys) (e, pr, d, h, r) out =
    let (m, is_m, member) = last_in f (some a) (f a).next (some k) b u ys r in
    let member_k =
      subst (λ x. has_node x ((b, u) ∷ ys) ≡ true) (sym (some-injective is_m)) member in
    let same =
      behind-other f k new v a (apart a k ((b, u) ∷ ys) h member_k)
        (test-sym new a (absent_head new a w ((b, u) ∷ ys) out)) in
    (
      e,
      ap (λ x. x.prev) same ∙ pr,
      ap (λ x. x.value) same ∙ d,
      has_node-append a new v ((b, u) ∷ ys) h
          (test-sym new a (absent_head new a w ((b, u) ∷ ys) out)),
      subst
          (λ x.
            Links (behind f k new v) (some a) x.next (some new) (((b, u) ∷ ys) ++ ((new, v) ∷ [])))
          (sym same)
          (snoc-Links f (some a) (f a).next k new v b u ys r
            (absent_tail new a w ((b, u) ∷ ys) out)),
    )

push_back-Links :
    (s : DoublyLinkedList) (new v : ℕ) (xs : List (ℕ × ℕ))
    → Links s.node none s.head s.tail xs
    → has_node new xs ≡ false
    → Links
        (set_next_of
          (put s.node new (record { value = v; prev = s.tail; next = none }))
          s.tail
          (some new))
        none
        (or_else s.head (some new))
        (some new)
        (xs ++ ((new, v) ∷ []))
push_back-Links s new v [] (e, e') out =
    rw (e, ← e') (refl, ground arith, ground arith, refl, (ground arith, refl))
push_back-Links s new v ((a, w) ∷ xs) l out =
    let (k, is_k, member) = last_in s.node none s.head s.tail a w xs l in
    let l' = subst (λ t. Links s.node none s.head t ((a, w) ∷ xs)) is_k l in
    subst
      (λ t.
        Links
          (set_next_of (put s.node new (record { value = v; prev = t; next = none })) t (some new))
          none (or_else s.head (some new)) (some new) (((a, w) ∷ xs) ++ ((new, v) ∷ [])))
      (sym is_k)
      (subst
        (λ h. Links (behind s.node k new v) none h (some new) (((a, w) ∷ xs) ++ ((new, v) ∷ [])))
        (l.0 ∙ sym (ap (λ h. or_else h (some new)) l.0))
        (snoc-Links s.node none s.head k new v a w xs l' out))

-- Pushing a value at the back with a node that is not in the list puts it behind the old
-- ones: the nodes are linked both ways from head to tail, and the size counts it.
pub push_back-IsList :
    (new_node value : ℕ) (s : DoublyLinkedList) (xs : List (ℕ × ℕ))
    → IsList s xs
    → has_node new_node xs ≡ false
    → IsList (push_back new_node value s) (xs ++ ((new_node, value) ∷ []))
unfolding push_back
push_back-IsList new_node value s xs i out = record {
  links = push_back-Links s new_node value xs i.links out;
  counted_size = omega (arith, i.counted_size, length-append xs ((new_node, value) ∷ []));
}
