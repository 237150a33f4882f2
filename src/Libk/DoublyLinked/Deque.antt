-- ===== src/Libk/DoublyLinked/Deque.antt =====
-- The list as a double-ended queue: its operations against those on sequences.
use java_script_os.Base.{
  ℕ, zero, suc, ◌<◌, ◌≡◌, refl, false, Option, none, some, List, [], ◌∷◌, ◌++◌, length, arith, sym,
  subst, ap, map,
}
use java_script_os.Libk.DoublyLinked.{
  DoublyLinkedList, push_front, push_back, pop_front, pop_back, clear, values_from, values,
}
use java_script_os.Libk.DoublyLinked.Laws.{
  has_node, Links, IsList, Popped, push_front-IsList, pop_front-Popped,
}
use java_script_os.Libk.DoublyLinked.Back.{push_back-IsList}
use java_script_os.Libk.DoublyLinked.PopBack.{pop_back-IsList, pop_back-empty}

-- a call of an operation; a push with the address that the allocator returns
pub data Call : Type 0 where
  call_push_front call_push_back : (new_node value : ℕ) → Call
  call_pop_front call_pop_back : Call

abbrev pub perform : Call → DoublyLinkedList → DoublyLinkedList
perform (call_push_front n v) s = push_front n v s
perform (call_push_back n v) s = push_back n v s
perform call_pop_front s = pop_front s
perform call_pop_back s = pop_back s

abbrev pub drop_first : List (ℕ × ℕ) → List (ℕ × ℕ)
drop_first [] = []
drop_first (x ∷ xs) = xs

abbrev pub drop_last : List (ℕ × ℕ) → List (ℕ × ℕ)
drop_last [] = []
drop_last (x ∷ []) = []
drop_last (x ∷ y ∷ xs) = x ∷ drop_last (y ∷ xs)

-- the same call on a sequence of nodes and values
abbrev pub on_sequence : Call → List (ℕ × ℕ) → List (ℕ × ℕ)
on_sequence (call_push_front n v) xs = (n, v) ∷ xs
on_sequence (call_push_back n v) xs = xs ++ ((n, v) ∷ [])
on_sequence call_pop_front xs = drop_first xs
on_sequence call_pop_back xs = drop_last xs

abbrev pub perform_all : List Call → DoublyLinkedList → DoublyLinkedList
perform_all [] s = s
perform_all (c ∷ cs) s = perform_all cs (perform c s)

abbrev pub all_on_sequence : List Call → List (ℕ × ℕ) → List (ℕ × ℕ)
all_on_sequence [] xs = xs
all_on_sequence (c ∷ cs) xs = all_on_sequence cs (on_sequence c xs)

-- The allocator does not return a node that is in the list.
abbrev pub IsNew : Call → List (ℕ × ℕ) → Type 0
IsNew (call_push_front n v) xs = has_node n xs ≡ false
IsNew (call_push_back n v) xs = has_node n xs ≡ false
IsNew call_pop_front xs = Unit {0}
IsNew call_pop_back xs = Unit {0}

abbrev pub AreNew : List Call → List (ℕ × ℕ) → Type 0
AreNew [] xs = Unit {0}
AreNew (c ∷ cs) xs = IsNew c xs × AreNew cs (on_sequence c xs)

-- A sequence that is not empty has a last pair.
unsnoc :
    (x : ℕ × ℕ) (xs : List (ℕ × ℕ))
    → (k : ℕ) × (v : ℕ) × ((x ∷ xs) ≡ drop_last (x ∷ xs) ++ ((k, v) ∷ []))
unsnoc (a, w) [] = (a, w, refl)
unsnoc x (y ∷ xs) = let (k, v, e) = unsnoc y xs in (k, v, ap (λ l. x ∷ l) e)

pop_front-drop : (s : DoublyLinkedList) (xs : List (ℕ × ℕ)) → Popped xs s → IsList s (drop_first xs)
pop_front-drop s [] i = i
pop_front-drop s (x ∷ xs) i = i

pop_back-drop :
    (s : DoublyLinkedList) (xs : List (ℕ × ℕ)) → IsList s xs → IsList (pop_back s) (drop_last xs)
pop_back-drop s [] i = pop_back-empty s i
pop_back-drop s (x ∷ xs) i =
    let (k, v, e) = unsnoc x xs in pop_back-IsList s k v (drop_last (x ∷ xs)) (subst (IsList s) e i)

perform-IsList :
    (c : Call) (s : DoublyLinkedList) (xs : List (ℕ × ℕ))
    → IsList s xs
    → IsNew c xs
    → IsList (perform c s) (on_sequence c xs)
perform-IsList (call_push_front n v) s xs i new = push_front-IsList n v s xs i new
perform-IsList (call_push_back n v) s xs i new = push_back-IsList n v s xs i new
perform-IsList call_pop_front s xs i new = pop_front-drop (pop_front s) xs (pop_front-Popped s xs i)
perform-IsList call_pop_back s xs i new = pop_back-drop s xs i

perform_all-IsList :
    (cs : List Call) (s : DoublyLinkedList) (xs : List (ℕ × ℕ))
    → IsList s xs
    → AreNew cs xs
    → IsList (perform_all cs s) (all_on_sequence cs xs)
perform_all-IsList [] s xs i new = i
perform_all-IsList (c ∷ cs) s xs i new =
    perform_all-IsList cs (perform c s) (on_sequence c xs) (perform-IsList c s xs i new.0) new.1

abbrev pub value_of : ℕ × ℕ → ℕ
value_of x = x.1

values_from-Links :
    (fuel : ℕ) (s : DoublyLinkedList) (before p last : Option ℕ) (xs : List (ℕ × ℕ))
    → Links s.node before p last xs
    → length xs < fuel
    → values_from fuel p s ≡ some (map value_of xs)
unfolding values_from
values_from-Links zero s before p last xs l h = absurd (omega arith)
values_from-Links (suc fuel) s before p last [] l h = rw (l.0) refl
values_from-Links (suc fuel) s before p last ((a, v) ∷ xs) (e, pr, d, out, l) h =
    rw (e, values_from-Links fuel s (some a) (s.node a).next last xs l (omega arith), d) refl

-- what `clear` is to leave
abbrev pub Cleared : Option DoublyLinkedList → Type 0
Cleared result = (s : DoublyLinkedList) × (result ≡ some s) × IsList s []

clear-empty : (fuel : ℕ) (s : DoublyLinkedList) → IsList s [] → Cleared (clear (suc fuel) s)
unfolding clear
clear-empty fuel s i = (s, rw (i.links.0) refl, i)

clear-head :
    (fuel p : ℕ) (s : DoublyLinkedList)
    → s.head ≡ some p
    → clear (suc fuel) s ≡ clear fuel (pop_front s)
unfolding clear
clear-head fuel p s e = rw e refl

clear-Cleared :
    (fuel : ℕ) (s : DoublyLinkedList) (xs : List (ℕ × ℕ))
    → IsList s xs
    → length xs < fuel
    → Cleared (clear fuel s)
clear-Cleared zero s xs i h = absurd (omega arith)
clear-Cleared (suc fuel) s [] i h = clear-empty fuel s i
clear-Cleared (suc fuel) s ((a, v) ∷ xs) i h =
    subst Cleared (sym (clear-head fuel a s i.links.0))
      (clear-Cleared fuel (pop_front s) xs (pop_front-Popped s ((a, v) ∷ xs) i) (omega arith))

-- Pushes and pops at both ends, in any order, do to the list what they do to a sequence, as long as
-- no push gets a node that is in the list: the nodes are linked both ways from head to tail and
-- hold the sequence, the size is its length, iteration yields its values in order, and `clear`
-- returns an empty list, both within one round more than there are nodes.
pub perform_all-Sequence :
    (cs : List Call) (s : DoublyLinkedList) (xs : List (ℕ × ℕ)) (fuel : ℕ)
    → IsList s xs
    → AreNew cs xs
    → length (all_on_sequence cs xs) < fuel
    → IsList (perform_all cs s) (all_on_sequence cs xs)
      × (values fuel (perform_all cs s) ≡ some (map value_of (all_on_sequence cs xs)))
      × Cleared (clear fuel (perform_all cs s))
unfolding values
perform_all-Sequence cs s xs fuel i new h =
    let done = perform_all-IsList cs s xs i new in
    (
      done,
      values_from-Links fuel (perform_all cs s) none _ _ (all_on_sequence cs xs) done.links h,
      clear-Cleared fuel (perform_all cs s) (all_on_sequence cs xs) done h,
    )
