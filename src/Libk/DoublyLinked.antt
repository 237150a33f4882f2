-- ===== src/Libk/DoublyLinked.antt =====
-- `list` of kernel/libcppk/list.hpp; the node member `data` is `value` here. Nodes are known by their addresses, `none` for null; the
-- allocator is the caller's, so a push is given the address that `allocate` returned. Constructors
-- of the values do not throw.
pub mod Laws
pub mod Back
pub mod PopBack
pub mod Deque
mod Tests
use java_script_os.Base.{
  ℕ, zero, suc, ◌+◌, ◌-◌, Option, none, some, List, [], ◌∷◌, ◌==◌, if◌then◌else◌, ◌>>=◌,
}

pub record Node : Type 0 where
  pub value : ℕ
  pub prev : Option ℕ
  pub next : Option ℕ

-- the members of `list`, and the nodes
pub record DoublyLinkedList : Type 0 where
  pub head : Option ℕ
  pub tail : Option ℕ
  pub list_size : ℕ
  pub node : ℕ → Node

abbrev pub put : (ℕ → Node) → ℕ → Node → ℕ → Node
put f a n b = if b == a then n else f b

-- `p->prev = q` under `if (p)`
abbrev pub set_prev_of : (ℕ → Node) → Option ℕ → Option ℕ → ℕ → Node
set_prev_of f none q = f
set_prev_of f (some p) q = put f p (record (f p) { prev = q })

-- `if (!tail) tail = new_node`
abbrev pub or_else : Option ℕ → Option ℕ → Option ℕ
or_else none q = q
or_else (some p) q = some p

-- `tail`, or null when the list has no head
abbrev pub tail_of : Option ℕ → Option ℕ → Option ℕ
tail_of none tail = none
tail_of (some p) tail = tail

unfoldable pub push_front : (new_node value : ℕ) → DoublyLinkedList → DoublyLinkedList
push_front new_node value s =
    let f = put s.node new_node (record { value = value; prev = none; next = s.head }) in
    record {
      head = some new_node;
      tail = or_else s.tail (some new_node);
      list_size = s.list_size + 1;
      node = set_prev_of f s.head (some new_node);
    }

-- what `pop_front` does with the node `temp` at the head
abbrev pub pop_node : ℕ → DoublyLinkedList → DoublyLinkedList
pop_node temp s =
    let head = (s.node temp).next in
    record {
      head = head;
      tail = tail_of head s.tail;
      list_size = s.list_size - 1;
      node = set_prev_of s.node head none;
    }

abbrev pub pop_at : Option ℕ → DoublyLinkedList → DoublyLinkedList
pop_at none s = s
pop_at (some temp) s = pop_node temp s

unfoldable pub pop_front : DoublyLinkedList → DoublyLinkedList
pop_front s = pop_at s.head s

-- `p->next = q` under `if (p)`
abbrev pub set_next_of : (ℕ → Node) → Option ℕ → Option ℕ → ℕ → Node
set_next_of f none q = f
set_next_of f (some p) q = put f p (record (f p) { next = q })

unfoldable pub push_back : (new_node value : ℕ) → DoublyLinkedList → DoublyLinkedList
push_back new_node value s =
    let f = put s.node new_node (record { value = value; prev = s.tail; next = none }) in
    record {
      head = or_else s.head (some new_node);
      tail = some new_node;
      list_size = s.list_size + 1;
      node = set_next_of f s.tail (some new_node);
    }

-- what `pop_back` does with the node `temp` at the tail
abbrev pub pop_node_back : ℕ → DoublyLinkedList → DoublyLinkedList
pop_node_back temp s =
    let tail = (s.node temp).prev in
    record {
      head = tail_of tail s.head;
      tail = tail;
      list_size = s.list_size - 1;
      node = set_next_of s.node tail none;
    }

abbrev pub pop_back_at : Option ℕ → DoublyLinkedList → DoublyLinkedList
pop_back_at none s = s
pop_back_at (some temp) s = pop_node_back temp s

unfoldable pub pop_back : DoublyLinkedList → DoublyLinkedList
pop_back s = pop_back_at s.tail s

-- `clear`: the loop `while (head)`, with `fuel` rounds; `none` means that they are used up.
unfoldable pub clear : ℕ → DoublyLinkedList → Option DoublyLinkedList
unfolding pop_front
clear zero s = none
clear (suc fuel) s =
    let rest = clear fuel (pop_front s) in elim s.head [ none ↦ some s | some p ↦ rest ]

-- `iterator`: the values from the node `current` on, up to the iterator of null
unfoldable pub values_from : ℕ → Option ℕ → DoublyLinkedList → Option (List ℕ)
values_from zero current s = none
values_from (suc fuel) none s = some []
values_from (suc fuel) (some p) s = do
  rest ← values_from fuel (s.node p).next s
  some ((s.node p).value ∷ rest)

-- a loop from `begin()` to `end()`
unfoldable pub values : ℕ → DoublyLinkedList → Option (List ℕ)
unfolding values_from
values fuel s = values_from fuel s.head s
