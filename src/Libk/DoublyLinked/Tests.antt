-- ===== src/Libk/DoublyLinked/Tests.antt =====
-- Values pushed on an empty list at both ends, and popped.
use java_script_os.Base.{◌≡◌, refl, none, some, arith, List, [], ◌∷◌}
use java_script_os.Libk.DoublyLinked.{DoublyLinkedList, values}
use java_script_os.Libk.DoublyLinked.Laws.{IsList}
use java_script_os.Libk.DoublyLinked.Deque.{
  Call, call_push_front, call_push_back, call_pop_front, call_pop_back, perform_all, Cleared,
  perform_all-Sequence,
}
use java_script_os.Libk.DoublyLinked.{clear}

abbrev empty : DoublyLinkedList
empty = record {
  head = none;
  tail = none;
  list_size = 0;
  node = λ a. record { value = 0; prev = none; next = none };
}

empty-IsList : IsList empty []
empty-IsList = record { links = (refl, refl); counted_size = refl }

-- The node 64 is used again after it was freed.
abbrev calls : List Call
calls =
    call_push_front 64 7
    ∷ call_push_back 96 8
    ∷ call_pop_front
    ∷ call_push_front 64 9
    ∷ call_push_back 128 10
    ∷ call_pop_back
    ∷ []

perform_all-Sequence_example :
    IsList (perform_all calls empty) ((64, 9) ∷ (96, 8) ∷ [])
    × (values 3 (perform_all calls empty) ≡ some (9 ∷ 8 ∷ []))
    × Cleared (clear 3 (perform_all calls empty))
perform_all-Sequence_example =
    perform_all-Sequence calls empty [] 3 empty-IsList
      (refl, (refl, (tt, (refl, (refl, (tt, tt)))))) (omega arith)
