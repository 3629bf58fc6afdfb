-- ===== src/LinkedList/Access.antt =====
-- Reading the list of source/kernel/libs/datastructures.c after an addition.
use waffle_os.Common.{
  ℕ, zero, suc, ◌≡◌, refl, true, List, [], ◌∷◌, some, take, length, ◌==◌, if◌then◌else◌, arith,
}
use waffle_os.LinkedList.{SinglyLinkedList, link_last, append, walk, get}

walk-link_last :
    (new_node : List ℕ) (nodes : List (List ℕ)) (index : ℕ)
    → walk (link_last new_node nodes) index
      ≡ (if index == length nodes then some new_node else walk nodes index)
unfolding walk link_last
walk-link_last new_node [] zero = refl
walk-link_last new_node [] (suc index) = ground arith
walk-link_last new_node (node ∷ nodes) zero = ground arith
walk-link_last new_node (node ∷ nodes) (suc index) =
    ground (arith, walk-link_last new_node nodes index)

-- After data has been added, the index behind the last old node reads as the first `type_size`
-- bytes of it, and every other index as before, NULL out of range included.
pub get-append :
    (bytes : List ℕ) (list : SinglyLinkedList) (index : ℕ)
    → get (append true bytes list) index
      ≡ (if index == length list.nodes then some (take list.type_size bytes) else get list index)
unfolding get append
get-append bytes list index = walk-link_last (take list.type_size bytes) list.nodes index
