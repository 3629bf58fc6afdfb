-- ===== src/LinkedList.antt =====
-- source/kernel/libs/datastructures.c: the singly linked list. The nodes from `head` on are the list
-- of their data, each an array of `type_size` bytes. Whether `malloc` serves a node is an argument.
pub mod Access
use waffle_os.Common.{ℕ, zero, suc, Bool, true, false, List, [], ◌∷◌, Option, none, some, take}

pub record SinglyLinkedList : Type 0 where
  pub type_size : ℕ
  pub nodes : List (List ℕ)

-- `none` is NULL, where `malloc` fails.
unfoldable pub create : Bool → ℕ → Option SinglyLinkedList
create false type_size = none
create true type_size = some (record { type_size = type_size; nodes = [] })

-- `while (current->next)`: the walk to the last node, and the link behind it.
unfoldable pub link_last : List ℕ → List (List ℕ) → List (List ℕ)
link_last new_node [] = new_node ∷ []
link_last new_node (current ∷ next) = current ∷ link_last new_node next

-- `bytes` is the memory behind the pointer `data`.
unfoldable pub append : Bool → List ℕ → SinglyLinkedList → SinglyLinkedList
unfolding link_last
append false bytes list = list
append true bytes list = record list { nodes = link_last (take list.type_size bytes) list.nodes }

-- `while (current && i < index)`
unfoldable pub walk : List (List ℕ) → ℕ → Option (List ℕ)
walk [] index = none
walk (current ∷ next) zero = some current
walk (current ∷ next) (suc index) = walk next index

unfoldable pub get : SinglyLinkedList → ℕ → Option (List ℕ)
unfolding walk
get list index = walk list.nodes index
