-- ===== src/FtList.antt =====
-- server/inc/ft_list.c: the circular doubly linked list of the server. A node is a number, a null
-- pointer is `none`; the pointer to the head itself is never null. A function whose loop does not
-- end within its fuel, or that would follow a null pointer, gives `none`.
pub mod Ring
pub mod Append
pub mod Pop
pub mod Size
use zappy.Prelude.Int.{ℤ, pos, negsuc}
use zappy.Prelude.{
  ℕ, zero, suc, ◌+◌, ◌&&◌, ◌==◌, if◌then◌else◌, Bool, true, false, Option, none, some, List, [],
  ◌∷◌,
}

-- `list_item_t`
pub record ListItem : Type 0 where
  pub next : Option ℕ
  pub prev : Option ℕ

pub record FtList : Type 0 where
  pub head : Option ℕ
  pub item_at : ℕ → ListItem

-- OK, INVALID_ARGS and FAILURE of error_codes.h.
pub data ListCode : Type 0 where
  ok invalid_args failure : ListCode

abbrev pub set_item : FtList → ℕ → ListItem → FtList
set_item l p v = record l { item_at = λ q. if p == q then v else l.item_at q }

abbrev pub set_next : FtList → ℕ → Option ℕ → FtList
set_next l p v = set_item l p (record (l.item_at p) { next = v })

abbrev pub set_prev_item : FtList → ℕ → Option ℕ → FtList
set_prev_item l p v = set_item l p (record (l.item_at p) { prev = v })

-- The writes of `ft_list_add_last` behind the last node.
abbrev pub link_last : FtList → ℕ → ℕ → ℕ → FtList
link_last l head last node =
    let l₁ = set_next l last (some node) in
    let l₂ = set_prev_item l₁ node (some last) in
    let l₃ = set_next l₂ node (some head) in set_prev_item l₃ head (some node)

abbrev pub single : FtList → ℕ → FtList
single l node =
    let l₁ = record l { head = some node } in
    set_prev_item (set_next l₁ node (some node)) node (some node)

-- `last = (*head)->prev`, then the writes.
abbrev pub add_behind : FtList → ℕ → ℕ → Option ℕ → Option (ListCode × FtList)
add_behind l node head none = none
add_behind l node head (some last) = some (ok, link_last l head last node)

abbrev pub add_to : FtList → ℕ → Option ℕ → Option (ListCode × FtList)
add_to l node none = some (ok, single l node)
add_to l node (some head) = add_behind l node head (l.item_at head).prev

unfoldable pub ft_list_add_last : FtList → Option ℕ → Option (ListCode × FtList)
ft_list_add_last l none = some (invalid_args, l)
ft_list_add_last l (some node) = add_to l node l.head

-- `while (first->prev != *head) first = first->prev;`
unfoldable pub walk_back : (ℕ → ListItem) → ℕ → ℕ → ℕ → Option ℕ
walk_back mem zero head first = none
walk_back mem (suc fuel) head first = elim (mem first).prev [
  | none ↦ none
  | some q ↦ if q == head then some first else walk_back mem fuel head q
]

-- `while (last->next != *head) last = last->next;`
unfoldable pub walk_on : (ℕ → ListItem) → ℕ → ℕ → ℕ → Option ℕ
walk_on mem zero head last = none
walk_on mem (suc fuel) head last = elim (mem last).next [
  | none ↦ none
  | some q ↦ if q == head then some last else walk_on mem fuel head q
]

-- On an empty list the code writes through the null pointer `*head`.
unfoldable pub ft_list_add_first : ℕ → FtList → Option ℕ → Option (ListCode × FtList)
unfolding walk_back
ft_list_add_first fuel l none = some (invalid_args, l)
ft_list_add_first fuel l (some node) = elim l.head [
  | none ↦ none
  | some head ↦ elim (walk_back l.item_at fuel head head) [
    | none ↦ none
    | some first ↦ some (ok, set_next (set_prev_item l first (some node)) node (some first))
  ]
]

-- What `ft_list_get_next` and `ft_list_get_prev` make of a link: the head ends the list.
abbrev pub unless_head : ℕ → Option ℕ → Option ℕ
unless_head head none = none
unless_head head (some q) = if q == head then none else some q

unfoldable pub ft_list_get_next : FtList → ℕ → Option ℕ
ft_list_get_next l node = elim l.head [
  | none ↦ none
  | some head ↦ unless_head head (l.item_at node).next
]

unfoldable pub ft_list_get_prev : FtList → ℕ → Option ℕ
ft_list_get_prev l node = elim l.head [
  | none ↦ none
  | some head ↦ unless_head head (l.item_at node).prev
]

-- The result is the pointer that is returned, null for an empty list.
unfoldable pub ft_list_get_first : ℕ → FtList → Option (Option ℕ)
unfolding walk_back
ft_list_get_first fuel l = elim l.head [
  | none ↦ some none
  | some head ↦ elim (walk_back l.item_at fuel head head) [
    | none ↦ none
    | some first ↦ some (some first)
  ]
]

unfoldable pub ft_list_get_last : ℕ → FtList → Option (Option ℕ)
unfolding walk_on
ft_list_get_last fuel l = elim l.head [
  | none ↦ some none
  | some head ↦ elim (walk_on l.item_at fuel head head) [
    | none ↦ none
    | some last ↦ some (some last)
  ]
]

-- The writes of `ft_list_pop` to the neighbours of a node and to the head.
abbrev pub close_gap : FtList → ℕ → ℕ → ℕ → ℕ → FtList
close_gap l head node prev next =
    let l₁ = set_prev_item (set_next l prev (some next)) next (some prev) in
    if head == node then record l₁ { head = some next } else l₁

-- `node->next = NULL; node->prev = NULL;`
abbrev pub cut_off : FtList → ℕ → FtList
cut_off l node = set_prev_item (set_next l node none) node none

-- `ft_list_pop` with the two links of the node read. Through a null link it writes, unless there
-- is none.
abbrev pub pop_between : FtList → ℕ → ℕ → Option ℕ → Option ℕ → Option (ListCode × FtList)
pop_between l head node none next = none
pop_between l head node (some prev) none = none
pop_between l head node (some prev) (some next) = some (
  ok,
  cut_off
      (if (node == next) && (node == prev)
        then record l { head = none }
        else close_gap l head node prev next)
      node,
)

abbrev pub pop_from : FtList → ℕ → Option ℕ → Option (ListCode × FtList)
pop_from l node none = some (invalid_args, l)
pop_from l node (some head) = pop_between l head node (l.item_at node).prev (l.item_at node).next

unfoldable pub ft_list_pop : FtList → Option ℕ → Option (ListCode × FtList)
ft_list_pop l none = some (invalid_args, l)
ft_list_pop l (some node) = pop_from l node l.head

unfoldable pub ft_list_pop_first : ℕ → FtList → Option (ListCode × FtList)
unfolding ft_list_get_first ft_list_pop
ft_list_pop_first fuel l = elim (ft_list_get_first fuel l) [
  | none ↦ none
  | some first ↦ ft_list_pop l first
]

unfoldable pub ft_list_pop_last : ℕ → FtList → Option (ListCode × FtList)
unfolding ft_list_get_last ft_list_pop
ft_list_pop_last fuel l = elim (ft_list_get_last fuel l) [
  | none ↦ none
  | some last ↦ ft_list_pop l last
]

-- `do { size++; current = current->next; } while (current != *head);`
unfoldable pub count_nodes : (ℕ → ListItem) → ℕ → ℕ → ℕ → ℕ → Option ℕ
count_nodes mem zero head current size = none
count_nodes mem (suc fuel) head current size = elim (mem current).next [
  | none ↦ none
  | some q ↦ if q == head then some (size + 1) else count_nodes mem fuel head q (size + 1)
]

unfoldable pub ft_list_get_size : ℕ → FtList → Option ℕ
unfolding count_nodes
ft_list_get_size fuel l = elim l.head [
  | none ↦ some 0
  | some head ↦ count_nodes l.item_at fuel head head 0
]

-- The loop of `ft_list_find_node`; FAILURE is -1.
unfoldable pub find_from : (ℕ → ListItem) → ℕ → ℕ → ℕ → ℕ → ℕ → Option ℤ
find_from mem zero head node current index = none
find_from mem (suc fuel) head node current index =
    let next : Option ℤ = elim (mem current).next [
      | none ↦ none
      | some q ↦ if q == head then some (negsuc 0) else find_from mem fuel head node q (index + 1)
    ] in
    if current == node then some (pos index) else next

-- INVALID_ARGS is -2.
unfoldable pub ft_list_find_node : ℕ → FtList → Option ℕ → Option ℤ
unfolding find_from
ft_list_find_node fuel l none = some (negsuc 1)
ft_list_find_node fuel l (some node) = elim l.head [
  | none ↦ some (negsuc 1)
  | some head ↦ find_from l.item_at fuel head node head 0
]

-- The loop of `m_remove_clients` in server.c: the nodes that it comes to from `client` on.
unfoldable pub clients_from : ℕ → FtList → Option ℕ → Option (List ℕ)
unfolding ft_list_get_next
clients_from fuel l none = some []
clients_from zero l (some client) = none
clients_from (suc fuel) l (some client) = elim (clients_from fuel l (ft_list_get_next l client)) [
  | none ↦ none
  | some rest ↦ some (client ∷ rest)
]

unfoldable pub removed_clients : ℕ → FtList → Option (List ℕ)
unfolding clients_from ft_list_get_first
removed_clients fuel l = elim (ft_list_get_first fuel l) [
  | none ↦ none
  | some client ↦ clients_from fuel l client
]
