-- ===== src/Graph/Linked.antt =====
-- graph/store/linkedlist.go: the list of the items of one key, the newest in front. The list of
-- the Go library is a list here, and a nil element whose value is asked for is a panic.
pub mod Reversed
use ref_falcon.Prelude.{
  ℕ, zero, suc, List, [], ◌∷◌, ◌++◌, get_elem?, length, Option, none, some, Run, ok, panic, must,
  ◌>>=◌,
}

pub record SafeLinkedList (A : Type 0) : Type 0 where
  pub flag : ℕ
  pub items : List A

module _ {A : Type 0} where
  -- `L.Back()` and `L.Remove(L.Back())`.
  abbrev pub last : List A → Option A
  last [] = none
  last (x ∷ []) = some x
  last (x ∷ y ∷ xs) = last (y ∷ xs)

  abbrev pub without_last : List A → List A
  without_last [] = []
  without_last (x ∷ []) = []
  without_last (x ∷ y ∷ xs) = x ∷ without_last (y ∷ xs)

  abbrev pub new_safe_linked_list : SafeLinkedList A
  new_safe_linked_list = record { flag = 0; items = [] }

  abbrev pub push_front : A → SafeLinkedList A → SafeLinkedList A
  push_front v sl = record sl { items = v ∷ sl.items }

  abbrev pub front : SafeLinkedList A → Option A
  front sl = get_elem? sl.items 0

  abbrev pub back : SafeLinkedList A → Option A
  back sl = last sl.items

  abbrev pub safe_len : SafeLinkedList A → ℕ
  safe_len sl = length sl.items

  abbrev pub pop_back : SafeLinkedList A → Option A × SafeLinkedList A
  pop_back sl = (last sl.items, record sl { items = without_last sl.items })

  -- The loop of PopAll, with the rounds that are left.
  unfoldable pub pop_loop : ℕ → List A → List A → Run (List A × List A)
  pop_loop zero ret l = ok (ret, l)
  pop_loop (suc i) ret l = do item ← must (last l); pop_loop i (ret ++ item ∷ []) (without_last l)

  unfoldable pub pop_all : SafeLinkedList A → Run (List A × SafeLinkedList A)
  unfolding pop_loop
  pop_all sl = do r ← pop_loop (safe_len sl) [] sl.items; ok (r.0, record sl { items = r.1 })

  -- The loop of PushAll, from the index below i down to 0.
  unfoldable pub push_loop : ℕ → List A → List A → Run (List A)
  push_loop zero items l = ok l
  push_loop (suc i) items l = do item ← must (get_elem? items i); push_loop i items (l ++ item ∷ [])

  unfoldable pub push_all : List A → SafeLinkedList A → Run (SafeLinkedList A)
  unfolding push_loop
  push_all items sl = do l ← push_loop (length items) items sl.items; ok (record sl { items = l })

  -- The loop of FetchAll: p goes from the back to the front, over what is left in front of it.
  unfoldable pub fetch_loop : ℕ → List A → List A → List A
  fetch_loop zero ret l = ret
  fetch_loop (suc i) ret l = elim (last l) [
    | none ↦ ret
    | some p ↦ fetch_loop i (ret ++ p ∷ []) (without_last l)
  ]

  unfoldable pub fetch_all : SafeLinkedList A → List A × ℕ
  unfolding fetch_loop
  fetch_all sl = (fetch_loop (safe_len sl) [] sl.items, sl.flag)
