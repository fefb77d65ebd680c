-- ===== src/Judge/Store/Clean.antt =====
-- What CleanStale takes away and what it leaves.
use ref_falcon.Prelude.{
  ◌≡◌, refl, ◌∙◌, ◌||◌, Bool, true, false, List, [], ◌∷◌, Option, none, some, if◌then◌else◌, arith,
}
use ref_falcon.Prelude.Int.{ℤ}
use ref_falcon.Prelude.Text.{String, str_eq, eq_iff, lookup, delete, lookup-delete}
use ref_falcon.Judge.Types.{JudgeItem}
use ref_falcon.Judge.Store.{ItemMap, batch_delete, is_old, stale_keys, clean_stale}

listed : String → List String → Bool
listed k [] = false
listed k (x ∷ xs) = str_eq x k || listed k xs

lookup-batch_delete {ℓ} :
    {A : Type ℓ} (k : String) (keys : List String) (m : List (String × A))
    → lookup k (batch_delete keys m) ≡ (if listed k keys then none else lookup k m)
unfolding batch_delete listed
lookup-batch_delete k [] m = refl
lookup-batch_delete {A = A} k (x ∷ keys) m =
    lookup-batch_delete k keys (delete x m)
    ∙ rw (lookup-delete x k m) (if_or (str_eq x k) (listed k keys) (lookup k m))
  where
    if_or :
        (b c : Bool) (r : Option A)
        → (if c then none else if b then none else r) ≡ (if b || c then none else r)
    if_or true true r = refl
    if_or true false r = refl
    if_or false true r = refl
    if_or false false r = refl

module _ {V : Type 0} where
  -- A Go map has one entry for a key.
  abbrev pub OneEach : ItemMap V → Type 0
  OneEach [] = Unit {0}
  OneEach ((k, l) ∷ m) = (lookup k m ≡ none) × OneEach m

  -- Whether what is under a key is old.
  abbrev pub old_at : ℤ → Option (List (JudgeItem V)) → Bool
  old_at before none = false
  old_at before (some l) = is_old before l

  listed-stale_keys :
      (before : ℤ) (k : String) (m : ItemMap V)
      → OneEach m
      → listed k (stale_keys before m) ≡ old_at before (lookup k m)
  unfolding stale_keys listed lookup
  listed-stale_keys before k [] h = refl
  listed-stale_keys before k ((key, l) ∷ m) h =
      let tail = listed-stale_keys before k m h.1 in ground (arith, tail, h.0, eq_iff key k)

  -- On a map with one entry for a key, CleanStale takes away the lists whose newest item is older
  -- than the given time, and changes nothing else; an empty list stays.
  pub clean_stale_lem :
      (before : ℤ) (k : String) (m : ItemMap V)
      → OneEach m
      → lookup k (clean_stale before m) ≡ (if old_at before (lookup k m) then none else lookup k m)
  unfolding clean_stale
  clean_stale_lem before k m h =
      lookup-batch_delete k (stale_keys before m) m ∙ rw (listed-stale_keys before k m h)
