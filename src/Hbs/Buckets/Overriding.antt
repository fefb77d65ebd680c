-- ===== src/Hbs/Buckets/Overriding.antt =====
-- In a bucket the youngest template with a strategy of some metric and tags decides.
use ref_falcon.Prelude.{
  ◌≡◌, refl, ap, subst, ◌∙◌, inl, inr, false, List, [], ◌∷◌, ◌++◌, Option, none, some,
  if◌then◌else◌, arith, Bool-cases, Option-cases,
}
use ref_falcon.Prelude.Int.{ℤ}
use ref_falcon.Prelude.Text.{String, str_eq, eq_iff, lookup, insert, lookup-insert}
use ref_falcon.Judge.Types.{Tags}
use ref_falcon.Judge.Sync.{append_at}
use ref_falcon.Judge.Sync.Maps.{all_of}
use ref_falcon.Hbs.Parents.{find}
use ref_falcon.Hbs.Buckets.{HostRule, uuid, the_tid_stras, override, bucket_stras_map}

-- No key stands twice.
abbrev Apart : List (String × List HostRule) → Type 0
Apart [] = Unit {0}
Apart ((k, ss) ∷ m) = (lookup k m ≡ none) × Apart m

flip_eq : (a b : String) → str_eq a b ≡ false → str_eq b a ≡ false
flip_eq a b e = ground (arith, eq_iff a b, eq_iff b a)

insert-Apart :
    (key : String) (ss : List HostRule) (m : List (String × List HostRule))
    → Apart m
    → Apart (insert key ss m)
unfolding insert
insert-Apart key ss [] a = (unfold lookup in refl, tt)
insert-Apart key ss ((k, rs) ∷ m) a = elim (Bool-cases (str_eq k key)) [
  | inl same ↦
      rw (same, insert) (subst (λ (x : String). lookup x m ≡ none) ((eq_iff k key).0 same) a.0, a.1)
  | inr other ↦
      rw (other, insert)
        (lookup-insert key k ss m ∙ rw (flip_eq k key other) a.0, insert-Apart key ss m a.1)
]

append_at-Apart :
    (key : String) (s : HostRule) (m : List (String × List HostRule))
    → Apart m
    → Apart (append_at key s m)
unfolding append_at
append_at-Apart key s m a = elim (Option-cases (lookup key m)) [
  | inl absent ↦ rw (absent, append_at) (insert-Apart key (s ∷ []) m a)
  | inr (ss, found) ↦ rw (found, append_at) (insert-Apart key (ss ++ s ∷ []) m a)
]

lookup-append_at :
    (key k : String) (s : HostRule) (m : List (String × List HostRule))
    → lookup k (append_at key s m)
      ≡ (if str_eq key k then some (all_of (lookup k m) ++ s ∷ []) else lookup k m)
unfolding append_at
lookup-append_at key k s m = elim (Option-cases (lookup key m)) [
  | inl absent ↦
      rw (absent, append_at, lookup-insert key k (s ∷ []) m)
        (elim (Bool-cases (str_eq key k)) [
          | inl same ↦
              (let at : lookup k m ≡ none =
                  subst (λ (j : String). lookup j m ≡ none) ((eq_iff key k).0 same) absent in
                rw (same, at))
          | inr other ↦ rw other
        ])
  | inr (ss, found) ↦
      rw (found, append_at, lookup-insert key k (ss ++ s ∷ []) m)
        (elim (Bool-cases (str_eq key k)) [
          | inl same ↦
              (let at : lookup k m ≡ some ss =
                  subst (λ (j : String). lookup j m ≡ some ss) ((eq_iff key k).0 same) found in
                rw (same, at))
          | inr other ↦ rw other
        ])
]

-- What is under a key, with more strategies for it.
abbrev gathered : Option (List HostRule) → List HostRule → Option (List HostRule)
gathered o [] = o
gathered o (x ∷ xs) = some (all_of o ++ x ∷ xs)

++_assoc : (xs ys zs : List HostRule) → (xs ++ ys) ++ zs ≡ xs ++ (ys ++ zs)
++_assoc [] ys zs = refl
++_assoc (x ∷ xs) ys zs = ap (◌∷◌ x) (++_assoc xs ys zs)

gathered_step :
    (xs : List HostRule) (s : HostRule) (ys : List HostRule)
    → gathered (some (xs ++ s ∷ [])) ys ≡ some (xs ++ s ∷ ys)
gathered_step xs s [] = refl
gathered_step xs s (y ∷ ys) = ap some (++_assoc xs (s ∷ []) (y ∷ ys))

-- The first, if there is one, else the second.
abbrev pub over : Option (List HostRule) → Option (List HostRule) → Option (List HostRule)
over none old = old
over (some new) old = some new

-- The strategies, or nothing when there are none.
abbrev pub unless_empty : List HostRule → Option (List HostRule)
unless_empty [] = none
unless_empty (s ∷ ss) = some (s ∷ ss)

module _ (sorted_tags : Tags → String) where
  -- The strategies of a template with a metric and tags.
  abbrev pub own : String → List HostRule → List HostRule
  own key [] = []
  own key (s ∷ ss) =
      let rest = own key ss in if str_eq (uuid sorted_tags s) key then s ∷ rest else rest

  -- The strategies of the last template of the bucket that has any for the key.
  abbrev pub youngest :
      String → List (ℤ × List HostRule) → List ℤ → Option (List HostRule) → Option (List HostRule)
  youngest key tpl2 [] old = old
  youngest key tpl2 (tid ∷ bucket) old =
      youngest key tpl2 bucket
        (elim (find tid tpl2) [ none ↦ old | some stras ↦ over (unless_empty (own key stras)) old ])

  lookup-the_tid_stras :
      (key : String) (ss : List HostRule) (m : List (String × List HostRule))
      → lookup key (the_tid_stras sorted_tags ss m) ≡ gathered (lookup key m) (own key ss)
  unfolding the_tid_stras
  lookup-the_tid_stras key [] m = refl
  lookup-the_tid_stras key (s ∷ ss) m =
      lookup-the_tid_stras key ss (append_at (uuid sorted_tags s) s m)
      ∙ rw (lookup-append_at (uuid sorted_tags s) key s m)
          (elim (Bool-cases (str_eq (uuid sorted_tags s) key)) [
            | inl same ↦ rw same (gathered_step (all_of (lookup key m)) s (own key ss))
            | inr other ↦ rw other
          ])

  the_tid_stras-Apart :
      (ss : List HostRule) (m : List (String × List HostRule))
      → Apart m
      → Apart (the_tid_stras sorted_tags ss m)
  unfolding the_tid_stras
  the_tid_stras-Apart [] m a = a
  the_tid_stras-Apart (s ∷ ss) m a =
      the_tid_stras-Apart ss _ (append_at-Apart (uuid sorted_tags s) s m a)

  lookup-override :
      (key : String) (stras m : List (String × List HostRule))
      → Apart stras
      → lookup key (override sorted_tags stras m) ≡ over (lookup key stras) (lookup key m)
  unfolding override lookup
  lookup-override key [] m a = refl
  lookup-override key ((k, ss) ∷ stras) m a =
      lookup-override key stras (insert k ss m) a.1
      ∙ rw (lookup-insert k key ss m) (elim (Bool-cases (str_eq k key)) [
        | inl same ↦
            (let gone : lookup key stras ≡ none =
                subst (λ (x : String). lookup x stras ≡ none) ((eq_iff k key).0 same) a.0 in
              rw (same, gone))
        | inr other ↦ rw other
      ])

  gathered-none : (ss : List HostRule) → gathered none ss ≡ unless_empty ss
  gathered-none [] = refl
  gathered-none (s ∷ ss) = refl

  lookup-bucket :
      (key : String) (tpl2 : List (ℤ × List HostRule)) (bucket : List ℤ)
      (m : List (String × List HostRule))
      → lookup key (bucket_stras_map sorted_tags tpl2 bucket m)
        ≡ youngest key tpl2 bucket (lookup key m)
  unfolding bucket_stras_map
  lookup-bucket key tpl2 [] m = refl
  lookup-bucket key tpl2 (tid ∷ bucket) m = elim (Option-cases (find tid tpl2)) [
    | inl absent ↦ rw (absent, bucket_stras_map, youngest) (lookup-bucket key tpl2 bucket m)
    | inr (stras, found) ↦
        rw (found, bucket_stras_map, youngest)
          (lookup-bucket key tpl2 bucket
              (override sorted_tags (the_tid_stras sorted_tags stras []) m)
            ∙ ap (youngest key tpl2 bucket) (
                lookup-override key (the_tid_stras sorted_tags stras []) m
                  (the_tid_stras-Apart stras [] tt)
                ∙ ap (λ o. over o (lookup key m))
                    (lookup-the_tid_stras key stras [] ∙ none_first (own key stras))))
  ]
    where
      none_first : (ss : List HostRule) → gathered (lookup key []) ss ≡ unless_empty ss
      none_first ss = unfold lookup in gathered-none ss

  -- In the map of a bucket there are, under a metric and tags, the strategies of the last template
  -- of the bucket, which is the youngest, that has any with them, and all of these in order.
  pub bucket_stras_map_lem :
      (key : String) (tpl2 : List (ℤ × List HostRule)) (bucket : List ℤ)
      → lookup key (bucket_stras_map sorted_tags tpl2 bucket []) ≡ youngest key tpl2 bucket none
  bucket_stras_map_lem key tpl2 bucket =
      lookup-bucket key tpl2 bucket [] ∙ ap (youngest key tpl2 bucket) empty
    where
      empty : lookup {V = List HostRule} key [] ≡ none
      empty = unfold lookup in refl
