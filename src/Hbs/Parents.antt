-- ===== src/Hbs/Parents.antt =====
-- hbs/cache/strategies.go, ParentIds: the ancestors of a template, oldest first.
pub mod Lineage
use ref_falcon.Prelude.{
  ℕ, zero, suc, true, false, List, [], ◌∷◌, ◌++◌, Option, none, some, if◌then◌else◌,
}
use ref_falcon.Prelude.Int.{ℤ, pos, leb_ℤ, eqb_ℤ}

-- `model.Template`, of common/model: what this code reads.
pub record Template : Type 0 where
  pub id : ℤ
  pub parent_id : ℤ

-- A read of a Go map with keys of type int.
unfoldable pub find {ℓ} : {A : Type ℓ} → ℤ → List (ℤ × A) → Option A
find key [] = none
find key ((k, a) ∷ m) = let rest = find key m in if eqb_ℤ k key then some a else rest

abbrev pub cons_some : ℤ → Option (List ℤ) → Option (List ℤ)
cons_some tid none = none
cons_some tid (some ids) = some (tid ∷ ids)

-- The loop, with the rounds that are left until depth is 10; `none` is the return in the loop.
unfoldable pub climb : List (ℤ × Template) → ℕ → ℤ → Option (List ℤ)
climb all_tpls zero tid = none
climb all_tpls (suc left) tid = elim (leb_ℤ tid (pos 0)) [
  | true ↦ some []
  | false ↦ elim (find tid all_tpls) [
    | none ↦ some []
    | some t ↦ cons_some tid (climb all_tpls left t.parent_id)
  ]
]

-- The copy into `desc` from its end.
unfoldable pub desc : List ℤ → List ℤ
desc [] = []
desc (x ∷ xs) = desc xs ++ x ∷ []

-- Nothing after ten rounds, else the copy.
abbrev pub ordered : Option (List ℤ) → List ℤ
ordered none = []
ordered (some ret) = desc ret

unfoldable pub parent_ids : List (ℤ × Template) → ℤ → List ℤ
parent_ids all_tpls tid = ordered (climb all_tpls 10 tid)
