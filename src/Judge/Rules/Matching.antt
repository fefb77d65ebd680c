-- ===== src/Judge/Rules/Matching.antt =====
-- Which rules apply to an item.
use ref_falcon.Prelude.{
  ◌≡◌, ◌↔◌, refl, sym, ap, ◌∙◌, ◌⊎◌, inl, inr, true, false, List, [], ◌∷◌, Option, none, some,
  if◌then◌else◌, arith, Bool-cases, Option-cases,
}
use ref_falcon.Prelude.Text.{String, str_eq, eq_iff, lookup, insert, lookup-insert}
use mathlib.Core.Path.{subst}
use ref_falcon.Judge.Types.{Tags, JudgeItem, Expression}
use ref_falcon.Judge.Rules.{
  tags_match, overlay, copy_item_tags, tags_for, filter_related_expressions,
}

-- Every tag of a rule is among the tags of the item, with the same value.
abbrev pub Covers : Tags → Tags → Type 0
Covers mine [] = Unit {0}
Covers mine ((k, v) ∷ tags) = (lookup k mine ≡ some v) × Covers mine tags

tags_match-Covers : (rule mine : Tags) → (tags_match rule mine ≡ true) ↔ Covers mine rule
unfolding tags_match
tags_match-Covers [] mine = (λ _. tt, λ _. refl)
tags_match-Covers ((k, v) ∷ tags) mine =
    let (to, from) = tags_match-Covers tags mine in
    elim (Option-cases (lookup k mine)) [
      | inl missing ↦ (λ h. ground arith, λ h. ground arith)
      | inr (w, found) ↦
          (λ h. ground (arith, eq_iff w v, to), λ h. ground (arith, eq_iff w v, from h.1))
    ]

module _ {V : Type 0} where
  abbrev pub In : Expression V → List (Expression V) → Type 0
  In e [] = ⊥
  In e (x ∷ xs) = (e ≡ x) ⊎ In e xs

  -- The expressions that are kept are those of the list whose tags the item covers.
  pub filter_related_expressions_iff :
      (e : Expression V) (exps : List (Expression V)) (item : JudgeItem V)
      → In e (filter_related_expressions exps item) ↔ In e exps × Covers (tags_for e item) e.tags
  unfolding filter_related_expressions
  filter_related_expressions_iff e [] item = (λ h. absurd h, λ h. h.0)
  filter_related_expressions_iff e (x ∷ exps) item =
      let (to, from) = filter_related_expressions_iff e exps item in
      let (covers, matches) = tags_match-Covers x.tags (tags_for x item) in
      elim (Bool-cases (tags_match x.tags (tags_for x item))) [
        | inl related ↦ rw related (
          elim [
            | inl here ↦
                (inl here, subst (λ y. Covers (tags_for y item) y.tags) (sym here) (covers related))
            | inr there ↦ (inr (to there).0, (to there).1)
          ],
          λ h. elim h.0 [ inl here ↦ inl here | inr there ↦ inr (from (there, h.1)) ],
        )
        | inr other ↦ rw other (
          λ there. (inr (to there).0, (to there).1),
          λ h. elim h.0 [
            | inl here ↦ absurd (
                absurd_match x item other
                  (matches (subst (λ y. Covers (tags_for y item) y.tags) here h.1)))
            | inr there ↦ from (there, h.1)
          ],
        )
      ]
    where
      absurd_match :
          (x : Expression V) (item : JudgeItem V)
          → tags_match x.tags (tags_for x item) ≡ false
          → tags_match x.tags (tags_for x item) ≡ true
          → ⊥
      absurd_match x item n y = cc

-- No key stands twice, as in a Go map.
abbrev pub Distinct : Tags → Type 0
Distinct [] = Unit {0}
Distinct ((k, v) ∷ tags) = (lookup k tags ≡ none) × Distinct tags

abbrev pub or_else : Option String → Option String → Option String
or_else none d = d
or_else (some v) d = some v

overlay-lookup :
    (k : String) (tags ret : Tags)
    → Distinct tags
    → lookup k (overlay tags ret) ≡ or_else (lookup k tags) (lookup k ret)
unfolding overlay lookup
overlay-lookup k [] ret d = refl
overlay-lookup k ((j, v) ∷ tags) ret d =
    ground (arith, eq_iff j k, overlay-lookup k tags (insert j v ret) d.1, lookup-insert j k v ret)

module _ {V : Type 0} where
  -- The copied tags are those of the item, with the endpoint under "endpoint" unless the item has
  -- a tag of that name.
  pub copy_item_tags-lookup :
      (k : String) (item : JudgeItem V)
      → Distinct item.tags
      → lookup k (copy_item_tags item)
        ≡ or_else (lookup k item.tags) (if str_eq "endpoint" k then some item.endpoint else none)
  unfolding copy_item_tags lookup
  copy_item_tags-lookup k item d =
      overlay-lookup k item.tags (("endpoint", item.endpoint) ∷ []) d
      ∙ ap (or_else (lookup k item.tags)) refl
