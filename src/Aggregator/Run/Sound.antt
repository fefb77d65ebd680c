-- ===== src/Aggregator/Run/Sound.antt =====
-- What a valid expression parses to is computed without a panic.
use ref_falcon.Prelude.{
  ℕ, suc, ◌≤◌, ◌≡◌, refl, sym, subst, Bool, true, false, not, List, [], ◌∷◌, length, if◌then◌else◌,
  ◌==◌, ==_iff, inl, inr, arith, Run, ok, err, panic, Returns,
}
use ref_falcon.Prelude.Text.{codes}
use ref_falcon.Float64.{Float64}
use ref_falcon.Judge.Parse.{bytes_eq}
use ref_falcon.Aggregator.Expression.{need_compute, expression_valid, parse, comparison}
use ref_falcon.Aggregator.Expression.Split.{parse-Parts}
use ref_falcon.Aggregator.Expression.Mode.{Readable, valid-Readable}
use ref_falcon.Aggregator.Run.{
  Parts, ValMap, Api, query_operands, mode_holds, compare_sum, sum_up, with_mode, compute_values,
  compute_expression, side,
}
use ref_falcon.Aggregator.Run.Comparing.{find_comparison-found}

-- Enough operators for the operands, and a mode that can be read.
abbrev pub GoodParts : Parts → Type 0
GoodParts parts = (length parts.0 ≤ suc (length parts.1)) × Readable parts.2

-- A side that is computed has good parts.
abbrev pub GoodSide : Bool → Parts → Type 0
GoodSide need parts = need ≡ true → GoodParts parts

abbrev pub Safe {ℓ} : {A : Type ℓ} → Run A → Type 0
Safe (ok a) = Unit {0}
Safe err = Unit {0}
Safe panic = ⊥

checked :
    {A : Type 0} (none_there same : Bool) (m : Run A)
    → (none_there ≡ false → same ≡ true → Safe m)
    → Safe (if none_there then err else if not same then err else m)
checked true same m h = tt
checked false true m h = h refl refl
checked false false m h = tt

module _ {V : Type 0} ⦃fl : Float64 V⦄ (api : Api V) where
  sum_up-ok :
      (vals : List V) (operators : List (List ℕ)) (sum : V)
      → length vals ≤ length operators
      → (r : V) × (sum_up api vals operators sum ≡ ok r)
  unfolding sum_up
  sum_up-ok [] operators sum h = (sum, refl)
  sum_up-ok (v ∷ vals) [] sum h = elim h [ ]
  sum_up-ok (v ∷ vals) (op ∷ operators) sum h =
      sum_up-ok vals operators (if bytes_eq op (codes "+") then fl.add sum v else fl.sub sum v)
        (omega (arith, h))

  compare_sum-ok :
      (sum : V) (mode : List ℕ)
      → comparison mode ≡ true
      → (b : Bool) × (compare_sum api sum mode ≡ ok b)
  unfolding compare_sum
  compare_sum-ok sum mode h =
      let (m, e) = find_comparison-found mode h in
      (mode_holds api m.0 sum ((api.parse_float m.1).0), rw e)

  with_mode-Safe : (mode : List ℕ) (sum : V) → Readable mode → Safe (with_mode api mode sum)
  with_mode-Safe [] sum h = tt
  with_mode-Safe (c ∷ mode) sum (inl h) = cc
  with_mode-Safe (c ∷ mode) sum (inr h) = let (b, e) = compare_sum-ok sum (c ∷ mode) h in rw e tt

  compute_values-Safe :
      (operators : List (List ℕ)) (mode : List ℕ) (vals : List V)
      → (length vals == 0) ≡ false
      → length vals ≤ suc (length operators)
      → Readable mode
      → Safe (compute_values api operators mode vals)
  compute_values-Safe operators mode [] some_value n r = cc
  compute_values-Safe operators mode (v ∷ vals) some_value n r =
      let (sum, e) = sum_up-ok vals operators v (omega (arith, n)) in
      rw e (with_mode-Safe mode sum r)

  compute_expression-Safe :
      (parts : Parts) (hostname : List ℕ) (val_map : ValMap V)
      → GoodParts parts
      → Safe (compute_expression api parts hostname val_map)
  unfolding compute_expression
  compute_expression-Safe (operands, operators, mode) hostname val_map (n, r) =
      let vals = query_operands operands hostname val_map in
      checked (length operands == 0) (length vals == length operands)
        (compute_values api operators mode vals)
        (λ some_operand same.
          let all = (==_iff (length vals) (length operands)).0 same in
          compute_values-Safe operators mode vals
            (subst (λ k. (k == 0) ≡ false) (sym all) some_operand)
            (subst (λ k. k ≤ suc (length operators)) (sym all) n) r)

  pub side-Safe :
      (need : Bool) (parts : Parts) (hostname : List ℕ) (val_map : ValMap V)
      → GoodSide need parts
      → Safe (side api need parts hostname val_map)
  side-Safe true parts hostname val_map h = compute_expression-Safe parts hostname val_map (h refl)
  side-Safe false parts hostname val_map h = tt

  pub parse-GoodSide :
      (text : List ℕ) (need : Bool)
      → need_compute text ≡ need
      → expression_valid text ≡ true
      → Returns (GoodSide need) (parse text need)
  unfolding parse
  parse-GoodSide text false h v = λ no. (omega arith, inl refl)
  parse-GoodSide text true h v =
      let (parts, e, enough, mode) = parse-Parts text h in
      subst (Returns (GoodSide true)) (sym e)
        (λ y. (enough, subst Readable (sym mode) (valid-Readable text v h)))
