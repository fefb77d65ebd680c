-- ===== src/Graph/Query/Points.antt =====
-- The points that a query answers: one for each step, and every item in memory among them.
use ref_falcon.Prelude.{
  ℕ, zero, suc, ◌+◌, ◌^◌, ◌≤◌, ◌<◌, ◌≡◌, refl, sym, ap, ◌∙◌, subst, inl, inr, true, false, List, [],
  ◌∷◌, ◌++◌, length, Bool-cases, arith,
}
use ref_falcon.Prelude.Int.{ℤ, pos, ◌+ℤ◌, leb_ℤ, eqb_ℤ, eqb_ℤ→eq, add64, add64-id, int_laws}
use ref_falcon.Judge.Store.Send.{Among}
use ref_falcon.Transfer.Types.{GraphItem}
use ref_falcon.Graph.Flush.Flushable.{Among-append, Among-last}
use ref_falcon.Graph.Query.Merge.{
  RrdData, Floats, is_between, append_between, gauge_loop, point_at, fmt_result,
}

pub add64_pos : (a b : ℕ) → a + b < 2 ^ 63 → add64 (pos a) (pos b) ≡ pos (a + b)
add64_pos a b h =
    let e : pos a +ℤ pos b ≡ pos (a + b) = omega int_laws in
    add64-id (pos a) (pos b) (rw e (omega arith, omega arith)) ∙ e

abbrev pub times : ℕ → ℕ → ℕ
times zero step = 0
times (suc k) step = step + times k step

module _ {V : Type 0} (fs : Floats V) where
  -- One point for each step from ts on.
  abbrev pub Grid : ℤ → ℤ → List (RrdData V) → Type 0
  Grid step ts [] = Unit {0}
  Grid step ts (d ∷ l) = (d.timestamp ≡ ts) × Grid step (add64 ts step) l

  point_at_lem : (ts : ℤ) (merged : List (RrdData V)) → (point_at fs ts merged).0.timestamp ≡ ts
  point_at_lem ts [] = refl
  point_at_lem ts (d ∷ merged) = elim (Bool-cases (eqb_ℤ ts d.timestamp)) [
    | inl same ↦ rw same (sym (eqb_ℤ→eq ts d.timestamp same))
    | inr other ↦ rw other
  ]

  pub fmt_result-Grid :
      (n : ℕ) (step ts : ℤ) (merged : List (RrdData V))
      → Grid step ts (fmt_result fs n step ts merged)
        × (length (fmt_result fs n step ts merged) ≡ n)
  unfolding fmt_result
  fmt_result-Grid zero step ts merged = (tt, refl)
  fmt_result-Grid (suc n) step ts merged =
      let (g, l) = fmt_result-Grid n step (add64 ts step) (point_at fs ts merged).1 in
      ((point_at_lem ts merged, g), ap suc l)

  append_between_more :
      (from to ts : ℤ) (v : V) (cache : List (RrdData V)) (d : RrdData V)
      → Among d cache
      → Among d (append_between from to ts v cache)
  append_between_more from to ts v cache d a = elim (Bool-cases (is_between from to ts)) [
    | inl asked ↦ rw asked (Among-append d cache _ a)
    | inr other ↦ rw other a
  ]

  -- A point that was noted stays noted.
  gauge_loop_more :
      (n : ℕ) (step from to e ts : ℤ) (items : List (GraphItem V)) (cache : List (RrdData V))
      (d : RrdData V)
      → Among d cache
      → Among d (gauge_loop fs n step from to e ts items cache).0
  unfolding gauge_loop
  gauge_loop_more zero step from to e ts items cache d a = a
  gauge_loop_more (suc n) step from to e ts items cache d a = elim (Bool-cases (leb_ℤ ts e)) [
    | inl go ↦
        rw (gauge_loop, go)
          (gauge_loop_more n step from to e (add64 ts step) _ _ d
            (append_between_more from to ts _ cache d a))
    | inr stop ↦ rw (gauge_loop, stop) a
  ]

module _ {V : Type 0} where
  abbrev pub point_of : GraphItem V → RrdData V
  point_of item = record { timestamp = item.timestamp; value = item.value }

  -- The times of the items are ts and later ones, whole steps apart.
  abbrev pub OnSteps : ℕ → ℕ → List (GraphItem V) → Type 0
  OnSteps step ts [] = Unit {0}
  OnSteps step ts (a ∷ items) =
      (k : ℕ) × (a.timestamp ≡ pos (ts + times k step))
      × OnSteps step (ts + times k step + step) items

  pub OnSteps-le :
      (step ts : ℕ) (items : List (GraphItem V)) (i : GraphItem V)
      → OnSteps step ts items
      → Among i items
      → (m : ℕ) × (i.timestamp ≡ pos (ts + m))
  OnSteps-le step ts [] i o a = absurd a
  OnSteps-le step ts (x ∷ items) i (k, e, o) (inl p) = (times k step, ap (λ y. y.timestamp) p ∙ e)
  OnSteps-le step ts (x ∷ items) i (k, e, o) (inr a) =
      let (m, f) = OnSteps-le step (ts + times k step + step) items i o a in
      (times k step + step + m, f ∙ ap pos (omega arith))

module _ {V : Type 0} (fs : Floats V) (s e : ℕ) (room : e + suc s < 2 ^ 63) (from to : ℤ) where
  -- The rounds are enough: the loop ends behind the last item.
  pub gauge_loop_end :
      (n ts : ℕ) (items : List (GraphItem V)) (cache : List (RrdData V))
      → e < ts + n
      → leb_ℤ (gauge_loop fs n (pos (suc s)) from to (pos e) (pos ts) items cache).1 (pos e) ≡ false
  unfolding gauge_loop
  gauge_loop_end zero ts items cache h = ground arith
  gauge_loop_end (suc n) ts items cache h = elim (Bool-cases (leb_ℤ (pos ts) (pos e))) [
    | inl go ↦
        let next = add64_pos ts (suc s) (ground (arith, go, room)) in
        rw (gauge_loop, go, next) (gauge_loop_end n (ts + suc s) _ _ (omega (arith, h)))
    | inr stop ↦ rw (gauge_loop, stop) stop
  ]

  reached :
      (ts : ℕ) (items : List (GraphItem V)) (i : GraphItem V)
      → OnSteps (suc s) ts items
      → Among i items
      → leb_ℤ i.timestamp (pos e) ≡ true
      → ts ≤ e
  reached ts items i o a early =
      let (m, f) = OnSteps-le (suc s) ts items i o a in
      let le : leb_ℤ (pos (ts + m)) (pos e) ≡ true = subst (λ z. leb_ℤ z (pos e) ≡ true) f early in
      ground (arith, le)

  noted :
      {ts : ℕ} (cache : List (RrdData V)) (i x : GraphItem V)
      → i ≡ x
      → x.timestamp ≡ pos ts
      → is_between from to i.timestamp ≡ true
      → Among (point_of i) (append_between from to (pos ts) x.value cache)
  noted {ts = ts} cache i x p now asked =
      let at = ap (λ y. y.timestamp) p ∙ now in
      let b : is_between from to (pos ts) ≡ true =
        subst (λ z. is_between from to z ≡ true) at asked in
      let point : ℤ → RrdData V = λ z. record { timestamp = z; value = x.value } in
      let same : point x.timestamp ≡ point (pos ts) = ap point now in
      rw b (
        subst (λ d. Among d (cache ++ record { timestamp = pos ts; value = x.value } ∷ []))
          (sym (ap point_of p ∙ same)) (Among-last _ cache))

  -- Every item that is asked for is noted.
  pub gauge_loop_all :
      (n ts : ℕ) (items : List (GraphItem V)) (cache : List (RrdData V)) (i : GraphItem V)
      → e < ts + n
      → OnSteps (suc s) ts items
      → Among i items
      → is_between from to i.timestamp ≡ true
      → leb_ℤ i.timestamp (pos e) ≡ true
      → Among (point_of i) (gauge_loop fs n (pos (suc s)) from to (pos e) (pos ts) items cache).0
  unfolding gauge_loop
  gauge_loop_all n ts [] cache i h o a asked early = absurd a
  gauge_loop_all zero ts (x ∷ items) cache i h o a asked early =
      absurd (ground (arith, reached ts (x ∷ items) i o a early, h))
  gauge_loop_all (suc n) ts (x ∷ items) cache i h (zero, at, o) a asked early =
      let le = reached ts (x ∷ items) i (zero, at, o) a early in
      let go : leb_ℤ (pos ts) (pos e) ≡ true = ground (arith, le) in
      let next = add64_pos ts (suc s) (omega (arith, le, room)) in
      let now : x.timestamp ≡ pos ts = at ∙ ap pos (omega arith) in
      let hit : eqb_ℤ (pos ts) x.timestamp ≡ true = rw now (ground arith) in
      rw (gauge_loop, go, next, hit)
        (elim a [
          | inl p ↦
              gauge_loop_more fs n (pos (suc s)) from to (pos e) (pos (ts + suc s)) items _
                (point_of i) (noted cache i x p now asked)
          | inr later ↦
              gauge_loop_all n (ts + suc s) items _ i (omega (arith, h))
                (subst (λ t. OnSteps (suc s) t items) (omega arith) o) later asked early
        ])
  gauge_loop_all (suc n) ts (x ∷ items) cache i h (suc k, at, o) a asked early =
      let le = reached ts (x ∷ items) i (suc k, at, o) a early in
      let go : leb_ℤ (pos ts) (pos e) ≡ true = ground (arith, le) in
      let next = add64_pos ts (suc s) (omega (arith, le, room)) in
      let miss : eqb_ℤ (pos ts) x.timestamp ≡ false = rw at (ground arith) in
      rw (gauge_loop, go, next, miss)
        (gauge_loop_all n (ts + suc s) (x ∷ items) _ i (omega (arith, h))
          (k, at ∙ ap pos (omega arith), subst (λ t. OnSteps (suc s) t items) (omega arith) o) a
          asked early)
