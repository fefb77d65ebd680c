-- ===== src/Graph/Query/Reply.antt =====
-- A reply has one point for each step that was asked for; the items of a gauge that wait in memory
-- are all among the points that are merged.
use mathlib.Core.List.{reverse, reverse-reverse}
use native.Mathlib.Omega.{div_fact, mod_fact}
use ref_falcon.Prelude.{
  ℕ, suc, ◌+◌, ◌-◌, ◌/◌, ◌%◌, ◌^◌, ◌≤◌, ◌<◌, ◌≡◌, ◌≢◌, refl, sym, ap, ◌∙◌, subst, inl, inr, true,
  false, List, [], ◌∷◌, length, none, some, if◌then◌else◌, ok, Returns, Option-cases, arith,
}
use ref_falcon.Prelude.Int.{
  ℤ, pos, pos_part, leb_ℤ, ltb_ℤ, eqb_ℤ, add64, sub64, wrap64, ◌*ℤ◌, int_laws,
}
use ref_falcon.Prelude.Text.{String, codes, str_eq, lookup}
use ref_falcon.Float64.{Float64}
use ref_falcon.Judge.Store.Send.{Among}
use ref_falcon.Nodata.Judging.Times.{rem_pos, sub64_pos}
use ref_falcon.Transfer.Types.{GraphItem}
use ref_falcon.Graph.Keys.{form_rrd_cache_key}
use ref_falcon.Graph.Keys.Worker.{rrd_file_name-ok}
use ref_falcon.Graph.Linked.Reversed.{fetch_all_lem}
use ref_falcon.Graph.Table
use ref_falcon.Graph.Table.{GraphItemMap}
use ref_falcon.Graph.Table.View.{WellFormed, view, bucket_lem}
use ref_falcon.Graph.Table.Effects.{waiting, flag_of}
use ref_falcon.Graph.Query.Merge.{
  RrdData, Floats, is_between, last_of, rounds, gauge_loop, cache_items,
}
use ref_falcon.Graph.Query.Points.{
  add64_pos, Grid, fmt_result-Grid, point_of, times, OnSteps, OnSteps-le, gauge_loop_all,
}
use ref_falcon.Graph.Query.{
  GraphQueryParam, GraphQueryResponse, Sources, start_of, quotient, merge_points, answer_points,
  query,
}

module _ {V : Type 0} where
  last_of-Among :
      (x : GraphItem V) (items : List (GraphItem V)) → Among (last_of x items) (x ∷ items)
  last_of-Among x [] = inl refl
  last_of-Among x (y ∷ items) = inr (last_of-Among y items)

  -- No item is behind the last.
  OnSteps-last :
      (step ts e : ℕ) (x : GraphItem V) (items : List (GraphItem V)) (i : GraphItem V)
      → OnSteps step ts (x ∷ items)
      → (last_of x items).timestamp ≡ pos e
      → Among i (x ∷ items)
      → leb_ℤ i.timestamp (pos e) ≡ true
  OnSteps-last step ts e x [] i o l (inl p) = rw (ap (λ y. y.timestamp) p ∙ l) (ground arith)
  OnSteps-last step ts e x [] i o l (inr a) = absurd a
  OnSteps-last step ts e x (y ∷ items) i (k, at, o) l (inl p) =
      let (m, f) =
        OnSteps-le step (ts + times k step + step) (y ∷ items) (last_of y items) o
          (last_of-Among y items) in
      let later : e ≡ ts + times k step + step + m = ap pos_part (sym l ∙ f) in
      rw (ap (λ y. y.timestamp) p ∙ at) (ground (arith, later))
  OnSteps-last step ts e x (y ∷ items) i (k, at, o) l (inr a) =
      OnSteps-last step (ts + times k step + step) e y items i o l a

  -- With items that begin at some time and lie whole steps of at least 1 apart, and no overflow
  -- behind the last, every item of a gauge that is asked for is among the points of the items in
  -- memory, with its time and its value.
  pub cache_items-all :
      ⦃fl : Float64 V⦄ (fs : Floats V) (s ts e : ℕ) (from to : ℤ) (x : GraphItem V)
      (items : List (GraphItem V)) (i : GraphItem V)
      → x.timestamp ≡ pos ts
      → OnSteps (suc s) ts (x ∷ items)
      → (last_of x items).timestamp ≡ pos e
      → e + suc s < 2 ^ 63
      → Among i (x ∷ items)
      → is_between from to i.timestamp ≡ true
      → Among (point_of i) (cache_items fs "GAUGE" (pos (suc s)) from to x items)
  unfolding cache_items
  cache_items-all fs s ts e from to x items i at o l room a asked =
      let enough : e < ts + rounds (pos ts) (pos e) = omega int_laws in
      let noted : ℤ → ℤ → Type 0 = λ t u.
        Among (point_of i)
          (gauge_loop fs (rounds t u) (pos (suc s)) from to u t (x ∷ items) []).0 in
      subst (λ t. noted t (last_of x items).timestamp) (sym at)
        (subst (noted (pos ts)) (sym l) (
          gauge_loop_all fs s e room from to (rounds (pos ts) (pos e)) ts (x ∷ items) [] i enough o
            a asked (OnSteps-last (suc s) ts e x items i o l a)))

module _ {V : Type 0} ⦃fl : Float64 V⦄ (fs : Floats V) (src : Sources V) where
  -- As many points as there are steps, and one more for a gauge.
  abbrev pub points : String → ℕ → ℕ → ℕ → ℕ
  points ds_type a b s =
      (b - b % suc s + suc s - (a - a % suc s)) / suc s + (if str_eq ds_type "GAUGE" then 1 else 0)

  -- A reply with one point for each step from the start of the step of `a`.
  abbrev pub FullReply : String → ℕ → ℕ → ℕ → GraphQueryResponse V → Type 0
  FullReply ds_type a b s r =
      Grid fs (pos (suc s)) (pos (a - a % suc s)) r.values
      × (length r.values ≡ points ds_type a b s)
      × (r.ds_type ≡ ds_type)
      × (r.step ≡ pos (suc s))

  start_of_pos : (a s : ℕ) → a < 2 ^ 63 → start_of (pos (suc s)) (pos a) ≡ pos (a - a % suc s)
  start_of_pos a s h =
      rw (rem_pos a s) (sub64_pos a (a % suc s) (omega (arith, div_fact a s, mod_fact a s)) h)

  pub fetched :
      (k : String) (m : GraphItemMap V)
      → WellFormed m
      → Table.fetch_all k m ≡ ok (reverse (waiting (view m k)), flag_of (view m k))
  unfolding Table.fetch_all
  fetched k m w =
      let (b, at, e, seen) = bucket_lem k m w in
      elim (Option-cases (lookup k b)) [
        | inl n ↦ (let v : view m k ≡ none = seen ∙ n in rw (e, n, v))
        | inr (sl, s) ↦ (let v : view m k ≡ some sl = seen ∙ s in rw (e, s, v, fetch_all_lem sl))
      ]

  merge_points-Grid :
      (ds_type : String) (step start_ts end_ts : ℤ) (datas : List (RrdData V))
      (items : List (GraphItem V))
      → items ≢ []
      → ltb_ℤ start_ts (sub64 (start_of step src.now) (wrap64 (pos 720 *ℤ step))) ≡ false
      → Grid fs step start_ts (merge_points fs src ds_type step start_ts end_ts datas items)
        × (length (merge_points fs src ds_type step start_ts end_ts datas items)
            ≡ quotient (sub64 end_ts start_ts) step + (if str_eq ds_type "GAUGE" then 1 else 0))
  unfolding merge_points
  merge_points-Grid ds_type step start_ts end_ts datas [] some_item recent = absurd (some_item refl)
  merge_points-Grid ds_type step start_ts end_ts datas (x ∷ items) some_item recent =
      rw (merge_points, recent) (fmt_result-Grid fs _ step start_ts _)

  module _ (param : GraphQueryParam) (m : GraphItemMap V) (ds_type : String) (s a b : ℕ) where
    -- The items that wait under the key of the counter.
    abbrev pub cached : List (GraphItem V)
    cached =
        waiting
          (view m (form_rrd_cache_key (src.md5 param.endpoint param.counter) ds_type (pos (suc s))))

    -- The start is not back behind the 720 steps before now.
    abbrev pub Recent : Type 0
    Recent =
        ltb_ℤ (pos (a - a % suc s))
          (sub64 (start_of (pos (suc s)) src.now) (wrap64 (pos 720 *ℤ pos (suc s))))
        ≡ false

    answer_points-FullReply :
        (end_ts : ℕ)
        → sub64 (pos end_ts) (pos (a - a % suc s)) ≡ pos (b - b % suc s + suc s - (a - a % suc s))
        → WellFormed m
        → 2 ≤ length (codes (src.md5 param.endpoint param.counter))
        → cached ≢ []
        → Recent
        → Returns
            (FullReply ds_type a b s)
            (answer_points fs src param ds_type (pos (suc s)) (pos (a - a % suc s)) (pos end_ts) m)
    unfolding answer_points
    answer_points-FullReply end_ts width w md5 some_item recent =
        let (file, e) =
          rrd_file_name-ok src.storage (codes (src.md5 param.endpoint param.counter))
            (codes ds_type) (pos (suc s)) md5 in
        let get =
          fetched (form_rrd_cache_key (src.md5 param.endpoint param.counter) ds_type (pos (suc s)))
            m w in
        let turned : reverse cached ≢ [] =
          λ nothing. some_item (sym (reverse-reverse cached) ∙ ap reverse nothing) in
        rw (e, get)
          (let (g, l) =
              merge_points-Grid ds_type (pos (suc s)) (pos (a - a % suc s)) (pos end_ts) _
                (reverse cached) turned recent in
            (
              g,
              l
                  ∙ ap (λ z. quotient z (pos (suc s)) + (if str_eq ds_type "GAUGE" then 1 else 0))
                      width,
              refl,
              refl,
            ))

    pub width_lem :
        a - a % suc s < b - b % suc s
        → b + suc s < 2 ^ 62
        → sub64 (pos (b - b % suc s + suc s)) (pos (a - a % suc s))
          ≡ pos (b - b % suc s + suc s - (a - a % suc s))
    width_lem apart room =
        sub64_pos (b - b % suc s + suc s) (a - a % suc s) (omega (arith, apart)) (omega arith)

    -- A query of a known counter that reaches into another step is answered from its points.
    pub query-answer :
        src.get_type_and_step param.endpoint param.counter ≡ some (ds_type, pos (suc s))
        → param.start ≡ pos a
        → param.end ≡ pos b
        → a - a % suc s < b - b % suc s
        → b + suc s < 2 ^ 62
        → query fs src param m
          ≡ answer_points fs src param ds_type
              (pos (suc s))
              (pos (a - a % suc s))
              (pos (b - b % suc s + suc s))
              m
    unfolding query
    query-answer known at_a at_b apart room =
        let b' = b - b % suc s in
        let a' = a - a % suc s in
        let from : start_of (pos (suc s)) param.start ≡ pos a' =
          ap (start_of (pos (suc s))) at_a
          ∙ start_of_pos a s (omega (arith, apart, room, div_fact a s, mod_fact a s)) in
        let to : add64 (start_of (pos (suc s)) param.end) (pos (suc s)) ≡ pos (b' + suc s) =
          ap (λ z. add64 (start_of (pos (suc s)) z) (pos (suc s))) at_b
          ∙ ap (λ z. add64 z (pos (suc s))) (start_of_pos b s (omega arith))
          ∙ add64_pos b' (suc s) (omega arith) in
        let enough : ltb_ℤ (sub64 (sub64 (pos (b' + suc s)) (pos a')) (pos (suc s))) (pos 1)
            ≡ false =
          ap (λ z. ltb_ℤ (sub64 z (pos (suc s))) (pos 1)) (width_lem apart room)
          ∙ ap (λ z. ltb_ℤ z (pos 1))
              (sub64_pos (b' + suc s - a') (suc s) (omega arith) (omega arith))
          ∙ ground arith in
        let step_is : eqb_ℤ (pos (suc s)) (pos 0) ≡ false = ground arith in
        rw (known, step_is, from, to, enough) refl

    -- A known counter with a step of at least 1 and items in memory, asked for a time from 0 on,
    -- with a step behind its end below 2^62, that reaches into another step and not back behind the
    -- 720 steps before now, gets one point for each step, from the start of the step of `start` on.
    pub query-FullReply :
        src.get_type_and_step param.endpoint param.counter ≡ some (ds_type, pos (suc s))
        → param.start ≡ pos a
        → param.end ≡ pos b
        → a - a % suc s < b - b % suc s
        → b + suc s < 2 ^ 62
        → WellFormed m
        → 2 ≤ length (codes (src.md5 param.endpoint param.counter))
        → cached ≢ []
        → Recent
        → Returns (FullReply ds_type a b s) (query fs src param m)
    query-FullReply known at_a at_b apart room w md5 some_item recent =
        subst (Returns (FullReply ds_type a b s)) (sym (query-answer known at_a at_b apart room)) (
          answer_points-FullReply (b - b % suc s + suc s) (width_lem apart room) w md5 some_item
            recent)
