-- ===== src/Graph/Query/Replied.antt =====
-- The points in memory and the rows before them go through the merge into the reply.
use ref_falcon.Prelude.{
  ℕ, suc, ◌⊎◌, ◌+◌, ◌-◌, ◌/◌, ◌^◌, ◌≤◌, ◌<◌, ◌≡◌, sym, ap, ◌∙◌, subst, inl, inr, true, false, List,
  [], ◌∷◌, Bool-cases, ltb, arith,
}
use ref_falcon.Prelude.Int.{ℤ, pos, leb_ℤ, ltb_ℤ}
use ref_falcon.Float64.{Float64}
use ref_falcon.Judge.Store.Send.{Among}
use ref_falcon.Transfer.Types.{GraphItem}
use ref_falcon.Graph.Query.Merge.{
  RrdData, Floats, between, last_of, rounds, gauge_loop, cache_items, merge, fmt_result,
}
use ref_falcon.Graph.Query.Points.{times, OnSteps}
use ref_falcon.Graph.Query.Rows.{Rows, Rows-time, fmt_result_keep}
use ref_falcon.Graph.Query.Filled.{times_add, times_le, between-Rows, between_keep}
use ref_falcon.Graph.Query.Merged.{merged-Placed}
use ref_falcon.Graph.Query.Noted.{
  Among-get_elem?, get_elem?-Among, noted-first, times_quotient, quotient_times, aligned,
}

module _ {V : Type 0} (s : ℕ) where
  -- Items whose times are starts of steps, each later than the one before it, the last one not
  -- within a step of the overflow.
  pub record InOrder (x : GraphItem V) (items : List (GraphItem V)) : Type 0 where
    pub j : ℕ
    pub e : ℕ
    pub first : x.timestamp ≡ pos (times j (suc s))
    pub steps : OnSteps (suc s) (times j (suc s)) (x ∷ items)
    pub last : (last_of x items).timestamp ≡ pos e
    pub room : e + suc s < 2 ^ 63

module _ {V : Type 0} ⦃fl : Float64 V⦄ (fs : Floats V) (s : ℕ) where
  module _ (a e h : ℕ) (start : a ≡ times h (suc s)) (le : a ≤ e) (room : e + suc s < 2 ^ 63)
      (x : GraphItem V) (items : List (GraphItem V)) (o : InOrder s x items)
      (file : List (RrdData V)) (rows : Rows s a file) where
    abbrev pub places : ℕ
    places = (e - a) / suc s + 1

    abbrev pub replied : List (RrdData V) → List (RrdData V)
    replied cache =
        fmt_result fs places (pos (suc s)) (pos a)
          (merge fs (pos (suc s)) (pos a) (pos e) file cache)

    in_places : (q : ℕ) → a + times q (suc s) ≤ e → q < places
    in_places q h = omega (arith, times_quotient q (e - a) s (omega (arith, h)))

    no_overflow : a + times places (suc s) < 2 ^ 63
    no_overflow =
        let one : places ≡ suc ((e - a) / suc s) = omega arith in
        let up : times places (suc s) ≡ suc s + times ((e - a) / suc s) (suc s) =
          ap (λ k. times k (suc s)) one in
        omega (arith, up, quotient_times (e - a) s, room, le)

    reached_by :
        (d : RrdData V) (t u : ℕ) → d.timestamp ≡ pos t → leb_ℤ d.timestamp (pos u) ≡ true → t ≤ u
    reached_by d t u at h =
        let g : leb_ℤ (pos t) (pos u) ≡ true = subst (λ z. leb_ℤ z (pos u) ≡ true) at h in
        ground (arith, g)

    -- The points in memory that are numbers, and the rows before the first item, are replied.
    pub record Replied (cache : List (RrdData V)) : Type 0 where
      pub memory :
          (d : RrdData V)
          → Among d cache
          → fs.is_nan d.value ≡ false
          → leb_ℤ d.timestamp (pos e) ≡ true
          → Among d (replied cache)
      pub earlier :
          (d : RrdData V)
          → Among d file
          → ltb_ℤ d.timestamp x.timestamp ≡ true
          → leb_ℤ d.timestamp (pos e) ≡ true
          → Among d (replied cache)

    from_file : Replied []
    unfolding merge
    from_file = record {
      memory = λ d a n l. absurd a;
      earlier = λ d among b l.
          let (i, g) = Among-get_elem? d file among in
          let inside = reached_by d (a + times i (suc s)) e (Rows-time s a i file d rows g) l in
          get_elem?-Among d _ i (
            fmt_result_keep s fs places a i (between (pos a) (pos e) file) d
              (between-Rows s a e a file (omega arith) rows)
              (between_keep s a e a i file d (omega arith) rows g inside) (in_places i inside)
              no_overflow);
    }

    from_both :
        (p k : ℕ) (c : RrdData V) (cache : List (RrdData V))
        → times o.j (suc s) + times k (suc s) ≡ a + times p (suc s)
        → a + times p (suc s) ≤ e
        → Rows s (a + times p (suc s)) (c ∷ cache)
        → Replied (c ∷ cache)
    unfolding merge
    from_both p k c cache sum inside_p (at, later) =
        let m = between (pos a) (pos e) file in
        let placed =
          merged-Placed s fs a p (omega (arith, inside_p, room)) c cache at later m
            (between-Rows s a e a file (omega arith) rows) in
        record {
          memory = λ d among n l.
              let (i, g) = Among-get_elem? d (c ∷ cache) among in
              let inside =
                reached_by d _ e (Rows-time s (a + times p (suc s)) i (c ∷ cache) d (at, later) g)
                  l in
              get_elem?-Among d _ (p + i) (
                placed.there places i d g n
                  (in_places (p + i) (omega (arith, inside, times_add p i (suc s)))) no_overflow);
          earlier = λ d among b l.
              let (i, g) = Among-get_elem? d file among in
              let t = Rows-time s a i file d rows g in
              let inside = reached_by d (a + times i (suc s)) e t l in
              get_elem?-Among d _ i (
                placed.kept places i d (sooner d i t b)
                  (between_keep s a e a i file d (omega arith) rows g inside) (in_places i inside)
                  no_overflow);
        }
      where
        sooner :
            (d : RrdData V) (i : ℕ)
            → d.timestamp ≡ pos (a + times i (suc s))
            → ltb_ℤ d.timestamp x.timestamp ≡ true
            → i < p
        sooner d i t b =
            let g : ltb_ℤ (pos (a + times i (suc s))) (pos (times o.j (suc s))) ≡ true =
              subst (λ z. ltb_ℤ (pos (a + times i (suc s))) z ≡ true) o.first
                (subst (λ z. ltb_ℤ z x.timestamp ≡ true) t b) in
            elim (Bool-cases (ltb i p)) [
              | inl lt ↦ ground (arith, lt)
              | inr ge ↦
                  let up : p ≤ i = ground (arith, ge) in
                  absurd (ground (arith, g, sum, times_le p i (suc s) up))
            ]

    abbrev first_rounds : ℕ
    first_rounds = rounds (pos (times o.j (suc s))) (pos o.e)

    cache_items_lem :
        cache_items fs "GAUGE" (pos (suc s)) (pos a) (pos e) x items
        ≡ (gauge_loop fs first_rounds
            (pos (suc s))
            (pos a)
            (pos e)
            (pos o.e)
            (pos (times o.j (suc s)))
            (x ∷ items)
            []).0
    unfolding cache_items
    cache_items_lem =
        let loop : ℤ → ℤ → List (RrdData V) =
          λ t u. (gauge_loop fs (rounds t u) (pos (suc s)) (pos a) (pos e) u t (x ∷ items) []).0 in
        ap (λ t. loop t (last_of x items).timestamp) o.first
        ∙ ap (λ u. loop (pos (times o.j (suc s))) u) o.last

    pub cache_items-Replied : Replied (cache_items fs "GAUGE" (pos (suc s)) (pos a) (pos e) x items)
    cache_items-Replied =
        let (k, r, b) =
          noted-first fs s o.e o.room a e first_rounds (times o.j (suc s)) (x ∷ items) in
        subst Replied (sym cache_items_lem) (on_cache k _ r b)
      where
        on_cache :
            (k : ℕ) (cache : List (RrdData V))
            → Rows s (times o.j (suc s) + times k (suc s)) cache
            → ((a ≤ times o.j (suc s) + times k (suc s))
                × (times o.j (suc s) + times k (suc s) ≤ e))
              ⊎ (cache ≡ [])
            → Replied cache
        on_cache k [] r b = from_file
        on_cache k (c ∷ cache) r (inr nothing) = cc
        on_cache k (c ∷ cache) r (inl (from, to)) =
            let (p, sum) = aligned h o.j k s (omega (arith, from, start)) in
            let at : times o.j (suc s) + times k (suc s) ≡ a + times p (suc s) =
              omega (arith, sum, start) in
            from_both p k c cache at (omega (arith, to, at))
              (subst (λ t. Rows s t (c ∷ cache)) at r)
