-- ===== src/Aggregator/Run/Average.antt =====
-- WorkerRun returns, and what it pushes is the quotient of the sums over the hosts with values.
use ref_falcon.Prelude.{
  ℕ, suc, ◌+◌, ◌≡◌, refl, sym, ◌∙◌, ap, subst, Bool, true, false, not, ◌&&◌, ◌||◌, List, [], ◌∷◌,
  map, length, Option, none, some, if◌then◌else◌, ◌==◌, Bool-cases, inl, inr, ◌⊎◌, ◌≢◌, arith, Run,
  ok, err, panic, Returns, Returns-bind, Returns-map,
}
use ref_falcon.Prelude.Int.{ℤ, pos, sub64, wrap64, ◌*ℤ◌}
use ref_falcon.Prelude.Text.{codes}
use ref_falcon.Float64.{Float64}
use ref_falcon.Judge.Parse.{bytes_eq}
use ref_falcon.Aggregator.Expression.{
  clean_param, need_compute, expression_valid, parse, operators_valid,
}
use ref_falcon.Aggregator.Run.{
  Parts, ValMap, Cluster, Api, Pushed, query_counter_last, side, host_values, Totals, add_host,
  host_loop, no_totals, final_side, push_quotient, run_hosts, run_group, run_parsed, worker_run,
}
use ref_falcon.Aggregator.Run.Sound.{GoodSide, Safe, side-Safe, parse-GoodSide}

module _ {V : Type 0} ⦃fl : Float64 V⦄ (api : Api V) where
  abbrev pub sum_from : V → List V → V
  sum_from s [] = s
  sum_from s (v ∷ vs) = sum_from (fl.add s v) vs

  module _ (need_n : Bool) (n : Parts) (need_d : Bool) (d : Parts) (val_map : ValMap V) where
    -- The pairs of values of the hosts that have both, in the order of the hosts.
    pub data Pairs : List (List ℕ) → List (V × V) → Type 0 where
      no_host : Pairs [] []
      no_numerator :
          (h : List ℕ) (hs : List (List ℕ)) (vs : List (V × V))
          → side api need_n n h val_map ≡ err
          → Pairs hs vs
          → Pairs (h ∷ hs) vs
      no_denominator :
          (h : List ℕ) (hs : List (List ℕ)) (vs : List (V × V)) (nv : V)
          → side api need_n n h val_map ≡ ok nv
          → side api need_d d h val_map ≡ err
          → Pairs hs vs
          → Pairs (h ∷ hs) vs
      both_values :
          (h : List ℕ) (hs : List (List ℕ)) (vs : List (V × V)) (nv dv : V)
          → side api need_n n h val_map ≡ ok nv
          → side api need_d d h val_map ≡ ok dv
          → Pairs hs vs
          → Pairs (h ∷ hs) ((nv, dv) ∷ vs)

    abbrev HostPair : List ℕ → Option (V × V) → Type 0
    HostPair h none =
        (side api need_n n h val_map ≡ err)
        ⊎ ((nv : V) × (side api need_n n h val_map ≡ ok nv) × (side api need_d d h val_map ≡ err))
    HostPair h (some (nv, dv)) =
        (side api need_n n h val_map ≡ ok nv) × (side api need_d d h val_map ≡ ok dv)

    host_values-Pair :
        (h : List ℕ)
        → GoodSide need_n n
        → GoodSide need_d d
        → Returns (HostPair h) (host_values api need_n n need_d d h val_map)
    unfolding host_values
    host_values-Pair h gn gd =
        both (side api need_n n h val_map) (side api need_d d h val_map) refl refl
          (side-Safe api need_n n h val_map gn) (side-Safe api need_d d h val_map gd)
      where
        both :
            (nv dv : Run V)
            → side api need_n n h val_map ≡ nv
            → side api need_d d h val_map ≡ dv
            → Safe nv
            → Safe dv
            → Returns {A = Option (V × V)} (HostPair h) (elim nv [
              | panic ↦ panic
              | err ↦ ok none
              | ok x ↦ elim dv [ panic ↦ panic | err ↦ ok none | ok y ↦ ok (some (x, y)) ]
            ])
        both (ok n) (ok d) e f a b = (e, f)
        both (ok n) err e f a b = inr (n, e, f)
        both (ok n) panic e f a b = b
        both err dv e f a b = inl e
        both panic dv e f a b = a

    -- The totals after the hosts, from those before.
    pub record Summed (hs : List (List ℕ)) (t t' : Totals api) : Type 0 where
      pub host_pairs : List (V × V)
      pub all : Pairs hs host_pairs
      pub numerator : t'.numerator ≡ sum_from t.numerator (map (λ p. p.0) host_pairs)
      pub denominator : t'.denominator ≡ sum_from t.denominator (map (λ p. p.1) host_pairs)
      pub valid_count : t'.valid_count ≡ length host_pairs + t.valid_count

    joined :
        (h : List ℕ) (hs : List (List ℕ)) (r : Option (V × V)) (t t' : Totals api)
        → HostPair h r
        → Summed hs (add_host api r t) t'
        → Summed (h ∷ hs) t t'
    joined h hs none t t' (inl e) s = record {
      host_pairs = s.host_pairs;
      all = Pairs.no_numerator h hs s.host_pairs e s.all;
      numerator = s.numerator;
      denominator = s.denominator;
      valid_count = s.valid_count;
    }
    joined h hs none t t' (inr (nv, e, f)) s = record {
      host_pairs = s.host_pairs;
      all = Pairs.no_denominator h hs s.host_pairs nv e f s.all;
      numerator = s.numerator;
      denominator = s.denominator;
      valid_count = s.valid_count;
    }
    joined h hs (some (nv, dv)) t t' (e, f) s = record {
      host_pairs = (nv, dv) ∷ s.host_pairs;
      all = Pairs.both_values h hs s.host_pairs nv dv e f s.all;
      numerator = s.numerator;
      denominator = s.denominator;
      valid_count = s.valid_count ∙ omega arith;
    }

    host_loop-Summed :
        (hs : List (List ℕ)) (t : Totals api)
        → GoodSide need_n n
        → GoodSide need_d d
        → Returns (Summed hs t) (host_loop api need_n n need_d d val_map hs t)
    unfolding host_loop
    host_loop-Summed [] t gn gd = record {
      host_pairs = [];
      all = Pairs.no_host;
      numerator = refl;
      denominator = refl;
      valid_count = omega arith;
    }
    host_loop-Summed (h ∷ hs) t gn gd =
        Returns-bind (HostPair h) (Summed (h ∷ hs) t) (host_values api need_n n need_d d h val_map)
          (λ r. host_loop api need_n n need_d d val_map hs (add_host api r t))
          (host_values-Pair h gn gd)
          (λ r p.
            Returns-map (Summed hs (add_host api r t)) (Summed (h ∷ hs) t)
              (host_loop api need_n n need_d d val_map hs (add_host api r t))
              (λ t' s. joined h hs r t t' p s) (host_loop-Summed hs (add_host api r t) gn gd))

  -- The number of a side: the sum of the values of the hosts, the number of the hosts, or what
  -- ParseFloat reads.
  abbrev pub Number : Bool → List ℕ → List V → V → Type 0
  Number true text vals x = x ≡ sum_from (fl.of_int (pos 0)) vals
  Number false text vals x =
      if bytes_eq text (codes "$#")
      then x ≡ fl.of_int (pos (length vals))
      else (api.parse_float text ≡ (x, true))

  final_side-Number :
      (need : Bool) (text : List ℕ) (vals : List V) (total x : V) (valid_count : ℕ)
      → total ≡ sum_from (fl.of_int (pos 0)) vals
      → valid_count ≡ length vals
      → final_side api need text total valid_count ≡ some x
      → Number need text vals x
  final_side-Number true text vals total x valid_count t c e = sym (one e) ∙ t
    where
      one : {a b : V} → some a ≡ some b → a ≡ b
      one h = cc
  final_side-Number false text vals total x valid_count t c e = read (bytes_eq text (codes "$#")) e
    where
      taken : {a b : V} → some a ≡ some b → a ≡ b
      taken h = cc

      number : (r : V × Bool) → (if r.1 then some r.0 else none) ≡ some x → r ≡ (x, true)
      number (v, true) h = ap (λ a. (a, true)) (taken h)
      number (v, false) h = cc

      read :
          (hash : Bool)
          → (if hash
              then some (fl.of_int (pos valid_count))
              else if (api.parse_float text).1
              then some (api.parse_float text).0
              else none)
            ≡ some x
          → if hash then x ≡ fl.of_int (pos (length vals)) else (api.parse_float text ≡ (x, true))
      read true h = sym (taken h) ∙ ap (λ k. fl.of_int (pos k)) c
      read false h = number (api.parse_float text) h

  -- What is pushed for the hosts, with their values.
  pub record Averaged (item : Cluster) (need_n : Bool) (text_n : List ℕ) (n : Parts) (need_d : Bool)
      (text_d : List ℕ) (d : Parts) (hosts : List (List ℕ)) (val_map : ValMap V) (p : Pushed V)
      : Type 0 where
    pub host_pairs : List (V × V)
    pub all : Pairs need_n n need_d d val_map hosts host_pairs
    pub some_pair : host_pairs ≢ []
    pub numerator : V
    pub denominator : V
    pub numerator_is : Number need_n text_n (map (λ q. q.0) host_pairs) numerator
    pub denominator_is : Number need_d text_d (map (λ q. q.1) host_pairs) denominator
    pub not_zero : fl.eq denominator (fl.of_int (pos 0)) ≡ false
    pub value_is : p.value ≡ fl.div numerator denominator
    pub cluster_is : p.cluster ≡ item

  module _ (item : Cluster) (need_n : Bool) (text_n : List ℕ) (n : Parts) (need_d : Bool)
      (text_d : List ℕ) (d : Parts) where
    abbrev IsAverage : List (List ℕ) → ValMap V → Option (Pushed V) → Type 0
    IsAverage hosts val_map none = Unit {0}
    IsAverage hosts val_map (some p) = Averaged item need_n text_n n need_d text_d d hosts val_map p

    push_quotient-Averaged :
        (hosts : List (List ℕ)) (val_map : ValMap V) (t : Totals api)
        → Summed need_n n need_d d val_map hosts (no_totals api) t
        → IsAverage hosts val_map (
            push_quotient api item
              (final_side api need_n text_n t.numerator t.valid_count)
              (final_side api need_d text_d t.denominator t.valid_count)
              t.valid_count)
    unfolding push_quotient
    push_quotient-Averaged hosts val_map t s =
        sides (final_side api need_n text_n t.numerator t.valid_count)
          (final_side api need_d text_d t.denominator t.valid_count) refl refl
      where
        counted : t.valid_count ≡ length s.host_pairs
        counted = omega (arith, s.valid_count)

        of_map : {C : Type 0} (f : V × V → C) (vs : List (V × V)) → length vs ≡ length (map f vs)
        of_map f [] = refl
        of_map f (v ∷ vs) = ap suc (of_map f vs)

        no_pair : (vs : List (V × V)) → (length vs == 0) ≡ false → vs ≢ []
        no_pair vs h e = true_not_false (sym (ap (λ l. length l == 0) e) ∙ h)
          where
            true_not_false : true ≡ false → ⊥
            true_not_false q = cc

        pushed :
            (nv dv : V) (by_zero empty : Bool)
            → final_side api need_n text_n t.numerator t.valid_count ≡ some nv
            → final_side api need_d text_d t.denominator t.valid_count ≡ some dv
            → fl.eq dv (fl.of_int (pos 0)) ≡ by_zero
            → (t.valid_count == 0) ≡ empty
            → IsAverage hosts val_map (
                if by_zero
                then none
                else if empty
                then none
                else some (record { cluster = item; value = fl.div nv dv }))
        pushed nv dv true empty e f z k = tt
        pushed nv dv false true e f z k = tt
        pushed nv dv false false e f z k = record {
          host_pairs = s.host_pairs;
          all = s.all;
          some_pair = no_pair s.host_pairs (subst (λ j. (j == 0) ≡ false) counted k);
          numerator = nv;
          denominator = dv;
          numerator_is =
              final_side-Number need_n text_n (map (λ q. q.0) s.host_pairs) t.numerator nv
                t.valid_count s.numerator (counted ∙ of_map (λ q. q.0) s.host_pairs) e;
          denominator_is =
              final_side-Number need_d text_d (map (λ q. q.1) s.host_pairs) t.denominator dv
                t.valid_count s.denominator (counted ∙ of_map (λ q. q.1) s.host_pairs) f;
          not_zero = z;
          value_is = refl;
          cluster_is = refl;
        }

        sides :
            (a b : Option V)
            → final_side api need_n text_n t.numerator t.valid_count ≡ a
            → final_side api need_d text_d t.denominator t.valid_count ≡ b
            → IsAverage hosts val_map (push_quotient api item a b t.valid_count)
        sides none b e f = tt
        sides (some nv) none e f = tt
        sides (some nv) (some dv) e f =
            pushed nv dv (fl.eq dv (fl.of_int (pos 0))) (t.valid_count == 0) e f refl refl

    -- The answers of the API that a push is made from.
    pub record Asked (now : ℤ) (p : Pushed V) : Type 0 where
      pub hosts : List (List ℕ)
      pub val_map : ValMap V
      pub members : api.hostnames_by_id item.group_id ≡ some hosts
      pub points :
          query_counter_last api n.0 d.0 hosts (sub64 now (wrap64 (item.step *ℤ pos 2))) now
          ≡ some val_map
      pub average : Averaged item need_n text_n n need_d text_d d hosts val_map p

    abbrev pub FromApi : ℤ → Option (Pushed V) → Type 0
    FromApi now none = Unit {0}
    FromApi now (some p) = Asked now p

    asked :
        (now : ℤ) (hosts : List (List ℕ)) (val_map : ValMap V) (r : Option (Pushed V))
        → api.hostnames_by_id item.group_id ≡ some hosts
        → query_counter_last api n.0 d.0 hosts (sub64 now (wrap64 (item.step *ℤ pos 2))) now
          ≡ some val_map
        → IsAverage hosts val_map r
        → FromApi now r
    asked now hosts val_map none h q a = tt
    asked now hosts val_map (some p) h q a = record {
      hosts = hosts;
      val_map = val_map;
      members = h;
      points = q;
      average = a;
    }

    module _ (now : ℤ) (gn : GoodSide need_n n) (gd : GoodSide need_d d) where
      run_hosts-FromApi :
          (hosts : List (List ℕ)) (answer : Option (ValMap V))
          → api.hostnames_by_id item.group_id ≡ some hosts
          → query_counter_last api n.0 d.0 hosts (sub64 now (wrap64 (item.step *ℤ pos 2))) now
            ≡ answer
          → Returns (FromApi now) (run_hosts api item need_n text_n n need_d text_d d hosts answer)
      unfolding run_hosts
      run_hosts-FromApi hosts none h q = tt
      run_hosts-FromApi hosts (some val_map) h q =
          Returns-bind (Summed need_n n need_d d val_map hosts (no_totals api)) (FromApi now)
            (host_loop api need_n n need_d d val_map hosts (no_totals api)) _
            (host_loop-Summed need_n n need_d d val_map hosts (no_totals api) gn gd)
            (λ t s. asked now hosts val_map _ h q (push_quotient-Averaged hosts val_map t s))

      run_group-FromApi :
          (hosts : Option (List (List ℕ)))
          → api.hostnames_by_id item.group_id ≡ hosts
          → Returns (FromApi now) (run_group api now item need_n text_n n need_d text_d d hosts)
      run_group-FromApi none h = tt
      run_group-FromApi (some []) h = tt
      run_group-FromApi (some (x ∷ hs)) h = run_hosts-FromApi (x ∷ hs) _ h refl

      run_parsed-FromApi :
          Returns (FromApi now) (run_parsed api now item need_n text_n n need_d text_d d)
      unfolding run_parsed
      run_parsed-FromApi =
          elim (Bool-cases (not (operators_valid n.1) || not (operators_valid d.1))) [
            | inl bad ↦ rw bad tt
            | inr fine ↦ rw fine (run_group-FromApi (api.hostnames_by_id item.group_id) refl)
          ]

  -- What is pushed comes from the two parsed texts and the answers of the API.
  pub record FromTexts (now : ℤ) (item : Cluster) (p : Pushed V) : Type 0 where
    pub n : Parts
    pub d : Parts
    pub parsed_n :
        parse (clean_param item.numerator) (need_compute (clean_param item.numerator)) ≡ ok n
    pub parsed_d :
        parse (clean_param item.denominator) (need_compute (clean_param item.denominator)) ≡ ok d
    pub from_api :
        Asked item
          (need_compute (clean_param item.numerator))
          (clean_param item.numerator)
          n
          (need_compute (clean_param item.denominator))
          (clean_param item.denominator)
          d
          now
          p

  abbrev pub Pushes : ℤ → Cluster → Option (Pushed V) → Type 0
  Pushes now item none = Unit {0}
  Pushes now item (some p) = FromTexts now item p

  from_texts :
      (now : ℤ) (item : Cluster) (n d : Parts) (r : Option (Pushed V))
      → parse (clean_param item.numerator) (need_compute (clean_param item.numerator)) ≡ ok n
      → parse (clean_param item.denominator) (need_compute (clean_param item.denominator)) ≡ ok d
      → FromApi item
          (need_compute (clean_param item.numerator))
          (clean_param item.numerator)
          n
          (need_compute (clean_param item.denominator))
          (clean_param item.denominator)
          d
          now
          r
      → Pushes now item r
  from_texts now item n d none e f a = tt
  from_texts now item n d (some p) e f a = record {
    n = n;
    d = d;
    parsed_n = e;
    parsed_d = f;
    from_api = a;
  }

  -- What a call ends with is what it is equal to.
  Returns-eq :
      {A : Type 0} (P : A → Type 0) (m : Run A) → Returns P m → Returns (λ a. P a × (m ≡ ok a)) m
  Returns-eq P (ok a) h = (h, refl)
  Returns-eq P err h = absurd h
  Returns-eq P panic h = absurd h

  -- WorkerRun never panics: not on any texts of numerator and denominator, not on any hosts and
  -- points of the API. What it pushes, if anything, is for its item, and is the numerator divided
  -- by the denominator. The hosts are those the API gives for the item's group, the values those
  -- it gives for the operands of both texts from now - 2 * step to now (the subtraction and the
  -- product wrap). The pairs are the values of both sides on each host on which neither side is an
  -- error, in the order of the hosts, and there is at least one pair. A side that needs no
  -- computing has the value 0 on every host. The numerator is the sum of the pairs' first values
  -- when its text needs computing, the number of pairs when the text is "$#", and otherwise the
  -- number that ParseFloat reads in it without an error; the denominator is the same of the second
  -- values, and is not equal to 0.
  pub worker_run-Average :
      (now : ℤ) (item : Cluster) → Returns (Pushes now item) (worker_run api now item)
  unfolding worker_run
  worker_run-Average now item =
      let text_n = clean_param item.numerator in
      let text_d = clean_param item.denominator in
      let need_n = need_compute text_n in
      let need_d = need_compute text_d in
      guarded (expression_valid text_n) (expression_valid text_d) (not need_n && not need_d) _
        (λ vn vd.
          Returns-bind (λ n. GoodSide need_n n × (parse text_n need_n ≡ ok n)) (Pushes now item)
            (parse text_n need_n) _
            (Returns-eq (GoodSide need_n) (parse text_n need_n)
              (parse-GoodSide api text_n need_n refl vn))
            (λ n gn.
              Returns-bind (λ d. GoodSide need_d d × (parse text_d need_d ≡ ok d)) (Pushes now item)
                (parse text_d need_d) _
                (Returns-eq (GoodSide need_d) (parse text_d need_d)
                  (parse-GoodSide api text_d need_d refl vd))
                (λ d gd.
                  Returns-map (FromApi item need_n text_n n need_d text_d d now) (Pushes now item)
                    (run_parsed api now item need_n text_n n need_d text_d d)
                    (λ r a. from_texts now item n d r gn.1 gd.1 a)
                    (run_parsed-FromApi item need_n text_n n need_d text_d d now gn.0 gd.0))))
    where
      guarded :
          (vn vd idle : Bool) (m : Run (Option (Pushed V)))
          → (vn ≡ true → vd ≡ true → Returns (Pushes now item) m)
          → Returns
              (Pushes now item)
              (if not vn || not vd then ok none else if idle then ok none else m)
      guarded false vd idle m h = tt
      guarded true false idle m h = tt
      guarded true true true m h = tt
      guarded true true false m h = h refl refl
