-- ===== src/Transfer/Push/Delivered.antt =====
-- No push meets a missing queue when the queues are those of the nodes.
use ref_falcon.Prelude.{
  ℕ, zero, suc, ◌+◌, ◌≤◌, ◌≡◌, refl, subst, ◌||◌, ◌⊎◌, inl, inr, Bool, false, List, [], ◌∷◌, Option,
  none, some, arith, ok, err, Returns, Returns-bind, Bool-cases, Option-cases,
}
use ref_falcon.Prelude.Int.{ℤ}
use ref_falcon.Prelude.Text.{String, str_append, str_eq, lookup, insert}
use ref_falcon.Judge.Alarm.{is_listed}
use ref_falcon.Judge.Store.Send.{lookup-insert-some}
use ref_falcon.Judge.Rules.Safe.{Each}
use ref_falcon.Transfer.Types.{MetaData, GraphItem}
use ref_falcon.Transfer.Convert.{
  graph_item, convert_2_judge_item, convert_2_graph_item, convert_2_tsdb_item,
}
use ref_falcon.Transfer.Push.{
  Cluster, Queues, push_judge, push_2_judge_send_queue, push_addrs, count_drop, push_graph,
  push_2_graph_send_queue, push_2_tsdb_send_queue, send_attempts,
}

-- Something is under the key.
abbrev pub Present : {A : Type 0} → String → List (String × A) → Type 0
Present {A = A} k m = (a : A) × (lookup k m ≡ some a)

module _ {V : Type 0} (c : Cluster V) where
  -- A node of the ring of judges has a queue.
  abbrev pub JudgeServed : Queues c → Option String → Type 0
  JudgeServed st none = Unit {0}
  JudgeServed st (some node) = Present node st.judge_queues

  -- A node of the ring of graphs is configured, and each of its addresses has a queue.
  abbrev pub GraphServed : Queues c → Option String → Type 0
  GraphServed st none = Unit {0}
  GraphServed st (some node) =
      (addrs : List String) × (lookup node c.cluster_list ≡ some addrs)
      × Each (λ addr. Present (str_append node addr) st.graph_queues) addrs

  abbrev pub Served : Queues c → Type 0
  Served st = (p : String) → JudgeServed st (c.judge_node p) × GraphServed st (c.graph_node p)

  JudgeServed-move :
      (st st' : Queues c) (o : Option String)
      → ((k : String) → Present k st.judge_queues → Present k st'.judge_queues)
      → JudgeServed st o
      → JudgeServed st' o
  JudgeServed-move st st' none f s = tt
  JudgeServed-move st st' (some node) f s = f node s

  pub Each-move :
      (P Q : String → Type 0) (xs : List String)
      → ((x : String) → P x → Q x)
      → Each P xs
      → Each Q xs
  Each-move P Q [] f e = tt
  Each-move P Q (x ∷ xs) f e = (f x e.0, Each-move P Q xs f e.1)

  GraphServed-move :
      (st st' : Queues c) (o : Option String)
      → ((k : String) → Present k st.graph_queues → Present k st'.graph_queues)
      → GraphServed st o
      → GraphServed st' o
  GraphServed-move st st' none f s = tt
  GraphServed-move st st' (some node) f s =
      (s.0, s.1, Each-move _ _ s.0 (λ x. f (str_append node x)) s.2)

  Served-move :
      (st st' : Queues c)
      → ((k : String) → Present k st.judge_queues → Present k st'.judge_queues)
      → ((k : String) → Present k st.graph_queues → Present k st'.graph_queues)
      → Served st
      → Served st'
  Served-move st st' f g s p = (
    JudgeServed-move st st' (c.judge_node p) f (s p).0,
    GraphServed-move st st' (c.graph_node p) g (s p).1,
  )

  pub push_judge-Served :
      (item : MetaData V) (st : Queues c) → Served st → Returns Served (push_judge c item st)
  unfolding push_judge
  push_judge-Served item st s = elim (Option-cases (c.judge_node (c.pk item))) [
    | inl unknown ↦ rw (unknown, push_judge) s
    | inr (node, e) ↦
        let (q, found) = subst (JudgeServed st) e (s (c.pk item)).0 in
        elim (Option-cases (c.push_front (convert_2_judge_item c.min_step item) q)) [
          | inl full ↦
              rw (e, push_judge, found, full)
                (Served-move st (record st { judge_drops = suc st.judge_drops }) (λ k p. p)
                  (λ k p. p) s)
          | inr (q', pushed) ↦
              rw (e, push_judge, found, pushed)
                (Served-move st (record st { judge_queues = insert node q' st.judge_queues })
                  (λ k p. lookup-insert-some node k q' st.judge_queues p) (λ k p. p) s)
        ]
  ]

  pub push_2_judge-Served :
      (items : List (MetaData V)) (st : Queues c)
      → Served st
      → Returns Served (push_2_judge_send_queue c items st)
  unfolding push_2_judge_send_queue
  push_2_judge-Served [] st s = s
  push_2_judge-Served (item ∷ items) st s =
      Returns-bind Served Served _ _ (push_judge-Served item st s)
        (λ st' s'. push_2_judge-Served items st' s')

  push_addrs-Served :
      (item : GraphItem V) (node : String) (addrs : List String) (n : ℕ) (st : Queues c)
      → Each (λ addr. Present (str_append node addr) st.graph_queues) addrs
      → Served st
      → Returns (λ r. Served r.1) (push_addrs c item node addrs n st)
  unfolding push_addrs
  push_addrs-Served item node [] n st e s = s
  push_addrs-Served item node (addr ∷ addrs) n st e s =
      let (q, found) = e.0 in
      elim (Option-cases (c.push_front item q)) [
        | inl full ↦
            rw (push_addrs, found, full) (push_addrs-Served item node addrs (suc n) st e.1 s)
        | inr (q', pushed) ↦
            let move = λ (k : String) (p : Present k st.graph_queues).
              lookup-insert-some (str_append node addr) k q' st.graph_queues p in
            rw (push_addrs, found, pushed)
              (push_addrs-Served item node addrs n _
                (Each-move _ _ addrs (λ x. move (str_append node x)) e.1)
                (Served-move st
                  (record st { graph_queues = insert (str_append node addr) q' st.graph_queues })
                  (λ k p. p) move s))
      ]

  count_drop-Served : (r : ℕ × Queues c) → Served r.1 → Served (count_drop c r)
  count_drop-Served (zero, st) s = s
  count_drop-Served (suc n, st) s =
      Served-move st (record st { graph_drops = suc st.graph_drops }) (λ k p. p) (λ k p. p) s

  pub convert_cases :
      (m : ℤ) (d : MetaData V)
      → ((g : GraphItem V) × (convert_2_graph_item m d ≡ ok g)) ⊎ (convert_2_graph_item m d ≡ err)
  unfolding convert_2_graph_item
  convert_cases m d = elim (Bool-cases (str_eq d.counter_type "GAUGE")) [
    | inl e ↦ inl (graph_item m d d.counter_type "U" "U", rw (e, convert_2_graph_item))
    | inr n ↦ elim (Bool-cases (str_eq d.counter_type "COUNTER")) [
      | inl e ↦ inl (graph_item m d "DERIVE" "0" "U", rw (n, e, convert_2_graph_item))
      | inr p ↦ elim (Bool-cases (str_eq d.counter_type "DERIVE")) [
        | inl e ↦ inl (graph_item m d "DERIVE" "0" "U", rw (n, p, e, convert_2_graph_item))
        | inr q ↦ inr (rw (n, p, q, convert_2_graph_item))
      ]
    ]
  ]

  pub push_graph-Served :
      (item : MetaData V) (st : Queues c) → Served st → Returns Served (push_graph c item st)
  unfolding push_graph
  push_graph-Served item st s = elim (convert_cases c.min_step item) [
    | inr refused ↦ rw (refused, push_graph) s
    | inl (g, e) ↦ elim (Bool-cases (is_listed g.metric c.ignore_self_metrics)) [
      | inl ignored ↦ rw (e, push_graph, ignored) s
      | inr wanted ↦ elim (Option-cases (c.graph_node (c.pk item))) [
        | inl unknown ↦ rw (e, push_graph, wanted, unknown) s
        | inr (node, at) ↦
            let (addrs, known, queues) = subst (GraphServed st) at (s (c.pk item)).1 in
            rw (e, push_graph, wanted, at, known)
              (Returns-bind (λ r. Served r.1) Served (push_addrs c g node addrs 0 st) _
                (push_addrs-Served g node addrs 0 st queues s)
                (λ r served. count_drop-Served r served))
      ]
    ]
  ]

  pub push_2_graph-Served :
      (items : List (MetaData V)) (st : Queues c)
      → Served st
      → Returns Served (push_2_graph_send_queue c items st)
  unfolding push_2_graph_send_queue
  push_2_graph-Served [] st s = s
  push_2_graph-Served (item ∷ items) st s =
      Returns-bind Served Served _ _ (push_graph-Served item st s)
        (λ st' s'. push_2_graph-Served items st' s')

  pub push_2_tsdb-Served :
      (items : List (MetaData V)) (st : Queues c)
      → Served st
      → Served (push_2_tsdb_send_queue c items st)
  unfolding push_2_tsdb_send_queue
  push_2_tsdb-Served [] st s = s
  push_2_tsdb-Served (item ∷ items) st s =
      elim (Option-cases (c.push_front (convert_2_tsdb_item item) st.tsdb_queue)) [
        | inl full ↦
            rw (full, push_2_tsdb_send_queue)
              (push_2_tsdb-Served items (record st { tsdb_drops = suc st.tsdb_drops })
                (Served-move st (record st { tsdb_drops = suc st.tsdb_drops }) (λ k p. p) (λ k p. p)
                  s))
        | inr (q, pushed) ↦
            rw (pushed, push_2_tsdb_send_queue)
              (push_2_tsdb-Served items (record st { tsdb_queue = q })
                (Served-move st (record st { tsdb_queue = q }) (λ k p. p) (λ k p. p) s))
      ]

-- One of the next attempts is answered.
abbrev pub answered : (ℕ → Bool) → ℕ → ℕ → Bool
answered call zero i = false
answered call (suc left) i = call i || answered call left (suc i)

-- A batch counts as sent exactly when one of the attempts that are left is answered; no call comes
-- after that, and there are never more calls than attempts.
pub send_attempts_lem :
    (call : ℕ → Bool) (left i : ℕ)
    → ((send_attempts call left i).0 ≡ answered call left i)
      × ((send_attempts call left i).1 ≤ i + left)
unfolding send_attempts
send_attempts_lem call zero i = (refl, omega arith)
send_attempts_lem call (suc left) i =
    let rest = send_attempts_lem call left (suc i) in
    elim (Bool-cases (call i)) [
      | inl yes_call ↦ rw (yes_call, send_attempts) (refl, omega arith)
      | inr no_call ↦ rw (no_call, send_attempts) (rest.0, omega (arith, rest.1))
    ]
