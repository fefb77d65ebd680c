-- ===== src/Transfer/Push/Routed.antt =====
-- Where the values of one call of RecvMetricValues end up, and how they are counted.
use mathlib.Core.List.{append-nil, append_assoc}
use ref_falcon.Prelude.{
  ℕ, zero, suc, ◌+◌, ◌≡◌, refl, sym, ap, ◌∙◌, subst, inl, inr, Bool, true, false, List, [], ◌∷◌,
  ◌++◌, length, Option, none, some, if◌then◌else◌, Run, ok, err, panic, Returns, Returns-bind,
  Returns-map, Returns-both, Bool-cases, Option-cases,
}
use ref_falcon.Prelude.Int.{ℤ, pos, ◌<ℤ◌}
use ref_falcon.Prelude.Text.{String, str_append, str_eq, eq_iff, lookup, insert, lookup-insert}
use ref_falcon.Judge.Types.{Tags, JudgeItem}
use ref_falcon.Judge.Alarm.{is_listed}
use ref_falcon.Float64.{Float64}
use ref_falcon.Judge.Store.Send.{lookup-insert-some}
use ref_falcon.Judge.Rules.Safe.{Each}
use ref_falcon.Transfer.Types.{MetricValue, MetaData, GraphItem}
use ref_falcon.Transfer.Convert.{convert_2_judge_item, convert_2_tsdb_item}
use ref_falcon.Transfer.Receive.{recv_one, recv_loop}
use ref_falcon.Transfer.Receive.Valid.{recv_loop_lem}
use ref_falcon.Transfer.Push.{
  Cluster, Queues, push_judge, push_2_judge_send_queue, push_addrs, count_drop, push_graph,
  push_2_graph_send_queue, push_2_tsdb_send_queue, recv_metric_values,
}
use ref_falcon.Transfer.Push.Delivered.{
  Present, Each-move, JudgeServed, GraphServed, Served, convert_cases, push_graph-Served,
  push_judge-Served, push_2_judge-Served, push_2_graph-Served, push_2_tsdb-Served,
}

-- The values that are taken, in their order.
abbrev pub with_taken : {A : Type 0} → Option A → List A → List A
with_taken none items = items
with_taken (some item) items = item ∷ items

module _ {V : Type 0} ⦃fl : Float64 V⦄ (parse_float : String → Option V) (dicted : String → Tags)
    (now : ℤ) where
  unfoldable pub taken : List (Option (MetricValue V)) → List (MetaData V)
  taken [] = []
  taken (v ∷ args) = with_taken (recv_one parse_float dicted now v) (taken args)

  recv_loop-taken :
      (args : List (Option (MetricValue V))) (items : List (MetaData V)) (invalid : ℕ)
      → (recv_loop parse_float dicted now args items invalid).0 ≡ items ++ taken args
  unfolding recv_loop taken
  recv_loop-taken [] items invalid = sym (append-nil items)
  recv_loop-taken (v ∷ args) items invalid =
      elim (Option-cases (recv_one parse_float dicted now v)) [
        | inl bad ↦ rw (recv_loop, bad) (recv_loop-taken args items (suc invalid))
        | inr (d, good) ↦
            rw (recv_loop, good)
              (recv_loop-taken args (items ++ d ∷ []) invalid
                ∙ append_assoc items (d ∷ []) (taken args))
      ]

module _ {V : Type 0} (c : Cluster V) where
  -- A full queue takes no more.
  abbrev pub offered :
      JudgeItem V → c.Queue (JudgeItem V) → Option (c.Queue (JudgeItem V)) → c.Queue (JudgeItem V)
  offered item q none = q
  offered item q (some q') = q'

  abbrev pub is_for : String → Option String → Bool
  is_for node none = false
  is_for node (some n) = str_eq n node

  abbrev pub deliver_one : String → MetaData V → c.Queue (JudgeItem V) → c.Queue (JudgeItem V)
  deliver_one node item q =
      let new = convert_2_judge_item c.min_step item in
      if is_for node (c.judge_node (c.pk item)) then offered new q (c.push_front new q) else q

  -- The queue of one node after all items: each item of the node is offered to it, in their order.
  unfoldable pub deliver :
      String → List (MetaData V) → c.Queue (JudgeItem V) → c.Queue (JudgeItem V)
  deliver node [] q = q
  deliver node (item ∷ items) q = deliver node items (deliver_one node item q)

  abbrev Routed :
      (c.Queue (JudgeItem V) → c.Queue (JudgeItem V)) → String → Queues c → Queues c → Type 0
  Routed f node st st' =
      (q : c.Queue (JudgeItem V))
      → lookup node st.judge_queues ≡ some q
      → lookup node st'.judge_queues ≡ some (f q)

  one : {A : Type 0} {a b : A} → some a ≡ some b → a ≡ b
  one e = cc

  -- An item of the node n, whose queue q0 refuses it or takes it as q'.
  refused-Routed :
      (item : MetaData V) (n node : String) (q0 q : c.Queue (JudgeItem V)) (st : Queues c)
      → c.judge_node (c.pk item) ≡ some n
      → lookup n st.judge_queues ≡ some q0
      → c.push_front (convert_2_judge_item c.min_step item) q0 ≡ none
      → lookup node st.judge_queues ≡ some q
      → lookup node st.judge_queues ≡ some (deliver_one node item q)
  refused-Routed item n node q0 q st e found full h = elim (Bool-cases (str_eq n node)) [
    | inl same ↦
        let here : q0 ≡ q = one (
          sym (subst (λ x. lookup x st.judge_queues ≡ some q0) ((eq_iff n node).0 same) found)
          ∙ h) in
        let still : c.push_front (convert_2_judge_item c.min_step item) q ≡ none =
          subst (λ x. c.push_front (convert_2_judge_item c.min_step item) x ≡ none) here full in
        h ∙ rw (e, same, still)
    | inr other ↦ h ∙ rw (e, other)
  ]

  pushed-Routed :
      (item : MetaData V) (n node : String) (q0 q' q : c.Queue (JudgeItem V)) (st : Queues c)
      → c.judge_node (c.pk item) ≡ some n
      → lookup n st.judge_queues ≡ some q0
      → c.push_front (convert_2_judge_item c.min_step item) q0 ≡ some q'
      → lookup node st.judge_queues ≡ some q
      → lookup node (insert n q' st.judge_queues) ≡ some (deliver_one node item q)
  pushed-Routed item n node q0 q' q st e found pushed h = elim (Bool-cases (str_eq n node)) [
    | inl same ↦
        let here : q0 ≡ q = one (
          sym (subst (λ x. lookup x st.judge_queues ≡ some q0) ((eq_iff n node).0 same) found)
          ∙ h) in
        let still : c.push_front (convert_2_judge_item c.min_step item) q ≡ some q' =
          subst (λ x. c.push_front (convert_2_judge_item c.min_step item) x ≡ some q') here
            pushed in
        lookup-insert n node q' st.judge_queues ∙ rw (e, same, still)
    | inr other ↦ lookup-insert n node q' st.judge_queues ∙ rw (e, other) h
  ]

  push_judge-Routed :
      (item : MetaData V) (node : String) (st : Queues c)
      → Served c st
      → Returns (Routed (deliver_one node item) node st) (push_judge c item st)
  unfolding push_judge
  push_judge-Routed item node st s = elim (Option-cases (c.judge_node (c.pk item))) [
    | inl unknown ↦ rw (push_judge, unknown) (λ q h. h ∙ rw unknown)
    | inr (n, e) ↦
        let (q0, found) = subst (JudgeServed c st) e (s (c.pk item)).0 in
        elim (Option-cases (c.push_front (convert_2_judge_item c.min_step item) q0)) [
          | inl full ↦
              let result : push_judge c item st
                  ≡ ok (record st { judge_drops = suc st.judge_drops }) =
                rw (push_judge, e, found, full) in
              rw result (λ q h. refused-Routed item n node q0 q st e found full h)
          | inr (q', pushed) ↦
              let result : push_judge c item st
                  ≡ ok (record st { judge_queues = insert n q' st.judge_queues }) =
                rw (push_judge, e, found, pushed) in
              rw result (λ q h. pushed-Routed item n node q0 q' q st e found pushed h)
        ]
  ]

  push_2_judge-Routed :
      (items : List (MetaData V)) (node : String) (st : Queues c)
      → Served c st
      → Returns (Routed (deliver node items) node st) (push_2_judge_send_queue c items st)
  unfolding push_2_judge_send_queue deliver
  push_2_judge-Routed [] node st s = λ q h. h
  push_2_judge-Routed (item ∷ items) node st s =
      Returns-bind _ _ (push_judge c item st) (push_2_judge_send_queue c items)
        (Returns-both (Routed (deliver_one node item) node st) (Served c) _
          (push_judge-Routed item node st s) (push_judge-Served c item st s))
        (λ st1 b.
          Returns-map (Routed (deliver node items) node st1) _ _
            (λ st2 r q h. r (deliver_one node item q) (b.0 q h))
            (push_2_judge-Routed items node st1 b.1))

  -- The other two pushes change no queue of a judge.
  abbrev Same : Queues c → Queues c → Type 0
  Same st st' = st'.judge_queues ≡ st.judge_queues

  count_drop-Same : (st : Queues c) (r : ℕ × Queues c) → Same st r.1 → Same st (count_drop c r)
  count_drop-Same st (zero, st') h = h
  count_drop-Same st (suc n, st') h = h

  push_addrs-Same :
      (item : GraphItem V) (node : String) (addrs : List String) (n : ℕ) (st0 st : Queues c)
      → Each (λ addr. Present (str_append node addr) st.graph_queues) addrs
      → Same st0 st
      → Returns (λ r. Same st0 r.1) (push_addrs c item node addrs n st)
  unfolding push_addrs
  push_addrs-Same item node [] n st0 st e h = h
  push_addrs-Same item node (addr ∷ addrs) n st0 st e h =
      let (q, found) = e.0 in
      elim (Option-cases (c.push_front item q)) [
        | inl full ↦
            rw (push_addrs, found, full) (push_addrs-Same item node addrs (suc n) st0 st e.1 h)
        | inr (q', pushed) ↦
            rw (push_addrs, found, pushed)
              (push_addrs-Same item node addrs n st0 _
                (Each-move c _ _ addrs
                  (λ x p.
                    lookup-insert-some (str_append node addr) (str_append node x) q' st.graph_queues
                      p)
                  e.1)
                h)
      ]

  push_graph-Same :
      (item : MetaData V) (st : Queues c) → Served c st → Returns (Same st) (push_graph c item st)
  unfolding push_graph
  push_graph-Same item st s = elim (convert_cases c c.min_step item) [
    | inr refused ↦ rw (push_graph, refused) refl
    | inl (g, e) ↦ elim (Bool-cases (is_listed g.metric c.ignore_self_metrics)) [
      | inl ignored ↦ rw (push_graph, e, ignored) refl
      | inr wanted ↦ elim (Option-cases (c.graph_node (c.pk item))) [
        | inl unknown ↦ rw (push_graph, e, wanted, unknown) refl
        | inr (node, at) ↦
            let (addrs, known, queues) = subst (GraphServed c st) at (s (c.pk item)).1 in
            rw (e, push_graph, wanted, at, known)
              (Returns-bind (λ r. Same st r.1) (Same st) (push_addrs c g node addrs 0 st) _
                (push_addrs-Same g node addrs 0 st st queues refl) (λ r h. count_drop-Same st r h))
      ]
    ]
  ]

  push_2_graph-Same :
      (items : List (MetaData V)) (st : Queues c)
      → Served c st
      → Returns (Same st) (push_2_graph_send_queue c items st)
  unfolding push_2_graph_send_queue
  push_2_graph-Same [] st s = refl
  push_2_graph-Same (item ∷ items) st s =
      Returns-bind _ _ (push_graph c item st) (push_2_graph_send_queue c items)
        (Returns-both (Same st) (Served c) _ (push_graph-Same item st s)
          (push_graph-Served c item st s))
        (λ st1 b.
          Returns-map (Same st1) (Same st) _ (λ st2 h. h ∙ b.0) (push_2_graph-Same items st1 b.1))

  push_2_tsdb-Same :
      (items : List (MetaData V)) (st : Queues c) → Same st (push_2_tsdb_send_queue c items st)
  unfolding push_2_tsdb_send_queue
  push_2_tsdb-Same [] st = refl
  push_2_tsdb-Same (item ∷ items) st =
      elim (Option-cases (c.push_front (convert_2_tsdb_item item) st.tsdb_queue)) [
        | inl full ↦ rw (push_2_tsdb_send_queue, full) (push_2_tsdb-Same items _)
        | inr (q, pushed) ↦ rw (push_2_tsdb_send_queue, pushed) (push_2_tsdb-Same items _)
      ]

module _ {V : Type 0} (c : Cluster V) ⦃fl : Float64 V⦄ (parse_float : String → Option V)
    (dicted : String → Tags) (now : ℤ) where
  -- What the queue of a judge was offered; nothing, if judge is not enabled.
  abbrev pub to_judge :
      List (Option (MetricValue V)) → String → c.Queue (JudgeItem V) → c.Queue (JudgeItem V)
  to_judge args node q =
      if c.judge_enabled then deliver c node (taken parse_float dicted now args) q else q

  -- Every queue that is looked up is there still; what was not taken is counted as invalid, beside
  -- the total; and each queue of a judge is what it was, with the items of its node offered to it.
  abbrev pub Reply : List (Option (MetricValue V)) → Queues c → ℕ × ℕ × Queues c → Type 0
  Reply args st (invalid, total, st') =
      Served c st'
      × (length (taken parse_float dicted now args) + invalid ≡ length args)
      × (total ≡ length args)
      × ((node : String) (q : c.Queue (JudgeItem V))
          → lookup node st.judge_queues ≡ some q
          → lookup node st'.judge_queues ≡ some (to_judge args node q))

  abbrev Then : Queues c → Queues c → Type 0
  Then st st' = Same c st st' × Served c st'

  graph-Then :
      (enabled : Bool) (items : List (MetaData V)) (st : Queues c)
      → Served c st
      → Returns (Then st) (if enabled then push_2_graph_send_queue c items st else ok st)
  graph-Then true items st s =
      Returns-both (Same c st) (Served c) _ (push_2_graph-Same c items st s)
        (push_2_graph-Served c items st s)
  graph-Then false items st s = (refl, s)

  abbrev Offered : Bool → List (MetaData V) → Queues c → Queues c → Type 0
  Offered enabled items st st' =
      ((node : String) → Routed c (λ q. if enabled then deliver c node items q else q) node st st')
      × Served c st'

  judge-Offered :
      (enabled : Bool) (items : List (MetaData V)) (st : Queues c)
      → Served c st
      → Returns
          (Offered enabled items st)
          (if enabled then push_2_judge_send_queue c items st else ok st)
  judge-Offered true items st s =
      every (push_2_judge_send_queue c items st) (push_2_judge-Served c items st s)
        (λ node. push_2_judge-Routed c items node st s)
    where
      every :
          (m : Run (Queues c))
          → Returns (Served c) m
          → ((node : String) → Returns (Routed c (deliver c node items) node st) m)
          → Returns (Offered true items st) m
      every (ok st') served routed = (routed, served)
      every err served routed = served
      every panic served routed = served
  judge-Offered false items st s = ((λ node q h. h), s)

  tsdb-Then :
      (enabled : Bool) (items : List (MetaData V)) (st : Queues c)
      → Served c st
      → Then st (if enabled then push_2_tsdb_send_queue c items st else st)
  tsdb-Then true items st s = (push_2_tsdb-Same c items st, push_2_tsdb-Served c items st s)
  tsdb-Then false items st s = (refl, s)

  -- At a time after 0, and with a queue for every node of the two rings and for every address of
  -- the nodes of graph, RecvMetricValues returns and leaves such queues. The values that the loop
  -- takes and those that it counts as invalid are all that it is given, which is the total. If
  -- judge is enabled, the queue of each judge is what it was, with the taken values that the ring
  -- sends to this judge pushed to it, converted and in their order, but for those that a full
  -- queue refuses; else it is what it was.
  pub recv_metric_values-Served :
      (args : List (Option (MetricValue V))) (st : Queues c)
      → pos 0 <ℤ now
      → Served c st
      → Returns (Reply args st) (recv_metric_values c parse_float dicted now args st)
  unfolding recv_metric_values
  recv_metric_values-Served args st h s =
      let items = (recv_loop parse_float dicted now args [] 0).0 in
      let good : items ≡ taken parse_float dicted now args =
        recv_loop-taken parse_float dicted now args [] 0 in
      let invalid = (recv_loop parse_float dicted now args [] 0).1 in
      let count : length (taken parse_float dicted now args) + invalid ≡ length args =
        subst (λ xs. length xs + invalid ≡ length args) good
          (recv_loop_lem parse_float dicted now args h).1 in
      Returns-bind (Then st) (Reply args st)
        (if c.graph_enabled then push_2_graph_send_queue c items st else ok st) _
        (graph-Then c.graph_enabled items st s)
        (λ st1 t1.
          Returns-bind (Offered c.judge_enabled (taken parse_float dicted now args) st1)
            (Reply args st)
            (if c.judge_enabled then push_2_judge_send_queue c items st1 else ok st1) _
            (subst
              (λ xs.
                Returns (Offered c.judge_enabled (taken parse_float dicted now args) st1)
                  (if c.judge_enabled then push_2_judge_send_queue c xs st1 else ok st1))
              (sym good)
              (judge-Offered c.judge_enabled (taken parse_float dicted now args) st1 t1.1))
            (λ st2 t2.
              let t3 = tsdb-Then c.tsdb_enabled items st2 t2.1 in
              (
                t3.1,
                count,
                refl,
                λ node q at. ap (lookup node) t3.0 ∙ t2.0 node q (ap (lookup node) t1.0 ∙ at),
              )))
