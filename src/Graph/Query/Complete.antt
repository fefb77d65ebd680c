-- ===== src/Graph/Query/Complete.antt =====
-- A reply for a gauge has the items in memory and the rows of the file before them.
use mathlib.Core.List.{reverse}
use ref_falcon.Prelude.{
  ◌&&◌, ℕ, suc, ◌+◌, ◌-◌, ◌/◌, ◌%◌, ◌^◌, ◌≤◌, ◌<◌, ◌≡◌, refl, sym, ap, ◌∙◌, subst, Bool, true,
  false, List, [], ◌∷◌, length, some, ok, Returns, Returns-both, arith, if◌then◌else◌,
}
use ref_falcon.Prelude.Int.{pos, leb_ℤ, ltb_ℤ, sub64}
use ref_falcon.Prelude.Text.{codes}
use ref_falcon.Float64.{Float64}
use ref_falcon.Judge.Store.Send.{Among}
use ref_falcon.Transfer.Types.{GraphItem}
use ref_falcon.Graph.Keys.{form_rrd_cache_key, rrd_file_name}
use ref_falcon.Graph.Table
use ref_falcon.Graph.Table.{GraphItemMap}
use ref_falcon.Graph.Table.View.{WellFormed, view}
use ref_falcon.Graph.Table.Effects.{flag_of}
use ref_falcon.Graph.Query.Merge.{RrdData, Floats, is_between}
use ref_falcon.Graph.Query.Points.{point_of, times}
use ref_falcon.Graph.Query.Rows.{Rows}
use ref_falcon.Graph.Query.Noted.{start_times}
use ref_falcon.Graph.Query.Replied.{InOrder, cache_items-Replied}
use ref_falcon.Graph.Query.Reply.{
  cache_items-all, FullReply, cached, Recent, fetched, query-FullReply, query-answer, width_lem,
}
use ref_falcon.Graph.Query.{
  GraphQueryParam, GraphQueryResponse, Sources, merge_points, answer_points, query,
}

module _ {V : Type 0} ⦃fl : Float64 V⦄ (fs : Floats V) (src : Sources V) where
  module _ (param : GraphQueryParam) (m : GraphItemMap V) (s a b : ℕ) where
    -- The rows that the file of that name has for the query.
    abbrev pub rows_of : List ℕ → List (RrdData V)
    rows_of name =
        src.fetch name (src.md5 param.endpoint param.counter) param.consol_fun
          (sub64 (pos (a - a % suc s)) (pos (suc s))) (pos (b - b % suc s + suc s)) (pos (suc s))

    -- The items asked for that are numbers, and the rows before the first item, are in the reply.
    pub record Kept (file : List (RrdData V)) (x : GraphItem V) (items : List (GraphItem V))
        (r : GraphQueryResponse V) : Type 0 where
      pub memory :
          (i : GraphItem V)
          → Among i (x ∷ items)
          → is_between (pos (a - a % suc s)) (pos (b - b % suc s + suc s)) i.timestamp ≡ true
          → fs.is_nan i.value ≡ false
          → Among (point_of i) r.values
      pub earlier :
          (d : RrdData V)
          → Among d file
          → ltb_ℤ d.timestamp x.timestamp ≡ true
          → leb_ℤ d.timestamp (pos (b - b % suc s + suc s)) ≡ true
          → Among d r.values

    module _ (apart : a - a % suc s < b - b % suc s) (room : b + suc s < 2 ^ 62)
        (recent : Recent fs src param m "GAUGE" s a b) where
      merge_points-Kept :
          (x : GraphItem V) (items : List (GraphItem V)) (file : List (RrdData V))
          → InOrder s x items
          → Rows s (a - a % suc s) file
          → Kept file x items (record {
            values =
                merge_points fs src "GAUGE"
                  (pos (suc s))
                  (pos (a - a % suc s))
                  (pos (b - b % suc s + suc s))
                  file
                  (x ∷ items);
            ds_type = "GAUGE";
            step = pos (suc s);
          })
      unfolding merge_points
      merge_points-Kept x items file o rows =
          let r =
            cache_items-Replied fs s (a - a % suc s) (b - b % suc s + suc s) (a / suc s)
              (start_times a s) (omega (arith, apart)) (omega (arith, room)) x items o file rows in
          rw (merge_points, recent, width_lem fs src param m "GAUGE" s a b apart room)
            (record {
              memory = λ i among asked number.
                  r.memory (point_of i)
                    (cache_items-all fs s (times o.j (suc s)) o.e (pos (a - a % suc s))
                      (pos (b - b % suc s + suc s)) x items i o.first o.steps o.last o.room among
                      asked)
                    number (ground (arith, asked));
              earlier = r.earlier;
            })

      answer_points-Kept :
          (name : List ℕ) (x : GraphItem V) (items : List (GraphItem V))
          → WellFormed m
          → src.migrating ≡ false
          → rrd_file_name src.storage
              (codes (src.md5 param.endpoint param.counter))
              (codes "GAUGE")
              (pos (suc s))
            ≡ ok name
          → reverse (cached fs src param m "GAUGE" s a b) ≡ x ∷ items
          → InOrder s x items
          → Rows s (a - a % suc s) (rows_of name)
          → Returns (Kept (rows_of name) x items) (
              answer_points fs src param "GAUGE"
                (pos (suc s))
                (pos (a - a % suc s))
                (pos (b - b % suc s + suc s))
                m)
      unfolding answer_points
      answer_points-Kept name x items w settled named turned o rows =
          let key =
            form_rrd_cache_key (src.md5 param.endpoint param.counter) "GAUGE" (pos (suc s)) in
          let get : Table.fetch_all key m ≡ ok (x ∷ items, flag_of (view m key)) =
            fetched fs src key m w ∙ ap (λ l. ok (l, flag_of (view m key))) turned in
          rw (named, get)
            (subst
              (λ file. Kept (rows_of name) x items (record {
                values =
                    merge_points fs src "GAUGE" (pos (suc s)) (pos (a - a % suc s))
                      (pos (b - b % suc s + suc s)) file (x ∷ items);
                ds_type = "GAUGE";
                step = pos (suc s);
              }))
              (sym (local src.migrating _ (src.remote param) (rows_of name) settled))
              (merge_points-Kept x items (rows_of name) o rows))
        where
          local :
              (migrating odd : Bool) (x y : List (RrdData V))
              → migrating ≡ false
              → (if migrating && odd then x else y) ≡ y
          local true odd x y h = cc
          local false odd x y h = refl

    -- In a well-formed table, a known gauge with a step of at least 1, a checksum of at least two
    -- bytes and items in memory, whose file is not migrating, is asked for a time from 0 on, with
    -- a step behind its end below 2^62, that reaches into another step and not back behind the 720
    -- steps before now. The file has one row for each step, from the start of the step of `start`
    -- on; it may end at any time. The items have rising times that are starts of steps, the last
    -- one not within a step of 2^63. The reply has one point for each step, from the start of the
    -- step of `start` on. Every item that is asked for and is a number is among its points, with
    -- its time and value, and so is every row of the file that is asked for and is before the
    -- first item.
    pub query-Complete :
        (name : List ℕ) (x : GraphItem V) (items : List (GraphItem V))
        → src.get_type_and_step param.endpoint param.counter ≡ some ("GAUGE", pos (suc s))
        → param.start ≡ pos a
        → param.end ≡ pos b
        → a - a % suc s < b - b % suc s
        → b + suc s < 2 ^ 62
        → WellFormed m
        → 2 ≤ length (codes (src.md5 param.endpoint param.counter))
        → Recent fs src param m "GAUGE" s a b
        → src.migrating ≡ false
        → rrd_file_name src.storage
            (codes (src.md5 param.endpoint param.counter))
            (codes "GAUGE")
            (pos (suc s))
          ≡ ok name
        → reverse (cached fs src param m "GAUGE" s a b) ≡ x ∷ items
        → InOrder s x items
        → Rows s (a - a % suc s) (rows_of name)
        → Returns
            (λ r. FullReply fs src "GAUGE" a b s r × Kept (rows_of name) x items r)
            (query fs src param m)
    query-Complete name x items known at_a at_b apart room w md5 recent settled named turned o
          rows =
        Returns-both (FullReply fs src "GAUGE" a b s) (Kept (rows_of name) x items)
          (query fs src param m)
          (query-FullReply fs src param m "GAUGE" s a b known at_a at_b apart room w md5
            (λ nothing. some_item (sym turned ∙ ap reverse nothing)) recent)
          (subst (Returns (Kept (rows_of name) x items))
            (sym (query-answer fs src param m "GAUGE" s a b known at_a at_b apart room))
            (answer_points-Kept apart room recent name x items w settled named turned o rows))
      where
        some_item : {y : GraphItem V} {l : List (GraphItem V)} → y ∷ l ≡ [] → ⊥
        some_item h = cc
