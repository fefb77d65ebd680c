-- ===== src/Graph/Flush/All.antt =====
-- A flush of every bucket saves every key that is due, and so do the ticks of syncDisk once they
-- went round.
use mathlib.Core.Bool.{true≢false}
use native.Mathlib.Nat.{mod-eq_of_lt}
use native.Mathlib.Omega.{div_fact, mod_fact}
use ref_falcon.Prelude.{
  ℕ, zero, suc, ◌+◌, ◌/◌, ◌%◌, ◌^◌, ◌≤◌, ◌<◌, ◌≡◌, refl, sym, ap, ◌∙◌, subst, inl, inr, Bool, true,
  false, ◌&&◌, ◌||◌, List, [], length, get_elem?, some, leb, ltb, Returns, Returns-bind,
  Returns-map, ◌==◌, ==_iff, Bool-cases, arith,
}
use ref_falcon.Prelude.Int.{ℤ}
use ref_falcon.Prelude.Text.{String, lookup}
use ref_falcon.Judge.Alarm.{is_listed}
use ref_falcon.Transfer.Types.{GraphItem}
use ref_falcon.Graph.Index.Moved.{unlisted}
use ref_falcon.Graph.Table
use ref_falcon.Graph.Table.{Bucket, slot}
use ref_falcon.Graph.Table.View.{view, slot-lt, in_range, bucket_lem}
use ref_falcon.Graph.Table.Effects.{waiting}
use ref_falcon.Graph.Flush.{Settings, Disk, flush_keys, flush_rrd, flush_loop, flush_all, sync_disk}
use ref_falcon.Graph.Flush.Flushable.{Flushable, names}
use ref_falcon.Graph.Flush.Fate.{Saved, Fate, Splits, Kept}
use ref_falcon.Graph.Flush.Saved.{
  due, Kept-same, Kept-less, Kept-then, flush_keys-Kept, and_left, and_right,
}

-- The index s is one of the `left` from i on.
abbrev in_round : ℕ → ℕ → ℕ → Bool
in_round i left s = leb i s && ltb s (i + left)

round_step :
    (i left s : ℕ) (d : Bool)
    → (in_round i (suc left) s && d) ≡ true
    → (((s == i) && d) || (in_round (suc i) left s && d)) ≡ true
round_step i left s d h = ground arith

ten_buckets : (n : ℕ) → 10 ≤ n → (n / 10 == 0) ≡ false
ten_buckets n h = ground (arith, div_fact n 9, mod_fact n 9)

round_empty : (i s : ℕ) (d : Bool) → (in_round i 0 s && d) ≡ false
round_empty i s d = ground arith

module _ {V : Type 0} (cfg : Settings V) (k : String) (old : List (GraphItem V)) where
  -- A key that its bucket does not list has nothing to be saved.
  unlisted-Saved :
      (st : Disk V) (b : Bucket V)
      → Flushable st.graph_items
      → get_elem? st.graph_items.a (slot k st.graph_items) ≡ some b
      → is_listed k (names b) ≡ false
      → Fate cfg k old st
      → Saved cfg k old st
  unlisted-Saved st b fl at u (inr s) = s
  unlisted-Saved st b fl at u (inl waits) =
      let (b', at', e, seen) = bucket_lem k st.graph_items fl.well_formed in
      let same : some b' ≡ some b = sym at' ∙ at in
      let q : b' ≡ b = cc in
      let empty : waiting (view st.graph_items k) ≡ [] =
        ap waiting (seen ∙ ap (lookup k) q ∙ unlisted k b u) in
      (empty, inl (sym waits ∙ empty))

  flush_rrd-Kept :
      (now : ℤ) (idx : ℕ) (force : Bool) (st : Disk V)
      → idx < st.graph_items.size
      → Flushable st.graph_items
      → Fate cfg k old st
      → Returns
          (Kept cfg k old ((slot k st.graph_items == idx) && due cfg force old) st)
          (flush_rrd cfg now idx force st)
  unfolding flush_rrd Table.keys_by_index
  flush_rrd-Kept now idx force st h fl fate =
      let (b, at) = in_range st.graph_items.a idx (omega (arith, fl.well_formed.sized)) in
      rw at (
        Returns-map (Kept cfg k old (is_listed k (names b) && due cfg force old) st) _
          (flush_keys cfg now force (names b) st)
          (λ st' kept. elim (Bool-cases (is_listed k (names b))) [
            | inl l ↦
                Kept-less cfg k old _ _ st st'
                  (λ h. rw l (and_right (slot k st.graph_items == idx) _ h)) kept
            | inr u ↦ record {
              flushable = kept.flushable;
              size = kept.size;
              fate = kept.fate;
              saved = λ h sp.
                  let here = (==_iff (slot k st.graph_items) idx).0 (and_left _ _ h) in
                  kept.stays (
                    unlisted-Saved st b fl
                      (subst (λ i. get_elem? st.graph_items.a i ≡ some b) (sym here) at) u fate);
              stays = kept.stays;
            }
          ])
          (flush_keys-Kept cfg k old now force (names b) st (fl.nameable idx b at) fl fate))

  -- A step on bucket i in front of the steps on the `left` that follow.
  round-Kept :
      (i left : ℕ) (d : Bool) (st st1 st2 : Disk V)
      → Kept cfg k old ((slot k st.graph_items == i) && d) st st1
      → Kept cfg k old (in_round (suc i) left (slot k st1.graph_items) && d) st1 st2
      → Kept cfg k old (in_round i (suc left) (slot k st.graph_items) && d) st st2
  round-Kept i left d st st1 st2 a b =
      let same : slot k st1.graph_items ≡ slot k st.graph_items =
        ap (λ n. Table.hash_key k % (n % 2 ^ 32)) a.size in
      Kept-less cfg k old _ _ st st2 (round_step i left (slot k st.graph_items) d) (
        Kept-then cfg k old _ _ st st1 st2 a
          (subst (λ s. Kept cfg k old (in_round (suc i) left s && d) st1 st2) same b))

  flush_loop-Kept :
      (now : ℤ) (force : Bool) (n left i : ℕ) (st : Disk V)
      → (n == 0) ≡ false
      → i + left ≤ st.graph_items.size
      → Flushable st.graph_items
      → Fate cfg k old st
      → Returns
          (Kept cfg k old (in_round i left (slot k st.graph_items) && due cfg force old) st)
          (flush_loop cfg now force n left i st)
  unfolding flush_loop
  flush_loop-Kept now force n zero i st z h fl fate =
      Kept-same cfg k old _ st fl fate (λ v.
        absurd (true≢false (sym v ∙ round_empty i (slot k st.graph_items) (due cfg force old))))
  flush_loop-Kept now force n (suc left) i st z h fl fate =
      Returns-bind (Kept cfg k old ((slot k st.graph_items == i) && due cfg force old) st) _
        (flush_rrd cfg now i force st) _ (flush_rrd-Kept now i force st (omega arith) fl fate)
        (λ st1 a. rw z (
          Returns-map
            (Kept cfg k old (in_round (suc i) left (slot k st1.graph_items) && due cfg force old)
              st1)
            _ (flush_loop cfg now force n left (suc i) st1)
            (λ st2 b. round-Kept i left (due cfg force old) st st1 st2 a b)
            (flush_loop-Kept now force n left (suc i) st1 z (omega (arith, a.size)) a.flushable
              a.fate)))

  whole_round :
      (st : Disk V)
      → Flushable st.graph_items
      → in_round 0 st.graph_items.size (slot k st.graph_items) ≡ true
  whole_round st fl = ground (arith, slot-lt k st.graph_items fl.well_formed, fl.well_formed.sized)

  sync_disk-Kept :
      (now : ℕ → ℤ) (left i : ℕ) (st : Disk V)
      → i + left ≤ st.graph_items.size
      → Flushable st.graph_items
      → Fate cfg k old st
      → Returns
          (Kept cfg k old (in_round i left (slot k st.graph_items) && due cfg false old) st)
          (sync_disk cfg now left i st)
  unfolding sync_disk
  sync_disk-Kept now zero i st h fl fate =
      Kept-same cfg k old _ st fl fate (λ v.
        absurd (true≢false (sym v ∙ round_empty i (slot k st.graph_items) (due cfg false old))))
  sync_disk-Kept now (suc left) i st h fl fate =
      let here : i % st.graph_items.size ≡ i = mod-eq_of_lt (omega arith) in
      Returns-bind (Kept cfg k old ((slot k st.graph_items == i) && due cfg false old) st) _
        (flush_rrd cfg (now left) (i % st.graph_items.size) false st) _
        (rw here (flush_rrd-Kept (now left) i false st (omega arith) fl fate))
        (λ st1 a. rw here (
          Returns-map
            (Kept cfg k old (in_round (suc i) left (slot k st1.graph_items) && due cfg false old)
              st1)
            _ (sync_disk cfg now left (suc i) st1)
            (λ st2 b. round-Kept i left (due cfg false old) st st1 st2 a b)
            (sync_disk-Kept now left (suc i) st1 (omega (arith, a.size)) a.flushable a.fate)))

module _ {V : Type 0} (cfg : Settings V) (k : String) where
  -- With buckets that are well-formed and at least ten, and keys that all have a file name,
  -- FlushAll returns, forced or not, and loses no item of any key: they wait there still, or none
  -- waits and, if there were any, they were handed to the workers of the file of the key, the
  -- oldest first.
  pub flush_all-Fate :
      (now : ℤ) (force : Bool) (st : Disk V)
      → 10 ≤ st.graph_items.size
      → Flushable st.graph_items
      → Returns (Fate cfg k (waiting (view st.graph_items k))) (flush_all cfg now force st)
  unfolding flush_all
  flush_all-Fate now force st h fl =
      Returns-map _ (Fate cfg k (waiting (view st.graph_items k)))
        (flush_loop cfg now force (st.graph_items.size / 10) st.graph_items.size 0 st)
        (λ st' kept. kept.fate)
        (flush_loop-Kept cfg k (waiting (view st.graph_items k)) now force
          (st.graph_items.size / 10) st.graph_items.size 0 st (ten_buckets st.graph_items.size h)
          (omega arith) fl (inl refl))

  -- Under the same conditions, a key that can be taken apart has nothing waiting after a forced
  -- FlushAll: what waited, if anything, was handed to the workers of its file.
  pub flush_all-Saved :
      (now : ℤ) (st : Disk V)
      → 10 ≤ st.graph_items.size
      → Flushable st.graph_items
      → Splits cfg k
      → Returns (Saved cfg k (waiting (view st.graph_items k))) (flush_all cfg now true st)
  unfolding flush_all
  flush_all-Saved now st h fl sp =
      Returns-map _ (Saved cfg k (waiting (view st.graph_items k)))
        (flush_loop cfg now true (st.graph_items.size / 10) st.graph_items.size 0 st)
        (λ st' kept. kept.saved (rw (whole_round cfg k [] st fl)) sp)
        (flush_loop-Kept cfg k (waiting (view st.graph_items k)) now true (st.graph_items.size / 10)
          st.graph_items.size 0 st (ten_buckets st.graph_items.size h) (omega arith) fl (inl refl))

  -- With well-formed buckets whose keys have a file name, when graph does not migrate and nothing
  -- arrives meanwhile, each key that can be taken apart and has FLUSH_MIN_COUNT items or more is
  -- saved after the first Size ticks of syncDisk, at whatever times they come.
  pub sync_disk-Saved :
      (now : ℕ → ℤ) (st : Disk V)
      → Flushable st.graph_items
      → cfg.migrating ≡ false
      → Splits cfg k
      → 6 ≤ length (waiting (view st.graph_items k))
      → Returns
          (Saved cfg k (waiting (view st.graph_items k)))
          (sync_disk cfg now st.graph_items.size 0 st)
  sync_disk-Saved now st fl m sp h =
      Returns-map _ (Saved cfg k (waiting (view st.graph_items k)))
        (sync_disk cfg now st.graph_items.size 0 st)
        (λ st' kept. kept.saved (rw (whole_round cfg k [] st fl, m) (many h)) sp)
        (sync_disk-Kept cfg k (waiting (view st.graph_items k)) now st.graph_items.size 0 st
          (omega arith) fl (inl refl))
    where
      many : {n : ℕ} → 6 ≤ n → leb 6 n ≡ true
      many h = ground arith
