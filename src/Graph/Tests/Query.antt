-- ===== src/Graph/Tests/Query.antt =====
-- The theorems on queries, applied to one counter.
use mathlib.Core.List.{reverse}
use ref_falcon.Prelude.{
  List, ok, ◌≡◌, ℕ, ◌-◌, ◌≢◌, refl, inl, inr, false, [], ◌∷◌, replicate, some, Returns, arith,
}
use ref_falcon.Prelude.Int.{ℤ, pos, ltb_ℤ, sub64, wrap64}
use ref_falcon.Prelude.Text.{codes}
use ref_falcon.Float64.{whole}
use ref_falcon.Judge.Store.Send.{Among}
use ref_falcon.Transfer.Types.{GraphItem}
use ref_falcon.Graph.Keys.{rrd_file_name}
use ref_falcon.Graph.Table.{Bucket, GraphItemMap}
use ref_falcon.Graph.Table.View.{WellFormed, view}
use ref_falcon.Graph.Query.Merge.{Floats, cache_items}
use ref_falcon.Graph.Query.Points.{point_of}
use ref_falcon.Graph.Query.{GraphQueryParam, Sources, query}
use ref_falcon.Graph.Query.Reply.{cache_items-all, FullReply, cached, Recent}
use ref_falcon.Graph.Query.Replied.{InOrder}
use ref_falcon.Graph.Query.Complete.{Kept, rows_of, query-Complete}

abbrev at : ℕ → GraphItem ℤ
at t = record {
  endpoint = "host";
  metric = "load";
  tags = [];
  value = pos 3;
  timestamp = pos t;
  ds_type = "GAUGE";
  step = pos 60;
  heartbeat = pos 120;
  min = "U";
  max = "U";
}

-- -1 stands for NaN.
abbrev floats : Floats ℤ
floats = record { nan = ref_falcon.Prelude.Int.negsuc 0; is_nan = λ v. ltb_ℤ v (pos 0) }

cache_items-all_example :
    Among
      (point_of (at 180))
      (cache_items floats "GAUGE" (pos 60) (pos 0) (pos 300) (at 60) (at 180 ∷ []))
cache_items-all_example =
    cache_items-all floats 59 60 180 (pos 0) (pos 300) (at 60) (at 180 ∷ []) (at 180) refl
      (0, refl, (1, refl, tt)) refl (omega arith) (inr (inl refl)) refl

abbrev sources : Sources ℤ
sources = record {
  storage = codes "/data";
  migrating = false;
  get_type_and_step = λ e c. some ("GAUGE", pos 60);
  md5 = λ e c. "9e";
  fetch = λ f m c a b s. record { timestamp = pos 60; value = pos 1 } ∷ [];
  remote = λ p. [];
  now = pos 240;
}

abbrev param : GraphQueryParam
param = record {
  start = pos 60;
  end = pos 190;
  consol_fun = "AVERAGE";
  endpoint = "host";
  counter = "load";
}

abbrev one_key : Bucket ℤ
one_key = ("9e_GAUGE_60", record { flag = 0; items = at 180 ∷ at 120 ∷ [] }) ∷ []

abbrev store : GraphItemMap ℤ
store = record { a = replicate 10 one_key; size = 10 }

store-WellFormed : WellFormed store
store-WellFormed = record { sized = refl; positive = omega arith; word = omega arith }

recent : Recent floats sources param store "GAUGE" 59 60 190
unfolding sub64 wrap64 ref_falcon.Prelude.Int.◌-ℤ◌ ref_falcon.Prelude.Int.◌*ℤ◌
recent = refl

abbrev name : List ℕ
name = codes "/data/9e/9e_GAUGE_60.rrd"

named : rrd_file_name sources.storage (codes "9e") (codes "GAUGE") (pos 60) ≡ ok name
unfolding rrd_file_name ref_falcon.Prelude.Text.show ref_falcon.Prelude.Text.show_digits
    ref_falcon.Judge.Parse.slice
named = refl

waiting_items : reverse (cached floats sources param store "GAUGE" 59 60 190) ≡ at 120 ∷ at 180 ∷ []
unfolding view ref_falcon.Prelude.Text.lookup ref_falcon.Graph.Table.hash_key
    ref_falcon.Graph.Crc.checksum_ieee ref_falcon.Graph.Keys.form_rrd_cache_key
    ref_falcon.Prelude.Text.show ref_falcon.Prelude.Text.show_digits
waiting_items = refl

in_order : InOrder 59 (at 120) (at 180 ∷ [])
in_order = record {
  j = 2;
  e = 180;
  first = refl;
  steps = (0, refl, (0, refl, tt));
  last = refl;
  room = omega arith;
}

query-Complete_example :
    Returns
      (λ r.
        FullReply floats sources "GAUGE" 60 190 59 r
        × Kept floats sources param store 59 60 190
            (rows_of floats sources param store 59 60 190 name)
            (at 120)
            (at 180 ∷ [])
            r)
      (query floats sources param store)
query-Complete_example =
    query-Complete floats sources param store 59 60 190 name (at 120) (at 180 ∷ []) refl refl refl
      (omega arith) (omega arith) store-WellFormed (omega arith) recent refl named waiting_items
      in_order (refl, tt)
