-- ===== src/Judge/Types.antt =====
-- The data of judge/store. The structs are declared in common/model, which is not part of the
-- repository: the fields are those that the code reads or writes.
use ref_falcon.Prelude.{ℕ, List, Option}
use ref_falcon.Prelude.Int.{ℤ}
use ref_falcon.Prelude.Text.{String}

-- `map[string]string`. A range over the map visits the list in order; Go may take any order.
abbrev pub Tags : Type 0
Tags = List (String × String)

pub record JudgeItem (V : Type 0) : Type 0 where
  pub endpoint : String
  pub metric : String
  pub value : V
  pub timestamp : ℤ
  pub judge_type : String
  pub tags : Tags

pub record HistoryData (V : Type 0) : Type 0 where
  pub timestamp : ℤ
  pub value : V

-- `model.Strategy`. The text of the function is the list of its bytes.
pub record Strategy (V : Type 0) : Type 0 where
  pub id : ℤ
  pub metric : String
  pub tags : Tags
  pub func : List ℕ
  pub operator : String
  pub right_value : V
  pub max_step : ℤ

-- `model.Expression`.
pub record Expression (V : Type 0) : Type 0 where
  pub id : ℤ
  pub metric : String
  pub tags : Tags
  pub func : List ℕ
  pub operator : String
  pub right_value : V
  pub max_step : ℤ

-- `model.Event`; a field that is not set is Go's zero value.
pub record Event (V : Type 0) : Type 0 where
  pub id : String
  pub strategy : Option (Strategy V)
  pub expression : Option (Expression V)
  pub status : String
  pub endpoint : String
  pub left_value : V
  pub current_step : ℤ
  pub event_time : ℤ
  pub pushed_tags : Tags
