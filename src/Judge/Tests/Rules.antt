-- ===== src/Judge/Tests/Rules.antt =====
-- The theorems on the parser and on the rules, applied to small texts and rules.
use ref_falcon.Prelude.{◌≡◌, refl, List, [], ◌∷◌, arith, ok, panic, Returns, ◌>>=◌}
use ref_falcon.Prelude.Int.{ℤ, pos}
use ref_falcon.Prelude.Text.{String, codes, lookup}
use ref_falcon.Float64.{whole}
use ref_falcon.Judge.Types.{Expression}
use ref_falcon.Judge.Func.{Function}
use ref_falcon.Judge.Alarm.{Alarms}
use ref_falcon.Judge.Parse.{atois, select, parse_func_from_string}
use ref_falcon.Judge.Parse.Form.{form, parse-form}
use ref_falcon.Judge.Parse.Args.{Number, all_kind, parse_one_argument, parse_lookup, parse_no_hash}
use ref_falcon.Judge.Rules.{check_expression, judge, is_handled, build_keys_from_metric_and_tags}
use ref_falcon.Judge.Rules.Once.{judged, judge_all, NoRepeat, ids, candidates, check_expression_lem}
use ref_falcon.Judge.Rules.Safe.{AllExpressions, judge-Sound}
use ref_falcon.Judge.Alarm.Capped.{Sound}
use ref_falcon.Judge.Tests.{flat, newest, window}
use ref_falcon.Judge.Tests.Events.{env}

three : Number (codes "3")
three = record {
  some_digit = λ e. cc;
  all_digits = (omega arith, omega arith, tt);
  fits = omega arith;
}

parse-form_example :
    parse_func_from_string (form (codes "all") b'(' (codes "3") b')') ">" (pos 90)
    ≡ (do a ← atois (codes "3"); select (codes "all") a ">" (pos 90))
parse-form_example =
    parse-form ">" (pos 90) (codes "all") b'(' (codes "3") b')'
      (omega arith, (omega arith, (omega arith, tt))) (omega arith)

parse_lookup_example :
    (parse_func_from_string (codes "lookup(#3,3)") ">" (pos 90)
      ≡ ok (
          Function.lookup (pos 3) (record { limit = pos 3; operator = ">"; right_value = pos 90 })))
    × (parse_func_from_string (codes "lookup(#3)") ">" (pos 90) ≡ panic)
parse_lookup_example = parse_lookup ">" (pos 90) (codes "3") (codes "3") three three

parse_no_hash_example : parse_func_from_string (codes "3)") ">" (pos 90) ≡ panic
parse_no_hash_example =
    parse_no_hash ">" (pos 90) (codes "3") b')' (omega arith, (omega arith, tt)) three

abbrev pub rule : Expression ℤ
rule = record {
  id = pos 7;
  metric = "cpu.busy";
  tags = ("core", "0") ∷ [];
  func = codes "all(#3)";
  operator = ">";
  right_value = pos 90;
  max_step = pos 2;
}

abbrev pub rules : List (String × List (Expression ℤ))
rules = ("cpu.busy/core=0", rule ∷ []) ∷ []

abbrev empty : Alarms ℤ
empty = record { last_events = []; pushed = [] }

check_expression_lem_example :
    (check_expression env rules window newest (pos 200) empty
      ≡ judge_all env window newest (pos 200) (judged env window newest (pos 200) rules) empty)
    × NoRepeat (ids (judged env window newest (pos 200) rules))
    × (is_handled (pos 7) (ids (judged env window newest (pos 200) rules))
        ≡ is_handled
            (pos 7)
            (ids (candidates rules (build_keys_from_metric_and_tags newest) newest)))
check_expression_lem_example = check_expression_lem env window newest (pos 200) rules empty (pos 7)

abbrev pub cap : String → ℤ
cap k = pos 2

empty-Sound : Sound env cap empty
unfolding lookup
empty-Sound k = tt

pub rules-good : AllExpressions env cap window newest (pos 200) rules
rules-good = (
  (
    (
      rw (parse_one_argument ">" (pos 90) all_kind (codes "3") three) (omega arith),
      (omega arith, omega arith),
      refl,
    ),
    tt,
  ),
  tt,
)

judge-Sound_example : Returns (Sound env cap) (judge env [] rules window newest (pos 200) empty)
judge-Sound_example =
    judge-Sound env cap window newest (pos 200) [] rules empty (b'G', refl) tt rules-good
      empty-Sound
