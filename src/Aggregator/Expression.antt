-- ===== src/Aggregator/Expression.antt =====
-- aggregator/cron/run.go: cleanParam, needCompute, expressionValid, parse and operatorsValid, over the
-- code points of a text. The regular expressions are read as the matchers that they stand for.
pub mod Split
pub mod Mode
pub mod Rendered
use ref_falcon.Prelude.{
  ℕ, zero, suc, Bool, true, false, not, ◌&&◌, ◌||◌, List, [], ◌∷◌, length, Option, none, some,
  if◌then◌else◌, leb, ◌==◌, Run, ok, panic,
}
use ref_falcon.Prelude.Text.{codes}
use ref_falcon.Judge.Parse.{bytes_eq}

-- `unicode.IsSpace`.
abbrev is_space : ℕ → Bool
is_space c =
    (leb 9 c && leb c 13)
    || c == 32
    || c == 133
    || c == 160
    || c == 5760
    || (leb 8192 c && leb c 8202)
    || c == 8232
    || c == 8233
    || c == 8239
    || c == 8287
    || c == 12288

unfoldable pub trim_left : List ℕ → List ℕ
trim_left [] = []
trim_left (c ∷ s) = let rest = trim_left s in if is_space c then rest else c ∷ s

unfoldable pub trim_right : List ℕ → List ℕ
trim_right [] = []
trim_right (c ∷ s) = elim (trim_right s) [
  | [] ↦ if is_space c then [] else c ∷ []
  | x ∷ rest ↦ c ∷ x ∷ rest
]

-- `strings.Replace(val, c, "", -1)`.
unfoldable pub without : ℕ → List ℕ → List ℕ
without c [] = []
without c (x ∷ s) = let rest = without c s in if x == c then rest else x ∷ rest

unfoldable pub clean_param : List ℕ → List ℕ
unfolding trim_left trim_right without
clean_param val =
    without b'\t' (without b'\n' (without b'\r' (without b' ' (trim_right (trim_left val)))))

-- `strings.Contains(val, "$(")`.
unfoldable pub need_compute : List ℕ → Bool
need_compute [] = false
need_compute (x ∷ []) = false
need_compute (x ∷ y ∷ s) = let rest = need_compute (y ∷ s) in (x == b'$' && y == b'(') || rest

abbrev pub is_paren : ℕ → Bool
is_paren c = c == b'(' || c == b')'

-- `[^\(\)]+\)`, of which `some_char` was read: what stands behind the closing bracket.
unfoldable pub counter_end : Bool → List ℕ → Option (List ℕ)
counter_end some_char [] = none
counter_end some_char (c ∷ s) =
    let rest = counter_end true s in
    if c == b')' then (if some_char then some s else none) else if c == b'(' then none else rest

-- `\$\([^\(\)]+\)`.
unfoldable pub term_end : List ℕ → Option (List ℕ)
unfolding counter_end
term_end (x ∷ y ∷ s) = if x == b'$' && y == b'(' then counter_end false s else none
term_end _ = none

abbrev pub is_sign : ℕ → Bool
is_sign c = c == b'+' || c == b'-'

-- `(\$\([^\(\)]+\)[+-])*\$\([^\(\)]+\)`, with at most `fuel` counters: what stands behind it. A sign
-- behind a counter is always followed by another.
abbrev pub more_terms : (List ℕ → Option (List ℕ)) → Option (List ℕ) → Option (List ℕ)
more_terms again none = none
more_terms again (some []) = some []
more_terms again (some (c ∷ s)) = if is_sign c then again s else some (c ∷ s)

unfoldable pub sum_end : ℕ → List ℕ → Option (List ℕ)
unfolding term_end
sum_end zero s = none
sum_end (suc fuel) s = more_terms (sum_end fuel) (term_end s)

abbrev pub is_digit : ℕ → Bool
is_digit c = leb b'0' c && leb c b'9'

unfoldable pub digits_end : List ℕ → List ℕ
digits_end [] = []
digits_end (c ∷ s) = let rest = digits_end s in if is_digit c then rest else c ∷ s

abbrev pub starts_digit : List ℕ → Bool
starts_digit [] = false
starts_digit (c ∷ s) = is_digit c

-- `\d+(\.\d+)?$`.
abbrev pub fraction : List ℕ → Bool
fraction [] = true
fraction (c ∷ s) =
    c == b'.' && (starts_digit s && elim (digits_end s) [ [] ↦ true | _ ∷ _ ↦ false ])

unfoldable pub number_only : List ℕ → Bool
unfolding digits_end
number_only s = starts_digit s && fraction (digits_end s)

-- `(>|=|<|>=|<=)\d+(\.\d+)?$`.
unfoldable pub comparison : List ℕ → Bool
unfolding number_only
comparison [] = false
comparison (c ∷ []) = false
comparison (c ∷ d ∷ s) =
    if c == b'>' || c == b'<'
    then (if d == b'=' then number_only s else number_only (d ∷ s))
    else c == b'=' && number_only (d ∷ s)

abbrev pub ends : Option (List ℕ) → Bool
ends (some []) = true
ends _ = false

abbrev pub compares : Option (List ℕ) → Bool
compares none = false
compares (some s) = comparison s

abbrev pub closes : Option (List ℕ) → Bool
closes (some (c ∷ s)) = c == b')' && comparison s
closes _ = false

unfoldable pub match_mode_0 : List ℕ → Bool
unfolding sum_end
match_mode_0 val = ends (sum_end (length val) val)

unfoldable pub match_mode_1 : List ℕ → Bool
unfolding term_end comparison
match_mode_1 val = compares (term_end val)

unfoldable pub match_mode_2 : List ℕ → Bool
unfolding sum_end comparison
match_mode_2 [] = false
match_mode_2 (c ∷ val) = c == b'(' && closes (sum_end (length val) val)

unfoldable pub match_mode_3 : List ℕ → Bool
unfolding digits_end
match_mode_3 val = starts_digit val && elim (digits_end val) [ [] ↦ true | _ ∷ _ ↦ false ]

unfoldable pub has_wide_paren : List ℕ → Bool
has_wide_paren [] = false
has_wide_paren (c ∷ s) = let rest = has_wide_paren s in (c == 65288 || c == 65289) || rest

unfoldable pub expression_valid : List ℕ → Bool
unfolding has_wide_paren match_mode_0 match_mode_1 match_mode_2 match_mode_3
expression_valid val =
    if has_wide_paren val
    then false
    else if bytes_eq val (codes "$#")
    then true
    else match_mode_0 val || match_mode_1 val || match_mode_2 val || match_mode_3 val

-- `Split` by the regular expression `[\$\(\)]+`: a run of these bytes stands between two items.
abbrev pub is_separator : ℕ → Bool
is_separator c = c == b'$' || (c == b'(' || c == b')')

abbrev pub cons_item : ℕ → List (List ℕ) → List (List ℕ)
cons_item c [] = (c ∷ []) ∷ []
cons_item c (item ∷ items) = (c ∷ item) ∷ items

-- `inside`: the byte before is a separator, so that another one belongs to the same run.
unfoldable pub split_counter : Bool → List ℕ → List (List ℕ)
split_counter inside [] = [] ∷ []
split_counter inside (c ∷ s) =
    let items = split_counter (is_separator c) s in
    if is_separator c then (if inside then items else [] ∷ items) else cons_item c items

-- The loop over `items[1:count-1]`, which alternates, and the last item. The result has the operands,
-- the operators and the mode.
unfoldable pub share_out : Bool → List (List ℕ) → List (List ℕ) × List (List ℕ) × List ℕ
share_out even [] = ([], [], [])
share_out even (last ∷ []) = ([], [], last)
share_out even (val ∷ next ∷ items) =
    let r = share_out (not even) (next ∷ items) in
    if even then (val ∷ r.0, r.1, r.2) else (r.0, val ∷ r.1, r.2)

-- With fewer than two items the slice panics.
abbrev pub share_items : List (List ℕ) → Run (List (List ℕ) × List (List ℕ) × List ℕ)
share_items [] = panic
share_items (first ∷ []) = panic
share_items (first ∷ second ∷ items) = ok (share_out true (second ∷ items))

unfoldable pub parse : List ℕ → Bool → Run (List (List ℕ) × List (List ℕ) × List ℕ)
unfolding split_counter share_out
parse expression need =
    if need then share_items (split_counter false expression) else ok ([], [], [])

unfoldable pub operators_valid : List (List ℕ) → Bool
operators_valid [] = true
operators_valid (op ∷ ops) =
    let rest = operators_valid ops in (bytes_eq op (codes "+") || bytes_eq op (codes "-")) && rest
