-- ===== src/Judge/Parse.antt =====
-- judge/store/func.go: ParseFuncFromString and atois. A text is the list of its bytes.
pub mod Form
pub mod Args
use ref_falcon.Prelude.{
  ℕ, suc, ◌+◌, ◌-◌, ◌*◌, ◌^◌, Bool, true, false, ◌&&◌, List, [], ◌∷◌, length, take, drop, get_elem?,
  Option, none, some, if◌then◌else◌, ltb, leb, ◌==◌, Run, ok, err, panic, must, or_err, ◌>>=◌,
}
use ref_falcon.Prelude.Int.{ℤ, pos, negsuc, pos_part, leb_ℤ, ◌+ℤ◌, ◌-ℤ◌}
use ref_falcon.Prelude.Text.{String, codes}
use ref_falcon.Judge.Func.{Params, Function}

-- `==` on strings.
unfoldable pub bytes_eq : List ℕ → List ℕ → Bool
bytes_eq [] [] = true
bytes_eq (x ∷ xs) (y ∷ ys) = x == y && bytes_eq xs ys
bytes_eq _ _ = false

-- `s[lo:hi]`, which panics out of range.
unfoldable pub slice : List ℕ → ℤ → ℤ → Run (List ℕ)
slice s lo hi =
    if leb_ℤ (pos 0) lo && (leb_ℤ lo hi && leb_ℤ hi (pos (length s)))
    then ok (take (pos_part hi - pos_part lo) (drop (pos_part lo) s))
    else panic

-- `strings.Index(s, "c")`, from the index i on.
unfoldable pub index : ℕ → ℕ → List ℕ → ℤ
index c i [] = negsuc 0
index c i (x ∷ xs) = let rest = index c (suc i) xs in if x == c then pos i else rest

-- `strings.Split(s, "c")`.
abbrev pub cons_head : ℕ → List (List ℕ) → List (List ℕ)
cons_head x [] = (x ∷ []) ∷ []
cons_head x (p ∷ ps) = (x ∷ p) ∷ ps

unfoldable pub split : ℕ → List ℕ → List (List ℕ)
split c [] = [] ∷ []
split c (x ∷ xs) = let rest = split c xs in if x == c then [] ∷ rest else cons_head x rest

-- `strconv.Atoi`: a sign or none, at least one digit, in the range of int64.
unfoldable pub digits : ℕ → List ℕ → Option ℕ
digits acc [] = some acc
digits acc (x ∷ xs) =
    let rest = digits (acc * 10 + (x - b'0')) xs in if leb b'0' x && leb x b'9' then rest else none

unfoldable pub unsigned : List ℕ → Option ℕ
unfolding digits
unsigned [] = none
unsigned (x ∷ xs) = digits 0 (x ∷ xs)

abbrev pub positive : Option ℕ → Option ℤ
positive none = none
positive (some n) = if ltb n (2 ^ 63) then some (pos n) else none

abbrev pub negative : Option ℕ → Option ℤ
negative none = none
negative (some n) = if leb n (2 ^ 63) then some (pos 0 -ℤ pos n) else none

unfoldable pub atoi : List ℕ → Option ℤ
unfolding unsigned
atoi [] = none
atoi (x ∷ xs) =
    if x == b'-'
    then negative (unsigned xs)
    else if x == b'+'
    then positive (unsigned xs)
    else positive (unsigned (x ∷ xs))

-- The loop of `atois`; the partial result beside an error is not used.
unfoldable pub atoi_all : List (List ℕ) → Run (List ℤ)
atoi_all [] = ok []
atoi_all (p ∷ ps) = do n ← or_err (atoi p); rest ← atoi_all ps; ok (n ∷ rest)

unfoldable pub atois : List ℕ → Run (List ℤ)
atois s = atoi_all (split b',' s)

module _ {V : Type 0} where
  -- The `switch` on the name.
  unfoldable pub select : List ℕ → List ℤ → String → V → Run (Function V)
  unfolding bytes_eq
  select name args operator right_value =
      if bytes_eq name (codes "max")
      then (do n ← must (get_elem? args 0); ok (Function.max (params n)))
      else if bytes_eq name (codes "min")
      then (do n ← must (get_elem? args 0); ok (Function.min (params n)))
      else if bytes_eq name (codes "all")
      then (do n ← must (get_elem? args 0); ok (Function.all (params n)))
      else if bytes_eq name (codes "sum")
      then (do n ← must (get_elem? args 0); ok (Function.sum (params n)))
      else if bytes_eq name (codes "avg")
      then (do n ← must (get_elem? args 0); ok (Function.avg (params n)))
      else if bytes_eq name (codes "diff")
      then (do n ← must (get_elem? args 0); ok (Function.diff (params n)))
      else if bytes_eq name (codes "pdiff")
      then (do n ← must (get_elem? args 0); ok (Function.pdiff (params n)))
      else if bytes_eq name (codes "lookup")
      then (do
        num ← must (get_elem? args 0)
        n ← must (get_elem? args 1)
        ok (Function.lookup num (params n)))
      else if bytes_eq name (codes "stddev")
      then (do n ← must (get_elem? args 0); ok (Function.stddev (params n)))
      else err
    where
      params : ℤ → Params V
      params n = record { limit = n; operator = operator; right_value = right_value }

  unfoldable pub parse_func_from_string : List ℕ → String → V → Run (Function V)
  parse_func_from_string [] operator right_value = err
  parse_func_from_string (x ∷ xs) operator right_value = do
    let idx = index b'#' 0 (x ∷ xs)
    arg_text ← slice (x ∷ xs) (idx +ℤ pos 1) (pos (length (x ∷ xs)) -ℤ pos 1)
    args ← atois arg_text
    name ← slice (x ∷ xs) (pos 0) (idx -ℤ pos 1)
    select name args operator right_value
