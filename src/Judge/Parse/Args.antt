-- ===== src/Judge/Parse/Args.antt =====
-- The functions that a text names.
use ref_falcon.Prelude.{
  ℕ, ◌+◌, ◌-◌, ◌*◌, ◌^◌, ◌≤◌, ◌<◌, ◌≡◌, ◌≢◌, refl, ap, ◌∙◌, true, false, List, [], ◌∷◌, ◌++◌,
  length, some, ok, err, panic, arith, length-append, Bool-cases, inl, inr,
}
use ref_falcon.Prelude.Int.{ℤ, pos, negsuc, ◌+ℤ◌, ◌-ℤ◌, int_laws}
use ref_falcon.Prelude.Text.{String, codes}
use ref_falcon.Judge.Func.{Params, Function}
use ref_falcon.Judge.Parse.{
  bytes_eq, slice, index, split, digits, unsigned, atoi, atoi_all, atois, select,
  parse_func_from_string,
}
use ref_falcon.Judge.Parse.Form.{Without, form, parse-form, slice_lem, take_left, index-absent}

abbrev pub Digits : List ℕ → Type 0
Digits [] = Unit {0}
Digits (x ∷ xs) = (b'0' ≤ x) × (x ≤ b'9') × Digits xs

-- The number that digits spell, behind the number acc.
abbrev pub value : ℕ → List ℕ → ℕ
value acc [] = acc
value acc (x ∷ xs) = value (acc * 10 + (x - b'0')) xs

pub digits-value : (acc : ℕ) (ds : List ℕ) → Digits ds → digits acc ds ≡ some (value acc ds)
unfolding digits
digits-value acc [] h = refl
digits-value acc (x ∷ xs) h = ground (arith, digits-value (acc * 10 + (x - b'0')) xs h.2)

split-Digits : (ds : List ℕ) → Digits ds → split b',' ds ≡ ds ∷ []
unfolding split
split-Digits [] h = refl
split-Digits (x ∷ xs) h = ground (arith, split-Digits xs h.2)

split-comma : (ds es : List ℕ) → Digits ds → split b',' (ds ++ b',' ∷ es) ≡ ds ∷ split b',' es
unfolding split
split-comma [] es h = refl
split-comma (x ∷ xs) es h = ground (arith, split-comma xs es h.2)

-- A run of digits that spells an int64.
pub record Number (ds : List ℕ) : Type 0 where
  pub some_digit : ds ≢ []
  pub all_digits : Digits ds
  pub fits : value 0 ds < 2 ^ 63

atoi-Number : (ds : List ℕ) → Number ds → atoi ds ≡ some (pos (value 0 ds))
unfolding atoi unsigned
atoi-Number [] h = absurd (h.some_digit refl)
atoi-Number (x ∷ xs) h =
    ground (arith, digits-value 0 (x ∷ xs) h.all_digits, h.all_digits.0, h.all_digits.1, h.fits)

atois-one : (ds : List ℕ) → Number ds → atois ds ≡ ok (pos (value 0 ds) ∷ [])
unfolding atois atoi_all
atois-one ds h = rw (split-Digits ds h.all_digits, atoi-Number ds h)

atois-two :
    (ds es : List ℕ)
    → Number ds
    → Number es
    → atois (ds ++ b',' ∷ es) ≡ ok (pos (value 0 ds) ∷ pos (value 0 es) ∷ [])
unfolding atois atoi_all
atois-two ds es h k = rw (
  split-comma ds es h.all_digits,
  split-Digits es k.all_digits,
  atoi-Number ds h,
  atoi-Number es k,
)

-- The functions of one argument.
pub data Kind : Type 0 where
  max_kind min_kind all_kind sum_kind avg_kind diff_kind pdiff_kind stddev_kind : Kind

abbrev pub name_of : Kind → List ℕ
name_of max_kind = codes "max"
name_of min_kind = codes "min"
name_of all_kind = codes "all"
name_of sum_kind = codes "sum"
name_of avg_kind = codes "avg"
name_of diff_kind = codes "diff"
name_of pdiff_kind = codes "pdiff"
name_of stddev_kind = codes "stddev"

abbrev pub make : {V : Type 0} → Kind → Params V → Function V
make max_kind p = Function.max p
make min_kind p = Function.min p
make all_kind p = Function.all p
make sum_kind p = Function.sum p
make avg_kind p = Function.avg p
make diff_kind p = Function.diff p
make pdiff_kind p = Function.pdiff p
make stddev_kind p = Function.stddev p

name_of-Without : (k : Kind) → Without b'#' (name_of k)
name_of-Without max_kind = omega arith
name_of-Without _ = omega arith

-- The name is that of no function.
pub record Unknown (name : List ℕ) : Type 0 where
  pub no_kind : (k : Kind) → name ≢ name_of k
  pub no_lookup : name ≢ codes "lookup"

pub bytes_eq→eq : (xs ys : List ℕ) → bytes_eq xs ys ≡ true → xs ≡ ys
unfolding bytes_eq
bytes_eq→eq [] [] h = refl
bytes_eq→eq [] (y ∷ ys) h = cc
bytes_eq→eq (x ∷ xs) [] h = cc
bytes_eq→eq (x ∷ xs) (y ∷ ys) h = ground (arith, bytes_eq→eq xs ys)

differs : (xs ys : List ℕ) → xs ≢ ys → bytes_eq xs ys ≡ false
differs xs ys h = elim (Bool-cases (bytes_eq xs ys)) [
  | inl same ↦ absurd (h (bytes_eq→eq xs ys same))
  | inr other ↦ other
]

module _ {V : Type 0} (operator : String) (right : V) where
  abbrev pub params : ℤ → Params V
  params n = record { limit = n; operator = operator; right_value = right }

  select-one :
      (k : Kind) (n : ℤ) (ns : List ℤ)
      → select (name_of k) (n ∷ ns) operator right ≡ ok (make k (params n))
  unfolding select
  select-one max_kind n ns = refl
  select-one min_kind n ns = refl
  select-one all_kind n ns = refl
  select-one sum_kind n ns = refl
  select-one avg_kind n ns = refl
  select-one diff_kind n ns = refl
  select-one pdiff_kind n ns = refl
  select-one stddev_kind n ns = refl

  select-Unknown :
      (name : List ℕ) (ns : List ℤ) → Unknown name → select name ns operator right ≡ err
  unfolding select
  select-Unknown name ns u = rw (
    differs name (name_of max_kind) (u.no_kind max_kind),
    differs name (name_of min_kind) (u.no_kind min_kind),
    differs name (name_of all_kind) (u.no_kind all_kind),
    differs name (name_of sum_kind) (u.no_kind sum_kind),
    differs name (name_of avg_kind) (u.no_kind avg_kind),
    differs name (name_of diff_kind) (u.no_kind diff_kind),
    differs name (name_of pdiff_kind) (u.no_kind pdiff_kind),
    differs name (codes "lookup") u.no_lookup,
    differs name (name_of stddev_kind) (u.no_kind stddev_kind),
  )

  select-lookup :
      (m n : ℤ)
      → (select (codes "lookup") (m ∷ n ∷ []) operator right ≡ ok (Function.lookup m (params n)))
        × (select (codes "lookup") (m ∷ []) operator right ≡ panic)
  unfolding select
  select-lookup m n = (refl, refl)

  -- `name(#n)` is read as the function of that name with the limit n.
  pub parse_one_argument :
      (k : Kind) (ds : List ℕ)
      → Number ds
      → parse_func_from_string (form (name_of k) b'(' ds b')') operator right
        ≡ ok (make k (params (pos (value 0 ds))))
  parse_one_argument k ds h =
      parse-form operator right (name_of k) b'(' ds b')' (name_of-Without k) (omega arith)
      ∙ rw (atois-one ds h) (select-one k (pos (value 0 ds)) [])

  -- `lookup(#m,n)` is read as the lookup of m hits in n points; `lookup(#m)` panics.
  pub parse_lookup :
      (ds es : List ℕ)
      → Number ds
      → Number es
      → (parse_func_from_string (form (codes "lookup") b'(' (ds ++ b',' ∷ es) b')') operator right
          ≡ ok (Function.lookup (pos (value 0 ds)) (params (pos (value 0 es)))))
        × (parse_func_from_string (form (codes "lookup") b'(' ds b')') operator right ≡ panic)
  parse_lookup ds es h k =
      let hits = select-lookup (pos (value 0 ds)) (pos (value 0 es)) in
      let read = λ (args : List ℕ).
        parse-form operator right (codes "lookup") b'(' args b')' (omega arith) (omega arith) in
      (
        read (ds ++ b',' ∷ es) ∙ rw (atois-two ds es h k) hits.0,
        read ds ∙ rw (atois-one ds h) hits.1,
      )

  -- An unknown name with one well-formed argument is an error.
  pub parse-Unknown :
      (name ds : List ℕ)
      → Without b'#' name
      → Unknown name
      → Number ds
      → parse_func_from_string (form name b'(' ds b')') operator right ≡ err
  parse-Unknown name ds w u h =
      parse-form operator right name b'(' ds b')' w (omega arith)
      ∙ rw (atois-one ds h) (select-Unknown name (pos (value 0 ds) ∷ []) u)

  slice_low : (s : List ℕ) (n : ℕ) → slice s (pos 0) (negsuc n) ≡ panic
  unfolding slice
  slice_low s n = ground arith

  slice-init :
      (ds : List ℕ) (last : ℕ)
      → slice (ds ++ last ∷ []) (negsuc 0 +ℤ pos 1) (pos (length (ds ++ last ∷ [])) -ℤ pos 1)
        ≡ ok ds
  slice-init ds last =
      let size = length-append ds (last ∷ []) in
      let lo : negsuc 0 +ℤ pos 1 ≡ pos 0 = omega int_laws in
      let hi : pos (length (ds ++ last ∷ [])) -ℤ pos 1 ≡ pos (0 + length ds) =
        omega (int_laws, size) in
      rw (lo, hi, slice_lem (ds ++ last ∷ []) 0 (length ds) (omega (arith, size)))
        (ap ok (take_left ds (last ∷ [])))

  parse_no_name :
      (x : ℕ) (xs args : List ℕ) (ns : List ℤ)
      → slice (x ∷ xs) (index b'#' 0 (x ∷ xs) +ℤ pos 1) (pos (length (x ∷ xs)) -ℤ pos 1) ≡ ok args
      → atois args ≡ ok ns
      → slice (x ∷ xs) (pos 0) (index b'#' 0 (x ∷ xs) -ℤ pos 1) ≡ panic
      → parse_func_from_string (x ∷ xs) operator right ≡ panic
  unfolding parse_func_from_string
  parse_no_name x xs args ns e1 e2 e3 = rw (e1, e2, e3)

  -- A text without '#' whose bytes but the last spell a number panics: "3)" does.
  pub parse_no_hash :
      (ds : List ℕ) (last : ℕ)
      → Without b'#' (ds ++ last ∷ [])
      → Number ds
      → parse_func_from_string (ds ++ last ∷ []) operator right ≡ panic
  parse_no_hash [] last w h = absurd (h.some_digit refl)
  parse_no_hash (x ∷ ds) last w h =
      let idx = index-absent b'#' 0 (x ∷ ds ++ last ∷ []) w in
      let low : negsuc 0 -ℤ pos 1 ≡ negsuc 1 = omega int_laws in
      parse_no_name x (ds ++ last ∷ []) (x ∷ ds) (pos (value 0 (x ∷ ds)) ∷ [])
        (rw idx (slice-init (x ∷ ds) last)) (atois-one (x ∷ ds) h)
        (rw (idx, low) (slice_low (x ∷ ds ++ last ∷ []) 1))
