-- ===== src/Graph/Keys/RoundTrip.antt =====
-- A key that was formed is taken apart into what it was formed from.
use native.Mathlib.Omega.{div_fact, mod_fact}
use Prim.Native.Char.{code}
use text.Mathlib.TextLemmas.{nil-append, cons-append}
use ref_falcon.Prelude.{
  ℕ, zero, suc, ◌+◌, ◌-◌, ◌*◌, ◌/◌, ◌%◌, ◌^◌, ◌≤◌, ◌<◌, ◌≡◌, ◌≢◌, refl, ap, ◌∙◌, inl, inr, List, [],
  ◌∷◌, ◌++◌, some, arith, ok, or_err, ◌>>=◌, ltb, ltb→lt, Bool-cases,
}
use ref_falcon.Prelude.Int.{ℤ, pos, negsuc, pos_part, neg_part, ◌-ℤ◌, int_laws}
use ref_falcon.Prelude.Text.{String, str_append, codes, show, show_digits, pick, numerals}
use ref_falcon.Judge.Parse.{split, unsigned}
use ref_falcon.Judge.Parse.Args.{Digits, value, digits-value}
use ref_falcon.Judge.Rules.{◌+++◌}
use ref_falcon.Graph.Keys.{form_rrd_cache_key, parse_int_32, three_parts, split_rrd_cache_key}

codes-++ : (a b : String) → codes (str_append a b) ≡ codes a ++ codes b
codes-++ String.[] b = ap codes (nil-append b)
codes-++ (String.◌∷◌ c s) b = ap codes (cons-append c s b) ∙ ap (◌∷◌ (code c)) (codes-++ s b)

digit : (n : ℕ) → n < 10 → codes (pick numerals n) ≡ (b'0' + n) ∷ []
digit zero h = refl
digit (suc zero) h = refl
digit (suc (suc zero)) h = refl
digit (suc (suc (suc zero))) h = refl
digit (suc (suc (suc (suc zero)))) h = refl
digit (suc (suc (suc (suc (suc zero))))) h = refl
digit (suc (suc (suc (suc (suc (suc zero)))))) h = refl
digit (suc (suc (suc (suc (suc (suc (suc zero))))))) h = refl
digit (suc (suc (suc (suc (suc (suc (suc (suc zero)))))))) h = refl
digit (suc (suc (suc (suc (suc (suc (suc (suc (suc zero))))))))) h = refl
digit (suc (suc (suc (suc (suc (suc (suc (suc (suc (suc n)))))))))) h = absurd (omega arith)

Digits-++ : (xs ys : List ℕ) → Digits xs → Digits ys → Digits (xs ++ ys)
Digits-++ [] ys h k = k
Digits-++ (x ∷ xs) ys h k = (h.0, h.1, Digits-++ xs ys h.2 k)

value-snoc :
    (acc : ℕ) (xs : List ℕ) (d : ℕ) → value acc (xs ++ (b'0' + d) ∷ []) ≡ value acc xs * 10 + d
value-snoc acc [] d = omega arith
value-snoc acc (x ∷ xs) d = value-snoc (acc * 10 + (x - b'0')) xs d

-- The digits of a number, when the fuel is larger than it.
not_empty : (xs : List ℕ) (d : ℕ) → (xs ++ d ∷ []) ≢ []
not_empty [] d e = cc
not_empty (x ∷ xs) d e = cc

-- A text that spells a number in digits.
abbrev Spells : ℕ → List ℕ → Type 0
Spells n ds = Digits ds × (value 0 ds ≡ n) × (ds ≢ [])

show_digits_lem : (fuel n : ℕ) → n < fuel → Spells n (codes (show_digits fuel n))
unfolding show_digits
show_digits_lem zero n h = absurd (omega arith)
show_digits_lem (suc fuel) n h = elim (Bool-cases (ltb n 10)) [
  | inl small ↦
      rw (small, show_digits, digit n (ltb→lt n 10 small))
        ((omega arith, omega (arith, ltb→lt n 10 small), tt), omega arith, λ e. cc)
  | inr large ↦
      let (ds, v, some_digit) =
        show_digits_lem fuel (n / 10) (ground (arith, div_fact n 9, mod_fact n 9)) in
      let last = digit (n % 10) (omega (arith, mod_fact n 9)) in
      rw (large, show_digits, codes-++ (show_digits fuel (n / 10)) (pick numerals (n % 10)), last)
        (
          Digits-++ _ _ ds (omega arith, omega (arith, mod_fact n 9), tt),
          value-snoc 0 (codes (show_digits fuel (n / 10))) (n % 10)
              ∙ omega (arith, v, div_fact n 9, mod_fact n 9),
          not_empty _ _,
        )
]

-- A text with no underscore.
abbrev pub Plain : List ℕ → Type 0
Plain [] = Unit {0}
Plain (x ∷ xs) = (x ≢ b'_') × Plain xs

split_lem : (xs ys : List ℕ) → Plain xs → split b'_' (xs ++ b'_' ∷ ys) ≡ xs ∷ split b'_' ys
unfolding split
split_lem [] ys h = refl
split_lem (x ∷ xs) ys h = ground (arith, split_lem xs ys h.1, h.0)

split-Plain : (xs : List ℕ) → Plain xs → split b'_' xs ≡ xs ∷ []
unfolding split
split-Plain [] h = refl
split-Plain (x ∷ xs) h = ground (arith, split-Plain xs h.1, h.0)

Digits-Plain : (ds : List ℕ) → Digits ds → Plain ds
Digits-Plain [] h = tt
Digits-Plain (x ∷ xs) h = (λ e. omega (arith, h.0, h.1), Digits-Plain xs h.2)

unsigned_lem : (n : ℕ) (ds : List ℕ) → Spells n ds → unsigned ds ≡ some n
unfolding unsigned
unsigned_lem n [] h = absurd (h.2 refl)
unsigned_lem n (x ∷ xs) h = digits-value 0 (x ∷ xs) h.0 ∙ ap some h.1

positive_lem : (n : ℕ) (ds : List ℕ) → n < 2 ^ 31 → Spells n ds → parse_int_32 ds ≡ some (pos n)
unfolding parse_int_32
positive_lem n [] h s = absurd (s.2 refl)
positive_lem n (x ∷ xs) h s = ground (arith, unsigned_lem n (x ∷ xs) s, s.0.0, s.0.1)

-- A value of int32.
abbrev pub IsInt32 : ℤ → Type 0
IsInt32 z = (pos_part z < 2 ^ 31) × (neg_part z ≤ 2 ^ 31)

codes-show_minus :
    (n : ℕ) → codes (show (negsuc n)) ≡ b'-' ∷ codes (show_digits (suc (suc n)) (suc n))
unfolding show
codes-show_minus n = codes-++ "-" (show_digits (suc (suc n)) (suc n))

minus_lem :
    (n : ℕ) (ds : List ℕ)
    → suc n ≤ 2 ^ 31
    → unsigned ds ≡ some (suc n)
    → parse_int_32 (b'-' ∷ ds) ≡ some (negsuc n)
unfolding parse_int_32
minus_lem n ds h u = rw u (ground (arith, minus n))
  where
    minus : (k : ℕ) → pos 0 -ℤ pos (suc k) ≡ negsuc k
    minus k = omega int_laws

parse-show : (z : ℤ) → IsInt32 z → parse_int_32 (codes (show z)) ≡ some z
unfolding show
parse-show (pos n) h = positive_lem n _ h.0 (show_digits_lem (suc n) n (omega arith))
parse-show (negsuc n) h =
    ap parse_int_32 (codes-show_minus n)
    ∙ minus_lem n _ h.1
        (unsigned_lem (suc n) _ (show_digits_lem (suc (suc n)) (suc n) (omega arith)))

Plain-show : (z : ℤ) → Plain (codes (show z))
unfolding show
Plain-show (pos n) = Digits-Plain _ (show_digits_lem (suc n) n (omega arith)).0
Plain-show (negsuc n) =
    rw (codes-show_minus n)
      ((λ e. omega arith), Digits-Plain _ (show_digits_lem (suc (suc n)) (suc n) (omega arith)).0)

codes-form :
    (md5 ds_type : String) (step : ℤ)
    → codes (form_rrd_cache_key md5 ds_type step)
      ≡ codes md5 ++ b'_' ∷ (codes ds_type ++ b'_' ∷ codes (show step))
unfolding form_rrd_cache_key
codes-form md5 ds_type step =
    codes-++ md5 ("_" +++ ds_type +++ "_" +++ show step)
    ∙ ap (◌++◌ (codes md5)) (
        codes-++ "_" (ds_type +++ "_" +++ show step)
        ∙ ap (◌∷◌ b'_') (
            codes-++ ds_type ("_" +++ show step)
            ∙ ap (◌++◌ (codes ds_type)) (codes-++ "_" (show step))))

-- With a checksum and a type that have no underscore, and a step that is an int32, a key that was
-- formed is taken apart into the three.
pub split_rrd_cache_key-form :
    (md5 ds_type : String) (step : ℤ)
    → Plain (codes md5)
    → Plain (codes ds_type)
    → IsInt32 step
    → split_rrd_cache_key (codes (form_rrd_cache_key md5 ds_type step))
      ≡ ok (codes md5, codes ds_type, step)
unfolding split_rrd_cache_key
split_rrd_cache_key-form md5 ds_type step m d s =
    let parts : split b'_' (codes (form_rrd_cache_key md5 ds_type step))
        ≡ codes md5 ∷ codes ds_type ∷ codes (show step) ∷ [] =
      ap (split b'_') (codes-form md5 ds_type step)
      ∙ split_lem (codes md5) _ m
      ∙ ap (◌∷◌ (codes md5)) (
          split_lem (codes ds_type) _ d
          ∙ ap (◌∷◌ (codes ds_type)) (split-Plain (codes (show step)) (Plain-show step))) in
    ap three_parts parts
    ∙ ap (λ o. or_err o >>= λ z. ok (codes md5, codes ds_type, z)) (parse-show step s)
