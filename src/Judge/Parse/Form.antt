-- ===== src/Judge/Parse/Form.antt =====
-- How the texts of functions are read.
use ref_falcon.Prelude.{
  ℕ, suc, ◌+◌, ◌-◌, ◌≤◌, ◌≡◌, ◌≢◌, refl, ap, ◌∙◌, true, ◌&&◌, List, [], ◌∷◌, ◌++◌, length, take,
  drop, ok, ◌>>=◌, arith, length-append,
}
use ref_falcon.Prelude.Int.{pos, negsuc, leb_ℤ, ◌+ℤ◌, ◌-ℤ◌, int_laws}
use ref_falcon.Prelude.Text.{String}
use ref_falcon.Judge.Parse.{slice, index, atois, select, parse_func_from_string}

-- The byte c does not stand in the text.
abbrev pub Without : ℕ → List ℕ → Type 0
Without c [] = Unit {0}
Without c (x ∷ xs) = (x ≢ c) × Without c xs

index-form :
    (i lb : ℕ) (name rest : List ℕ)
    → Without b'#' name
    → lb ≢ b'#'
    → index b'#' i (name ++ lb ∷ b'#' ∷ rest) ≡ pos (i + suc (length name))
unfolding index
index-form i lb [] rest w h = ground arith
index-form i lb (x ∷ name) rest w h = ground (arith, index-form (suc i) lb name rest w.1 h)

pub index-absent : (c i : ℕ) (xs : List ℕ) → Without c xs → index c i xs ≡ negsuc 0
unfolding index
index-absent c i [] w = refl
index-absent c i (x ∷ xs) w = ground (arith, index-absent c (suc i) xs w.1)

pub take_left : (xs ys : List ℕ) → take (length xs) (xs ++ ys) ≡ xs
take_left [] ys = refl
take_left (x ∷ xs) ys = ap (◌∷◌ x) (take_left xs ys)

drop_left : (xs ys : List ℕ) → drop (length xs) (xs ++ ys) ≡ ys
drop_left [] ys = refl
drop_left (x ∷ xs) ys = drop_left xs ys

in_range :
    (s : List ℕ) (lo n : ℕ)
    → lo + n ≤ length s
    → (leb_ℤ (pos 0) (pos lo)
        && (leb_ℤ (pos lo) (pos (lo + n)) && leb_ℤ (pos (lo + n)) (pos (length s))))
      ≡ true
in_range s lo n h = ground arith

-- A slice whose ends are known numbers within the text.
pub slice_lem :
    (s : List ℕ) (lo n : ℕ)
    → lo + n ≤ length s
    → slice s (pos lo) (pos (lo + n)) ≡ ok (take n (drop lo s))
unfolding slice
slice_lem s lo n h = let width : lo + n - lo ≡ n = omega arith in rw (in_range s lo n h, width)

-- `name(#args)`, whatever bytes stand for the brackets.
abbrev pub form : List ℕ → ℕ → List ℕ → ℕ → List ℕ
form name lb args rb = name ++ lb ∷ b'#' ∷ (args ++ rb ∷ [])

slice_name :
    (name : List ℕ) (lb : ℕ) (args : List ℕ) (rb : ℕ)
    → slice (form name lb args rb) (pos 0) (pos (suc (length name)) -ℤ pos 1) ≡ ok name
slice_name name lb args rb =
    let e : pos (suc (length name)) -ℤ pos 1 ≡ pos (0 + length name) = omega int_laws in
    rw
      (
        e,
        slice_lem (form name lb args rb) 0 (length name)
            (omega (arith, length-append name (lb ∷ b'#' ∷ (args ++ rb ∷ [])))),
      )
      (ap ok (take_left name _))

drop_name :
    (name : List ℕ) (lb : ℕ) (rest : List ℕ)
    → drop (suc (suc (length name))) (name ++ lb ∷ b'#' ∷ rest) ≡ rest
drop_name [] lb rest = refl
drop_name (x ∷ name) lb rest = drop_name name lb rest

slice_args :
    (name : List ℕ) (lb : ℕ) (args : List ℕ) (rb : ℕ)
    → let s = form name lb args rb in
      slice s (pos (suc (length name)) +ℤ pos 1) (pos (length s) -ℤ pos 1) ≡ ok args
slice_args name lb args rb =
    let s = form name lb args rb in
    let all = length-append name (lb ∷ b'#' ∷ (args ++ rb ∷ [])) in
    let tail = length-append args (rb ∷ []) in
    let lo : pos (suc (length name)) +ℤ pos 1 ≡ pos (suc (suc (length name))) = omega int_laws in
    let hi : pos (length s) -ℤ pos 1 ≡ pos (suc (suc (length name)) + length args) =
      omega (int_laws, all, tail) in
    rw
      (
        lo,
        hi,
        slice_lem s (suc (suc (length name))) (length args) (omega (arith, all, tail)),
        drop_name name lb (args ++ rb ∷ []),
      )
      (ap ok (take_left args (rb ∷ [])))

module _ {V : Type 0} (operator : String) (right : V) where
  parse_cons :
      (x : ℕ) (xs name args : List ℕ)
      → slice (x ∷ xs) (index b'#' 0 (x ∷ xs) +ℤ pos 1) (pos (length (x ∷ xs)) -ℤ pos 1) ≡ ok args
      → slice (x ∷ xs) (pos 0) (index b'#' 0 (x ∷ xs) -ℤ pos 1) ≡ ok name
      → parse_func_from_string (x ∷ xs) operator right
        ≡ (do a ← atois args; select name a operator right)
  unfolding parse_func_from_string
  parse_cons x xs name args e1 e2 = rw (e1, e2)

  parse_text :
      (s name args : List ℕ)
      → s ≢ []
      → slice s (index b'#' 0 s +ℤ pos 1) (pos (length s) -ℤ pos 1) ≡ ok args
      → slice s (pos 0) (index b'#' 0 s -ℤ pos 1) ≡ ok name
      → parse_func_from_string s operator right ≡ (do a ← atois args; select name a operator right)
  parse_text [] name args h e1 e2 = absurd (h refl)
  parse_text (x ∷ xs) name args h e1 e2 = parse_cons x xs name args e1 e2

  form-ne-nil : (name : List ℕ) (lb : ℕ) (args : List ℕ) (rb : ℕ) → form name lb args rb ≢ []
  form-ne-nil [] lb args rb = λ e. cc
  form-ne-nil (x ∷ name) lb args rb = λ e. cc

  -- `name(#args)` is read as its name and its arguments, whatever two bytes stand for the brackets.
  pub parse-form :
      (name : List ℕ) (lb : ℕ) (args : List ℕ) (rb : ℕ)
      → Without b'#' name
      → lb ≢ b'#'
      → parse_func_from_string (form name lb args rb) operator right
        ≡ (do a ← atois args; select name a operator right)
  parse-form name lb args rb w h =
      let at = index-form 0 lb name (args ++ rb ∷ []) w h in
      let idx : index b'#' 0 (form name lb args rb) ≡ pos (suc (length name)) =
        at ∙ ap pos (omega arith) in
      parse_text (form name lb args rb) name args (form-ne-nil name lb args rb)
        (rw idx (slice_args name lb args rb)) (rw idx (slice_name name lb args rb))
