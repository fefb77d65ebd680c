-- ===== src/Prelude/Text.antt =====
-- Texts: whole strings are compared, and association lists under string keys stand for Go maps.
use Prim.Native.Char.{code}
pub use Prim.Native.String.{String, ◌++◌ as str_append}
use Prim.Native.String.{◌++◌}
pub use text.Mathlib.Text.{◌==◌ as str_eq}
pub use text.Mathlib.TextEquality.{eq_iff}
pub use text.Mathlib.TextPositions.{eq_refl}
use ref_falcon.Prelude.Int.{ℤ, pos, negsuc}
use ref_falcon.Prelude.{
  ℕ, zero, suc, ◌/◌, ◌%◌, ltb, true, false, ◌≡◌, refl, List, [], ◌∷◌, Option, none, some, arith,
  if◌then◌else◌,
}

-- The code points of a text: its bytes, if it is ASCII.
abbrev pub codes : String → List ℕ
codes String.[] = []
codes (String.◌∷◌ c s) = code c ∷ codes s

-- `s[0]`, which panics on "". It is compared to ASCII bytes only, so the code point serves.
abbrev pub first_byte : String → Option ℕ
first_byte String.[] = none
first_byte (String.◌∷◌ c s) = some (code c)

-- `fmt.Sprintf("%d", z)`: decimal digits, with a fuel of one more than the number.
abbrev pub pick : List String → ℕ → String
pick [] n = ""
pick (x ∷ xs) zero = x
pick (x ∷ xs) (suc n) = pick xs n

abbrev pub numerals : List String
numerals = "0" ∷ "1" ∷ "2" ∷ "3" ∷ "4" ∷ "5" ∷ "6" ∷ "7" ∷ "8" ∷ "9" ∷ []

unfoldable pub show_digits : ℕ → ℕ → String
show_digits zero n = ""
show_digits (suc fuel) n = elim (ltb n 10) [
  | true ↦ pick numerals n
  | false ↦ show_digits fuel (n / 10) ++ pick numerals (n % 10)
]

unfoldable pub show : ℤ → String
unfolding show_digits
show (pos n) = show_digits (suc n) n
show (negsuc n) = "-" ++ show_digits (suc (suc n)) (suc n)

module _ {ℓ} {V : Type ℓ} where
  -- `m[key]`, with `none` where the second result is false.
  unfoldable pub lookup : String → List (String × V) → Option V
  lookup key [] = none
  lookup key ((name, val) ∷ rest) = if str_eq name key then some val else lookup key rest

  -- `m[key] = new`.
  unfoldable pub insert : String → V → List (String × V) → List (String × V)
  insert key new [] = (key, new) ∷ []
  insert key new ((name, val) ∷ rest) =
      let others = insert key new rest in
      if str_eq name key then (key, new) ∷ rest else (name, val) ∷ others

  -- `delete(m, key)`.
  unfoldable pub delete : String → List (String × V) → List (String × V)
  delete key [] = []
  delete key ((name, val) ∷ rest) =
      let others = delete key rest in if str_eq name key then others else (name, val) ∷ others

  -- A key that was set reads what was set, and the others read what they read.
  pub lookup-insert :
      (set asked : String) (new : V) (entries : List (String × V))
      → lookup asked (insert set new entries)
        ≡ (if str_eq set asked then some new else lookup asked entries)
  unfolding lookup insert
  lookup-insert set asked new [] = refl
  lookup-insert set asked new ((name, val) ∷ rest) =
      let tail = lookup-insert set asked new rest in
      ground (arith, tail, eq_iff name set, eq_iff name asked, eq_iff set asked)

  pub lookup-delete :
      (gone asked : String) (entries : List (String × V))
      → lookup asked (delete gone entries)
        ≡ (if str_eq gone asked then none else lookup asked entries)
  unfolding lookup delete
  lookup-delete gone asked [] = ground arith
  lookup-delete gone asked ((name, val) ∷ rest) =
      let tail = lookup-delete gone asked rest in
      ground (arith, tail, eq_iff name gone, eq_iff name asked, eq_iff gone asked)
