-- ===== src/Aggregator/Expression/Rendered.antt =====
-- Writing an expression out and splitting it.
use ref_falcon.Prelude.{ℕ, ◌≡◌, refl, ◌∙◌, ap, Bool, true, false, List, [], ◌∷◌, ◌++◌, map, ok}
use ref_falcon.Aggregator.Expression.{is_separator, split_counter, share_out, share_items, parse}
use ref_falcon.Aggregator.Expression.Mode.{Plain, split-Plain}

-- `$(c)` with further counters, each behind its sign, and what stands behind the last bracket.
abbrev pub written : List ℕ → List (ℕ × List ℕ) → List ℕ → List ℕ
written c [] mode = b'$' ∷ b'(' ∷ (c ++ b')' ∷ mode)
written c ((op, d) ∷ rest) mode = b'$' ∷ b'(' ∷ (c ++ b')' ∷ op ∷ written d rest mode)

-- A sum in brackets is followed by their end.
abbrev pub expression : Bool → List ℕ → List (ℕ × List ℕ) → List ℕ → List ℕ
expression false c rest mode = written c rest mode
expression true c rest mode = b'(' ∷ written c rest (b')' ∷ mode)

-- A counter is a text without "$" and brackets, and not empty.
abbrev pub Counter : List ℕ → Type 0
Counter [] = ⊥
Counter (c ∷ s) = Plain (c ∷ s)

abbrev pub Terms : List (ℕ × List ℕ) → Type 0
Terms [] = Unit {0}
Terms ((op, d) ∷ rest) = (is_separator op ≡ false) × Counter d × Terms rest

-- The items behind the first.
abbrev items : List ℕ → List (ℕ × List ℕ) → List ℕ → List (List ℕ)
items c [] mode = c ∷ mode ∷ []
items c ((op, d) ∷ rest) mode = c ∷ (op ∷ []) ∷ items d rest mode

split_at :
    (w : List ℕ) (c : ℕ) (s : List ℕ)
    → Plain w
    → is_separator c ≡ true
    → split_counter false (w ++ c ∷ s) ≡ w ∷ split_counter true s
unfolding split_counter
split_at [] c s p h = rw h
split_at (x ∷ w) c s p h = rw (p.0, split_at w c s p.1 h)

split_counter-Counter :
    (w s : List ℕ) → Counter w → split_counter true (w ++ b')' ∷ s) ≡ w ∷ split_counter true s
unfolding split_counter
split_counter-Counter [] s p = absurd p
split_counter-Counter (x ∷ w) s p = rw (p.0, split_at w b')' s p.1 refl)

split_start :
    (d : List ℕ) (rest : List (ℕ × List ℕ)) (tail : List ℕ)
    → split_counter false (written d rest tail) ≡ [] ∷ split_counter true (written d rest tail)
unfolding split_counter
split_start d [] tail = refl
split_start d (t ∷ rest) tail = refl

split_written :
    (c : List ℕ) (rest : List (ℕ × List ℕ)) (tail mode : List ℕ)
    → Counter c
    → Terms rest
    → split_counter true tail ≡ mode ∷ []
    → split_counter true (written c rest tail) ≡ items c rest mode
unfolding split_counter
split_written c [] tail mode p t m = split_counter-Counter c tail p ∙ rw m
split_written c ((op, d) ∷ rest) tail mode p (sign, q, t) m =
    split_counter-Counter c (op ∷ written d rest tail) p
    ∙ rw (sign, split_start d rest tail, split_written d rest tail mode q t m)

split_expression :
    (bracketed : Bool) (c : List ℕ) (rest : List (ℕ × List ℕ)) (mode : List ℕ)
    → Counter c
    → Terms rest
    → Plain mode
    → split_counter false (expression bracketed c rest mode) ≡ [] ∷ items c rest mode
unfolding split_counter
split_expression false c rest mode p t m =
    split_start c rest mode
    ∙ ap (◌∷◌ []) (split_written c rest mode mode p t (split-Plain true mode m))
split_expression true c rest mode p t m =
    ap (◌∷◌ []) (split_written c rest (b')' ∷ mode) mode p t (split-Plain true mode m))

share_out-items :
    (c : List ℕ) (rest : List (ℕ × List ℕ)) (mode : List ℕ)
    → share_out true (items c rest mode) ≡ (c ∷ map (λ t. t.1) rest, map (λ t. t.0 ∷ []) rest, mode)
unfolding share_out
share_out-items c [] mode = refl
share_out-items c ((op, d) ∷ []) mode = refl
share_out-items c ((op, d) ∷ t ∷ rest) mode =
    ap (λ r. (c ∷ r.0, (op ∷ []) ∷ r.1, r.2)) (share_out-items d (t ∷ rest) mode)

shared :
    (c : List ℕ) (rest : List (ℕ × List ℕ)) (mode : List ℕ)
    → share_items ([] ∷ items c rest mode) ≡ ok (share_out true (items c rest mode))
shared c [] mode = refl
shared c (t ∷ rest) mode = refl

-- An expression that is written out of counters, which are not empty and have no "$" and no brackets, with a sign
-- of one byte before each further counter, in brackets or not, and with a mode at the end, is
-- taken apart into these counters, these signs and this mode.
pub parse-written :
    (bracketed : Bool) (c : List ℕ) (rest : List (ℕ × List ℕ)) (mode : List ℕ)
    → Counter c
    → Terms rest
    → Plain mode
    → parse (expression bracketed c rest mode) true
      ≡ ok (c ∷ map (λ t. t.1) rest, map (λ t. t.0 ∷ []) rest, mode)
unfolding parse
parse-written bracketed c rest mode p t m =
    ap share_items (split_expression bracketed c rest mode p t m)
    ∙ shared c rest mode
    ∙ ap ok (share_out-items c rest mode)
