-- ===== src/Graph/Keys.antt =====
-- graph/g/utils.go and graph/rrdtool/utils.go: the key of a list of items, the file it goes to, and
-- the worker that writes the file.
pub mod RoundTrip
pub mod Worker
use ref_falcon.Prelude.{
  ℕ, suc, ◌+◌, ◌-◌, ◌*◌, ◌^◌, Bool, true, false, not, ◌&&◌, ◌||◌, List, [], ◌∷◌, ◌++◌, length,
  Option, none, some, if◌then◌else◌, ltb, leb, ◌==◌, Run, ok, err, panic, or_err, ◌>>=◌,
}
use ref_falcon.Prelude.Int.{ℤ, pos, ltb_ℤ, leb_ℤ, eqb_ℤ, ◌-ℤ◌}
use ref_falcon.Prelude.Text.{String, codes, show}
use ref_falcon.Judge.Parse.{slice, split, unsigned}
use ref_falcon.Judge.Rules.{◌+++◌}
use ref_falcon.Nodata.Judging.{rem}

unfoldable pub form_rrd_cache_key : String → String → ℤ → String
form_rrd_cache_key md5 ds_type step = md5 +++ "_" +++ ds_type +++ "_" +++ show step

-- `strconv.ParseInt(s, 10, 32)`: a sign or none, and digits, in the range of int32.
abbrev in_int32 : Bool → Option ℕ → Option ℤ
in_int32 negative none = none
in_int32 true (some n) = if leb n (2 ^ 31) then some (pos 0 -ℤ pos n) else none
in_int32 false (some n) = if ltb n (2 ^ 31) then some (pos n) else none

unfoldable pub parse_int_32 : List ℕ → Option ℤ
unfolding unsigned
parse_int_32 [] = none
parse_int_32 (x ∷ xs) =
    if x == b'-'
    then in_int32 true (unsigned xs)
    else if x == b'+'
    then in_int32 false (unsigned xs)
    else in_int32 false (unsigned (x ∷ xs))

-- The parts of a key: exactly three.
abbrev pub three_parts : List (List ℕ) → Run (List ℕ × List ℕ × ℤ)
three_parts (a ∷ b ∷ c ∷ []) = or_err (parse_int_32 c) >>= λ step. ok (a, b, step)
three_parts _ = err

unfoldable pub split_rrd_cache_key : List ℕ → Run (List ℕ × List ℕ × ℤ)
split_rrd_cache_key ckey = three_parts (split b'_' ckey)

abbrev pub file_name : List ℕ → List ℕ → List ℕ → List ℕ → ℤ → List ℕ
file_name base_dir two md5 ds_type step =
    base_dir
    ++ codes "/"
    ++ two
    ++ codes "/"
    ++ md5
    ++ codes "_"
    ++ ds_type
    ++ codes "_"
    ++ codes (show step)
    ++ codes ".rrd"

-- `md5[0:2]` panics on a shorter text.
unfoldable pub rrd_file_name : List ℕ → List ℕ → List ℕ → ℤ → Run (List ℕ)
rrd_file_name base_dir md5 ds_type step = do
  two ← slice md5 (pos 0) (pos 2)
  ok (file_name base_dir two md5 ds_type step)

-- `unicode.IsPrint` is a table of the Go library: a parameter.
unfoldable pub is_valid_string : (ℕ → Bool) → List ℕ → Bool
is_valid_string is_print [] = true
is_valid_string is_print (t ∷ r) =
    let rest = is_valid_string is_print r in
    if t == 13 || t == 10 || t == 39 || t == 34 || t == 62 || t == 26
    then false
    else if not (is_print t)
    then false
    else rest

-- `strconv.ParseInt(s, 16, 64)`.
abbrev hex_digit : ℕ → Option ℕ
hex_digit x =
    if leb b'0' x && leb x b'9'
    then some (x - b'0')
    else if leb b'a' x && leb x b'f'
    then some (x - b'a' + 10)
    else if leb b'A' x && leb x b'F'
    then some (x - b'A' + 10)
    else none

unfoldable pub hex_digits : ℕ → List ℕ → Option ℕ
hex_digits acc [] = some acc
hex_digits acc (x ∷ xs) = elim (hex_digit x) [ none ↦ none | some d ↦ hex_digits (acc * 16 + d) xs ]

abbrev pub in_int64 : Bool → Option ℕ → Option ℤ
in_int64 negative none = none
in_int64 true (some n) = if leb n (2 ^ 63) then some (pos 0 -ℤ pos n) else none
in_int64 false (some n) = if ltb n (2 ^ 63) then some (pos n) else none

unfoldable pub parse_hex : List ℕ → Option ℤ
unfolding hex_digits
parse_hex [] = none
parse_hex (x ∷ []) = in_int64 false (hex_digits 0 (x ∷ []))
parse_hex (x ∷ y ∷ ys) =
    if x == b'-'
    then in_int64 true (hex_digits 0 (y ∷ ys))
    else if x == b'+'
    then in_int64 false (hex_digits 0 (y ∷ ys))
    else in_int64 false (hex_digits 0 (x ∷ y ∷ ys))

-- `getIndex`, with `IOWorkerNum` and `FirstBytesSize` of the configuration.
abbrev pub worker_of : ℤ → Option ℤ → ℤ
worker_of batch_num none = pos 0
worker_of batch_num (some m) = rem m batch_num

unfoldable pub get_index : ℤ → ℤ → List ℕ → Run ℤ
unfolding parse_hex
get_index batch_num first_bytes_size md5 =
    if leb_ℤ batch_num (pos 1)
      || (ltb_ℤ (pos (length md5)) first_bytes_size || eqb_ℤ first_bytes_size (pos 0))
    then ok (pos 0)
    else do begin ← slice md5 (pos 0) first_bytes_size; ok (worker_of batch_num (parse_hex begin))
