-- ===== src/ConfReader/Separator.antt =====
-- A line without a separator in a file that src/conf/conf-reader.c reads.
use nose.Common.{
  ℕ, suc, ◌+◌, ◌-◌, ◌<◌, ◌≡◌, ◌≢◌, refl, Bool, false, ◌==◌, List, [], ◌∷◌, ◌++◌, length, drop,
  fault, All, arith, length-append, lt→ltb, take-length,
}
use nose.Common.Strings.{c_str, IsText}
use nose.ConfReader.{
  ConfReader, ConfItem, max, cleared, split_pos, line_item, add_line, conf_loop, conf_parser,
}
use nose.ConfReader.Line.{fgets-line, c_str-written, All-append}

split_pos-unseparated : (s : List ℕ) → All (λ c. c ≢ 61) s → split_pos s ≡ length s
unfolding split_pos
split_pos-unseparated [] p = refl
split_pos-unseparated (c ∷ cs) p = ground (arith, split_pos-unseparated cs p.1)

add_line-unseparated :
    (line : List ℕ) (items : List ConfItem)
    → IsText line
    → All (λ c. c ≢ 61) line
    → 0 < length line
    → length line < max
    → add_line line items ≡ fault
unfolding add_line line_item
add_line-unseparated line items t p h l =
    let text : c_str (line ++ drop (length line) cleared) ≡ line = c_str-written line t l in
    let some_text : (length line == 0) ≡ false = ground arith in
    rw
      (
        take-length line,
        text,
        some_text,
        split_pos-unseparated line p,
        lt→ltb (length line) (length line + 2) (omega arith),
      )
      refl

-- A file that starts with a line without '=', a blank line for example, makes conf_parser copy a
-- negative number of characters, taken for a huge one: undefined behaviour, whatever follows.
pub conf_parser-unseparated :
    (reader : ConfReader) (line rest : List ℕ) (broken : Bool)
    → IsText line
    → All (λ c. c ≢ 10) line
    → All (λ c. c ≢ 61) line
    → length line + 1 < max
    → conf_parser reader (record { bytes = line ++ 10 ∷ rest; broken = broken }) ≡ fault
unfolding conf_parser conf_loop
conf_parser-unseparated reader line rest broken t n p h =
    let one : length (line ++ 10 ∷ rest) + 1 ≡ suc (length (line ++ 10 ∷ rest)) = omega arith in
    let whole : length (line ++ 10 ∷ []) ≡ length line + 1 =
      omega (arith, length-append line (10 ∷ [])) in
    let wild : add_line (line ++ 10 ∷ []) reader.items ≡ fault =
      add_line-unseparated (line ++ 10 ∷ []) reader.items
        (All-append (λ c. c ≢ 0) line _ t (omega arith, tt))
        (All-append (λ c. c ≢ 61) line _ p (omega arith, tt)) (omega arith) (omega arith) in
    rw (one, conf_loop, fgets-line (max - 1) broken line rest n (omega arith), wild) refl
