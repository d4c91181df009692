-- ===== src/ConfReader/Lookup.antt =====
-- What get_value of src/conf/conf-reader.c finds in a file that was read.
use nose.Common.{
  ℕ, zero, suc, ◌+◌, ◌-◌, ◌≤◌, ◌<◌, ◌≡◌, ◌≢◌, refl, sym, ap, ◌∙◌, Bool, true, false, ltb,
  if◌then◌else◌, Option, none, some, List, [], ◌∷◌, ◌++◌, length, drop, Outcome, done, fault, All,
  arith, length-append, le→ltb, take-length, Status, ok, failed,
}
use mathlib.Core.List.{append_assoc, append-nil}
use nose.Common.Strings.{c_str, bytes_eq, strncpy}
use nose.ConfReader.{
  ConfItem, ConfReader, readable, max, cleared, fgets, add_line, conf_loop, conf_parser, read_conf,
  find_value, get_value,
}
use nose.ConfReader.Line.{
  IsEntry, line_of, fgets-line, add_line-entry, padded-short, drop-cleared, length-line, All-append,
}

-- Keys and values, and the file with a line for each.
abbrev pub Entries : Type 0
Entries = List (List ℕ × List ℕ)

abbrev pub file_of : Entries → List ℕ
file_of [] = []
file_of ((k, v) ∷ rest) = line_of k v ++ file_of rest

abbrev pub AreEntries : Entries → Type 0
AreEntries = All (λ e. IsEntry e.0 e.1)

-- The value of the first entry with the key.
abbrev pub lookup : List ℕ → Entries → Option (List ℕ)
lookup key [] = none
lookup key ((k, v) ∷ rest) = if bytes_eq k key then some v else lookup key rest

-- What get_value does with it: it goes to the front of the caller's array, if that has the room.
abbrev pub copied : Option (List ℕ) → List ℕ → Outcome (Status × List ℕ)
copied none value = done (failed, value)
copied (some v) value =
    if ltb (length value) (length v) then fault else done (ok, v ++ drop (length v) value)

-- The items that stand for the entries.
Match : List ConfItem → Entries → Type 0
Match [] [] = Unit {0}
Match [] (e ∷ es) = ⊥
Match (x ∷ xs) [] = ⊥
Match (x ∷ xs) (e ∷ es) = (c_str x.key ≡ e.0) × (c_str x.value ≡ e.1) × Match xs es

add_line_empty : (items : List ConfItem) → add_line [] items ≡ done items
unfolding add_line
add_line_empty items =
    let zeros : c_str cleared ≡ [] =
      ap c_str (drop-cleared 0 (omega arith)) ∙ (unfold c_str in refl) in
    rw zeros refl

loop_nil : (fuel : ℕ) (items : List ConfItem) → conf_loop (suc fuel) false [] items ≡ done items
unfolding conf_loop fgets
loop_nil fuel items = rw (add_line_empty items) refl

loop_line :
    (fuel : ℕ) (k v rest : List ℕ) (items items' : List ConfItem)
    → IsEntry k v
    → add_line (line_of k v) items ≡ done items'
    → conf_loop (suc fuel) false (line_of k v ++ rest) items ≡ conf_loop fuel false rest items'
unfolding conf_loop
loop_line fuel k v rest items items' h e =
    let split : line_of k v ++ rest ≡ (k ++ 61 ∷ v) ++ 10 ∷ rest =
      append_assoc k (61 ∷ (v ++ 10 ∷ [])) rest
      ∙ ap (λ t. k ++ 61 ∷ t) (append_assoc v (10 ∷ []) rest)
      ∙ sym (append_assoc k (61 ∷ v) (10 ∷ rest)) in
    let line : (k ++ 61 ∷ v) ++ 10 ∷ [] ≡ line_of k v = append_assoc k (61 ∷ v) (10 ∷ []) in
    let got : fgets (max - 1) false (line_of k v ++ rest) ≡ (line_of k v, rest, false) =
      ap (fgets (max - 1) false) split
      ∙ fgets-line (max - 1) false (k ++ 61 ∷ v) rest
          (All-append (λ c. c ≢ 10) k (61 ∷ v) h.key_line (omega arith, h.value_line))
          (omega (arith, h.fits, length-append k (61 ∷ v)))
      ∙ ap (λ l. (l, rest, false)) line in
    rw (got, e) refl

loop-entries :
    (entries : Entries) (items : List ConfItem) (fuel : ℕ)
    → AreEntries entries
    → length items + length entries ≤ max
    → length entries < fuel
    → (new : List ConfItem) × (conf_loop fuel false (file_of entries) items ≡ done (items ++ new))
      × Match new entries
unfolding conf_loop Match
loop-entries [] items zero v h f = absurd (omega arith)
loop-entries [] items (suc fuel) v h f =
    ([], loop_nil fuel items ∙ ap done (sym (append-nil items)), tt)
loop-entries ((k, val) ∷ rest) items zero v h f = absurd (omega arith)
loop-entries ((k, val) ∷ rest) items (suc fuel) v h f =
    let (item, a, p, q) = add_line-entry k val items v.0 (omega arith) in
    let (new, e, m) =
      loop-entries rest (items ++ item ∷ []) fuel v.1
        (omega (arith, length-append items (item ∷ []))) (omega arith) in
    (
      item ∷ new,
      loop_line fuel k val (file_of rest) items _ v.0 a
          ∙ e
          ∙ ap done (append_assoc items (item ∷ []) new),
      (p, q, m),
    )

entries_le : (entries : Entries) → length entries ≤ length (file_of entries)
entries_le [] = omega arith
entries_le ((k, v) ∷ rest) =
    omega (arith, entries_le rest, length-line k v, length-append (line_of k v) (file_of rest))

picked :
    (b : Bool) (rest : Option (List ℕ)) (v value : List ℕ)
    → (if b
        then (if ltb (length value) (length v)
            then fault
            else done (ok, v ++ drop (length v) value))
        else copied rest value)
      ≡ copied (if b then some v else rest) value
picked true rest v value = refl
picked false rest v value = refl

find_value-lookup :
    (items : List ConfItem) (entries : Entries) (key value : List ℕ)
    → Match items entries
    → find_value items key value ≡ copied (lookup (c_str key) entries) value
unfolding find_value Match
find_value-lookup [] [] key value m = refl
find_value-lookup [] (e ∷ es) key value m = elim m [ ]
find_value-lookup (x ∷ xs) [] key value m = elim m [ ]
find_value-lookup (x ∷ xs) (e ∷ es) key value (p, q, m) =
    let text : strncpy value x.value (length (c_str x.value)) ≡ e.1 ++ drop (length e.1) value =
      rw
        (
          padded-short (length (c_str x.value)) (c_str x.value) (omega arith),
          take-length (c_str x.value),
          q,
        )
        refl in
    rw (text, p, q, find_value-lookup xs es key value m)
      (picked _ (lookup (c_str key) es) e.1 value)

-- The same with one reader for all keys.
pub read_conf-all :
    (reader : ConfReader) (path : List ℕ) (entries : Entries)
    → length (c_str path) ≤ length reader.file_path
    → AreEntries entries
    → length entries ≤ max
    → (reader' : ConfReader) × (read_conf reader path (some (readable (file_of entries)))
        ≡ done (ok, reader'))
      × ((key value : List ℕ)
          → get_value reader' key value ≡ copied (lookup (c_str key) entries) value)
unfolding read_conf conf_parser get_value
read_conf-all reader path entries p v h =
    let (new, e, m) =
      loop-entries entries [] (length (file_of entries) + 1) v (omega arith)
        (omega (arith, entries_le entries)) in
    (
      record { file_path = strncpy reader.file_path path (length (c_str path)); items = new },
      rw (le→ltb (length reader.file_path) (length (c_str path)) p, e) refl,
      λ key value. find_value-lookup new entries key value m,
    )

-- A readable file of lines `key=value` with lines short enough, 1024 at most, whose path fits its array, is
-- read, and get_value then answers for any key with the value of the first line with that key: OK
-- with the value in front of the caller's array, undefined behaviour when it does not fit, and
-- FAILED with the array unchanged for a key that the file does not have.
pub read_conf-lookup :
    (reader : ConfReader) (path key value : List ℕ) (entries : Entries)
    → length (c_str path) ≤ length reader.file_path
    → AreEntries entries
    → length entries ≤ max
    → (reader' : ConfReader) × (read_conf reader path (some (readable (file_of entries)))
        ≡ done (ok, reader'))
      × (get_value reader' key value ≡ copied (lookup (c_str key) entries) value)
read_conf-lookup reader path key value entries p v h =
    let (reader', e, get) = read_conf-all reader path entries p v h in (reader', e, get key value)
