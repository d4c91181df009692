-- ===== src/ConfReader.antt =====
-- src/conf/conf-reader.h and src/conf/conf-reader.c: the configuration file, lines of a key and a
-- value. `none` stands for a
-- file that cannot be opened. `items` are the items
-- that are in use, so that `item_count` is their number.
pub mod Line
pub mod Rounds
pub mod Lookup
pub mod Separator
mod Tests
use nose.Common.{
  ℕ, zero, suc, ◌+◌, ◌-◌, Bool, true, false, not, ltb, ◌==◌, if◌then◌else◌, Option, none, some,
  List, [], ◌∷◌, ◌++◌, length, take, drop, replicate, Outcome, done, blocked, fault, ◌>>=◌, Status,
  ok, failed, error,
}
use nose.Common.Strings.{c_str, same_str, memcpy, strncpy}

-- `MAX`, for lines, keys, values and items.
abbrev pub max : ℕ
max = 1024

-- `MAX_FILE_PATH`
abbrev pub max_file_path : ℕ
max_file_path = 256

-- An array of `MAX` characters after memset.
unfoldable pub cleared : List ℕ
cleared = replicate max 0

pub record ConfItem : Type 0 where
  pub key : List ℕ
  pub value : List ℕ

pub record ConfReader : Type 0 where
  pub file_path : List ℕ
  pub items : List ConfItem

-- An open file: the bytes that can be read from it, and whether an error of the medium comes behind
-- them in place of the end. A directory is such a file without a byte.
pub record File : Type 0 where
  pub bytes : List ℕ
  pub broken : Bool

abbrev pub readable : List ℕ → File
readable bytes = record { bytes = bytes; broken = false }

-- fgets with room for `n` characters: the characters up to and with the first newline, what is left
-- of the file, and whether its end was met, which feof tells. An error is not the end: fgets gives
-- up, what it read so far stands in the array, and the next call fails again.
unfoldable pub fgets : ℕ → Bool → List ℕ → List ℕ × List ℕ × Bool
fgets zero broken file = ([], file, false)
fgets (suc n) broken [] = ([], [], not broken)
fgets (suc n) broken (c ∷ cs) =
    let rest = fgets n broken cs in
    if c == 10 then (c ∷ [], cs, false) else (c ∷ rest.0, rest.1, rest.2)

-- `for (split_pos = 0; split_pos < strlen(tmp) && tmp[split_pos] != '='; split_pos++);`
unfoldable pub split_pos : List ℕ → ℕ
split_pos [] = 0
split_pos (c ∷ cs) = if c == 61 then 0 else split_pos cs + 1

-- The item of a line. The value's length is strlen(tmp) - split_pos - 2 as a size_t: where it would
-- be negative it is huge, and strncpy runs past every array.
unfoldable pub line_item : List ℕ → Outcome ConfItem
unfolding split_pos
line_item tmp =
    let n = length (c_str tmp) in
    let split = split_pos (c_str tmp) in
    if ltb n (split + 2)
    then fault
    else done (record {
      key = strncpy cleared tmp split;
      value = strncpy cleared (drop (split + 1) tmp) (n - split - 2);
    })

-- A round of the loop with the line that fgets gave: nothing for an empty line.
unfoldable pub add_line : List ℕ → List ConfItem → Outcome (List ConfItem)
add_line line items =
    let tmp = memcpy cleared line (length line) in
    if length (c_str tmp) == 0 then done items else do
      item ← line_item tmp
      if ltb (length items) max then done (items ++ item ∷ []) else fault

-- The loop of conf_parser, on fuel. It looks for the end only, so an error keeps it running.
unfoldable pub conf_loop : ℕ → Bool → List ℕ → List ConfItem → Outcome (List ConfItem)
unfolding add_line line_item fgets
conf_loop zero broken file items = blocked
conf_loop (suc fuel) broken file items =
    let (line, rest, eof) = fgets (max - 1) broken file in
    add_line line items >>= λ items'.
    let next = conf_loop fuel broken rest items' in if eof then done items' else next

-- Each round but the last takes a byte from the file at least, unless it is broken.
unfoldable pub conf_parser : ConfReader → File → Outcome (Status × ConfReader)
unfolding conf_loop
conf_parser reader file = do
  items ← conf_loop (length file.bytes + 1) file.broken file.bytes reader.items
  done (ok, record reader { items = items })

unfoldable pub read_conf : ConfReader → List ℕ → Option File → Outcome (Status × ConfReader)
unfolding conf_parser
read_conf reader path none = done (error, reader)
read_conf reader path (some file) =
    let n = length (c_str path) in
    if ltb (length reader.file_path) n
    then fault
    else conf_parser (record { file_path = strncpy reader.file_path path n; items = [] }) file

-- The value is copied without the NUL at its end; it faults where it does not fit.
unfoldable pub find_value : List ConfItem → List ℕ → List ℕ → Outcome (Status × List ℕ)
find_value [] key value = done (failed, value)
find_value (item ∷ items) key value =
    let rest = find_value items key value in
    let n = length (c_str item.value) in
    if same_str item.key key
    then (if ltb (length value) n then fault else done (ok, strncpy value item.value n))
    else rest

unfoldable pub get_value : ConfReader → List ℕ → List ℕ → Outcome (Status × List ℕ)
unfolding find_value
get_value reader key value = find_value reader.items key value
