-- ===== src/ConfReader/Tests.antt =====
-- Concrete runs of src/conf/conf-reader.c.
use nose.Common.{
  ◌≡◌, ◌⊎◌, true, false, blocked, refl, some, [], ◌∷◌, replicate, done, fault, arith, Status, ok,
}
use nose.Common.Strings.{c_str, bytes_eq}
use nose.ConfReader.Line.{IsEntry}
use nose.ConfReader.Separator.{conf_parser-unseparated}
use nose.ConfReader.{
  ConfReader, readable, fgets, add_line, cleared, conf_loop, conf_parser, read_conf, get_value,
}
use nose.ConfReader.Rounds.{conf_parser-Returns}
use nose.ConfReader.Lookup.{Entries, file_of, read_conf-lookup}

abbrev reader : ConfReader
reader = record { file_path = replicate 256 0; items = [] }

-- "port=99" and "id=b"
abbrev entries : Entries
entries = (112 ∷ 111 ∷ 114 ∷ 116 ∷ [], 57 ∷ 57 ∷ []) ∷ (105 ∷ 100 ∷ [], 98 ∷ []) ∷ []

sample-IsEntry : IsEntry (112 ∷ 111 ∷ 114 ∷ 116 ∷ []) (57 ∷ 57 ∷ [])
sample-IsEntry = record {
  key_text = (omega arith, (omega arith, (omega arith, (omega arith, tt))));
  key_line = (omega arith, (omega arith, (omega arith, (omega arith, tt))));
  key_whole = (omega arith, (omega arith, (omega arith, (omega arith, tt))));
  value_text = (omega arith, (omega arith, tt));
  value_line = (omega arith, (omega arith, tt));
  fits = omega arith;
}

number-IsEntry : IsEntry (105 ∷ 100 ∷ []) (98 ∷ [])
number-IsEntry = record {
  key_text = (omega arith, (omega arith, tt));
  key_line = (omega arith, (omega arith, tt));
  key_whole = (omega arith, (omega arith, tt));
  value_text = (omega arith, tt);
  value_line = (omega arith, tt);
  fits = omega arith;
}

read_conf-lookup_example :
    (reader' : ConfReader) × (read_conf reader (97 ∷ []) (some (readable (file_of entries)))
      ≡ done (ok, reader'))
    × (get_value reader' (105 ∷ 100 ∷ []) (replicate 4 0) ≡ done (ok, 98 ∷ 0 ∷ 0 ∷ 0 ∷ []))
unfolding c_str bytes_eq
read_conf-lookup_example =
    read_conf-lookup reader (97 ∷ []) (105 ∷ 100 ∷ []) (replicate 4 0) entries (omega arith)
      (sample-IsEntry, (number-IsEntry, tt)) (omega arith)

conf_parser-Returns_example :
    (((r : Status × ConfReader) × (conf_parser reader (readable (98 ∷ 61 ∷ 10 ∷ [])) ≡ done r))
      ⊎ (conf_parser reader (readable (98 ∷ 61 ∷ 10 ∷ [])) ≡ fault))
    × ((conf_loop 5 true (98 ∷ 61 ∷ 10 ∷ []) reader.items ≡ blocked)
        ⊎ (conf_loop 5 true (98 ∷ 61 ∷ 10 ∷ []) reader.items ≡ fault))
conf_parser-Returns_example = conf_parser-Returns reader (98 ∷ 61 ∷ 10 ∷ []) 5

-- A directory in place of a file is read for ever.
directory_hangs : conf_loop 5 true [] reader.items ≡ blocked
unfolding conf_loop fgets add_line c_str cleared
directory_hangs = refl

-- A blank line.
conf_parser-unseparated_example :
    conf_parser reader (readable (10 ∷ 97 ∷ 61 ∷ 98 ∷ 10 ∷ [])) ≡ fault
conf_parser-unseparated_example =
    conf_parser-unseparated reader [] (97 ∷ 61 ∷ 98 ∷ 10 ∷ []) false tt tt tt (omega arith)
