-- ===== src/Crypt/Tests.antt =====
-- Concrete runs of src/crypt.c.
use nose.Common.{ℕ, List, [], ◌∷◌}

abbrev text : List ℕ
text = 104 ∷ 101 ∷ 121 ∷ []
