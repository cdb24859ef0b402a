-- ===== src/Format/Value.antt =====
-- The digits that `number` of kernel/vsprintf.c writes, read as a number.
use toutatis.Common.{ℕ, ◌+◌, ◌*◌, List, [], ◌∷◌}
use toutatis.Utils.{char_value}

-- The value of a text in a base, the first digit first.
unfoldable pub value_of : ℕ → ℕ → List ℕ → ℕ
value_of base value [] = value
value_of base value (c ∷ cs) = value_of base (value * base + char_value c) cs

-- The value of digits of which the last one stands first.
unfoldable value_back : ℕ → List ℕ → ℕ
value_back base [] = 0
value_back base (c ∷ cs) = value_back base cs * base + char_value c
