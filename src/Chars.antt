-- ===== src/Chars.antt =====
-- Character classes: the token table of src/ihtp_scanner_scalar.c and the inline tests of
-- src/ihtp_internal.h.
use iohttpparser.Base.{ℕ, Bool, not, ◌&&◌, ◌||◌, List, [], ◌∷◌, ◌++◌, leb, ◌==◌, get_or, replicate}

-- The 128 initialisers that the source writes out.
token_table_ascii : List ℕ
token_table_ascii =
    0 ∷ 0 ∷ 0 ∷ 0 ∷ 0 ∷ 0 ∷ 0 ∷ 0 ∷ 0 ∷ 0 ∷ 0 ∷ 0 ∷ 0 ∷ 0 ∷ 0 ∷ 0 ∷ 0 ∷ 0 ∷ 0 ∷ 0 ∷ 0 ∷ 0 ∷ 0 ∷ 0
    ∷ 0 ∷ 0 ∷ 0 ∷ 0 ∷ 0 ∷ 0 ∷ 0 ∷ 0 ∷ 0 ∷ 33 ∷ 0 ∷ 35 ∷ 36 ∷ 37 ∷ 38 ∷ 39 ∷ 0 ∷ 0 ∷ 42 ∷ 43 ∷ 0 ∷ 45
    ∷ 46 ∷ 0 ∷ 48 ∷ 49 ∷ 50 ∷ 51 ∷ 52 ∷ 53 ∷ 54 ∷ 55 ∷ 56 ∷ 57 ∷ 0 ∷ 0 ∷ 0 ∷ 0 ∷ 0 ∷ 0 ∷ 0 ∷ 65 ∷ 66
    ∷ 67 ∷ 68 ∷ 69 ∷ 70 ∷ 71 ∷ 72 ∷ 73 ∷ 74 ∷ 75 ∷ 76 ∷ 77 ∷ 78 ∷ 79 ∷ 80 ∷ 81 ∷ 82 ∷ 83 ∷ 84 ∷ 85
    ∷ 86 ∷ 87 ∷ 88 ∷ 89 ∷ 90 ∷ 0 ∷ 0 ∷ 0 ∷ 94 ∷ 95 ∷ 96 ∷ 97 ∷ 98 ∷ 99 ∷ 100 ∷ 101 ∷ 102 ∷ 103 ∷ 104
    ∷ 105 ∷ 106 ∷ 107 ∷ 108 ∷ 109 ∷ 110 ∷ 111 ∷ 112 ∷ 113 ∷ 114 ∷ 115 ∷ 116 ∷ 117 ∷ 118 ∷ 119 ∷ 120
    ∷ 121 ∷ 122 ∷ 0 ∷ 124 ∷ 0 ∷ 126 ∷ 0 ∷ []

-- The elements behind them are zero.
unfoldable pub token_table : List ℕ
unfolding token_table_ascii
token_table = token_table_ascii ++ replicate 128 0

unfoldable pub is_token_char : ℕ → Bool
unfolding token_table
is_token_char c = not (get_or token_table c 0 == 0)

unfoldable pub is_digit : ℕ → Bool
is_digit c = leb b'0' c && leb c b'9'

unfoldable pub is_lws : ℕ → Bool
is_lws c = c == b' ' || c == b'\t'
