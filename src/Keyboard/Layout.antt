-- ===== src/Keyboard/Layout.antt =====
-- The keys of a keyboard of the United States that type a character, by their scancodes of set 1 up to
-- 0x37, the return key apart, and how they are struck. The space bar, 0x39, is not among them.
use toy_kernel.Base.{ℕ, ◌+◌, List, [], ◌∷◌, ◌++◌}

-- A key, what it types, and what it types with shift.
pub record Key : Type 0 where
  pub code : ℕ
  pub plain : ℕ
  pub shifted : ℕ

-- The keys of a row, whose scancodes follow each other.
abbrev pub row : (code : ℕ) → List (ℕ × ℕ) → List Key
row code [] = []
row code ((plain, shifted) ∷ keys) =
    record { code = code; plain = plain; shifted = shifted } ∷ row (code + 1) keys

abbrev pub letter : ℕ → ℕ × ℕ
letter upper = (upper + 32, upper)

abbrev pub digits_row : List Key
digits_row = row 0x01 (
    (0x1B, 0x1B)
    ∷ (b'1', b'!')
    ∷ (b'2', b'@')
    ∷ (b'3', b'#')
    ∷ (b'4', b'$')
    ∷ (b'5', b'%')
    ∷ (b'6', b'^')
    ∷ (b'7', b'&')
    ∷ (b'8', b'*')
    ∷ (b'9', b'(')
    ∷ (b'0', b')')
    ∷ (b'-', b'_')
    ∷ (b'=', b'+')
    ∷ (8, 8)
    ∷ (9, 9)
    ∷ [])

abbrev pub upper_row : List Key
upper_row = row 0x10 (
    letter b'Q'
    ∷ letter b'W'
    ∷ letter b'E'
    ∷ letter b'R'
    ∷ letter b'T'
    ∷ letter b'Y'
    ∷ letter b'U'
    ∷ letter b'I'
    ∷ letter b'O'
    ∷ letter b'P'
    ∷ (b'[', b'{')
    ∷ (b']', b'}')
    ∷ [])

abbrev pub home_row : List Key
home_row = row 0x1E (
    letter b'A'
    ∷ letter b'S'
    ∷ letter b'D'
    ∷ letter b'F'
    ∷ letter b'G'
    ∷ letter b'H'
    ∷ letter b'J'
    ∷ letter b'K'
    ∷ letter b'L'
    ∷ (b';', b':')
    ∷ (39, 34)
    ∷ (b'`', b'~')
    ∷ [])

abbrev pub lower_row : List Key
lower_row = row 0x2B (
    (92, b'|')
    ∷ letter b'Z'
    ∷ letter b'X'
    ∷ letter b'C'
    ∷ letter b'V'
    ∷ letter b'B'
    ∷ letter b'N'
    ∷ letter b'M'
    ∷ (b',', b'<')
    ∷ (b'.', b'>')
    ∷ (b'/', b'?')
    ∷ [])

abbrev pub keypad : List Key
keypad = row 0x37 ((b'*', b'*') ∷ [])

abbrev pub layout : List Key
layout = digits_row ++ (upper_row ++ (home_row ++ (lower_row ++ keypad)))

-- A key that is pressed with or without shift, and released: the scancodes that come of it.
abbrev pub left_shift : ℕ
left_shift = 0x2A

abbrev pub right_shift : ℕ
right_shift = 0x36

abbrev pub release : ℕ → ℕ
release code = code + 0x80

pub data Stroke : Type 0 where
  plainly with_left_shift with_right_shift : Key → Stroke
  return_key : Stroke

abbrev pub codes : Stroke → List ℕ
codes (plainly k) = k.code ∷ release k.code ∷ []
codes (with_left_shift k) = left_shift ∷ k.code ∷ release k.code ∷ release left_shift ∷ []
codes (with_right_shift k) = right_shift ∷ k.code ∷ release k.code ∷ release right_shift ∷ []
codes return_key = 0x1C ∷ release 0x1C ∷ []

-- The character that a stroke is for.
abbrev pub character : Stroke → ℕ
character (plainly k) = k.plain
character (with_left_shift k) = k.shifted
character (with_right_shift k) = k.shifted
character return_key = 10
