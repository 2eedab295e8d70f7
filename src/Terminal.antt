-- ===== src/Terminal.antt =====
-- The text terminal of kernel/terminal.cpp, on the 80 by 25 characters of the VGA buffer.
pub mod Scrolling
pub mod Screen
pub mod Clearing
mod Tests
use toy_kernel.Base.{
  ℕ, zero, suc, ◌+◌, ◌-◌, ◌*◌, ◌/◌, ◌%◌, ◌^◌, Bool, not, ◌&&◌, List, [], ◌∷◌, bit_or, update, ◌==◌,
  ltb, if◌then◌else◌, Outcome, ok, ◌>>=◌, ◌>>◌, check,
}

abbrev pub vga_width : ℕ
vga_width = 80

abbrev pub vga_height : ℕ
vga_height = 25

abbrev pub newline : ℕ
newline = 10

abbrev pub space : ℕ
space = 32

-- The fields of `kTerminal`, `Buffer`, and the two bytes of the cursor's location in the VGA ports.
pub record Terminal : Type 0 where
  pub numrows : ℕ
  pub numcols : ℕ
  pub row : ℕ
  pub col : ℕ
  pub buffer : ℕ → ℕ
  pub cursor_high : ℕ
  pub cursor_low : ℕ

-- `VgaEntryColor`
abbrev pub vga_entry_color : (fg bg : ℕ) → ℕ
vga_entry_color fg bg = bit_or fg (bg * 2 ^ 4) % 2 ^ 8

-- `VgaEntry`. A `char` is known by its bits.
unfoldable pub vga_entry : (c color : ℕ) → ℕ
vga_entry c color = bit_or (c % 2 ^ 8) (color * 2 ^ 8) % 2 ^ 16

-- `Color`, light grey on black, and the `blank` of `Scroll`, white on black.
abbrev pub text_color : ℕ
text_color = vga_entry_color 7 0

abbrev pub blank : ℕ
blank = vga_entry space (vga_entry_color 15 0)

-- `GetCursorLoc`
abbrev pub get_cursor_loc : (row col : ℕ) → Terminal → ℕ
get_cursor_loc row col s = (row * s.numcols + col) % 2 ^ 16

-- A write to the buffer, which has 25 rows of 80. A write behind it is a stop.
abbrev pub write_buffer : (i v : ℕ) → Terminal → Outcome Terminal
write_buffer i v s =
    check (ltb i (vga_height * vga_width)) >> ok (record s { buffer = update s.buffer i v })

-- `memcpy` of some characters of the buffer.
unfoldable pub copy_cells : (rounds dst src : ℕ) → Terminal → Outcome Terminal
copy_cells zero dst src s = ok s
copy_cells (suc rounds) dst src s =
    write_buffer dst (s.buffer src) s >>= λ s1. copy_cells rounds (dst + 1) (src + 1) s1

-- The first loop of `Scroll`, over the rows that are left.
unfoldable pub copy_rows : (rounds row : ℕ) → Terminal → Outcome Terminal
copy_rows zero row s = ok s
copy_rows (suc rounds) row s =
    copy_cells vga_width row (row + vga_width) s >>= λ s1. copy_rows rounds (row + vga_width) s1

-- The second loop of `Scroll`.
unfoldable pub blank_cells : (rounds i : ℕ) → Terminal → Outcome Terminal
blank_cells zero i s = ok s
blank_cells (suc rounds) i s = write_buffer i blank s >>= λ s1. blank_cells rounds (i + 1) s1

-- `text::Scroll`
unfoldable pub scroll : Terminal → Outcome Terminal
scroll s = do
  s1 ← copy_rows (vga_height - 1) 0 s
  s2 ← blank_cells vga_width ((vga_height - 1) * vga_width) s1
  ok (record s2 { row = vga_height - 1 })

-- `text::HandleNewline`
unfoldable pub handle_newline : Terminal → Outcome Terminal
handle_newline s =
    let s1 = record s { col = 0; row = (s.row + 1) % 2 ^ 16 } in
    if s1.row == s1.numrows then scroll s1 else ok s1

-- `text::MoveCursor`
unfoldable pub move_cursor : (row col : ℕ) → Terminal → Terminal
move_cursor row col s =
    let loc = get_cursor_loc row col s in
    record s { row = row; col = col; cursor_high = loc / 2 ^ 8 % 2 ^ 8; cursor_low = loc % 2 ^ 8 }

-- `text::PutAt`
unfoldable pub put_at : (c row col : ℕ) → Terminal → Outcome Terminal
unfolding move_cursor
put_at c row col s = do
  let s1 = record s { row = row; col = col }
  let char = do
    s2 ← write_buffer (get_cursor_loc row col s1) (vga_entry c text_color) s1
    let s3 = record s2 { col = (s2.col + 1) % 2 ^ 16 }
    if s3.col == vga_width then handle_newline s3 else ok s3
  s4 ← if not (c == newline) then char else handle_newline s1
  ok (move_cursor (s4.row % 2 ^ 8) (s4.col % 2 ^ 8) s4)

-- `Terminal::Put` of the text terminal, without the serial port, which gets the same character.
unfoldable pub put : (c : ℕ) → Terminal → Outcome Terminal
put c s = put_at c s.row s.col s

-- `Write`
unfoldable pub write : List ℕ → Terminal → Outcome Terminal
write [] s = ok s
write (c ∷ cs) s = put c s >>= λ s1. write cs s1

-- The loops of `Clear`, with the rounds that are left.
unfoldable pub clear_row : (rounds row col : ℕ) → Terminal → Outcome Terminal
clear_row zero row col s = ok s
clear_row (suc rounds) row col s =
    put_at space row col s >>= λ s1. clear_row rounds row (col + 1) s1

unfoldable pub clear_rows : (rounds row : ℕ) → Terminal → Outcome Terminal
unfolding clear_row
clear_rows zero row s = ok s
clear_rows (suc rounds) row s = clear_row s.numcols row 0 s >>= λ s1. clear_rows rounds (row + 1) s1

-- `Terminal::Clear`, for a terminal of less than 256 rows and columns: the loops count in 8 bits.
unfoldable pub clear_screen : Terminal → Outcome Terminal
unfolding clear_rows move_cursor
clear_screen s = clear_rows s.numrows 0 s >>= λ s1. ok (move_cursor 0 0 s1)

-- `UseTextTerminal`, with what the buffer and the ports held.
abbrev pub use_text_terminal : (buffer : ℕ → ℕ) (cursor_high cursor_low : ℕ) → Terminal
use_text_terminal buffer high low = record {
  numrows = vga_height;
  numcols = vga_width;
  row = 0;
  col = 0;
  buffer = buffer;
  cursor_high = high;
  cursor_low = low;
}
