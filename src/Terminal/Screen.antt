-- ===== src/Terminal/Screen.antt =====
-- What `Put` and `Clear` show on the screen.
use toy_kernel.Base.{
  ℕ, ◌+◌, ◌*◌, ◌%◌, ◌^◌, ◌<◌, ◌≡◌, refl, ap, ◌∙◌, Bool, true, false, ◌&&◌, ◌==◌, ltb, if◌then◌else◌,
  Bool-cases, inl, inr, update, arith, ok,
}
use toy_kernel.Terminal.{
  Terminal, newline, text_color, vga_entry, handle_newline, move_cursor, put_at, put,
}
use toy_kernel.Terminal.Scrolling.{scrolled, scroll_lem}

-- The cursor is on the screen.
pub record IsScreen (s : Terminal) : Type 0 where
  pub rows : s.numrows ≡ 25
  pub cols : s.numcols ≡ 80
  pub row : s.row < 25
  pub col : s.col < 80

-- The screen by rows and columns, and the next place of the cursor in it.
abbrev pub cell : Terminal → (row col : ℕ) → ℕ
cell s row col = s.buffer (row * 80 + col)

-- The end of a line at the bottom of the screen moves the lines up by one.
abbrev pub ends_line : (c col : ℕ) → Bool
ends_line c col = if c == newline then true else col == 79

-- A screen after a character: `before` is the screen with the character, and the lines have moved up
-- if it ended the last one.
pub record Shows (c : ℕ) (s s' : Terminal) : Type 0 where
  pub screen : IsScreen s'
  pub at_row :
      s'.row ≡ (if ends_line c s.col then (if s.row == 24 then 24 else s.row + 1) else s.row)
  pub at_col : s'.col ≡ (if ends_line c s.col then 0 else s.col + 1)
  pub cells :
      (i : ℕ)
      → s'.buffer i ≡ (
          let written =
            if c == newline
            then s.buffer
            else update s.buffer (s.row * 80 + s.col) (vga_entry c text_color) in
          if ends_line c s.col && s.row == 24 then scrolled written i else written i)
  pub cursor : s'.cursor_high * 2 ^ 8 + s'.cursor_low ≡ s'.row * 80 + s'.col

-- The end of a line, from a column that is already behind the last one or anywhere.
handle_newline_lem :
    (s : Terminal)
    → s.numrows ≡ 25
    → s.row < 25
    → (s' : Terminal) × (handle_newline s ≡ ok s')
      × (s'.numrows ≡ 25)
      × (s'.numcols ≡ s.numcols)
      × (s'.row ≡ (if s.row == 24 then 24 else s.row + 1))
      × (s'.col ≡ 0)
      × ((i : ℕ) → s'.buffer i ≡ (if s.row == 24 then scrolled s.buffer i else s.buffer i))
unfolding handle_newline
handle_newline_lem s rows row = elim (Bool-cases (s.row == 24)) [
  | inl bottom ↦
      let (buffer, ran, cells) = scroll_lem (record s { col = 0; row = (s.row + 1) % 2 ^ 16 }) in
      let full : (s.row + 1) % 2 ^ 16 == s.numrows ≡ true = ground (arith, bottom) in
      (
        record s { col = 0; buffer = buffer; row = 24 },
        rw full ran,
        rows,
        refl,
        rw bottom refl,
        refl,
        λ i. rw bottom (cells i),
      )
  | inr above ↦
      let room : (s.row + 1) % 2 ^ 16 == s.numrows ≡ false = ground (arith, above) in
      (
        record s { col = 0; row = (s.row + 1) % 2 ^ 16 },
        rw room refl,
        rows,
        refl,
        rw above (omega arith),
        refl,
        λ i. rw above refl,
      )
]

move_cursor-Shows :
    (c : ℕ) (s t : Terminal)
    → IsScreen s
    → t.numrows ≡ 25
    → t.numcols ≡ 80
    → t.row ≡ (if ends_line c s.col then (if s.row == 24 then 24 else s.row + 1) else s.row)
    → t.col ≡ (if ends_line c s.col then 0 else s.col + 1)
    → ((i : ℕ)
        → t.buffer i ≡ (
            let written =
              if c == newline
              then s.buffer
              else update s.buffer (s.row * 80 + s.col) (vga_entry c text_color) in
            if ends_line c s.col && s.row == 24 then scrolled written i else written i))
    → Shows c s (move_cursor (t.row % 2 ^ 8) (t.col % 2 ^ 8) t)
unfolding move_cursor
move_cursor-Shows c s t w rows cols row col cells =
    let row_in : t.row < 25 = ground (arith, row, w.row) in
    let col_in : t.col < 80 = ground (arith, col, w.col) in
    let loc : (t.row % 2 ^ 8 * t.numcols + t.col % 2 ^ 8) % 2 ^ 16 ≡ t.row * 80 + t.col =
      ap (λ k. (t.row % 2 ^ 8 * k + t.col % 2 ^ 8) % 2 ^ 16) cols ∙ omega arith in
    let same_row : t.row % 2 ^ 8 ≡ t.row = omega arith in
    let same_col : t.col % 2 ^ 8 ≡ t.col = omega arith in
    record {
      screen = record { rows = rows; cols = cols; row = omega arith; col = omega arith };
      at_row = same_row ∙ row;
      at_col = same_col ∙ col;
      cells = cells;
      cursor = omega (arith, loc);
    }

-- `Put` of the text terminal, from any cursor on the screen. It returns, and never writes behind the
-- buffer. The character, unless it is a newline, is in the cell of the cursor, in light grey on black.
-- A newline, or a character in the last column, takes the cursor to the start of the next line, and in
-- the last line moves all lines up by one and leaves a blank one; any other character takes it one
-- column on. All other cells are as they were. The cursor stays on the screen, and its place is in the
-- VGA ports.
pub put-Shows :
    (c : ℕ) (s : Terminal) → IsScreen s → (s' : Terminal) × (put c s ≡ ok s') × Shows c s s'
unfolding put put_at
put-Shows c s w = elim (Bool-cases (c == newline)) [
  | inl ends ↦
      let (t, ran, rows, cols, row, col, cells) = handle_newline_lem s w.rows w.row in
      (
        move_cursor (t.row % 2 ^ 8) (t.col % 2 ^ 8) t,
        rw ends (rw ran refl),
        move_cursor-Shows c s t w rows (cols ∙ w.cols) (rw ends row) (rw ends col)
            (λ i. rw ends (cells i)),
      )
  | inr char ↦
      let loc : (s.row * s.numcols + s.col) % 2 ^ 16 ≡ s.row * 80 + s.col =
        ap (λ k. (s.row * k + s.col) % 2 ^ 16) w.cols ∙ omega (arith, w.row, w.col) in
      let inside : ltb (s.row * 80 + s.col) 2000 ≡ true = ground (arith, w.row, w.col) in
      let shown = update s.buffer (s.row * 80 + s.col) (vga_entry c text_color) in
      let s3 = record s { buffer = shown; col = (s.col + 1) % 2 ^ 16 } in
      elim (Bool-cases (s.col == 79)) [
        | inl last ↦
            let full : (s.col + 1) % 2 ^ 16 == 80 ≡ true = ground (arith, last) in
            let (t, ran, rows, cols, row, col, cells) = handle_newline_lem s3 w.rows w.row in
            (
              move_cursor (t.row % 2 ^ 8) (t.col % 2 ^ 8) t,
              rw char (rw loc (rw inside (rw full (rw ran refl)))),
              move_cursor-Shows c s t w rows (cols ∙ w.cols) (rw char (rw last row))
                  (rw char (rw last col)) (λ i. rw char (rw last (cells i))),
            )
        | inr more ↦
            let room : (s.col + 1) % 2 ^ 16 == 80 ≡ false = ground (arith, more, w.col) in
            (
              move_cursor (s3.row % 2 ^ 8) (s3.col % 2 ^ 8) s3,
              rw char (rw loc (rw inside (rw room refl))),
              move_cursor-Shows c s s3 w w.rows w.cols (rw char (rw more refl))
                  (rw char (rw more (omega (arith, w.col)))) (λ i. rw char (rw more refl)),
            )
      ]
]
