-- ===== src/Terminal/Clearing.antt =====
-- What `Clear` leaves on the screen.
use toy_kernel.Base.{
  ℕ, zero, suc, ◌+◌, ◌*◌, ◌%◌, ◌^◌, ◌<◌, ◌≡◌, refl, sym, ap, subst, ◌∙◌, arith, ok, ◌>>=◌,
}
use toy_kernel.Terminal.{
  Terminal, space, blank, text_color, vga_entry, move_cursor, put_at, put, clear_row, clear_rows,
  clear_screen,
}
use toy_kernel.Terminal.Screen.{IsScreen, put-Shows}

-- The first `n` characters of the screen are spaces.
pub record IsClear (n : ℕ) (s : Terminal) : Type 0 where
  pub rows : s.numrows ≡ 25
  pub cols : s.numcols ≡ 80
  pub spaces : (i : ℕ) → i < n → s.buffer i % 2 ^ 8 ≡ space

text_space : vga_entry space text_color % 2 ^ 8 ≡ space
unfolding vga_entry
text_space = refl

blank-space : blank % 2 ^ 8 ≡ space
unfolding vga_entry
blank-space = refl

put_at-IsClear :
    (row col : ℕ) (s : Terminal)
    → row < 25
    → col < 80
    → IsClear (row * 80 + col) s
    → (s' : Terminal) × (put_at space row col s ≡ ok s') × IsClear (row * 80 + col + 1) s'
unfolding put put_at
put_at-IsClear row col s r c w =
    let at = record s { row = row; col = col } in
    let on : IsScreen at = record { rows = w.rows; cols = w.cols; row = r; col = c } in
    let (s', ran, shows) = put-Shows space at on in
    (
      s',
      ran,
      record {
        rows = shows.screen.rows;
        cols = shows.screen.cols;
        spaces = λ i h.
            ground (arith, shows.cells i, w.spaces i, w.spaces (i + 80), text_space, blank-space);
      },
    )

clear_row-IsClear :
    (rounds row col : ℕ) (s : Terminal)
    → row < 25
    → col + rounds ≡ 80
    → IsClear (row * 80 + col) s
    → (s' : Terminal) × (clear_row rounds row col s ≡ ok s') × IsClear (row * 80 + 80) s'
unfolding clear_row
clear_row-IsClear zero row col s r c w = (s, refl, subst (λ n. IsClear n s) (omega arith) w)
clear_row-IsClear (suc rounds) row col s r c w =
    let (s1, ran1, w1) = put_at-IsClear row col s r (omega arith) w in
    let e : row * 80 + col + 1 ≡ row * 80 + (col + 1) = omega arith in
    let (s', ran, w') =
      clear_row-IsClear rounds row (col + 1) s1 r (omega arith) (subst (λ n. IsClear n s1) e w1) in
    (s', rw ran1 ran, w')

clear_rows-IsClear :
    (rounds row : ℕ) (s : Terminal)
    → row + rounds ≡ 25
    → IsClear (row * 80) s
    → (s' : Terminal) × (clear_rows rounds row s ≡ ok s') × IsClear 2000 s'
unfolding clear_rows
clear_rows-IsClear zero row s r w = (s, refl, subst (λ n. IsClear n s) (omega arith) w)
clear_rows-IsClear (suc rounds) row s r w =
    let from : row * 80 + 0 ≡ row * 80 = omega arith in
    let (s1, ran1, w1) =
      clear_row-IsClear 80 row 0 s (omega arith) refl (subst (λ n. IsClear n s) (sym from) w) in
    let to : row * 80 + 80 ≡ (row + 1) * 80 = omega arith in
    let (s', ran, w') =
      clear_rows-IsClear rounds (row + 1) s1 (omega arith) (subst (λ n. IsClear n s1) to w1) in
    (
      s',
      ap (λ k. clear_row k row 0 s >>= λ t. clear_rows rounds (row + 1) t) w.cols ∙ rw ran1 ran,
      w',
    )

-- `Clear` of the text terminal returns from any cursor and any buffer. It leaves a space in each of
-- the 2000 characters of the screen, and the cursor in the top left corner.
pub clear_screen-IsClear :
    (s : Terminal)
    → s.numrows ≡ 25
    → s.numcols ≡ 80
    → (s' : Terminal) × (clear_screen s ≡ ok s') × IsClear 2000 s' × (s'.row ≡ 0) × (s'.col ≡ 0)
unfolding clear_screen
clear_screen-IsClear s rows cols =
    let start : IsClear (0 * 80) s = record {
      rows = rows;
      cols = cols;
      spaces = λ i h. absurd (omega arith);
    } in
    let (s1, ran, w) = clear_rows-IsClear 25 0 s refl start in
    (
      move_cursor 0 0 s1,
      ap (λ k. clear_rows k 0 s >>= λ t. ok (move_cursor 0 0 t)) rows ∙ rw ran refl,
      record { rows = w.rows; cols = w.cols; spaces = w.spaces },
      refl,
      refl,
    )
