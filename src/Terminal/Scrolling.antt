-- ===== src/Terminal/Scrolling.antt =====
-- What `Scroll` leaves in the buffer.
use toy_kernel.Base.{
  ℕ, zero, suc, ◌+◌, ◌*◌, ◌≤◌, ◌≡◌, refl, true, ◌&&◌, ltb, leb, if◌then◌else◌, update, arith, ok,
}
use toy_kernel.Terminal.{Terminal, blank, copy_cells, copy_rows, blank_cells, scroll}

abbrev size : ℕ
size = 2000

-- The characters from `dst` on are those `vga_width` behind them, which the copy has not reached.
copy_cells_lem :
    (rounds dst : ℕ) (s : Terminal)
    → rounds ≤ 80
    → dst + rounds ≤ 2000
    → (buffer : ℕ → ℕ) × (copy_cells rounds dst (dst + 80) s ≡ ok (record s { buffer = buffer }))
      × ((i : ℕ)
          → buffer i
            ≡ (if leb dst i && ltb i (dst + rounds) then s.buffer (i + 80) else s.buffer i))
unfolding copy_cells
copy_cells_lem zero dst s short fits = (s.buffer, refl, λ i. ground arith)
copy_cells_lem (suc rounds) dst s short fits =
    let at : ltb dst 2000 ≡ true = ground arith in
    let s1 = record s { buffer = update s.buffer dst (s.buffer (dst + 80)) } in
    let next : dst + 80 + 1 ≡ dst + 1 + 80 = omega arith in
    let (buffer, ran, cells) = copy_cells_lem rounds (dst + 1) s1 (omega arith) (omega arith) in
    (buffer, rw at (rw next ran), λ i. ground (arith, cells i))

copy_rows_lem :
    (rounds row : ℕ) (s : Terminal)
    → row + rounds * 80 ≤ 1920
    → (buffer : ℕ → ℕ) × (copy_rows rounds row s ≡ ok (record s { buffer = buffer }))
      × ((i : ℕ)
          → buffer i
            ≡ (if leb row i && ltb i (row + rounds * 80) then s.buffer (i + 80) else s.buffer i))
unfolding copy_rows
copy_rows_lem zero row s fits = (s.buffer, refl, λ i. ground arith)
copy_rows_lem (suc rounds) row s fits =
    let (first, ran1, cells1) = copy_cells_lem 80 row s (omega arith) (omega arith) in
    let (buffer, ran, cells) =
      copy_rows_lem rounds (row + 80) (record s { buffer = first }) (omega arith) in
    (buffer, rw ran1 ran, λ i. ground (arith, cells i, cells1 i, cells1 (i + 80)))

blank_cells_lem :
    (rounds i : ℕ) (s : Terminal)
    → i + rounds ≤ 2000
    → (buffer : ℕ → ℕ) × (blank_cells rounds i s ≡ ok (record s { buffer = buffer }))
      × ((j : ℕ) → buffer j ≡ (if leb i j && ltb j (i + rounds) then blank else s.buffer j))
unfolding blank_cells
blank_cells_lem zero i s fits = (s.buffer, refl, λ j. ground arith)
blank_cells_lem (suc rounds) i s fits =
    let at : ltb i 2000 ≡ true = ground arith in
    let s1 = record s { buffer = update s.buffer i blank } in
    let (buffer, ran, cells) = blank_cells_lem rounds (i + 1) s1 (omega arith) in
    (buffer, rw at ran, λ j. ground (arith, cells j))

-- What `Scroll` shows: each row but the last is the one that was below it, and the last is blank.
abbrev pub scrolled : (buffer : ℕ → ℕ) → ℕ → ℕ
scrolled buffer i = if ltb i 1920 then buffer (i + 80) else if ltb i 2000 then blank else buffer i

pub scroll_lem :
    (s : Terminal)
    → (buffer : ℕ → ℕ) × (scroll s ≡ ok (record s { buffer = buffer; row = 24 }))
      × ((i : ℕ) → buffer i ≡ scrolled s.buffer i)
unfolding scroll
scroll_lem s =
    let (up, ran1, cells1) = copy_rows_lem 24 0 s (omega arith) in
    let (buffer, ran2, cells2) = blank_cells_lem 80 1920 (record s { buffer = up }) (omega arith) in
    (buffer, rw ran1 (rw ran2 refl), λ i. ground (arith, cells1 i, cells2 i))
