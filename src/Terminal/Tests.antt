-- ===== src/Terminal/Tests.antt =====
-- The text terminal on a small screen of text.
use toy_kernel.Base.{◌+◌, ◌≡◌, refl, [], ◌∷◌, arith, ok, ◌>>=◌}
use toy_kernel.Terminal.{
  Terminal, use_text_terminal, handle_newline, put_at, put, write, clear_screen, vga_entry,
}
use toy_kernel.Terminal.Screen.{Shows, put-Shows}
use toy_kernel.Terminal.Clearing.{IsClear, clear_screen-IsClear}

-- A screen of zeros.
abbrev fresh : Terminal
fresh = use_text_terminal (λ i. 0) 0 0

-- The same with the cursor in the bottom right corner.
abbrev bottom : Terminal
bottom = record fresh { row = 24; col = 79 }

test_write : (write (b'a' ∷ 10 ∷ b'b' ∷ []) fresh >>= λ s. ok (s.buffer 80 + s.row)) ≡ ok 0x763
unfolding write put put_at handle_newline vga_entry
test_write = refl

put-Shows_example : (s' : Terminal) × (put b'x' bottom ≡ ok s') × Shows b'x' bottom s'
put-Shows_example =
    put-Shows b'x' bottom
      (record { rows = refl; cols = refl; row = omega arith; col = omega arith })

clear_screen-IsClear_example :
    (s' : Terminal) × (clear_screen bottom ≡ ok s') × IsClear 2000 s' × (s'.row ≡ 0) × (s'.col ≡ 0)
clear_screen-IsClear_example = clear_screen-IsClear bottom refl refl
