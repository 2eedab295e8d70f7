-- ===== src/Keyboard/Tests.antt =====
-- Some keys.
use toy_kernel.Base.{ℕ, ◌≡◌, refl, List, [], ◌∷◌, ◌++◌, map, ok}
use toy_kernel.Keyboard.{noaction, Keyboard, shifted_key, with_action, press_key, keyboard_callback}
use toy_kernel.Keyboard.Layout.{
  Key, Stroke, plainly, with_left_shift, with_right_shift, return_key, character,
}
use toy_kernel.Keyboard.Typing.{callbacks, AllStrokes, all_codes, callbacks-typed}

abbrev idle : Keyboard
idle = record { previous_action = noaction; output = []; warned = [] }

abbrev outputs : List ℕ → List ℕ → Keyboard
outputs out warned = record { previous_action = noaction; output = out; warned = warned }

-- The space bar, 0x39, is taken for a release.
test_space : callbacks (0x39 ∷ []) idle ≡ ok idle
unfolding keyboard_callback
test_space = refl

-- Two letters while shift is held: the second has no shift.
test_held :
    callbacks (0x2A ∷ 0x1E ∷ 0x9E ∷ 0x1E ∷ 0x9E ∷ 0xAA ∷ []) idle
    ≡ ok (outputs (b'A' ∷ b'a' ∷ []) [])
unfolding keyboard_callback press_key with_action shifted_key
test_held = refl

abbrev key_a : Key
key_a = record { code = 0x1E; plain = b'a'; shifted = b'A' }

abbrev key_1 : Key
key_1 = record { code = 0x02; plain = b'1'; shifted = b'!' }

-- "A1!" and a newline.
abbrev text : List Stroke
text = with_left_shift key_a ∷ plainly key_1 ∷ with_right_shift key_1 ∷ return_key ∷ []

text-AllStrokes : AllStrokes text
text-AllStrokes = ((27, refl), ((1, refl), ((1, refl), (tt, tt))))

callbacks-typed_example :
    (s' : Keyboard) × (callbacks (all_codes text) idle ≡ ok s')
    × (s'.output ≡ [] ++ map character text)
    × (s'.previous_action ≡ noaction)
    × (s'.warned ≡ [])
callbacks-typed_example = callbacks-typed text idle text-AllStrokes refl
