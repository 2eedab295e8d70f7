-- ===== src/Keyboard.antt =====
-- The keyboard's interrupt handler, kernel/keyboard.cpp, with `islower` and `toupper` of libc/type.cpp.
pub mod Layout
pub mod Typing
mod Tests
use toy_kernel.Base.{
  ℕ, ◌-◌, Bool, true, false, ◌&&◌, Option, none, some, List, [], ◌∷◌, ◌++◌, get_elem?, ◌==◌, ltb,
  leb, if◌then◌else◌, Outcome, ok, stop, ◌>>=◌, need,
}

-- `enum KeyAction`, with kernel/keyactions.def.
pub data KeyAction : Type 0 where
  noaction enter lctrl lshift rshift : KeyAction

-- The action of a scancode, for those that have one.
abbrev pub key_action : ℕ → KeyAction
key_action scancode =
    if scancode == 0x1C
    then enter
    else if scancode == 0x1D
    then lctrl
    else if scancode == 0x2A
    then lshift
    else if scancode == 0x36
    then rshift
    else noaction

-- `kKeyPresses`, by the rows of the source, with the null character behind the string.
abbrev pub key_presses : List ℕ
key_presses =
    (0 ∷ 0x1b ∷ b'1' ∷ b'2' ∷ b'3' ∷ b'4' ∷ b'5' ∷ b'6' ∷ b'7' ∷ b'8' ∷ b'9' ∷ b'0' ∷ [])
    ++ ((b'-' ∷ b'=' ∷ 8 ∷ 9 ∷ [])
        ++ ((b'q' ∷ b'w' ∷ b'e' ∷ b'r' ∷ b't' ∷ b'y' ∷ b'u' ∷ b'i' ∷ b'o' ∷ b'p' ∷ b'[' ∷ b']' ∷ 0
              ∷ 0 ∷ [])
            ++ ((b'a' ∷ b's' ∷ b'd' ∷ b'f' ∷ b'g' ∷ b'h' ∷ b'j' ∷ b'k' ∷ b'l' ∷ b';' ∷ 39 ∷ b'`' ∷ 0
                  ∷ 92 ∷ [])
                ++ (b'z' ∷ b'x' ∷ b'c' ∷ b'v' ∷ b'b' ∷ b'n' ∷ b'm' ∷ b',' ∷ b'.' ∷ b'/' ∷ 0 ∷ b'*'
                    ∷ 0 ∷ []))))

abbrev pub num_key_presses : ℕ
num_key_presses = 57

-- `islower` and `toupper`
abbrev pub is_lower : ℕ → Bool
is_lower ch = leb b'a' ch && leb ch b'z'

abbrev pub to_upper : ℕ → ℕ
to_upper ch = if is_lower ch then ch - (b'a' - b'A') else ch

-- The cases of the `switch` of `ShiftedKey`.
abbrev pub shifted_cases : List (ℕ × ℕ)
shifted_cases =
    (b'`', b'~')
    ∷ (b'1', b'!')
    ∷ (b'2', b'@')
    ∷ (b'3', b'#')
    ∷ (b'4', b'$')
    ∷ (b'5', b'%')
    ∷ (b'6', b'^')
    ∷ (b'7', b'&')
    ∷ (b'8', b'*')
    ∷ (b'9', b'(')
    ∷ (b'0', b')')
    ∷ (b'-', b'_')
    ∷ (b'=', b'+')
    ∷ (b'[', b'{')
    ∷ (b']', b'}')
    ∷ (92, b'|')
    ∷ (b';', b':')
    ∷ (39, 34)
    ∷ (b',', b'<')
    ∷ (b'.', b'>')
    ∷ (b'/', b'?')
    ∷ []

unfoldable pub switch_case : List (ℕ × ℕ) → ℕ → ℕ
switch_case [] key = key
switch_case ((c, v) ∷ cases) key = let rest = switch_case cases key in if key == c then v else rest

-- `ShiftedKey`
unfoldable pub shifted_key : ℕ → ℕ
unfolding switch_case
shifted_key key = if is_lower key then to_upper key else switch_case shifted_cases key

-- `PreviousAction`, the characters that the serial port gets, and the scancodes that are warned of.
pub record Keyboard : Type 0 where
  pub previous_action : KeyAction
  pub output : List ℕ
  pub warned : List ℕ

-- The `switch` on `PreviousAction`.
unfoldable pub with_action : KeyAction → (pressed_key : ℕ) → Outcome ℕ
unfolding shifted_key
with_action noaction key = ok key
with_action lctrl key = ok key
with_action enter key = stop
with_action lshift key = ok (shifted_key key)
with_action rshift key = ok (shifted_key key)

-- A key with a character, or one that is not mapped.
unfoldable pub press_key : (scancode : ℕ) → Keyboard → Outcome Keyboard
unfolding with_action
press_key scancode s = do
  pressed_key ← need (get_elem? key_presses scancode)
  let typed = do
    key ← with_action s.previous_action pressed_key
    ok (record s { previous_action = noaction; output = s.output ++ (key ∷ []) })
  if pressed_key == 0 then ok (record s { warned = s.warned ++ (scancode ∷ []) }) else typed

-- `KeyboardCallback`, with the byte that is read from the port.
unfoldable pub keyboard_callback : (scancode : ℕ) → Keyboard → Outcome Keyboard
unfolding press_key
keyboard_callback scancode s =
    if ltb scancode num_key_presses
    then elim (key_action scancode) [
      | enter ↦ ok (record s { previous_action = noaction; output = s.output ++ (10 ∷ []) })
      | noaction ↦ press_key scancode s
      | other ↦ ok (record s { previous_action = other })
    ]
    else if ltb scancode 0xE0
    then ok s
    else ok (record s { warned = s.warned ++ (scancode ∷ []) })
