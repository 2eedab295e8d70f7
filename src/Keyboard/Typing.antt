-- ===== src/Keyboard/Typing.antt =====
-- Typing on the keyboard: the handler prints the characters of the strokes.
use toy_kernel.Base.{
  ℕ, zero, suc, sym, some-inj, ◌<◌, ◌≡◌, refl, ap, ◌∙◌, true, false, ◌&&◌, List, [], ◌∷◌, ◌++◌, map,
  append_assoc, append-nil, get_elem?, some, none, ◌==◌, ltb, not, arith, Option, Outcome, ok,
  ◌>>=◌, Bool, ==_iff, >>=-eq-ok, eq-false, ok-inj,
}
use toy_kernel.Keyboard.{
  KeyAction, noaction, enter, lctrl, lshift, rshift, key_action, key_presses, num_key_presses,
  shifted_key, switch_case, Keyboard, with_action, press_key, keyboard_callback,
}
use toy_kernel.Keyboard.Layout.{
  Key, layout, Stroke, plainly, with_left_shift, with_right_shift, return_key, codes, character,
  release, left_shift, right_shift,
}

-- The interrupts of some scancodes in turn.
abbrev pub callbacks : List ℕ → Keyboard → Outcome Keyboard
callbacks [] s = ok s
callbacks (c ∷ cs) s = keyboard_callback c s >>= λ s1. callbacks cs s1

-- What is to be true of a key of the layout.
abbrev is_noaction : KeyAction → Bool
is_noaction noaction = true
is_noaction _ = false

abbrev has_char : Option ℕ → ℕ → Bool
has_char (some c) plain = c == plain
has_char none plain = false

abbrev agrees : Key → Bool
agrees k =
    ltb k.code num_key_presses
    && (is_noaction (key_action k.code)
        && (has_char (get_elem? key_presses k.code) k.plain
            && (not (k.plain == 0) && (shifted_key k.plain == k.shifted))))

abbrev all_agree : List Key → Bool
all_agree [] = true
all_agree (k ∷ ks) = agrees k && all_agree ks

layout_agrees : all_agree layout ≡ true
unfolding shifted_key switch_case
layout_agrees = refl

abbrev pub IsKey : Key → Type 0
IsKey k = (i : ℕ) × (get_elem? layout i ≡ some k)

agrees-of :
    (ks : List Key) (i : ℕ) (k : Key)
    → all_agree ks ≡ true
    → get_elem? ks i ≡ some k
    → agrees k ≡ true
agrees-of [] i k all got = cc
agrees-of (j ∷ ks) zero k all got = ap agrees (sym (some-inj got)) ∙ ground arith
agrees-of (j ∷ ks) (suc i) k all got = agrees-of ks i k (ground arith) got

-- A key of the layout, as the tables of the source have it.
record Agrees (k : Key) : Type 0 where
  pressed : ltb k.code num_key_presses ≡ true
  no_action : key_action k.code ≡ noaction
  typed : get_elem? key_presses k.code ≡ some k.plain
  mapped : k.plain == 0 ≡ false
  shifts : shifted_key k.plain ≡ k.shifted

and_split : (b c : Bool) → (b && c) ≡ true → (b ≡ true) × (c ≡ true)
and_split true c h = (refl, h)
and_split false c h = cc

noaction_of : (a : KeyAction) → is_noaction a ≡ true → a ≡ noaction
noaction_of noaction h = refl
noaction_of enter h = cc
noaction_of lctrl h = cc
noaction_of lshift h = cc
noaction_of rshift h = cc

char_of : (o : Option ℕ) (c : ℕ) → has_char o c ≡ true → o ≡ some c
char_of (some b) c h = ap some ((==_iff b c).0 h)
char_of none c h = cc

agrees-Agrees : (k : Key) → agrees k ≡ true → Agrees k
agrees-Agrees k e =
    let (pressed, e1) = and_split (ltb k.code num_key_presses) _ e in
    let (free, e2) = and_split (is_noaction (key_action k.code)) _ e1 in
    let (char, e3) = and_split (has_char (get_elem? key_presses k.code) k.plain) _ e2 in
    let (mapped, shifts) = and_split (not (k.plain == 0)) (shifted_key k.plain == k.shifted) e3 in
    record {
      pressed = pressed;
      no_action = noaction_of (key_action k.code) free;
      typed = char_of (get_elem? key_presses k.code) k.plain char;
      mapped = eq-false mapped;
      shifts = (==_iff (shifted_key k.plain) k.shifted).0 shifts;
    }

key-Agrees : (k : Key) → IsKey k → Agrees k
key-Agrees k (i, got) = agrees-Agrees k (agrees-of layout i k layout_agrees got)

abbrev typed : List ℕ → Keyboard → Keyboard
typed cs s = record s { previous_action = noaction; output = s.output ++ cs }

press :
    (k : Key) (c : ℕ) (s : Keyboard)
    → Agrees k
    → with_action s.previous_action k.plain ≡ ok c
    → keyboard_callback k.code s ≡ ok (typed (c ∷ []) s)
unfolding keyboard_callback press_key
press k c s g acts = rw g.pressed (rw g.no_action (rw g.typed (rw g.mapped (rw acts refl))))

-- The release of a key below 0x60 does nothing.
release_key : (code : ℕ) (s : Keyboard) → code < 0x60 → keyboard_callback (release code) s ≡ ok s
unfolding keyboard_callback
release_key code s low =
    let past : ltb (release code) num_key_presses ≡ false = ground arith in
    let below : ltb (release code) 0xE0 ≡ true = ground arith in rw past (rw below refl)

callbacks_bind :
    (c : ℕ) (cs : List ℕ) (s s1 : Keyboard)
    → keyboard_callback c s ≡ ok s1
    → callbacks (c ∷ cs) s ≡ callbacks cs s1
callbacks_bind c cs s s1 h = ap (λ o. o >>= λ s2. callbacks cs s2) h

code-bound : (k : Key) → Agrees k → k.code < 0x60
code-bound k g = ground (arith, g.pressed)

abbrev pub IsStroke : Stroke → Type 0
IsStroke (plainly k) = IsKey k
IsStroke (with_left_shift k) = IsKey k
IsStroke (with_right_shift k) = IsKey k
IsStroke return_key = Unit {0}

stroke-typed :
    (t : Stroke) (s : Keyboard)
    → IsStroke t
    → s.previous_action ≡ noaction
    → callbacks (codes t) s ≡ ok (typed (character t ∷ []) s)
unfolding with_action keyboard_callback
stroke-typed (plainly k) s w idle =
    let g = key-Agrees k w in
    let acts : with_action s.previous_action k.plain ≡ ok k.plain =
      ap (λ a. with_action a k.plain) idle in
    callbacks_bind k.code (release k.code ∷ []) s _ (press k k.plain s g acts)
    ∙ callbacks_bind (release k.code) [] _ _ (release_key k.code _ (code-bound k g))
stroke-typed (with_left_shift k) s w idle =
    let g = key-Agrees k w in
    let held = record s { previous_action = lshift } in
    callbacks_bind k.code (release k.code ∷ release left_shift ∷ []) held _
      (press k k.shifted held g (ap ok g.shifts))
    ∙ callbacks_bind (release k.code) (release left_shift ∷ []) _ _
        (release_key k.code _ (code-bound k g))
stroke-typed (with_right_shift k) s w idle =
    let g = key-Agrees k w in
    let held = record s { previous_action = rshift } in
    callbacks_bind k.code (release k.code ∷ release right_shift ∷ []) held _
      (press k k.shifted held g (ap ok g.shifts))
    ∙ callbacks_bind (release k.code) (release right_shift ∷ []) _ _
        (release_key k.code _ (code-bound k g))
stroke-typed return_key s w idle = refl

abbrev pub AllStrokes : List Stroke → Type 0
AllStrokes [] = Unit {0}
AllStrokes (t ∷ ts) = IsStroke t × AllStrokes ts

abbrev pub all_codes : List Stroke → List ℕ
all_codes [] = []
all_codes (t ∷ ts) = codes t ++ all_codes ts

callbacks-append :
    (cs ds : List ℕ) (s s1 : Keyboard)
    → callbacks cs s ≡ ok s1
    → callbacks (cs ++ ds) s ≡ callbacks ds s1
callbacks-append [] ds s s1 h = ap (λ t. callbacks ds t) (ok-inj h)
callbacks-append (c ∷ cs) ds s s1 h =
    let (s2, first, rest) = >>=-eq-ok (keyboard_callback c s) (λ s2. callbacks cs s2) h in
    callbacks_bind c (cs ++ ds) s s2 first ∙ callbacks-append cs ds s2 s1 rest

-- Keys of the layout (letters, digits, signs, escape, backspace, tabulator and the keypad's star; not the
-- space bar) that are struck one after the other, each alone or while the left or the right shift is
-- pressed for that key only, with the releases, or the return key, while no key is held: the handler sends
-- the characters of the strokes to the serial port, in their order and no others, warns of nothing, and
-- holds no key afterwards.
pub callbacks-typed :
    (ts : List Stroke) (s : Keyboard)
    → AllStrokes ts
    → s.previous_action ≡ noaction
    → (s' : Keyboard) × (callbacks (all_codes ts) s ≡ ok s')
      × (s'.output ≡ s.output ++ map character ts)
      × (s'.previous_action ≡ noaction)
      × (s'.warned ≡ s.warned)
callbacks-typed [] s w idle = (s, refl, sym (append-nil s.output), idle, refl)
callbacks-typed (t ∷ ts) s w idle =
    let s1 = typed (character t ∷ []) s in
    let (s', ran, out, free, warned) = callbacks-typed ts s1 w.1 refl in
    (
      s',
      callbacks-append (codes t) (all_codes ts) s s1 (stroke-typed t s w.0 idle) ∙ ran,
      out ∙ append_assoc s.output (character t ∷ []) (map character ts),
      free,
      warned,
    )
