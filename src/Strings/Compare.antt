-- ===== src/Strings/Compare.antt =====
-- `memcmp` and `strcmp` against the equality of what they compare.
use toy_kernel.Base.{
  ℕ, zero, suc, ◌-◌, ◌^◌, ◌<◌, ◌≡◌, refl, ap, ap₂, Bool-cases, false, List, [], ◌∷◌, ◌++◌, length,
  take, ◌==◌, Outcome, ok, arith, ◌⊎◌, inl, inr,
}
use toy_kernel.Strings.{difference, extend, memcmp, strcmp}

abbrev pub AllBytes : List ℕ → Type 0
AllBytes [] = Unit {0}
AllBytes (b ∷ bs) = (b < 256) × AllBytes bs

-- Exactly one of the two: a test that answers 0, and what it says is equal; or neither.
abbrev pub Decides : Outcome ℕ → Type 0 → Type 0
Decides r P = ((r ≡ ok 0) × P) ⊎ ((n : ℕ) × (r ≡ ok (suc n)) × ¬ P)

difference_same : (a b : ℕ) → b < 2 ^ 32 → a ≡ b → difference a b ≡ 0
difference_same a b h e = omega arith

difference_ne :
    (a b : ℕ) → a < 2 ^ 32 → b < 2 ^ 32 → a == b ≡ false → (n : ℕ) × (difference a b ≡ suc n)
difference_ne a b ha hb e =
    let apart : ¬ (a ≡ b) = ground arith in
    let positive : 0 < difference a b = omega arith in (difference a b - 1, omega arith)

-- What is behind the last comparison decides.
differs :
    (v w : ℕ) (P : Type 0)
    → v < 2 ^ 32
    → w < 2 ^ 32
    → v == w ≡ false
    → ¬ P
    → Decides (ok (difference v w)) P
differs v w P hv hw e other = let (n, is) = difference_ne v w hv hw e in inr (n, ap ok is, other)

Decides-map : {r : Outcome ℕ} {P Q : Type 0} → Decides r P → (P → Q) → (Q → P) → Decides r Q
Decides-map (inl (e, p)) f g = inl (e, f p)
Decides-map (inr (n, e, other)) f g = inr (n, e, λ q. other (g q))

cons_eq : {v w : ℕ} {vs ws : List ℕ} → (v ∷ vs) ≡ (w ∷ ws) → (v ≡ w) × (vs ≡ ws)
cons_eq e = (cc, cc)

extend-bound : (c : ℕ) → c < 256 → extend c < 2 ^ 32
extend-bound c h = ground arith

-- `memcmp` of `size` bytes, on memory with more than `size` bytes behind each pointer, returns, and
-- returns 0 exactly if the first `size + 1` bytes of the two are the same: it compares one more byte
-- than it is asked to.
pub memcmp-take :
    (size : ℕ) (lhs rhs : List ℕ)
    → AllBytes lhs
    → AllBytes rhs
    → size < length lhs
    → size < length rhs
    → Decides (memcmp size lhs rhs) (take (suc size) lhs ≡ take (suc size) rhs)
unfolding memcmp
memcmp-take size [] rhs wl wr hl hr = absurd (omega arith)
memcmp-take size (v ∷ vs) [] wl wr hl hr = absurd (omega arith)
memcmp-take zero (v ∷ vs) (w ∷ ws) wl wr hl hr = elim (Bool-cases (v == w)) [
  | inl e ↦
      let same : v ≡ w = ground arith in
      inl (ap ok (difference_same v w (omega (arith, wr.0)) same), ap (λ x. x ∷ []) same)
  | inr e ↦
      let apart : ¬ (v ≡ w) = ground arith in
      differs v w _ (omega (arith, wl.0)) (omega (arith, wr.0)) e (λ same. apart (cons_eq same).0)
]
memcmp-take (suc size) (v ∷ vs) (w ∷ ws) wl wr hl hr = elim (Bool-cases (v == w)) [
  | inl e ↦
      let same : v ≡ w = ground arith in
      rw e (
        Decides-map (memcmp-take size vs ws wl.1 wr.1 (omega arith) (omega arith))
          (λ rest. ap₂ (λ x xs. x ∷ xs) same rest) (λ all. (cons_eq all).1))
  | inr e ↦
      let apart : ¬ (v ≡ w) = ground arith in
      rw e (
        differs v w _ (omega (arith, wl.0)) (omega (arith, wr.0)) e
          (λ same. apart (cons_eq same).0))
]

-- The characters of a string, in which no character is the null character.
abbrev pub AllText : List ℕ → Type 0
AllText [] = Unit {0}
AllText (c ∷ cs) = (0 < c) × (c < 256) × AllText cs

extend_ne : (c d : ℕ) → c < 256 → d < 256 → c == d ≡ false → extend c == extend d ≡ false
extend_ne c d hc hd e = ground arith

differs_text :
    (c d : ℕ) (P : Type 0)
    → c < 256
    → d < 256
    → c == d ≡ false
    → ¬ P
    → Decides (ok (difference (extend c) (extend d))) P
differs_text c d P hc hd e other =
    differs (extend c) (extend d) P (extend-bound c hc) (extend-bound d hd) (extend_ne c d hc hd e)
      other

-- `strcmp` of two strings, with any bytes behind their null characters, returns, and returns 0
-- exactly if the strings are the same.
strcmp-eq :
    (s1 s2 behind1 behind2 : List ℕ)
    → AllText s1
    → AllText s2
    → Decides (strcmp (s1 ++ 0 ∷ behind1) (s2 ++ 0 ∷ behind2)) (s1 ≡ s2)
unfolding strcmp
strcmp-eq [] [] b1 b2 w1 w2 = inl (refl, refl)
strcmp-eq [] (d ∷ ds) b1 b2 w1 w2 =
    let (some_char, small, _) = w2 in
    let apart : 0 == d ≡ false = ground arith in
    differs_text 0 d _ (omega arith) small apart (λ e. cc)
strcmp-eq (c ∷ cs) [] b1 b2 w1 w2 =
    let (some_char, small, _) = w1 in
    let apart : c == 0 ≡ false = ground arith in
    rw apart (differs_text c 0 _ small (omega arith) apart (λ e. cc))
strcmp-eq (c ∷ cs) (d ∷ ds) b1 b2 w1 w2 = elim (Bool-cases (c == d)) [
  | inl e ↦
      let (present, _, text1) = w1 in
      let (_, _, text2) = w2 in
      let same : c ≡ d = ground arith in
      let not_null : c == 0 ≡ false = ground arith in
      rw not_null (
        rw e (
          Decides-map (strcmp-eq cs ds b1 b2 text1 text2) (λ rest. ap₂ (λ x xs. x ∷ xs) same rest)
            (λ all. (cons_eq all).1)))
  | inr e ↦
      let apart : ¬ (c ≡ d) = ground arith in
      let (present, small1, _) = w1 in
      let (_, small2, _) = w2 in
      let not_null : c == 0 ≡ false = ground arith in
      rw not_null (rw e (differs_text c d _ small1 small2 e (λ same. apart (cons_eq same).0)))
]
