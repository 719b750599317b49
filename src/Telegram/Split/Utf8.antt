-- ===== src/Telegram/Split/Utf8.antt =====
-- UTF-8, as far as the ends of its characters go.
use protoclaw.Base.{
  ℕ, zero, suc, ◌+◌, ◌≤◌, ◌<◌, ◌≡◌, refl, ap, subst, true, false, [], ◌∷◌, arith, inl, inr, length,
  ltb, Bool-cases, if◌then◌else◌,
}
use protoclaw.Base.Text.{Text}
use protoclaw.Base.Search.{starts_with, take, drop}
use protoclaw.Base.Search.Laws.{drop-drop}
use protoclaw.Telegram.Permissions.{is_continuation}
use protoclaw.Telegram.Split.{is_char_boundary, boundary_within, floor_char_boundary}

-- Bytes as they stand in UTF-8 after a byte that `room` bytes may continue: no byte of ASCII is
-- continued, and no other character has more than three bytes after its first.
abbrev pub Continues : ℕ → Text → Type 0
Continues room [] = Unit
Continues zero (c ∷ s) = (is_continuation c ≡ false) × Continues (if ltb c 128 then 0 else 3) s
Continues (suc room) (c ∷ s) =
    Continues (if is_continuation c then room else if ltb c 128 then 0 else 3) s

-- Bytes that begin with a character and go on as UTF-8 does.
abbrev pub Utf8 : Text → Type 0
Utf8 s = Continues 0 s

Continues-drop : (room n : ℕ) (s : Text) → Continues room s → (r : ℕ) × Continues r (drop n s)
unfolding drop
Continues-drop room zero s u = (room, u)
Continues-drop room (suc n) [] u = (0, tt)
Continues-drop zero (suc n) (c ∷ s) u = Continues-drop (if ltb c 128 then 0 else 3) n s u.1
Continues-drop (suc room) (suc n) (c ∷ s) u =
    Continues-drop (if is_continuation c then room else if ltb c 128 then 0 else 3) n s u

pub Continues-take : (room n : ℕ) (s : Text) → Continues room s → Continues room (take n s)
unfolding take
Continues-take room zero s u = tt
Continues-take room (suc n) [] u = u
Continues-take zero (suc n) (c ∷ s) u = (u.0, Continues-take (if ltb c 128 then 0 else 3) n s u.1)
Continues-take (suc room) (suc n) (c ∷ s) u =
    Continues-take (if is_continuation c then room else if ltb c 128 then 0 else 3) n s u

-- A byte that does not go on with a character begins one.
begins : (room c : ℕ) (s : Text) → is_continuation c ≡ false → Continues room (c ∷ s) → Utf8 (c ∷ s)
begins zero c s f u = u
begins (suc room) c s f u =
    (f, subst (λ b. Continues (if b then room else if ltb c 128 then 0 else 3) s) f u)

boundary-Utf8 :
    (room n : ℕ) (s : Text) → boundary_within n s ≡ true → Continues room s → Utf8 (drop n s)
unfolding boundary_within drop
boundary-Utf8 room zero [] h u = tt
boundary-Utf8 room zero (c ∷ s) h u = begins room c s (ground arith) u
boundary-Utf8 room (suc n) [] h u = tt
boundary-Utf8 zero (suc n) (c ∷ s) h u = boundary-Utf8 (if ltb c 128 then 0 else 3) n s h u.1
boundary-Utf8 (suc room) (suc n) (c ∷ s) h u =
    boundary-Utf8 (if is_continuation c then room else if ltb c 128 then 0 else 3) n s h u

pub char_boundary-Utf8 : (n : ℕ) (s : Text) → is_char_boundary n s ≡ true → Utf8 s → Utf8 (drop n s)
unfolding is_char_boundary drop
char_boundary-Utf8 zero s h u = u
char_boundary-Utf8 (suc n) s h u = boundary-Utf8 0 (suc n) s h u

pub floor_char_boundary-boundary :
    (n : ℕ) (s : Text) → is_char_boundary (floor_char_boundary n s) s ≡ true
unfolding floor_char_boundary
floor_char_boundary-boundary zero s = unfold is_char_boundary in refl
floor_char_boundary-boundary (suc n) s = elim (Bool-cases (is_char_boundary (suc n) s)) [
  | inl t ↦ rw (floor_char_boundary, t) t
  | inr f ↦ rw (floor_char_boundary, f) (floor_char_boundary-boundary n s)
]

continued :
    (room c : ℕ) (s : Text)
    → is_continuation c ≡ true
    → Continues room (c ∷ s)
    → (r : ℕ) × (room ≡ suc r) × Continues r s
continued zero c s t u = absurd (ground (arith, u.0))
continued (suc room) c s t u =
    (room, refl, subst (λ b. Continues (if b then room else if ltb c 128 then 0 else 3) s) t u)

-- Of four places next to one another, one is between characters.
four_bytes :
    (room a b c d : ℕ) (s : Text)
    → room ≤ 3
    → Continues room (a ∷ b ∷ c ∷ d ∷ s)
    → is_continuation a ≡ true
    → is_continuation b ≡ true
    → is_continuation c ≡ true
    → is_continuation d ≡ false
four_bytes room a b c d s le u p q r = elim (Bool-cases (is_continuation d)) [
  | inr f ↦ f
  | inl t ↦
      let (r1, e1, u1) = continued room a (b ∷ c ∷ d ∷ s) p u in
      let (r2, e2, u2) = continued r1 b (c ∷ d ∷ s) q u1 in
      let (r3, e3, u3) = continued r2 c (d ∷ s) r u2 in
      let (r4, e4, u4) = continued r3 d s t u3 in absurd (omega (arith, e1, e2, e3, e4))
]

-- A boundary in front of `n` is found.
floor_pos :
    (m n : ℕ) (s : Text) → is_char_boundary (suc m) s ≡ true → m < n → 0 < floor_char_boundary n s
unfolding floor_char_boundary
floor_pos m zero s h lt = absurd (omega arith)
floor_pos m (suc n) s h lt = elim (Bool-cases (is_char_boundary (suc n) s)) [
  | inl t ↦ rw (floor_char_boundary, t) (omega arith)
  | inr f ↦
      rw (floor_char_boundary, f)
        (floor_pos m n s h (ground (arith, f, h, ap (λ (k : ℕ). is_char_boundary (suc k) s))))
]

pub floor_char_boundary_pos :
    (max_len : ℕ) (s : Text)
    → Utf8 s
    → 4 ≤ max_len
    → max_len < length s
    → 0 < floor_char_boundary max_len s
floor_char_boundary_pos max_len [] u p q = absurd (omega arith)
floor_char_boundary_pos max_len (a ∷ []) u p q = absurd (omega arith)
floor_char_boundary_pos max_len (a ∷ b ∷ []) u p q = absurd (omega arith)
floor_char_boundary_pos max_len (a ∷ b ∷ c ∷ []) u p q = absurd (omega arith)
floor_char_boundary_pos max_len (a ∷ b ∷ c ∷ d ∷ []) u p q = absurd (omega arith)
floor_char_boundary_pos max_len (a ∷ b ∷ c ∷ d ∷ e ∷ s) u p q =
    let t = a ∷ b ∷ c ∷ d ∷ e ∷ s in
    let room : ℕ = if ltb a 128 then 0 else 3 in
    let last = four_bytes room b c d e s (ground arith) u.1 in
    elim (Bool-cases (is_continuation b)) [
      | inr f ↦
          floor_pos 0 max_len t (unfold is_char_boundary boundary_within in rw f) (omega arith)
      | inl h ↦ elim (Bool-cases (is_continuation c)) [
        | inr f ↦
            floor_pos 1 max_len t (unfold is_char_boundary boundary_within in rw f) (omega arith)
        | inl i ↦ elim (Bool-cases (is_continuation d)) [
          | inr f ↦
              floor_pos 2 max_len t (unfold is_char_boundary boundary_within in rw f) (omega arith)
          | inl j ↦
              floor_pos 3 max_len t (unfold is_char_boundary boundary_within in rw (last h i j))
                (omega arith)
        ]
      ]
    ]

abbrev pub Ascii : Text → Type 0
Ascii [] = Unit
Ascii (c ∷ s) = (c < 128) × Ascii s

one_byte : (c : ℕ) → c < 128 → (is_continuation c ≡ false) × (ltb c 128 ≡ true)
one_byte c h = ground arith

-- Behind a text of ASCII stands a character.
Ascii-Utf8 : (p s : Text) → Ascii p → starts_with p s ≡ true → Utf8 s → Utf8 (drop (length p) s)
unfolding starts_with drop
Ascii-Utf8 [] s a h u = u
Ascii-Utf8 (b ∷ p) [] a h u = tt
Ascii-Utf8 (b ∷ p) (c ∷ s) a h u =
    let e : b ≡ c = ground (arith, h) in
    let small = one_byte c (omega (arith, e, a.0)) in
    Ascii-Utf8 p s a.1 (ground (arith, h))
      (subst (λ t. Continues (if t then 0 else 3) s) small.1 u.1)

pub behind-Utf8 :
    (b : ℕ) (p : Text) (n : ℕ) (s : Text)
    → Ascii (b ∷ p)
    → starts_with (b ∷ p) (drop n s) ≡ true
    → Utf8 s
    → Utf8 (drop (n + length (b ∷ p)) s)
behind-Utf8 b p n s a h u =
    let (room, v) = Continues-drop 0 n s u in
    subst Utf8 (drop-drop (length (b ∷ p)) n s)
      (Ascii-Utf8 (b ∷ p) (drop n s) a h (first (drop n s) room h v))
  where
    first : (t : Text) (room : ℕ) → starts_with (b ∷ p) t ≡ true → Continues room t → Utf8 t
    first [] room k v = tt
    first (c ∷ t) room k v = begins room c t (first_byte c t k) v
      where
        first_byte :
            (c : ℕ) (t : Text) → starts_with (b ∷ p) (c ∷ t) ≡ true → is_continuation c ≡ false
        first_byte c t k = unfold starts_with in ground (arith, a.0)
