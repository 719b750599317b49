-- ===== src/Config/Rules/Limits.antt =====
-- The limits of memory and of processors, as rules on their texts.
use protoclaw.Base.{
  ◌≡◌, refl, ◌⊎◌, inl, inr, ◌∙◌, ap, ℕ, true, false, none, some, [], ◌∷◌, ◌++◌, leb, Bool-cases,
  Option-cases, arith,
}
use protoclaw.Base.Text.{Text, ℤ}
use protoclaw.Config.{
  Outside, accepted, split_last, multiplier, is_milli, parse_number, parse_memory_limit,
  parse_cpu_limit,
}

-- `k`, `m` or `g`, in either case.
abbrev pub IsUnit : ℕ → Type 0
IsUnit u = (u ≡ b'k') ⊎ (u ≡ b'K') ⊎ (u ≡ b'm') ⊎ (u ≡ b'M') ⊎ (u ≡ b'g') ⊎ (u ≡ b'G')

abbrev pub IsMilli : ℕ → Type 0
IsMilli u = (u ≡ b'm') ⊎ (u ≡ b'M')

pub split_last_append : (s : Text) (c : ℕ) → split_last (s ++ (c ∷ [])) ≡ some (s, c)
unfolding split_last
split_last_append [] c = refl
split_last_append (d ∷ s) c = rw (split_last_append s c) refl

pub split_last_empty : (s : Text) → split_last s ≡ none → s ≡ []
unfolding split_last
split_last_empty [] e = refl
split_last_empty (d ∷ s) e = elim (Option-cases (split_last s)) [
  | inl n ↦ absurd (ground (arith, e, n))
  | inr ((t, c), m) ↦ absurd (ground (arith, e, m))
]

pub split_last_sound : (s t : Text) (c : ℕ) → split_last s ≡ some (t, c) → s ≡ t ++ (c ∷ [])
unfolding split_last
split_last_sound [] t c e = absurd (ground (arith, e))
split_last_sound (d ∷ s) t c e = elim (Option-cases (split_last s)) [
  | inl n ↦ ground (arith, e, n, split_last_empty s n)
  | inr ((u, v), m) ↦ ground (arith, e, m, split_last_sound s u v m)
]

unit_multiplier : (u : ℕ) → IsUnit u → (n : ℕ) × (multiplier u ≡ some n)
unfolding multiplier
unit_multiplier u (inl k) = (1024, ground (arith, k))
unit_multiplier u (inr (inl k)) = (1024, ground (arith, k))
unit_multiplier u (inr (inr (inl m))) = (1048576, ground (arith, m))
unit_multiplier u (inr (inr (inr (inl m)))) = (1048576, ground (arith, m))
unit_multiplier u (inr (inr (inr (inr (inl g))))) = (1073741824, ground (arith, g))
unit_multiplier u (inr (inr (inr (inr (inr g))))) = (1073741824, ground (arith, g))

multiplier-IsUnit : (u n : ℕ) → multiplier u ≡ some n → IsUnit u
unfolding multiplier
multiplier-IsUnit u n e = ground (arith, e)

ascii_unit : (u n : ℕ) → multiplier u ≡ some n → leb 128 u ≡ false
unfolding multiplier
ascii_unit u n e = ground (arith, e)

module _ (out : Outside) where
  abbrev pub ValidNumber : Text → Type 0
  ValidNumber t = (x : out.F64) × (out.parse_f64 t ≡ some x) × (out.not_positive x ≡ false)

  -- A positive number and a unit.
  abbrev pub ValidMemory : Text → Type 0
  ValidMemory s = (t : Text) × (u : ℕ) × (out.trim s ≡ t ++ (u ∷ [])) × IsUnit u × ValidNumber t

  -- A positive number of thousandths, or a positive number.
  abbrev pub ValidCpu : Text → Type 0
  ValidCpu s =
      (t : Text) × (u : ℕ) × (out.trim s ≡ t ++ (u ∷ []))
      × ((IsMilli u × ValidNumber t) ⊎ ((is_milli u ≡ false) × ValidNumber (out.trim s)))

  number_valid :
      (t : Text) (unit : ℕ) → ValidNumber t → (n : ℤ) × (parse_number out t unit ≡ accepted n)
  unfolding parse_number
  number_valid t unit (x, e, p) = (out.times x unit, rw (parse_number, e, p) refl)

  valid_number :
      (t : Text) (unit : ℕ) (n : ℤ) → parse_number out t unit ≡ accepted n → ValidNumber t
  unfolding parse_number
  valid_number t unit n h = elim (Option-cases (out.parse_f64 t)) [
    | inl e ↦ absurd (ground (arith, h, e))
    | inr (x, e) ↦ elim (Bool-cases (out.not_positive x)) [
      | inl p ↦ absurd (ground (arith, h, e, p))
      | inr p ↦ (x, e, p)
    ]
  ]

  pub memory_valid :
      (s : Text) → ValidMemory s → (n : ℤ) × (parse_memory_limit out s ≡ some (accepted n))
  unfolding parse_memory_limit
  memory_valid s (t, u, e, k, v) =
      let (m, p) = unit_multiplier u k in
      let (n, q) = number_valid t m v in
      (n, rw (parse_memory_limit, e, split_last_append t u, ascii_unit u m p, p, q) refl)

  pub valid_memory :
      (s : Text) (n : ℤ) → parse_memory_limit out s ≡ some (accepted n) → ValidMemory s
  unfolding parse_memory_limit
  valid_memory s n h = elim (Option-cases (split_last (out.trim s))) [
    | inl e ↦ absurd (ground (arith, h, e))
    | inr ((t, u), e) ↦ elim (Option-cases (multiplier u)) [
      | inl p ↦ absurd (ground (arith, h, e, p))
      | inr (m, p) ↦ (
        t,
        u,
        split_last_sound (out.trim s) t u e,
        multiplier-IsUnit u m p,
        valid_number t m n (ground (arith, h, e, p, ascii_unit u m p)),
      )
    ]
  ]

  pub cpu_valid : (s : Text) → ValidCpu s → (n : ℤ) × (parse_cpu_limit out s ≡ accepted n)
  unfolding parse_cpu_limit is_milli
  cpu_valid s (t, u, e, inl (k, v)) =
      let (n, q) = number_valid t 1000000 v in
      let milli : is_milli u ≡ true = ground (arith, k) in
      (n, rw (parse_cpu_limit, e, split_last_append t u, milli, q) refl)
  cpu_valid s (t, u, e, inr (f, v)) =
      let (n, q) = number_valid (out.trim s) 1000000000 v in
      let split : split_last (out.trim s) ≡ some (t, u) = ap split_last e ∙ split_last_append t u in
      (n, rw (parse_cpu_limit, split, f, q) refl)

  pub valid_cpu : (s : Text) (n : ℤ) → parse_cpu_limit out s ≡ accepted n → ValidCpu s
  unfolding parse_cpu_limit is_milli
  valid_cpu s n h = elim (Option-cases (split_last (out.trim s))) [
    | inl e ↦ absurd (ground (arith, h, e))
    | inr ((t, u), e) ↦ elim (Bool-cases (is_milli u)) [
      | inl k ↦ (
        t,
        u,
        split_last_sound (out.trim s) t u e,
        inl (ground (arith, k), valid_number t 1000000 n (ground (arith, h, e, k))),
      )
      | inr f ↦ (
        t,
        u,
        split_last_sound (out.trim s) t u e,
        inr (f, valid_number (out.trim s) 1000000000 n (ground (arith, h, e, f))),
      )
    ]
  ]
