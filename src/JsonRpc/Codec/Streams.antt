-- ===== src/JsonRpc/Codec/Streams.antt =====
-- Decoding does not depend on how the bytes arrive, and reads back what was encoded.
use mathlib.Core.List.{append_assoc}
use protoclaw.Base.{
  ℕ, zero, suc, ◌<◌, ◌≤◌, true, ◌≡◌, refl, ap, ◌≢◌, inl, inr, none, some, List, [], ◌∷◌, ◌++◌,
  arith, length, length-append, ltb, nat_eqb, Option-cases, Bool-cases,
}
use protoclaw.JsonRpc.Codec.{
  Serde, max_line_size, split_line, trim_cr, Decoded, message, incomplete, too_long, on_line,
  decode_loop, decode, encode,
}

split_line-append :
    (src more line rest : List ℕ)
    → split_line src ≡ some (line, rest)
    → split_line (src ++ more) ≡ some (line, rest ++ more)
unfolding split_line
split_line-append [] more line rest h = cc
split_line-append (c ∷ src) more line rest h = elim (Bool-cases (nat_eqb c b'\n')) [
  | inl t ↦ ground arith
  | inr f ↦ elim (Option-cases (split_line src)) [
    | inl n ↦ ground arith
    | inr ((l, r), n) ↦ ground (arith, split_line-append src more l r n)
  ]
]

length-split_line :
    (src line rest : List ℕ) → split_line src ≡ some (line, rest) → length rest < length src
unfolding split_line
length-split_line [] line rest h = cc
length-split_line (c ∷ src) line rest h = elim (Bool-cases (nat_eqb c b'\n')) [
  | inl t ↦ ground arith
  | inr f ↦ elim (Option-cases (split_line src)) [
    | inl n ↦ ground arith
    | inr ((l, r), n) ↦ ground (arith, length-split_line src l r n)
  ]
]

module _ (serde : Serde) where
  -- More fuel than the buffer is long makes no difference.
  enough_fuel :
      (m n : ℕ) (src : List ℕ)
      → length src < m
      → length src < n
      → decode_loop serde m src ≡ decode_loop serde n src
  unfolding decode_loop
  enough_fuel zero n src h g = ground arith
  enough_fuel (suc m) zero src h g = ground arith
  enough_fuel (suc m) (suc n) src h g = elim (Option-cases (split_line src)) [
    | inl e ↦ rw (e, decode_loop) refl
    | inr ((line, rest), e) ↦
        let shorter = length-split_line src line rest e in
        rw (e, decode_loop)
          (ap (λ next. on_line serde next (trim_cr line) rest)
            (enough_fuel m n rest (omega (arith, shorter, h)) (omega (arith, shorter, g))))
  ]

  -- How decoding goes on when `more` arrives behind what has been decoded. The error of a line
  -- that is too long ends the connection.
  abbrev pub Continues : Decoded serde × List ℕ → Decoded serde × List ℕ → List ℕ → Type 0
  Continues (message m, src) r more = r ≡ (message m, src ++ more)
  Continues (incomplete, src) r more = r ≡ decode serde (src ++ more)
  Continues (too_long n, src) r more = Unit {0}

  on_line-Continues :
      (line rest more : List ℕ) (next next' : Decoded serde × List ℕ)
      → Continues next next' more
      → Continues (on_line serde next line rest) (on_line serde next' line (rest ++ more)) more
  unfolding on_line
  on_line-Continues [] rest more next next' c = c
  on_line-Continues (b ∷ line) rest more next next' c =
      elim (Bool-cases (ltb max_line_size (length (b ∷ line)))) [
        | inl t ↦ rw (t, on_line) tt
        | inr f ↦ elim (Option-cases (serde.from_slice (b ∷ line))) [
          | inl n ↦ rw (f, n, on_line) c
          | inr (m, n) ↦ rw (f, n, on_line) refl
        ]
      ]

  loop-Continues :
      (m n : ℕ) (src more : List ℕ)
      → length src < m
      → length (src ++ more) < n
      → Continues (decode_loop serde m src) (decode_loop serde n (src ++ more)) more
  unfolding decode_loop decode
  loop-Continues zero n src more h g = ground arith
  loop-Continues (suc m) zero src more h g = ground arith
  loop-Continues (suc m) (suc n) src more h g = elim (Option-cases (split_line src)) [
    | inl e ↦ elim (Bool-cases (ltb max_line_size (length src))) [
      | inl t ↦ rw (e, decode_loop) (rw t tt)
      | inr f ↦
          rw (e, decode_loop)
            (rw f (enough_fuel (suc n) (suc (length (src ++ more))) (src ++ more) g (omega arith)))
    ]
    | inr ((line, rest), e) ↦
        let shorter = length-split_line src line rest e in
        rw (e, split_line-append src more line rest e, decode_loop)
          (on_line-Continues (trim_cr line) rest more _ _ (
            loop-Continues m n rest more (omega (arith, shorter, h))
              (omega (arith, shorter, g, length-append rest more, length-append src more))))
  ]

  -- Bytes may arrive in pieces of any size: a message that is found in what has arrived is found
  -- in the same way when more follows, and what is left in the buffer without a message is taken
  -- up where it stopped. Nothing is said of what follows a line that is too long.
  pub decode-append :
      (src more : List ℕ) → Continues (decode serde src) (decode serde (src ++ more)) more
  unfolding decode
  decode-append src more =
      loop-Continues (suc (length src)) (suc (length (src ++ more))) src more (omega arith)
        (omega arith)

-- No newline among the bytes, and no carriage return at their end.
abbrev pub OneLine : List ℕ → Type 0
OneLine json = (split_line json ≡ none) × (trim_cr json ≡ json) × (json ≢ [])

split_line-one :
    (json rest : List ℕ)
    → split_line json ≡ none
    → split_line (json ++ (b'\n' ∷ rest)) ≡ some (json, rest)
unfolding split_line
split_line-one [] rest h = refl
split_line-one (c ∷ json) rest h = elim (Bool-cases (nat_eqb c b'\n')) [
  | inl t ↦ ground arith
  | inr f ↦ elim (Option-cases (split_line json)) [
    | inl n ↦ ground (arith, split_line-one json rest n)
    | inr ((l, r), n) ↦ ground arith
  ]
]

module _ (serde : Serde) where
  -- A message that serde_json writes in one line and reads back.
  abbrev pub Wire : serde.JsonRpcMessage → Type 0
  Wire m =
      ((serde.to_writer m).1 ≡ true)
      × OneLine (serde.to_writer m).0
      × (length (serde.to_writer m).0 ≤ max_line_size)
      × (serde.from_slice (serde.to_writer m).0 ≡ some m)

  on_line-message :
      (line rest : List ℕ) (next : Decoded serde × List ℕ) (m : serde.JsonRpcMessage)
      → line ≢ []
      → length line ≤ max_line_size
      → serde.from_slice line ≡ some m
      → on_line serde next line rest ≡ (message m, rest)
  unfolding on_line
  on_line-message [] rest next m some_line short reads = absurd (some_line refl)
  on_line-message (c ∷ line) rest next m some_line short reads =
      elim (Bool-cases (ltb max_line_size (length (c ∷ line)))) [
        | inl t ↦ ground (arith, short)
        | inr f ↦ rw (f, reads, on_line) refl
      ]

  -- What is encoded is decoded again: from an empty buffer the message is written, and whatever
  -- follows it, it comes out first and what follows is left. It assumes that serde_json writes
  -- the message in one line no longer than the limit, and reads it back.
  pub decode-encode :
      (m : serde.JsonRpcMessage) (rest : List ℕ)
      → Wire m
      → let (dst, written) = encode serde m [] in
        (written ≡ true) × (decode serde (dst ++ rest) ≡ (message m, rest))
  unfolding encode decode decode_loop
  decode-encode m rest wire =
      let json = (serde.to_writer m).0 in
      rw (wire.0, encode)
        (
          refl,
          rw
              (
                append_assoc json (b'\n' ∷ []) rest,
                split_line-one json rest wire.1.0,
                wire.1.1,
                decode_loop,
              )
              (on_line-message json rest _ m wire.1.2 wire.2 wire.3),
        )
