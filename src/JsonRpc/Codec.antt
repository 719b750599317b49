-- ===== src/JsonRpc/Codec.antt =====
-- crates/anyclaw-jsonrpc/src/codec.rs: one JSON object in each line. The buffer is a list of
-- bytes; reading and writing JSON, which serde_json does, are parameters.
pub mod Streams
use protoclaw.Base.{
  ℕ, zero, suc, Bool, true, false, Option, none, some, List, [], ◌∷◌, ◌++◌, if◌then◌else◌, length,
  ltb, nat_eqb,
}

abbrev pub max_line_size : ℕ
max_line_size = 33554432

-- `serde_json` for the messages: what `from_slice` makes of a line, what `to_writer` writes and
-- whether it succeeds.
pub record Serde : Type 1 where
  pub JsonRpcMessage : Type 0
  pub from_slice : List ℕ → Option JsonRpcMessage
  pub to_writer : JsonRpcMessage → List ℕ × Bool

-- The line up to the first newline, without it, and what follows it.
unfoldable pub split_line : List ℕ → Option (List ℕ × List ℕ)
split_line [] = none
split_line (c ∷ s) =
    let later = split_line s in
    if nat_eqb c b'\n'
    then some ([], s)
    else elim later [ none ↦ none | some (line, rest) ↦ some (c ∷ line, rest) ]

-- A carriage return before the newline does not belong to the line.
unfoldable pub trim_cr : List ℕ → List ℕ
trim_cr [] = []
trim_cr (c ∷ []) = if nat_eqb c b'\r' then [] else c ∷ []
trim_cr (c ∷ d ∷ s) = c ∷ trim_cr (d ∷ s)

module _ (serde : Serde) where
  open serde use {JsonRpcMessage, from_slice, to_writer}

  -- A message, `Ok(None)`, or the error of a line that is too long.
  pub data Decoded : Type 0 where
    message : JsonRpcMessage → Decoded
    incomplete : Decoded
    too_long : ℕ → Decoded

  -- What the loop does with a line: `next` is the rest of the loop.
  unfoldable pub on_line : Decoded × List ℕ → List ℕ → List ℕ → Decoded × List ℕ
  on_line next [] rest = next
  on_line next (c ∷ line) rest =
      if ltb max_line_size (length (c ∷ line))
      then (too_long (length (c ∷ line)), rest)
      else elim (from_slice (c ∷ line)) [ none ↦ next | some msg ↦ (message msg, rest) ]

  -- The loop, on fuel: each round takes a line from the buffer.
  unfoldable pub decode_loop : ℕ → List ℕ → Decoded × List ℕ
  unfolding on_line
  decode_loop zero src = (incomplete, src)
  decode_loop (suc fuel) src = elim (split_line src) [
    | none ↦
        if ltb max_line_size (length src) then (too_long (length src), src) else (incomplete, src)
    | some (line, rest) ↦ on_line (decode_loop fuel rest) (trim_cr line) rest
  ]

  -- The result, and what stays in the buffer.
  unfoldable pub decode : List ℕ → Decoded × List ℕ
  unfolding decode_loop
  decode src = decode_loop (suc (length src)) src

  -- The buffer, and whether the message could be written.
  unfoldable pub encode : JsonRpcMessage → List ℕ → List ℕ × Bool
  encode item dst =
      let (json, written) = to_writer item in
      if written then (dst ++ (json ++ b'\n' ∷ []), true) else (dst ++ json, false)
