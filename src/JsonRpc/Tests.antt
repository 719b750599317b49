-- ===== src/JsonRpc/Tests.antt =====
-- Tests of the codec, with messages of one letter, and instances of its theorems.
use protoclaw.Base.{
  ℕ, ◌≡◌, refl, true, Option, none, some, List, [], ◌∷◌, ◌++◌, nat_eqb, arith, if◌then◌else◌,
}
use protoclaw.Base.Text.{bytes}
use protoclaw.JsonRpc.Codec.{
  Serde, split_line, trim_cr, message, on_line, decode_loop, decode, encode,
}
use protoclaw.JsonRpc.Codec.Streams.{Continues, Wire, decode-append, decode-encode}

letter_of : List ℕ → Option ℕ
letter_of (c ∷ []) = if nat_eqb c b'#' then none else some c
letter_of _ = none

abbrev letters : Serde
letters = record { JsonRpcMessage = ℕ; from_slice = letter_of; to_writer = λ c. (c ∷ [], true) }

-- Empty lines and lines that are no message are skipped; a carriage return is dropped.
decode_test : decode letters (bytes "\n#\nx\r\ny") ≡ (message b'x', bytes "y")
unfolding decode decode_loop on_line split_line trim_cr letter_of
decode_test = refl

decode-append_example :
    Continues letters
      (decode letters (bytes "#\nx"))
      (decode letters (bytes "#\nx\ny"))
      (bytes "\ny")
decode-append_example = decode-append letters (bytes "#\nx") (bytes "\ny")

x-Wire : Wire letters b'x'
unfolding split_line trim_cr letter_of
x-Wire = (refl, (refl, refl, λ e. cc), omega arith, refl)

decode-encode_example :
    ((encode letters b'x' []).1 ≡ true)
    × (decode letters ((encode letters b'x' []).0 ++ bytes "y") ≡ (message b'x', bytes "y"))
decode-encode_example = decode-encode letters b'x' (bytes "y") x-Wire
