-- ===== src/Tests/Codec.antt =====
-- Packages that write ids and page tokens in unary, and read them back.
use Prim.Native.Char.{code}
use Prim.Native.String.{String, [] as no_text, ◌∷◌ as ◌∷ˢ◌}
use agent_state.Common.{ℕ, zero, suc, ◌≡◌, refl, ap, ◌==◌, false, is_empty_text, if◌then◌else◌}
use agent_state.Common.Int.{ℤ, pos, negsuc}
use agent_state.Errors.{ok, err, plain, Result, Uuid}
use agent_state.Token.{UuidText, TokenText, ConversationPageToken, SnapshotPageToken}
use agent_state.Token.Roundtrip.{ReadsBack}

-- `n` times the letter x, and the end mark before the rest.
unfoldable pub ticked : ℕ → String → String
ticked zero rest = ";" ∷ˢ rest
ticked (suc n) rest = "x" ∷ˢ ticked n rest

unfoldable pub ticks : String → ℕ
ticks no_text = 0
ticks (c ∷ˢ s) = let more = ticks s in if code c == 120 then suc more else 0

unfoldable pub behind_ticks : String → String
behind_ticks no_text = no_text
behind_ticks (c ∷ˢ s) = let rest = behind_ticks s in if code c == 120 then rest else s

ticks-ticked : (n : ℕ) (rest : String) → ticks (ticked n rest) ≡ n
unfolding ticks ticked
ticks-ticked zero rest = refl
ticks-ticked (suc n) rest = ap suc (ticks-ticked n rest)

behind_ticks-ticked : (n : ℕ) (rest : String) → behind_ticks (ticked n rest) ≡ rest
unfolding behind_ticks ticked
behind_ticks-ticked zero rest = refl
behind_ticks-ticked (suc n) rest = behind_ticks-ticked n rest

abbrev parse_ticks : String → Result Uuid
parse_ticks no_text = err (plain "invalid UUID")
parse_ticks (c ∷ˢ s) = ok (ticks s)

unfoldable pub unary_names : UuidText
unfolding ticks ticked
unary_names = record { parse = parse_ticks; print = λ n. "i" ∷ˢ ticked n no_text }

-- A number with its sign, then the text.
abbrev signed : ℤ → String → String
signed (pos n) rest = "p" ∷ˢ ticked n rest
signed (negsuc n) rest = "n" ∷ˢ ticked n rest

abbrev number : String → Result (String × ℤ)
number no_text = err (plain "unexpected end of JSON input")
number (c ∷ˢ s) = ok (behind_ticks s, if code c == 112 then pos (ticks s) else negsuc (ticks s))

number-signed : (n : ℤ) (rest : String) → number (signed n rest) ≡ ok (rest, n)
number-signed (pos n) rest = rw (ticks-ticked n rest, behind_ticks-ticked n rest) refl
number-signed (negsuc n) rest = rw (ticks-ticked n rest, behind_ticks-ticked n rest) refl

-- Of a number and a text, that they were read.
abbrev as_conversation : Result (String × ℤ) → Result ConversationPageToken
as_conversation (ok r) = ok (record { conversation_id = r.0; position = r.1 })
as_conversation (err e) = err e

abbrev as_snapshot : Result (String × ℤ) → Result SnapshotPageToken
as_snapshot (ok r) = ok (record { snapshot_id = r.0; order_index = r.1 })
as_snapshot (err e) = err e

unfoldable pub unary_tokens : TokenText
unfolding behind_ticks ticks ticked
unary_tokens = record {
  marshal_conversation = λ p. ok (signed p.position p.conversation_id);
  unmarshal_conversation = λ buf. as_conversation (number buf);
  marshal_snapshot = λ p. ok (signed p.order_index p.snapshot_id);
  unmarshal_snapshot = λ buf. as_snapshot (number buf);
  encode_base64 = λ buf. buf;
  decode_base64 = λ token. ok token;
}

signed-full : (n : ℤ) (rest : String) → is_empty_text (signed n rest) ≡ false
signed-full (pos n) rest = refl
signed-full (negsuc n) rest = refl

pub unary-ReadsBack : ReadsBack unary_names unary_tokens
unfolding unary_names unary_tokens
unary-ReadsBack = record {
  parsed = λ id. ap ok (ticks-ticked id no_text);
  decoded = λ buf. refl;
  conversation = λ id n.
      let text = unary_names.print id in
      (signed n text, refl, ap as_conversation (number-signed n text), signed-full n text);
  snapshot = λ id n.
      let text = unary_names.print id in
      (signed n text, refl, ap as_snapshot (number-signed n text), signed-full n text);
}
