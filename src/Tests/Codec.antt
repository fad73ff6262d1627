-- ===== src/Tests/Codec.antt =====
-- The V.42 bis encoder and decoder on a short text that holds the escape character.
use softmodem_rs.Prelude.{ℕ, ◌+◌, arith, ◌≡◌, refl, some, List, [], ◌∷◌, ◌++◌}
use softmodem_rs.Prelude.Result.{ok, ◌>>=◌}
use softmodem_rs.V42bis.Parameters.{Parameters}
use softmodem_rs.V42bis.Dictionary.{
  push, new, recover, insert, add, root, string, walk, remove, Dictionary,
}
use softmodem_rs.V42bis.Dictionary.Cycle.{NeverEnds}
use softmodem_rs.V42bis.Dictionary.Recovery.{
  Found, IsDictionary, add-IsDictionary, new-IsDictionary, remove-IsChildless,
}
use softmodem_rs.V42bis.Encoder.Width.{IsWidth, stepups, sizes, codeword-stepups}
use softmodem_rs.V42bis.Encoder.{Encoder, character, characters, send, codeword}
use softmodem_rs.V42bis.Encoder
use softmodem_rs.V42bis.BitWriter
use softmodem_rs.V42bis.Decoder.{Decoder, decode, string_codeword}
use softmodem_rs.V42bis.Decoder.Hanging.{string_codewords-endless}
use softmodem_rs.V42bis.Decoder
use softmodem_rs.V42bis.Decoder.Transparent.{decode-characters, Shared, clear}

abbrev smallest : Parameters
smallest = record { codewords = 512; max_string = 6 }

abbrev escaped_text : List ℕ
escaped_text = 72 ∷ 0 ∷ 51 ∷ []

decode-characters_example :
    (octets : List ℕ) × (d' : Decoder) × ((characters
        (Encoder.new smallest)
        escaped_text).writer.out
      ≡ (Encoder.new smallest).writer.out ++ octets)
    × (decode (clear (Decoder.new smallest)) octets [] ≡ ok (clear d', [] ++ escaped_text))
    × Shared (characters (Encoder.new smallest) escaped_text) d'
decode-characters_example =
    decode-characters escaped_text (Encoder.new smallest) (Decoder.new smallest) []
      (unfold Encoder.new in refl)
      (unfold Encoder.new character send push in (refl, (refl, (refl, tt))))
      (unfold Encoder.new Decoder.new in refl)

add-IsDictionary_example :
    Found 512 (recover 512 (insert (new smallest) (root 65) 66))
    × IsDictionary (add (new smallest) (root 65) 66).0
unfolding new
add-IsDictionary_example =
    add-IsDictionary (new smallest) (root 65) 66 (new-IsDictionary smallest (omega arith))
      (omega arith)

codeword-stepups_example :
    let e = Encoder.new smallest in
    (n : ℕ) × IsWidth e.width 2000 (e.width + n)
    × ((codeword e 2000).0 ≡ record e {
      writer = BitWriter.put (stepups n e.width e.writer) 2000 (e.width + n);
      width = e.width + n;
    })
    × ((codeword e 2000).1 ≡ sizes n e.width + (e.width + n))
codeword-stepups_example = codeword-stepups (Encoder.new smallest) 2000 (omega arith)

-- A dictionary with one string, of B and C, after a turn round the cycle: its place follows the next.
abbrev two_strings : Dictionary
two_strings = (add (add (new smallest) (root 65) 66).0 (root 66) 67).0

abbrev turned_round : Dictionary
turned_round = record (remove two_strings 259) { next = 259 }

two_strings-IsDictionary : IsDictionary two_strings
unfolding new add recover
two_strings-IsDictionary =
    (add-IsDictionary (add (new smallest) (root 65) 66).0 (root 66) 67
      (add-IsDictionary (new smallest) (root 65) 66 (new-IsDictionary smallest (omega arith))
        (omega arith)).1
      (omega arith)).1

turned_round-IsDictionary : IsDictionary turned_round
unfolding new add recover
turned_round-IsDictionary = (
  omega arith,
  (omega arith, omega arith, refl),
  remove-IsChildless two_strings 259 two_strings-IsDictionary.2 refl,
)

abbrev extending : Decoder
extending = record (Decoder.new smallest) { dictionary = turned_round; previous = some (root 70) }

-- The codeword of B and C, and then that of A.
string_codewords-endless_example :
    (d' : Decoder) × ((string_codeword extending 260 [] >>= λ r. string_codeword r.0 (root 65) r.1)
      ≡ ok (d', ([] ++ 66 ∷ 67 ∷ []) ++ 65 ∷ []))
    × NeverEnds d'.dictionary 260
unfolding new Decoder.new add recover string walk
string_codewords-endless_example =
    string_codewords-endless extending (root 70) 260 66 (root 65) 65 (67 ∷ []) [] []
      turned_round-IsDictionary (omega arith) (omega arith) refl (omega arith) refl refl refl refl
      refl refl
