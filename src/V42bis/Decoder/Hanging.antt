-- ===== src/V42bis/Decoder/Hanging.antt =====
-- About `Decoder::codeword` of v42bis.rs when the entry of the string before is empty.
use softmodem_rs.Prelude.{
  ℕ, ◌^◌, ◌<◌, ◌≡◌, ap, sym, subst, ◌∙◌, false, none, some, List, ◌∷◌, ◌++◌, ◌==◌,
}
use softmodem_rs.Prelude.Result.{ok, ◌>>=◌}
use softmodem_rs.V42bis.Dictionary.{string, add, child, spells}
use softmodem_rs.V42bis.Dictionary.Recovery.{IsDictionary, add-IsDictionary}
use softmodem_rs.V42bis.Dictionary.Cycle.{NeverEnds, string-add_empty, add-parameters}
use softmodem_rs.V42bis.Decoder.{Decoder, string_codeword, escapes}

-- A codeword while the string before it is that of the next entry.
string_codeword-endless :
    (d : Decoder) (code first : ℕ) (others out : List ℕ)
    → IsDictionary d.dictionary
    → d.dictionary.parameters.codewords < 2 ^ 16
    → 0 < d.dictionary.parameters.max_string
    → d.previous ≡ some d.dictionary.next
    → child d.dictionary d.dictionary.next first ≡ none
    → (code == d.dictionary.next) ≡ false
    → string d.dictionary code ≡ spells (first ∷ others)
    → (d' : Decoder) × (string_codeword d code out ≡ ok (d', out ++ first ∷ others))
      × NeverEnds d'.dictionary d.dictionary.next
unfolding string_codeword
string_codeword-endless d code first others out whole small long before fresh other found = (
  record d {
    dictionary = (add d.dictionary d.dictionary.next first).0;
    previous = some code;
    escape = escapes d.escape (first ∷ others);
  },
  rw (other, found, before),
  string-add_empty d.dictionary first whole small long fresh,
)

-- In a well-formed dictionary of fewer than 2^16 codewords, let a codeword come whose entry the
-- `recover` of its own `add` empties, and then the codeword of any other string, whose first character
-- goes on with no entry from the emptied one. The decoder accepts both and gives their characters, and
-- then the walk of `string` from the emptied entry does not end, however many steps it is given.
pub string_codewords-endless :
    (d : Decoder) (before code first code' first' : ℕ) (others others' out : List ℕ)
    → IsDictionary d.dictionary
    → d.dictionary.parameters.codewords < 2 ^ 16
    → 0 < d.dictionary.parameters.max_string
    → d.previous ≡ some before
    → 0 < d.dictionary.length before
    → (code == d.dictionary.next) ≡ false
    → string d.dictionary code ≡ spells (first ∷ others)
    → (add d.dictionary before first).0.next ≡ code
    → (code' == code) ≡ false
    → string (add d.dictionary before first).0 code' ≡ spells (first' ∷ others')
    → child (add d.dictionary before first).0 code first' ≡ none
    → (d' : Decoder) × ((string_codeword d code out >>= λ r. string_codeword r.0 code' r.1)
        ≡ ok (d', (out ++ first ∷ others) ++ first' ∷ others'))
      × NeverEnds d'.dictionary code
unfolding string_codeword
string_codewords-endless d before code first code' first' others others' out whole small long
      previous used other found emptied other' found' fresh =
    let after = (add d.dictionary before first).0 in
    let d1 : Decoder = record d {
      dictionary = after;
      previous = some code;
      escape = escapes d.escape (first ∷ others);
    } in
    let same = add-parameters d.dictionary before first in
    let one : string_codeword d code out ≡ ok (d1, out ++ first ∷ others) =
      rw (other, found, previous) in
    let (d', two, endless) =
      string_codeword-endless d1 code' first' others' (out ++ first ∷ others)
        (add-IsDictionary d.dictionary before first whole used).1
        (subst (λ p. p.codewords < 2 ^ 16) (sym same) small)
        (subst (λ p. 0 < p.max_string) (sym same) long) (ap some (sym emptied))
        (subst (λ n. child after n first' ≡ none) (sym emptied) fresh)
        (subst (λ n. (code' == n) ≡ false) (sym emptied) other') found' in
    (
      d',
      ap (λ x. x >>= λ r. string_codeword r.0 code' r.1) one ∙ two,
      subst (NeverEnds d'.dictionary) emptied endless,
    )
