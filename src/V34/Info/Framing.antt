-- ===== src/V34/Info/Framing.antt =====
-- The deframer of info.rs finds a sequence at its last bit, whatever kind it is.
use softmodem_rs.Prelude.{
  ◌≡◌, ap, ◌∙◌, Bool, false, some, List, [], ◌++◌, take, length, length-append, ltb, take_prefix,
  arith,
}
use softmodem_rs.V34.Bits.{crc, field_from}
use softmodem_rs.V34.Bits.RoundTrip.{crc-own, length-field_from}
use softmodem_rs.V34.Info.{Info, Deframer, header, whole_length, slide, examine, push}

-- What a kind of INFO sequence is to fulfil for a value: its fields have the number of bits it says,
-- and are read as the value.
pub record IsReadable {T : Type 0} (info : Info T) (x : T) : Type 0 where
  pub counted : length (info.fields x) ≡ info.field_count
  pub readable : info.from_fields (info.fields x) ≡ some x

-- The sequence from its sync to its CRC.
abbrev pub body : {T : Type 0} → Info T → T → List Bool
body info x = header ++ info.fields x ++ field_from (crc (info.fields x)) 0 16

module _ {T : Type 0} (info : Info T) (x : T) (h : IsReadable info x) where
  length-body : length (body info x) ≡ whole_length info
  length-body = omega (
    arith,
    length-append {0} (info.fields x) (field_from (crc (info.fields x)) 0 16),
    length-field_from (crc (info.fields x)) 0 16,
    h.counted,
  )

  examine-body : examine info (body info x) ≡ (record { window = [] }, some x)
  unfolding examine
  examine-body =
      let fields = info.fields x in
      let long : ltb (length (body info x)) (whole_length info) ≡ false =
        ap (λ n. ltb n (whole_length info)) length-body ∙ ground arith in
      let same : take info.field_count (fields ++ field_from (crc fields) 0 16) ≡ fields =
        take_prefix info.field_count fields (field_from (crc fields) 0 16) h.counted in
      rw long (
        rw (crc-own fields)
          (ap (λ o. (record { window = [] }, o)) (ap info.from_fields same ∙ h.readable)))

  -- Whatever came before: when the window, of at most the bits of a sequence, ends with the sync, the
  -- fields of a readable value and their CRC, this bit finds the value and empties the window.
  pub push-body :
      (d : Deframer) (bit : Bool)
      → slide (whole_length info) d.window bit ≡ body info x
      → push info d bit ≡ (record { window = [] }, some x)
  unfolding push
  push-body d bit e = ap (examine info) e ∙ examine-body
