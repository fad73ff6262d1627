-- ===== src/Xid/PrivateGroup.antt =====
-- The private group of `Xid::bytes`, and what `Xid::read_private` reads of it.
use softmodem_rs.Prelude.{
  ℕ, ◌<◌, ◌≡◌, refl, ap, ◌∙◌, Option, none, some, [], ◌∷◌, ◌++◌, arith, append-nil, append_assoc,
}
use softmodem_rs.Prelude.Maybe.{◌>>=◌}
use softmodem_rs.Xid.{
  Xid, Compression, Private, no_private, be16, octet_value, parameter_set, v42, p0, p1, p2,
  private_bytes, for_parameters, read_private, read_private_one, private_done,
}
use softmodem_rs.Xid.Groups.{for_parameters-cons}
use softmodem_rs.Xid.Values.{number-be16, number-octet}
use softmodem_rs.Xid.ParameterGroup.{
  read_optional, for_parameters-nil, for_parameters_step, Under, IsCompression, IsCompression,
  optional, push_some-optional,
}

module _ (s : Private) where
  read_codewords :
      (o : Option ℕ)
      → Under 65536 o
      → s.codewords ≡ none
      → read_optional read_private_one s be16 p1 o ≡ record s { codewords = o }
  unfolding read_optional read_private_one
  read_codewords none h e = ap (λ t. record s { codewords = t }) e
  read_codewords (some n) h e = rw (number-be16 n h) (ground arith)

  read_max_string :
      (o : Option ℕ)
      → Under 256 o
      → s.max_string ≡ none
      → read_optional read_private_one s octet_value p2 o ≡ record s { max_string = o }
  unfolding read_optional read_private_one
  read_max_string none h e = ap (λ t. record s { max_string = t }) e
  read_max_string (some n) h e = ground (arith, number-octet n h)

read_directions :
    (d : ℕ)
    → d < 4
    → read_private_one no_private (p0, d ∷ []) ≡ record no_private { directions = some d }
unfolding read_private_one
read_directions d h = ground (arith, number-octet d)

pub private_bytes-append :
    (c : Compression)
    → private_bytes c
      ≡ parameter_set
        ∷ 3
        ∷ (v42
            ++ (p0
                ∷ 1
                ∷ ((c.directions ∷ [])
                    ++ (optional be16 p1 c.codewords
                        ++ (optional octet_value p2 c.max_string ++ [])))))
unfolding private_bytes
private_bytes-append c = simp (push_some-optional, append_assoc, append-nil)

pub read_private-bytes :
    (x : Xid) (c : Compression)
    → IsCompression (some c)
    → read_private x (private_bytes c) ≡ some (record x { compression = some c })
unfolding read_private
read_private-bytes x c h =
    let s0 = record no_private { directions = some c.directions } in
    let s1 = record s0 { codewords = c.codewords } in
    let s2 = record s1 { max_string = c.max_string } in
    let r1 = optional octet_value p2 c.max_string ++ [] in
    let r0 = optional be16 p1 c.codewords ++ r1 in
    ap (λ o. o >>= λ p. some (private_done x p))
      (ap (for_parameters read_private_one no_private) (private_bytes-append c)
        ∙ for_parameters-cons read_private_one no_private parameter_set v42
            (p0 ∷ 1 ∷ ((c.directions ∷ []) ++ r0))
        ∙ for_parameters-cons read_private_one no_private p0 (c.directions ∷ []) r0
        ∙ ap (λ t. for_parameters read_private_one t r0) (read_directions c.directions h.0)
        ∙ for_parameters_step read_private_one s0 s1 be16 p1 c.codewords r1
            (read_codewords s0 c.codewords h.1 refl)
        ∙ for_parameters_step read_private_one s1 s2 octet_value p2 c.max_string []
            (read_max_string s1 c.max_string h.2 refl)
        ∙ for_parameters-nil read_private_one s2)
