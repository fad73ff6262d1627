-- ===== src/Xid/RoundTrip.antt =====
-- `Xid::bytes` and `Xid::parse`: what one end states, the other end reads.
use softmodem_rs.Prelude.{
  ℕ, zero, suc, ◌≤◌, ◌<◌, min, ◌≡◌, refl, ap, ◌∙◌, Option, none, some, List, [], ◌∷◌, ◌++◌, arith,
  length, length-append, append-nil,
}
use softmodem_rs.Xid.{
  Xid, Compression, default, format, be16, octets_value, octet_value, parameters_group,
  private_group, p1, p2, push_group, push_compression, parameters_bytes, private_bytes, bytes,
  read_group, parse, groups_loop, n401_tx_id, n401_rx_id, k_tx_id, k_rx_id,
}
use softmodem_rs.Xid.Groups.{groups_loop-cons, groups_loop_fuel}
use softmodem_rs.Xid.ParameterGroup.{
  IsCompression, IsCompression, IsXid, length-octets_value, length-optional,
  parameters_bytes-append, read_parameters-bytes,
}
use softmodem_rs.Xid.PrivateGroup.{private_bytes-append, read_private-bytes}

length-octet_value : (n : ℕ) → length (octet_value n) ≤ 4
length-octet_value n = omega arith

length-be16 : (n : ℕ) → length (be16 n) ≤ 4
length-be16 n = omega arith

length-parameters_bytes : (x : Xid) → length (parameters_bytes x) < 65536
length-parameters_bytes x = rw (parameters_bytes-append x) (
    simp length-append (
      omega (
        arith,
        length-optional octets_value n401_tx_id x.n401_tx length-octets_value,
        length-optional octets_value n401_rx_id x.n401_rx length-octets_value,
        length-optional octet_value k_tx_id x.k_tx length-octet_value,
        length-optional octet_value k_rx_id x.k_rx length-octet_value,
      )))

length-private_bytes : (c : Compression) → length (private_bytes c) < 65536
length-private_bytes c = rw (private_bytes-append c) (
    simp length-append (
      omega (
        arith,
        length-optional be16 p1 c.codewords length-be16,
        length-optional octet_value p2 c.max_string length-octet_value,
      )))

groups_of : Option Compression → List ℕ
groups_of none = []
groups_of (some c) = private_group ∷ (be16 (length (private_bytes c)) ++ (private_bytes c ++ []))

length-capped : (xs : List ℕ) → length xs < 65536 → min (length xs) 65535 ≡ length xs
length-capped xs h = omega arith

push_compression-append :
    (bs : List ℕ) (o : Option Compression) → push_compression bs o ≡ bs ++ groups_of o
unfolding groups_of push_group
push_compression-append bs none = rw append-nil
push_compression-append bs (some c) =
    rw (length-capped (private_bytes c) (length-private_bytes c), append-nil)

bytes-append :
    (x : Xid)
    → bytes x
      ≡ format
        ∷ parameters_group
        ∷ (be16 (length (parameters_bytes x)) ++ (parameters_bytes x ++ groups_of x.compression))
bytes-append x =
    unfold bytes in
    push_compression-append _ x.compression
    ∙ (unfold push_group in rw (length-capped (parameters_bytes x) (length-parameters_bytes x)))

groups_loop-nil : (fuel : ℕ) (x : Xid) → groups_loop fuel x [] ≡ some x
unfolding groups_loop
groups_loop-nil zero x = refl
groups_loop-nil (suc fuel) x = refl

groups_loop-groups_of :
    (x : Xid) (o : Option Compression)
    → x.compression ≡ none
    → IsCompression o
    → groups_loop (length (groups_of o)) x (groups_of o) ≡ some (record x { compression = o })
unfolding groups_of
groups_loop-groups_of x none e h =
    groups_loop-nil 0 x ∙ ap (λ t. some (record x { compression = t })) e
groups_loop-groups_of x (some c) e h =
    groups_loop-cons _ private_group x (record x { compression = some c }) (private_bytes c) []
      (length-private_bytes c) refl (unfold read_group in read_private-bytes x c h)
    ∙ groups_loop-nil _ _

parse-format : (rest : List ℕ) → parse (format ∷ rest) ≡ groups_loop (length rest) default rest
unfolding parse
parse-format rest = refl

read_parameters_group :
    (x : Xid)
    → IsXid x
    → read_group default parameters_group (parameters_bytes x)
      ≡ some (record x { compression = none })
unfolding read_group
read_parameters_group x h = read_parameters-bytes x h

-- What `bytes` writes of parameters in the range of their types, `parse` reads back.
pub xid_round_trip : (x : Xid) → IsXid x → parse (bytes x) ≡ some x
xid_round_trip x h =
    let x' = record x { compression = none } in
    let g = groups_of x.compression in
    let p = parameters_bytes x in
    ap parse (bytes-append x)
    ∙ parse-format (parameters_group ∷ (be16 (length p) ++ (p ++ g)))
    ∙ groups_loop-cons (length (be16 (length p) ++ (p ++ g))) parameters_group default x' p g
        (length-parameters_bytes x) refl (read_parameters_group x h)
    ∙ groups_loop_fuel (length (be16 (length p) ++ (p ++ g))) (length g) x' g
        (omega (arith, length-append p g)) (omega arith)
    ∙ groups_loop-groups_of x' x.compression refl h.compression_ok
