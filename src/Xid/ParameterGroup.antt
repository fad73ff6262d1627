-- ===== src/Xid/ParameterGroup.antt =====
-- The parameters group of `Xid::bytes`, and what `Xid::read_parameters` reads of it.
use softmodem_rs.Prelude.{
  ℕ, ◌*◌, ◌^◌, ◌≤◌, ◌<◌, ◌≡◌, refl, ap, ◌∙◌, Option, none, some, List, [], ◌∷◌, ◌++◌, arith,
  bit_and, bit_or, length, length-drop, append-nil, append_assoc,
}
use softmodem_rs.Xid.{
  Xid, Compression, default, le32, minimal, octets_value, octet_value, optional_functions,
  required_functions, other_functions, push_some, parameters, parameters_bytes, for_parameters,
  read_parameter, read_parameters, n401_tx_id, n401_rx_id, k_tx_id, k_rx_id,
}
use softmodem_rs.Xid.Groups.{for_parameters-cons}
use softmodem_rs.Xid.Values.{number-minimal, number-octet, functions_round}

-- The value of a field, if it is stated, is under a bound.
abbrev pub Under : ℕ → Option ℕ → Type 0
Under bound none = Unit
Under bound (some n) = n < bound

abbrev pub IsCompression : Option Compression → Type 0
IsCompression none = Unit
IsCompression (some c) = (c.directions < 4) × Under 65536 c.codewords × Under 256 c.max_string

-- What the types of xid.rs and the reader's masks allow.
pub record IsXid (x : Xid) : Type 0 where
  pub functions_lt : x.functions < 2 ^ 32
  pub functions_other : bit_and x.functions other_functions ≡ x.functions
  pub n401_tx_lt : Under 65536 x.n401_tx
  pub n401_rx_lt : Under 65536 x.n401_rx
  pub k_tx_lt : Under 256 x.k_tx
  pub k_rx_lt : Under 256 x.k_rx
  pub compression_ok : IsCompression x.compression

-- What `push_some` adds to a group.
pub optional : (ℕ → List ℕ) → ℕ → Option ℕ → List ℕ
optional encoded id none = []
optional encoded id (some value) = id ∷ length (encoded value) ∷ encoded value

pub push_some-optional :
    (encoded : ℕ → List ℕ) (group : List ℕ) (id : ℕ) (o : Option ℕ)
    → push_some encoded group id o ≡ group ++ optional encoded id o
unfolding push_some optional
push_some-optional encoded group id none = rw append-nil
push_some-optional encoded group id (some v) = refl

unfoldable pub read_optional {ℓ} :
    {S : Type ℓ} → (S → ℕ × List ℕ → S) → S → (ℕ → List ℕ) → ℕ → Option ℕ → S
read_optional body s encoded id none = s
read_optional body s encoded id (some v) = body s (id, encoded v)

for_parameters-optional {ℓ} :
    {S : Type ℓ} (body : S → ℕ × List ℕ → S) (s : S) (encoded : ℕ → List ℕ) (id : ℕ) (o : Option ℕ)
    (rest : List ℕ)
    → for_parameters body s (optional encoded id o ++ rest)
      ≡ for_parameters body (read_optional body s encoded id o) rest
unfolding optional read_optional
for_parameters-optional body s encoded id none rest = refl
for_parameters-optional body s encoded id (some v) rest =
    for_parameters-cons body s id (encoded v) rest

pub length-octets_value : (n : ℕ) → length (octets_value n) ≤ 4
unfolding minimal
length-octets_value n = omega (arith, length-drop {0})

pub length-optional :
    (encoded : ℕ → List ℕ) (id : ℕ) (o : Option ℕ)
    → ((n : ℕ) → length (encoded n) ≤ 4)
    → length (optional encoded id o) ≤ 6
unfolding optional
length-optional encoded id none h = omega arith
length-optional encoded id (some v) h = omega (arith, h v)

pub for_parameters_step {ℓ} :
    {S : Type ℓ} (body : S → ℕ × List ℕ → S) (s s' : S) (encoded : ℕ → List ℕ) (id : ℕ)
    (o : Option ℕ) (rest : List ℕ)
    → read_optional body s encoded id o ≡ s'
    → for_parameters body s (optional encoded id o ++ rest) ≡ for_parameters body s' rest
for_parameters_step body s s' encoded id o rest e =
    for_parameters-optional body s encoded id o rest ∙ ap (λ t. for_parameters body t rest) e

pub for_parameters-nil {ℓ} :
    {S : Type ℓ} (body : S → ℕ × List ℕ → S) (s : S) → for_parameters body s [] ≡ some s
unfolding parameters
for_parameters-nil body s = refl

module _ (s : Xid) where
  read_n401_tx :
      (o : Option ℕ)
      → Under 65536 o
      → s.n401_tx ≡ none
      → read_optional read_parameter s octets_value n401_tx_id o ≡ record s { n401_tx = o }
  unfolding read_optional read_parameter
  read_n401_tx none h e = ap (λ t. record s { n401_tx = t }) e
  read_n401_tx (some n) h e = rw (number-minimal (n * 8) (omega arith)) (ground arith)

  read_n401_rx :
      (o : Option ℕ)
      → Under 65536 o
      → s.n401_rx ≡ none
      → read_optional read_parameter s octets_value n401_rx_id o ≡ record s { n401_rx = o }
  unfolding read_optional read_parameter
  read_n401_rx none h e = ap (λ t. record s { n401_rx = t }) e
  read_n401_rx (some n) h e = rw (number-minimal (n * 8) (omega arith)) (ground arith)

  read_k_tx :
      (o : Option ℕ)
      → Under 256 o
      → s.k_tx ≡ none
      → read_optional read_parameter s octet_value k_tx_id o ≡ record s { k_tx = o }
  unfolding read_optional read_parameter
  read_k_tx none h e = ap (λ t. record s { k_tx = t }) e
  read_k_tx (some n) h e = ground (arith, number-octet n h)

  read_k_rx :
      (o : Option ℕ)
      → Under 256 o
      → s.k_rx ≡ none
      → read_optional read_parameter s octet_value k_rx_id o ≡ record s { k_rx = o }
  unfolding read_optional read_parameter
  read_k_rx none h e = ap (λ t. record s { k_rx = t }) e
  read_k_rx (some n) h e = ground (arith, number-octet n h)

read_functions :
    (f : ℕ)
    → f < 2 ^ 32
    → bit_and f other_functions ≡ f
    → read_parameter default (optional_functions, le32 (bit_or f required_functions))
      ≡ record default { functions = f }
unfolding read_parameter
read_functions f h e = rw (functions_round f h e)

pub parameters_bytes-append :
    (x : Xid)
    → parameters_bytes x
      ≡ optional_functions
        ∷ 4
        ∷ (le32 (bit_or x.functions required_functions)
            ++ (optional octets_value n401_tx_id x.n401_tx
                ++ (optional octets_value n401_rx_id x.n401_rx
                    ++ (optional octet_value k_tx_id x.k_tx
                        ++ (optional octet_value k_rx_id x.k_rx ++ [])))))
unfolding parameters_bytes
parameters_bytes-append x = simp (push_some-optional, append_assoc, append-nil)

pub read_parameters-bytes :
    (x : Xid)
    → IsXid x
    → read_parameters default (parameters_bytes x) ≡ some (record x { compression = none })
unfolding read_parameters
read_parameters-bytes x h =
    let s0 = record default { functions = x.functions } in
    let s1 = record s0 { n401_tx = x.n401_tx } in
    let s2 = record s1 { n401_rx = x.n401_rx } in
    let s3 = record s2 { k_tx = x.k_tx } in
    let s4 = record s3 { k_rx = x.k_rx } in
    let r3 = optional octet_value k_rx_id x.k_rx ++ [] in
    let r2 = optional octet_value k_tx_id x.k_tx ++ r3 in
    let r1 = optional octets_value n401_rx_id x.n401_rx ++ r2 in
    let r0 = optional octets_value n401_tx_id x.n401_tx ++ r1 in
    ap (for_parameters read_parameter default) (parameters_bytes-append x)
    ∙ for_parameters-cons read_parameter default optional_functions
        (le32 (bit_or x.functions required_functions)) r0
    ∙ ap (λ t. for_parameters read_parameter t r0)
        (read_functions x.functions h.functions_lt h.functions_other)
    ∙ for_parameters_step read_parameter s0 s1 octets_value n401_tx_id x.n401_tx r1
        (read_n401_tx s0 x.n401_tx h.n401_tx_lt refl)
    ∙ for_parameters_step read_parameter s1 s2 octets_value n401_rx_id x.n401_rx r2
        (read_n401_rx s1 x.n401_rx h.n401_rx_lt refl)
    ∙ for_parameters_step read_parameter s2 s3 octet_value k_tx_id x.k_tx r3
        (read_k_tx s2 x.k_tx h.k_tx_lt refl)
    ∙ for_parameters_step read_parameter s3 s4 octet_value k_rx_id x.k_rx []
        (read_k_rx s3 x.k_rx h.k_rx_lt refl)
    ∙ for_parameters-nil read_parameter s4
