-- ===== src/V34/Reader/RoundTrip.antt =====
-- Readers that take back what was written.
use softmodem_rs.Prelude.{
  ℕ, ◌^◌, ◌<◌, ◌≡◌, refl, ap, ◌∙◌, Bool, true, false, List, [], ◌∷◌, ◌++◌, append_assoc, length,
  All,
}
use softmodem_rs.V34.Bits.{field_from, field, read_field}
use softmodem_rs.V34.Bits.RoundTrip.{read_field-field}
use softmodem_rs.V34.Reader.{Reader, ◌>>=◌, give, number, flag, times}

-- The reader takes these bits as this value, whatever follows them.
pub record Reads {A : Type 0} (m : Reader A) (bits : List Bool) (a : A) : Type 0 where
  pub read : (rest : List Bool) → m (bits ++ rest) ≡ (a, rest)

pub bind-Reads :
    {A B : Type 0} {m : Reader A} {a : A} {b : B} {xs ys : List Bool} (f : A → Reader B)
    → Reads m xs a
    → Reads (f a) ys b
    → Reads (m >>= f) (xs ++ ys) b
unfolding ◌>>=◌
bind-Reads {A} {B} {m} {a} {b} {xs} {ys} f h k = record {
  read = λ rest.
      ap (m >>= f) (append_assoc xs ys rest)
      ∙ ap (λ (r : A × List Bool). f r.0 r.1) (h.read (ys ++ rest))
      ∙ k.read rest;
}

pub give-Reads : {A : Type 0} {a : A} → Reads (give a) [] a
unfolding give
give-Reads = record { read = λ rest. refl }

-- The last read of a block, and what is given in the end.
pub map-Reads :
    {A B : Type 0} {m : Reader A} {a : A} {xs : List Bool} (g : A → B)
    → Reads m xs a
    → Reads (m >>= λ x. give (g x)) xs (g a)
unfolding ◌>>=◌ give
map-Reads g h = record { read = λ rest. ap (λ r. (g r.0, r.1)) (h.read rest) }

pub number-Reads :
    (value width : ℕ) → value < 2 ^ width → Reads (number width) (field_from value 0 width) value
unfolding number field
number-Reads value width h = record { read = λ rest. read_field-field value width rest h }

pub flag-Reads : (b : Bool) → Reads flag (b ∷ []) b
unfolding flag read_field
flag-Reads true = record { read = λ rest. refl }
flag-Reads false = record { read = λ rest. refl }

abbrev pub written : {A : Type 0} → (A → List Bool) → List A → List Bool
written f [] = []
written f (a ∷ more) = f a ++ written f more

pub times-Reads :
    {A : Type 0} (m : Reader A) (f : A → List Bool) (P : A → Type 0)
    → ((a : A) → P a → Reads m (f a) a)
    → (xs : List A) → All P xs
    → Reads (times (length xs) m) (written f xs) xs
unfolding times
times-Reads m f P h [] hs = give-Reads
times-Reads m f P h (a ∷ more) (p, ps) =
    bind-Reads _ (h a p) (map-Reads (λ more'. a ∷ more') (times-Reads m f P h more ps))
