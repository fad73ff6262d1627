-- ===== src/Xid/Groups.antt =====
-- The loops of `parameters` and `Xid::parse`: the fuel is enough, and what one parameter or group
-- adds is read first.
use softmodem_rs.Prelude.{
  ℕ, zero, suc, ◌+◌, ◌*◌, ◌/◌, ◌%◌, ◌≤◌, ◌<◌, ◌≡◌, refl, false, some, List, [], ◌∷◌, ◌++◌, ◌==◌,
  arith, length, length-append, length-drop, drop, take-append, drop-append,
}
use softmodem_rs.Prelude.Maybe.{◌>>=◌, >>=_assoc}
use softmodem_rs.Xid.{
  Xid, be16, prefix?, parameters, parameters_loop, for_parameters, groups_loop, read_group,
  user_data,
}

pub prefix?-append : (xs ys : List ℕ) → prefix? (length xs) (xs ++ ys) ≡ some xs
unfolding prefix?
prefix?-append xs ys = ground (arith, length-append xs ys, take-append xs ys)

-- Any fuel of the group's length is enough.
pub parameters_loop_fuel :
    (n m : ℕ) (group : List ℕ)
    → length group ≤ n
    → length group ≤ m
    → parameters_loop n group ≡ parameters_loop m group
unfolding parameters_loop
parameters_loop_fuel zero zero [] h k = refl
parameters_loop_fuel zero _ [] h k = refl
parameters_loop_fuel (suc n) _ [] h k = refl
parameters_loop_fuel zero _ (id ∷ []) h k = absurd (omega arith)
parameters_loop_fuel (suc n) zero (id ∷ []) h k = absurd (omega arith)
parameters_loop_fuel (suc n) (suc m) (id ∷ []) h k = refl
parameters_loop_fuel zero m (id ∷ len ∷ tail) h k = absurd (omega arith)
parameters_loop_fuel (suc n) zero (id ∷ len ∷ tail) h k = absurd (omega arith)
parameters_loop_fuel (suc n) (suc m) (id ∷ len ∷ tail) h k = rw (
    parameters_loop_fuel n m (drop len tail) (omega (arith, length-drop len tail))
      (omega (arith, length-drop len tail)))

parameters-cons :
    (id : ℕ) (value rest : List ℕ)
    → parameters (id ∷ length value ∷ (value ++ rest))
      ≡ (parameters rest >>= λ found. some ((id, value) ∷ found))
unfolding parameters parameters_loop
parameters-cons id value rest =
    rw (prefix?-append value rest, drop-append value rest)
      (rw (
        parameters_loop_fuel (suc (length (value ++ rest))) (length rest) rest
          (omega (arith, length-append value rest)) (omega arith)))

-- A loop over the parameters of a group takes the first one first.
pub for_parameters-cons {ℓ} :
    {S : Type ℓ} (body : S → ℕ × List ℕ → S) (s : S) (id : ℕ) (value rest : List ℕ)
    → for_parameters body s (id ∷ length value ∷ (value ++ rest))
      ≡ for_parameters body (body s (id, value)) rest
for_parameters-cons body s id value rest =
    rw (parameters-cons id value rest) (>>=_assoc (parameters rest) _ _)

pub groups_loop_fuel :
    (n m : ℕ) (xid : Xid) (rest : List ℕ)
    → length rest ≤ n
    → length rest ≤ m
    → groups_loop n xid rest ≡ groups_loop m xid rest
unfolding groups_loop
groups_loop_fuel zero zero xid [] h k = refl
groups_loop_fuel zero _ xid [] h k = refl
groups_loop_fuel (suc n) _ xid [] h k = refl
groups_loop_fuel zero _ xid (id ∷ tail) h k = absurd (omega arith)
groups_loop_fuel (suc n) zero xid (id ∷ tail) h k = absurd (omega arith)
groups_loop_fuel (suc n) (suc m) xid (id ∷ []) h k = refl
groups_loop_fuel (suc n) (suc m) xid (id ∷ high ∷ []) h k = refl
groups_loop_fuel (suc n) (suc m) xid (id ∷ high ∷ low ∷ tail) h k =
    let rest = drop (high * 256 + low) tail in
    let shorter : length rest ≤ length tail = omega (arith, length-drop (high * 256 + low) tail) in
    let same : (x : Xid) → groups_loop n x rest ≡ groups_loop m x rest =
      λ x. groups_loop_fuel n m x rest (omega arith) (omega arith) in
    simp same

pub groups_loop-cons :
    (fuel id : ℕ) (xid xid' : Xid) (group rest : List ℕ)
    → length group < 65536
    → (id == user_data) ≡ false
    → read_group xid id group ≡ some xid'
    → groups_loop (suc fuel) xid (id ∷ (be16 (length group) ++ (group ++ rest)))
      ≡ groups_loop fuel xid' rest
unfolding groups_loop
groups_loop-cons fuel id xid xid' group rest h other read =
    let len : length group / 256 % 256 * 256 + length group % 256 ≡ length group = omega arith in
    rw (other, len, prefix?-append group rest, drop-append group rest, read)
