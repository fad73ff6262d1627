-- ===== src/V42bis/Dictionary/Recovery.antt =====
-- `Dictionary::recover` of v42bis.rs finds a place for the next string.
use softmodem_rs.Prelude.{
  ℕ, zero, suc, ◌+◌, ◌-◌, ◌||◌, ◌≤◌, ◌<◌, ◌≡◌, ◌⊎◌, refl, ap, sym, subst, ◌∙◌, true, false, Option,
  some, ◌==◌, ==_iff, ltb, leb, if◌then◌else◌, if_cases, Bool-cases, arith, inl, inr,
}
use softmodem_rs.V42bis.Parameters.{Parameters}
use softmodem_rs.V42bis.Dictionary.{
  new, Dictionary, first_string, advance, recover, remove, insert, add, added, store, is_some,
  child,
}

-- The next codeword is that of a string, and the dictionary has no entry for it.
abbrev pub IsPlace : Dictionary → Type 0
IsPlace d = (first_string ≤ d.next) × (d.next < d.parameters.codewords) × (d.length d.next ≡ 0)

-- An empty entry has no children.
abbrev pub IsChildless : Dictionary → Type 0
IsChildless d = (code : ℕ) → d.length code ≡ 0 → d.children code ≡ 0

abbrev pub IsDictionary : Dictionary → Type 0
IsDictionary d = (512 ≤ d.parameters.codewords) × IsPlace d × IsChildless d

abbrev pub Found : ℕ → Option Dictionary → Type 0
Found n o =
    (d : Dictionary) × (o ≡ some d) × (d.parameters.codewords ≡ n) × IsPlace d × IsChildless d

-- One place of an array that is written, and the others.
pub store-same : (f : ℕ → ℕ) (at v code : ℕ) → (code == at) ≡ true → store f at v code ≡ v
store-same f at v code h = rw (h)

store-other : (f : ℕ → ℕ) (at v code : ℕ) → (code == at) ≡ false → store f at v code ≡ f code
store-other f at v code h = rw (h)

store-lowered : (f : ℕ → ℕ) (at code : ℕ) → f code ≡ 0 → store f at (f at - 1) code ≡ 0
store-lowered f at code e = elim (Bool-cases (code == at)) [
  | inl h ↦
      let same : f code ≡ f at = ap f ((==_iff code at).0 h) in
      store-same f at (f at - 1) code h ∙ omega arith
  | inr h ↦ store-other f at (f at - 1) code h ∙ e
]

pub remove-IsChildless :
    (d : Dictionary) (at : ℕ) → IsChildless d → d.children at ≡ 0 → IsChildless (remove d at)
remove-IsChildless d at none_of leaf code e =
    let parent = d.parent at in
    elim (Bool-cases (code == at)) [
      | inl h ↦ store-lowered d.children parent code (ap d.children ((==_iff code at).0 h) ∙ leaf)
      | inr h ↦
          store-lowered d.children parent code
            (none_of code (sym (store-other d.length at 0 code h) ∙ e))
    ]

insert-IsChildless :
    (d : Dictionary) (node character : ℕ)
    → IsChildless d
    → 0 < d.length node
    → d.length d.next ≡ 0
    → IsChildless (insert d node character)
insert-IsChildless d node character none_of used free code e =
    let length' = d.length node + 1 in
    elim (Bool-cases (code == d.next)) [
      | inl h ↦
          let written : store d.length d.next length' code ≡ length' =
            store-same d.length d.next length' code h in
          absurd (omega arith)
      | inr h ↦
          let empty : d.length code ≡ 0 = sym (store-other d.length d.next length' code h) ∙ e in
          elim (Bool-cases (code == node)) [
            | inl same ↦
                let equal : d.length code ≡ d.length node =
                  ap d.length ((==_iff code node).0 same) in
                absurd (omega arith)
            | inr other ↦
                store-other d.children node (d.children node + 1) code other ∙ none_of code empty
          ]
    ]

-- The turns from one codeword on to the next time the cycle comes to another.
abbrev turns : ℕ → ℕ → ℕ → ℕ
turns n from target =
    if ltb from target then target - from else (n - from) + (target - first_string)

advance-turns :
    (d : Dictionary) (target : ℕ)
    → first_string ≤ d.next
    → d.next < d.parameters.codewords
    → first_string ≤ target
    → target < d.parameters.codewords
    → (first_string ≤ advance d)
      × (advance d < d.parameters.codewords)
      × ((advance d ≡ target)
          ⊎ (suc (turns d.parameters.codewords (advance d) target)
              ≡ turns d.parameters.codewords d.next target))
advance-turns d target lo hi lo' hi' = ground arith

recover-Found :
    (fuel : ℕ) (d : Dictionary) (target : ℕ)
    → first_string ≤ d.next
    → d.next < d.parameters.codewords
    → first_string ≤ target
    → target < d.parameters.codewords
    → IsChildless d
    → d.children target ≡ 0
    → turns d.parameters.codewords d.next target ≤ fuel
    → Found d.parameters.codewords (recover fuel d)
unfolding recover
recover-Found zero d target lo hi lo' hi' none_of leaf le = absurd (ground arith)
recover-Found (suc fuel) d target lo hi lo' hi' none_of leaf le =
    let n = d.parameters.codewords in
    let at = advance d in
    let d' : Dictionary = record d { next = at } in
    let (lo_at, hi_at, nearer) = advance-turns d target lo hi lo' hi' in
    let same : (at == at) ≡ true = ground arith in
    let removed : store d.length at 0 at ≡ 0 = rw (same) in
    let rest_le : (d.children at == 0) ≡ false → turns n at target ≤ fuel = λ parent. elim nearer [
      | inl e ↦
          let no_children : d.children at ≡ 0 = ap d.children e ∙ leaf in absurd (ground arith)
      | inr e ↦ omega arith
    ] in
    if_cases (Found n) (d.length at == 0) _ _
      (λ empty. (d', refl, refl, (lo_at, hi_at, (==_iff _ 0).0 empty), none_of))
      (λ full.
        if_cases (Found n) (d.children at == 0) _ _
          (λ no_children. (
            remove d' at,
            refl,
            refl,
            (lo_at, hi_at, removed),
            remove-IsChildless d' at none_of ((==_iff _ 0).0 no_children),
          ))
          (λ parent.
            recover-Found fuel d' target lo_at hi_at lo' hi' none_of leaf (rest_le parent)))

insert-leaf :
    (d : Dictionary) (node character : ℕ)
    → IsChildless d
    → 0 < d.length node
    → d.length d.next ≡ 0
    → (insert d node character).children d.next ≡ 0
insert-leaf d node character none_of used free = elim (Bool-cases (d.next == node)) [
  | inl same ↦
      let equal : d.length d.next ≡ d.length node = ap d.length ((==_iff d.next node).0 same) in
      absurd (omega arith)
  | inr other ↦ store-other d.children node (d.children node + 1) d.next other ∙ none_of d.next free
]

abbrev Keeps : Dictionary × Option ℕ → Type 0
Keeps r = IsDictionary r.0

added-Keeps :
    (d : Dictionary) (o : Option Dictionary)
    → 512 ≤ d.parameters.codewords
    → Found d.parameters.codewords o
    → Keeps (added d o)
added-Keeps d o size (d', found, same, place, none_of) =
    subst (λ x. Keeps (added d x)) (sym found) (omega arith, place, none_of)

-- In a well-formed dictionary, and under an entry in use, the search for the next place after a new
-- string ends within one turn of the cycle, and `add` leaves the dictionary well-formed: the
-- next codeword is an empty entry of a string, and no empty entry has children.
pub add-IsDictionary :
    (d : Dictionary) (node character : ℕ)
    → IsDictionary d
    → 0 < d.length node
    → Found d.parameters.codewords (recover d.parameters.codewords (insert d node character))
      × IsDictionary (add d node character).0
unfolding add
add-IsDictionary d node character (size, (lo, hi, free), none_of) used =
    let n = d.parameters.codewords in
    let inserted = insert d node character in
    let fresh : inserted.children d.next ≡ 0 = insert-leaf d node character none_of used free in
    let whole : IsDictionary d = (size, (lo, hi, free), none_of) in
    let found =
      recover-Found n inserted d.next lo hi lo hi
        (insert-IsChildless d node character none_of used free) fresh (ground arith) in
    (
      found,
      if_cases Keeps
          (leb d.parameters.max_string (d.length node) || is_some (child d node character)) _ _
          (λ refused. whole) (λ taken. added-Keeps inserted _ size found),
    )

-- A new dictionary of valid size is well-formed.
pub new-IsDictionary : (p : Parameters) → 512 ≤ p.codewords → IsDictionary (new p)
unfolding new
new-IsDictionary p size = (size, (omega arith, omega arith, refl), λ code e. refl)
