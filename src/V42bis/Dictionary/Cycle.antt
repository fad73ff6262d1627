-- ===== src/V42bis/Dictionary/Cycle.antt =====
-- About `Dictionary::add` of v42bis.rs under an empty entry, and `Dictionary::string` after it.
use softmodem_rs.Prelude.{
  ℕ, zero, suc, ◌+◌, ◌^◌, ◌||◌, ◌≤◌, ◌<◌, ◌≡◌, refl, ap, sym, subst, ◌∙◌, true, false, Option, none,
  some, ◌==◌, ==_iff, Bool-cases, inl, inr, ltb, leb, if_cases, arith,
}
use softmodem_rs.V42bis.Dictionary.{
  Dictionary, no_node, control_codewords, first_string, advance, recover, remove, insert, add,
  added, is_some, child, walk, walked, string, endless, unused,
}
use softmodem_rs.V42bis.Dictionary.Recovery.{IsDictionary, store-same}

walk-own_parent :
    (steps : ℕ) (d : Dictionary) (node : ℕ)
    → d.parent node ≡ node
    → (node == no_node) ≡ false
    → walk steps d node ≡ none
unfolding walk
walk-own_parent zero d node h other = rw (other)
walk-own_parent (suc steps) d node h other =
    let before = ap (walk steps d) h ∙ walk-own_parent steps d node h other in rw (other, before)

-- What `recover` leaves of an entry with a child.
abbrev IsKept : Dictionary → ℕ → Option Dictionary → Type 0
IsKept d code none = Unit
IsKept d code (some d') =
    (d'.parameters ≡ d.parameters)
    × (d'.parent code ≡ d.parent code)
    × (d'.length code ≡ d.length code)

remove-length :
    (d : Dictionary) (at code : ℕ)
    → (code == at) ≡ false
    → (remove d at).length code ≡ d.length code
remove-length d at code h = rw (h)

not_leaf :
    (d : Dictionary) (code at : ℕ) → 0 < d.children code → d.children at ≡ 0 → (code == at) ≡ false
not_leaf d code at h leaf = elim (Bool-cases (code == at)) [
  | inl e ↦
      let same : d.children code ≡ d.children at = ap d.children ((==_iff code at).0 e) in
      absurd (omega arith)
  | inr e ↦ e
]

recover-IsKept :
    (fuel : ℕ) (d : Dictionary) (code : ℕ) → 0 < d.children code → IsKept d code (recover fuel d)
unfolding recover
recover-IsKept zero d code h = tt
recover-IsKept (suc fuel) d code h =
    let at = advance d in
    let d' : Dictionary = record d { next = at } in
    if_cases (IsKept d code) (d.length at == 0) _ _ (λ _. (refl, refl, refl))
      (λ _.
        if_cases (IsKept d code) (d.children at == 0) _ _
          (λ leaf. (
            refl,
            refl,
            remove-length d' at code (not_leaf d code at h ((==_iff (d.children at) 0).0 leaf)),
          ))
          (λ _. recover-IsKept fuel d' code h))

-- `string` has a walk that does not end, however many steps it is given.
abbrev pub NeverEnds : Dictionary → ℕ → Type 0
NeverEnds d code = (string d code ≡ endless) × ((steps : ℕ) → walk steps d code ≡ none)

string-own_parent :
    (d : Dictionary) (code : ℕ)
    → d.parent code ≡ code
    → first_string ≤ code
    → code < d.parameters.codewords
    → code < no_node
    → 0 < d.length code
    → NeverEnds d code
unfolding string
string-own_parent d code h lo hi small used =
    let other : (code == no_node) ≡ false = ground (arith, small) in
    (
      if_cases (λ x. x ≡ endless)
          (ltb code control_codewords || leb d.parameters.codewords code || (d.length code == 0))
          unused _ (λ no. absurd (ground (arith, no, lo, hi, used)))
          (λ _. ap walked (walk-own_parent d.parameters.codewords d code h other)),
      λ steps. walk-own_parent steps d code h other,
    )

added-own_parent :
    (d : Dictionary) (code : ℕ) (o : Option Dictionary)
    → IsKept d code o
    → d.parent code ≡ code
    → first_string ≤ code
    → code < d.parameters.codewords
    → code < no_node
    → 0 < d.length code
    → NeverEnds (added d o).0 code
added-own_parent d code none kept h lo hi small used = string-own_parent d code h lo hi small used
added-own_parent d code (some d') (parameters, parent, length) h lo hi small used =
    string-own_parent d' code (parent ∙ h) lo (subst (λ p. code < p.codewords) (sym parameters) hi)
      small (subst (λ n. 0 < n) (sym length) used)

-- Under an entry that is empty and the next one to be written, `add` writes that entry as its own
-- parent, and then the walk of `string` from it does not end.
pub string-add_empty :
    (d : Dictionary) (character : ℕ)
    → IsDictionary d
    → d.parameters.codewords < 2 ^ 16
    → 0 < d.parameters.max_string
    → child d d.next character ≡ none
    → NeverEnds (add d d.next character).0 d.next
unfolding add
string-add_empty d character (size, (lo, hi, free), none_of) small long fresh =
    let n = d.next in
    let inserted = insert d n character in
    let same : (n == n) ≡ true = ground arith in
    let parent = store-same d.parent n n n same in
    let length = store-same d.length n (d.length n + 1) n same in
    let children = store-same d.children n (d.children n + 1) n same in
    let kept =
      recover-IsKept d.parameters.codewords inserted n
        (subst (λ k. 0 < k) (sym children) (omega arith)) in
    if_cases (λ (x : Dictionary × Option ℕ). NeverEnds x.0 n)
      (leb d.parameters.max_string (d.length n) || is_some (child d n character)) _ _
      (λ refused.
        let no_child : is_some (child d n character) ≡ false = ap is_some fresh in
        absurd (ground (arith, refused, no_child, free, long)))
      (λ _.
        added-own_parent inserted n _ kept parent lo hi (omega arith)
          (subst (λ k. 0 < k) (sym length) (omega arith)))

added-parameters :
    (d : Dictionary) (code : ℕ) (o : Option Dictionary)
    → IsKept d code o
    → (added d o).0.parameters ≡ d.parameters
added-parameters d code none kept = refl
added-parameters d code (some d') kept = kept.0

pub add-parameters :
    (d : Dictionary) (node character : ℕ) → (add d node character).0.parameters ≡ d.parameters
unfolding add
add-parameters d node character =
    let inserted = insert d node character in
    let same : (node == node) ≡ true = ground arith in
    let children = store-same d.children node (d.children node + 1) node same in
    let kept =
      recover-IsKept d.parameters.codewords inserted node
        (subst (λ k. 0 < k) (sym children) (omega arith)) in
    if_cases (λ (x : Dictionary × Option ℕ). x.0.parameters ≡ d.parameters)
      (leb d.parameters.max_string (d.length node) || is_some (child d node character)) _ _
      (λ _. refl) (λ _. added-parameters inserted node _ kept)
