-- ===== src/V42bis/Dictionary.antt =====
-- `Dictionary` and `Matcher` of v42bis.rs: the strings both ends know, and how a character ends one.
-- The arrays of N2 entries are functions of the index, and the hash map is one of its two keys.
pub mod Cycle
pub mod Recovery
use softmodem_rs.Prelude.{
  ℕ, zero, suc, ◌+◌, ◌-◌, ◌^◌, Bool, true, false, not, ◌&&◌, ◌||◌, Option, none, some, List, [],
  ◌∷◌, ◌++◌, ◌==◌, ltb, leb, if◌then◌else◌,
}
use softmodem_rs.V42bis.Parameters.{Parameters}

abbrev pub control_codewords : ℕ
control_codewords = 3

abbrev pub first_string : ℕ
first_string = control_codewords + 256

-- NONE, u16::MAX
abbrev pub no_node : ℕ
no_node = 2 ^ 16 - 1

abbrev pub root : ℕ → ℕ
root character = control_codewords + character

pub record Dictionary : Type 0 where
  pub parameters : Parameters
  pub parent : ℕ → ℕ
  pub character : ℕ → ℕ
  pub length : ℕ → ℕ
  pub children : ℕ → ℕ
  pub lookup : ℕ → ℕ → Option ℕ
  pub next : ℕ

abbrev pub store {ℓ} : {A : Type ℓ} → (ℕ → A) → ℕ → A → ℕ → A
store f at v i = if i == at then v else f i

abbrev pub store_key {ℓ} : {A : Type ℓ} → (ℕ → ℕ → A) → ℕ → ℕ → A → ℕ → ℕ → A
store_key f node character v n c = if (n == node) && (c == character) then v else f n c

abbrev is_root : ℕ → Bool
is_root code = leb control_codewords code && ltb code first_string

unfoldable pub new : Parameters → Dictionary
new p = record {
  parameters = p;
  parent = λ code. no_node;
  character = λ code. if is_root code then code - control_codewords else 0;
  length = λ code. if is_root code then 1 else 0;
  children = λ code. 0;
  lookup = λ node character. none;
  next = first_string;
}

abbrev pub child : Dictionary → ℕ → ℕ → Option ℕ
child d node character = d.lookup node character

-- The next place in the cycle of string codewords.
abbrev pub advance : Dictionary → ℕ
advance d = let next = d.next + 1 in if leb d.parameters.codewords next then first_string else next

-- A leaf is forgotten.
abbrev pub remove : Dictionary → ℕ → Dictionary
remove d at =
    let parent = d.parent at in
    record d {
      lookup = store_key d.lookup parent (d.character at) none;
      children = store d.children parent (d.children parent - 1);
      length = store d.length at 0;
    }

-- The loop of `recover`; `none` when the turns given do not do.
unfoldable pub recover : ℕ → Dictionary → Option Dictionary
recover zero d = none
recover (suc fuel) d =
    let at = advance d in
    let d' : Dictionary = record d { next = at } in
    let rest = recover fuel d' in
    if d.length at == 0 then some d' else if d.children at == 0 then some (remove d' at) else rest

-- The new entry, before `recover`.
abbrev pub insert : Dictionary → ℕ → ℕ → Dictionary
insert d node character = record d {
  parent = store d.parent d.next node;
  character = store d.character d.next character;
  length = store d.length d.next (d.length node + 1);
  children = store d.children node (d.children node + 1);
  lookup = store_key d.lookup node character (some d.next);
}

abbrev pub is_some {ℓ} : {A : Type ℓ} → Option A → Bool
is_some none = false
is_some (some a) = true

-- The dictionary after `recover`, and the codeword that was the next one before it.
abbrev pub added : Dictionary → Option Dictionary → Dictionary × Option ℕ
added inserted none = (inserted, some inserted.next)
added inserted (some d) = (d, some inserted.next)

-- The dictionary and the new entry's codeword; one turn round the cycle finds a place.
unfoldable pub add : Dictionary → ℕ → ℕ → Dictionary × Option ℕ
unfolding recover
add d node character =
    let inserted = insert d node character in
    if leb d.parameters.max_string (d.length node) || is_some (child d node character)
    then (d, none)
    else added inserted (recover d.parameters.codewords inserted)

-- The parent's characters, and then the node's.
abbrev ending {ℓ} : {A : Type ℓ} → A → Option (List A) → Option (List A)
ending a none = none
ending a (some before) = some (before ++ a ∷ [])

-- The `while` of `string`, from the node up to the root and turned round; `none` when the steps given
-- do not do.
unfoldable pub walk : ℕ → Dictionary → ℕ → Option (List ℕ)
walk zero d node = if node == no_node then some [] else none
walk (suc steps) d node =
    let rest = walk steps d (d.parent node) in
    if node == no_node then some [] else ending (d.character node) rest

-- What `string` comes to: `None`, a walk that does not end since parents make a cycle, or `Some`.
pub data Spelled : Type 0 where
  unused : Spelled
  endless : Spelled
  spells : List ℕ → Spelled

abbrev walked : Option (List ℕ) → Spelled
walked none = endless
walked (some characters) = spells characters

-- There are as many entries as codewords, so a walk with more steps comes to one of them again.
unfoldable pub string : Dictionary → ℕ → Spelled
unfolding walk
string d code =
    if ltb code control_codewords || leb d.parameters.codewords code || (d.length code == 0)
    then unused
    else walked (walk d.parameters.codewords d code)

pub record Matcher : Type 0 where
  pub string : Option ℕ
  pub last_created : Option ℕ
  pub exception : Bool

abbrev pub new_matcher : Matcher
new_matcher = record { string = none; last_created = none; exception = false }

-- `Some(child) != self.last_created`
abbrev is_not : ℕ → Option ℕ → Bool
is_not child none = true
is_not child (some created) = not (child == created)

-- The string goes on with the character.
abbrev extended : Matcher → Dictionary → ℕ → ℕ → Option ℕ
extended m d string character = elim (child d string character) [
  | none ↦ none
  | some child ↦ if is_not child m.last_created then some child else none
]

-- A character starts the next string; the arguments are what it ended, and what was created.
abbrev restart : Matcher → Dictionary × Option ℕ → ℕ → Option ℕ → (Matcher × Dictionary) × Option ℕ
restart m (d, created) character ended = (
  (record m { string = some (root character); last_created = created; exception = false }, d),
  ended,
)

unfoldable pub push : Matcher → Dictionary → ℕ → (Matcher × Dictionary) × Option ℕ
unfolding add
push m d character = elim m.string [
  | none ↦ restart m (d, m.last_created) character none
  | some string ↦
      if m.exception
      then restart m (add d string character) character none
      else elim (extended m d string character) [
        | some child ↦ ((record m { string = some child }, d), none)
        | none ↦ restart m (add d string character) character (some string)
      ]
]
