-- ===== src/Storage/Otb.antt =====
-- OTB::Loader of src/fileloader.cpp. An iterator is the rest of the file from where it points, so
-- the distance of two iterators is the difference of their lengths. `none` is InvalidOTBFormat.
pub mod Format
use xynera_ots.Prelude.{
  ℕ, zero, suc, ◌-◌, Option, none, some, Bool, true, false, not, ◌&&◌, ◌||◌, List, [], ◌∷◌, ltb,
  leb, ◌==◌, if◌then◌else◌, length, take, drop,
}

abbrev pub node_escape : ℕ
node_escape = 0xFD

abbrev pub node_start : ℕ
node_start = 0xFE

abbrev pub node_end : ℕ
node_end = 0xFF

-- `propsEnd` is not set while a node is read.
mutual
  pub data Node : Type 0 where
    node : ℕ → List ℕ → Option (List ℕ) → Nodes → Node

  pub data Nodes : Type 0 where
    nil : Nodes
    cons : Node → Nodes → Nodes

-- `children.push_back`.
pub push_back : Nodes → Node → Nodes
push_back nil n = cons n nil
push_back (cons m ms) n = cons m (push_back ms n)

-- A node on the parse stack.
pub record Open : Type 0 where
  pub type : ℕ
  pub props_begin : List ℕ
  pub props_end : Option (List ℕ)
  pub children : Nodes

-- The parse stack, top first, and the root once it is closed.
pub record State : Type 0 where
  pub stack : List Open
  pub root : Option Node

pub data Kind : Type 0 where
  starts ends escapes plain : Kind

pub kind : ℕ → Kind
kind c =
    if c == node_start
    then starts
    else if c == node_end
    then ends
    else if c == node_escape
    then escapes
    else plain

-- `if (currentNode.children.empty()) currentNode.propsEnd = it;`
pub mark_end : List ℕ → Open → Open
mark_end it o = elim o.children [ nil ↦ record o { props_end = some it } | cons _ _ ↦ o ]

pub close : Open → Node
close o = node o.type o.props_begin o.props_end o.children

-- The case of START, up to the type byte of the child.
pub start_node : List ℕ → List Open → Option (List Open)
start_node it [] = none
start_node it (o ∷ os) = some (mark_end it o ∷ os)

abbrev pub child : ℕ → List ℕ → Open
child t begin = record { type = t; props_begin = begin; props_end = none; children = nil }

-- The case of END. The child stands in its parent's vector already; here it moves there.
pub end_node : List ℕ → State → Option State
end_node it s = elim s.stack [
  | [] ↦ none
  | o ∷ [] ↦ some (record { stack = []; root = some (close (mark_end it o)) })
  | o ∷ p ∷ os ↦ some (record {
    stack = record p { children = push_back p.children (close (mark_end it o)) } ∷ os;
    root = s.root;
  })
]

-- Where the loop stands: at a byte, behind START at the type byte, or behind ESCAPE.
pub data Mode : Type 0 where
  at_byte at_type at_escaped : Mode

-- `for (; it != end; ++it)`, with the stack empty at its end.
pub loop : Mode → State → List ℕ → Option Node
loop at_byte s [] = elim s.stack [ [] ↦ s.root | _ ∷ _ ↦ none ]
loop at_type s [] = none
loop at_escaped s [] = none
loop at_byte s (c ∷ rest) = elim (kind c) [
  | starts ↦ elim (start_node (c ∷ rest) s.stack) [
    | none ↦ none
    | some os ↦ loop at_type (record s { stack = os }) rest
  ]
  | ends ↦ elim (end_node (c ∷ rest) s) [ none ↦ none | some s' ↦ loop at_byte s' rest ]
  | escapes ↦ loop at_escaped s rest
  | plain ↦ loop at_byte s rest
]
loop at_type s (c ∷ rest) = loop at_byte (record s { stack = child c rest ∷ s.stack }) rest
loop at_escaped s (c ∷ rest) = loop at_byte s rest

pub parse_from : List ℕ → Option Node
unfolding loop kind start_node end_node mark_end close push_back
parse_from (c ∷ t ∷ rest) =
    if c == node_start
    then loop at_byte (record { stack = child t rest ∷ []; root = none }) rest
    else none
parse_from _ = none

-- The constructor's checks: more than seven bytes, and the accepted identifier or four zeros.
pub same : List ℕ → List ℕ → Bool
same [] [] = true
same (x ∷ xs) (y ∷ ys) = x == y && same xs ys
same _ _ = false

pub load : List ℕ → List ℕ → Option Node
unfolding same parse_from
load accepted contents =
    if leb (length contents) 7
    then none
    else if same (take 4 contents) accepted || same (take 4 contents) (0 ∷ 0 ∷ 0 ∷ 0 ∷ [])
    then parse_from (drop 4 contents)
    else none

-- `copy_if` of getProps, with its variable `lastEscaped`.
pub unescape : Bool → List ℕ → List ℕ
unescape last [] = []
unescape last (b ∷ bs) =
    let last' = b == node_escape && not last in
    let rest = unescape last' bs in if last' then rest else b ∷ rest

-- getProps; `none` is its `false`.
pub get_props : Node → Option (List ℕ)
unfolding unescape
get_props (node t begin none ns) = none
get_props (node t begin (some fin) ns) =
    let size = length begin - length fin in
    if size == 0 then none else some (unescape false (take size begin))
