-- ===== src/Tunnels/Filling.antt =====
-- What pkg/hal/hal.go uses of the package text/template: texts with actions `{{.key}}`, filled from
-- a map. A key that the map lacks prints as the package's "<no value>"; nothing is escaped.
use vmw_tsf.Prelude.{
  ℕ, Str, List, [], ◌∷◌, ◌++◌, Option, none, some, str, eqb, if◌then◌else◌, str_eq,
}
use vmw_tsf.Prelude.Map.{Map, lookup}

pub data Piece : Type 0 where
  lit : Str → Piece
  field : Str → Piece

-- Where the parser stands: in the text, after one brace, after two, in a key, and after it.
pub data Mode : Type 0 where
  in_text after_brace after_braces in_key after_key : Mode

abbrev next : Mode → ℕ → Mode
next in_text c = if eqb c b'{' then after_brace else in_text
next after_brace c = if eqb c b'{' then after_braces else in_text
next after_braces c = in_key
next in_key c = if eqb c b'}' then after_key else in_key
next after_key c = in_text

abbrev push_lit : ℕ → List Piece → List Piece
push_lit c (lit s ∷ ps) = lit (c ∷ s) ∷ ps
push_lit c ps = lit (c ∷ []) ∷ ps

abbrev push_key : ℕ → List Piece → List Piece
push_key c (field s ∷ ps) = field (c ∷ s) ∷ ps
push_key c ps = ps

-- What a character adds in front of the pieces of the rest.
abbrev emit : Mode → ℕ → List Piece → List Piece
emit in_text c ps = if eqb c b'{' then ps else push_lit c ps
emit after_brace c ps = if eqb c b'{' then ps else push_lit b'{' (push_lit c ps)
emit after_braces c ps = ps
emit in_key c ps = if eqb c b'}' then field [] ∷ ps else push_key c ps
emit after_key c ps = ps

unfoldable pub pieces : Mode → Str → List Piece
pieces m [] = []
pieces m (c ∷ cs) = let rest = pieces (next m c) cs in emit m c rest

abbrev pub Values : Type 0
Values = Map Str Str

abbrev pub printed : Option Str → Str
printed none = str "<no value>"
printed (some s) = s

unfoldable pub filled : Values → List Piece → Str
unfolding lookup
filled values [] = []
filled values (lit s ∷ ps) = s ++ filled values ps
filled values (field key ∷ ps) = printed (lookup key values) ++ filled values ps

-- `template.Parse`, then `Execute`.
unfoldable pub execute : Str → Values → Str
unfolding pieces filled
execute text values = filled values (pieces in_text text)
