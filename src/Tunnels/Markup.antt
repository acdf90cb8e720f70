-- ===== src/Tunnels/Markup.antt =====
-- A reader of XML documents, as far as the requests of pkg/hal/hal.go go: elements and attributes,
-- where those that declare a namespace are passed over; no entities, comments or instructions. It
-- describes what the device reads of a request, apart from the texts that make it up.
use vmw_tsf.Prelude.{
  ℕ, Str, Bool, true, false, List, [], ◌∷◌, ◌++◌, Option, none, some, eqb, str_eqb, take, str,
  if◌then◌else◌,
}

-- In the text between tags, or in a tag: in its name, in the attributes (those read so far, and
-- whether a slash is held back), after the slash of an empty element, in the name of an end tag.
pub data Mode : Type 0 where
  between : Mode
  in_name : Str → Mode
  in_attributes : Str → Str → Bool → Mode
  after_slash : Str → Mode
  in_end : Str → Mode
  broken : Mode

-- The open elements, whether the last tag opened one, the text since, and the elements without
-- child elements that are complete, with their texts; an element with attributes is listed where it
-- starts, with them.
pub record Reader : Type 0 where
  pub mode : Mode
  pub open_elements : List Str
  pub opened : Bool
  pub text : Str
  pub leaves : List (Str × Str)

abbrev fail : Reader → Reader
fail r = record r { mode = broken }

abbrev start_element : Str → Reader → Reader
start_element name r = record r {
  mode = between;
  open_elements = name ∷ r.open_elements;
  opened = true;
  text = [];
}

abbrev is_namespace : Str → Bool
is_namespace attributes = str_eqb (take 5 attributes) (str "xmlns")

abbrev tag : Str → Str → Str
tag name [] = name
tag name attributes = name ++ b' ' ∷ attributes

abbrev with_attributes : Str → Str → Reader → Reader
with_attributes name attributes r =
    if is_namespace attributes
    then r
    else record r { leaves = r.leaves ++ (tag name attributes, []) ∷ [] }

abbrev empty_element : Str → Reader → Reader
empty_element name r = record r {
  mode = between;
  opened = false;
  text = [];
  leaves = r.leaves ++ (name, []) ∷ [];
}

abbrev end_element : Str → List Str → Reader → Reader
end_element name [] r = fail r
end_element name (top ∷ rest) r =
    if str_eqb name top
    then record r {
      mode = between;
      open_elements = rest;
      opened = false;
      text = [];
      leaves = if r.opened then r.leaves ++ (name, r.text) ∷ [] else r.leaves;
    }
    else fail r

abbrev in_tag : Mode → Reader → Reader
in_tag m r = record r { mode = m }

abbrev step_in : Mode → ℕ → Reader → Reader
step_in between c r =
    if eqb c b'<'
    then in_tag (in_name []) r
    else if eqb c b'&'
    then fail r
    else record r { text = r.text ++ c ∷ [] }
step_in (in_name []) c r = if eqb c b'/' then in_tag (in_end []) r else in_tag (in_name (c ∷ [])) r
step_in (in_name (x ∷ xs)) c r =
    if eqb c b'>'
    then start_element (x ∷ xs) r
    else if eqb c b'/'
    then in_tag (after_slash (x ∷ xs)) r
    else if eqb c b' '
    then in_tag (in_attributes (x ∷ xs) [] false) r
    else in_tag (in_name (x ∷ (xs ++ c ∷ []))) r
step_in (in_attributes name attributes slash) c r =
    let held = if slash then attributes ++ b'/' ∷ [] else attributes in
    if eqb c b'>'
    then (if slash
        then empty_element (tag name attributes) r
        else start_element name (with_attributes name attributes r))
    else if eqb c b'<'
    then fail r
    else if eqb c b'/'
    then in_tag (in_attributes name held true) r
    else in_tag (in_attributes name (held ++ c ∷ []) false) r
step_in (after_slash name) c r = if eqb c b'>' then empty_element name r else fail r
step_in (in_end name) c r =
    if eqb c b'>' then end_element name r.open_elements r else in_tag (in_end (name ++ c ∷ [])) r
step_in broken c r = r

unfoldable pub step : Reader → ℕ → Reader
step r c = step_in r.mode c r

unfoldable pub read : Reader → Str → Reader
unfolding step
read r [] = r
read r (c ∷ cs) = read (step r c) cs

abbrev pub start : Reader
start = record { mode = between; open_elements = []; opened = false; text = []; leaves = [] }

-- A document is well formed when every element is closed by its own end tag.
abbrev when_closed : List Str → Reader → Option (List (Str × Str))
when_closed [] r = some r.leaves
when_closed (name ∷ names) r = none

abbrev pub result : Mode → Reader → Option (List (Str × Str))
result between r = when_closed r.open_elements r
result _ r = none

-- The innermost elements of a document with their texts, if it is well formed.
unfoldable pub leaves_of : Str → Option (List (Str × Str))
unfolding read
leaves_of doc = let r = read start doc in result r.mode r
