-- ===== src/Sse/Client.antt =====
-- What a browser's EventSource makes of a stream of text, after the HTML standard: the lines, the
-- fields in them, and an event at each empty line. It is no code of this repository, but the
-- description that the frames are held against.
use z_apply_backend.Base.{
  ℕ, Bool, true, false, ◌||◌, ◌&&◌, List, [], ◌∷◌, ◌++◌, ◌==◌, codes, if◌then◌else◌,
}

-- A line ends at a line feed, at a carriage return, or at both.
abbrev pub is_break : ℕ → Bool
is_break c = (c == 10) || (c == 13)

abbrev pub ended : Bool → ℕ → List ℕ → List (List ℕ)
ended after_return c line =
    if is_break c then (if (c == 10) && after_return then [] else line ∷ []) else []

abbrev pub next_line : ℕ → List ℕ → List ℕ
next_line c line = if is_break c then [] else line ++ c ∷ []

-- The lines that are complete; what is left at the end of the stream is dropped.
unfoldable pub lines_from : List ℕ → Bool → List ℕ → List (List ℕ)
lines_from line after_return [] = []
lines_from line after_return (c ∷ text) =
    ended after_return c line ++ lines_from (next_line c line) (c == 13) text

-- The name of a field stands before the first colon, and its value after it and one space.
abbrev pub before_colon : List ℕ → List ℕ
before_colon [] = []
before_colon (c ∷ line) = let rest = before_colon line in if c == 58 then [] else c ∷ rest

abbrev pub after_colon : List ℕ → List ℕ
after_colon [] = []
after_colon (c ∷ line) = let rest = after_colon line in if c == 58 then line else rest

abbrev pub without_space : List ℕ → List ℕ
without_space [] = []
without_space (c ∷ value) = if c == 32 then value else c ∷ value

abbrev pub same : List ℕ → List ℕ → Bool
same [] [] = true
same (a ∷ xs) (b ∷ ys) = (a == b) && same xs ys
same _ _ = false

-- The buffers; `lines` has the values of the data fields, which an event joins.
pub record Buffers : Type 0 where
  pub last_id : List ℕ
  pub kind : List ℕ
  pub lines : List (List ℕ)

pub record Received : Type 0 where
  pub last_id : List ℕ
  pub kind : List ℕ
  pub text : List ℕ

abbrev pub joined : List ℕ → List (List ℕ) → List ℕ
joined line [] = line
joined line (next ∷ more) = line ++ 10 ∷ joined next more

abbrev pub kind_or_message : List ℕ → List ℕ
kind_or_message [] = codes "message"
kind_or_message (c ∷ kind) = c ∷ kind

unfoldable pub set_field : List ℕ → List ℕ → Buffers → Buffers
set_field name value b =
    if same name (codes "id")
    then record b { last_id = value }
    else if same name (codes "event")
    then record b { kind = value }
    else if same name (codes "data")
    then record b { lines = b.lines ++ value ∷ [] }
    else b

abbrev pub cleared : Buffers → Buffers
cleared b = record b { kind = []; lines = [] }

unfoldable pub dispatched : Buffers → List (List ℕ) → List Received
dispatched b [] = []
dispatched b (line ∷ more) =
    record { last_id = b.last_id; kind = kind_or_message b.kind; text = joined line more } ∷ []

unfoldable pub read_lines : List (List ℕ) → Buffers → List Received × Buffers
unfolding set_field dispatched
read_lines [] b = ([], b)
read_lines ([] ∷ lines) b =
    let (events, b') = read_lines lines (cleared b) in (dispatched b b.lines ++ events, b')
read_lines ((c ∷ line) ∷ lines) b =
    read_lines lines
      (set_field (before_colon (c ∷ line)) (without_space (after_colon (c ∷ line))) b)

abbrev pub empty : Buffers
empty = record { last_id = []; kind = []; lines = [] }

-- The events of a whole stream.
unfoldable pub received : List ℕ → List Received
unfolding lines_from read_lines
received text = (read_lines (lines_from [] false text) empty).0
