-- ===== src/Sse/Framing.antt =====
-- The frames of the two streams against what a browser makes of them.
use z_apply_backend.Base.{
  ℕ, String, ◌≡◌, refl, sym, ap, ◌∙◌, false, List, [], ◌∷◌, ◌++◌, arith, codes, All, All-append,
  append_nil, append_assoc,
}
use z_apply_backend.Json.{Fields}
use z_apply_backend.Sse.{Writer, sse, written, write}
use z_apply_backend.Sse.Client.{
  is_break, lines_from, read_lines, Received, Buffers, kind_or_message, received,
}
use z_apply_backend.Stream.{Output, frame, reset, keepalive}

-- No line ends within it.
abbrev pub OneLine : List ℕ → Type 0
OneLine = All (λ c. is_break c ≡ false)

-- The law of the writer: what it writes is one line.
pub record Lines (w : Writer) : Type 0 where
  pub digits : (n : ℕ) → OneLine (codes (w.digits n))
  pub dumps : (data' : Fields) → OneLine (codes (w.dumps data'))

abbrev pub unlines : List (List ℕ) → List ℕ
unlines [] = []
unlines (line ∷ lines) = line ++ 10 ∷ unlines lines

line-ends :
    (l line rest : List ℕ)
    → OneLine l
    → lines_from line false (l ++ 10 ∷ rest) ≡ (line ++ l) ∷ lines_from [] false rest
unfolding lines_from
line-ends [] line rest h = ap (λ x. x ∷ lines_from [] false rest) (sym (append_nil line))
line-ends (c ∷ l) line rest h =
    step c line (l ++ 10 ∷ rest) h.0
    ∙ line-ends l (line ++ c ∷ []) rest h.1
    ∙ ap (λ x. x ∷ lines_from [] false rest) (append_assoc line (c ∷ []) l)
  where
    step :
        (c : ℕ) (line text : List ℕ)
        → is_break c ≡ false
        → lines_from line false (c ∷ text) ≡ lines_from (line ++ c ∷ []) false text
    step c line text h = ground arith

pub lines_from-unlines :
    (lines : List (List ℕ)) (rest : List ℕ)
    → All OneLine lines
    → lines_from [] false (unlines lines ++ rest) ≡ lines ++ lines_from [] false rest
lines_from-unlines [] rest h = refl
lines_from-unlines (line ∷ lines) rest h =
    ap (lines_from [] false) (append_assoc line (10 ∷ unlines lines) rest)
    ∙ line-ends line [] (unlines lines ++ rest) h.0
    ∙ ap (◌∷◌ line) (lines_from-unlines lines rest h.1)

-- The buffers between two events: only the id is kept.
abbrev pub between : List ℕ → Buffers
between last_id = record { last_id = last_id; kind = []; lines = [] }

module _ (w : Writer) where
  abbrev pub event_of : ℕ → String → Fields → Received
  event_of event_id event_type data' = record {
    last_id = codes (w.digits event_id);
    kind = kind_or_message (codes event_type);
    text = codes (w.dumps data');
  }

  abbrev sse_lines : ℕ → String → Fields → List (List ℕ)
  sse_lines event_id event_type data' =
      (codes "id: " ++ codes (w.digits event_id))
      ∷ (codes "event: " ++ codes event_type)
      ∷ (codes "data: " ++ codes (w.dumps data'))
      ∷ []
      ∷ []

  sse-unlines :
      (event_id : ℕ) (event_type : String) (data' : Fields)
      → sse w event_id event_type data' ≡ unlines (sse_lines event_id event_type data')
  unfolding sse
  sse-unlines event_id event_type data' = refl

  read_lines-sse :
      (last_id : List ℕ) (event_id : ℕ) (event_type : String) (data' : Fields)
      (more : List (List ℕ))
      → (read_lines (sse_lines event_id event_type data' ++ more) (between last_id)).0
        ≡ event_of event_id event_type data'
          ∷ (read_lines more (between (codes (w.digits event_id)))).0
  unfolding read_lines
  read_lines-sse last_id event_id event_type data' more = refl

OneLine-append : (xs ys : List ℕ) → OneLine xs → OneLine ys → OneLine (xs ++ ys)
OneLine-append xs ys h k = All-append (λ c. is_break c ≡ false) xs ys h k

module _ (w : Writer) (laws : Lines w) where
  -- A frame at the front of a stream of text is read as one event, whatever follows it.
  pub received-sse :
      (last_id : List ℕ) (event_id : ℕ) (event_type : String) (data' : Fields) (rest : List ℕ)
      → OneLine (codes event_type)
      → (read_lines
          (lines_from [] false (sse w event_id event_type data' ++ rest))
          (between last_id)).0
        ≡ event_of w event_id event_type data'
          ∷ (read_lines (lines_from [] false rest) (between (codes (w.digits event_id)))).0
  received-sse last_id event_id event_type data' rest h =
      let lines : List (List ℕ) = sse_lines w event_id event_type data' in
      ap (λ t. (read_lines (lines_from [] false (t ++ rest)) (between last_id)).0)
        (sse-unlines w event_id event_type data')
      ∙ ap (λ l. (read_lines l (between last_id)).0)
          (lines_from-unlines lines rest (
            OneLine-append (codes "id: ") _ (refl, (refl, (refl, (refl, tt))))
                (laws.digits event_id),
            (
              OneLine-append (codes "event: ") _
                  (refl, (refl, (refl, (refl, (refl, (refl, (refl, tt))))))) h,
              (
                OneLine-append (codes "data: ") _ (refl, (refl, (refl, (refl, (refl, (refl, tt))))))
                    (laws.dumps data'),
                (tt, tt),
              ),
            ),
          ))
      ∙ read_lines-sse w last_id event_id event_type data' (lines_from [] false rest)

  -- What the browser gets of the outputs of the generator.
  abbrev pub delivered : List Output → List Received
  delivered [] = []
  delivered (frame f ∷ outputs) = event_of w f.event_id f.event_type f.body ∷ delivered outputs
  delivered (reset f ∷ outputs) = event_of w f.event_id f.event_type f.body ∷ delivered outputs
  delivered (keepalive ∷ outputs) = delivered outputs

  abbrev pub HasOneLine : Output → Type 0
  HasOneLine (frame f) = OneLine (codes f.event_type)
  HasOneLine (reset f) = OneLine (codes f.event_type)
  HasOneLine keepalive = Unit

  read-write :
      (last_id : List ℕ) (outputs : List Output)
      → All HasOneLine outputs
      → (read_lines (lines_from [] false (write w outputs)) (between last_id)).0 ≡ delivered outputs
  unfolding write written lines_from read_lines
  read-write last_id [] h = refl
  read-write last_id (frame f ∷ outputs) h =
      received-sse last_id f.event_id f.event_type f.body (write w outputs) h.0
      ∙ ap (◌∷◌ (event_of w f.event_id f.event_type f.body))
          (read-write (codes (w.digits f.event_id)) outputs h.1)
  read-write last_id (reset f ∷ outputs) h =
      received-sse last_id f.event_id f.event_type f.body (write w outputs) h.0
      ∙ ap (◌∷◌ (event_of w f.event_id f.event_type f.body))
          (read-write (codes (w.digits f.event_id)) outputs h.1)
  read-write last_id (keepalive ∷ outputs) h = read-write last_id outputs h.1

  -- A browser reads from the text of the stream exactly the frames that the generator yielded, in
  -- their order, each with its id, its type and its data as one text; the keepalives are nothing
  -- to it. The types of the events have no line break; numbers and JSON are written without one.
  pub received-write :
      (outputs : List Output)
      → All HasOneLine outputs
      → received (write w outputs) ≡ delivered outputs
  unfolding received
  received-write outputs h = read-write [] outputs h
