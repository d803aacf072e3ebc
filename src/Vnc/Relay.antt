-- ===== src/Vnc/Relay.antt =====
-- The two pumps of the bridge, as byte streams.
use z_apply_backend.Base.{
  ℕ, String, ◌≤◌, ◌≡◌, refl, sym, ap, ◌∙◌, false, Option, none, some, List, [], ◌∷◌, ◌++◌, length,
  All, if◌then◌else◌,
}
use z_apply_backend.Vnc.{
  Message, disconnect, received, data_of, is_empty, websocket_to_vnc, vnc_to_websocket,
}

abbrev pub flat : List (List ℕ) → List ℕ
flat [] = []
flat (chunk ∷ chunks) = chunk ++ flat chunks

-- The bytes that a client sends before it disconnects: binary messages as they are, texts in UTF-8.
abbrev pub sent_by : (String → List ℕ) → List Message → List ℕ
sent_by encode [] = []
sent_by encode (disconnect ∷ messages) = []
sent_by encode (received (some bytes) text ∷ messages) = bytes ++ sent_by encode messages
sent_by encode (received none (some text) ∷ messages) = encode text ++ sent_by encode messages
sent_by encode (received none none ∷ messages) = sent_by encode messages

-- The results of `read(n)` on a stream, up to its end: each has at least one byte and at most n.
pub data Reads (n : ℕ) : List ℕ → List (List ℕ) → Type 0 where
  eof : Reads n [] ([] ∷ [])
  chunk :
      {b : ℕ} {bs stream : List ℕ} {chunks : List (List ℕ)}
      → length (b ∷ bs) ≤ n
      → Reads n stream chunks
      → Reads n ((b ∷ bs) ++ stream) ((b ∷ bs) ∷ chunks)

abbrev pub NotEmpty : List ℕ → Type 0
NotEmpty bs = is_empty bs ≡ false

skip_empty :
    (data' : List ℕ) (rest : List (List ℕ))
    → flat (if is_empty data' then rest else data' ∷ rest) ≡ data' ++ flat rest
unfolding is_empty
skip_empty [] rest = refl
skip_empty (b ∷ bs) rest = refl

All-skip_empty :
    (data' : List ℕ) (rest : List (List ℕ))
    → All NotEmpty rest
    → All NotEmpty (if is_empty data' then rest else data' ∷ rest)
unfolding is_empty
All-skip_empty [] rest h = h
All-skip_empty (b ∷ bs) rest h = (refl, h)

sent_by-received :
    (encode : String → List ℕ) (bytes : Option (List ℕ)) (text : Option String)
    (messages : List Message)
    → sent_by encode (received bytes text ∷ messages)
      ≡ data_of encode bytes text ++ sent_by encode messages
unfolding data_of
sent_by-received encode (some bytes) text messages = refl
sent_by-received encode none (some text) messages = refl
sent_by-received encode none none messages = refl

-- What is written to the VNC server is what the client sent before it disconnected, byte for byte,
-- and no write is empty.
pub websocket_to_vnc-flat :
    (encode : String → List ℕ) (messages : List Message)
    → (flat (websocket_to_vnc encode messages) ≡ sent_by encode messages)
      × All NotEmpty (websocket_to_vnc encode messages)
unfolding websocket_to_vnc
websocket_to_vnc-flat encode [] = (refl, tt)
websocket_to_vnc-flat encode (disconnect ∷ messages) = (refl, tt)
websocket_to_vnc-flat encode (received bytes text ∷ messages) =
    let (bytes_eq, nonempty) = websocket_to_vnc-flat encode messages in
    let rest = websocket_to_vnc encode messages in
    (
      skip_empty (data_of encode bytes text) rest
          ∙ ap (λ l. data_of encode bytes text ++ l) bytes_eq
          ∙ sym (sent_by-received encode bytes text messages),
      All-skip_empty (data_of encode bytes text) rest nonempty,
    )

-- However the stream of the VNC server is cut into reads of at most 64 KiB, what is sent to the
-- client is that stream up to its end, in messages of at most 64 KiB.
pub vnc_to_websocket-flat :
    {stream : List ℕ} {chunks : List (List ℕ)}
    → Reads 65536 stream chunks
    → (flat (vnc_to_websocket chunks) ≡ stream)
      × All (λ c. length c ≤ 65536) (vnc_to_websocket chunks)
unfolding vnc_to_websocket
vnc_to_websocket-flat eof = (refl, tt)
vnc_to_websocket-flat (chunk {b} {bs} small r) =
    let (e, bounded) = vnc_to_websocket-flat r in (ap (λ l. (b ∷ bs) ++ l) e, (small, bounded))
