-- ===== src/Log/Text.antt =====
-- The operations on texts, as code points, that the log of api/runs.py uses.
use z_apply_backend.Base.{
  ℕ, zero, suc, ◌-◌, Bool, true, false, ◌&&◌, ◌||◌, List, [], ◌∷◌, ◌++◌, ◌==◌, leb, length, take,
  if◌then◌else◌,
}

-- What `str.strip()` takes off: the white space of Unicode.
unfoldable pub is_space : ℕ → Bool
is_space c =
    (leb 9 c && leb c 13)
    || (leb 28 c && leb c 32)
    || (c == 133)
    || (c == 160)
    || (c == 5760)
    || (leb 8192 c && leb c 8202)
    || (c == 8232)
    || (c == 8233)
    || (c == 8239)
    || (c == 8287)
    || (c == 12288)

abbrev pub none_left : List ℕ → Bool
none_left [] = true
none_left (c ∷ text) = false

unfoldable pub lstrip : List ℕ → List ℕ
lstrip [] = []
lstrip (c ∷ text) = let rest = lstrip text in if is_space c then rest else c ∷ text

unfoldable pub rstrip : List ℕ → List ℕ
rstrip [] = []
rstrip (c ∷ text) = let rest = rstrip text in if is_space c && none_left rest then [] else c ∷ rest

unfoldable pub strip : List ℕ → List ℕ
strip text = rstrip (lstrip text)

-- `value.replace("\n", " ")`
unfoldable pub spaced : List ℕ → List ℕ
spaced [] = []
spaced (c ∷ text) = (if c == 10 then 32 else c) ∷ spaced text

unfoldable pub shortened : List ℕ → ℕ → List ℕ
shortened value limit =
    if leb (length value) limit then value else take (limit - 1) value ++ 8230 ∷ []

-- `_clip`; every limit in the code is positive.
unfoldable pub clip : List ℕ → ℕ → List ℕ
clip value limit = shortened (strip (spaced value)) limit

abbrev pub spaces : ℕ → List ℕ
spaces zero = []
spaces (suc n) = 32 ∷ spaces n

-- `f"{text:<width}"`
unfoldable pub padded : ℕ → List ℕ → List ℕ
padded width text = text ++ spaces (width - length text)

-- `"\n".join(lines)`
unfoldable pub joined : List (List ℕ) → List ℕ
joined [] = []
joined (line ∷ []) = line
joined (line ∷ next ∷ lines) = line ++ 10 ∷ joined (next ∷ lines)
